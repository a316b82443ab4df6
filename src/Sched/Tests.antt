-- ===== src/Sched/Tests.antt =====
-- The theorems on the scheduler at a table with three tasks.
use linux_0_11_comments.Sched.Wakes.{IsChecked}
use linux_0_11_comments.Sched.Preemption.{use_slice-preempts}
use linux_0_11_comments.Sched.Tick.{use_slice, Clock}
use linux_0_11_comments.Sched.{schedule, check_tasks}
use linux_0_11_comments.Examples.{example-IsFair, example}
use linux_0_11_comments.Kernel.{current_task, Kernel}
use linux_0_11_comments.Common.{
  ℤ, ◌+ℤ◌, ◌-ℤ◌, ◌≤ℤ◌, ◌<ℤ◌, pos, no_bits, ok, ℕ, ◌≤◌, ◌<◌, ◌≡◌, refl, ◌≢◌, ◌⊎◌, true, false, none,
  some, List, [], ◌∷◌, arith,
}
use linux_0_11_comments.Sched.Choice.{IsElected, SameStates, schedule-IsElected}
use linux_0_11_comments.Sched.Wakes.{check_tasks-wakes, IsChecked}
use linux_0_11_comments.Sched.Sleep.{
  sleep_on-returns, sleep_on, wake_up, Waiting, IsAwake, fall_asleep,
}
use linux_0_11_comments.Sched.Timer.{IsSifted, due_times, sift, Timer, sift-due_times}

schedule-IsElected_example :
    (r : Kernel) × (schedule example ≡ ok r) × IsElected r × SameStates (check_tasks example) r
schedule-IsElected_example = schedule-IsElected example example-IsFair

check_tasks-wakes_example :
    ((◌≡◌ {A = ℕ} 1 0) ⊎ (63 < 1) ⊎ (example.present 1 ≡ false))
      × ((check_tasks example).tasks 1 ≡ example.tasks 1)
    ⊎ (1 ≤ 1)
      × (1 ≤ 63)
      × (example.present 1 ≡ true)
      × IsChecked example.jiffies (example.tasks 1) ((check_tasks example).tasks 1)
check_tasks-wakes_example = check_tasks-wakes example 1

abbrev waiting : Waiting
waiting = record { kernel = example; head = some 1 }

sleep_on-returns_example :
    (k : Kernel) × (woken : Waiting) × (r : Waiting) × (schedule (fall_asleep 2 waiting).kernel
      ≡ ok k)
    × (k.current ≢ example.current)
    × ((k.tasks example.current).state ≡ 2)
    × (woken ≡ wake_up (record { kernel = k; head = some (example.current) }))
    × (sleep_on wake_up waiting ≡ ok r)
    × IsAwake (some 1) r.kernel
    × ((i : ℕ) → some 1 ≢ some i → r.kernel.tasks i ≡ woken.kernel.tasks i)
    × (r.head ≡ woken.head)
sleep_on-returns_example = sleep_on-returns wake_up waiting example-IsFair (omega arith)

abbrev timers : List Timer
timers = record { fn = 7; jiffies = pos 10 } ∷ record { fn = 8; jiffies = pos 20 } ∷ []

abbrev soon : Timer
soon = record { fn = 9; jiffies = pos 15 }

sift-due_times_example :
    (before : List Timer) × (after : List Timer) × (d : ℤ) × IsSifted
      (pos 0)
      soon
      timers
      before
      after
      d
sift-due_times_example =
    sift-due_times (pos 0) soon timers (omega arith) (omega arith, (omega arith, tt))

-- The function of the second timer, due after 30 ticks, is called after 35 once one that is due
-- after 15 is added.
late : due_times (pos 0) (sift soon timers) ≡ (7, pos 10) ∷ (9, pos 15) ∷ (8, pos 35) ∷ []
unfolding sift due_times ◌+ℤ◌ ◌-ℤ◌
late = refl

abbrev clock : Clock
clock = record {
  kernel = example;
  timers = [];
  beepcount = pos 0;
  current_dor = no_bits;
  mon_timer = λ _. pos 0;
  moff_timer = λ _. pos 0;
  wait_motor = λ _. none;
}

use_slice-preempts_example :
    (r : Clock) × (use_slice (λ fn c. c) (λ c. c) 3 clock ≡ ok r)
    × ((r.kernel.current ≡ 2)
          × (pos 0 ≤ℤ (current_task r.kernel).counter)
          × (◌≡◌ {A = ℕ} 3 0 ⊎ (pos 1 <ℤ pos 15))
        ⊎ IsElected r.kernel × (◌≢◌ {A = ℕ} 3 0) × (pos 15 ≤ℤ pos 1))
use_slice-preempts_example = use_slice-preempts (λ fn c. c) (λ c. c) 3 clock example-IsFair
