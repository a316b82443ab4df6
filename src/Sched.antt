-- ===== src/Sched.antt =====
-- kernel/sched.c: `schedule`, its three loops over the task table, and the system calls that
-- change how a task is scheduled.
--
-- A loop `for (p = &LAST_TASK; p > &FIRST_TASK; --p)` is a recursion on the slot number. The loop
-- `while (1)` has `sched_rounds` rounds of fuel; `Sched.Choice` proves that they are enough.
-- `switch_to` makes the chosen task current. That other tasks run until the caller is switched to
-- again is modelled where code follows a call of `schedule` (`Sched.Sleep`).
pub mod Choice
pub mod Wakes
pub mod Sleep
pub mod Timer
pub mod Tick
pub mod Preemption
pub mod Calls
mod Tests
use linux_0_11_comments.Common.{
  ◌==◌, if◌then◌else◌, ℤ, ◌+ℤ◌, shr1, ltb_ℤ, eq_ℤ, pos, negsuc, Bits, set_bit, clear_bit,
  and_not_bits, any_bit, Run, ok, out_of_fuel, ℕ, zero, suc, ◌-◌, true, false, ◌&&◌, not,
}
use linux_0_11_comments.Kernel.{
  Task, Kernel, last_task, task_running, task_interruptible, sigalrm, sigkill, sigstop, modify,
  sweep,
}

-- signal & ~(_BLOCKABLE & blocked): the signals that are not blocked, SIGKILL and SIGSTOP always.
abbrev pub deliverable : Task → Bits
deliverable t = and_not_bits t.signal (clear_bit (clear_bit t.blocked (sigkill - 1)) (sigstop - 1))

-- An expired alarm becomes the signal SIGALRM.
abbrev pub ring_alarm : ℤ → Task → Task
ring_alarm jiffies t =
    if not (eq_ℤ t.alarm (pos 0)) && ltb_ℤ t.alarm jiffies
    then record t { signal = set_bit t.signal (sigalrm - 1); alarm = pos 0 }
    else t

-- An interruptible task with a signal to deliver may run again.
abbrev pub wake_signalled : Task → Task
wake_signalled t =
    if any_bit 32 (deliverable t) && t.state == task_interruptible
    then record t { state = task_running }
    else t

unfoldable pub check_task : ℤ → Task → Task
check_task jiffies t = wake_signalled (ring_alarm jiffies t)

-- The first loop.
unfoldable pub check_tasks : Kernel → Kernel
check_tasks k = sweep (check_task k.jiffies) last_task k

-- The loop `while (--i)`: the largest counter so far, and its slot.
unfoldable pub pick : Kernel → ℕ → ℤ → ℕ → ℤ × ℕ
pick k zero c next = (c, next)
pick k (suc n) c next =
    let better =
      k.present (suc n)
      && (k.tasks (suc n)).state == task_running
      && ltb_ℤ c (k.tasks (suc n)).counter in
    pick k n (if better then (k.tasks (suc n)).counter else c) (if better then suc n else next)

abbrev pub recharge_task : Task → Task
recharge_task t = record t { counter = shr1 t.counter +ℤ t.priority }

-- The loop that gives every task a new time slice.
unfoldable pub recharge : Kernel → Kernel
recharge k = sweep recharge_task last_task k

-- while (1), and switch_to(next)
unfoldable pub choose : ℕ → Kernel → Run Kernel
choose zero k = out_of_fuel
choose (suc fuel) k =
    let (c, next) = pick k last_task (negsuc 0) 0 in
    elim (eq_ℤ c (pos 0)) [
      | true ↦ choose fuel (recharge k)
      | false ↦ ok (record k { current = next })
    ]

abbrev pub sched_rounds : ℕ
sched_rounds = 2

unfoldable pub schedule : Kernel → Run Kernel
schedule k = choose sched_rounds (check_tasks k)
