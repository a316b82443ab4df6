-- ===== src/Sched/Sleep.antt =====
-- kernel/sched.c: `sleep_on`, `interruptible_sleep_on` and `wake_up`.
--
-- `head` is `*p`, the task at the head of a wait queue; the queue goes on through the local
-- variables `tmp` of the sleeping tasks. `away` stands for what other tasks do, to the kernel and
-- to the queue, from the call of `schedule` until the sleeper is switched to again.
use linux_0_11_comments.Sched.Wakes.{check_tasks-wakes}
use linux_0_11_comments.Common.{
  ◌==◌, if◌then◌else◌, ==_iff, ==_self, if-cases, Run, ◌>>=◌, task0_sleeping, ok, panic,
  out_of_fuel, ℕ, zero, suc, ◌≡◌, refl, sym, ap, ◌∙◌, subst, ◌≢◌, inl, inr, Bool, true, false, not,
  Option, none, some, arith,
}
use linux_0_11_comments.Kernel.{
  Task, Kernel, modify, modify_current, task_interruptible, task_uninterruptible, task_running,
}
use linux_0_11_comments.Sched.{check_tasks, schedule}
use linux_0_11_comments.Sched.Choice.{SameStates, IsElected, IsFair, schedule-IsElected}

pub record Waiting : Type 0 where
  pub kernel : Kernel
  pub head : Option ℕ

-- if (tmp) tmp->state = 0
unfoldable pub resume : Option ℕ → Kernel → Kernel
resume none k = k
resume (some t) k = modify t (λ task. record task { state = task_running }) k

-- The part of sleep_on before `schedule`.
unfoldable pub fall_asleep : ℕ → Waiting → Waiting
fall_asleep state w = record {
  kernel = modify_current (λ t. record t { state = state }) w.kernel;
  head = some (w.kernel.current);
}

unfoldable pub sleep_on : (Waiting → Waiting) → Waiting → Run Waiting
sleep_on away w = if w.kernel.current == 0 then panic task0_sleeping else (do
  let asleep : Waiting = fall_asleep task_uninterruptible w
  k ← schedule asleep.kernel
  let woken : Waiting = away (record asleep { kernel = k })
  ok (record woken { kernel = resume w.head woken.kernel }))

-- The `repeat` loop of interruptible_sleep_on, on fuel; `tmp` is the old head.
unfoldable pub interruptible_loop : (Waiting → Waiting) → ℕ → Option ℕ → Waiting → Run Waiting
interruptible_loop away zero tmp w = out_of_fuel
interruptible_loop away (suc fuel) tmp w = do
  k ← schedule (modify_current (λ t. record t { state = task_interruptible }) w.kernel)
  let woken : Waiting = away (record w { kernel = k })
  let other : Bool = elim (woken.head) [ none ↦ false | some t ↦ not (t == woken.kernel.current) ]
  elim other [
    | true ↦
        interruptible_loop away fuel tmp (record woken { kernel = resume woken.head woken.kernel })
    | false ↦ ok (record { kernel = resume tmp woken.kernel; head = none })
  ]

unfoldable pub interruptible_sleep_on : (Waiting → Waiting) → ℕ → Waiting → Run Waiting
interruptible_sleep_on away fuel w =
    if w.kernel.current == 0
    then panic task0_sleeping
    else interruptible_loop away fuel w.head (record w { head = some (w.kernel.current) })

unfoldable pub wake_up : Waiting → Waiting
wake_up w = record { kernel = resume w.head w.kernel; head = none }

-- The task of a pointer, if there is one, is in the running state.
abbrev pub IsAwake : Option ℕ → Kernel → Type 0
IsAwake none k = Unit
IsAwake (some t) k = (k.tasks t).state ≡ 0

resume-IsAwake :
    (tmp : Option ℕ) (k : Kernel)
    → IsAwake tmp (resume tmp k) × ((i : ℕ) → tmp ≢ some i → (resume tmp k).tasks i ≡ k.tasks i)
unfolding resume
resume-IsAwake none k = (tt, λ i other. refl)
resume-IsAwake (some t) k = (
  ground arith,
  λ i other.
      if-cases (λ (x : Task). x ≡ k.tasks i) (t == i) _ _
        (λ e. absurd (other (ap some (ground (arith, e))))) (λ e. refl),
)

-- An uninterruptible task stays asleep when `schedule` chooses, and is not chosen.
asleep-not_elected :
    (k r : Kernel) (i : ℕ)
    → (k.tasks i).state ≡ 2
    → i ≢ 0
    → IsElected r
    → SameStates (check_tasks k) r
    → (r.current ≢ i) × ((r.tasks i).state ≡ 2)
asleep-not_elected k r i two ne el st =
    let kept : ((check_tasks k).tasks i).state ≡ 2 = elim (check_tasks-wakes k i) [
      | inl (why, e) ↦ ap (λ (t : Task). t.state) e ∙ two
      | inr (lo, hi, here, h) ↦ elim h.woken [
        | inl (one, e, signal) ↦ absurd (omega (arith, one, two))
        | inr (why, e) ↦ e ∙ two
      ]
    ] in
    let asleep : (r.tasks i).state ≡ 2 = st.state i ∙ kept in
    let not_chosen : r.current ≢ i = λ same. elim el [
      | inl (run, counter, most) ↦
          let running : (r.tasks i).state ≡ 0 =
            subst (λ j. (r.tasks j).state ≡ 0) same run.running in
          absurd (omega (arith, running, asleep))
      | inr (idle, rest) ↦ ne (sym same ∙ idle)
    ] in
    (not_chosen, asleep)

-- For any task but task 0 in a fair table: `sleep_on` makes it the head of the queue and chooses
-- another task, while it stays asleep in the uninterruptible state. When it is switched to again, in the
-- state `woken` that the others left, it returns, with the task that was the head of the queue before
-- it running; so each sleeper wakes the one that fell asleep before. No other task, and not the head
-- that the others left, changes.
pub sleep_on-returns :
    (away : Waiting → Waiting) (w : Waiting)
    → IsFair w.kernel
    → w.kernel.current ≢ 0
    → (k : Kernel) × (woken : Waiting) × (r : Waiting) × (schedule (fall_asleep 2 w).kernel ≡ ok k)
      × (k.current ≢ w.kernel.current)
      × ((k.tasks w.kernel.current).state ≡ 2)
      × (woken ≡ away (record { kernel = k; head = some (w.kernel.current) }))
      × (sleep_on away w ≡ ok r)
      × IsAwake w.head r.kernel
      × ((i : ℕ) → w.head ≢ some i → r.kernel.tasks i ≡ woken.kernel.tasks i)
      × (r.head ≡ woken.head)
unfolding sleep_on fall_asleep
sleep_on-returns away w fair ne =
    let asleep : Kernel = modify_current (λ t. record t { state = 2 }) w.kernel in
    let fair' : IsFair asleep = λ i h. ground (arith, fair i, ==_iff w.kernel.current i) in
    let (k, e, el, st) = schedule-IsElected asleep fair' in
    let go : (w.kernel.current == 0) ≡ false = ground (arith, ne) in
    let two : (asleep.tasks w.kernel.current).state ≡ 2 = rw (==_self w.kernel.current) refl in
    let (other, still) = asleep-not_elected asleep k w.kernel.current two ne el st in
    let woken : Waiting = away (record { kernel = k; head = some (w.kernel.current) }) in
    let (awake, kept) = resume-IsAwake w.head woken.kernel in
    (
      k,
      woken,
      record woken { kernel = resume w.head woken.kernel },
      e,
      other,
      still,
      refl,
      rw (go, e, ◌>>=◌) refl,
      awake,
      kept,
      refl,
    )
