-- ===== src/Sched/Wakes.antt =====
-- The first loop of `schedule` in kernel/sched.c: alarms, and signals that wake a task.
use linux_0_11_comments.Kernel.{sweep-swept, Kernel, Task}
use linux_0_11_comments.Sched.{wake_signalled, ring_alarm, deliverable, check_tasks, check_task}
use linux_0_11_comments.Common.{
  leb, ◌==◌, Bool-cases, if-cases, ℤ, ◌≤ℤ◌, ◌<ℤ◌, ltb_ℤ, eq_ℤ, eq_of_eq_ℤ, pos, Bits, set_bit,
  any_bit, any_bit-false, ℕ, zero, suc, ◌+◌, ◌≤◌, ◌<◌, ◌≡◌, refl, sym, ap, subst, ◌≢◌, ◌⊎◌, inl,
  inr, true, false, ◌&&◌, not, arith,
}

-- A signal that the task has, and does not block or cannot block: SIGKILL (9) and SIGSTOP (19).
abbrev pub HasSignal : Task → Type 0
HasSignal t =
    (n : ℕ) × (n < 32) × (t.signal n ≡ true) × ((t.blocked n ≡ false) ⊎ (n + 1 ≡ 9) ⊎ (n + 1 ≡ 19))

-- What the first loop of `schedule` does at the time `now` to the task `old`.
pub record IsChecked (now : ℤ) (old t : Task) : Type 0 where
  pub rung :
      ((old.alarm ≡ pos 0) ⊎ (now ≤ℤ old.alarm)) × (t.signal ≡ old.signal) × (t.alarm ≡ old.alarm)
      ⊎ (old.alarm ≢ pos 0)
        × (old.alarm <ℤ now)
        × (t.signal ≡ set_bit old.signal 13)
        × (t.alarm ≡ pos 0)
  pub woken :
      (old.state ≡ 1) × (t.state ≡ 0) × HasSignal t
      ⊎ ((old.state ≢ 1) ⊎ ¬ HasSignal t) × (t.state ≡ old.state)
  pub same : t ≡ record old { signal = t.signal; alarm = t.alarm; state = t.state }

any_bit-at : (n : ℕ) (w : Bits) → any_bit n w ≡ true → (i : ℕ) × (i < n) × (w i ≡ true)
unfolding any_bit
any_bit-at zero w e = absurd (ground (arith, e))
any_bit-at (suc n) w e = elim (Bool-cases (w n)) [
  | inl here ↦ (n, omega arith, here)
  | inr gone ↦
      let (i, lt, at) = any_bit-at n w (ground (arith, e, gone)) in (i, omega (arith, lt), at)
]

HasSignal-of : (t : Task) → any_bit 32 (deliverable t) ≡ true → HasSignal t
HasSignal-of t e =
    let (i, lt, at) = any_bit-at 32 (deliverable t) e in
    (i, lt, ground (arith, at), ground (arith, at))

no_HasSignal : (t : Task) → any_bit 32 (deliverable t) ≡ false → ¬ HasSignal t
no_HasSignal t e (i, lt, has, free) =
    let gone = any_bit-false 32 (deliverable t) i lt e in ground (arith, gone, has, free)

wake_signalled-woken :
    (t : Task)
    → (t.state ≡ 1) × ((wake_signalled t).state ≡ 0) × HasSignal (wake_signalled t)
      ⊎ ((t.state ≢ 1) ⊎ ¬ HasSignal (wake_signalled t)) × ((wake_signalled t).state ≡ t.state)
wake_signalled-woken t = elim (Bool-cases (any_bit 32 (deliverable t))) [
  | inl e ↦ elim (Bool-cases (t.state == 1)) [
    | inl s ↦ rw (e, s) (inl (ground (arith, s), refl, HasSignal-of t e))
    | inr s ↦ rw (e, s) (inr (inl (ground (arith, s)), refl))
  ]
  | inr e ↦ rw e (inr (inr (no_HasSignal t e), refl))
]

ring_alarm-rung :
    (now : ℤ) (t : Task)
    → let r : Task = ring_alarm now t in
      ((t.alarm ≡ pos 0) ⊎ (now ≤ℤ t.alarm)) × (r.signal ≡ t.signal) × (r.alarm ≡ t.alarm)
      ⊎ (t.alarm ≢ pos 0) × (t.alarm <ℤ now) × (r.signal ≡ set_bit t.signal 13) × (r.alarm ≡ pos 0)
ring_alarm-rung now t = elim (Bool-cases (eq_ℤ t.alarm (pos 0))) [
  | inl z ↦ rw z (inl (inl (eq_of_eq_ℤ t.alarm (pos 0) z), refl, refl))
  | inr nz ↦ elim (Bool-cases (ltb_ℤ t.alarm now)) [
    | inl e ↦ rw (nz, e) (inr (ground (arith, nz), ground (arith, e), refl, refl))
    | inr e ↦ rw (nz, e) (inl (inr (ground (arith, e)), refl, refl))
  ]
]

-- The task `x` differs from `t` at most in its signals, its alarm and its state.
abbrev Same : Task → Task → Type 0
Same t x = x ≡ record t { signal = x.signal; alarm = x.alarm; state = x.state }

ring_alarm-Same : (now : ℤ) (t : Task) → Same t (ring_alarm now t)
ring_alarm-Same now t =
    if-cases (Same t) (not (eq_ℤ t.alarm (pos 0)) && ltb_ℤ t.alarm now) _ _ (λ e. refl) (λ e. refl)

check_task-Same : (now : ℤ) (t : Task) → Same t (check_task now t)
unfolding check_task
check_task-Same now t =
    let r : Task = ring_alarm now t in
    if-cases (Same t) (any_bit 32 (deliverable r) && r.state == 1) _ _
      (λ e. ap (λ (x : Task). record x { state = 0 }) (ring_alarm-Same now t))
      (λ e. ring_alarm-Same now t)

wake_signalled-kept :
    (t : Task) → ((wake_signalled t).signal ≡ t.signal) × ((wake_signalled t).alarm ≡ t.alarm)
wake_signalled-kept t =
    if-cases (λ (x : Task). (x.signal ≡ t.signal) × (x.alarm ≡ t.alarm))
      (any_bit 32 (deliverable t) && t.state == 1) _ _ (λ e. (refl, refl)) (λ e. (refl, refl))

ring_alarm-state : (now : ℤ) (t : Task) → (ring_alarm now t).state ≡ t.state
ring_alarm-state now t =
    if-cases (λ (x : Task). x.state ≡ t.state) (not (eq_ℤ t.alarm (pos 0)) && ltb_ℤ t.alarm now) _ _
      (λ e. refl) (λ e. refl)

check_task-IsChecked : (now : ℤ) (t : Task) → IsChecked now t (check_task now t)
unfolding check_task
check_task-IsChecked now t =
    let r : Task = ring_alarm now t in
    let w : Task = wake_signalled r in
    let (signals, alarms) = wake_signalled-kept r in
    record {
      rung =
          subst
            (λ (x : Bits).
              ((t.alarm ≡ pos 0) ⊎ (now ≤ℤ t.alarm)) × (x ≡ t.signal) × (w.alarm ≡ t.alarm)
              ⊎ (t.alarm ≢ pos 0)
                × (t.alarm <ℤ now)
                × (x ≡ set_bit t.signal 13)
                × (w.alarm ≡ pos 0))
            (sym signals)
            (subst
              (λ (x : ℤ).
                ((t.alarm ≡ pos 0) ⊎ (now ≤ℤ t.alarm)) × (r.signal ≡ t.signal) × (x ≡ t.alarm)
                ⊎ (t.alarm ≢ pos 0)
                  × (t.alarm <ℤ now)
                  × (r.signal ≡ set_bit t.signal 13)
                  × (x ≡ pos 0))
              (sym alarms) (ring_alarm-rung now t));
      woken =
          subst
            (λ (n : ℕ).
              (n ≡ 1) × (w.state ≡ 0) × HasSignal w ⊎ ((n ≢ 1) ⊎ ¬ HasSignal w) × (w.state ≡ n))
            (ring_alarm-state now t) (wake_signalled-woken r);
      same = check_task-Same now t;
    }

-- Before the choice, `schedule` looks at every slot. It leaves slot 0, and empty ones, as they are.
-- A task in a slot from 1 to 63 gets SIGALRM, and no alarm, exactly if its alarm is set and past; it is
-- made runnable exactly if it is interruptible and then has a signal that it does not block, where
-- SIGKILL and SIGSTOP cannot be blocked; and nothing else of it changes.
pub check_tasks-wakes :
    (k : Kernel) (i : ℕ)
    → ((i ≡ 0) ⊎ (63 < i) ⊎ (k.present i ≡ false)) × ((check_tasks k).tasks i ≡ k.tasks i)
      ⊎ (1 ≤ i)
        × (i ≤ 63)
        × (k.present i ≡ true)
        × IsChecked k.jiffies (k.tasks i) ((check_tasks k).tasks i)
unfolding check_tasks
check_tasks-wakes k i = elim (Bool-cases (k.present i && (leb 1 i && leb i 63))) [
  | inl e ↦ inr (
    ground (arith, e),
    ground (arith, e),
    ground (arith, e),
    rw (sweep-swept, e) (check_task-IsChecked k.jiffies (k.tasks i)),
  )
  | inr e ↦ inl (ground (arith, e), rw (sweep-swept, e) refl)
]
