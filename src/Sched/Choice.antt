-- ===== src/Sched/Choice.antt =====
-- `schedule` of kernel/sched.c terminates, and runs a task with the largest time slice left.
use linux_0_11_comments.Common.{
  ◌==◌, Bool-cases, ℤ, ◌+ℤ◌, ◌≤ℤ◌, ◌<ℤ◌, ltb_ℤ, eq_ℤ, pos, negsuc, ok, ℕ, zero, suc, ◌≤◌, ◌≡◌, refl,
  ◌∙◌, ◌⊎◌, inl, inr, true, false, ◌&&◌, arith,
}
use linux_0_11_comments.Kernel.{Kernel, last_task, sweep-swept, swept}
use linux_0_11_comments.Sched.{
  check_task, check_tasks, schedule, pick, recharge_task, recharge, choose,
}

-- `schedule` may switch to the task of slot `i`.
pub record IsRunnable (k : Kernel) (i : ℕ) : Type 0 where
  pub positive : 1 ≤ i
  pub in_table : i ≤ 63
  pub present : k.present i ≡ true
  pub running : (k.tasks i).state ≡ 0

-- Priorities are positive and counters are not negative, as `fork`, `nice` and the timer keep them.
abbrev pub IsFair : Kernel → Type 0
IsFair k =
    (i : ℕ) → k.present i ≡ true → (pos 0 <ℤ (k.tasks i).priority) × (pos 0 ≤ℤ (k.tasks i).counter)

-- What `pick` has found in the slots n, ..., 1, from `c` and `next` on.
record IsPicked (k : Kernel) (n : ℕ) (c : ℤ) (next : ℕ) (r : ℤ × ℕ) : Type 0 where
  grows : c ≤ℤ r.0
  largest :
      (i : ℕ)
      → 1 ≤ i
      → i ≤ n
      → k.present i ≡ true
      → (k.tasks i).state ≡ 0
      → (k.tasks i).counter ≤ℤ r.0
  found :
      (r.0 ≡ c) × (r.1 ≡ next)
      ⊎ (1 ≤ r.1)
        × (r.1 ≤ n)
        × (k.present r.1 ≡ true)
        × ((k.tasks r.1).state ≡ 0)
        × ((k.tasks r.1).counter ≡ r.0)

pick-IsPicked : (k : Kernel) (n : ℕ) (c : ℤ) (next : ℕ) → IsPicked k n c next (pick k n c next)
unfolding pick
pick-IsPicked k zero c next = record {
  grows = omega arith;
  largest = λ i a b. absurd (omega arith);
  found = inl (refl, refl);
}
pick-IsPicked k (suc n) c next =
    let better =
      k.present (suc n) && (k.tasks (suc n)).state == 0 && ltb_ℤ c (k.tasks (suc n)).counter in
    elim (Bool-cases better) [
      | inl e ↦ rw e (
          let h = pick-IsPicked k n (k.tasks (suc n)).counter (suc n) in
          record {
            grows = ground (arith, h.grows);
            largest = λ i a b p r. ground (arith, h.largest i, h.grows);
            found = inr (ground (arith, h.found));
          })
      | inr e ↦ rw e (
          let h = pick-IsPicked k n c next in
          record {
            grows = h.grows;
            largest = λ i a b p r. ground (arith, h.largest i, h.grows);
            found = ground (arith, h.found);
          })
    ]

recharge-eq : (k : Kernel) → recharge k ≡ record k { tasks = swept recharge_task last_task k }
unfolding recharge
recharge-eq k = sweep-swept recharge_task last_task k

-- The outcome of `schedule`: the current task is a runnable one with the largest counter, which is
-- positive, or it is the idle task and there is no runnable one.
abbrev pub IsElected : Kernel → Type 0
IsElected k =
    IsRunnable k k.current
      × (pos 0 <ℤ (k.tasks k.current).counter)
      × ((i : ℕ) → IsRunnable k i → (k.tasks i).counter ≤ℤ (k.tasks k.current).counter)
    ⊎ (k.current ≡ 0) × ((i : ℕ) → ¬ IsRunnable k i)

-- One round that ends the loop.
elected :
    (k : Kernel) (r : ℤ × ℕ)
    → IsFair k
    → IsPicked k last_task (negsuc 0) 0 r
    → eq_ℤ r.0 (pos 0) ≡ false
    → IsElected (record k { current = r.1 })
elected k r fair p e = elim p.found [
  | inl (a, b) ↦ inr (
    b,
    λ i h. ground (arith, p.largest i h.positive h.in_table h.present h.running, fair i h.present),
  )
  | inr (a, b, c, d, f) ↦ inl (
    record { positive = a; in_table = b; present = c; running = d },
    ground (arith, fair r.1 c),
    λ i h. ground (arith, p.largest i h.positive h.in_table h.present h.running),
  )
]

-- After a new time slice the counters of the runnable tasks are positive.
recharge-IsFair : (k : Kernel) → IsFair k → IsFair (recharge k)
unfolding ◌+ℤ◌
recharge-IsFair k fair i h =
    let here : k.present i ≡ true = rw recharge-eq at h in
    rw recharge-eq (ground (arith, fair i here))

recharge-not_zero :
    (k : Kernel) (i : ℕ) (r : ℤ × ℕ)
    → IsFair k
    → IsRunnable k i
    → IsPicked (recharge k) last_task (negsuc 0) 0 r
    → eq_ℤ r.0 (pos 0) ≡ false
unfolding ◌+ℤ◌
recharge-not_zero k i r fair h p =
    let p' : IsPicked (record k { tasks = swept recharge_task last_task k }) last_task (negsuc 0) 0
        r =
      rw recharge-eq at p in
    ground (
      arith,
      h.positive,
      h.in_table,
      h.present,
      h.running,
      p'.largest i h.positive h.in_table h.present,
      fair i h.present,
    )

abbrev picked : Kernel → ℤ × ℕ
picked k = pick k last_task (negsuc 0) 0

choose_ends :
    (fuel : ℕ) (k : Kernel)
    → eq_ℤ (picked k).0 (pos 0) ≡ false
    → choose (suc fuel) k ≡ ok (record k { current = (picked k).1 })
unfolding choose
choose_ends fuel k e = rw (e, choose)

choose_repeats :
    (fuel : ℕ) (k : Kernel)
    → eq_ℤ (picked k).0 (pos 0) ≡ true
    → choose (suc fuel) k ≡ choose fuel (recharge k)
unfolding choose
choose_repeats fuel k e = rw (e, choose)

-- A largest counter of 0 belongs to a runnable task.
IsRunnable-of_zero :
    (k : Kernel) (r : ℤ × ℕ)
    → IsPicked k last_task (negsuc 0) 0 r
    → eq_ℤ r.0 (pos 0) ≡ true
    → IsRunnable k r.1
IsRunnable-of_zero k r p e = elim p.found [
  | inl (a, b) ↦ absurd (ground arith)
  | inr (a, b, c, d, f) ↦ record { positive = a; in_table = b; present = c; running = d }
]

-- The table has the same tasks, in the same states.
pub record SameStates (k r : Kernel) : Type 0 where
  pub present : (i : ℕ) → r.present i ≡ k.present i
  pub state : (i : ℕ) → (r.tasks i).state ≡ (k.tasks i).state

recharge-SameStates : (k : Kernel) (n : ℕ) → SameStates k (record (recharge k) { current = n })
recharge-SameStates k n = rw recharge-eq (record { present = λ i. refl; state = λ i. ground arith })

-- Two rounds are enough.
choose-IsElected :
    (k : Kernel) → IsFair k → (r : Kernel) × (choose 2 k ≡ ok r) × IsElected r × SameStates k r
choose-IsElected k fair =
    let p = pick-IsPicked k last_task (negsuc 0) 0 in
    elim (Bool-cases (eq_ℤ (picked k).0 (pos 0))) [
      | inr e ↦ (
        _,
        choose_ends 1 k e,
        elected k (picked k) fair p e,
        record { present = λ i. refl; state = λ i. refl },
      )
      | inl e ↦
          let k' = recharge k in
          let q = pick-IsPicked k' last_task (negsuc 0) 0 in
          let e' =
            recharge-not_zero k (picked k).1 (picked k') fair (IsRunnable-of_zero k (picked k) p e)
              q in
          (
            _,
            choose_repeats 1 k e ∙ choose_ends 0 k' e',
            elected k' (picked k') (recharge-IsFair k fair) q e',
            recharge-SameStates k (picked k').1,
          )
    ]

check_tasks-IsFair : (k : Kernel) → IsFair k → IsFair (check_tasks k)
unfolding check_tasks check_task
check_tasks-IsFair k fair i h =
    let here : k.present i ≡ true = rw sweep-swept at h in
    rw sweep-swept (ground (arith, fair i here))

pub check_tasks-present : (k : Kernel) (i : ℕ) → (check_tasks k).present i ≡ k.present i
unfolding check_tasks
check_tasks-present k i = rw sweep-swept

-- If every task's priority is positive and its counter at least 0, `schedule` returns: it switches
-- to a runnable task whose counter is positive and the largest among the runnable ones, or to the
-- idle task if no task is runnable. The tasks are in the states that the signal check left.
pub schedule-IsElected :
    (k : Kernel)
    → IsFair k
    → (r : Kernel) × (schedule k ≡ ok r) × IsElected r × SameStates (check_tasks k) r
unfolding schedule
schedule-IsElected k fair = choose-IsElected (check_tasks k) (check_tasks-IsFair k fair)
