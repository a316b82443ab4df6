-- ===== src/Sched/Preemption.antt =====
-- When the clock interrupt takes the processor away (kernel/sched.c, `do_timer`).
use linux_0_11_comments.Sched.Choice.{schedule-IsElected, IsElected, IsFair}
use linux_0_11_comments.Kernel.{current_task, modify_current, Kernel}
use linux_0_11_comments.Common.{
  ◌==◌, ==_iff, Bool-cases, ==_self, ℤ, ◌-ℤ◌, ◌≤ℤ◌, ◌<ℤ◌, ltb_ℤ, pos, ◌>>=◌, ok, ℕ, ◌≡◌, refl, ◌≢◌,
  ◌⊎◌, inl, inr, arith,
}
use linux_0_11_comments.Sched.Tick.{use_slice, Clock}

-- The current task's counter is `n`.
abbrev with_counter : ℤ → Kernel → Kernel
with_counter n k = modify_current (λ t. record t { counter = n }) k

with_counter-IsFair : (n : ℤ) (k : Kernel) → pos 0 ≤ℤ n → IsFair k → IsFair (with_counter n k)
with_counter-IsFair n k h fair i here = ground (arith, fair i, ==_iff k.current i)

-- For tasks with positive priorities and counters that are not negative, the last part of
-- `do_timer` returns. Either the current task goes on, with a counter that is not negative, because
-- it was interrupted in the kernel or has more than one tick left; or it was interrupted in user
-- mode with its last tick used up, and `schedule` has chosen a runnable task with the largest
-- counter, or the idle task if there is none.
pub use_slice-preempts :
    (run : ℕ → Clock → Clock) (stop_beep : Clock → Clock) (cpl : ℕ) (c : Clock)
    → IsFair c.kernel
    → let counter : ℤ = (current_task c.kernel).counter in
      (r : Clock) × (use_slice run stop_beep cpl c ≡ ok r)
      × ((r.kernel.current ≡ c.kernel.current)
            × (pos 0 ≤ℤ (current_task r.kernel).counter)
            × ((cpl ≡ 0) ⊎ (pos 1 <ℤ counter))
          ⊎ IsElected r.kernel × (cpl ≢ 0) × (counter ≤ℤ pos 1))
unfolding use_slice ◌-ℤ◌
use_slice-preempts run stop_beep cpl c fair =
    let left : ℤ = (current_task c.kernel).counter -ℤ pos 1 in
    elim (Bool-cases (ltb_ℤ (pos 0) left)) [
      | inl e ↦ (
        record c { kernel = with_counter left c.kernel },
        rw e refl,
        inl (refl, ground (arith, ==_self c.kernel.current), inr (ground arith)),
      )
      | inr e ↦ elim (Bool-cases (cpl == 0)) [
        | inl z ↦ (
          record c { kernel = with_counter (pos 0) c.kernel },
          rw (e, z) refl,
          inl (refl, ground (arith, ==_self c.kernel.current), inl (ground arith)),
        )
        | inr z ↦
            let (k, eq, elected, states) =
              schedule-IsElected (with_counter (pos 0) c.kernel)
                (with_counter-IsFair (pos 0) c.kernel (omega arith) fair) in
            (
              record c { kernel = k },
              rw (e, z, eq, ◌>>=◌) refl,
              inr (elected, ground arith, ground arith),
            )
      ]
    ]
