-- ===== src/Sys/Tests.antt =====
-- The theorems on kernel/sys.c at a table with three tasks.
use linux_0_11_comments.Examples.{example}
use linux_0_11_comments.Sys.{sys_setpgid, sys_setreuid}
use linux_0_11_comments.Kernel.{modify, esrch, eperm, current_task, Task}
use linux_0_11_comments.Common.{
  if◌then◌else◌, eq_ℤ, pos, ℕ, ◌<◌, ◌≡◌, ◌≢◌, ◌⊎◌, true, ◌||◌, not, arith,
}
use linux_0_11_comments.Sys.Identity.{IsShort, sys_setreuid-unprivileged}
use linux_0_11_comments.Sys.Session.{sys_setpgid-outcome}

child-IsShort : IsShort (current_task example)
child-IsShort = record {
  uid = omega arith;
  euid = omega arith;
  gid = omega arith;
  egid = omega arith;
  sgid = omega arith;
}

sys_setreuid-unprivileged_example :
    let after : Task = current_task (sys_setreuid (pos 0) (pos 5) example).0 in
    ((after.uid ≡ 5) ⊎ (after.uid ≡ 5)) × ((after.euid ≡ 5) ⊎ (after.euid ≡ 5))
sys_setreuid-unprivileged_example =
    sys_setreuid-unprivileged (pos 0) (pos 5) example child-IsShort (omega arith)

sys_setpgid-outcome_example :
    (sys_setpgid (pos 1) (pos 2) example ≡ (example, esrch))
      × ((j : ℕ) → j < 64 → example.present j ≡ true → (example.tasks j).pid ≢ pos 1)
    ⊎ (i : ℕ) × (example.present i ≡ true)
      × ((example.tasks i).pid ≡ pos 1)
      × (sys_setpgid (pos 1) (pos 2) example ≡ (
          if (example.tasks i).leader || not (eq_ℤ (example.tasks i).session (pos 1))
          then (example, eperm)
          else (modify i (λ t. record t { pgrp = pos 2 }) example, pos 0)))
sys_setpgid-outcome_example =
    sys_setpgid-outcome (pos 1) (pos 2) example (λ e. ground (arith, e)) (λ e. ground (arith, e))
