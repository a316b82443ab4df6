-- ===== src/Sys/Identity.antt =====
-- What the calls of kernel/sys.c that change user and group identities allow.
use linux_0_11_comments.Common.{ℤ, ℕ, ◌^◌, ◌<◌, ◌≡◌, ◌≢◌, ◌⊎◌, arith}
use linux_0_11_comments.Kernel.{Task, Kernel, eperm, current_task}
use linux_0_11_comments.Sys.{sys_setregid, sys_setreuid}

-- The identities of a task, which are `unsigned short`s.
pub record IsShort (t : Task) : Type 0 where
  pub uid : t.uid < 2 ^ 16
  pub euid : t.euid < 2 ^ 16
  pub gid : t.gid < 2 ^ 16
  pub egid : t.egid < 2 ^ 16
  pub sgid : t.sgid < 2 ^ 16

abbrev OneOf : ℕ → ℕ → ℕ → Type 0
OneOf x a b = (x ≡ a) ⊎ (x ≡ b)

-- A call of `setreuid` by a task that is not the superuser leaves its real and its effective user
-- each one of the two that it had, for all arguments.
pub sys_setreuid-unprivileged :
    (ruid euid : ℤ) (k : Kernel)
    → IsShort (current_task k)
    → (current_task k).euid ≢ 0
    → let before : Task = current_task k in
      let after : Task = current_task (sys_setreuid ruid euid k).0 in
      OneOf after.uid before.uid before.euid × OneOf after.euid before.uid before.euid
unfolding sys_setreuid
sys_setreuid-unprivileged ruid euid k s h = ground arith

-- A call of `setreuid` that fails with EPERM leaves both users as they were.
sys_setreuid-eperm :
    (ruid euid : ℤ) (k : Kernel)
    → (sys_setreuid ruid euid k).1 ≡ eperm
    → let after : Task = current_task (sys_setreuid ruid euid k).0 in
      (after.uid ≡ (current_task k).uid) × (after.euid ≡ (current_task k).euid)
unfolding sys_setreuid
sys_setreuid-eperm ruid euid k h = ground arith

-- A call of `setregid` that fails with EPERM leaves both groups as they were.
sys_setregid-eperm :
    (rgid egid : ℤ) (k : Kernel)
    → IsShort (current_task k)
    → (sys_setregid rgid egid k).1 ≡ eperm
    → let after : Task = current_task (sys_setregid rgid egid k).0 in
      (after.gid ≡ (current_task k).gid) × (after.egid ≡ (current_task k).egid)
unfolding sys_setregid
sys_setregid-eperm rgid egid k s h = ground arith
