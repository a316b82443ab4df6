-- ===== src/Sys/Session.antt =====
-- Sessions and process groups: `setsid` and `setpgid` of kernel/sys.c.
use linux_0_11_comments.Common.{
  ◌==◌, if◌then◌else◌, Option-cases, ℤ, eq_ℤ, eq_of_eq_ℤ, pos, negsuc, ℕ, zero, suc, ◌+◌, ◌≤◌, ◌<◌,
  ◌≡◌, ◌≢◌, ◌⊎◌, inl, inr, true, false, ◌||◌, not, none, some, arith,
}
use linux_0_11_comments.Kernel.{modify, Task, Kernel, eperm, esrch, nr_tasks, current_task}
use linux_0_11_comments.Sys.{find_pid, sys_setpgid, sys_setsid}

-- The slot that the search finds holds a task with this pid; if it finds none, no slot does.
pub find_pid-some :
    (n i : ℕ) (pid : ℤ) (k : Kernel) (j : ℕ)
    → find_pid n i pid k ≡ some j
    → (i ≤ j) × (j < i + n) × (k.present j ≡ true) × ((k.tasks j).pid ≡ pid)
unfolding find_pid
find_pid-some zero i pid k j h = cc
find_pid-some (suc n) i pid k j h =
    ground (arith, find_pid-some n (i + 1) pid k j, eq_of_eq_ℤ (k.tasks i).pid pid)

pub find_pid-none :
    (n i : ℕ) (pid : ℤ) (k : Kernel) (j : ℕ)
    → find_pid n i pid k ≡ none
    → i ≤ j
    → j < i + n
    → k.present j ≡ true
    → (k.tasks j).pid ≢ pid
unfolding find_pid
find_pid-none zero i pid k j h a b p e = absurd (omega arith)
find_pid-none (suc n) i pid k j h a b p e = ground (arith, find_pid-none n (i + 1) pid k j)

setpgid_missing :
    (pid pgid : ℤ) (k : Kernel)
    → pid ≢ pos 0
    → find_pid nr_tasks 0 pid k ≡ none
    → sys_setpgid pid pgid k ≡ (k, esrch)
unfolding sys_setpgid
setpgid_missing pid pgid k h f =
    let e : eq_ℤ pid (pos 0) ≡ false = ground arith in rw (e, sys_setpgid) (rw f)

setpgid_found :
    (pid pgid : ℤ) (k : Kernel) (i : ℕ)
    → pid ≢ pos 0
    → pgid ≢ pos 0
    → find_pid nr_tasks 0 pid k ≡ some i
    → sys_setpgid pid pgid k ≡ (
        if (k.tasks i).leader || not (eq_ℤ (k.tasks i).session (current_task k).session)
        then (k, eperm)
        else (modify i (λ t. record t { pgrp = pgid }) k, pos 0))
unfolding sys_setpgid
setpgid_found pid pgid k i h h' f =
    let e : eq_ℤ pid (pos 0) ≡ false = ground arith in
    let e' : eq_ℤ pgid (pos 0) ≡ false = ground arith in
    rw (e, sys_setpgid) (rw f (rw e' (ground arith)))

-- Every outcome of `setpgid` with both arguments given: ESRCH only if no task has the pid;
-- otherwise some task with the pid decides, and its group changes exactly if it is no session
-- leader and is in the caller's session. No other field of any task changes.
pub sys_setpgid-outcome :
    (pid pgid : ℤ) (k : Kernel)
    → pid ≢ pos 0
    → pgid ≢ pos 0
    → (sys_setpgid pid pgid k ≡ (k, esrch))
        × ((j : ℕ) → j < nr_tasks → k.present j ≡ true → (k.tasks j).pid ≢ pid)
      ⊎ (i : ℕ) × (k.present i ≡ true)
        × ((k.tasks i).pid ≡ pid)
        × (sys_setpgid pid pgid k ≡ (
            if (k.tasks i).leader || not (eq_ℤ (k.tasks i).session (current_task k).session)
            then (k, eperm)
            else (modify i (λ t. record t { pgrp = pgid }) k, pos 0)))
unfolding sys_setpgid
sys_setpgid-outcome pid pgid k h h' = elim (Option-cases (find_pid nr_tasks 0 pid k)) [
  | inl f ↦ inl (
    setpgid_missing pid pgid k h f,
    λ j a p. find_pid-none nr_tasks 0 pid k j f (omega arith) (omega arith) p,
  )
  | inr (i, f) ↦
      let found = find_pid-some nr_tasks 0 pid k i f in
      inr (i, found.2, found.3, setpgid_found pid pgid k i h h' f)
]

-- `setsid` makes any task but a session leader that is not the superuser the leader of a session
-- and a group of its own, without a terminal; a second call of it then fails unless the task is
-- the superuser.
pub sys_setsid-leads :
    (k : Kernel)
    → (current_task k).leader ≡ false
    → let after : Kernel = (sys_setsid k).0 in
      let t : Task = current_task after in
      ((sys_setsid k).1 ≡ (current_task k).pid)
      × (t.leader ≡ true)
      × (t.session ≡ t.pid)
      × (t.pgrp ≡ t.pid)
      × (t.tty ≡ negsuc 0)
      × ((sys_setsid after).1 ≡ (if t.euid == 0 then t.pid else eperm))
unfolding sys_setsid
sys_setsid-leads k h = ground arith
