-- ===== src/Exit/Kill.antt =====
-- Which tasks `kill` signals.
use linux_0_11_comments.Common.{
  leb, ◌==◌, if◌then◌else◌, ==_iff, Bool-cases, ℤ, ◌-ℤ◌, ltb_ℤ, eq_ℤ, pos, negsuc, set_bit, ℕ, zero,
  suc, ◌-◌, ◌≤◌, ◌≡◌, ◌∙◌, ◌⊎◌, inl, inr, Bool, true, false, ◌&&◌, ◌||◌, arith,
}
use linux_0_11_comments.Kernel.{swept, with_tasks, Task, Kernel, last_task, current_task, suser}
use linux_0_11_comments.Exit.{modify, send_sig, kill_one, kill_loop, sys_kill}

-- May the current task send a signal with `priv` to task `t`?
abbrev may_signal : Kernel → Bool → Task → Bool
may_signal k priv t = priv || (current_task k).euid == t.euid || suser k

-- The tasks that `kill` means by `pid`, with the permission that it asks for.
unfoldable pub is_target : ℤ → Kernel → Task → Bool
is_target pid k t =
    if eq_ℤ pid (pos 0)
    then eq_ℤ t.pgrp (current_task k).pid
    else may_signal k false t
      && (if ltb_ℤ (pos 0) pid
          then eq_ℤ t.pid pid
          else if eq_ℤ pid (negsuc 0)
          then true
          else eq_ℤ t.pgrp (pos 0 -ℤ pid))

abbrev signalled : ℤ → ℕ → Kernel → Task → Task
signalled pid sig k t =
    if is_target pid k t then record t { signal = set_bit t.signal (sig - 1) } else t

kill_one-hit :
    (pid : ℤ) (sig i : ℕ) (k : Kernel)
    → 1 ≤ sig
    → sig ≤ 32
    → k.present i ≡ true
    → is_target pid k (k.tasks i) ≡ true
    → (kill_one pid (pos sig) i k).0
      ≡ modify i (λ t. record t { signal = set_bit t.signal (sig - 1) }) k
unfolding kill_one send_sig is_target
kill_one-hit pid sig i k lo hi p t = ground arith

kill_one-miss :
    (pid : ℤ) (sig i : ℕ) (k : Kernel)
    → (k.present i ≡ false) ⊎ (is_target pid k (k.tasks i) ≡ false)
    → (kill_one pid (pos sig) i k).0 ≡ k
unfolding kill_one send_sig is_target
kill_one-miss pid sig i k h = ground arith

kill_one-signalled :
    (pid : ℤ) (sig i : ℕ) (k : Kernel)
    → 1 ≤ sig
    → sig ≤ 32
    → (kill_one pid (pos sig) i k).0 ≡ (if k.present i then modify i (signalled pid sig k) k else k)
kill_one-signalled pid sig i k lo hi = elim (Bool-cases (k.present i)) [
  | inr p ↦ rw (p, kill_one-miss pid sig i k (inl p))
  | inl p ↦ elim (Bool-cases (is_target pid k (k.tasks i))) [
    | inl t ↦ kill_one-hit pid sig i k lo hi p t ∙ rw p (with_tasks k _ _ (λ j. ground arith))
    | inr t ↦
        kill_one-miss pid sig i k (inr t)
        ∙ rw p (with_tasks k _ _ (λ j. ground (arith, ==_iff i j)))
  ]
]

-- Signals change neither who the current task is nor what decides on permissions.
is_target-modify :
    (pid : ℤ) (sig i : ℕ) (k : Kernel) (t : Task)
    → is_target pid (modify i (signalled pid sig k) k) t ≡ is_target pid k t
unfolding is_target
is_target-modify pid sig i k t = ground arith

kill_loop-swept :
    (pid : ℤ) (sig : ℕ) (n : ℕ) (r : ℤ) (k : Kernel)
    → 1 ≤ sig
    → sig ≤ 32
    → (kill_loop pid (pos sig) n r k).0 ≡ record k { tasks = swept (signalled pid sig k) n k }
unfolding kill_loop
kill_loop-swept pid sig zero r k lo hi = with_tasks k _ _ (λ i. ground arith)
kill_loop-swept pid sig (suc n) r k lo hi =
    kill_loop-swept pid sig n _ _ lo hi
    ∙ rw (kill_one-signalled pid sig (suc n) k lo hi) (elim (Bool-cases (k.present (suc n))) [
      | inr p ↦ rw p (with_tasks k _ _ (λ i. ground (arith, ==_iff (suc n) i)))
      | inl p ↦ rw p (
          with_tasks k _ _
            (λ i. ground (arith, ==_iff (suc n) i, is_target-modify pid sig (suc n) k (k.tasks i))))
    ])

-- For every valid signal number, `kill` sets that signal for exactly the tasks of the slots 1 to
-- 63 that `pid` means: for 0 those whose group is the caller's process number, and otherwise, among
-- those with the caller's effective user (all, for the superuser), the task with this number, all
-- tasks for -1, or the group -pid. Nothing else in the table changes.
pub sys_kill-signals :
    (pid : ℤ) (sig : ℕ) (k : Kernel)
    → 1 ≤ sig
    → sig ≤ 32
    → (sys_kill pid (pos sig) k).0 ≡ record k {
      tasks = λ i.
          if k.present i && (leb 1 i && leb i 63) && is_target pid k (k.tasks i)
          then record (k.tasks i) { signal = set_bit (k.tasks i).signal (sig - 1) }
          else k.tasks i;
    }
unfolding sys_kill
sys_kill-signals pid sig k lo hi =
    kill_loop-swept pid sig last_task (pos 0) k lo hi ∙ with_tasks k _ _ (λ i. ground arith)
