-- ===== src/Sched/Calls.antt =====
-- kernel/sched.c: the system calls alarm, nice and the getters, and kernel/fork.c's
-- `find_empty_process`.
use linux_0_11_comments.Common.{
  ltb, if◌then◌else◌, ==_iff, ==_self, ℤ, ◌+ℤ◌, ◌-ℤ◌, scale, quot, ltb_ℤ, eq_ℤ, pos_add, pos_sub,
  scale-pos, ltb_ℤ-pos, pos, Run, ok, out_of_fuel, ℕ, zero, suc, ◌+◌, ◌-◌, ◌*◌, ◌^◌, ◌<◌, ◌≡◌, Bool,
  true, false, ◌&&◌, ◌||◌, Option, none, some, arith, ◌>>=◌,
}
use linux_0_11_comments.Kernel.{Kernel, hz, nr_tasks, eagain, current_task, modify_current}
use linux_0_11_comments.Sched.Choice.{IsFair}

unfoldable pub sys_alarm : ℤ → Kernel → Kernel × ℤ
sys_alarm seconds k =
    let alarm = (current_task k).alarm in
    let old = if eq_ℤ alarm (pos 0) then alarm else quot (alarm -ℤ k.jiffies) hz in
    let next = if ltb_ℤ (pos 0) seconds then k.jiffies +ℤ scale hz seconds else pos 0 in
    (modify_current (λ t. record t { alarm = next }) k, old)

unfoldable pub sys_nice : ℤ → Kernel → Kernel × ℤ
sys_nice increment k =
    let left = (current_task k).priority -ℤ increment in
    (if ltb_ℤ (pos 0) left then modify_current (λ t. record t { priority = left }) k else k, pos 0)

unfoldable pub sys_getpid : Kernel → ℤ
sys_getpid k = (current_task k).pid

unfoldable pub sys_getppid : Kernel → ℤ
sys_getppid k = (current_task k).father

unfoldable pub sys_getuid : Kernel → ℕ
sys_getuid k = (current_task k).uid

unfoldable pub sys_geteuid : Kernel → ℕ
sys_geteuid k = (current_task k).euid

unfoldable pub sys_getgid : Kernel → ℕ
sys_getgid k = (current_task k).gid

unfoldable pub sys_getegid : Kernel → ℕ
sys_getegid k = (current_task k).egid

-- `nice` cannot make a priority 0 or negative: the tasks stay fair, whatever the increment.
sys_nice-IsFair : (increment : ℤ) (k : Kernel) → IsFair k → IsFair (sys_nice increment k).0
unfolding sys_nice
sys_nice-IsFair increment k fair i h = ground (arith, fair i, ==_iff k.current i)

-- From a clock at or after boot, an alarm set for a positive number of seconds is `hz` ticks for
-- each second ahead, and a second `alarm` call at the same tick returns those seconds.
sys_alarm-sys_alarm :
    (k : Kernel) (s n : ℕ) (again : ℤ)
    → k.jiffies ≡ pos n
    → 0 < s
    → (sys_alarm again (sys_alarm (pos s) k).0).1 ≡ pos s
unfolding sys_alarm
sys_alarm-sys_alarm k s n again e h =
    let ahead : ltb 0 s ≡ true = ground arith in
    rw (e, ==_self k.current)
      (rw (scale-pos hz s, pos_add n (hz * s))
        (rw (ltb_ℤ-pos 0 s) (rw ahead (rw (pos_sub (n + hz * s) n (omega arith)) (ground arith)))))

-- The loop of `find_empty_process` over the slots i, i + 1, ... for a task with this pid.
unfoldable pub pid_in_use : ℕ → ℕ → ℤ → Kernel → Bool
pid_in_use zero i pid k = false
pid_in_use (suc n) i pid k = (k.present i && eq_ℤ (k.tasks i).pid pid) || pid_in_use n (i + 1) pid k

unfoldable pub free_slot : ℕ → ℕ → Kernel → Option ℕ
free_slot zero i k = none
free_slot (suc n) i k = let rest = free_slot n (i + 1) k in if k.present i then rest else some i

-- ++last_pid, back to 1 where the sum leaves the range of a `long`.
abbrev pub next_pid : ℤ → ℤ
next_pid last =
    if eq_ℤ last (pos (2 ^ 31 - 1)) || ltb_ℤ (last +ℤ pos 1) (pos 0) then pos 1 else last +ℤ pos 1

-- The `repeat` loop, on fuel.
unfoldable pub fresh_pid : ℕ → Kernel → Run Kernel
fresh_pid zero k = out_of_fuel
fresh_pid (suc fuel) k =
    let k' = record k { last_pid = next_pid k.last_pid } in
    elim (pid_in_use nr_tasks 0 k'.last_pid k') [ true ↦ fresh_pid fuel k' | false ↦ ok k' ]

unfoldable pub find_empty_process : ℕ → Kernel → Run (Kernel × ℤ)
find_empty_process fuel k = do
  k' ← fresh_pid fuel k
  ok (k', elim (free_slot (nr_tasks - 1) 1 k') [ some i ↦ pos i | none ↦ eagain ])
