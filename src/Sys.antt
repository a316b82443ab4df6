-- ===== src/Sys.antt =====
-- kernel/sys.c: user and group identities, sessions, the break and the file mode mask.
pub mod Identity
pub mod Session
pub mod Unimplemented
mod Tests
use linux_0_11_comments.Common.{
  ltb, leb, if◌then◌else◌, ℤ, pos_part, ◌+ℤ◌, ◌-ℤ◌, quot, ltb_ℤ, eq_ℤ, pos, negsuc, ℕ, zero, suc,
  ◌+◌, ◌-◌, ◌%◌, ◌^◌, true, ◌&&◌, ◌||◌, not, Option, none, some,
}
use linux_0_11_comments.Kernel.{
  Task, Kernel, hz, nr_tasks, eperm, esrch, current_task, modify, modify_current, suser,
}

-- Assignment of an `int` that is at least 0 to an `unsigned short`.
abbrev pub to_u16 : ℤ → ℕ
to_u16 n = pos_part n % 2 ^ 16

-- The first part of `sys_setregid`; `none` is the return of -EPERM.
abbrev pub set_rgid : ℤ → Kernel → Option Kernel
set_rgid rgid k =
    if ltb_ℤ (pos 0) rgid
    then (if eq_ℤ (pos (current_task k).gid) rgid || suser k
        then some (modify_current (λ t. record t { gid = to_u16 rgid }) k)
        else none)
    else some k

abbrev pub set_egid : ℤ → Kernel → Option Kernel
set_egid egid k =
    let t = current_task k in
    if ltb_ℤ (pos 0) egid
    then (if eq_ℤ (pos t.gid) egid || eq_ℤ (pos t.egid) egid || eq_ℤ (pos t.sgid) egid || suser k
        then some (modify_current (λ t. record t { egid = to_u16 egid }) k)
        else none)
    else some k

unfoldable pub sys_setregid : ℤ → ℤ → Kernel → Kernel × ℤ
sys_setregid rgid egid k = elim (set_rgid rgid k) [
  | none ↦ (k, eperm)
  | some k' ↦ elim (set_egid egid k') [ none ↦ (k', eperm) | some k'' ↦ (k'', pos 0) ]
]

unfoldable pub sys_setgid : ℤ → Kernel → Kernel × ℤ
sys_setgid gid k = sys_setregid gid gid k

abbrev pub set_ruid : ℤ → Kernel → Option Kernel
set_ruid ruid k =
    let t = current_task k in
    if ltb_ℤ (pos 0) ruid
    then (if eq_ℤ (pos t.euid) ruid || eq_ℤ (pos t.uid) ruid || suser k
        then some (modify_current (λ t. record t { uid = to_u16 ruid }) k)
        else none)
    else some k

-- `old_ruid` is the real user before `set_ruid`.
abbrev pub set_euid : ℕ → ℤ → Kernel → Option Kernel
set_euid old_ruid euid k =
    if ltb_ℤ (pos 0) euid
    then (if eq_ℤ (pos old_ruid) euid || eq_ℤ (pos (current_task k).euid) euid || suser k
        then some (modify_current (λ t. record t { euid = to_u16 euid }) k)
        else none)
    else some k

unfoldable pub sys_setreuid : ℤ → ℤ → Kernel → Kernel × ℤ
sys_setreuid ruid euid k =
    let old_ruid = (current_task k).uid in
    elim (set_ruid ruid k) [
      | none ↦ (k, eperm)
      | some k' ↦ elim (set_euid old_ruid euid k') [
        | none ↦ (modify_current (λ t. record t { uid = old_ruid }) k', eperm)
        | some k'' ↦ (k'', pos 0)
      ]
    ]

unfoldable pub sys_setuid : ℤ → Kernel → Kernel × ℤ
sys_setuid uid k = sys_setreuid uid uid k

-- `seconds` is the value that `get_fs_long` reads from the caller.
unfoldable pub sys_stime : ℤ → Kernel → Kernel × ℤ
sys_stime seconds k =
    if not (suser k)
    then (k, eperm)
    else (record k { startup_time = seconds -ℤ quot k.jiffies hz }, pos 0)

-- CURRENT_TIME, which `sys_time` returns and stores for the caller.
unfoldable pub sys_time : Kernel → ℤ
sys_time k = k.startup_time +ℤ quot k.jiffies hz

unfoldable pub sys_brk : ℕ → Kernel → Kernel × ℕ
sys_brk end_data_seg k =
    let t = current_task k in
    let ok_here =
      leb t.end_code end_data_seg && ltb end_data_seg ((t.start_stack + 2 ^ 32 - 16384) % 2 ^ 32) in
    let k' = if ok_here then modify_current (λ t. record t { brk = end_data_seg }) k else k in
    (k', (current_task k').brk)

-- The first of the slots i, i + 1, ... whose task has this pid.
unfoldable pub find_pid : ℕ → ℕ → ℤ → Kernel → Option ℕ
find_pid zero i pid k = none
find_pid (suc n) i pid k =
    let rest = find_pid n (i + 1) pid k in
    if k.present i && eq_ℤ (k.tasks i).pid pid then some i else rest

unfoldable pub sys_setpgid : ℤ → ℤ → Kernel → Kernel × ℤ
sys_setpgid pid pgid k =
    let me = current_task k in
    let pid = if eq_ℤ pid (pos 0) then me.pid else pid in
    let pgid = if eq_ℤ pgid (pos 0) then me.pid else pgid in
    elim (find_pid nr_tasks 0 pid k) [
      | none ↦ (k, esrch)
      | some i ↦
          if (k.tasks i).leader
          then (k, eperm)
          else if not (eq_ℤ (k.tasks i).session me.session)
          then (k, eperm)
          else (modify i (λ t. record t { pgrp = pgid }) k, pos 0)
    ]

unfoldable pub sys_getpgrp : Kernel → ℤ
sys_getpgrp k = (current_task k).pgrp

unfoldable pub sys_setsid : Kernel → Kernel × ℤ
sys_setsid k =
    let me = current_task k in
    if me.leader && not (suser k) then (k, eperm) else (
      modify_current
          (λ t. record t { leader = true; session = t.pid; pgrp = t.pid; tty = negsuc 0 }) k,
      me.pid,
    )

-- 0777 keeps the low nine bits.
unfoldable pub sys_umask : ℕ → Kernel → Kernel × ℕ
sys_umask mask k =
    (modify_current (λ t. record t { umask = mask % 2 ^ 9 }) k, (current_task k).umask)
