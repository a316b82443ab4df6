-- ===== src/Exit.antt =====
-- kernel/exit.c: signals to other tasks, the end of a task, and waiting for one.
--
-- What the functions ask of the memory manager, the file system and the terminals is the list of
-- calls that they make, in order (`Effect`). After a call of `schedule` that returns, `away` stands
-- for what the other tasks do until the caller is switched to again. The page fault of
-- `verify_area` in `sys_waitpid` is not modelled.
pub mod Kill
pub mod Wait
mod Tests
use linux_0_11_comments.Common.{
  leb, ◌==◌, if◌then◌else◌, update, ℤ, pos_part, ◌+ℤ◌, ◌-ℤ◌, ltb_ℤ, eq_ℤ, pos, negsuc, Bits,
  set_bit, clear_bit, any_bit, Run, ◌>>=◌, release_non_existent, ok, panic, out_of_fuel, ℕ, zero,
  suc, ◌+◌, ◌-◌, ◌*◌, ◌%◌, ◌^◌, Bool, true, false, ◌&&◌, ◌||◌, not, Option, none, some, List, [],
  ◌∷◌, ◌++◌, ◌>>◌,
}
use linux_0_11_comments.Kernel.{
  Task, Kernel, last_task, nr_tasks, sighup, sigchld, einval, eperm, echild, eintr, current_task,
  modify, modify_current, suser, sweep, task_interruptible, task_zombie, task_stopped,
}
use linux_0_11_comments.Sched.{schedule}
use linux_0_11_comments.Sys.{find_pid}

abbrev pub nr_open : ℕ
nr_open = 20

pub data Effect : Type 0 where
  -- free_page of the page of the task structure of a slot
  free_task_page : ℕ → Effect
  -- free_page_tables of the code and of the data segment
  free_code free_data : Effect
  -- the part of sys_close that concerns the open file
  close_file : ℕ → Effect
  iput : Option ℕ → Effect
  -- tty_table[tty].pgrp = 0
  clear_tty_pgrp : ℤ → Effect
  no_father_message : Effect

pub record World : Type 0 where
  pub kernel : Kernel
  pub effects : List Effect

abbrev pub emit : Effect → World → World
emit e w = record w { effects = w.effects ++ e ∷ [] }

abbrev pub on_kernel : (Kernel → Kernel) → World → World
on_kernel f w = record w { kernel = f w.kernel }

-- send_sig(sig, task[i], priv)
unfoldable pub send_sig : ℤ → ℕ → Bool → Kernel → Kernel × ℤ
send_sig sig i priv k =
    if not (k.present i) || ltb_ℤ sig (pos 1) || ltb_ℤ (pos 32) sig
    then (k, einval)
    else if priv || (current_task k).euid == (k.tasks i).euid || suser k
    then (modify i (λ t. record t { signal = set_bit t.signal (pos_part sig - 1) }) k, pos 0)
    else (k, eperm)

unfoldable pub kill_session : Kernel → Kernel
kill_session k =
    sweep
      (λ t.
        if eq_ℤ t.session (current_task k).session
        then record t { signal = set_bit t.signal (sighup - 1) }
        else t)
      last_task k

-- The body of the four loops of `sys_kill`, for slot `i`.
unfoldable pub kill_one : ℤ → ℤ → ℕ → Kernel → Kernel × ℤ
kill_one pid sig i k =
    if eq_ℤ pid (pos 0)
    then (if k.present i && eq_ℤ (k.tasks i).pgrp (current_task k).pid
        then send_sig sig i true k
        else (k, pos 0))
    else if ltb_ℤ (pos 0) pid
    then (if k.present i && eq_ℤ (k.tasks i).pid pid then send_sig sig i false k else (k, pos 0))
    else if eq_ℤ pid (negsuc 0)
    then send_sig sig i false k
    else if k.present i && eq_ℤ (k.tasks i).pgrp (pos 0 -ℤ pid)
    then send_sig sig i false k
    else (k, pos 0)

-- The loop over the slots n, ..., 1.
unfoldable pub kill_loop : ℤ → ℤ → ℕ → ℤ → Kernel → Kernel × ℤ
kill_loop pid sig zero retval k = (k, retval)
kill_loop pid sig (suc n) retval k =
    let (k', err) = kill_one pid sig (suc n) k in
    kill_loop pid sig n (if eq_ℤ err (pos 0) then retval else err) k'

unfoldable pub sys_kill : ℤ → ℤ → Kernel → Kernel × ℤ
sys_kill pid sig k = kill_loop pid sig last_task (pos 0) k

-- task[i]->father = 1 for the children of the current task, in the slots i, i + 1, ...; `init` is
-- told of those that are zombies.
unfoldable pub give_away : ℕ → ℕ → Kernel → Kernel
give_away zero i k = k
give_away (suc n) i k = give_away n (i + 1) (
    if k.present i && eq_ℤ (k.tasks i).father (current_task k).pid
    then (let k' = modify i (λ t. record t { father = pos 1 }) k in
        if (k'.tasks i).state == task_zombie then (send_sig (pos sigchld) 1 true k').0 else k')
    else k)

-- sys_close(i) for every open file of the slots i, i + 1, ...
unfoldable pub close_all : ℕ → ℕ → World → World
close_all zero i w = w
close_all (suc n) i w = close_all n (i + 1) (elim ((current_task w.kernel).filp i) [
  | none ↦ w
  | some f ↦ emit (close_file f) (
      on_kernel
        (modify_current (λ t. record t {
          close_on_exec = clear_bit t.close_on_exec i;
          filp = update t.filp i none;
        }))
        w)
])

module _ (away : Kernel → Kernel) where
  -- schedule(), and the return from it
  abbrev pub reschedule : Kernel → Run Kernel
  reschedule k = schedule k >>= λ k'. ok (away k')

  -- release(task[i])
  unfoldable pub release : ℕ → World → Run World
  release i w =
      if leb 1 i && leb i last_task && w.kernel.present i
      then (do
        let k : Kernel = record (w.kernel) { present = update (w.kernel.present) i false }
        k' ← reschedule k
        ok (record { kernel = k'; effects = w.effects ++ free_task_page i ∷ [] }))
      else panic release_non_existent

  unfoldable pub tell_father : ℤ → World → Run World
  tell_father pid w = elim (if eq_ℤ pid (pos 0) then none else find_pid nr_tasks 0 pid w.kernel) [
    | some i ↦
        ok (on_kernel (modify i (λ t. record t { signal = set_bit t.signal (sigchld - 1) })) w)
    | none ↦ release w.kernel.current (emit no_father_message w)
  ]

-- do_exit up to the call of tell_father
unfoldable pub retire : ℕ → World → World
retire code w =
    let w = emit free_data (emit free_code w) in
    let w = on_kernel (give_away nr_tasks 0) w in
    let w = close_all nr_open 0 w in
    let w = emit (iput (current_task w.kernel).pwd) w in
    let w = on_kernel (modify_current (λ t. record t { pwd = none })) w in
    let w = emit (iput (current_task w.kernel).root) w in
    let w = on_kernel (modify_current (λ t. record t { root = none })) w in
    let w = emit (iput (current_task w.kernel).executable) w in
    let w = on_kernel (modify_current (λ t. record t { executable = none })) w in
    let me = current_task w.kernel in
    let w = if me.leader && not (ltb_ℤ me.tty (pos 0)) then emit (clear_tty_pgrp me.tty) w else w in
    let math : Option ℕ = elim (w.kernel.last_task_used_math) [
      | none ↦ none
      | some i ↦ if i == w.kernel.current then none else some i
    ] in
    let w = on_kernel (λ k. record k { last_task_used_math = math }) w in
    let w = if me.leader then on_kernel kill_session w else w in
    on_kernel (modify_current (λ t. record t { state = task_zombie; exit_code = code })) w

-- The task that exits is not switched to again, so that nothing follows the last `schedule`.
unfoldable pub do_exit : (Kernel → Kernel) → ℕ → World → Run World
do_exit away code w = do
  let w : World = retire code w
  w ← tell_father away (current_task w.kernel).father w
  k ← schedule w.kernel
  ok (record w { kernel = k })

-- The low byte of the code, shifted by 8.
unfoldable pub sys_exit : (Kernel → Kernel) → ℕ → World → Run World
sys_exit away error_code w = do_exit away (error_code % 2 ^ 8 * 2 ^ 8) w

-- The tests of `sys_waitpid` that skip slot `i`.
abbrev pub is_awaited : ℤ → Kernel → ℕ → Bool
is_awaited pid k i =
    let me = current_task k in
    let t = k.tasks i in
    k.present i
    && not (i == k.current)
    && eq_ℤ t.father me.pid
    && (if ltb_ℤ (pos 0) pid
        then eq_ℤ t.pid pid
        else if eq_ℤ pid (pos 0)
        then eq_ℤ t.pgrp me.pgrp
        else if not (eq_ℤ pid (negsuc 0))
        then eq_ℤ t.pgrp (pos 0 -ℤ pid)
        else true)

-- What the scan of the slots finds: a stopped child to report, a zombie to release, or neither,
-- and then whether there is a child to wait for.
pub data Scan : Type 0 where
  stopped : ℕ → Scan
  zombie : ℕ → Scan
  nothing : Bool → Scan

-- `untraced` is `options & WUNTRACED`.
unfoldable pub scan : ℤ → Bool → Kernel → ℕ → Bool → Scan
scan pid untraced k zero flag = nothing flag
scan pid untraced k (suc n) flag =
    let s = (k.tasks (suc n)).state in
    let next =
      scan pid untraced k n
        (flag || (is_awaited pid k (suc n) && not (s == task_stopped) && not (s == task_zombie))) in
    if not (is_awaited pid k (suc n))
    then next
    else if s == task_stopped
    then (if untraced then stopped (suc n) else next)
    else if s == task_zombie
    then zombie (suc n)
    else next

-- The return value, and what is stored through `stat_addr`.
abbrev pub Waited : Type 0
Waited = ℤ × Option ℕ

-- current->cutime += (*p)->utime and so on, and release(*p)
unfoldable pub reap : (Kernel → Kernel) → ℕ → World → Run (World × Waited)
reap away i w = do
  let p : Task = w.kernel.tasks i
  let w : World =
      on_kernel
        (modify_current
          (λ t. record t { cutime = t.cutime +ℤ p.utime; cstime = t.cstime +ℤ p.stime }))
        w
  w ← release away i w
  ok (w, (p.pid, some p.exit_code))

-- The `repeat` loop, on fuel; `options` is the word with the bits WNOHANG and WUNTRACED.
unfoldable pub sys_waitpid : (Kernel → Kernel) → ℕ → ℤ → Bits → World → Run (World × Waited)
sys_waitpid away zero pid options w = out_of_fuel
sys_waitpid away (suc fuel) pid options w = elim (scan pid (options 1) w.kernel last_task false) [
  | stopped i ↦ ok (w, ((w.kernel.tasks i).pid, some 0x7f))
  | zombie i ↦ reap away i w
  | nothing false ↦ ok (w, (echild, none))
  | nothing true ↦ if options 0 then ok (w, (pos 0, none)) else (do
    k ← reschedule away (modify_current (λ t. record t { state = task_interruptible }) w.kernel)
    let k : Kernel = modify_current (λ t. record t { signal = clear_bit t.signal (sigchld - 1) }) k
    let w : World = record w { kernel = k }
    elim (any_bit 32 (current_task k).signal) [
      | true ↦ ok (w, (eintr, none))
      | false ↦ sys_waitpid away fuel pid options w
    ])
]
