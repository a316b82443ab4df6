-- ===== src/Signal.antt =====
-- kernel/signal.c: signal masks, handlers, and the call of a handler on the user's stack.
--
-- Values that `get_new` reads from the caller's memory are arguments; those that `save_old` and
-- `put_fs_long` write there are results. The page faults of `verify_area` are not modelled here.
pub mod Handling
mod Tests
use linux_0_11_comments.Common.{
  ◌==◌, if◌then◌else◌, update, ℤ, pos_part, ltb_ℤ, eq_ℤ, pos, Bits, no_bits, set_bit, clear_bit,
  or_bits, ℕ, ◌+◌, ◌-◌, ◌*◌, ◌%◌, ◌^◌, Bool, ◌||◌, Option, none, some, List, [], ◌∷◌, ◌++◌,
}
use linux_0_11_comments.Kernel.{
  Sigaction, Task, Kernel, sigkill, sigchld, einval, current_task, modify_current,
}

-- The bits SA_NOMASK (0x40000000) and SA_ONESHOT (0x80000000) of sa_flags.
abbrev pub sa_nomask : ℕ
sa_nomask = 30

abbrev pub sa_oneshot : ℕ
sa_oneshot = 31

unfoldable pub sys_sgetmask : Kernel → Bits
sys_sgetmask k = (current_task k).blocked

unfoldable pub sys_ssetmask : Bits → Kernel → Kernel × Bits
sys_ssetmask newmask k =
    let old = (current_task k).blocked in
    (modify_current (λ t. record t { blocked = clear_bit newmask (sigkill - 1) }) k, old)

-- signum < 1 || signum > 32 || signum == SIGKILL
abbrev pub bad_signum : ℤ → Bool
bad_signum signum = ltb_ℤ signum (pos 1) || ltb_ℤ (pos 32) signum || eq_ℤ signum (pos sigkill)

-- current->sigaction[signum - 1] = action
abbrev pub set_action : ℤ → Sigaction → Kernel → Kernel
set_action signum action k =
    modify_current (λ t. record t { sigaction = update t.sigaction (pos_part signum - 1) action }) k

abbrev pub get_action : ℤ → Kernel → Sigaction
get_action signum k = (current_task k).sigaction (pos_part signum - 1)

-- The result is the old handler; `none` is -1.
unfoldable pub sys_signal : ℤ → ℕ → ℕ → Kernel → Kernel × Option ℕ
sys_signal signum handler restorer k = if bad_signum signum then (k, none) else (
  set_action signum
      (record {
        sa_handler = handler;
        sa_mask = no_bits;
        sa_flags = set_bit (set_bit no_bits sa_oneshot) sa_nomask;
        sa_restorer = restorer;
      })
      k,
  some (get_action signum k).sa_handler,
)

-- The result is what is stored through `oldaction`, if that is not NULL; `none` is -1.
unfoldable pub sys_sigaction : ℤ → Sigaction → Kernel → Kernel × Option Sigaction
sys_sigaction signum action k =
    if bad_signum signum
    then (k, none)
    else let mask =
        if action.sa_flags sa_nomask
        then no_bits
        else set_bit action.sa_mask (pos_part signum - 1) in
      (set_action signum (record action { sa_mask = mask }) k, some (get_action signum k))

-- The registers that `system_call` saved, as far as `do_signal` uses them.
pub record Frame : Type 0 where
  pub eax : ℕ
  pub ecx : ℕ
  pub edx : ℕ
  pub eflags : ℕ
  pub eip : ℕ
  pub esp : ℕ

-- A word on the user's stack: a number, or the saved signal mask.
pub data Word : Type 0 where
  num : ℕ → Word
  mask : Bits → Word

-- What `do_signal` does: nothing, `do_exit` with a code, or a return into the handler. `stack`
-- are the words that it stores at the new `esp` and above.
pub data Delivery : Type 0 where
  ignored : Delivery
  exited : ℕ → Delivery
  handled : (eip esp : ℕ) → (stack : List Word) → Delivery

unfoldable pub do_signal : ℕ → Frame → Kernel → Kernel × Delivery
do_signal signr f k =
    let sa = (current_task k).sigaction (signr - 1) in
    if sa.sa_handler == 1
    then (k, ignored)
    else if sa.sa_handler == 0
    then (if signr == sigchld then (k, ignored) else (k, exited (2 ^ (signr - 1))))
    else let nomask = sa.sa_flags sa_nomask in
      let longs = if nomask then 7 else 8 in
      let sa' = if sa.sa_flags sa_oneshot then record sa { sa_handler = 0 } else sa in
      let saved = if nomask then [] else mask (current_task k).blocked ∷ [] in
      let after = num f.eax ∷ num f.ecx ∷ num f.edx ∷ num f.eflags ∷ num f.eip ∷ [] in
      (
        modify_current
            (λ t. record t {
              sigaction = update t.sigaction (signr - 1) sa';
              blocked = or_bits t.blocked sa.sa_mask;
            })
            k,
        handled sa.sa_handler ((f.esp + 2 ^ 32 - longs * 4) % 2 ^ 32)
            (num sa.sa_restorer ∷ num signr ∷ (saved ++ after)),
      )
