-- ===== src/Signal/Handling.antt =====
-- Handlers and masks of kernel/signal.c.
use linux_0_11_comments.Common.{
  ◌==◌, if◌then◌else◌, Bool-cases, update, ℤ, pos, Bits, no_bits, set_bit, or_bits, length, ℕ, ◌+◌,
  ◌-◌, ◌*◌, ◌%◌, ◌^◌, ◌≤◌, ◌<◌, ◌≡◌, refl, ap, ◌∙◌, fun_ext, ◌≢◌, ◌⊎◌, inl, inr, Bool, true, false,
  ◌&&◌, Option, none, some, List, [], ◌∷◌, arith,
}
use linux_0_11_comments.Kernel.{modify_current, Sigaction, Task, Kernel, sigkill, current_task}
use linux_0_11_comments.Signal.{
  exited, ignored, sa_nomask, sa_oneshot, bad_signum, sys_ssetmask, sys_signal, sys_sigaction,
  Frame, Word, num, mask, Delivery, handled, do_signal,
}

-- Neither `signal` nor `sigaction` changes the action of SIGKILL, whatever the arguments.
sigkill_action_kept :
    (signum : ℤ) (handler restorer : ℕ) (action : Sigaction) (k : Kernel)
    → let kill : Kernel → Sigaction = λ r. (current_task r).sigaction (sigkill - 1) in
      (kill (sys_signal signum handler restorer k).0 ≡ kill k)
      × (kill (sys_sigaction signum action k).0 ≡ kill k)
unfolding sys_signal sys_sigaction
sigkill_action_kept signum handler restorer action k = (ground arith, ground arith)

-- For every signal number from 1 to 32 but SIGKILL, `sigaction` returns the action that the
-- previous call installed: the caller's action, with an empty mask if it has SA_NOMASK, and
-- otherwise with the signal itself added to its mask.
pub sys_sigaction-sys_sigaction :
    (n : ℕ) (action other : Sigaction) (k : Kernel)
    → 1 ≤ n
    → n ≤ 32
    → n ≢ sigkill
    → (sys_sigaction (pos n) other (sys_sigaction (pos n) action k).0).1
      ≡ some (record action {
        sa_mask = if action.sa_flags sa_nomask then no_bits else set_bit action.sa_mask (n - 1);
      })
unfolding sys_sigaction
sys_sigaction-sys_sigaction n action other k lo hi ne =
    let good : bad_signum (pos n) ≡ false = ground arith in rw good (ground arith)

-- What the return from a handler finds on the stack.
pub record Saved : Type 0 where
  pub restorer : ℕ
  pub signr : ℕ
  pub blocked : Option Bits
  pub frame : Frame

-- The registers as they are popped; `base` is the stack pointer behind them.
abbrev pub pop_frame : ℕ → ℕ → ℕ → Option Bits → List Word → Option Saved
pop_frame base restorer signr blocked (num eax ∷ num ecx ∷ num edx ∷ num eflags ∷ num eip ∷ []) =
    some (record {
      restorer = restorer;
      signr = signr;
      blocked = blocked;
      frame = record { eax = eax; ecx = ecx; edx = edx; eflags = eflags; eip = eip; esp = base };
    })
pop_frame base restorer signr blocked other = none

-- The whole stack as the end of a handler and its restorer read it, from `esp` on: the address of the
-- restorer, the signal, the mask unless SA_NOMASK is given, and the registers.
abbrev pub unwind : Bool → ℕ → List Word → Option Saved
unwind true esp (num restorer ∷ num signr ∷ stack) =
    pop_frame (esp + 4 * (2 + length stack)) restorer signr none stack
unwind false esp (num restorer ∷ num signr ∷ mask m ∷ stack) =
    pop_frame (esp + 4 * (3 + length stack)) restorer signr (some m) stack
unwind nomask esp other = none

-- The task of `k` in whose handler the signal is: its mask is added to the blocked signals, and it is
-- removed if it was installed for one use.
abbrev pub handling : ℕ → Sigaction → Task → Task
handling signr sa t = record t {
  blocked = or_bits t.blocked sa.sa_mask;
  sigaction = λ n.
      if signr - 1 == n && sa.sa_flags sa_oneshot
      then record sa { sa_handler = 0 }
      else t.sigaction n;
}

-- A handler runs, on a stack from which the interrupted code is read back.
abbrev pub IsRun : ℕ → Sigaction → Frame → Kernel → Kernel × Delivery → Type 0
IsRun signr sa f k r =
    (2 ≤ sa.sa_handler)
    × (esp : ℕ) × (stack : List Word) × (r
        ≡ (modify_current (handling signr sa) k, handled sa.sa_handler esp stack))
    × (unwind (sa.sa_flags sa_nomask) esp stack
        ≡ some (record {
          restorer = sa.sa_restorer;
          signr = signr;
          blocked = if sa.sa_flags sa_nomask then none else some (current_task k).blocked;
          frame = f;
        }))

-- The three outcomes of the delivery of a signal with action `sa`.
abbrev pub IsDelivered : ℕ → Sigaction → Frame → Kernel → Kernel × Delivery → Type 0
IsDelivered signr sa f k r =
    ((sa.sa_handler ≡ 1) ⊎ (sa.sa_handler ≡ 0) × (signr ≡ 17)) × (r ≡ (k, ignored))
    ⊎ (sa.sa_handler ≡ 0) × (signr ≢ 17) × (r ≡ (k, exited (2 ^ (signr - 1))))
    ⊎ IsRun signr sa f k r

-- The action of the delivered signal, and those of the others
handling-action :
    (n j : ℕ) (sa : Sigaction) (actions : ℕ → Sigaction)
    → sa ≡ actions n
    → update actions n (if sa.sa_flags sa_oneshot then record sa { sa_handler = 0 } else sa) j
      ≡ (if n == j && sa.sa_flags sa_oneshot then record sa { sa_handler = 0 } else actions j)
handling-action n j sa actions same = elim (Bool-cases (n == j)) [
  | inl e ↦
      let at : n ≡ j = ground (arith, e) in
      let here : sa ≡ actions j = same ∙ ap actions at in
      elim (Bool-cases (sa.sa_flags sa_oneshot)) [ inl o ↦ rw (e, o) refl | inr o ↦ rw (e, o) here ]
  | inr e ↦ rw e refl
]

handler-IsRun :
    (signr : ℕ) (f : Frame) (k : Kernel)
    → let sa : Sigaction = (current_task k).sigaction (signr - 1) in
      (sa.sa_handler == 1) ≡ false
      → (sa.sa_handler == 0) ≡ false
      → 32 ≤ f.esp
      → f.esp < 2 ^ 32
      → IsRun signr sa f k (do_signal signr f k)
unfolding do_signal
handler-IsRun signr f k a b lo hi =
    let me = current_task k in
    let sa = me.sigaction (signr - 1) in
    let after = num f.eax ∷ num f.ecx ∷ num f.edx ∷ num f.eflags ∷ num f.eip ∷ [] in
    let actions = fun_ext (λ j. handling-action (signr - 1) j sa me.sigaction refl) in
    let same =
      ap
        (λ (g : ℕ → Sigaction).
          modify_current (λ t. record t { sigaction = g; blocked = or_bits t.blocked sa.sa_mask })
            k)
        actions in
    let low_7 : (f.esp + 2 ^ 32 - 28) % 2 ^ 32 ≡ f.esp - 28 = omega (arith, lo, hi) in
    let low_8 : (f.esp + 2 ^ 32 - 32) % 2 ^ 32 ≡ f.esp - 32 = omega (arith, lo, hi) in
    let back_7 : f.esp - 28 + 28 ≡ f.esp = omega (arith, lo) in
    let back_8 : f.esp - 32 + 32 ≡ f.esp = omega (arith, lo) in
    elim (Bool-cases (sa.sa_flags sa_nomask)) [
      | inl c ↦
          let stack = num sa.sa_restorer ∷ num signr ∷ after in
          (
            ground (arith, a, b),
            f.esp - 28,
            stack,
            rw (a, b, c, low_7)
                (ap (λ (q : Kernel). (q, handled sa.sa_handler (f.esp - 28) stack)) same),
            rw (c, back_7) refl,
          )
      | inr c ↦
          let stack = num sa.sa_restorer ∷ num signr ∷ mask me.blocked ∷ after in
          (
            ground (arith, a, b),
            f.esp - 32,
            stack,
            rw (a, b, c, low_8)
                (ap (λ (q : Kernel). (q, handled sa.sa_handler (f.esp - 32) stack)) same),
            rw (c, back_8) refl,
          )
    ]

-- A signal is delivered to the current task so: with SIG_IGN, or as SIGCHLD with SIG_DFL, nothing
-- happens; with SIG_DFL any other signal ends the task with the signal's bit as its exit code; and
-- with a handler control goes to it, on a stack from which the restorer, the signal, the old mask of
-- blocked signals (unless SA_NOMASK is given) and all registers of the interrupted code, the stack
-- pointer included, are read back exactly. The handler's mask is then blocked too, and a handler for
-- one use is removed; nothing else of the task or of another one changes.
pub do_signal-handled :
    (signr : ℕ) (f : Frame) (k : Kernel)
    → 32 ≤ f.esp
    → f.esp < 2 ^ 32
    → IsDelivered signr ((current_task k).sigaction (signr - 1)) f k (do_signal signr f k)
unfolding do_signal
do_signal-handled signr f k lo hi =
    let sa = (current_task k).sigaction (signr - 1) in
    elim (Bool-cases (sa.sa_handler == 1)) [
      | inl a ↦ inl (inl (ground (arith, a)), rw a refl)
      | inr a ↦ elim (Bool-cases (sa.sa_handler == 0)) [
        | inl b ↦ elim (Bool-cases (signr == 17)) [
          | inl c ↦ inl (inr (ground (arith, b), ground (arith, c)), rw (a, b, c) refl)
          | inr c ↦ inr (inl (ground (arith, b), ground (arith, c), rw (a, b, c) refl))
        ]
        | inr b ↦ inr (inr (handler-IsRun signr f k a b lo hi))
      ]
    ]

-- SIGKILL can be blocked: after `sigaction` has installed a handler with SIGKILL in its mask and
-- without SA_NOMASK, the delivery of that signal blocks SIGKILL, which `ssetmask` never does.
pub sigkill_blocked :
    (n : ℕ) (action : Sigaction) (f : Frame) (k : Kernel)
    → 1 ≤ n
    → n ≤ 32
    → n ≢ sigkill
    → 2 ≤ action.sa_handler
    → action.sa_flags sa_nomask ≡ false
    → action.sa_mask (sigkill - 1) ≡ true
    → ((current_task (do_signal n f (sys_sigaction (pos n) action k).0).0).blocked (sigkill - 1)
        ≡ true)
      × ((newmask : Bits) → (current_task (sys_ssetmask newmask k).0).blocked (sigkill - 1) ≡ false)
unfolding do_signal sys_sigaction sys_ssetmask
sigkill_blocked n action f k lo hi ne h m b =
    let good : bad_signum (pos n) ≡ false = ground arith in
    (rw good (ground arith), λ newmask. ground arith)
