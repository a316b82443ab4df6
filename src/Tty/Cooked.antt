-- ===== src/Tty/Cooked.antt =====
-- What the steps of the line discipline keep (kernel/chr_drv/tty_io.c).
use linux_0_11_comments.Tty.Queue.{IsLined-dec, IsLined-putch, IsLined}
use linux_0_11_comments.Tty.{
  sigquit, sigint, is_quit, is_intr, is_start, is_stop, is_erase, dec, is_kill, tty_intr, last,
  putch, count_line, set_secondary, at_start, full, is_control, put_write, set_tty, Tty, Terminal,
  cook_char, erase_last, store_char, echo_char, kill_line,
}
use linux_0_11_comments.Common.{
  ◌==◌, Bool-cases, if-cases, ltb_ℤ, pos, ℕ, zero, suc, ◌≡◌, refl, sym, ◌∙◌, subst, inl, inr, Bool,
  false, ◌&&◌, ◌||◌, not, arith,
}

-- The device takes characters from the write queue, and leaves the rest of the terminal but the
-- flag `stopped` and the group as it is.
unfoldable pub IsSender : (Tty → Tty) → Type 0
IsSender write =
    (t : Tty)
    → (write t).read_q ≡ t.read_q
      × (write t).secondary ≡ t.secondary
      × (write t).termios ≡ t.termios

-- The input side of the terminals is the same.
pub record SameInput (w v : Terminal) : Type 0 where
  pub reads : w.tty.read_q ≡ v.tty.read_q
  pub cooked : w.tty.secondary ≡ v.tty.secondary
  pub settings : w.tty.termios ≡ v.tty.termios

SameInput-refl : (w : Terminal) → SameInput w w
SameInput-refl w = record { reads = refl; cooked = refl; settings = refl }

SameInput-put_write : (c : ℕ) (w v : Terminal) → SameInput w v → SameInput (put_write c w) v
SameInput-put_write c w v h = record { reads = h.reads; cooked = h.cooked; settings = h.settings }

SameInput-send :
    (write : Tty → Tty) (w v : Terminal)
    → IsSender write
    → SameInput w v
    → SameInput (set_tty write w) v
unfolding IsSender
SameInput-send write w v sends h =
    let (r, s, t) = sends w.tty in
    record { reads = r ∙ h.reads; cooked = s ∙ h.cooked; settings = t ∙ h.settings }

echo_char-SameInput :
    (write : Tty → Tty) (c : ℕ) (w : Terminal) → IsSender write → SameInput (echo_char write c w) w
unfolding echo_char
echo_char-SameInput write c w sends =
    let P : Terminal → Type 0 = λ v. SameInput v w in
    let same = SameInput-refl w in
    let put : (x : ℕ) (v : Terminal) → SameInput v w → SameInput (put_write x v) w =
      λ x v. SameInput-put_write x v w in
    if-cases P w.tty.termios.echo _ _
      (λ e. SameInput-send write _ w sends (
        if-cases P (c == 10) _ _ (λ e. put _ _ (put _ _ same))
          (λ e.
            if-cases P (is_control c) _ _
              (λ e. if-cases P w.tty.termios.echoctl _ _ (λ e. put _ _ (put _ _ same)) (λ e. same))
              (λ e. put _ _ same))))
      (λ e. same)

-- The step keeps the read queue and the settings, and the count of the lines is right after it.
pub record IsCooked (w v : Terminal) : Type 0 where
  pub read_q : v.tty.read_q ≡ w.tty.read_q
  pub termios : v.tty.termios ≡ w.tty.termios
  pub lined : IsLined w.tty.termios v.tty.secondary

store_char-IsCooked :
    (write : Tty → Tty) (c : ℕ) (w : Terminal)
    → IsSender write
    → IsLined w.tty.termios w.tty.secondary
    → full w.tty.secondary ≡ false
    → IsCooked w (store_char write c w)
unfolding store_char
store_char-IsCooked write c w sends h f =
    let counted : Terminal = set_secondary (count_line w.tty.termios c) w in
    let echoed = echo_char-SameInput write c counted sends in
    record {
      read_q = echoed.reads;
      termios = echoed.settings;
      lined =
          subst (λ q. IsLined w.tty.termios (putch c q)) (sym echoed.cooked)
            (IsLined-putch w.tty.termios w.tty.secondary c h f);
    }

or-false : (a b : Bool) → (a || b) ≡ false → (a ≡ false) × (b ≡ false)
or-false a b e = ground arith

erase_last-IsCooked :
    (write : Tty → Tty) (w : Terminal)
    → IsSender write
    → IsLined w.tty.termios w.tty.secondary
    → at_start w ≡ false
    → IsCooked w (erase_last write w)
unfolding erase_last
erase_last-IsCooked write w sends h f =
    let gone : ℕ = last w.tty.secondary in
    let P : Terminal → Type 0 = λ v. SameInput v w in
    let put : (v : Terminal) → SameInput v w → SameInput (put_write 127 v) w =
      λ v. SameInput-put_write 127 v w in
    let same = SameInput-refl w in
    let echoed =
      if-cases P w.tty.termios.echo _ _
        (λ e.
          SameInput-send write _ w sends
            (put _ (if-cases P (is_control gone) _ _ (λ e. put _ same) (λ e. same))))
        (λ e. same) in
    let (some_left, no_end) = or-false _ _ f in
    record {
      read_q = echoed.reads;
      termios = echoed.settings;
      lined =
          subst (λ q. IsLined w.tty.termios (record q { head = dec q.head })) (sym echoed.cooked)
            (IsLined-dec w.tty.termios w.tty.secondary h some_left no_end);
    }

kill_line-IsCooked :
    (write : Tty → Tty) (n : ℕ) (w : Terminal)
    → IsSender write
    → IsLined w.tty.termios w.tty.secondary
    → IsCooked w (kill_line write n w)
unfolding kill_line
kill_line-IsCooked write zero w sends h = record { read_q = refl; termios = refl; lined = h }
kill_line-IsCooked write (suc n) w sends h = elim (Bool-cases (at_start w)) [
  | inl e ↦ rw (e, kill_line) (record { read_q = refl; termios = refl; lined = h })
  | inr e ↦
      let erased = erase_last-IsCooked write w sends h e in
      let next = kill_line-IsCooked write n (erase_last write w) sends (
        subst (λ t. IsLined t (erase_last write w).tty.secondary) (sym erased.termios)
          erased.lined) in
      rw (e, kill_line)
        (record {
          read_q = next.read_q ∙ erased.read_q;
          termios = next.termios ∙ erased.termios;
          lined =
              subst (λ t. IsLined t (kill_line write n (erase_last write w)).tty.secondary)
                erased.termios next.lined;
        })
]

pub cook_char-IsCooked :
    (write : Tty → Tty) (c : ℕ) (w : Terminal)
    → IsSender write
    → IsLined w.tty.termios w.tty.secondary
    → full w.tty.secondary ≡ false
    → IsCooked w (cook_char write c w)
unfolding cook_char tty_intr
cook_char-IsCooked write c w sends h f =
    let t = w.tty.termios in
    let P : Terminal → Type 0 = IsCooked w in
    let same : IsCooked w w = record { read_q = refl; termios = refl; lined = h } in
    let intr : (sig : ℕ) → IsCooked w (tty_intr sig w) = λ sig.
      if-cases P (not (ltb_ℤ (pos 0) w.tty.pgrp)) _ _ (λ e. same)
        (λ e. record { read_q = refl; termios = refl; lined = h }) in
    if-cases P (t.icanon && is_kill t c) _ _ (λ e. kill_line-IsCooked write _ w sends h)
      (λ e.
        if-cases P (t.icanon && is_erase t c) _ _
          (λ e.
            if-cases P (at_start w) _ _ (λ e. same) (λ e. erase_last-IsCooked write w sends h e))
          (λ e.
            if-cases P (t.icanon && is_stop t c) _ _
              (λ e. record { read_q = refl; termios = refl; lined = h })
              (λ e.
                if-cases P (t.icanon && is_start t c) _ _
                  (λ e. record { read_q = refl; termios = refl; lined = h })
                  (λ e.
                    if-cases P (t.isig && is_intr t c) _ _ (λ e. intr sigint)
                      (λ e.
                        if-cases P (t.isig && is_quit t c) _ _ (λ e. intr sigquit)
                          (λ e. store_char-IsCooked write c w sends h f))))))
