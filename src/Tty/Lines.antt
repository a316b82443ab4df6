-- ===== src/Tty/Lines.antt =====
-- `copy_to_cooked` keeps the count of the lines (kernel/chr_drv/tty_io.c).
use linux_0_11_comments.Tty.Cooked.{cook_char-IsCooked, IsSender}
use linux_0_11_comments.Tty.Queue.{IsQueue, IsLined}
use linux_0_11_comments.Tty.{
  cook_char, translate, set_tty, getch, empty, chars, full, wake_readers, Tty, cook_next, Terminal,
  TtyQueue, copy_to_cooked, cook_loop,
}
use linux_0_11_comments.Common.{
  Bool-cases, Option-cases, ◌>>=◌, ok, ℕ, zero, suc, ◌<◌, ◌≡◌, refl, sym, subst, ◌⊎◌, inl, inr,
  true, false, arith,
}

cook_next-IsCooked :
    (write : Tty → Tty) (w : Terminal)
    → IsSender write
    → IsLined w.tty.termios w.tty.secondary
    → full w.tty.secondary ≡ false
    → (v : Terminal) × (cook_next write w ≡ v)
      × (v.tty.read_q ≡ (getch w.tty.read_q).1)
      × IsLined v.tty.termios v.tty.secondary
unfolding cook_next
cook_next-IsCooked write w sends h f =
    let taken : Terminal = set_tty (λ t. record t { read_q = (getch w.tty.read_q).1 }) w in
    elim (Option-cases (translate w.tty.termios (getch w.tty.read_q).0)) [
      | inl e ↦ (taken, rw (e, cook_next) refl, refl, h)
      | inr (c, e) ↦
          let cooked = cook_char-IsCooked write c taken sends h f in
          (
            cook_char write c taken,
            rw (e, cook_next) refl,
            cooked.read_q,
            subst (λ t. IsLined t (cook_char write c taken).tty.secondary) (sym cooked.termios)
                cooked.lined,
          )
    ]

-- The loop ended as its condition says, with a right count.
pub IsDone : Terminal → Type 0
IsDone w =
    IsLined w.tty.termios w.tty.secondary
    × ((empty w.tty.read_q ≡ true) ⊎ (full w.tty.secondary ≡ true))

getch-chars :
    (q : TtyQueue)
    → IsQueue q
    → empty q ≡ false
    → IsQueue (getch q).1 × (suc (chars (getch q).1) ≡ chars q)
getch-chars q (h, t) e = ((h, omega arith), ground (arith, e))

cook_loop-IsDone :
    (write : Tty → Tty) (fuel : ℕ) (w : Terminal)
    → IsSender write
    → IsQueue w.tty.read_q
    → IsLined w.tty.termios w.tty.secondary
    → chars w.tty.read_q < fuel
    → (v : Terminal) × (cook_loop write fuel w ≡ ok v) × IsDone v
unfolding cook_loop IsDone
cook_loop-IsDone write zero w sends q h lt = absurd (omega arith)
cook_loop-IsDone write (suc fuel) w sends q h lt = elim (Bool-cases (empty w.tty.read_q)) [
  | inl e ↦ (w, rw (e, cook_loop) refl, (h, inl e))
  | inr e ↦ elim (Bool-cases (full w.tty.secondary)) [
    | inl f ↦ (w, rw (e, f, cook_loop) refl, (h, inr f))
    | inr f ↦
        let (v, run, reads, lined) = cook_next-IsCooked write w sends h f in
        let (queue, fewer) = getch-chars w.tty.read_q q e in
        let (u, loops, done) =
          cook_loop-IsDone write fuel v sends (subst IsQueue (sym reads) queue) lined
            (subst (λ q. chars q < fuel) (sym reads) (omega arith)) in
        (u, rw (e, f, cook_loop) (rw run loops), done)
  ]
]

-- For a device that leaves the input side of the terminal as it is, a read queue with its indexes in
-- the buffer, and a secondary queue whose `data` is the number of characters in it that end a line:
-- copy_to_cooked returns, `data` is again that number, and the read queue is empty or the secondary
-- queue full.
pub copy_to_cooked-IsDone :
    (write : Tty → Tty) (w : Terminal)
    → IsSender write
    → IsQueue w.tty.read_q
    → IsLined w.tty.termios w.tty.secondary
    → (v : Terminal) × (copy_to_cooked write w ≡ ok v) × IsDone v
unfolding copy_to_cooked IsDone wake_readers
copy_to_cooked-IsDone write w sends q h =
    let (v, run, (lined, ended)) =
      cook_loop-IsDone write (suc (chars w.tty.read_q)) w sends q h (omega arith) in
    (
      wake_readers v,
      rw (run, ◌>>=◌) refl,
      (record { valid = lined.valid; counted = lined.counted }, ended),
    )
