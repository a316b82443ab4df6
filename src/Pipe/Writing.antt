-- ===== src/Pipe/Writing.antt =====
-- A write that fits into a pipe puts its bytes behind those in the queue (fs/pipe.c).
use linux_0_11_comments.Pipe.Queue.{content, IsPipe}
use linux_0_11_comments.Pipe.{chunk, wake_pipe, pipe_size, put_chars, Pipe, write_loop, write_pipe}
use native.Mathlib.Decide.{dec_lt, dec_le}
use linux_0_11_comments.Common.{
  ◌==◌, pos, ok, ℕ, zero, suc, ◌+◌, ◌-◌, ◌%◌, ◌≤◌, ◌<◌, ◌≡◌, refl, ap, ◌∙◌, false, arith,
}

-- The queue `q` is the queue `p` with the bytes of `buf` from position `written` on behind it.
pub record IsPut (p q : Pipe) (chars written : ℕ) (buf : ℕ → ℕ) : Type 0 where
  pub valid : IsPipe q
  pub size : pipe_size q ≡ pipe_size p + chars
  pub old : (j : ℕ) → j < pipe_size p → content q j ≡ content p j
  pub new : (j : ℕ) → j < chars → content q (pipe_size p + j) ≡ buf (written + j)

put_chars-IsPut :
    (chars written : ℕ) (buf : ℕ → ℕ) (p : Pipe)
    → IsPipe p
    → p.head + chars ≤ 4096
    → chars ≤ 4095 - pipe_size p
    → IsPut p (put_chars chars written buf p) chars written buf
unfolding put_chars
put_chars-IsPut chars written buf p (h, t) fits room = record {
  valid = (omega arith, t);
  size = omega arith;
  old = λ j lt. ground arith;
  new = λ j lt.
      let at : (p.tail + ((p.head + 4096 - p.tail) % 4096 + j)) % 4096 ≡ p.head + j = omega arith in
      rw at (ground arith);
}

IsPut-trans :
    (p q r : Pipe) (a b n written : ℕ) (buf : ℕ → ℕ)
    → a + b ≡ n
    → IsPut p q a written buf
    → IsPut q r b (written + a) buf
    → IsPut p r n written buf
IsPut-trans p q r a b n written buf sum h k = record {
  valid = k.valid;
  size = omega (arith, h.size, k.size);
  old = λ j lt. k.old j (omega (arith, h.size)) ∙ h.old j lt;
  new = λ j lt. elim (dec_lt j a) [
    | yes c ↦ k.old (pipe_size p + j) (omega (arith, h.size)) ∙ h.new j c
    | no c ↦
        let at : pipe_size q + (j - a) ≡ pipe_size p + j = omega (arith, h.size) in
        let to : written + a + (j - a) ≡ written + j = omega arith in
        rw (at, to) at (k.new (j - a) (omega arith))
  ];
}

IsPut-zero : (p : Pipe) (written : ℕ) (buf : ℕ → ℕ) → IsPipe p → IsPut p p 0 written buf
IsPut-zero p written buf valid = record {
  valid = valid;
  size = omega arith;
  old = λ j lt. refl;
  new = λ j lt. absurd (omega arith);
}

IsPut-wake_pipe :
    (p q : Pipe) (chars written : ℕ) (buf : ℕ → ℕ)
    → IsPut p q chars written buf
    → IsPut p (wake_pipe q) chars written buf
IsPut-wake_pipe p q chars written buf h = record {
  valid = h.valid;
  size = h.size;
  old = h.old;
  new = h.new;
}

write_loop-step :
    (away : Pipe → Pipe) (fuel n chars written : ℕ) (buf : ℕ → ℕ) (p : Pipe)
    → pipe_size p < 4095
    → chunk (4096 - p.head) (suc n) (4095 - pipe_size p) ≡ chars
    → write_loop away (suc fuel) (suc n) written buf p
      ≡ write_loop away fuel (suc n - chars) (written + chars) buf (put_chars chars written buf p)
unfolding write_loop
write_loop-step away fuel n chars written buf p lt e =
    let room : (4095 - pipe_size p == 0) ≡ false = ground arith in rw (room, write_loop) (rw e refl)

-- The bytes that fit before the end of the page.
write_one :
    (away : Pipe → Pipe) (fuel count written : ℕ) (buf : ℕ → ℕ) (p : Pipe)
    → IsPipe p
    → p.head + count ≤ 4096
    → count ≤ 4095 - pipe_size p
    → (q : Pipe) × (write_loop away (suc (suc fuel)) count written buf p
        ≡ ok (q, pos (written + count)))
      × IsPut p q count written buf
unfolding write_loop put_chars
write_one away fuel zero written buf p valid fits room = (
  wake_pipe p,
  ap (λ k. ok (wake_pipe p, pos k)) (omega arith),
  IsPut-wake_pipe p p 0 written buf (IsPut-zero p written buf valid),
)
write_one away fuel (suc n) written buf p valid fits room =
    let all : chunk (4096 - p.head) (suc n) (4095 - pipe_size p) ≡ suc n = ground arith in
    let none_left : suc n - suc n ≡ 0 = omega arith in
    (
      wake_pipe (put_chars (suc n) written buf p),
      write_loop-step away (suc fuel) n (suc n) written buf p (omega arith) all
          ∙ rw (none_left, write_loop) refl,
      IsPut-wake_pipe p _ (suc n) written buf
          (put_chars-IsPut (suc n) written buf p valid fits room),
    )

-- A write that fits into the pipe returns without sleeping, whatever other tasks do: it takes all
-- `count` bytes of the caller, in their order, behind the bytes that are already queued, also where
-- they wrap around the end of the page. Three rounds are enough.
pub write_pipe-IsPut :
    (away : Pipe → Pipe) (fuel : ℕ) (buf : ℕ → ℕ) (count : ℕ) (p : Pipe)
    → IsPipe p
    → count ≤ 4095 - pipe_size p
    → (q : Pipe) × (write_pipe away (suc (suc (suc fuel))) buf count p ≡ ok (q, pos count))
      × IsPut p q count 0 buf
unfolding write_pipe put_chars
write_pipe-IsPut away fuel buf zero p valid room =
    write_one away (suc fuel) 0 0 buf p valid (omega arith) room
write_pipe-IsPut away fuel buf (suc n) p valid room = elim (dec_le (p.head + suc n) 4096) [
  | yes fits ↦
      let sum : 0 + suc n ≡ suc n = omega arith in
      rw sum at (write_one away (suc fuel) (suc n) 0 buf p valid fits room)
  | no over ↦
      let c : ℕ = 4096 - p.head in
      let first : chunk c (suc n) (4095 - pipe_size p) ≡ c = ground arith in
      let half = put_chars-IsPut c 0 buf p valid (omega arith) (omega arith) in
      let p' : Pipe = put_chars c 0 buf p in
      let start : p'.head ≡ 0 = ground arith in
      let sum : c + (suc n - c) ≡ suc n = omega arith in
      let total : 0 + c + (suc n - c) ≡ suc n = omega arith in
      let (q, e, h) =
        write_one away fuel (suc n - c) (0 + c) buf p' half.valid (omega (arith, start))
          (omega (arith, half.size)) in
      (
        q,
        write_loop-step away (suc (suc fuel)) n c 0 buf p (omega arith) first
            ∙ e
            ∙ ap (λ k. ok (q, pos k)) total,
        IsPut-trans p p' q c (suc n - c) (suc n) 0 buf sum half h,
      )
]
