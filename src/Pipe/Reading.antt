-- ===== src/Pipe/Reading.antt =====
-- A read takes the first bytes of the queue of a pipe (fs/pipe.c).
use linux_0_11_comments.Pipe.Queue.{IsPipe, content}
use linux_0_11_comments.Pipe.{chunk, wake_pipe, pipe_size, take_chars, read_pipe, Pipe, read_loop}
use native.Mathlib.Decide.{dec_lt, dec_le}
use linux_0_11_comments.Common.{
  ◌==◌, ok, ℕ, zero, suc, ◌+◌, ◌-◌, ◌%◌, ◌≤◌, ◌<◌, ◌≡◌, refl, ap, ◌∙◌, ◌≢◌, ◌⊎◌, inl, false, arith,
}

-- The queue `q` is the queue `p` without its first `chars` bytes, which stand in the buffer `to`
-- from position `read` on; the rest of `to` is as in `buf`.
pub record IsTaken (p q : Pipe) (chars read : ℕ) (buf to : ℕ → ℕ) : Type 0 where
  pub valid : IsPipe q
  pub size : pipe_size q + chars ≡ pipe_size p
  pub rest : (j : ℕ) → content q j ≡ content p (chars + j)
  pub bytes : (j : ℕ) → j < chars → to (read + j) ≡ content p j
  pub others : (i : ℕ) → (i < read) ⊎ (read + chars ≤ i) → to i ≡ buf i

take_chars-IsTaken :
    (chars read : ℕ) (buf : ℕ → ℕ) (p : Pipe)
    → IsPipe p
    → p.tail + chars ≤ 4096
    → chars ≤ pipe_size p
    → IsTaken p (take_chars chars read buf p).0 chars read buf (take_chars chars read buf p).1
unfolding take_chars
take_chars-IsTaken chars read buf p (h, t) fits enough = record {
  valid = (h, omega arith);
  size = omega arith;
  rest = λ j. ap p.page (omega arith);
  bytes = λ j lt.
      let at : p.tail + (read + j - read) ≡ (p.tail + j) % 4096 = omega arith in
      ground (arith, ap p.page at);
  others = λ i out. ground arith;
}

IsTaken-zero : (p : Pipe) (read : ℕ) (buf : ℕ → ℕ) → IsPipe p → IsTaken p p 0 read buf buf
IsTaken-zero p read buf valid = record {
  valid = valid;
  size = omega arith;
  rest = λ j. ap (content p) (omega arith);
  bytes = λ j lt. absurd (omega arith);
  others = λ i out. refl;
}

IsTaken-wake_pipe :
    (p q : Pipe) (chars read : ℕ) (buf to : ℕ → ℕ)
    → IsTaken p q chars read buf to
    → IsTaken p (wake_pipe q) chars read buf to
IsTaken-wake_pipe p q chars read buf to h = record {
  valid = h.valid;
  size = h.size;
  rest = h.rest;
  bytes = h.bytes;
  others = h.others;
}

IsTaken-trans :
    (p q r : Pipe) (a b n read : ℕ) (buf mid to : ℕ → ℕ)
    → a + b ≡ n
    → IsTaken p q a read buf mid
    → IsTaken q r b (read + a) mid to
    → IsTaken p r n read buf to
IsTaken-trans p q r a b n read buf mid to sum h k = record {
  valid = k.valid;
  size = omega (arith, h.size, k.size);
  rest = λ j. k.rest j ∙ h.rest (b + j) ∙ ap (content p) (omega arith);
  bytes = λ j lt. elim (dec_lt j a) [
    | yes c ↦ k.others (read + j) (inl (omega arith)) ∙ h.bytes j c
    | no c ↦
        let at : read + a + (j - a) ≡ read + j = omega arith in
        let from : a + (j - a) ≡ j = omega arith in
        rw at at (k.bytes (j - a) (omega arith)) ∙ h.rest (j - a) ∙ ap (content p) from
  ];
  others = λ i out. k.others i (ground arith) ∙ h.others i (ground arith);
}

read_loop-step :
    (away : Pipe → Pipe) (fuel n chars read : ℕ) (buf : ℕ → ℕ) (p : Pipe)
    → pipe_size p ≢ 0
    → chunk (4096 - p.tail) (suc n) (pipe_size p) ≡ chars
    → let r : Pipe × (ℕ → ℕ) = take_chars chars read buf p in
      read_loop away (suc fuel) (suc n) read buf p
      ≡ read_loop away fuel (suc n - chars) (read + chars) r.1 r.0
unfolding read_loop
read_loop-step away fuel n chars read buf p ne e =
    let some_left : (pipe_size p == 0) ≡ false = ground arith in
    rw (some_left, read_loop) (rw e refl)

-- The bytes that stand before the end of the page.
read_one :
    (away : Pipe → Pipe) (fuel count read : ℕ) (buf : ℕ → ℕ) (p : Pipe)
    → IsPipe p
    → p.tail + count ≤ 4096
    → count ≤ pipe_size p
    → (q : Pipe) × (to : ℕ → ℕ) × (read_loop away (suc (suc fuel)) count read buf p
        ≡ ok (q, to, read + count))
      × IsTaken p q count read buf to
unfolding read_loop
read_one away fuel zero read buf p valid fits enough = (
  wake_pipe p,
  buf,
  ap (λ k. ok (wake_pipe p, buf, k)) (omega arith),
  IsTaken-wake_pipe p p 0 read buf buf (IsTaken-zero p read buf valid),
)
read_one away fuel (suc n) read buf p valid fits enough =
    let all : chunk (4096 - p.tail) (suc n) (pipe_size p) ≡ suc n = ground arith in
    let none_left : suc n - suc n ≡ 0 = omega arith in
    let r : Pipe × (ℕ → ℕ) = take_chars (suc n) read buf p in
    (
      wake_pipe r.0,
      r.1,
      read_loop-step away (suc fuel) n (suc n) read buf p (omega arith) all
          ∙ rw (none_left, read_loop) refl,
      IsTaken-wake_pipe p _ (suc n) read buf _
          (take_chars-IsTaken (suc n) read buf p valid fits enough),
    )

-- A read of bytes that are queued returns without sleeping, whatever other tasks do: the caller's
-- buffer gets the first `count` bytes of the queue in their order, also where they wrap around the
-- end of the page, no other position of it changes, and the queue loses exactly these bytes. Three
-- rounds are enough.
pub read_pipe-IsTaken :
    (away : Pipe → Pipe) (fuel : ℕ) (buf : ℕ → ℕ) (count : ℕ) (p : Pipe)
    → IsPipe p
    → count ≤ pipe_size p
    → (q : Pipe) × (to : ℕ → ℕ) × (read_pipe away (suc (suc (suc fuel))) buf count p
        ≡ ok (q, to, count))
      × IsTaken p q count 0 buf to
unfolding read_pipe take_chars
read_pipe-IsTaken away fuel buf zero p valid enough =
    read_one away (suc fuel) 0 0 buf p valid (omega arith) enough
read_pipe-IsTaken away fuel buf (suc n) p valid enough = elim (dec_le (p.tail + suc n) 4096) [
  | yes fits ↦
      let sum : 0 + suc n ≡ suc n = omega arith in
      rw sum at (read_one away (suc fuel) (suc n) 0 buf p valid fits enough)
  | no over ↦
      let c : ℕ = 4096 - p.tail in
      let first : chunk c (suc n) (pipe_size p) ≡ c = ground arith in
      let half = take_chars-IsTaken c 0 buf p valid (omega arith) (omega arith) in
      let p' : Pipe = (take_chars c 0 buf p).0 in
      let mid : ℕ → ℕ = (take_chars c 0 buf p).1 in
      let start : p'.tail ≡ 0 = ground arith in
      let sum : c + (suc n - c) ≡ suc n = omega arith in
      let total : 0 + c + (suc n - c) ≡ suc n = omega arith in
      let (q, to, e, h) =
        read_one away fuel (suc n - c) (0 + c) mid p' half.valid (omega (arith, start))
          (omega (arith, half.size)) in
      (
        q,
        to,
        read_loop-step away (suc (suc fuel)) n c 0 buf p (omega arith) first
            ∙ e
            ∙ ap (λ k. ok (q, to, k)) total,
        IsTaken-trans p p' q c (suc n - c) (suc n) 0 buf mid to sum half h,
      )
]
