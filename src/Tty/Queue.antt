-- ===== src/Tty/Queue.antt =====
-- The circular queues of a terminal (include/linux/tty.h).
use mathlib.Core.Path.{ap₂}
use linux_0_11_comments.Tty.{
  count_line, dec, last, putch, full, is_end, chars, empty, Termios, TtyQueue,
}
use linux_0_11_comments.Common.{
  if◌then◌else◌, update, ℕ, zero, suc, ◌+◌, ◌%◌, ◌≤◌, ◌<◌, ◌≡◌, refl, sym, ◌∙◌, ◌≢◌, Bool, true,
  false, arith,
}

-- The indexes are positions in the buffer.
abbrev pub IsQueue : TtyQueue → Type 0
IsQueue q = (q.head < 1024) × (q.tail < 1024)

-- How many of the `n` characters from position `tail` on satisfy the test?
unfoldable pub ends : (ℕ → Bool) → (ℕ → ℕ) → ℕ → ℕ → ℕ
ends test buf tail zero = 0
ends test buf tail (suc n) =
    ends test buf tail n + (if test (buf ((tail + n) % 1024)) then 1 else 0)

pub ends_le : (test : ℕ → Bool) (buf : ℕ → ℕ) (tail n : ℕ) → ends test buf tail n ≤ n
unfolding ends
ends_le test buf tail zero = omega arith
ends_le test buf tail (suc n) = ground (arith, ends_le test buf tail n)

-- A character that is written outside the `n` positions does not matter.
ends-update :
    (test : ℕ → Bool) (buf : ℕ → ℕ) (tail n h c : ℕ)
    → ((j : ℕ) → j < n → (tail + j) % 1024 ≢ h)
    → ends test (update buf h c) tail n ≡ ends test buf tail n
unfolding ends
ends-update test buf tail zero h c out = refl
ends-update test buf tail (suc n) h c out =
    let rest = ends-update test buf tail n h c (λ j lt. out j (omega arith)) in
    let other : update buf h c ((tail + n) % 1024) ≡ buf ((tail + n) % 1024) =
      ground (arith, out n) in
    ap₂ (λ r x. r + (if test x then 1 else 0)) rest other

-- The first of the positions, apart.
pub ends-first :
    (test : ℕ → Bool) (buf : ℕ → ℕ) (tail n : ℕ)
    → ends test buf tail (suc n)
      ≡ (if test (buf (tail % 1024)) then 1 else 0) + ends test buf ((tail + 1) % 1024) n
unfolding ends
ends-first test buf tail zero =
    let at : (tail + 0) % 1024 ≡ tail % 1024 = omega arith in rw at (omega arith)
ends-first test buf tail (suc n) =
    let same : ((tail + 1) % 1024 + n) % 1024 ≡ (tail + suc n) % 1024 = omega arith in
    let go = ends-first test buf tail n in rw (same) (omega (arith, go))

-- The count of the lines of a queue is the number of characters in it that end a line.
pub record IsLined (t : Termios) (q : TtyQueue) : Type 0 where
  pub valid : IsQueue q
  pub counted : q.lines ≡ ends (is_end t) q.buf q.tail (chars q)

ends-putch :
    (test : ℕ → Bool) (q : TtyQueue) (c : ℕ)
    → IsQueue q
    → full q ≡ false
    → ends test (putch c q).buf q.tail (chars (putch c q))
      ≡ ends test q.buf q.tail (chars q) + (if test c then 1 else 0)
unfolding ends
ends-putch test q c (h, t) f =
    let more : chars (putch c q) ≡ suc (chars q) = ground (arith, f) in
    let at : (q.tail + chars q) % 1024 ≡ q.head = omega arith in
    let same = ends-update test q.buf q.tail (chars q) q.head c (λ j lt e. omega arith) in
    rw more (ap₂ (λ r x. r + (if test x then 1 else 0)) same (ground (arith, at)))

count-step :
    (b : Bool) (l n : ℕ)
    → l ≡ n
    → n < 4294967295
    → (if b then (l + 1) % 4294967296 else l) ≡ n + (if b then 1 else 0)
count-step true l n e lt = omega arith
count-step false l n e lt = omega arith

pub IsLined-putch :
    (t : Termios) (q : TtyQueue) (c : ℕ)
    → IsLined t q
    → full q ≡ false
    → IsLined t (putch c (count_line t c q))
IsLined-putch t q c h f =
    let few = ends_le (is_end t) q.buf q.tail (chars q) in
    let put = ends-putch (is_end t) q c h.valid f in
    let (head_lt, tail_lt) = h.valid in
    record {
      valid = (omega arith, tail_lt);
      counted =
          count-step (is_end t c) q.lines (ends (is_end t) q.buf q.tail (chars q)) h.counted
            (omega arith)
          ∙ sym put;
    }

-- The last of the positions, when it does not satisfy the test.
ends-last :
    (test : ℕ → Bool) (buf : ℕ → ℕ) (tail n m h : ℕ)
    → n ≡ suc m
    → (tail + m) % 1024 ≡ h
    → test (buf h) ≡ false
    → ends test buf tail n ≡ ends test buf tail m
unfolding ends
ends-last test buf tail n m h e at l = rw e (rw at (rw l (omega arith)))

-- Erasing the last character keeps the count unless the character ends a line.
pub IsLined-dec :
    (t : Termios) (q : TtyQueue)
    → IsLined t q
    → empty q ≡ false
    → is_end t (last q) ≡ false
    → IsLined t (record q { head = dec q.head })
IsLined-dec t q h e l =
    let (head_lt, tail_lt) = h.valid in
    let q' : TtyQueue = record q { head = dec q.head } in
    let fewer : chars q ≡ suc (chars q') = ground (arith, e) in
    let at : (q.tail + chars q') % 1024 ≡ dec q.head = ground (arith, e) in
    record {
      valid = (omega arith, tail_lt);
      counted =
          h.counted
          ∙ ends-last (is_end t) q.buf q.tail (chars q) (chars q') (dec q.head) fewer at l;
    }
