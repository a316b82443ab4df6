-- ===== src/Printf/Decimal.antt =====
-- Numbers printed in decimal and read back (kernel/vsprintf.c).
use linux_0_11_comments.Printf.{no_flags}
use linux_0_11_comments.Printf.Number.{
  place, digit, digits_of, divide, is_digit, number, skip_digits, skip_atoi,
}
use mathlib.Core.List.{append-nil}
use linux_0_11_comments.Common.{
  ◌==◌, Bool-cases, ◌-ℤ◌, negsuc, All, ℕ, zero, suc, ◌+◌, ◌-◌, ◌*◌, ◌/◌, ◌%◌, ◌^◌, ◌≤◌, ◌<◌, ◌≡◌,
  refl, inl, inr, Bool, true, false, some, List, [], ◌∷◌, ◌++◌, arith,
}

-- The value of a text of decimal digits that follow a number.
abbrev value : ℕ → List ℕ → ℕ
value i [] = i
value i (c ∷ s) = value (i * 10 + (c - b'0')) s

abbrev Decimal : List ℕ → Type 0
Decimal s = All (λ c. is_digit c ≡ true) s

-- A text that does not start with a digit.
abbrev pub Stops : List ℕ → Type 0
Stops [] = Unit
Stops (c ∷ s) = is_digit c ≡ false

divide-Decimal :
    (fuel : ℕ) (small : Bool) (n : ℕ) (above : List ℕ)
    → Decimal above
    → Decimal (divide fuel small 10 n above)
unfolding divide
divide-Decimal zero small n above h = h
divide-Decimal (suc fuel) small n above h =
    let rest =
      divide-Decimal fuel small (n / 10) (digit small (n % 10) ∷ above) (ground arith, h) in
    elim (Bool-cases (n == 0)) [ inl e ↦ rw e h | inr e ↦ rw e rest ]

-- 10 ^ fuel bounds the numbers that `fuel` divisions use up.
abbrev power : ℕ → ℕ
power zero = 1
power (suc k) = 10 * power k

-- Reading the digits of `n` from `i` on multiplies `i` by the power of ten above `n`.
divide-value :
    (fuel : ℕ) (small : Bool) (n : ℕ) (above : List ℕ)
    → n < power fuel
    → value 0 (divide fuel small 10 n above) ≡ value n above
unfolding divide
divide-value zero small n above h = let zero_left : n ≡ 0 = omega arith in rw zero_left refl
divide-value (suc fuel) small n above h = elim (Bool-cases (n == 0)) [
  | inl e ↦ let zero_left : n ≡ 0 = ground arith in rw e (rw zero_left refl)
  | inr e ↦
      let back : n / 10 * 10 + (digit small (n % 10) - b'0') ≡ n = ground arith in
      rw e
        (rw back at (divide-value fuel small (n / 10) (digit small (n % 10) ∷ above) (omega arith)))
]

digits_of-value : (n : ℕ) → n < power 36 → value 0 (digits_of false 10 n) ≡ n
digits_of-value n h = elim (Bool-cases (n == 0)) [
  | inl e ↦ let zero_left : n ≡ 0 = ground arith in rw zero_left refl
  | inr e ↦ rw e (divide-value 36 false n [] h)
]

digits_of-Decimal : (n : ℕ) → Decimal (digits_of false 10 n)
digits_of-Decimal n = elim (Bool-cases (n == 0)) [
  | inl e ↦ rw e (refl, tt)
  | inr e ↦ rw e (divide-Decimal 36 false n [] tt)
]

value_le : (i : ℕ) (s : List ℕ) → i ≤ value i s
value_le i [] = omega arith
value_le i (c ∷ s) = omega (arith, value_le (i * 10 + (c - b'0')) s)

skip_digits-value :
    (i : ℕ) (s rest : List ℕ)
    → Decimal s
    → Stops rest
    → value i s < 2 ^ 32
    → skip_digits i (s ++ rest) ≡ (value i s, rest)
unfolding skip_digits
skip_digits-value i [] [] d h lt = refl
skip_digits-value i [] (c ∷ rest) d h lt = rw h refl
skip_digits-value i (c ∷ s) rest (d, ds) h lt =
    let next : ℕ = i * 10 + (c - b'0') in
    let same : next % 2 ^ 32 ≡ next = omega (arith, value_le next s) in
    rw d (rw same (skip_digits-value next s rest ds h lt))

number-plain :
    (n : ℕ) → number n 10 (negsuc 0) (negsuc 0) no_flags ≡ some (digits_of false 10 n ++ [])
unfolding number place ◌-ℤ◌
number-plain n = ground arith

-- Every 32-bit number that is printed in decimal, without a width, a precision or flags, is read
-- back as the same number by `skip_atoi`, which stops behind its last digit, whatever text that does
-- not start with a digit follows.
pub skip_atoi-number :
    (n : ℕ) (rest : List ℕ)
    → n < 2 ^ 32
    → Stops rest
    → (s : List ℕ) × (number n 10 (negsuc 0) (negsuc 0) no_flags ≡ some s)
      × (skip_atoi (s ++ rest) ≡ (n, rest))
unfolding skip_atoi
skip_atoi-number n rest lt h =
    let s = digits_of false 10 n in
    let v : value 0 s ≡ n = digits_of-value n (omega arith) in
    (
      s,
      rw append-nil at (number-plain n),
      rw v at (skip_digits-value 0 s rest (digits_of-Decimal n) h (omega (arith, v))),
    )
