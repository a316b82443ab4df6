-- ===== src/Bitmap/Bytes.antt =====
-- The bits of the bytes of a block (fs/bitmap.c).
use linux_0_11_comments.Bitmap.{set_block_bit, test_bit, find_zero_from}
use native.Mathlib.Decide.{ℕ_discrete}
use native.Mathlib.Nat.{div-div-eq-div-mul}
use linux_0_11_comments.Common.{
  ◌==◌, if◌then◌else◌, Bool-cases, ℕ, zero, suc, ◌+◌, ◌*◌, ◌/◌, ◌%◌, ◌^◌, ◌≤◌, ◌<◌, ◌≡◌, refl, sym,
  ap, ◌∙◌, subst, inl, inr, Bool, true, false, ◌||◌, arith,
}

double : (k : ℕ) → 2 ^ suc k ≡ 2 * 2 ^ k
double k = omega arith

halve : (a m : ℕ) → a / 2 ^ suc m ≡ a / 2 / 2 ^ m
halve a m = ap (λ d. a / d) (double m) ∙ sym (div-div-eq-div-mul a 2 (2 ^ m))

-- A power of two that is added to a number without that bit sets the bit.
add_bit :
    (a k m : ℕ)
    → a / 2 ^ k % 2 ≡ 0
    → (a + 2 ^ k) / 2 ^ m % 2 ≡ (if k == m then 1 else a / 2 ^ m % 2)
add_bit a zero zero e = omega arith
add_bit a zero (suc m) e =
    let even : (a + 1) / 2 ≡ a / 2 = omega (arith, e) in
    let other : (0 == suc m) ≡ false = ground arith in
    rw other (ap (λ d. d % 2) (halve (a + 1) m ∙ ap (λ d. d / 2 ^ m) even ∙ sym (halve a m)))
add_bit a (suc k) zero e =
    let d = double k in
    let low : (a + 2 ^ suc k) / 1 % 2 ≡ a / 1 % 2 = omega (arith, d) in
    let other : (suc k == 0) ≡ false = ground arith in rw other low
add_bit a (suc k) (suc m) e =
    let even : (a + 2 ^ suc k) / 2 ≡ a / 2 + 2 ^ k = let d = double k in omega (arith, d) in
    let e' : a / 2 / 2 ^ k % 2 ≡ 0 = ap (λ d. d % 2) (sym (halve a k)) ∙ e in
    ap (λ d. d % 2) (halve (a + 2 ^ suc k) m ∙ ap (λ d. d / 2 ^ m) even)
    ∙ add_bit (a / 2) k m e'
    ∙ ground (arith, halve a m)

bit-eq :
    (b d : Bool) (x y z : ℕ)
    → b ≡ d
    → x % 2 ≡ (if b then 1 else y % 2)
    → y ≡ z
    → (x % 2 == 1) ≡ (d || z % 2 == 1)
bit-eq b d x y z e f g = ground (arith, e, f, g)

-- Setting a bit that is clear sets it, and leaves every other bit of the block.
pub test_bit-set_block_bit :
    (j i : ℕ) (block : ℕ → ℕ)
    → test_bit j block ≡ false
    → test_bit i (set_block_bit j block) ≡ (j == i || test_bit i block)
test_bit-set_block_bit j i block e =
    let clear : block (j / 8) / 2 ^ (j % 8) % 2 ≡ 0 = ground (arith, e) in
    let added = add_bit (block (j / 8)) (j % 8) (i % 8) clear in
    rw e (elim (ℕ_discrete (j / 8) (i / 8)) [
      | no other ↦
          let here : (j / 8 == i / 8) ≡ false = ground (arith, other) in
          let apart : (j == i) ≡ false = ground (arith, other) in rw (here, apart) refl
      | yes same ↦
          let here : (j / 8 == i / 8) ≡ true = ground (arith, same) in
          let last : (j % 8 == i % 8) ≡ (j == i) = ground (arith, same) in
          let byte : block (j / 8) / 2 ^ (i % 8) ≡ block (i / 8) / 2 ^ (i % 8) =
            ap (λ q. block q / 2 ^ (i % 8)) same in
          rw here (
            bit-eq (j % 8 == i % 8) (j == i) ((block (j / 8) + 2 ^ (j % 8)) / 2 ^ (i % 8))
              (block (j / 8) / 2 ^ (i % 8)) (block (i / 8) / 2 ^ (i % 8)) last added byte)
    ])

-- Bit `j` is the first one that is clear from number `from` on, or `j` is `end` and there is none.
pub record IsFirstClear (block : ℕ → ℕ) (from end j : ℕ) : Type 0 where
  pub after : from ≤ j
  pub before : j ≤ end
  pub clear : j < end → test_bit j block ≡ false
  pub others : (i : ℕ) → from ≤ i → i < j → test_bit i block ≡ true

later-IsFirstClear :
    (block : ℕ → ℕ) (from end j : ℕ)
    → test_bit from block ≡ true
    → IsFirstClear block (from + 1) end j
    → IsFirstClear block from end j
later-IsFirstClear block from end j e h = record {
  after = omega (arith, h.after);
  before = h.before;
  clear = h.clear;
  others = λ i le lt. elim (ℕ_discrete from i) [
    | yes same ↦ subst (λ i. test_bit i block ≡ true) same e
    | no other ↦ h.others i (omega (arith, other)) lt
  ];
}

pub find_zero_from-IsFirstClear :
    (block : ℕ → ℕ) (n from : ℕ) → IsFirstClear block from (from + n) (find_zero_from block n from)
unfolding find_zero_from
find_zero_from-IsFirstClear block zero from = record {
  after = omega arith;
  before = omega arith;
  clear = λ lt. absurd (omega arith);
  others = λ i le lt. absurd (omega arith);
}
find_zero_from-IsFirstClear block (suc n) from = elim (Bool-cases (test_bit from block)) [
  | inr e ↦
      let stop : find_zero_from block (suc n) from ≡ from = rw (e, find_zero_from) refl in
      subst (IsFirstClear block from (from + suc n)) (sym stop) (record {
        after = omega arith;
        before = omega arith;
        clear = λ lt. e;
        others = λ i le lt. absurd (omega arith);
      })
  | inl e ↦
      let next : find_zero_from block (suc n) from ≡ find_zero_from block n (from + 1) =
        rw (e, find_zero_from) refl in
      let end : from + 1 + n ≡ from + suc n = omega arith in
      subst (IsFirstClear block from (from + suc n)) (sym next) (
        later-IsFirstClear block from (from + suc n) _ e (
          subst (λ x. IsFirstClear block (from + 1) x (find_zero_from block n (from + 1))) end
            (find_zero_from-IsFirstClear block n (from + 1))))
]
