-- ===== src/Printf/Width.antt =====
-- How many characters `number` writes (kernel/vsprintf.c).
use linux_0_11_comments.Printf.Number.{
  at_least, prefix_of, sign_of, digits_of, repeat, place, Flags, number,
}
use linux_0_11_comments.Common.{
  ltb, leb, if◌then◌else◌, Bool-cases, ℤ, pos_part, ◌-ℤ◌, pos, length, ℕ, zero, suc, ◌+◌, ◌-◌, ◌^◌,
  ◌≤◌, max, ◌≡◌, refl, ap, ◌∙◌, inl, inr, false, ◌&&◌, some, List, [], ◌∷◌, ◌++◌, arith,
}

length-append : (s t : List ℕ) → length (s ++ t) ≡ length s + length t
length-append [] t = omega arith
length-append (c ∷ s) t = omega (arith, length-append s t)

length-repeat : (n c : ℕ) → length (repeat n c) ≡ n
length-repeat zero c = refl
length-repeat (suc n) c = ap suc (length-repeat n c)

-- The number that is printed behind the sign.
abbrev pub magnitude : Flags → ℕ → ℕ
magnitude f num = if f.sign && leb (2 ^ 31) num then 2 ^ 32 - num else num

length-place :
    (f : Flags) (sign prefix tmp : List ℕ) (precision : ℕ) (size : ℤ)
    → length tmp ≤ precision
    → length (place f sign prefix tmp precision size)
      ≡ length sign + length prefix + precision + pos_part size
unfolding place ◌-ℤ◌
length-place f sign prefix tmp precision size h = elim (Bool-cases f.left) [
  | inl l ↦ elim (Bool-cases f.zeropad) [
    | inl z ↦ rw (l, z) (simp (length-append, length-repeat) (ground arith))
    | inr z ↦ rw (l, z) (simp (length-append, length-repeat) (ground arith))
  ]
  | inr l ↦ elim (Bool-cases f.zeropad) [
    | inl z ↦ rw (l, z) (simp (length-append, length-repeat) (ground arith))
    | inr z ↦ rw (l, z) (simp (length-append, length-repeat) (ground arith))
  ]
]

room_left :
    (size : ℤ) (a b c : ℕ)
    → pos_part (size -ℤ pos a -ℤ pos b -ℤ pos c) ≡ pos_part size - (a + b + c)
unfolding ◌-ℤ◌
room_left size a b c = ground arith

-- For the bases from 2 to 36, `number` writes exactly as many characters as the field is wide, or as
-- the sign, the prefix and the digits need if that is more; the digits are at least as many as the
-- precision asks for.
pub number_width :
    (num base : ℕ) (size precision : ℤ) (f : Flags)
    → 2 ≤ base
    → base ≤ 36
    → let digits : ℕ = length (digits_of f.small base (magnitude f num)) in
      (s : List ℕ) × (number num base size precision f ≡ some s)
      × (length s
          ≡ max (pos_part size) (
              length (sign_of f num) + length (prefix_of f base) + max digits (pos_part precision)))
unfolding number
number_width num base size precision f lo hi =
    let a : ltb base 2 ≡ false = ground arith in
    let b : ltb 36 base ≡ false = ground arith in
    let i : ℕ = length (digits_of f.small base (magnitude f num)) in
    let p : at_least i precision ≡ max i (pos_part precision) = ground arith in
    let room : ℤ = size -ℤ pos (length (sign_of f num)) -ℤ pos (length (prefix_of f base)) in
    (
      place f (sign_of f num) (prefix_of f base) (digits_of f.small base (magnitude f num))
          (at_least i precision) (room -ℤ pos (at_least i precision)),
      rw (a, b) refl,
      length-place f (sign_of f num) (prefix_of f base) _ (at_least i precision) _
            (ground (arith, p))
          ∙ omega (
            arith,
            p,
            room_left size (length (sign_of f num)) (length (prefix_of f base))
                (at_least i precision),
          ),
    )
