-- ===== src/Printf/Tests.antt =====
-- The theorems on formatted output at concrete formats, and runs.
use linux_0_11_comments.Printf.{skip_atoi, no_flags, vsprintf, Printed}
use linux_0_11_comments.Printf.Number.{prefix_of, divide, sign_of, place, digits_of, Flags, number}
use linux_0_11_comments.Common.{
  pos_part, ◌-ℤ◌, pos, negsuc, length, ℕ, ◌+◌, ◌*◌, max, ◌≡◌, refl, true, false, some, List, [],
  ◌∷◌, ◌++◌, arith,
}
use linux_0_11_comments.Printf.Decimal.{skip_atoi-number}
use linux_0_11_comments.Printf.Width.{magnitude, number_width}
use linux_0_11_comments.Printf.Formats.{vsprintf-star}

skip_atoi-number_example :
    (s : List ℕ) × (number 1991 10 (negsuc 0) (negsuc 0) no_flags ≡ some s)
    × (skip_atoi (s ++ b'.' ∷ []) ≡ (1991, b'.' ∷ []))
skip_atoi-number_example = skip_atoi-number 1991 (b'.' ∷ []) (omega arith) refl

abbrev padded : Flags
padded = record no_flags { sign = true; zeropad = true }

-- The word of -5, in a field of 6.
number_width_example :
    let digits : ℕ = length (digits_of false 10 (magnitude padded 0xfffffffb)) in
    (s : List ℕ) × (number 0xfffffffb 10 (pos 6) (negsuc 0) padded ≡ some s)
    × (length s
        ≡ max 6 (
            length (sign_of padded 0xfffffffb)
            + length (prefix_of padded 10)
            + max digits (pos_part (negsuc 0))))
number_width_example =
    number_width 0xfffffffb 10 (pos 6) (negsuc 0) padded (omega arith) (omega arith)

minus_five :
    number 0xfffffffb 10 (pos 6) (negsuc 0) padded
    ≡ some (b'-' ∷ b'0' ∷ b'0' ∷ b'0' ∷ b'0' ∷ b'5' ∷ [])
unfolding number place divide ◌-ℤ◌
minus_five = refl

vsprintf-star_example :
    (digits : List ℕ) × (p : Printed) × (number 7 10
        (negsuc 0)
        (negsuc 0)
        (record no_flags { sign = true })
      ≡ some digits)
    × (vsprintf (λ _. []) (λ i. 5 + 2 * i) (b'%' ∷ b'.' ∷ b'*' ∷ b'%' ∷ b'd' ∷ b'!' ∷ [])
        ≡ some (length p.out, p))
    × (p.out ≡ b'%' ∷ b'*' ∷ (digits ++ (b'!' ∷ [])))
vsprintf-star_example = vsprintf-star (λ _. []) (λ i. 5 + 2 * i) true (b'!' ∷ []) (omega arith, tt)
