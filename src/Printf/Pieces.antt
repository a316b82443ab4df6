-- ===== src/Printf/Pieces.antt =====
-- What `vsprintf` prints for a whole format (kernel/vsprintf.c).
use linux_0_11_comments.Printf.{number, print_all, Printed, no_flags}
use linux_0_11_comments.Common.{
  negsuc, ℕ, ◌+◌, ◌%◌, ◌≡◌, ◌≢◌, Bool, true, false, Option, none, some, List, [], ◌∷◌, ◌++◌,
}

-- A part of a format: a character that stands for itself, or a conversion without flags, width and
-- precision: %d, %u, %x, %c, and %%.
pub data Piece : Type 0 where
  letter : ℕ → Piece
  decimal unsigned hex char percent : Piece

abbrev pub format : List Piece → List ℕ
format [] = []
format (letter c ∷ pieces) = c ∷ format pieces
format (decimal ∷ pieces) = b'%' ∷ b'd' ∷ format pieces
format (unsigned ∷ pieces) = b'%' ∷ b'u' ∷ format pieces
format (hex ∷ pieces) = b'%' ∷ b'x' ∷ format pieces
format (char ∷ pieces) = b'%' ∷ b'c' ∷ format pieces
format (percent ∷ pieces) = b'%' ∷ b'%' ∷ format pieces

-- A character that stands for itself is not '%'.
abbrev pub IsPlain : Piece → Type 0
IsPlain (letter c) = c ≢ b'%'
IsPlain other = Unit

-- The number of the argument behind a piece
abbrev pub advance : Piece → ℕ → ℕ
advance (letter c) n = n
advance percent n = n
advance other n = n + 1

-- The text of a piece whose argument is `a`
abbrev pub shown : Piece → ℕ → Option (List ℕ)
shown (letter c) a = some (c ∷ [])
shown decimal a = number a 10 (negsuc 0) (negsuc 0) (record no_flags { sign = true })
shown unsigned a = number a 10 (negsuc 0) (negsuc 0) no_flags
shown hex a = number a 16 (negsuc 0) (negsuc 0) (record no_flags { small = true })
shown char a = some (a % 256 ∷ [])
shown percent a = some (b'%' ∷ [])

abbrev is_conversion : Piece → Bool
is_conversion (letter c) = false
is_conversion other = true

module _ (text : ℕ → List ℕ) (args : ℕ → ℕ) where
  -- The texts of the pieces, one behind the other; each conversion but %% takes the next argument, the
  -- first one the argument `n`.
  abbrev pub Shown : List Piece → ℕ → List ℕ → Type 0
  Shown [] n out = out ≡ []
  Shown (piece ∷ pieces) n out =
      (s : List ℕ) × (rest : List ℕ) × (shown piece (args n) ≡ some s)
      × (out ≡ s ++ rest)
      × Shown pieces (advance piece n) rest

  -- The character of a conversion, and the pieces behind it
  abbrev behind : Piece → List ℕ → List ℕ
  behind (letter c) s = s
  behind decimal s = b'd' ∷ s
  behind unsigned s = b'u' ∷ s
  behind hex s = b'x' ∷ s
  behind char s = b'c' ∷ s
  behind percent s = b'%' ∷ s

  -- The result of a conversion with the text `t`
  abbrev extend : List ℕ → ℕ → Printed → Option (List ℕ) → Option (List ℕ × ℕ × Printed)
  extend s n p none = none
  extend s n p (some t) = some (s, n, record p { out = p.out ++ t })

  -- What print_all does for some pieces
  abbrev IsPrinted : List Piece → ℕ → ℕ → Printed → Type 0
  IsPrinted pieces fuel n p =
      (out : List ℕ) × Shown pieces n out
      × (print_all text args fuel (format pieces) n p ≡ some (record p { out = p.out ++ out }))
