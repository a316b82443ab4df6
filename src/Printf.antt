-- ===== src/Printf.antt =====
-- kernel/vsprintf.c: formatted output.
--
-- A character is its code, and a text is a list without the final NUL. An `int` is a 32-bit word
-- where it is an argument, and an integer where it is a width or a precision. The arguments are the
-- words `args 0`, `args 1`, ... of the stack, and `text a` is the C string at the address `a`.
pub mod Number
pub mod Decimal
pub mod Width
pub mod Formats
pub mod Pieces
mod Tests
use linux_0_11_comments.Printf.Number.{int_of, skip_atoi, repeat, Flags, number, is_digit}
use linux_0_11_comments.Common.{
  ◌==◌, if◌then◌else◌, ℤ, pos_part, ◌-ℤ◌, ltb_ℤ, eq_ℤ, pos, negsuc, length, ℕ, zero, suc, ◌+◌, ◌%◌,
  true, false, ◌&&◌, ◌||◌, not, Option, none, some, List, [], ◌∷◌, ◌++◌,
}

-- The fields of a conversion.
pub record Conversion : Type 0 where
  pub flags : Flags
  pub field_width : ℤ
  pub precision : ℤ

abbrev pub no_flags : Flags
no_flags = record {
  zeropad = false;
  sign = false;
  plus = false;
  space = false;
  left = false;
  special = false;
  small = false;
}

-- The `repeat` loop.
unfoldable pub parse_flags : Flags → List ℕ → Flags × List ℕ
parse_flags f [] = (f, [])
parse_flags f (c ∷ s) =
    let left = parse_flags (record f { left = true }) s in
    let plus = parse_flags (record f { plus = true }) s in
    let space = parse_flags (record f { space = true }) s in
    let special = parse_flags (record f { special = true }) s in
    let zeropad = parse_flags (record f { zeropad = true }) s in
    if c == b'-'
    then left
    else if c == b'+'
    then plus
    else if c == b' '
    then space
    else if c == b'#'
    then special
    else if c == b'0'
    then zeropad
    else (f, c ∷ s)

-- switch (*fmt): what is written, whether an argument is used, and the address that %n stores at
pub data Converted : Type 0 where
  plain : List ℕ → Converted
  argument : List ℕ → Converted
  position : ℕ → Converted

-- The output so far, and what %n has stored: addresses and numbers of characters.
pub record Printed : Type 0 where
  pub out : List ℕ
  pub stored : List (ℕ × ℕ)

abbrev pub not_negative : ℤ → ℤ
not_negative p = if ltb_ℤ p (pos 0) then pos 0 else p

abbrev pub skip_qualifier : List ℕ → List ℕ
skip_qualifier [] = []
skip_qualifier (c ∷ s) = if c == b'h' || c == b'l' || c == b'L' then s else c ∷ s

abbrev pub first_chars : ℕ → List ℕ → List ℕ
first_chars zero s = []
first_chars (suc n) [] = []
first_chars (suc n) (c ∷ s) = c ∷ first_chars n s

abbrev pub print_char : Conversion → ℕ → List ℕ
print_char v c =
    let spaces = repeat (pos_part (v.field_width -ℤ pos 1)) b' ' in
    if v.flags.left then (c % 256) ∷ spaces else spaces ++ (c % 256) ∷ []

abbrev pub print_string : Conversion → List ℕ → List ℕ
print_string v s =
    let len =
      if not (ltb_ℤ v.precision (pos 0)) && ltb_ℤ v.precision (pos (length s))
      then pos_part v.precision
      else length s in
    let spaces = repeat (pos_part (v.field_width -ℤ pos len)) b' ' in
    if v.flags.left then first_chars len s ++ spaces else spaces ++ first_chars len s

abbrev pub print_number : ℕ → Conversion → ℕ → Option (List ℕ)
print_number base v num = number num base v.field_width v.precision v.flags

abbrev pub as_argument : Option (List ℕ) → Option Converted
as_argument none = none
as_argument (some s) = some (argument s)

abbrev pub print : Converted → Printed → Printed
print (plain s) p = record p { out = p.out ++ s }
print (argument s) p = record p { out = p.out ++ s }
print (position a) p = record p { stored = (a, length p.out) ∷ p.stored }

abbrev pub next_argument : Converted → ℕ → ℕ
next_argument (plain s) n = n
next_argument (argument s) n = n + 1
next_argument (position a) n = n + 1

module _ (text : ℕ → List ℕ) (args : ℕ → ℕ) where
  -- The state: the rest of the format and the number of the next argument.
  unfoldable pub parse_width : Flags → List ℕ → ℕ → Flags × ℤ × List ℕ × ℕ
  parse_width f [] n = (f, negsuc 0, [], n)
  parse_width f (c ∷ s) n =
      if is_digit c
      then (let (w, s') = skip_atoi (c ∷ s) in (f, int_of w, s', n))
      else if c == b'*'
      then (let w = int_of (args n) in
          if ltb_ℤ w (pos 0)
          then (record f { left = true }, pos 0 -ℤ w, c ∷ s, n + 1)
          else (f, w, c ∷ s, n + 1))
      else (f, negsuc 0, c ∷ s, n)

  -- After the '.' of a precision.
  unfoldable pub parse_after_dot : List ℕ → ℕ → ℤ × List ℕ × ℕ
  parse_after_dot [] n = (pos 0, [], n)
  parse_after_dot (c ∷ s) n =
      if is_digit c
      then (let (p, s') = skip_atoi (c ∷ s) in (not_negative (int_of p), s', n))
      else if c == b'*'
      then (not_negative (int_of (args n)), c ∷ s, n + 1)
      else (pos 0, c ∷ s, n)

  unfoldable pub parse_precision : List ℕ → ℕ → ℤ × List ℕ × ℕ
  parse_precision [] n = (negsuc 0, [], n)
  parse_precision (c ∷ s) n = if c == b'.' then parse_after_dot s n else (negsuc 0, c ∷ s, n)

  unfoldable pub convert : Conversion → ℕ → ℕ → Option Converted
  convert v c a =
      let f = v.flags in
      if c == b'c'
      then some (argument (print_char v a))
      else if c == b's'
      then some (argument (print_string v (text a)))
      else if c == b'o'
      then as_argument (print_number 8 v a)
      else if c == b'p'
      then as_argument (
          print_number 16
            (if eq_ℤ v.field_width (negsuc 0)
              then record v { field_width = pos 8; flags = record f { zeropad = true } }
              else v)
            a)
      else if c == b'x'
      then as_argument (print_number 16 (record v { flags = record f { small = true } }) a)
      else if c == b'X'
      then as_argument (print_number 16 v a)
      else if c == b'd' || c == b'i'
      then as_argument (print_number 10 (record v { flags = record f { sign = true } }) a)
      else if c == b'u'
      then as_argument (print_number 10 v a)
      else if c == b'n'
      then some (position a)
      else some (plain (if c == b'%' then c ∷ [] else b'%' ∷ c ∷ []))

  -- From the conversion character on; at the end of the format the '%' stands for itself.
  unfoldable pub end_conversion : Conversion → List ℕ → ℕ → Printed → Option (List ℕ × ℕ × Printed)
  end_conversion v [] n p = some ([], n, record p { out = p.out ++ b'%' ∷ [] })
  end_conversion v (c ∷ s) n p = elim (convert v c (args n)) [
    | none ↦ none
    | some r ↦ some (s, next_argument r n, print r p)
  ]

  -- One conversion, from behind the '%' on: the rest of the format, the number of the next
  -- argument, and the output.
  unfoldable pub print_one : List ℕ → ℕ → Printed → Option (List ℕ × ℕ × Printed)
  print_one s n p =
      let (f, s) = parse_flags no_flags s in
      let (f, width, s, n) = parse_width f s n in
      let (precision, s, n) = parse_precision s n in
      end_conversion (record { flags = f; field_width = width; precision = precision })
        (skip_qualifier s) n p

  -- The loop, on fuel.
  unfoldable pub print_all : ℕ → List ℕ → ℕ → Printed → Option Printed
  print_all zero s n p = none
  print_all (suc fuel) [] n p = some p
  print_all (suc fuel) (c ∷ s) n p = elim (c == b'%') [
    | false ↦ print_all fuel s n (record p { out = p.out ++ c ∷ [] })
    | true ↦ elim (print_one s n p) [ none ↦ none | some (s, n, p) ↦ print_all fuel s n p ]
  ]

  -- The return value, the text in `buf`, and what %n stored. The source returns `str - buf`, and `str`
  -- stands behind the last character written, since nothing is written elsewhere or taken back.
  unfoldable pub vsprintf : List ℕ → Option (ℕ × Printed)
  vsprintf fmt = elim (print_all (suc (length fmt)) fmt 0 (record { out = []; stored = [] })) [
    | none ↦ none
    | some p ↦ some (length p.out, p)
  ]
