-- ===== src/Printf/Number.antt =====
-- kernel/vsprintf.c: `skip_atoi` and `number`.
use linux_0_11_comments.Common.{
  ltb, leb, ◌==◌, if◌then◌else◌, ℤ, pos_part, ◌-ℤ◌, ltb_ℤ, pos, negsuc, length, ℕ, zero, suc, ◌+◌,
  ◌-◌, ◌*◌, ◌/◌, ◌%◌, ◌^◌, Bool, ◌&&◌, ◌||◌, not, Option, none, some, List, [], ◌∷◌, ◌++◌,
}

abbrev pub is_digit : ℕ → Bool
is_digit c = leb b'0' c && leb c b'9'

-- The number so far, and the rest of the text.
unfoldable pub skip_digits : ℕ → List ℕ → ℕ × List ℕ
skip_digits i [] = (i, [])
skip_digits i (c ∷ s) =
    let rest = skip_digits ((i * 10 + (c - b'0')) % 2 ^ 32) s in
    if is_digit c then rest else (i, c ∷ s)

unfoldable pub skip_atoi : List ℕ → ℕ × List ℕ
skip_atoi s = skip_digits 0 s

-- ZEROPAD, SIGN and the other bits of `type`
pub record Flags : Type 0 where
  pub zeropad : Bool
  pub sign : Bool
  pub plus : Bool
  pub space : Bool
  pub left : Bool
  pub special : Bool
  pub small : Bool

-- The value of a word as an `int`.
abbrev pub int_of : ℕ → ℤ
int_of w = if ltb w (2 ^ 31) then pos w else negsuc (2 ^ 32 - 1 - w)

abbrev pub repeat : ℕ → ℕ → List ℕ
repeat zero c = []
repeat (suc n) c = c ∷ repeat n c

-- while (size-- > 0) *str++ = c: what is written, and `size` afterwards
abbrev pub pad : ℕ → ℤ → List ℕ × ℤ
pad c size = (repeat (pos_part size) c, if ltb_ℤ (pos 0) size then negsuc 0 else size -ℤ pos 1)

-- digits[d]
abbrev pub digit : Bool → ℕ → ℕ
digit small d = if ltb d 10 then b'0' + d else if small then b'a' + (d - 10) else b'A' + (d - 10)

-- The digits in `tmp` on top of `above`, the last one that was divided off first.
unfoldable pub divide : ℕ → Bool → ℕ → ℕ → List ℕ → List ℕ
divide zero small base num above = above
divide (suc fuel) small base num above =
    let rest = divide fuel small base (num / base) (digit small (num % base) ∷ above) in
    if num == 0 then above else rest

-- tmp[i-1], ..., tmp[0]; 36 is the length of `tmp`.
abbrev pub digits_of : Bool → ℕ → ℕ → List ℕ
digits_of small base num = if num == 0 then b'0' ∷ [] else divide 36 small base num []

-- The sign character, if there is one.
abbrev pub sign_of : Flags → ℕ → List ℕ
sign_of f num =
    if f.sign && leb (2 ^ 31) num
    then b'-' ∷ []
    else if f.plus
    then b'+' ∷ []
    else if f.space
    then b' ' ∷ []
    else []

abbrev pub prefix_of : Flags → ℕ → List ℕ
prefix_of f base =
    if not f.special
    then []
    else if base == 8
    then b'0' ∷ []
    else if base == 16
    then b'0' ∷ (if f.small then b'x' else b'X') ∷ []
    else []

-- The part of number behind `size -= precision`, for what has been put together so far.
unfoldable pub place : Flags → List ℕ → List ℕ → List ℕ → ℕ → ℤ → List ℕ
place f sign prefix tmp precision size =
    let zeropad = f.zeropad && not f.left in
    let (spaces, size) = if zeropad || f.left then ([], size) else pad b' ' size in
    let (middle, size) = if f.left then ([], size) else pad (if zeropad then b'0' else b' ') size in
    let (behind, size) = pad b' ' size in
    spaces ++ sign ++ prefix ++ middle ++ repeat (precision - length tmp) b'0' ++ tmp ++ behind

-- if (i>precision) precision=i, for the number `i` of digits
abbrev pub at_least : ℕ → ℤ → ℕ
at_least i precision = if ltb_ℤ precision (pos i) then i else pos_part precision

-- What is appended to `str`; `none` is the result 0.
unfoldable pub number : ℕ → ℕ → ℤ → ℤ → Flags → Option (List ℕ)
number num base size precision f =
    if ltb base 2 || ltb 36 base
    then none
    else let sign = sign_of f num in
      let num = if f.sign && leb (2 ^ 31) num then 2 ^ 32 - num else num in
      let prefix = prefix_of f base in
      let tmp = digits_of f.small base num in
      let precision = at_least (length tmp) precision in
      some (
        place f sign prefix tmp precision
          (size -ℤ pos (length sign) -ℤ pos (length prefix) -ℤ pos precision))
