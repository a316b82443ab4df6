-- ===== src/Printf/Formats.antt =====
-- How `vsprintf` goes through a format (kernel/vsprintf.c).
use linux_0_11_comments.Printf.Number.{skip_atoi, skip_digits}
use linux_0_11_comments.Printf.{
  argument, print, as_argument, no_flags, parse_after_dot, skip_atoi, int_of, next_argument, number,
  Converted, Flags, vsprintf, parse_width, Printed, parse_precision, Conversion, print_one,
  print_all, convert, end_conversion, skip_qualifier, parse_flags,
}
use linux_0_11_comments.Printf.Width.{number_width}
use mathlib.Core.List.{append-nil, append_assoc}
use linux_0_11_comments.Common.{
  ◌==◌, if◌then◌else◌, Bool-cases, ltb_ℤ, pos, negsuc, length, All, ℕ, zero, suc, ◌+◌, ◌-◌, ◌*◌,
  ◌%◌, ◌^◌, ◌≤◌, ◌<◌, ◌≡◌, refl, sym, ap, ◌∙◌, ◌≢◌, inl, inr, Bool, true, false, ◌||◌, Option, some,
  List, [], ◌∷◌, ◌++◌, arith,
}

skip_digits-length : (i : ℕ) (s : List ℕ) → length (skip_digits i s).1 ≤ length s
unfolding skip_digits
skip_digits-length i [] = omega arith
skip_digits-length i (c ∷ s) = ground (arith, skip_digits-length ((i * 10 + (c - b'0')) % 2 ^ 32) s)

parse_flags-length : (f : Flags) (s : List ℕ) → length (parse_flags f s).1 ≤ length s
unfolding parse_flags
parse_flags-length f [] = omega arith
parse_flags-length f (c ∷ s) = ground (
  arith,
  parse_flags-length (record f { left = true }) s,
  parse_flags-length (record f { plus = true }) s,
  parse_flags-length (record f { space = true }) s,
  parse_flags-length (record f { special = true }) s,
  parse_flags-length (record f { zeropad = true }) s,
)

parse_width-length :
    (text : ℕ → List ℕ) (args : ℕ → ℕ) (f : Flags) (s : List ℕ) (n : ℕ)
    → length (parse_width text args f s n).2 ≤ length s
unfolding parse_width skip_atoi
parse_width-length text args f [] n = omega arith
parse_width-length text args f (c ∷ s) n = ground (arith, skip_digits-length 0 (c ∷ s))

parse_precision-length :
    (text : ℕ → List ℕ) (args : ℕ → ℕ) (s : List ℕ) (n : ℕ)
    → length (parse_precision text args s n).1 ≤ length s
unfolding parse_precision parse_after_dot skip_atoi
parse_precision-length text args [] n = omega arith
parse_precision-length text args (c ∷ []) n = ground arith
parse_precision-length text args (c ∷ d ∷ s) n = ground (arith, skip_digits-length 0 (d ∷ s))

number-some :
    (base : ℕ) (v : Conversion) (a : ℕ)
    → 2 ≤ base
    → base ≤ 36
    → (s : List ℕ) × (number a base v.field_width v.precision v.flags ≡ some s)
number-some base v a lo hi =
    let (s, e, w) = number_width a base v.field_width v.precision v.flags lo hi in (s, e)

convert-number :
    (base : ℕ) (v : Conversion) (a : ℕ)
    → 2 ≤ base
    → base ≤ 36
    → (r : Converted) × (as_argument (number a base v.field_width v.precision v.flags) ≡ some r)
convert-number base v a lo hi = let (s, e) = number-some base v a lo hi in (argument s, rw e refl)

if_some {ℓ} :
    {A : Type ℓ} (b : Bool) (x y : Option A)
    → (a : A) × (x ≡ some a)
    → (a : A) × (y ≡ some a)
    → (a : A) × ((if b then x else y) ≡ some a)
if_some true x y h k = h
if_some false x y h k = k

convert-some :
    (text : ℕ → List ℕ) (args : ℕ → ℕ) (v : Conversion) (c a : ℕ)
    → (r : Converted) × (convert text args v c a ≡ some r)
unfolding convert
convert-some text args v c a =
    if_some (c == b'c') _ _ (_, refl)
      (if_some (c == b's') _ _ (_, refl)
        (if_some (c == b'o') _ _ (convert-number 8 v a (omega arith) (omega arith)) (
          if_some (c == b'p') _ _ (convert-number 16 _ a (omega arith) (omega arith)) (
            if_some (c == b'x') _ _ (convert-number 16 _ a (omega arith) (omega arith)) (
              if_some (c == b'X') _ _ (convert-number 16 _ a (omega arith) (omega arith)) (
                if_some (c == b'd' || c == b'i') _ _
                  (convert-number 10 _ a (omega arith) (omega arith))
                  (if_some (c == b'u') _ _ (convert-number 10 _ a (omega arith) (omega arith))
                    (if_some (c == b'n') _ _ (_, refl) (_, refl)))))))))

skip_qualifier-length : (s : List ℕ) → length (skip_qualifier s) ≤ length s
skip_qualifier-length [] = omega arith
skip_qualifier-length (c ∷ s) = ground arith

-- The '*' of a width, and that of a precision
abbrev pub star : Bool → List ℕ
star dot = if dot then b'.' ∷ b'*' ∷ [] else b'*' ∷ []

star_fuel : (dot : Bool) (s : List ℕ) → length s < length (star dot ++ (b'%' ∷ b'd' ∷ s))
star_fuel true s = omega arith
star_fuel false s = omega arith

module _ (text : ℕ → List ℕ) (args : ℕ → ℕ) where
  -- A step of the format that goes on with a text that is no longer.
  abbrev Goes : List ℕ → Option (List ℕ × ℕ × Printed) → Type 0
  Goes s o = (t : List ℕ) × (n : ℕ) × (p : Printed) × (o ≡ some (t, n, p)) × (length t ≤ length s)

  end_conversion-Goes :
      (v : Conversion) (s t : List ℕ) (n : ℕ) (p : Printed)
      → length s ≤ length t
      → Goes t (end_conversion text args v s n p)
  unfolding end_conversion
  end_conversion-Goes v [] t n p h = (_, _, _, refl, omega arith)
  end_conversion-Goes v (c ∷ s) t n p h =
      let (r, e) = convert-some text args v c (args n) in
      (s, next_argument r n, print r p, rw (e, end_conversion) refl, omega (arith, h))

  print_one-Goes : (s : List ℕ) (n : ℕ) (p : Printed) → Goes s (print_one text args s n p)
  unfolding print_one
  print_one-Goes s n p =
      let a = parse_flags no_flags s in
      let b = parse_width text args a.0 a.1 n in
      let c = parse_precision text args b.2 b.3 in
      end_conversion-Goes _ (skip_qualifier c.1) s _ p (
        omega (
          arith,
          parse_flags-length no_flags s,
          parse_width-length text args a.0 a.1 n,
          parse_precision-length text args b.2 b.3,
          skip_qualifier-length c.1,
        ))

  print_all-some :
      (fuel : ℕ) (s : List ℕ) (n : ℕ) (p : Printed)
      → length s < fuel
      → (q : Printed) × (print_all text args fuel s n p ≡ some q)
  unfolding print_all
  print_all-some zero s n p h = absurd (omega arith)
  print_all-some (suc fuel) [] n p h = (p, refl)
  print_all-some (suc fuel) (c ∷ s) n p h = elim (Bool-cases (c == b'%')) [
    | inr e ↦ rw (e, print_all) (print_all-some fuel s n _ (omega arith))
    | inl e ↦
        let (t, m, q, g, le) = print_one-Goes s n p in
        rw (e, g, print_all) (print_all-some fuel t m q (omega arith))
  ]

  -- For every format, whatever the arguments are, `vsprintf` ends.
  vsprintf-returns :
      (fmt : List ℕ) → (p : Printed) × (vsprintf text args fmt ≡ some (length p.out, p))
  unfolding vsprintf
  vsprintf-returns fmt =
      let (p, e) =
        print_all-some (suc (length fmt)) fmt 0 (record { out = []; stored = [] }) (omega arith) in
      (p, rw (e, vsprintf) refl)

  print_all-plain :
      (fuel : ℕ) (s : List ℕ) (n : ℕ) (p : Printed)
      → length s < fuel
      → All (λ c. c ≢ b'%') s
      → print_all text args fuel s n p ≡ some (record p { out = p.out ++ s })
  unfolding print_all
  print_all-plain zero s n p h plain = absurd (omega arith)
  print_all-plain (suc fuel) [] n p h plain =
      ap (λ o. some (record p { out = o })) (sym (append-nil p.out))
  print_all-plain (suc fuel) (c ∷ s) n p h (ne, plain) =
      let e : (c == b'%') ≡ false = ground arith in
      rw (e, print_all)
        (print_all-plain fuel s n (record p { out = p.out ++ c ∷ [] }) (omega arith) plain
          ∙ ap (λ o. some (record p { out = o })) (append_assoc p.out (c ∷ []) s))

  -- A '*' for the width or, behind a '.', for the precision takes the argument `n`, and is printed.
  print_one-star :
      (dot : Bool) (s : List ℕ) (n : ℕ) (p : Printed)
      → print_one text args (star dot ++ s) n p
        ≡ some (s, n + 1, record p { out = p.out ++ b'%' ∷ b'*' ∷ [] })
  unfolding print_one parse_flags parse_width parse_precision parse_after_dot end_conversion convert
  print_one-star true s n p = refl
  print_one-star false s n p = elim (Bool-cases (ltb_ℤ (int_of (args n)) (pos 0))) [
    | inl e ↦ rw (e, print_one, parse_width) refl
    | inr e ↦ rw (e, print_one, parse_width) refl
  ]

  print_one-decimal :
      (s digits : List ℕ) (n : ℕ) (p : Printed)
      → number (args n) 10 (negsuc 0) (negsuc 0) (record no_flags { sign = true }) ≡ some digits
      → print_one text args (b'd' ∷ s) n p ≡ some (s, n + 1, record p { out = p.out ++ digits })
  unfolding print_one parse_flags parse_width parse_precision parse_after_dot end_conversion convert
  print_one-decimal s digits n p e = rw (e, print_one, end_conversion) refl

  pub print_all-step :
      (fuel : ℕ) (s t : List ℕ) (n m : ℕ) (p q : Printed)
      → print_one text args s n p ≡ some (t, m, q)
      → print_all text args (suc fuel) (b'%' ∷ s) n p ≡ print_all text args fuel t m q
  unfolding print_all
  print_all-step fuel s t n m p q e = rw (e, print_all) refl

  pub vsprintf-all :
      (fmt : List ℕ) (p : Printed)
      → print_all text args (suc (length fmt)) fmt 0 (record { out = []; stored = [] }) ≡ some p
      → vsprintf text args fmt ≡ some (length p.out, p)
  unfolding vsprintf
  vsprintf-all fmt p e = rw (e, vsprintf) refl

  star_rest :
      (fuel : ℕ) (s digits : List ℕ) (q : Printed)
      → length s < fuel
      → number (args 1) 10 (negsuc 0) (negsuc 0) (record no_flags { sign = true }) ≡ some digits
      → All (λ c. c ≢ b'%') s
      → print_all text args (suc fuel) (b'%' ∷ b'd' ∷ s) 1 q
        ≡ some (record q { out = (q.out ++ digits) ++ s })
  star_rest fuel s digits q lt e plain =
      print_all-step fuel (b'd' ∷ s) s 1 2 q _ (print_one-decimal s digits 1 q e)
      ∙ print_all-plain fuel s 2 (record q { out = q.out ++ digits }) lt plain

  -- A width given as '*', and a precision given as '.*', takes an argument, but the '*' itself is not
  -- skipped: it is taken for the conversion. So a format "%*%d" or "%.*%d", with a text without '%'
  -- behind it, prints "%*" (the '.' is lost), then the second argument in decimal, not the first, and
  -- the text.
  pub vsprintf-star :
      (dot : Bool) (s : List ℕ)
      → All (λ c. c ≢ b'%') s
      → (digits : List ℕ) × (p : Printed) × (number
            (args 1)
            10
            (negsuc 0)
            (negsuc 0)
            (record no_flags { sign = true })
          ≡ some digits)
        × (vsprintf text args (b'%' ∷ (star dot ++ (b'%' ∷ b'd' ∷ s))) ≡ some (length p.out, p))
        × (p.out ≡ b'%' ∷ b'*' ∷ (digits ++ s))
  vsprintf-star dot s plain =
      let (digits, e, w) =
        number_width (args 1) 10 (negsuc 0) (negsuc 0) (record no_flags { sign = true })
          (omega arith) (omega arith) in
      let q : Printed = record { out = b'%' ∷ b'*' ∷ []; stored = [] } in
      (
        digits,
        record q { out = b'%' ∷ b'*' ∷ (digits ++ s) },
        e,
        vsprintf-all _ _ (
            print_all-step (suc (length (star dot ++ (b'%' ∷ b'd' ∷ s)))) _ _ 0 1 _ q
              (print_one-star dot (b'%' ∷ b'd' ∷ s) 0 _)
            ∙ star_rest (length (star dot ++ (b'%' ∷ b'd' ∷ s))) s digits q (star_fuel dot s) e
                plain),
        refl,
      )
