-- ===== src/Directory/Components.antt =====
-- How the code takes a path apart (fs/namei.c).
use linux_0_11_comments.Directory.Path.{last_name, basename, split_slash}
use linux_0_11_comments.Common.{
  ◌==◌, Bool-cases, elim-cases, length, All, ℕ, ◌<◌, ◌≡◌, refl, ap, ◌∙◌, ◌≢◌, inl, inr, Option,
  none, some, List, [], ◌∷◌, ◌++◌, arith,
}

abbrev pub NoSlash : List ℕ → Type 0
NoSlash name = All (λ c. c ≢ b'/') name

-- The path is the name, or the name, a '/' and the rest. get_dir goes on with the rest; dir_namei, with
-- the basename `base` so far, finds the basename of the rest, or `base` if there is none.
abbrev pub IsSplit : List ℕ → List ℕ → List ℕ × Option (List ℕ) → Type 0
IsSplit path base (name, none) = (path ≡ name) × (last_name path base ≡ base)
IsSplit path base (name, some rest) =
    (path ≡ name ++ b'/' ∷ rest)
    × (last_name path base ≡ basename rest)
    × (length rest < length path)

split_slash-NoSlash : (path : List ℕ) → NoSlash (split_slash path).0
unfolding split_slash
split_slash-NoSlash [] = tt
split_slash-NoSlash (c ∷ cs) =
    elim-cases (λ (r : List ℕ × Option (List ℕ)). NoSlash r.0) (c == b'/') _ _ (λ e. tt)
      (λ e. (λ same. absurd (ground (arith, e, same)), split_slash-NoSlash cs))

-- One more byte that is no '/'
IsSplit-cons :
    (c : ℕ) (cs base name : List ℕ) (rest : Option (List ℕ))
    → last_name (c ∷ cs) base ≡ last_name cs base
    → IsSplit cs base (name, rest)
    → IsSplit (c ∷ cs) base (c ∷ name, rest)
IsSplit-cons c cs base name none same (joined, last) = (ap (λ cs. c ∷ cs) joined, same ∙ last)
IsSplit-cons c cs base name (some rest) same (joined, last, less) =
    (ap (λ cs. c ∷ cs) joined, same ∙ last, omega (arith, less))

-- get_dir takes the bytes before the first '/' of a path as the next name, and goes on with what is
-- behind it, which is shorter, and has the basename that dir_namei finds in the whole path; without a
-- '/' it stops, and dir_namei takes the basename that it had.
split_slash-IsSplit :
    (path base : List ℕ) → NoSlash (split_slash path).0 × IsSplit path base (split_slash path)
unfolding split_slash last_name
split_slash-IsSplit [] base = (tt, (refl, refl))
split_slash-IsSplit (c ∷ cs) base = (
  split_slash-NoSlash (c ∷ cs),
  elim (Bool-cases (c == b'/')) [
    | inl e ↦
        let slash : c ≡ b'/' = ground (arith, e) in
        let jump : last_name (c ∷ cs) base ≡ last_name cs cs = rw (e, last_name) refl in
        rw (e, split_slash) (ap (λ c. c ∷ cs) slash, jump, omega arith)
    | inr e ↦
        let same : last_name (c ∷ cs) base ≡ last_name cs base = rw (e, last_name) refl in
        rw (e, split_slash)
          (IsSplit-cons c cs base (split_slash cs).0 (split_slash cs).1 same
            (split_slash-IsSplit cs base).1)
  ],
)
