-- ===== src/Directory/Names.antt =====
-- The name that add_entry writes is the one that find_entry matches (fs/namei.c).
use linux_0_11_comments.Directory.{
  match, name_len, half_at, put_entry_name, put_entry_inode, same_bytes,
}
use linux_0_11_comments.Common.{
  ltb, leb, ◌==◌, if◌then◌else◌, Bool-cases, if-cases, ℕ, zero, suc, ◌+◌, ◌-◌, ◌≤◌, ◌<◌, ◌≡◌, refl,
  sym, ◌∙◌, subst, ◌≢◌, ◌↔◌, inl, inr, true, ◌&&◌, arith,
}

-- The first `len` bytes of the names are the same.
abbrev pub SameName : ℕ → (ℕ → ℕ) → (ℕ → ℕ) → Type 0
SameName len name other = (k : ℕ) → k < len → name k ≡ other k

-- A name is not empty and holds no 0.
pub record IsName (len : ℕ) (name : ℕ → ℕ) : Type 0 where
  pub some_byte : 0 < len
  pub no_zero : (k : ℕ) → k < len → name k ≢ 0

same_bytes_iff :
    (name block : ℕ → ℕ) (at n k : ℕ)
    → (same_bytes name block at n k ≡ true)
      ↔ ((j : ℕ) → k ≤ j → j < k + n → name j ≡ block (at + j))
unfolding same_bytes
same_bytes_iff name block at zero k = (λ e j le lt. absurd (omega (arith, le, lt)), λ h. refl)
same_bytes_iff name block at (suc n) k =
    let (to, from) = same_bytes_iff name block at n (k + 1) in
    (
      λ e j le lt. elim (Bool-cases (k == j)) [
        | inl same ↦
            let first : name k ≡ block (at + k) = ground (arith, e) in
            subst (λ j. name j ≡ block (at + j)) (ground (arith, same)) first
        | inr other ↦ to (ground (arith, e)) j (ground (arith, le, other)) (omega (arith, lt))
      ],
      λ h.
          let first = h k (omega arith) (omega arith) in
          let rest = from (λ j le lt. h j (omega (arith, le)) (omega (arith, lt))) in
          ground (arith, first, rest),
    )

-- The entry that add_entry writes, with the number of its inode
abbrev pub written : ℕ → ℕ → (ℕ → ℕ) → ℕ → (ℕ → ℕ) → ℕ → ℕ
written nr len name a block = put_entry_inode nr a (put_entry_name len name a block)

written-name :
    (nr len a k : ℕ) (name block : ℕ → ℕ)
    → k < 14
    → written nr len name a block (a + 2 + k) ≡ (if ltb k len then name k else 0)
unfolding put_entry_inode put_entry_name
written-name nr len a k name block small =
    let inside : (leb (a + 2) (a + 2 + k) && ltb (a + 2 + k) (a + 2 + name_len)) ≡ true =
      ground (arith, small) in
    let index : a + 2 + k - (a + 2) ≡ k = omega arith in
    if-cases (λ w. w ≡ (if ltb k len then name k else 0)) (a + 1 == a + 2 + k) _ _
      (λ e. absurd (ground (arith, e)))
      (λ e.
        if-cases (λ w. w ≡ (if ltb k len then name k else 0)) (a == a + 2 + k) _ _
          (λ e. absurd (ground (arith, e))) (λ e. rw (inside, index) refl))

written-inode :
    (nr len a : ℕ) (name block : ℕ → ℕ) → nr < 65536 → half_at a (written nr len name a block) ≡ nr
unfolding put_entry_inode
written-inode nr len a name block small = ground (arith, small)

-- What match says, without its tests
match_iff :
    (len : ℕ) (name block : ℕ → ℕ) (a : ℕ)
    → half_at a block ≢ 0
    → len ≤ 14
    → (match len name block a ≡ true)
      ↔ ((len < 14 → block (a + 2 + len) ≡ 0) × ((j : ℕ) → j < len → name j ≡ block (a + 2 + j)))
unfolding match
match_iff len name block a used short =
    let (to, from) = same_bytes_iff name block (a + 2) len 0 in
    (
      λ e. (
        λ lt. ground (arith, e, lt),
        λ j lt. to (ground (arith, e)) j (omega arith) (omega (arith, lt)),
      ),
      λ h.
          let same = from (λ j le lt. h.1 j (omega (arith, lt))) in
          ground (arith, used, short, same, h.0),
    )

-- Of the names of at most 14 bytes that are not empty and hold no 0, an entry that add_entry made, with
-- an inode put into it, matches the one that it was made with and no other.
pub match-written :
    (nr len len' a : ℕ) (name other block : ℕ → ℕ)
    → nr ≢ 0
    → nr < 65536
    → len ≤ 14
    → len' ≤ 14
    → IsName len name
    → IsName len' other
    → (match len' other (written nr len name a block) a ≡ true)
      ↔ ((len ≡ len') × SameName len name other)
match-written nr len len' a name other block used small short short' h h' =
    let inode = written-inode nr len a name block small in
    let inside : (k : ℕ) → k < len → written nr len name a block (a + 2 + k) ≡ name k = λ k lt.
      written-name nr len a k name block (omega (arith, lt, short))
      ∙ if-cases (λ w. w ≡ name k) (ltb k len) _ _ (λ e. refl)
          (λ e. absurd (ground (arith, e, lt))) in
    let behind : (k : ℕ) → k < 14 → len ≤ k → written nr len name a block (a + 2 + k) ≡ 0 =
      λ k lt le.
        written-name nr len a k name block lt
        ∙ if-cases (λ w. w ≡ 0) (ltb k len) _ _ (λ e. absurd (ground (arith, e, le))) (λ e. refl) in
    let (to, from) =
      match_iff len' other (written nr len name a block) a (λ e. used (sym inode ∙ e)) short' in
    (
      λ e.
          let (ends, same) = to e in
          let at_most : len ≤ len' = elim (Bool-cases (ltb len' len)) [
            | inl lt ↦
                let less : len' < len = ground (arith, lt) in
                absurd
                  (h.no_zero len' less (sym (inside len' less) ∙ ends (omega (arith, less, short))))
            | inr ge ↦ ground (arith, ge)
          ] in
          let at_least : len' ≤ len = elim (Bool-cases (ltb len len')) [
            | inl lt ↦
                let less : len < len' = ground (arith, lt) in
                absurd (
                  h'.no_zero len less
                    (same len less ∙ behind len (omega (arith, less, short')) (omega arith)))
            | inr ge ↦ ground (arith, ge)
          ] in
          (
            omega (arith, at_most, at_least),
            λ k lt. sym (same k (omega (arith, lt, at_most)) ∙ inside k lt),
          ),
      λ e.
          let (equal, same) = e in
          from (
            λ lt. behind len' lt (omega (arith, equal)),
            λ j lt.
                let less : j < len = omega (arith, lt, equal) in sym (inside j less ∙ same j less),
          ),
    )
