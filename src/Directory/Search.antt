-- ===== src/Directory/Search.antt =====
-- find_entry in a directory of one block (fs/namei.c).
use linux_0_11_comments.Inodes.Table.{on_cache}
use linux_0_11_comments.Directory.Entries.{
  resolve_dotdot, find_entry, release_buffer, next_buffer, search_entries,
}
use linux_0_11_comments.Directory.{cut_length, is_dotdot, Task, match}
use linux_0_11_comments.Cache.{bread, Cache, wait_on_buffer, brelse, head, set_count, Io}
use linux_0_11_comments.Inodes.{node, Fs}
use linux_0_11_comments.Common.{
  ltb, ◌==◌, if◌then◌else◌, Bool-cases, if-cases, ℤ, ◌>>=◌, ok, ℕ, zero, suc, ◌+◌, ◌-◌, ◌*◌, ◌/◌,
  ◌≤◌, ◌<◌, ◌≡◌, refl, sym, subst, ◌≢◌, inl, inr, true, false, Option, none, some, arith,
}

-- The first of the entries of `block` from entry `i` on that has the name, of `n`
unfoldable pub first_match : ℕ → (ℕ → ℕ) → (ℕ → ℕ) → ℕ → ℕ → Option ℕ
first_match len name block zero i = none
first_match len name block (suc n) i =
    let rest = first_match len name block n (i + 1) in
    if match len name block (16 * i) then some i else rest

-- The buffer `b` can be released at once.
pub record IsHeld (b : ℕ) (f : Fs) : Type 0 where
  pub unlocked : (head b f.cache).b_lock ≡ false
  pub counted : f.cache.b_count b ≢ 0

-- The state when the buffer was released
abbrev pub given_back : ℕ → Fs → Fs
given_back b f = record f { cache = set_count b (f.cache.b_count b - 1) f.cache }

-- What the loop of find_entry returns
abbrev pub found_entry : ℕ → Option ℕ → Fs → Fs × Option (ℕ × ℕ)
found_entry b none f = (given_back b f, none)
found_entry b (some i) f = (f, some (b, 16 * i))

module _ (io : Io) (away : Fs → Fs) (now : ℤ) where
  pub release-held :
      (fuel b : ℕ) (f : Fs)
      → IsHeld b f
      → release_buffer io away now (suc fuel) (some b) f ≡ ok (given_back b f)
  unfolding brelse wait_on_buffer
  release-held fuel b f h =
      rw (h.unlocked, on_cache, brelse, wait_on_buffer, ◌>>=◌)
        (if-cases (λ r. (r >>= λ c. ok (record f { cache = c })) ≡ ok (given_back b f))
          (f.cache.b_count b == 0) _ _ (λ e. absurd (ground (arith, e, h.counted))) (λ e. refl))

  next_buffer-here :
      (fuel dir i b a : ℕ) (f : Fs)
      → a < 1024
      → next_buffer io away now fuel dir i (some b) a f ≡ ok (f, some b, a)
  unfolding next_buffer
  next_buffer-here fuel dir i b a f lt =
      let inside : ltb a 1024 ≡ true = ground (arith, lt) in rw (inside, next_buffer) refl

  search_entries-first_match :
      (fuel dir len n i entries : ℕ) (name : ℕ → ℕ) (b : ℕ) (f : Fs)
      → IsHeld b f
      → entries ≡ i + n
      → entries ≤ 64
      → search_entries io away now (suc fuel) dir len name entries (suc n) i (some b) (16 * i) f
        ≡ ok (found_entry b (first_match len name (f.cache.b_data b) n i) f)
  unfolding search_entries first_match
  search_entries-first_match fuel dir len zero i entries name b f h sum small =
      let over : ltb i entries ≡ false = ground (arith, sum) in
      rw (over, search_entries) (rw (release-held fuel b f h, ◌>>=◌) refl)
  search_entries-first_match fuel dir len (suc n) i entries name b f h sum small =
      let more : ltb i entries ≡ true = ground (arith, sum) in
      let here = next_buffer-here (suc fuel) dir i b (16 * i) f (omega (arith, sum, small)) in
      let next : 16 * (i + 1) ≡ 16 * i + 16 = omega arith in
      let rest =
        search_entries-first_match fuel dir len n (i + 1) entries name b f h (omega (arith, sum))
          small in
      rw (more, search_entries)
        (rw (here, ◌>>=◌)
          (elim (Bool-cases (match len name (f.cache.b_data b) (16 * i))) [
            | inl e ↦ rw e refl
            | inr e ↦ rw e (
                subst
                  (λ a.
                    search_entries io away now (suc fuel) dir len name entries (suc n) (i + 1)
                      (some b) a f
                    ≡ ok (found_entry b (first_match len name (f.cache.b_data b) n (i + 1)) f))
                  next rest)
          ]))

-- The first entry of the `n` of a block with the name, or that there is none
abbrev pub IsFirst : ℕ → (ℕ → ℕ) → (ℕ → ℕ) → ℕ → Option ℕ → Type 0
IsFirst len name block n none = (j : ℕ) → j < n → match len name block (16 * j) ≡ false
IsFirst len name block n (some i) =
    (i < n)
    × (match len name block (16 * i) ≡ true)
    × ((j : ℕ) → j < i → match len name block (16 * j) ≡ false)

first_match-IsFirst :
    (len : ℕ) (name block : ℕ → ℕ) (n i entries : ℕ)
    → entries ≡ i + n
    → ((j : ℕ) → j < i → match len name block (16 * j) ≡ false)
    → IsFirst len name block entries (first_match len name block n i)
unfolding first_match
first_match-IsFirst len name block zero i entries sum before =
    λ j lt. before j (omega (arith, lt, sum))
first_match-IsFirst len name block (suc n) i entries sum before =
    if-cases (IsFirst len name block entries) (match len name block (16 * i)) _ _
      (λ e. (omega (arith, sum), e, before))
      (λ e. first_match-IsFirst len name block n (i + 1) entries (omega (arith, sum)) (λ j lt.
        elim (Bool-cases (i == j)) [
          | inl same ↦ subst (λ j. match len name block (16 * j) ≡ false) (ground (arith, same)) e
          | inr other ↦ before j (ground (arith, lt, other))
        ]))

-- For a name that is not empty and not '..', in a directory of at most 64 entries whose block is read to
-- a buffer that can be released at once, find_entry returns the directory and the first of its entries
-- that matches the name, cut off at 14 bytes, in that buffer, or finds none when none matches and
-- releases the buffer.
pub find_entry-IsFirst :
    (io : Io) (away : Fs → Fs) (now : ℤ) (fuel dir namelen b : ℕ) (current : Task) (name : ℕ → ℕ)
    (f : Fs) (c : Cache)
    → namelen ≢ 0
    → is_dotdot (cut_length namelen) name ≡ false
    → (node dir f).i_size / 16 ≤ 64
    → (node dir f).i_zone 0 ≢ 0
    → bread io (suc fuel) (node dir f).i_dev ((node dir f).i_zone 0) f.cache ≡ ok (c, some b)
    → IsHeld b (record f { cache = c })
    → (o : Option ℕ) × IsFirst (cut_length namelen) name (c.b_data b) ((node dir f).i_size / 16) o
      × (find_entry io away now (suc fuel) current dir name namelen f
          ≡ ok (
            (found_entry b o (record f { cache = c })).0,
            dir,
            (found_entry b o (record f { cache = c })).1,
          ))
unfolding find_entry resolve_dotdot
find_entry-IsFirst io away now fuel dir namelen b current name f c not_empty plain small zone got
      h =
    let n = (node dir f).i_size / 16 in
    let len = cut_length namelen in
    let v : Fs = record f { cache = c } in
    let none_before : (j : ℕ) → j < 0 → match len name (c.b_data b) (16 * j) ≡ false =
      λ j lt. absurd (omega (arith, lt)) in
    let o = first_match len name (c.b_data b) n 0 in
    let searched =
      search_entries-first_match io away now fuel dir len n 0 n name b v h (omega arith) small in
    let next : n + 1 ≡ suc n = omega arith in
    let found : search_entries io away now (suc fuel) dir len name n (n + 1) 0 (some b) 0 v
        ≡ ok (found_entry b o v) =
      subst
        (λ m.
          search_entries io away now (suc fuel) dir len name n m 0 (some b) 0 v
          ≡ ok (found_entry b o v))
        (sym next) searched in
    let full : (namelen == 0) ≡ false = ground (arith, not_empty) in
    let block : ((node dir f).i_zone 0 == 0) ≡ false = ground (arith, zone) in
    (
      o,
      first_match-IsFirst len name (c.b_data b) n 0 n (omega arith) none_before,
      rw (full, find_entry)
          (rw (plain, resolve_dotdot, ◌>>=◌)
            (rw (block) (rw (got, ◌>>=◌) (rw (found, ◌>>=◌) refl)))),
    )
