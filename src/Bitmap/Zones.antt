-- ===== src/Bitmap/Zones.antt =====
-- `new_block` takes the lowest free zone (fs/bitmap.c).
use native.Mathlib.Decide.{ℕ_discrete}
use linux_0_11_comments.Bitmap.Bytes.{test_bit-set_block_bit, find_zero_from-IsFirstClear}
use linux_0_11_comments.Cache.{Cache}
use linux_0_11_comments.Bitmap.{
  set_block_bit, take_zone, set_data, set_dirt, SuperBlock, test_bit, find_first_zero, search_maps,
}
use linux_0_11_comments.Common.{
  ltb, leb, ◌==◌, if◌then◌else◌, Bool-cases, Option-cases, ℕ, zero, suc, ◌+◌, ◌-◌, ◌*◌, ◌≤◌, ◌<◌,
  ◌≡◌, refl, sym, ap, ◌∙◌, subst, ◌≢◌, ◌⊎◌, inl, inr, true, false, ◌&&◌, ◌||◌, Option, none, some,
  arith,
}

-- Every bit of the bitmap in the buffer is set.
pub IsFull : Cache → ℕ → Type 0
IsFull c b = (k : ℕ) → k < 8192 → test_bit k (c.b_data b) ≡ true

-- Bit `j` of the buffer `b`, of map number `i`, is the first one that is clear in the maps from
-- number `from` on.
pub record IsFound (maps : ℕ → Option ℕ) (c : Cache) (from i b j : ℕ) : Type 0 where
  pub here : maps i ≡ some b
  pub after : from ≤ i
  pub before : i < 8
  pub small : j < 8192
  pub clear : test_bit j (c.b_data b) ≡ false
  pub lower : (k : ℕ) → k < j → test_bit k (c.b_data b) ≡ true
  pub full : (x b' : ℕ) → from ≤ x → x < i → maps x ≡ some b' → IsFull c b'

find_first_zero-full :
    (c : Cache) (b : ℕ) → ltb (find_first_zero (c.b_data b)) 8192 ≡ false → IsFull c b
unfolding IsFull
find_first_zero-full c b e =
    let first = find_zero_from-IsFirstClear (c.b_data b) 8192 0 in
    λ k lt. first.others k (omega arith) (ground (arith, e, first.before))

none-some : (b : ℕ) → none ≢ some b
none-some b e = cc

some-inj : (a b : ℕ) → some a ≡ some b → a ≡ b
some-inj a b e = cc

-- The maps from number `from` on, `n` of them, have a lowest clear bit, or are full.
pub data Searched (maps : ℕ → Option ℕ) (c : Cache) (from n : ℕ) : Option (ℕ × ℕ × ℕ) → Type 0 where
  all_full :
      ((x b : ℕ) → from ≤ x → x < from + n → maps x ≡ some b → IsFull c b)
      → Searched maps c from n none
  lowest : (i b j : ℕ) → IsFound maps c from i b j → Searched maps c from n (some (i, b, j))

-- A map that is full or not there is passed over.
skip-Searched :
    (maps : ℕ → Option ℕ) (c : Cache) (from n : ℕ) (r : Option (ℕ × ℕ × ℕ))
    → ((b : ℕ) → maps from ≡ some b → IsFull c b)
    → Searched maps c (from + 1) n r
    → Searched maps c from (suc n) r
skip-Searched maps c from n r here (all_full h) = all_full (λ x b le lt at.
    elim (ℕ_discrete from x) [
      | yes same ↦ here b (ap maps same ∙ at)
      | no other ↦ h x b (omega (arith, other)) (omega arith) at
    ])
skip-Searched maps c from n r here (lowest i b j h) = lowest i b j (record {
  here = h.here;
  after = omega (arith, h.after);
  before = h.before;
  small = h.small;
  clear = h.clear;
  lower = h.lower;
  full = λ x b' le lt at. elim (ℕ_discrete from x) [
    | yes same ↦ here b' (ap maps same ∙ at)
    | no other ↦ h.full x b' (omega (arith, other)) lt at
  ];
})

search_maps-Searched :
    (maps : ℕ → Option ℕ) (c : Cache) (n from : ℕ)
    → from + n ≡ 8
    → Searched maps c from n (search_maps maps c n from)
unfolding search_maps
search_maps-Searched maps c zero from e = all_full (λ x b le lt. absurd (omega arith))
search_maps-Searched maps c (suc n) from e =
    let next = search_maps-Searched maps c n (from + 1) (omega arith) in
    elim (Option-cases (maps from)) [
      | inl gone ↦
          rw (gone, search_maps)
            (skip-Searched maps c from n _ (λ b at. absurd (none-some b (sym gone ∙ at))) next)
      | inr (b, found) ↦ elim (Bool-cases (ltb (find_first_zero (c.b_data b)) 8192)) [
        | inr all ↦
            let full : (b' : ℕ) → maps from ≡ some b' → IsFull c b' = λ b' at.
              subst (IsFull c) (some-inj b b' (sym found ∙ at)) (find_first_zero-full c b all) in
            rw (found, all, search_maps) (skip-Searched maps c from n _ full next)
        | inl some_clear ↦
            let first = find_zero_from-IsFirstClear (c.b_data b) 8192 0 in
            let small : find_first_zero (c.b_data b) < 8192 = ground (arith, some_clear) in
            rw (found, some_clear, search_maps)
              (lowest from b (find_first_zero (c.b_data b)) (record {
                here = found;
                after = omega arith;
                before = omega arith;
                small = small;
                clear = first.clear small;
                lower = λ k lt. first.others k (omega arith) lt;
                full = λ x b' le lt at. absurd (omega arith);
              }))
      ]
    ]

-- What new_block does to the bitmaps: either all the maps are full, and nothing changes; or the lowest
-- clear bit of the maps is set, and no other bit of any buffer changes.
pub record IsTaken (sb : SuperBlock) (c r : Cache) (i b j : ℕ) (zone : Option ℕ) : Type 0 where
  pub found : IsFound sb.s_zmap c 0 i b j
  pub bits : (x k : ℕ) → test_bit k (r.b_data x) ≡ (b == x && j == k || test_bit k (c.b_data x))
  pub number :
      let block = j + i * 8192 + sb.s_firstdatazone - 1 in
      zone ≡ (if leb sb.s_nzones block then none else some block)

set_data-bits :
    (b j : ℕ) (c : Cache) (x k : ℕ)
    → test_bit j (c.b_data b) ≡ false
    → test_bit k ((set_dirt b (set_data b (set_block_bit j (c.b_data b)) c)).b_data x)
      ≡ (b == x && j == k || test_bit k (c.b_data x))
set_data-bits b j c x k e = elim (ℕ_discrete b x) [
  | yes same ↦
      let here : (b == x) ≡ true = ground (arith, same) in
      let set = test_bit-set_block_bit j k (c.b_data b) e in
      rw here (set ∙ ap (λ b. j == k || test_bit k (c.b_data b)) same)
  | no other ↦ let apart : (b == x) ≡ false = ground (arith, other) in rw apart refl
]

taken :
    (sb : SuperBlock) (c : Cache) (r : Option (ℕ × ℕ × ℕ))
    → search_maps sb.s_zmap c 8 0 ≡ r
    → Searched sb.s_zmap c 0 8 r
    → (take_zone sb c ≡ (c, none)) × ((x b : ℕ) → x < 8 → sb.s_zmap x ≡ some b → IsFull c b)
      ⊎ (i : ℕ) × (b : ℕ) × (j : ℕ) × IsTaken sb c (take_zone sb c).0 i b j (take_zone sb c).1
unfolding take_zone
taken sb c _ e (all_full h) = inl (rw (e, take_zone) refl, λ x b lt at. h x b (omega arith) lt at)
taken sb c _ e (lowest i b j h) = inr (
  i,
  b,
  j,
  rw (e, take_zone)
      (record { found = h; bits = λ x k. set_data-bits b j c x k h.clear; number = refl }),
)

-- When new_block looks for a zone: either every bit of the bitmaps of the device is set, and nothing
-- changes and there is no zone; or the lowest clear bit is set, no other bit of a buffer of the cache
-- changes, and the zone is the number of that bit, unless that is past the end of the file system.
pub take_zone-IsTaken :
    (sb : SuperBlock) (c : Cache)
    → (take_zone sb c ≡ (c, none)) × ((x b : ℕ) → x < 8 → sb.s_zmap x ≡ some b → IsFull c b)
      ⊎ (i : ℕ) × (b : ℕ) × (j : ℕ) × IsTaken sb c (take_zone sb c).0 i b j (take_zone sb c).1
take_zone-IsTaken sb c = taken sb c _ refl (search_maps-Searched sb.s_zmap c 8 0 refl)
