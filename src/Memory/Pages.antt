-- ===== src/Memory/Pages.antt =====
-- Allocation and release of physical pages (mm/memory.c).
use native.Mathlib.Decide.{dec_lt}
use linux_0_11_comments.Common.{
  ltb, leb, ◌==◌, if◌then◌else◌, ==_iff, Bool-cases, Option-cases, ok, ℕ, zero, suc, ◌+◌, ◌-◌, ◌*◌,
  ◌%◌, ◌≤◌, ◌<◌, ◌≡◌, refl, ◌≢◌, ◌⊎◌, inl, inr, ◌&&◌, none, some, arith,
}
use linux_0_11_comments.Memory.{
  fill_page, Memory, low_mem, paging_pages, used, map_nr, set_map, find_free, get_free_page,
  free_page,
}
use linux_0_11_comments.Memory.Faults.{mem_init}

find_free-some :
    (n : ℕ) (f : ℕ → ℕ) (i : ℕ)
    → find_free n f ≡ some i
    → (i < n) × (f i ≡ 0) × ((j : ℕ) → i < j → j < n → f j ≢ 0)
unfolding find_free
find_free-some zero f i h = cc
find_free-some (suc n) f i h = elim (Bool-cases (f n == 0)) [
  | inl e ↦
      let at : n ≡ i = ground arith in (omega arith, ground arith, λ j a b. absurd (omega arith))
  | inr e ↦
      let rest = find_free-some n f i (ground arith) in
      let above : (j : ℕ) → i < j → j < suc n → f j ≢ 0 = λ j a b z. elim (dec_lt j n) [
        | yes c ↦ rest.2 j a c z
        | no c ↦ let at : n ≡ j = omega arith in ground arith
      ] in
      (omega (arith, rest.0), rest.1, above)
]

find_free-none : (n : ℕ) (f : ℕ → ℕ) (j : ℕ) → find_free n f ≡ none → j < n → f j ≢ 0
unfolding find_free
find_free-none zero f j h lt = absurd (omega arith)
find_free-none (suc n) f j h lt = ground (arith, find_free-none n f j)

pub get_free_page-none :
    (m : Memory) → find_free paging_pages m.mem_map ≡ none → get_free_page m ≡ (m, 0)
unfolding get_free_page
get_free_page-none m e = rw (e, get_free_page)

pub get_free_page-some :
    (m : Memory) (i : ℕ)
    → find_free paging_pages m.mem_map ≡ some i
    → get_free_page m
      ≡ (fill_page (i * 4096 + low_mem) (λ _. 0) (set_map i 1 m), i * 4096 + low_mem)
unfolding get_free_page
get_free_page-some m i e = rw (e, get_free_page)

-- `get_free_page` returns 0, changing nothing, exactly if no page is free. Otherwise it returns
-- the address of the highest free page; it marks that page used once, clears its 4096 bytes, and
-- changes no other word and no other count.
pub get_free_page-highest :
    (m : Memory)
    → (get_free_page m ≡ (m, 0)) × ((j : ℕ) → j < paging_pages → m.mem_map j ≢ 0)
      ⊎ (i : ℕ) × (i < paging_pages)
        × (m.mem_map i ≡ 0)
        × ((j : ℕ) → i < j → j < paging_pages → m.mem_map j ≢ 0)
        × ((get_free_page m).1 ≡ low_mem + 4096 * i)
        × ((j : ℕ) → (get_free_page m).0.mem_map j ≡ (if i == j then 1 else m.mem_map j))
        × ((a : ℕ)
            → (get_free_page m).0.word a ≡ (
                if leb (low_mem + 4096 * i) a && ltb a (low_mem + 4096 * i + 4096)
                then 0
                else m.word a))
get_free_page-highest m = elim (Option-cases (find_free paging_pages m.mem_map)) [
  | inl e ↦ inl (get_free_page-none m e, λ j. find_free-none paging_pages m.mem_map j e)
  | inr (i, e) ↦
      let found = find_free-some paging_pages m.mem_map i e in
      let got = get_free_page-some m i e in
      inr (
        i,
        found.0,
        found.1,
        found.2,
        rw got (omega arith),
        λ j. rw got refl,
        λ a. rw got (ground arith),
      )
]

-- Releasing the page that `get_free_page` returned gives back every count, as long as the page
-- lies below the end of memory.
pub free_page-get_free_page :
    (m : Memory)
    → (get_free_page m).1 ≢ 0
    → (get_free_page m).1 < m.high_memory
    → (r : Memory) × (free_page (get_free_page m).1 (get_free_page m).0 ≡ ok r)
      × ((j : ℕ) → r.mem_map j ≡ m.mem_map j)
unfolding free_page
free_page-get_free_page m ne lt = elim (Option-cases (find_free paging_pages m.mem_map)) [
  | inl e ↦ absurd (ne (rw (get_free_page-none m e)))
  | inr (i, e) ↦
      let found = find_free-some paging_pages m.mem_map i e in
      let got = get_free_page-some m i e in
      let lt' : i * 4096 + low_mem < m.high_memory = rw got at lt in
      let nr : map_nr (i * 4096 + low_mem) ≡ i = omega arith in
      (
        set_map i 0 (fill_page (i * 4096 + low_mem) (λ _. 0) (set_map i 1 m)),
        rw got (rw nr (ground arith)),
        λ j. ground (arith, ==_iff i j, found.1),
      )
]

-- After `mem_init` on page-aligned bounds within the managed 15 MB, the page counts are 0 exactly
-- for the pages between the bounds, and the first page that `get_free_page` returns is the last
-- one below `end_mem`.
pub get_free_page-mem_init :
    (s e : ℕ) (m : Memory)
    → s % 4096 ≡ 0
    → e % 4096 ≡ 0
    → low_mem ≤ s
    → s < e
    → e ≤ 0x1000000
    → ((i : ℕ)
        → i < paging_pages
        → (mem_init s e m).mem_map i
          ≡ (if leb s (low_mem + 4096 * i) && ltb (low_mem + 4096 * i) e then 0 else used))
      × ((get_free_page (mem_init s e m)).1 ≡ e - 4096)
unfolding mem_init
get_free_page-mem_init s e m hs he lo lt hi =
    let top : ℕ = map_nr (e - 4096) in
    (
      λ i h. ground arith,
      elim (get_free_page-highest (mem_init s e m)) [
        | inl (a, b) ↦ absurd (b top (omega arith) (ground arith))
        | inr (i, a, b, c, d, f, g) ↦ ground (arith, b, c top, d)
      ],
    )
