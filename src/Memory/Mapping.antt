-- ===== src/Memory/Mapping.antt =====
-- What the page tables map after `put_page` and after a write fault (mm/memory.c).
use linux_0_11_comments.Common.{
  leb, ◌==◌, if◌then◌else◌, ==_self, ok, ℕ, ◌+◌, ◌*◌, ◌%◌, ◌≤◌, ◌<◌, ◌≡◌, refl, ap, ◌∙◌, ◌≢◌, ◌⊎◌,
  inl, inr, true, false, ◌&&◌, Option, none, some, arith,
}
use linux_0_11_comments.Memory.{
  fill_page, Memory, low_mem, paging_pages, map_nr, page_of, dir_entry, table_offset, or_7, is_odd,
  store, set_map, get_free_page, get_table, put_page,
}
use linux_0_11_comments.Memory.Faults.{un_wp_page}
use linux_0_11_comments.Memory.Pages.{get_free_page-highest}

-- The page table entry that the processor finds for a linear address, if both levels are present.
unfoldable pub entry_of : Memory → ℕ → Option ℕ
entry_of m address =
    let dir = m.word (dir_entry address) in
    let entry = m.word (page_of dir + table_offset address) in
    if is_odd dir && is_odd entry then some entry else none

-- A table for `address` is present, and stands above the directory.
abbrev pub HasTable : Memory → ℕ → Type 0
HasTable m address =
    (is_odd (m.word (dir_entry address)) ≡ true) × (4096 ≤ page_of (m.word (dir_entry address)))

-- A write of an entry above the directory is what the walk through the directory then finds.
entry_of-store :
    (m : Memory) (address table w : ℕ)
    → is_odd (m.word (dir_entry address)) ≡ true
    → page_of (m.word (dir_entry address)) ≡ table
    → 4096 ≤ table
    → is_odd w ≡ true
    → entry_of (store (table + table_offset address) w m) address ≡ some w
unfolding entry_of
entry_of-store m address table w there at high present =
    let same : (table + table_offset address == dir_entry address) ≡ false = ground arith in
    rw same (rw at (rw (==_self (table + table_offset address)) (rw (there, present))))

put_page-eq_of_present :
    (m : Memory) (page address : ℕ)
    → is_odd (m.word (dir_entry address)) ≡ true
    → put_page page address m
      ≡ (store (page_of (m.word (dir_entry address)) + table_offset address) (or_7 page) m, page)
unfolding put_page get_table
put_page-eq_of_present m page address there = rw (there, put_page, get_table)

-- Into a present table, `put_page` always puts the page: the address then maps to it, present,
-- writable and for the user, and no other word of memory changes.
pub put_page-present :
    (m : Memory) (page address : ℕ)
    → HasTable m address
    → page % 4096 ≡ 0
    → let r : Memory × ℕ = put_page page address m in
      (r.1 ≡ page)
      × (entry_of r.0 address ≡ some (page + 7))
      × ((a : ℕ)
          → a ≢ page_of (m.word (dir_entry address)) + table_offset address
          → r.0.word a ≡ m.word a)
put_page-present m page address (there, high) aligned =
    let seven : or_7 page ≡ page + 7 = omega arith in
    rw (put_page-eq_of_present m page address there) (
      refl,
      entry_of-store m address _ (or_7 page) there refl high (ground arith)
          ∙ ap (λ w. some w) seven,
      λ a ne. ground arith,
    )

put_page-eq_of_absent :
    (m m' : Memory) (page address t : ℕ)
    → is_odd (m.word (dir_entry address)) ≡ false
    → get_free_page m ≡ (m', t)
    → t ≢ 0
    → put_page page address m
      ≡ (store (t + table_offset address) (or_7 page) (store (dir_entry address) (or_7 t) m'), page)
unfolding put_page get_table
put_page-eq_of_absent m m' page address t there e ne =
    let made : (t == 0) ≡ false = ground arith in
    rw (there, put_page, get_table) (rw e (rw made (rw made refl)))

-- Without a table, `put_page` returns 0 and changes nothing only if there is no free page;
-- otherwise the address then maps to the page, present, writable and for the user.
put_page-absent :
    (m : Memory) (page address : ℕ)
    → is_odd (m.word (dir_entry address)) ≡ false
    → page % 4096 ≡ 0
    → let r : Memory × ℕ = put_page page address m in
      (r ≡ (m, 0)) × ((j : ℕ) → j < paging_pages → m.mem_map j ≢ 0)
      ⊎ (r.1 ≡ page) × (entry_of r.0 address ≡ some (page + 7))
unfolding put_page get_table
put_page-absent m page address there aligned = elim (get_free_page-highest m) [
  | inl (e, full) ↦ inl (rw (there, put_page, get_table) (rw e refl), full)
  | inr (i, lt, free, top, got, counts, words) ↦
      let (m', t) = get_free_page m in
      let at : t ≡ low_mem + 4096 * i = got in
      let eq = put_page-eq_of_absent m m' page address t there refl (omega arith) in
      let seven : or_7 page ≡ page + 7 = omega arith in
      let m'' : Memory = store (dir_entry address) (or_7 t) m' in
      inr (
        rw eq refl,
        rw eq (
            entry_of-store m'' address t (or_7 page) (ground arith) (ground arith) (omega arith)
              (ground arith)
            ∙ ap (λ w. some w) seven),
      )
]

un_wp_page-eq :
    (e : ℕ) (m m' : Memory) (t : ℕ)
    → low_mem ≤ page_of (m.word e)
    → m.mem_map (map_nr (page_of (m.word e))) ≢ 1
    → get_free_page m ≡ (m', t)
    → t ≢ 0
    → let old : ℕ = page_of (m.word e) in
      let m'' : Memory =
        store e (or_7 t) (set_map (map_nr old) ((m'.mem_map (map_nr old) + 255) % 256) m') in
      un_wp_page e m ≡ ok (fill_page t (λ offset. m''.word (old + offset)) m'')
unfolding un_wp_page
un_wp_page-eq e m m' t lo shared eq ne =
    let made : (t == 0) ≡ false = ground arith in
    let high : leb low_mem (page_of (m.word e)) ≡ true = ground arith in
    let many : (m.mem_map (map_nr (page_of (m.word e))) == 1) ≡ false = ground arith in
    rw (high, many, un_wp_page) (rw eq (rw made refl))

-- The outcome of a write to a shared page: a new page of its own for the writer.
pub record IsCopied (e : ℕ) (m : Memory) (r : Memory) : Type 0 where
  pub frame : ℕ
  pub was_free : m.mem_map frame ≡ 0
  pub counted : r.mem_map frame ≡ 1
  pub entry : r.word e ≡ low_mem + 4096 * frame + 7
  pub content :
      (offset : ℕ)
      → offset < 4096
      → r.word (low_mem + 4096 * frame + offset) ≡ m.word (page_of (m.word e) + offset)
  pub released :
      r.mem_map (map_nr (page_of (m.word e))) + 1 ≡ m.mem_map (map_nr (page_of (m.word e)))
  pub elsewhere :
      (a : ℕ)
      → a ≢ e
      → (a < low_mem + 4096 * frame) ⊎ (low_mem + 4096 * frame + 4096 ≤ a)
      → r.word a ≡ m.word a

-- A write to a page with two or more references, with some page free: `un_wp_page` returns, the
-- entry maps a formerly free page for writing, which holds what the old page holds and is counted
-- once; the old page loses one reference; and no word changes but the entry and the new page. The
-- entry stands in a page that is in use (or below `low_mem`) and is not the page mapped.
pub un_wp_page-IsCopied :
    (e j : ℕ) (m : Memory)
    → low_mem ≤ page_of (m.word e)
    → 2 ≤ m.mem_map (map_nr (page_of (m.word e)))
    → m.mem_map (map_nr (page_of (m.word e))) < 256
    → (e < low_mem) ⊎ (m.mem_map (map_nr e) ≢ 0)
    → page_of e ≢ page_of (m.word e)
    → j < paging_pages
    → m.mem_map j ≡ 0
    → (r : Memory) × (un_wp_page e m ≡ ok r) × IsCopied e m r
un_wp_page-IsCopied e j m lo shared fits inside apart jp jfree = elim (get_free_page-highest m) [
  | inl (eq, full) ↦ absurd (full j jp jfree)
  | inr (i, lt, free, top, got, counts, words) ↦
      let old : ℕ = page_of (m.word e) in
      let ne : map_nr old ≢ i = λ q. ground arith in
      let out : (e < low_mem + 4096 * i) ⊎ (low_mem + 4096 * i + 4096 ≤ e) = ground arith in
      let away : (old + 4096 ≤ low_mem + 4096 * i) ⊎ (low_mem + 4096 * i + 4096 ≤ old) =
        ground arith in
      (
        _,
        un_wp_page-eq e m _ _ lo (omega arith) refl (omega arith),
        record {
          frame = i;
          was_free = free;
          counted = ground (arith, counts i);
          entry = ground (arith, got);
          content = λ offset h. ground (arith, got, words (old + offset));
          released = ground (arith, counts (map_nr old));
          elsewhere = λ a n h. ground (arith, got, words a);
        },
      )
]
