-- ===== src/Memory/Tests.antt =====
-- The theorems on mm/memory.c at a memory with one page table, and one page that two tasks share.
use linux_0_11_comments.Memory.Faults.{un_wp_page}
use linux_0_11_comments.Memory.{low_mem, Memory, get_free_page, paging_pages}
use linux_0_11_comments.Common.{
  ltb, leb, ◌==◌, if◌then◌else◌, ok, ℕ, ◌+◌, ◌*◌, ◌<◌, ◌≡◌, refl, ◌≢◌, ◌⊎◌, inl, inr, ◌&&◌, arith,
}
use linux_0_11_comments.Memory.Pages.{get_free_page-highest}
use linux_0_11_comments.Memory.Mapping.{IsCopied, un_wp_page-IsCopied}

-- The table is at 4096, and its first entry is the page at 0x101000, not writable.
abbrev shared_memory : Memory
shared_memory = record {
  word = λ a. if a == 0 then 4103 else if a == 4096 then 0x101005 else 0;
  mem_map = λ i. if i == 1 then 2 else if i == 3839 then 100 else 0;
  high_memory = 0x1000000;
}

get_free_page-highest_example :
    (get_free_page shared_memory ≡ (shared_memory, 0))
      × ((j : ℕ) → j < paging_pages → shared_memory.mem_map j ≢ 0)
    ⊎ (i : ℕ) × (i < paging_pages)
      × (shared_memory.mem_map i ≡ 0)
      × ((j : ℕ) → i < j → j < paging_pages → shared_memory.mem_map j ≢ 0)
      × ((get_free_page shared_memory).1 ≡ low_mem + 4096 * i)
      × ((j : ℕ)
          → (get_free_page shared_memory).0.mem_map j
            ≡ (if i == j then 1 else shared_memory.mem_map j))
      × ((a : ℕ)
          → (get_free_page shared_memory).0.word a ≡ (
              if leb (low_mem + 4096 * i) a && ltb a (low_mem + 4096 * i + 4096)
              then 0
              else shared_memory.word a))
get_free_page-highest_example = get_free_page-highest shared_memory

-- One page is managed, the first.
abbrev small_memory : Memory
small_memory = record {
  word = λ _. 0;
  mem_map = λ i. if i == 3838 then 0 else 100;
  high_memory = 0x1000000;
}

small_page : (get_free_page small_memory).1 ≡ 0xffe000
small_page = elim (get_free_page-highest small_memory) [
  | inl (e, full) ↦ absurd (full 3838 (omega arith) refl)
  | inr (i, lt, free, top, got, counts, words) ↦ ground (arith, free, got)
]

un_wp_page-IsCopied_example :
    (r : Memory) × (un_wp_page 4096 shared_memory ≡ ok r) × IsCopied 4096 shared_memory r
un_wp_page-IsCopied_example =
    un_wp_page-IsCopied 4096 0 shared_memory (omega arith) (omega arith) (omega arith)
      (inl (omega arith)) (omega arith) (omega arith) refl
