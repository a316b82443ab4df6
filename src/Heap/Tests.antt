-- ===== src/Heap/Tests.antt =====
-- Heaps, and the theorems on them.
use linux_0_11_comments.Heap.Paging.{malloc-IsNewPage, IsNewPage}
use linux_0_11_comments.Memory.{get_free_page, find_free, Memory}
use linux_0_11_comments.Heap.{dir_size, malloc, find_space, Heap, find_size}
use linux_0_11_comments.Common.{◌==◌, if◌then◌else◌, update, ok, ◌≡◌, refl, [], ◌∷◌, arith}

-- One page of memory is free.
abbrev one_page : Memory
one_page = record {
  word = λ a. 0;
  mem_map = λ i. if i == 3839 then 0 else 1;
  high_memory = 0x1000000;
}

-- A heap without pages, with the free descriptors at 0x5000 and 0x5010.
abbrev empty_heap : Heap
empty_heap = record {
  memory = one_page;
  bucket = λ b. record { page = 0; freeptr = 0; refcnt = 0; bucket_size = 0 };
  chain = λ i. [];
  free_bucket_desc = 0x5000 ∷ 0x5010 ∷ [];
}

-- One page of objects of 32 bytes, one of which is in use.
abbrev small_heap : Heap
small_heap = record empty_heap {
  memory = record one_page { word = update (λ a. 0) 0x200020 0x200040 };
  bucket = λ b. record { page = 0x200000; freeptr = 0x200020; refcnt = 1; bucket_size = 32 };
  chain = λ i. if i == 1 then 0x5000 ∷ [] else [];
}

malloc-IsNewPage_example :
    (r : Heap) × (malloc 100 empty_heap ≡ ok (r, (get_free_page one_page).1))
    × IsNewPage r 0x5000 (get_free_page one_page).1 (dir_size 3)
unfolding find_size find_space get_free_page find_free
malloc-IsNewPage_example =
    malloc-IsNewPage empty_heap 100 3 0x5000 (0x5010 ∷ []) refl refl refl (omega arith)
