-- ===== src/Heap/Allocation.antt =====
-- `malloc` and `free_s` on a heap with one descriptor for each page (lib/malloc.c).
use linux_0_11_comments.Heap.{dir_size, page_of, Heap, find_size}
use linux_0_11_comments.Common.{mem, ℕ, zero, suc, ◌+◌, ◌≤◌, ◌<◌, ◌≡◌, ◌≢◌, true, some, arith}

-- No two descriptors of the chains have the same page.
unfoldable pub OneOwner : Heap → Type 0
OneOwner h =
    (i j b c : ℕ)
    → i < 9
    → j < 9
    → mem b (h.chain i) ≡ true
    → mem c (h.chain j) ≡ true
    → (h.bucket b).page ≡ (h.bucket c).page
    → (i ≡ j) × (b ≡ c)

-- The free objects of a descriptor are in its page, and it counts the objects in use, of which there
-- is at least one.
pub record IsHeap (h : Heap) : Type 0 where
  pub own :
      (i b : ℕ)
      → i < 9
      → mem b (h.chain i) ≡ true
      → (h.bucket b).freeptr ≢ 0
      → page_of (h.bucket b).freeptr ≡ (h.bucket b).page
  pub unique : OneOwner h
  pub counts :
      (i b : ℕ)
      → i < 9
      → mem b (h.chain i) ≡ true
      → (0 < (h.bucket b).refcnt) × ((h.bucket b).refcnt < 65535)

pub find_size-some : (len n i j : ℕ) → find_size len n i ≡ some j → (len ≤ dir_size j) × (j < i + n)
unfolding find_size
find_size-some len zero i j e = cc
find_size-some len (suc n) i j e = ground (arith, find_size-some len n (suc i) j)
