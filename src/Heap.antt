-- ===== src/Heap.antt =====
-- lib/malloc.c: the kernel allocator, which keeps objects of one size in each page.
--
-- A bucket descriptor is its address; the linked lists of descriptors are lists, and the descriptors
-- stand in a map of their own. The free objects of a page are linked through their first words, in
-- memory. The bucket directory is the numbers 0 to 8, the one of objects of 16 * 2 ^ i bytes being
-- number i. A search passes a list on to its end, so that `prev` is the descriptor before the one
-- that was found. A negative `size` behaves as 0.
pub mod Objects
pub mod Allocation
pub mod Paging
mod Tests
use linux_0_11_comments.Common.{
  ltb, leb, ◌==◌, if◌then◌else◌, update, Run, ◌>>=◌, no_memory, bad_length, bad_object, ok, panic,
  ℕ, zero, suc, ◌+◌, ◌-◌, ◌*◌, ◌/◌, ◌%◌, ◌^◌, true, false, Option, none, some, List, [], ◌∷◌, ◌++◌,
  ◌>>◌,
}
use linux_0_11_comments.Memory.{free_page, page_of, store, get_free_page, Memory}

-- struct bucket_desc, less its link
pub record Bucket : Type 0 where
  pub page : ℕ
  pub freeptr : ℕ
  pub refcnt : ℕ
  pub bucket_size : ℕ

-- The memory, the descriptors, the chains of the bucket directory and free_bucket_desc.
pub record Heap : Type 0 where
  pub memory : Memory
  pub bucket : ℕ → Bucket
  pub chain : ℕ → List ℕ
  pub free_bucket_desc : List ℕ

abbrev pub dir_size : ℕ → ℕ
dir_size i = 16 * 2 ^ i

abbrev pub set_bucket : ℕ → Bucket → Heap → Heap
set_bucket b d h = record h { bucket = update h.bucket b d }

-- The first of `n` sizes from number `i` on that is at least `len`.
unfoldable pub find_size : ℕ → ℕ → ℕ → Option ℕ
find_size len zero i = none
find_size len (suc n) i = elim (leb len (dir_size i)) [
  | true ↦ some i
  | false ↦ find_size len n (suc i)
]

-- The descriptors of a page, `n` from the address `first` on.
unfoldable pub descriptors : ℕ → ℕ → List ℕ
descriptors zero first = []
descriptors (suc n) first = first ∷ descriptors n (first + 16)

unfoldable pub init_bucket_desc : Heap → Run Heap
init_bucket_desc h =
    let (m, first) = get_free_page h.memory in
    if first == 0
    then panic no_memory
    else ok
        (record h { memory = m; free_bucket_desc = descriptors 256 first ++ h.free_bucket_desc })

-- The chain of the free objects of a page: `n` more after the one at `cp`.
unfoldable pub link_objects : ℕ → ℕ → ℕ → Memory → Memory
link_objects zero cp size m = store cp 0 m
link_objects (suc n) cp size m = link_objects n (cp + size) size (store cp (cp + size) m)

-- The first descriptor of a chain with free objects.
unfoldable pub find_space : Heap → List ℕ → Option ℕ
find_space h [] = none
find_space h (b ∷ bs) = if (h.bucket b).freeptr == 0 then find_space h bs else some b

-- The branch of malloc that takes a descriptor and a page, for number `i` of the directory.
unfoldable pub add_bucket : ℕ → Heap → Run (Heap × ℕ)
add_bucket i h = do
  ready ← elim (h.free_bucket_desc) [ [] ↦ init_bucket_desc h | b ∷ bs ↦ ok h ]
  elim (ready.free_bucket_desc) [
    | [] ↦ panic no_memory
    | b ∷ bs ↦
        let (m, cp) = get_free_page ready.memory in
        elim (cp == 0) [
          | true ↦ panic no_memory
          | false ↦
              let new : Bucket = record {
                page = cp;
                freeptr = cp;
                refcnt = 0;
                bucket_size = dir_size i;
              } in
              ok (
                record {
                  memory = link_objects (4096 / dir_size i - 1) cp (dir_size i) m;
                  bucket = update ready.bucket b new;
                  chain = update ready.chain i (b ∷ ready.chain i);
                  free_bucket_desc = bs;
                },
                b,
              )
        ]
  ]

-- The end of malloc: an object of the descriptor `b` is taken.
unfoldable pub take_object : ℕ → Heap → Heap × ℕ
take_object b h =
    let d = h.bucket b in
    (
      set_bucket b (record d { freeptr = h.memory.word d.freeptr; refcnt = (d.refcnt + 1) % 65536 })
          h,
      d.freeptr,
    )

unfoldable pub malloc : ℕ → Heap → Run (Heap × ℕ)
malloc len h = elim (find_size len 9 0) [
  | none ↦ panic bad_length
  | some i ↦ elim (find_space h (h.chain i)) [
    | some b ↦ ok (take_object b h)
    | none ↦ add_bucket i h >>= λ r. ok (take_object r.1 r.0)
  ]
]

-- The descriptor of a page in a chain.
unfoldable pub find_page : Heap → ℕ → List ℕ → Option ℕ
find_page h page [] = none
find_page h page (b ∷ bs) = if (h.bucket b).page == page then some b else find_page h page bs

-- The search of free_s, over `n` numbers of the directory from `i` on.
unfoldable pub find_owner : Heap → ℕ → ℕ → ℕ → ℕ → Option (ℕ × ℕ)
find_owner h page size zero i = none
find_owner h page size (suc n) i =
    let rest = find_owner h page size n (suc i) in
    if ltb (dir_size i) size
    then rest
    else elim (find_page h page (h.chain i)) [ some b ↦ some (i, b) | none ↦ rest ]

-- The chain without the descriptor.
unfoldable pub unlink : ℕ → List ℕ → List ℕ
unlink b [] = []
unlink b (x ∷ xs) = if x == b then xs else x ∷ unlink b xs

-- The code at `found`, for number `i` and the descriptor `b`.
unfoldable pub put_object : ℕ → ℕ → ℕ → Heap → Run Heap
put_object obj i b h =
    let d = h.bucket b in
    let refcnt = (d.refcnt + 65535) % 65536 in
    let back =
      set_bucket b (record d { freeptr = obj; refcnt = refcnt })
        (record h { memory = store obj d.freeptr h.memory }) in
    elim (refcnt == 0) [
      | false ↦ ok back
      | true ↦ free_page d.page back.memory >>= λ m. ok (record back {
        memory = m;
        chain = update h.chain i (unlink b (h.chain i));
        free_bucket_desc = b ∷ h.free_bucket_desc;
      })
    ]

unfoldable pub free_s : ℕ → ℕ → Heap → Run Heap
free_s obj size h = elim (find_owner h (page_of obj) size 9 0) [
  | none ↦ panic bad_object
  | some r ↦ put_object obj r.0 r.1 h
]
