-- ===== src/Heap/Paging.antt =====
-- `malloc` when it takes a new page (lib/malloc.c).
use linux_0_11_comments.Heap.Allocation.{find_size-some}
use linux_0_11_comments.Heap.{
  add_bucket, get_free_page, take_object, link_objects, find_space, find_size, Memory, Heap, malloc,
  dir_size,
}
use linux_0_11_comments.Heap.Objects.{link_objects-IsFreeList, objects, IsFreeList}
use linux_0_11_comments.Common.{
  ◌==◌, update, ==_self, ◌>>=◌, ok, length, All, ℕ, zero, suc, ◌+◌, ◌-◌, ◌*◌, ◌/◌, ◌≤◌, ◌<◌, ◌≡◌,
  refl, sym, ap, ◌∙◌, subst, ◌≢◌, false, none, some, List, [], ◌∷◌, arith,
}

-- The object of `size` bytes at `x` is in the page.
abbrev pub IsInside : ℕ → ℕ → ℕ → Type 0
IsInside page size x = (page ≤ x) × (x + size ≤ page + 4096)

more_size : (n size : ℕ) → suc (suc n) * size ≡ size + suc n * size
more_size n size = omega arith

objects-All :
    (n cp page size : ℕ)
    → page ≤ cp
    → cp + suc n * size ≤ page + 4096
    → All (IsInside page size) (objects n cp size)
unfolding objects
objects-All zero cp page size le fits = ((le, omega arith), tt)
objects-All (suc n) cp page size le fits =
    let more = more_size n size in
    let first : cp + (size + suc n * size) ≤ page + 4096 = rw more at fits in
    ((le, omega arith), objects-All n (cp + size) page size (omega arith) (omega arith))

length-objects : (n cp size : ℕ) → length (objects n cp size) ≡ suc n
unfolding objects
length-objects zero cp size = refl
length-objects (suc n) cp size = ap suc (length-objects n (cp + size) size)

-- The objects of the sizes of the bucket directory fill a page.
dir_size-fills :
    (i : ℕ)
    → i < 9
    → (suc (4096 / dir_size i - 1) * dir_size i ≡ 4096)
      × (suc (4096 / dir_size i - 1) ≡ 4096 / dir_size i)
      × (0 < dir_size i)
dir_size-fills zero lt = (refl, refl, omega arith)
dir_size-fills (suc zero) lt = (refl, refl, omega arith)
dir_size-fills (suc (suc zero)) lt = (refl, refl, omega arith)
dir_size-fills (suc (suc (suc zero))) lt = (refl, refl, omega arith)
dir_size-fills (suc (suc (suc (suc zero)))) lt = (refl, refl, omega arith)
dir_size-fills (suc (suc (suc (suc (suc zero))))) lt = (refl, refl, omega arith)
dir_size-fills (suc (suc (suc (suc (suc (suc zero)))))) lt = (refl, refl, omega arith)
dir_size-fills (suc (suc (suc (suc (suc (suc (suc zero))))))) lt = (refl, refl, omega arith)
dir_size-fills (suc (suc (suc (suc (suc (suc (suc (suc zero)))))))) lt = (refl, refl, omega arith)
dir_size-fills (suc (suc (suc (suc (suc (suc (suc (suc (suc i))))))))) lt = absurd (omega arith)

-- The objects after the one at `cp`
abbrev pub later_objects : ℕ → ℕ → ℕ → List ℕ
later_objects zero cp size = []
later_objects (suc n) cp size = objects n (cp + size) size

link_objects-later :
    (n cp size : ℕ) (m : Memory)
    → 0 < size
    → 0 < cp
    → IsFreeList
        (link_objects n cp size m)
        ((link_objects n cp size m).word cp)
        (later_objects n cp size)
unfolding IsFreeList objects
link_objects-later zero cp size m s c = (link_objects-IsFreeList zero cp size m s c).2
link_objects-later (suc n) cp size m s c = (link_objects-IsFreeList (suc n) cp size m s c).2

-- The heap after malloc gave out the first object of the new page `cp`, as the descriptor `b`.
pub record IsNewPage (r : Heap) (b cp size : ℕ) : Type 0 where
  pub free : IsFreeList r.memory (r.bucket b).freeptr (later_objects (4096 / size - 1) cp size)
  pub inside : All (IsInside cp size) (objects (4096 / size - 1) cp size)
  pub count : length (objects (4096 / size - 1) cp size) ≡ 4096 / size
  pub used_once : (r.bucket b).refcnt ≡ 1
  pub page : (r.bucket b).page ≡ cp

-- The heap with the page `cp` of the memory `m`, for number `i` and the descriptor `b`.
abbrev with_page : Heap → ℕ → ℕ → List ℕ → Memory → ℕ → Heap
with_page h i b bs m cp = record {
  memory = link_objects (4096 / dir_size i - 1) cp (dir_size i) m;
  bucket =
      update h.bucket b (record { page = cp; freeptr = cp; refcnt = 0; bucket_size = dir_size i });
  chain = update h.chain i (b ∷ h.chain i);
  free_bucket_desc = bs;
}

add_bucket-with_page :
    (h : Heap) (i b : ℕ) (bs : List ℕ)
    → h.free_bucket_desc ≡ b ∷ bs
    → ((get_free_page h.memory).1 == 0) ≡ false
    → add_bucket i h
      ≡ ok (with_page h i b bs (get_free_page h.memory).0 (get_free_page h.memory).1, b)
unfolding add_bucket
add_bucket-with_page h i b bs desc page = rw (desc, add_bucket, ◌>>=◌) (rw desc (rw page refl))

bucket-take_object :
    (h : Heap) (i b : ℕ) (bs : List ℕ) (m : Memory) (cp : ℕ)
    → let r = with_page h i b bs m cp in
      (take_object b r).0.bucket b
      ≡ record { page = cp; freeptr = r.memory.word cp; refcnt = 1; bucket_size = dir_size i }
unfolding take_object
bucket-take_object h i b bs m cp = rw (==_self b) refl

memory-take_object : (h : Heap) (b : ℕ) → (take_object b h).0.memory ≡ h.memory
unfolding take_object
memory-take_object h b = refl

take_object-IsNewPage :
    (h : Heap) (i b : ℕ) (bs : List ℕ) (m : Memory) (cp : ℕ)
    → i < 9
    → 0 < cp
    → IsNewPage (take_object b (with_page h i b bs m cp)).0 b cp (dir_size i)
unfolding take_object
take_object-IsNewPage h i b bs m cp lt c =
    let n : ℕ = 4096 / dir_size i - 1 in
    let (fills, whole, some_size) = dir_size-fills i lt in
    let same = bucket-take_object h i b bs m cp in
    record {
      free =
          subst
            (λ d.
              IsFreeList (link_objects n cp (dir_size i) m) d.freeptr
                (later_objects n cp (dir_size i)))
            (sym same) (link_objects-later n cp (dir_size i) m some_size c);
      inside = objects-All n cp cp (dir_size i) (omega arith) (rw fills (omega arith));
      count = length-objects n cp (dir_size i) ∙ whole;
      used_once = ap (λ d. d.refcnt) same;
      page = ap (λ d. d.page) same;
    }

with_page-object :
    (h : Heap) (i b : ℕ) (bs : List ℕ) (m : Memory) (cp : ℕ)
    → ok (take_object b (with_page h i b bs m cp))
      ≡ ok ((take_object b (with_page h i b bs m cp)).0, cp)
unfolding take_object
with_page-object h i b bs m cp =
    ap (λ p. ok ((take_object b (with_page h i b bs m cp)).0, p)) (rw (==_self b) refl)

-- When no chain for objects of `len` bytes has a free object, a free descriptor and a free page are
-- left: malloc returns the page. Its objects are as many as fill the page, all inside it; the
-- descriptor counts one of them, and the others are linked in order as its free objects.
pub malloc-IsNewPage :
    (h : Heap) (len i b : ℕ) (bs : List ℕ)
    → find_size len 9 0 ≡ some i
    → find_space h (h.chain i) ≡ none
    → h.free_bucket_desc ≡ b ∷ bs
    → (get_free_page h.memory).1 ≢ 0
    → (r : Heap) × (malloc len h ≡ ok (r, (get_free_page h.memory).1))
      × IsNewPage r b (get_free_page h.memory).1 (dir_size i)
unfolding malloc
malloc-IsNewPage h len i b bs found full desc page =
    let page_found : ((get_free_page h.memory).1 == 0) ≡ false = ground (arith, page) in
    let m = (get_free_page h.memory).0 in
    let cp = (get_free_page h.memory).1 in
    let added = add_bucket-with_page h i b bs desc page_found in
    let (enough, lt) = find_size-some len 9 0 i found in
    (
      (take_object b (with_page h i b bs m cp)).0,
      rw (found, full, malloc) (rw (added, ◌>>=◌) (with_page-object h i b bs m cp)),
      take_object-IsNewPage h i b bs m cp lt (omega (arith, page)),
    )
