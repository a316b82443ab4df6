-- ===== src/Heap/Objects.antt =====
-- The free objects of a page (lib/malloc.c).
use linux_0_11_comments.Heap.{store, link_objects}
use linux_0_11_comments.Memory.{Memory}
use linux_0_11_comments.Common.{
  ℕ, zero, suc, ◌+◌, ◌<◌, ◌≡◌, refl, sym, subst, ◌≢◌, List, [], ◌∷◌, arith,
}

-- The chain of free objects from `at` on is the list.
unfoldable pub IsFreeList : Memory → ℕ → List ℕ → Type 0
IsFreeList m at [] = at ≡ 0
IsFreeList m at (x ∷ xs) = (at ≡ x) × (x ≢ 0) × IsFreeList m (m.word x) xs

-- `n` more objects after the one at `cp`
unfoldable pub objects : ℕ → ℕ → ℕ → List ℕ
objects zero cp size = cp ∷ []
objects (suc n) cp size = cp ∷ objects n (cp + size) size

link_objects-below :
    (n cp size : ℕ) (m : Memory) (a : ℕ) → a < cp → (link_objects n cp size m).word a ≡ m.word a
unfolding link_objects
link_objects-below zero cp size m a lt = ground arith
link_objects-below (suc n) cp size m a lt =
    let next = link_objects-below n (cp + size) size (store cp (cp + size) m) a (omega arith) in
    ground (arith, next)

pub link_objects-IsFreeList :
    (n cp size : ℕ) (m : Memory)
    → 0 < size
    → 0 < cp
    → IsFreeList (link_objects n cp size m) cp (objects n cp size)
unfolding link_objects IsFreeList objects
link_objects-IsFreeList zero cp size m s c = (refl, (λ e. omega arith), ground arith)
link_objects-IsFreeList (suc n) cp size m s c =
    let next = link_objects-below n (cp + size) size (store cp (cp + size) m) cp (omega arith) in
    let here : (link_objects n (cp + size) size (store cp (cp + size) m)).word cp ≡ cp + size =
      ground (arith, next) in
    let rest =
      link_objects-IsFreeList n (cp + size) size (store cp (cp + size) m) s (omega arith) in
    (
      refl,
      (λ e. omega arith),
      subst
          (λ a.
            IsFreeList (link_objects n (cp + size) size (store cp (cp + size) m)) a
              (objects n (cp + size) size))
          (sym here) rest,
    )
