-- ===== src/Cache/Queues.antt =====
-- The hash queues and the free list of the buffer cache (fs/buffer.c).
use linux_0_11_comments.Common.{
  mem, ltb, ◌==◌, Bool-cases, ℕ, ◌<◌, ◌≡◌, refl, sym, ◌∙◌, ◌≢◌, inl, inr, true, false, ◌&&◌, ◌||◌,
  not, none, some, List, [], ◌∷◌, ◌++◌, arith,
}
use linux_0_11_comments.Cache.{key, holds, head, erase, find_in, find_buffer, Cache}

pub mem-erase : (x b : ℕ) (xs : List ℕ) → mem x (erase b xs) ≡ (mem x xs && not (x == b))
unfolding mem erase
mem-erase x b [] = refl
mem-erase x b (y ∷ ys) = ground (arith, mem-erase x b ys)

pub mem-append : (x b : ℕ) (xs : List ℕ) → mem x (xs ++ b ∷ []) ≡ (mem x xs || x == b)
unfolding mem
mem-append x b [] = ground arith
mem-append x b (y ∷ ys) = ground (arith, mem-append x b ys)

pub find_in-some :
    (dev block : ℕ) (c : Cache) (xs : List ℕ) (b : ℕ)
    → find_in dev block c xs ≡ some b
    → (mem b xs ≡ true) × ((head b c).b_dev ≡ dev) × ((head b c).b_blocknr ≡ block)
unfolding find_in mem
find_in-some dev block c [] b h = cc
find_in-some dev block c (x ∷ xs) b h = ground (arith, find_in-some dev block c xs b)

find_in-none :
    (dev block : ℕ) (c : Cache) (xs : List ℕ) (b : ℕ)
    → find_in dev block c xs ≡ none
    → mem b xs ≡ true
    → holds dev block c b ≡ false
unfolding find_in mem
find_in-none dev block c [] b h m = cc
find_in-none dev block c (x ∷ xs) b h m = ground (arith, find_in-none dev block c xs b)

-- The cache is coherent: the hash queues hold exactly the buffers that have a device, each in the
-- queue of its block, no two of them hold the same block, and the free list holds every buffer.
pub record IsCoherent (c : Cache) : Type 0 where
  pub hashed :
      (h b : ℕ)
      → mem b (c.hash h) ≡ true
      → ((head b c).b_dev ≢ 0) × (key b c ≡ h) × (b < c.nr_buffers)
  pub present : (b : ℕ) → b < c.nr_buffers → (head b c).b_dev ≢ 0 → mem b (c.hash (key b c)) ≡ true
  pub unique :
      (a b : ℕ)
      → a < c.nr_buffers
      → b < c.nr_buffers
      → (head a c).b_dev ≢ 0
      → (head a c).b_dev ≡ (head b c).b_dev
      → (head a c).b_blocknr ≡ (head b c).b_blocknr
      → a ≡ b
  pub listed : (b : ℕ) → mem b c.free ≡ ltb b c.nr_buffers

-- In a coherent cache the search finds the one buffer that holds the block.
pub find_buffer-none :
    (dev block : ℕ) (c : Cache)
    → IsCoherent c
    → dev ≢ 0
    → find_buffer dev block c ≡ none
    → (b : ℕ) → b < c.nr_buffers
    → holds dev block c b ≡ false
find_buffer-none dev block c co ne gone b lt = elim (Bool-cases (holds dev block c b)) [
  | inr e ↦ e
  | inl e ↦
      let d : (head b c).b_dev ≡ dev = ground arith in
      let n : (head b c).b_blocknr ≡ block = ground arith in
      let there : mem b (c.hash (key b c)) ≡ true = co.present b lt (λ z. ne (sym d ∙ z)) in
      find_in-none dev block c _ b gone (rw (d, n) at there)
]
