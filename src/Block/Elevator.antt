-- ===== src/Block/Elevator.antt =====
-- The elevator: where `add_request` of kernel/blk_drv/ll_rw_blk.c puts a request.
use linux_0_11_comments.Common.{
  if◌then◌else◌, Bool-cases, All, ℕ, ◌+◌, ◌≤◌, max, ◌≡◌, refl, ap, ◌⊎◌, inl, inr, true, false, ◌&&◌,
  ◌||◌, not, List, [], ◌∷◌, ◌++◌, arith,
}
use linux_0_11_comments.Block.{Request, in_order, insert}

-- Two requests that neither comes before: the same command, device and sector.
abbrev pub Apart : Request → Request → Type 0
Apart a b = (in_order a b ≡ true) ⊎ (in_order b a ≡ true)

in_order_trans : (a b c : Request) → in_order a b ≡ true → in_order b c ≡ true → in_order a c ≡ true
unfolding in_order
in_order_trans a b c h k = ground arith

in_order_asymm : (a b : Request) → in_order a b ≡ true → in_order b a ≡ false
unfolding in_order
in_order_asymm a b h = ground arith

-- The number of places in a queue where the head of the disk turns back.
unfoldable pub turns : (ℕ → Request) → ℕ → List ℕ → ℕ
turns r tmp [] = 0
turns r tmp (next ∷ rest) = (if in_order (r tmp) (r next) then 0 else 1) + turns r next rest

-- The turns of a queue that `insert` returns, which is never empty.
unfoldable pub queue_turns : (ℕ → Request) → List ℕ → ℕ
unfolding turns
queue_turns r [] = 0
queue_turns r (x ∷ xs) = turns r x xs

-- For every queue, the request goes behind the first request, the one being served; all others
-- stay, in their order.
insert-between :
    (r : ℕ → Request) (req tmp : ℕ) (rest : List ℕ)
    → (before : List ℕ) × (after : List ℕ) × (rest ≡ before ++ after)
      × (insert r req tmp rest ≡ tmp ∷ (before ++ req ∷ after))
unfolding insert
insert-between r req tmp [] = ([], [], refl, refl)
insert-between r req tmp (next ∷ rest) =
    let (before, after, e, f) = insert-between r req next rest in
    elim (Bool-cases (
      (in_order (r tmp) (r req) || not (in_order (r tmp) (r next))) && in_order (r req) (r next))) [
        | inl t ↦ ([], next ∷ rest, refl, rw t refl)
        | inr t ↦ (next ∷ before, after, ap (λ l. next ∷ l) e, rw t (ap (λ l. tmp ∷ l) f))
      ]

turns-insert :
    (r : ℕ → Request) (req tmp next : ℕ) (rest : List ℕ)
    → turns r tmp (insert r req next rest)
      ≡ (if in_order (r tmp) (r next) then 0 else 1) + queue_turns r (insert r req next rest)
unfolding insert turns queue_turns
turns-insert r req tmp next [] = refl
turns-insert r req tmp next (x ∷ rest) = ground arith

-- Behind a request that comes before the new one, no turn is added.
ahead :
    (r : ℕ → Request) (req tmp : ℕ) (rest : List ℕ)
    → in_order (r tmp) (r req) ≡ true
    → All (λ x. Apart (r x) (r req)) rest
    → queue_turns r (insert r req tmp rest) ≤ turns r tmp rest
unfolding insert turns queue_turns
ahead r req tmp [] h apart = ground arith
ahead r req tmp (next ∷ rest) h apart = ground (
  arith,
  turns-insert r req tmp next rest,
  ahead r req next rest,
  in_order_asymm (r next) (r req),
  in_order_trans (r tmp) (r req) (r next),
  apart.0,
  apart.1,
)

behind :
    (r : ℕ → Request) (req tmp : ℕ) (rest : List ℕ)
    → in_order (r req) (r tmp) ≡ true
    → All (λ x. Apart (r x) (r req)) rest
    → queue_turns r (insert r req tmp rest) ≤ max 1 (turns r tmp rest)
unfolding insert turns queue_turns
behind r req tmp [] h apart = ground arith
behind r req tmp (next ∷ rest) h apart = ground (
  arith,
  turns-insert r req tmp next rest,
  ahead r req next rest,
  behind r req next rest,
  in_order_asymm (r req) (r tmp),
  in_order_trans (r req) (r tmp) (r next),
  in_order_asymm (r next) (r req),
  apart.0,
  apart.1,
)

-- For a request that differs from all those in the queue in its command, device or sector,
-- `add_request` adds no turn to a queue that has one: the head still sweeps at most once back.
-- In general the queue has no more turns than before, or one.
pub insert_turns :
    (r : ℕ → Request) (req tmp : ℕ) (rest : List ℕ)
    → Apart (r tmp) (r req)
    → All (λ x. Apart (r x) (r req)) rest
    → queue_turns r (insert r req tmp rest) ≤ max 1 (queue_turns r (tmp ∷ rest))
unfolding queue_turns
insert_turns r req tmp rest (inl h) apart = omega (arith, ahead r req tmp rest h apart)
insert_turns r req tmp rest (inr h) apart = behind r req tmp rest h apart
