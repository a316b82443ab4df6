-- ===== src/Cache/Getblk.antt =====
-- `getblk` finds or makes the one buffer of a block (fs/buffer.c).
use linux_0_11_comments.Cache.Coherence.{take_over-IsCoherent}
use linux_0_11_comments.Cache.{
  take_over, holds, find_buffer, is_better, Io, badness, insert_into_queues, head, set_count, clean,
  getblk, Cache, find_unused, wait_on_buffer, remove_from_queues, get_hash_table,
}
use native.Mathlib.Decide.{ℕ_discrete}
use linux_0_11_comments.Common.{
  mem, ◌==◌, Bool-cases, Option-cases, ◌>>=◌, ok, ℕ, suc, ◌+◌, ◌%◌, ◌<◌, ◌≡◌, refl, ◌≢◌, ◌↔◌, ◌⊎◌,
  inl, inr, true, false, Option, none, some, List, [], ◌∷◌, arith,
}
use linux_0_11_comments.Cache.Queues.{find_buffer-none, find_in-some, IsCoherent}

-- No buffer is locked, so that nothing sleeps.
abbrev pub AllUnlocked : Cache → Type 0
AllUnlocked c = (b : ℕ) → (head b c).b_lock ≡ false

wait_on_buffer-unlocked :
    (io : Io) (fuel b : ℕ) (c : Cache)
    → (head b c).b_lock ≡ false
    → wait_on_buffer io (suc fuel) b c ≡ ok c
unfolding wait_on_buffer
wait_on_buffer-unlocked io fuel b c h = rw (h, wait_on_buffer) refl

get_hash_table-found :
    (io : Io) (fuel dev block : ℕ) (c : Cache) (b : ℕ)
    → find_buffer dev block c ≡ some b
    → (head b c).b_lock ≡ false
    → get_hash_table io (suc fuel) dev block c
      ≡ ok (set_count b ((c.b_count b + 1) % 256) c, some b)
unfolding get_hash_table
get_hash_table-found io fuel dev block c b e h =
    let found = find_in-some dev block c _ b e in
    let same : holds dev block c b ≡ true = ground (arith, found) in
    let still = wait_on_buffer-unlocked io fuel b (set_count b ((c.b_count b + 1) % 256) c) h in
    rw (e, get_hash_table) (rw still (rw (same, ◌>>=◌) refl))

get_hash_table-none :
    (io : Io) (fuel dev block : ℕ) (c : Cache)
    → find_buffer dev block c ≡ none
    → get_hash_table io (suc fuel) dev block c ≡ ok (c, none)
unfolding get_hash_table
get_hash_table-none io fuel dev block c e = rw (e, get_hash_table) refl

badness-clean :
    (c : Cache) (b : ℕ) → (head b c).b_lock ≡ false → badness c b ≡ 0 ↔ (head b c).b_dirt ≡ false
badness-clean c b h = ground (arith, h)

-- The best buffer so far is not clean.
abbrev Worse : Cache → Option ℕ → Type 0
Worse c best = (b : ℕ) → best ≡ some b → badness c b ≢ 0

better-clean :
    (c : Cache) (x : ℕ) (best : Option ℕ)
    → Worse c best
    → badness c x ≡ 0
    → is_better c x best ≡ true
better-clean c x none w z = refl
better-clean c x (some b) w z = ground (arith, w b refl)

abbrev Finds : Cache → List ℕ → Option ℕ → Type 0
Finds c xs r = (b : ℕ) × (r ≡ some b) × (mem b xs ≡ true) × (c.b_count b ≡ 0) × (badness c b ≡ 0)

Finds-cons : (c : Cache) (x : ℕ) (xs : List ℕ) (r : Option ℕ) → Finds c xs r → Finds c (x ∷ xs) r
unfolding mem
Finds-cons c x xs r (b, e, m, z, d) = (b, e, ground (arith, m), z, d)

-- A clean unused buffer in the list ends the search at a clean unused buffer.
find_unused-Finds :
    (c : Cache) (xs : List ℕ) (best : Option ℕ) (a : ℕ)
    → Worse c best
    → mem a xs ≡ true
    → c.b_count a ≡ 0
    → badness c a ≡ 0
    → Finds c xs (find_unused c xs best)
unfolding find_unused mem
find_unused-Finds c [] best a w m z d = cc
find_unused-Finds c (x ∷ xs) best a w m z d = elim (ℕ_discrete a x) [
  | yes at ↦
      let unused : c.b_count x ≡ 0 = rw at at z in
      let none_waits : badness c x ≡ 0 = rw at at d in
      let zero_count : (c.b_count x == 0) ≡ true = ground (arith, unused) in
      let clean : (badness c x == 0) ≡ true = ground (arith, none_waits) in
      let better = better-clean c x best w none_waits in
      (x, rw (zero_count, better, clean) refl, ground arith, unused, none_waits)
  | no other ↦
      let rest : mem a xs ≡ true = ground (arith, m, other) in
      let go = find_unused-Finds c xs best a w rest z d in
      elim (Bool-cases (c.b_count x == 0)) [
        | inr e ↦ rw e (Finds-cons c x xs _ go)
        | inl e ↦ elim (Bool-cases (is_better c x best)) [
          | inr worse ↦ rw (e, worse) (Finds-cons c x xs _ go)
          | inl better ↦ elim (Bool-cases (badness c x == 0)) [
            | inl clean ↦ (
              x,
              rw (e, better, clean) refl,
              ground arith,
              ground (arith, e),
              ground (arith, clean),
            )
            | inr dirty ↦
                let w' : Worse c (some x) = λ b eq. ground (arith, dirty, eq) in
                rw (e, better, dirty)
                  (Finds-cons c x xs _ (find_unused-Finds c xs (some x) a w' rest z d))
          ]
        ]
      ]
]

clean-done :
    (io : Io) (fuel b : ℕ) (c : Cache)
    → (head b c).b_dirt ≡ false
    → clean io (suc fuel) b c ≡ ok (c, true)
unfolding clean
clean-done io fuel b c h = rw (h, clean) refl

set_count-IsCoherent : (b n : ℕ) (c : Cache) → IsCoherent c → IsCoherent (set_count b n c)
set_count-IsCoherent b n c co = record {
  hashed = co.hashed;
  present = co.present;
  unique = co.unique;
  listed = co.listed;
}

getblk-found :
    (io : Io) (fuel dev block : ℕ) (c : Cache) (b : ℕ)
    → find_buffer dev block c ≡ some b
    → (head b c).b_lock ≡ false
    → getblk io (suc fuel) dev block c ≡ ok (set_count b ((c.b_count b + 1) % 256) c, b)
unfolding getblk
getblk-found io fuel dev block c b e h =
    rw (get_hash_table-found io fuel dev block c b e h, getblk) refl

getblk-new :
    (io : Io) (fuel dev block : ℕ) (c : Cache) (b : ℕ)
    → find_buffer dev block c ≡ none
    → find_unused c c.free none ≡ some b
    → (head b c).b_lock ≡ false
    → c.b_count b ≡ 0
    → (head b c).b_dirt ≡ false
    → getblk io (suc fuel) dev block c ≡ ok (take_over io b dev block c, b)
unfolding getblk
getblk-new io fuel dev block c b e f h z d =
    let unused : (c.b_count b == 0) ≡ true = ground (arith, z) in
    rw (get_hash_table-none io fuel dev block c e, getblk, ◌>>=◌)
      (rw f (
        rw (wait_on_buffer-unlocked io fuel b c h)
          (rw unused (rw (clean-done io fuel b c d, ◌>>=◌) (rw e refl)))))

-- In a coherent cache where no buffer is locked and some buffer is neither used nor dirty, `getblk`
-- returns without sleeping, and the cache is coherent again. The buffer that it returns holds the
-- block: it is the one that held it, used once more; or no buffer held it, and it was an unused clean
-- buffer, which is now used once and not up to date.
pub getblk-holds :
    (io : Io) (fuel dev block a : ℕ) (c : Cache)
    → IsCoherent c
    → AllUnlocked c
    → dev ≢ 0
    → a < c.nr_buffers
    → c.b_count a ≡ 0
    → (head a c).b_dirt ≡ false
    → (r : Cache) × (b : ℕ) × (getblk io (suc fuel) dev block c ≡ ok (r, b))
      × IsCoherent r
      × (b < c.nr_buffers)
      × (holds dev block r b ≡ true)
      × ((holds dev block c b ≡ true) × (r.b_count b ≡ (c.b_count b + 1) % 256)
          ⊎ ((x : ℕ) → x < c.nr_buffers → holds dev block c x ≡ false)
            × (c.b_count b ≡ 0)
            × ((head b c).b_dirt ≡ false)
            × (r.b_count b ≡ 1)
            × ((head b r).b_uptodate ≡ false))
unfolding remove_from_queues insert_into_queues
getblk-holds io fuel dev block a c co un ne lt z d = elim (Option-cases (find_buffer dev block c)) [
  | inr (b, e) ↦
      let found = find_in-some dev block c _ b e in
      let here : holds dev block c b ≡ true = ground (arith, found) in
      (
        set_count b ((c.b_count b + 1) % 256) c,
        b,
        getblk-found io fuel dev block c b e (un b),
        set_count-IsCoherent b _ c co,
        (co.hashed _ b found.0).2,
        here,
        inl (here, ground arith),
      )
  | inl e ↦
      let free : mem a c.free ≡ true = ground (arith, co.listed a) in
      let (b, f, m, unused, none_waits) =
        find_unused-Finds c c.free none a (λ x eq. cc) free z ((badness-clean c a (un a)).1 d) in
      let clean_b : (head b c).b_dirt ≡ false = (badness-clean c b (un b)).0 none_waits in
      let b_lt : b < c.nr_buffers = ground (arith, co.listed b) in
      (
        take_over io b dev block c,
        b,
        getblk-new io fuel dev block c b e f (un b) unused clean_b,
        take_over-IsCoherent io b dev block c co b_lt ne e,
        b_lt,
        ground arith,
        inr (find_buffer-none dev block c co ne e, unused, clean_b, ground arith, ground arith),
      )
]
