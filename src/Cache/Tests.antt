-- ===== src/Cache/Tests.antt =====
-- The theorems on the buffer cache at an empty cache of three buffers.
use linux_0_11_comments.Examples.{idle, empty_cache}
use linux_0_11_comments.Cache.Queues.{IsCoherent}
use linux_0_11_comments.Cache.{head, holds, getblk, Cache}
use linux_0_11_comments.Common.{ok, mem, ℕ, ◌<◌, ◌≡◌, refl, ◌⊎◌, true, false, arith}
use linux_0_11_comments.Cache.Getblk.{getblk-holds}

empty_cache-IsCoherent : IsCoherent empty_cache
unfolding mem
empty_cache-IsCoherent = record {
  hashed = λ h b m. cc;
  present = λ b lt ne. absurd (ne refl);
  unique = λ a b al bl ne d n. absurd (ne refl);
  listed = λ b. ground arith;
}

getblk-holds_example :
    (r : Cache) × (b : ℕ) × (getblk idle 1 768 9 empty_cache ≡ ok (r, b))
    × IsCoherent r
    × (b < 3)
    × (holds 768 9 r b ≡ true)
    × ((holds 768 9 empty_cache b ≡ true) × (r.b_count b ≡ 1)
        ⊎ ((x : ℕ) → x < 3 → holds 768 9 empty_cache x ≡ false)
          × (empty_cache.b_count b ≡ 0)
          × ((head b empty_cache).b_dirt ≡ false)
          × (r.b_count b ≡ 1)
          × ((head b r).b_uptodate ≡ false))
getblk-holds_example =
    getblk-holds idle 0 768 9 0 empty_cache empty_cache-IsCoherent (λ b. refl) (omega arith)
      (omega arith) refl refl
