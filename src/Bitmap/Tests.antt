-- ===== src/Bitmap/Tests.antt =====
-- A file system whose first free zone is number 11, and the theorems on it.
use linux_0_11_comments.Bitmap.Zones.{take_zone-IsTaken, IsTaken, IsFull}
use linux_0_11_comments.Examples.{mounted, small_super}
use linux_0_11_comments.Bitmap.{
  clear_block_bit, find_zero_from, set_data, search_maps, set_dirt, take_zone, give_zone,
}
use linux_0_11_comments.Common.{◌==◌, if◌then◌else◌, ok, ℕ, ◌<◌, ◌≡◌, refl, ◌⊎◌, none, some}

first_zone :
    ((take_zone small_super mounted).1 ≡ some 11)
    × ((take_zone small_super mounted).0.b_data 0 0 ≡ 7)
unfolding take_zone search_maps find_zero_from
first_zone = (refl, refl)

-- The zone 11 is given back.
zone_back :
    give_zone small_super 10 mounted
    ≡ ok (set_dirt 0 (set_data 0 (clear_block_bit 1 (λ i. if i == 0 then 3 else 0)) mounted))
unfolding give_zone
zone_back = refl

take_zone-IsTaken_example :
    (take_zone small_super mounted ≡ (mounted, none))
      × ((x b : ℕ) → x < 8 → small_super.s_zmap x ≡ some b → IsFull mounted b)
    ⊎ (i : ℕ) × (b : ℕ) × (j : ℕ) × IsTaken small_super mounted
        (take_zone small_super mounted).0
        i
        b
        j
        (take_zone small_super mounted).1
take_zone-IsTaken_example = take_zone-IsTaken small_super mounted
