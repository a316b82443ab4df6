-- ===== src/Bmap/Tests.antt =====
-- A new file on a small file system, and the theorems on it.
use linux_0_11_comments.Bmap.Access.{read_blocks, file_read}
use linux_0_11_comments.Cache.{
  getblk, get_hash_table, find_in, find_unused, wait_on_buffer, clean, insert_into_queues,
  remove_from_queues, brelse,
}
use linux_0_11_comments.Bmap.Direct.{bmap-create_block}
use linux_0_11_comments.Examples.{small_super, idle, mounted}
use linux_0_11_comments.Bitmap.{find_zero_from, search_maps, take_zone, no_inode, new_block}
use linux_0_11_comments.Cache.{getblk, Cache}
use linux_0_11_comments.Bmap.{make_zone, map_block, bmap, create_block, Disk}
use linux_0_11_comments.Common.{ℤ, pos, Run, ok, ℕ, ◌≡◌, refl, some, arith}

abbrev new_file : Disk
new_file = record { inode = record no_inode { i_dev = 1; i_nlinks = 1 }; cache = mounted }

abbrev cache_of : Run (Cache × ℕ) → Cache
cache_of (ok (c, z)) = c
cache_of r = mounted

abbrev first_block : Run (Cache × ℕ)
first_block = new_block idle 3 (some small_super) 1 mounted

first_block_zone : first_block ≡ ok (cache_of first_block, 11)
unfolding new_block take_zone search_maps find_zero_from getblk get_hash_table find_in find_unused
    wait_on_buffer clean insert_into_queues remove_from_queues brelse
first_block_zone = refl

bmap-create_block_example :
    (v : Disk) × (create_block idle (some small_super) (pos 5) 3 (pos 2) new_file ≡ ok (v, 11))
    × ((later : Cache)
        → (bmap idle (some small_super) (pos 5) 3 (pos 2) (record v { cache = later })
            ≡ ok (record v { cache = later }, 11))
          × (create_block idle (some small_super) (pos 5) 3 (pos 2) (record v { cache = later })
              ≡ ok (record v { cache = later }, 11)))
bmap-create_block_example =
    bmap-create_block idle (some small_super) (pos 5) 3 2 11 (cache_of first_block) new_file
      (omega arith) refl first_block_zone (omega arith) (omega arith)

-- A block that the file does not have is read as zeros.
abbrev value_of : Run (Disk × ℕ × (ℕ → ℕ) × ℤ) → ℤ × ℕ
value_of (ok (d, f_pos, buf, value)) = (value, buf 3)
value_of r = (pos 0, 9)

read_hole :
    value_of (file_read idle (some small_super) (pos 5) 3 (pos 4) 1022 (λ _. 7) new_file)
    ≡ (pos 4, 0)
unfolding file_read read_blocks bmap map_block make_zone
read_hole = refl
