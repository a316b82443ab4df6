-- ===== src/Directory/Tests.antt =====
-- A directory of two entries, and the theorems on it.
use linux_0_11_comments.Directory.Holes.{check_entries-hole}
use linux_0_11_comments.Examples.{example_task, small_super, mounted, idle}
use linux_0_11_comments.Bitmap.{no_inode, set_data, Inode}
use linux_0_11_comments.Directory.{put_entry_name, put_entry_inode, same_bytes, match}
use linux_0_11_comments.Directory.Names.{match-written, SameName, written, IsName}
use linux_0_11_comments.Directory.Entries.{find_entry, check_entries}
use linux_0_11_comments.Inodes.{empty_slot, Fs}
use linux_0_11_comments.Cache.{
  set_count, wait_on_buffer, find_in, get_hash_table, set_head, getblk, Cache, bread,
}
use linux_0_11_comments.Directory.Search.{find_entry-IsFirst, found_entry, first_match, IsFirst}
use linux_0_11_comments.Common.{
  ◌==◌, if◌then◌else◌, pos, free_free_buffer, ok, panic, ℕ, ◌*◌, ◌≡◌, refl, ◌↔◌, true, false,
  Option, none, some, [], ◌∷◌, arith,
}

abbrev name_dot : ℕ → ℕ
name_dot _ = b'.'

abbrev name_a : ℕ → ℕ
name_a _ = b'a'

name_a-IsName : IsName 1 name_a
name_a-IsName = record { some_byte = omega arith; no_zero = λ k lt. omega arith }

match-written_example :
    (match 1 name_a (written 7 1 name_a 16 (λ _. 0)) 16 ≡ true)
    ↔ (◌≡◌ {A = ℕ} 1 1 × SameName 1 name_a name_a)
match-written_example =
    match-written 7 1 1 16 name_a name_a (λ _. 0) (omega arith) (omega arith) (omega arith)
      (omega arith) name_a-IsName name_a-IsName

-- Block 5 is in buffer 1.
abbrev dir_cache : Cache
dir_cache = set_data 1 (written 7 1 name_a 16 (written 1 1 name_dot 0 (λ _. 0))) (
    set_head 1 (λ bh. record bh { b_dev = 1; b_blocknr = 5; b_uptodate = true })
      (record mounted { hash = λ h. if h == 4 then 1 ∷ [] else [] }))

abbrev dir_inode : Inode
dir_inode = record no_inode {
  i_mode = 0x4000;
  i_size = 32;
  i_dev = 1;
  i_num = 1;
  i_count = 1;
  i_nlinks = 2;
  i_zone = λ n. if n == 0 then 5 else 0;
}

abbrev dir_fs : Fs
dir_fs = record {
  inode_table = λ i. if i == 3 then record empty_slot { inode = dir_inode } else empty_slot;
  last_inode = 0;
  super_block = λ _. record {
    maps = small_super;
    s_imap_blocks = 1;
    s_zmap_blocks = 1;
    s_dev = 1;
    s_imount = none;
    s_lock = false;
  };
  cache = dir_cache;
  memory = record { word = λ _. 0; mem_map = λ _. 100; high_memory = 16 * 1024 * 1024 };
}

block_5-read : bread idle 1 1 5 dir_cache ≡ ok (set_count 1 1 dir_cache, some 1)
unfolding bread getblk get_hash_table find_in wait_on_buffer
block_5-read = refl

find_entry-IsFirst_example :
    (o : Option ℕ) × IsFirst 1 name_a (dir_cache.b_data 1) 2 o
    × (find_entry idle (λ f. f) (pos 5) 1 (example_task 1 0 0) 3 name_a 1 dir_fs
        ≡ ok (
          (found_entry 1 o (record dir_fs { cache = set_count 1 1 dir_cache })).0,
          3,
          (found_entry 1 o (record dir_fs { cache = set_count 1 1 dir_cache })).1,
        ))
find_entry-IsFirst_example =
    find_entry-IsFirst idle (λ f. f) (pos 5) 0 3 1 1 (example_task 1 0 0) name_a dir_fs
      (set_count 1 1 dir_cache) (omega arith) refl (omega arith) (omega arith) block_5-read
      (record { unlocked = refl; counted = omega arith })

-- The second entry has the name.
found_a : first_match 1 name_a (dir_cache.b_data 1) 2 0 ≡ some 1
unfolding first_match match same_bytes put_entry_inode put_entry_name
found_a = refl

-- The buffer of the first block has one user.
abbrev one_user : Fs
one_user = record dir_fs { cache = set_count 1 1 dir_cache }

check_entries-hole_example :
    check_entries idle (λ f. f) (pos 5) 1 3 200 100 64 1 1024 one_user ≡ panic free_free_buffer
check_entries-hole_example =
    check_entries-hole idle (λ f. f) (pos 5) 0 3 200 98 64 1 one_user (omega arith) (omega arith)
      refl refl refl
