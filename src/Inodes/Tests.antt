-- ===== src/Inodes/Tests.antt =====
-- A table with one inode in memory, and the theorems on it.
use linux_0_11_comments.Inodes.Encoding.{get_disk_inode-put_disk_inode, stored}
use linux_0_11_comments.Inodes.Getting.{iget-IsUnique}
use linux_0_11_comments.Examples.{mounted, idle, small_super}
use linux_0_11_comments.Inodes.Get.{iget}
use linux_0_11_comments.Inodes.Shared.{iget-IsShared, IsShared, IsThere}
use linux_0_11_comments.Inodes.{empty_slot, Fs}
use linux_0_11_comments.Bitmap.{no_inode, Inode}
use linux_0_11_comments.Inodes.Format.{put_disk_inode, get_disk_inode}
use linux_0_11_comments.Inodes.Unique.{FirstIsUnique, IsUnique, Ensures, UniqueTable}
use linux_0_11_comments.Inodes.Empty.{IsFree}
use linux_0_11_comments.Common.{
  ◌==◌, if◌then◌else◌, pos, ok, ℕ, ◌*◌, ◌≡◌, refl, ◌≢◌, false, none, arith,
}

abbrev root_inode : Inode
root_inode = record no_inode {
  i_mode = 0x4000;
  i_size = 48;
  i_dev = 1;
  i_num = 1;
  i_count = 1;
  i_nlinks = 2;
}

-- The inode stands at place 3.
abbrev one_inode : Fs
one_inode = record {
  inode_table = λ i. if i == 3 then record empty_slot { inode = root_inode } else empty_slot;
  last_inode = 0;
  super_block = λ s. record {
    maps = small_super;
    s_imap_blocks = 1;
    s_zmap_blocks = 1;
    s_dev = if s == 0 then 1 else 0;
    s_imount = none;
    s_lock = false;
  };
  cache = mounted;
  memory = record { word = λ _. 0; mem_map = λ _. 100; high_memory = 16 * 1024 * 1024 };
}

one_inode-IsUnique : IsUnique one_inode
unfolding UniqueTable
one_inode-IsUnique i j li lj = ground arith

iget-IsUnique_example : Ensures FirstIsUnique (iget idle (λ f. f) (pos 5) 40 1 1 one_inode)
iget-IsUnique_example =
    iget-IsUnique idle (λ f. f) (pos 5) (λ f h. h) 40 1 1 one_inode one_inode-IsUnique

place_4-IsFree : IsFree (one_inode.inode_table 4)
place_4-IsFree = record { unused = refl; unchanged = refl; unlocked = refl }

root_inode-IsThere : IsThere 1 1 3 one_inode
root_inode-IsThere = record {
  inside = omega arith;
  at = refl;
  before = λ j lt. ground (arith, lt);
  unlocked = refl;
  plain = refl;
}

iget-IsShared_example :
    (e : ℕ) × (v : Fs) × (iget idle (λ f. f) (pos 5) 40 1 1 one_inode ≡ ok (v, 3))
    × IsShared 3 e one_inode v
iget-IsShared_example =
    iget-IsShared idle (λ f. f) (pos 5) 40 1 1 3 4 one_inode (omega arith) (omega arith)
      (omega arith) (omega arith) place_4-IsFree (omega arith) root_inode-IsThere

get_disk_inode-put_disk_inode_example :
    (get_disk_inode 2 (put_disk_inode 2 root_inode (λ _. 0)) no_inode ≡ stored root_inode no_inode)
    × ((j : ℕ) (other : Inode)
        → j ≢ 2
        → get_disk_inode j (put_disk_inode 2 root_inode (λ _. 0)) other
          ≡ get_disk_inode j (λ _. 0) other)
get_disk_inode-put_disk_inode_example =
    get_disk_inode-put_disk_inode 2 root_inode no_inode (λ _. 0)
      (record {
        mode = omega arith;
        uid = omega arith;
        size = omega arith;
        mtime = (0, omega arith, refl);
        gid = omega arith;
        nlinks = omega arith;
        zones = λ n. omega arith;
      })
