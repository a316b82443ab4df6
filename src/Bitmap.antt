-- ===== src/Bitmap.antt =====
-- fs/bitmap.c: the bitmaps of the zones and of the inodes of a file system.
--
-- The bitmaps are blocks in the buffer cache, whose data are bytes. The super block of the device,
-- which `get_super` of fs/super.c finds, is an argument, `none` if there is none. `new_inode` is
-- given what `get_empty_inode` of fs/inode.c returns, and says in its result when the inode is to be
-- put back by `iput`. `s_firstdatazone` is at least 1. Where the code goes through the null pointer of a bitmap that is not there, the
-- model panics.
pub mod Bytes
pub mod Zones
mod Tests
use linux_0_11_comments.Common.{
  ltb, leb, ◌==◌, if◌then◌else◌, update, ℤ, pos, Run, bad_block, bad_inode, bad_bitmap, null_buffer,
  ok, panic, ℕ, zero, suc, ◌+◌, ◌-◌, ◌*◌, ◌/◌, ◌%◌, ◌^◌, Bool, true, false, ◌||◌, not, Option, none,
  some, ◌>>=◌, ◌>>◌,
}
use linux_0_11_comments.Cache.{brelse, get_hash_table, getblk, set_head, Io, Cache}

-- struct super_block: the fields that the bitmaps use
pub record SuperBlock : Type 0 where
  pub s_ninodes : ℕ
  pub s_nzones : ℕ
  pub s_firstdatazone : ℕ
  pub s_imap : ℕ → Option ℕ
  pub s_zmap : ℕ → Option ℕ

-- struct m_inode, less the tasks that wait for it, the lock, and the marks of pipes and mounts
pub record Inode : Type 0 where
  pub i_mode : ℕ
  pub i_uid : ℕ
  pub i_size : ℕ
  pub i_mtime : ℤ
  pub i_gid : ℕ
  pub i_nlinks : ℕ
  pub i_zone : ℕ → ℕ
  pub i_atime : ℤ
  pub i_ctime : ℤ
  pub i_dev : ℕ
  pub i_num : ℕ
  pub i_count : ℕ
  pub i_dirt : Bool

-- Bit `nr` of a block
abbrev pub test_bit : ℕ → (ℕ → ℕ) → Bool
test_bit nr block = block (nr / 8) / 2 ^ (nr % 8) % 2 == 1

-- btsl and btrl, on a block; the searches never find a bit that is set already
abbrev pub set_block_bit : ℕ → (ℕ → ℕ) → ℕ → ℕ
set_block_bit nr block =
    if test_bit nr block then block else update block (nr / 8) (block (nr / 8) + 2 ^ (nr % 8))

abbrev pub clear_block_bit : ℕ → (ℕ → ℕ) → ℕ → ℕ
clear_block_bit nr block =
    if test_bit nr block then update block (nr / 8) (block (nr / 8) - 2 ^ (nr % 8)) else block

-- The first of the `n` bits from number `nr` on that is 0, or the number behind them
unfoldable pub find_zero_from : (ℕ → ℕ) → ℕ → ℕ → ℕ
find_zero_from block zero nr = nr
find_zero_from block (suc n) nr = elim (test_bit nr block) [
  | false ↦ nr
  | true ↦ find_zero_from block n (nr + 1)
]

abbrev pub find_first_zero : (ℕ → ℕ) → ℕ
find_first_zero block = find_zero_from block 8192 0

abbrev pub set_data : ℕ → (ℕ → ℕ) → Cache → Cache
set_data b block c = record c { b_data = update c.b_data b block }

abbrev pub set_dirt : ℕ → Cache → Cache
set_dirt b c = set_head b (λ bh. record bh { b_dirt = true }) c

-- The loop over the bitmaps i, i + 1, ...: the number of the bitmap, its buffer and the bit.
unfoldable pub search_maps : (ℕ → Option ℕ) → Cache → ℕ → ℕ → Option (ℕ × ℕ × ℕ)
search_maps maps c zero i = none
search_maps maps c (suc n) i = elim (maps i) [
  | none ↦ search_maps maps c n (i + 1)
  | some b ↦
      let j = find_first_zero (c.b_data b) in
      elim (ltb j 8192) [ true ↦ some (i, b, j) | false ↦ search_maps maps c n (i + 1) ]
]

-- The part of new_block that takes a zone: its number, if one is free in the file system. The bit
-- stays set when the number is too large.
unfoldable pub take_zone : SuperBlock → Cache → Cache × Option ℕ
take_zone sb c = elim (search_maps sb.s_zmap c 8 0) [
  | none ↦ (c, none)
  | some (i, b, j) ↦
      let block = j + i * 8192 + sb.s_firstdatazone - 1 in
      (
        set_dirt b (set_data b (set_block_bit j (c.b_data b)) c),
        if leb sb.s_nzones block then none else some block,
      )
]

unfoldable pub new_block : Io → ℕ → Option SuperBlock → ℕ → Cache → Run (Cache × ℕ)
new_block io fuel none dev c = panic bad_block
new_block io fuel (some sb) dev c =
    let (c, zone) = take_zone sb c in
    elim zone [
      | none ↦ ok (c, 0)
      | some block ↦ do
        (c, b) ← getblk io fuel dev block c
        if not (c.b_count b == 1) then panic bad_block else (do
          let cleared : Cache = set_data b (λ i. if ltb i 1024 then 0 else c.b_data b i) c
          c ←
              brelse io fuel b
                (set_head b (λ bh. record bh { b_uptodate = true; b_dirt = true }) cleared)
          ok (c, block))
    ]

-- The part of free_block that gives a zone back.
unfoldable pub give_zone : SuperBlock → ℕ → Cache → Run Cache
give_zone sb block c =
    let nr = block + 1 - sb.s_firstdatazone in
    elim (sb.s_zmap (nr / 8192)) [
      | none ↦ panic null_buffer
      | some b ↦
          if test_bit (nr % 8192) (c.b_data b)
          then ok (set_dirt b (set_data b (clear_block_bit (nr % 8192) (c.b_data b)) c))
          else panic bad_bitmap
    ]

unfoldable pub free_block : Io → ℕ → Option SuperBlock → ℕ → ℕ → Cache → Run Cache
free_block io fuel none dev block c = panic bad_block
free_block io fuel (some sb) dev block c =
    if ltb block sb.s_firstdatazone || leb sb.s_nzones block then panic bad_block else (do
      (c, found) ← get_hash_table io fuel dev block c
      elim found [
        | none ↦ give_zone sb block c
        | some b ↦ if not (c.b_count b == 1) then ok c else (do
          c ←
              brelse io fuel b
                (set_head b (λ bh. record bh { b_dirt = false; b_uptodate = false }) c)
          give_zone sb block c)
      ])

-- memset(inode, 0, sizeof(*inode))
abbrev pub no_inode : Inode
no_inode = record {
  i_mode = 0;
  i_uid = 0;
  i_size = 0;
  i_mtime = pos 0;
  i_gid = 0;
  i_nlinks = 0;
  i_zone = λ _. 0;
  i_atime = pos 0;
  i_ctime = pos 0;
  i_dev = 0;
  i_num = 0;
  i_count = 0;
  i_dirt = false;
}

-- The null inode is `none`; the super block is that of the inode's device.
unfoldable pub free_inode : Option SuperBlock → Option Inode → Cache → Run (Cache × Option Inode)
free_inode sb none c = ok (c, none)
free_inode sb (some inode) c =
    if inode.i_dev == 0
    then ok (c, some no_inode)
    else if ltb 1 inode.i_count || not (inode.i_nlinks == 0)
    then panic bad_inode
    else elim sb [
      | none ↦ panic bad_inode
      | some sb ↦
          if ltb inode.i_num 1 || ltb sb.s_ninodes inode.i_num
          then panic bad_inode
          else elim (sb.s_imap (inode.i_num / 8192)) [
            | none ↦ panic bad_inode
            | some b ↦
                let bits = clear_block_bit (inode.i_num % 8192) (c.b_data b) in
                ok (set_dirt b (set_data b bits c), some no_inode)
          ]
    ]

-- What new_inode does with the inode that it was given.
pub data NewInode : Type 0 where
  none_empty : NewInode
  put_back : NewInode
  made : Inode → NewInode

unfoldable pub new_inode :
    Option SuperBlock → Option Inode → ℕ → ℕ → ℕ → ℤ → Cache → Run (Cache × NewInode)
new_inode sb none dev euid egid now c = ok (c, none_empty)
new_inode none (some inode) dev euid egid now c = panic bad_inode
new_inode (some sb) (some inode) dev euid egid now c = elim (search_maps sb.s_imap c 8 0) [
  | none ↦ ok (c, put_back)
  | some (i, b, j) ↦
      if ltb sb.s_ninodes (j + i * 8192)
      then ok (c, put_back)
      else ok (
        set_dirt b (set_data b (set_block_bit j (c.b_data b)) c),
        made (record inode {
          i_count = 1;
          i_nlinks = 1;
          i_dev = dev;
          i_uid = euid;
          i_gid = egid % 256;
          i_dirt = true;
          i_num = j + i * 8192;
          i_mtime = now;
          i_atime = now;
          i_ctime = now;
        }),
      )
]
