-- ===== src/Inodes/Format.antt =====
-- fs/inode.c: an inode in its block on the disk (struct d_inode, 32 bytes), `read_inode` and
-- `write_inode`.
use linux_0_11_comments.Cache.{bread, brelse, Io}
use linux_0_11_comments.Inodes.{set_node, set_inode_lock, node, get_super, lock_inode, Fs, MemSuper}
use linux_0_11_comments.Bitmap.{set_data, set_dirt, Inode}
use linux_0_11_comments.Common.{
  ltb, leb, ◌==◌, if◌then◌else◌, ℤ, pos, negsuc, Run, ◌>>=◌, no_inode_device, unreadable_inode, ok,
  panic, ℕ, ◌+◌, ◌-◌, ◌*◌, ◌/◌, ◌%◌, ◌^◌, false, ◌&&◌, ◌||◌, not, Option, none, some,
}

-- Two and four bytes of a block, the low one first
abbrev pub half_at : ℕ → (ℕ → ℕ) → ℕ
half_at a block = block a + 256 * block (a + 1)

abbrev pub long_at : ℕ → (ℕ → ℕ) → ℕ
long_at a block = half_at a block + 65536 * half_at (a + 2) block

-- A time as an unsigned long
abbrev pub unsigned_long : ℤ → ℕ
unsigned_long (pos n) = n % 2 ^ 32
unsigned_long (negsuc n) = 2 ^ 32 - 1 - n % 2 ^ 32

-- *(struct d_inode *)inode = ((struct d_inode *)bh->b_data)[k]
unfoldable pub get_disk_inode : ℕ → (ℕ → ℕ) → Inode → Inode
get_disk_inode k block inode = record inode {
  i_mode = half_at (32 * k) block;
  i_uid = half_at (32 * k + 2) block;
  i_size = long_at (32 * k + 4) block;
  i_mtime = pos (long_at (32 * k + 8) block);
  i_gid = block (32 * k + 12);
  i_nlinks = block (32 * k + 13);
  i_zone = λ n. if ltb n 9 then half_at (32 * k + 14 + 2 * n) block else inode.i_zone n;
}

-- Byte `k` of a number, the low one first
abbrev pub byte_of : ℕ → ℕ → ℕ
byte_of w k = w / 256 ^ k % 256

-- Byte `b` of a struct d_inode
unfoldable pub inode_byte : Inode → ℕ → ℕ
inode_byte inode b =
    if ltb b 2
    then byte_of inode.i_mode b
    else if ltb b 4
    then byte_of inode.i_uid (b - 2)
    else if ltb b 8
    then byte_of inode.i_size (b - 4)
    else if ltb b 12
    then byte_of (unsigned_long inode.i_mtime) (b - 8)
    else if b == 12
    then byte_of inode.i_gid 0
    else if b == 13
    then byte_of inode.i_nlinks 0
    else byte_of (inode.i_zone ((b - 14) / 2)) (b % 2)

-- ((struct d_inode *)bh->b_data)[k] = *(struct d_inode *)inode
unfoldable pub put_disk_inode : ℕ → Inode → (ℕ → ℕ) → ℕ → ℕ
put_disk_inode k inode block a =
    if leb (32 * k) a && ltb a (32 * k + 32) then inode_byte inode (a - 32 * k) else block a

-- i_num - 1, of unsigned integers
abbrev pub inode_index : Inode → ℕ
inode_index inode = (inode.i_num + 2 ^ 32 - 1) % 2 ^ 32

abbrev pub inode_block : MemSuper → Inode → ℕ
inode_block sb inode = 2 + sb.s_imap_blocks + sb.s_zmap_blocks + inode_index inode / 32

module _ (io : Io) (away : Fs → Fs) where
  -- bread of the block of inode `i`, for the super block that get_super found
  abbrev pub bread_inode : ℕ → ℕ → Option ℕ → Fs → Run (Fs × ℕ)
  bread_inode fuel i none f = panic no_inode_device
  bread_inode fuel i (some s) f = do
    (c, found) ← bread io fuel (node i f).i_dev (inode_block (f.super_block s) (node i f)) f.cache
    elim found [ none ↦ panic unreadable_inode | some b ↦ ok (record f { cache = c }, b) ]

  -- brelse and unlock_inode
  abbrev pub release_inode : ℕ → ℕ → ℕ → Fs → Run Fs
  release_inode fuel i b f =
      brelse io fuel b f.cache >>= λ c. ok (set_inode_lock i false (record f { cache = c }))

  unfoldable pub read_inode : ℕ → ℕ → Fs → Run Fs
  read_inode fuel i f = do
    f ← lock_inode away fuel i f
    (f, s) ← get_super away fuel (node i f).i_dev f
    (f, b) ← bread_inode fuel i s f
    let entry : ℕ = inode_index (node i f) % 32
    release_inode fuel i b (set_node i (get_disk_inode entry (f.cache.b_data b) (node i f)) f)

  unfoldable pub write_inode : ℕ → ℕ → Fs → Run Fs
  write_inode fuel i f = do
    f ← lock_inode away fuel i f
    if not (node i f).i_dirt || (node i f).i_dev == 0 then ok (set_inode_lock i false f) else (do
      (f, s) ← get_super away fuel (node i f).i_dev f
      (f, b) ← bread_inode fuel i s f
      let entry : ℕ = inode_index (node i f) % 32
      let bytes : ℕ → ℕ = put_disk_inode entry (node i f) (f.cache.b_data b)
      let written : Fs = record f { cache = set_dirt b (set_data b bytes f.cache) }
      release_inode fuel i b (set_node i (record (node i f) { i_dirt = false }) written))
