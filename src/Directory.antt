-- ===== src/Directory.antt =====
-- fs/namei.c: permissions and the entries of directories.
--
-- A directory is the place of its inode in the table of Inodes. An entry is 16 bytes of a block, from
-- the byte `a` on: the number of the inode, then the name. A name is a map from positions to bytes,
-- with its length. `bh` may be the null pointer in the loops, after a block that is not there: the
-- code then compares `de` with an address that it reads through it, which is always below `de`, so
-- that the next block is read. Where the code goes through the null pointer of a super block that is
-- not there, the model panics.
pub mod Entries
pub mod Names
pub mod Search
pub mod Path
pub mod Open
pub mod Components
pub mod Holes
pub mod Make
pub mod Remove
mod Tests
use linux_0_11_comments.Bitmap.{Inode}
use linux_0_11_comments.Inodes.Format.{half_at}
use linux_0_11_comments.Kernel.{Task}
use linux_0_11_comments.Common.{
  ltb, leb, ◌==◌, if◌then◌else◌, update, ℕ, zero, suc, ◌+◌, ◌-◌, ◌/◌, ◌%◌, bit_and, Bool, true,
  false, ◌&&◌, ◌||◌, not, Option, none, some,
}

-- The test of the mode for the bits of `mask`; the mask of ACC_MODE(3) is -1, which no mode has.
unfoldable pub permission : Task → Inode → ℕ → Bool
permission current inode mask =
    let mode =
      if current.euid == inode.i_uid
      then inode.i_mode / 64
      else if current.egid == inode.i_gid
      then inode.i_mode / 8
      else inode.i_mode in
    if not (inode.i_dev == 0) && inode.i_nlinks == 0
    then false
    else bit_and (bit_and mode mask) 7 == mask || current.euid == 0

-- repe cmpsb, for `n` bytes of the name from number `k` on
unfoldable pub same_bytes : (ℕ → ℕ) → (ℕ → ℕ) → ℕ → ℕ → ℕ → Bool
same_bytes name block at zero k = true
same_bytes name block at (suc n) k = name k == block (at + k) && same_bytes name block at n (k + 1)

abbrev pub name_len : ℕ
name_len = 14

-- For a name that is not empty
unfoldable pub match : ℕ → (ℕ → ℕ) → (ℕ → ℕ) → ℕ → Bool
match len name block a =
    if half_at a block == 0 || ltb name_len len
    then false
    else if ltb len name_len && not (block (a + 2 + len) == 0)
    then false
    else same_bytes name block (a + 2) len 0

-- Names are cut off.
abbrev pub cut_length : ℕ → ℕ
cut_length namelen = if ltb name_len namelen then name_len else namelen

-- The loop of add_entry that copies the name, with zeros behind it
unfoldable pub put_entry_name : ℕ → (ℕ → ℕ) → ℕ → (ℕ → ℕ) → ℕ → ℕ
put_entry_name len name a block j =
    if leb (a + 2) j && ltb j (a + 2 + name_len)
    then if ltb (j - (a + 2)) len then name (j - (a + 2)) else 0
    else block j

-- de->inode = nr
unfoldable pub put_entry_inode : ℕ → ℕ → (ℕ → ℕ) → ℕ → ℕ
put_entry_inode nr a block = update (update block a (nr % 256)) (a + 1) (nr / 256 % 256)

-- A '..'
abbrev pub is_dotdot : ℕ → (ℕ → ℕ) → Bool
is_dotdot len name = len == 2 && name 0 == b'.' && name 1 == b'.'

abbrev pub is_root : Option ℕ → ℕ → Bool
is_root none dir = false
is_root (some root) dir = root == dir

-- !strcmp(".", name) && !strcmp("..", next name), for the first two entries of a block
abbrev pub starts_with_dots : (ℕ → ℕ) → Bool
starts_with_dots block =
    block 2 == b'.' && block 3 == 0 && block 18 == b'.' && block 19 == b'.' && block 20 == 0
