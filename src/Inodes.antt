-- ===== src/Inodes.antt =====
-- fs/inode.c: the table of the inodes in memory; `get_super` of fs/super.c.
--
-- A pointer to an inode or to a super block is its place in the table. `away` stands for what other
-- tasks do while the code waits for a locked inode or super block; what they do to the tables while
-- it waits for a block is not modelled, nor are the lists of waiting tasks. Loops that wait, or start
-- again after a wait, run on fuel. Messages are not modelled.
pub mod Format
pub mod Table
pub mod Get
pub mod Encoding
pub mod Unique
pub mod Uniqueness
pub mod Releasing
pub mod Getting
pub mod Empty
pub mod Shared
mod Tests
use linux_0_11_comments.Bitmap.{no_inode, Inode, SuperBlock}
use linux_0_11_comments.Cache.{Cache}
use linux_0_11_comments.Memory.{Memory}
use linux_0_11_comments.Common.{
  ltb, ◌==◌, if◌then◌else◌, update, Run, ◌>>=◌, ok, out_of_fuel, ℕ, zero, suc, ◌+◌, ◌%◌, Bool, true,
  false, Option, none, some, ◌>>◌,
}

-- struct m_inode: the fields that Inode has, and the others
pub record MemInode : Type 0 where
  pub inode : Inode
  pub i_lock : Bool
  pub i_pipe : Bool
  pub i_mount : Bool

-- struct super_block: the fields that Bitmap uses, and others
pub record MemSuper : Type 0 where
  pub maps : SuperBlock
  pub s_imap_blocks : ℕ
  pub s_zmap_blocks : ℕ
  pub s_dev : ℕ
  pub s_imount : Option ℕ
  pub s_lock : Bool

-- The tables and what they stand on
pub record Fs : Type 0 where
  pub inode_table : ℕ → MemInode
  pub last_inode : ℕ
  pub super_block : ℕ → MemSuper
  pub cache : Cache
  pub memory : Memory

abbrev pub nr_inode : ℕ
nr_inode = 32

abbrev pub nr_super : ℕ
nr_super = 8

abbrev pub root_ino : ℕ
root_ino = 1

abbrev pub node : ℕ → Fs → Inode
node i f = (f.inode_table i).inode

abbrev pub set_slot : ℕ → MemInode → Fs → Fs
set_slot i s f = record f { inode_table = update f.inode_table i s }

abbrev pub set_node : ℕ → Inode → Fs → Fs
set_node i n f = set_slot i (record (f.inode_table i) { inode = n }) f

abbrev pub set_inode_lock : ℕ → Bool → Fs → Fs
set_inode_lock i lock f = set_slot i (record (f.inode_table i) { i_lock = lock }) f

-- A place of the table that memset cleared
abbrev pub empty_slot : MemInode
empty_slot = record { inode = no_inode; i_lock = false; i_pipe = false; i_mount = false }

-- Counters are 16 bits wide.
abbrev pub count_up : ℕ → Fs → Fs
count_up i f = set_node i (record (node i f) { i_count = ((node i f).i_count + 1) % 65536 }) f

abbrev pub count_down : ℕ → Fs → Fs
count_down i f = set_node i (record (node i f) { i_count = ((node i f).i_count + 65535) % 65536 }) f

module _ (away : Fs → Fs) where
  unfoldable pub wait_on_inode : ℕ → ℕ → Fs → Run Fs
  wait_on_inode zero i f = out_of_fuel
  wait_on_inode (suc fuel) i f = elim ((f.inode_table i).i_lock) [
    | false ↦ ok f
    | true ↦ wait_on_inode fuel i (away f)
  ]

  unfoldable pub lock_inode : ℕ → ℕ → Fs → Run Fs
  lock_inode fuel i f = wait_on_inode fuel i f >>= λ f. ok (set_inode_lock i true f)

  unfoldable pub wait_on_super : ℕ → ℕ → Fs → Run Fs
  wait_on_super zero s f = out_of_fuel
  wait_on_super (suc fuel) s f = elim ((f.super_block s).s_lock) [
    | false ↦ ok f
    | true ↦ wait_on_super fuel s (away f)
  ]

  -- The loop of get_super from place `s` on
  unfoldable pub search_supers : ℕ → ℕ → ℕ → Fs → Run (Fs × Option ℕ)
  search_supers zero dev s f = out_of_fuel
  search_supers (suc fuel) dev s f = elim (ltb s nr_super) [
    | false ↦ ok (f, none)
    | true ↦ elim ((f.super_block s).s_dev == dev) [
      | false ↦ search_supers fuel dev (s + 1) f
      | true ↦ do
        f ← wait_on_super (suc fuel) s f
        elim ((f.super_block s).s_dev == dev) [
          | true ↦ ok (f, some s)
          | false ↦ search_supers fuel dev 0 f
        ]
    ]
  ]

  unfoldable pub get_super : ℕ → ℕ → Fs → Run (Fs × Option ℕ)
  get_super fuel dev f = if dev == 0 then ok (f, none) else search_supers fuel dev 0 f
