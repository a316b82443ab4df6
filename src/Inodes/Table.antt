-- ===== src/Inodes/Table.antt =====
-- fs/inode.c: `sync_inodes`, `invalidate_inodes` and `iput`.
use linux_0_11_comments.Bmap.{truncate}
use linux_0_11_comments.Inodes.Format.{write_inode}
use linux_0_11_comments.Memory.{free_page}
use linux_0_11_comments.Inodes.{
  empty_slot, set_node, wait_on_inode, nr_inode, get_super, set_slot, count_down, node, Fs,
}
use linux_0_11_comments.Cache.{write_dirty, Cache, Io}
use linux_0_11_comments.Bitmap.{free_inode, SuperBlock, Inode}
use linux_0_11_comments.Common.{
  ltb, ◌==◌, if◌then◌else◌, ℤ, Run, ◌>>=◌, free_free_inode, ok, panic, out_of_fuel, ℕ, zero, suc,
  ◌+◌, ◌/◌, ◌%◌, Bool, true, false, ◌&&◌, not, Option, none, some,
}

-- S_ISBLK(mode)
abbrev pub is_block : ℕ → Bool
is_block mode = mode / 4096 % 16 == 6

-- A step on the cache alone
abbrev pub on_cache : (Cache → Run Cache) → Fs → Run Fs
on_cache g f = g f.cache >>= λ c. ok (record f { cache = c })

-- The end of iput for a pipe
unfoldable pub put_pipe : ℕ → Fs → Run Fs
put_pipe i f =
    let f = count_down i f in
    if not ((node i f).i_count == 0) then ok f else (do
      m ← free_page (node i f).i_size f.memory
      ok (
          set_slot i
            (record (f.inode_table i) {
              inode = record (node i f) { i_count = 0; i_dirt = false };
              i_pipe = false;
            })
            (record f { memory = m })))

abbrev pub maps_of : Option ℕ → Fs → Option SuperBlock
maps_of none f = none
maps_of (some s) f = some (f.super_block s).maps

-- What free_inode leaves at the place of the inode
abbrev pub freed : ℕ → Option Inode → Fs → Fs
freed i none f = f
freed i (some n) f = set_slot i (record empty_slot { inode = n }) f

module _ (io : Io) (away : Fs → Fs) (now : ℤ) where
  -- The loop of sync_inodes over the inodes i, i + 1, ...
  unfoldable pub sync_from : ℕ → ℕ → ℕ → Fs → Run Fs
  sync_from fuel zero i f = ok f
  sync_from fuel (suc n) i f = do
    f ← wait_on_inode away fuel i f
    f ←
        if ((node i f).i_dirt) && not ((f.inode_table i).i_pipe)
        then write_inode io away fuel i f
        else ok f
    sync_from fuel n (i + 1) f

  abbrev pub sync_inodes : ℕ → Fs → Run Fs
  sync_inodes fuel f = sync_from fuel nr_inode 0 f

  -- The loop of invalidate_inodes over the inodes i, i + 1, ...
  unfoldable pub invalidate_inodes_from : ℕ → ℕ → ℕ → ℕ → Fs → Run Fs
  invalidate_inodes_from fuel dev zero i f = ok f
  invalidate_inodes_from fuel dev (suc n) i f = do
    f ← wait_on_inode away fuel i f
    let f : Fs =
        if (node i f).i_dev == dev
        then set_node i (record (node i f) { i_dev = 0; i_dirt = false }) f
        else f
    invalidate_inodes_from fuel dev n (i + 1) f

  abbrev pub invalidate_inodes : ℕ → ℕ → Fs → Run Fs
  invalidate_inodes fuel dev f = invalidate_inodes_from fuel dev nr_inode 0 f

  -- sync_dev of fs/buffer.c, with the inodes of the table
  unfoldable pub sync_device : ℕ → ℕ → Fs → Run Fs
  sync_device fuel dev f = do
    f ← on_cache (λ c. write_dirty io fuel (λ d. d == dev) c.nr_buffers 0 c) f
    f ← sync_inodes fuel f
    on_cache (λ c. write_dirty io fuel (λ d. d == dev) c.nr_buffers 0 c) f

  -- truncate and free_inode
  unfoldable pub delete_inode : ℕ → ℕ → Fs → Run Fs
  delete_inode fuel i f = do
    (f, s) ← get_super away fuel (node i f).i_dev f
    let sb : Option SuperBlock = maps_of s f
    d ← truncate io sb now fuel (record { inode = node i f; cache = f.cache })
    (c, n) ← free_inode sb (some d.inode) d.cache
    ok (freed i n (record f { cache = c }))

  -- iput from the label `repeat` on
  unfoldable pub put_last : ℕ → ℕ → Fs → Run Fs
  put_last zero i f = out_of_fuel
  put_last (suc fuel) i f = elim (ltb 1 (node i f).i_count) [
    | true ↦ ok (count_down i f)
    | false ↦ elim ((node i f).i_nlinks == 0) [
      | true ↦ delete_inode (suc fuel) i f
      | false ↦ elim ((node i f).i_dirt) [
        | false ↦ ok (count_down i f)
        | true ↦ do
          f ← write_inode io away (suc fuel) i f
          f ← wait_on_inode away (suc fuel) i f
          put_last fuel i f
      ]
    ]
  ]

  unfoldable pub iput : ℕ → Option ℕ → Fs → Run Fs
  iput fuel none f = ok f
  iput fuel (some i) f = do
    f ← wait_on_inode away fuel i f
    (if (node i f).i_count == 0
        then panic free_free_inode
        else if (f.inode_table i).i_pipe
        then put_pipe i f
        else if (node i f).i_dev == 0
        then ok (count_down i f)
        else (do
          f ←
              if is_block (node i f).i_mode
              then (do f ← sync_device fuel ((node i f).i_zone 0) f; wait_on_inode away fuel i f)
              else ok f
          put_last fuel i f))
