-- ===== src/Bmap/Access.antt =====
-- fs/file_dev.c: `file_read` and `file_write`.
--
-- The caller's buffer is a map from positions to bytes, and a file position is not negative. Each
-- round of a loop moves at least one byte, so that a round for each byte and one more is enough. The
-- inode stands in the Disk.
use linux_0_11_comments.Bmap.{
  brelse, bread, create_block, set_dirt, Inode, bmap, set_data, SuperBlock, Disk,
}
use linux_0_11_comments.Cache.{Io}
use linux_0_11_comments.Common.{
  ltb, leb, ◌==◌, if◌then◌else◌, ℤ, pos_part, pos, negsuc, Run, ok, out_of_fuel, ℕ, zero, suc, ◌+◌,
  ◌-◌, ◌/◌, ◌%◌, Bool, true, false, ◌&&◌, Option, none, some, ◌>>=◌,
}

-- A read or a write on its way: the position in the file, that in the buffer, the bytes left, and the
-- caller's buffer.
pub record Transfer : Type 0 where
  pub disk : Disk
  pub f_pos : ℕ
  pub at : ℕ
  pub left : ℕ
  pub buf : ℕ → ℕ

-- MIN(BLOCK_SIZE - nr, left)
abbrev pub block_part : ℕ → ℕ → ℕ
block_part nr left = if ltb (1024 - nr) left then 1024 - nr else left

-- `chars` bytes of `from`, from number `nr` on, to position `at` of the buffer
abbrev pub copy_out : ℕ → ℕ → ℕ → (ℕ → ℕ) → (ℕ → ℕ) → ℕ → ℕ
copy_out at chars nr from buf i =
    if leb at i && ltb i (at + chars) then from (nr + (i - at)) else buf i

-- The end of a round of file_read, for the bytes of the block
abbrev pub take_block : (ℕ → ℕ) → Disk → Transfer → Transfer
take_block from d t =
    let nr = t.f_pos % 1024 in
    let chars = block_part nr t.left in
    record {
      disk = d;
      f_pos = t.f_pos + chars;
      at = t.at + chars;
      left = t.left - chars;
      buf = copy_out t.at chars nr from t.buf;
    }

-- The end of a round of file_write: the block in the buffer `b` is changed.
abbrev pub put_block : ℕ → Disk → Transfer → Transfer
put_block b d t =
    let c = t.f_pos % 1024 in
    let chars = block_part c t.left in
    let pos = t.f_pos + chars in
    let bytes = copy_out c chars t.at t.buf (d.cache.b_data b) in
    record {
      disk = record {
        inode =
            if ltb d.inode.i_size pos
            then record (d.inode) { i_size = pos; i_dirt = true }
            else d.inode;
        cache = set_data b bytes (set_dirt b d.cache);
      };
      f_pos = pos;
      at = t.at + chars;
      left = t.left - chars;
      buf = t.buf;
    }

module _ (io : Io) (sb : Option SuperBlock) (now : ℤ) where
  unfoldable pub read_blocks : ℕ → ℕ → Transfer → Run Transfer
  read_blocks fuel zero t = out_of_fuel
  read_blocks fuel (suc n) t = elim (t.left == 0) [
    | true ↦ ok t
    | false ↦ do
      (d, nr) ← bmap io sb now fuel (pos (t.f_pos / 1024)) t.disk
      elim (nr == 0) [
        | true ↦ read_blocks fuel n (take_block (λ _. 0) d t)
        | false ↦ do
          (c, found) ← bread io fuel d.inode.i_dev nr d.cache
          elim found [
            | none ↦ ok (record t { disk = record d { cache = c } })
            | some b ↦ do
              released ← brelse io fuel b c
              read_blocks fuel n (take_block (c.b_data b) (record d { cache = released }) t)
          ]
      ]
  ]

  -- The result is the disk, the file position, the buffer and the value.
  unfoldable pub file_read : ℕ → ℤ → ℕ → (ℕ → ℕ) → Disk → Run (Disk × ℕ × (ℕ → ℕ) × ℤ)
  file_read fuel count f_pos buf d =
      let n = pos_part count in
      if n == 0 then ok (d, f_pos, buf, pos 0) else (do
        t ←
            read_blocks fuel (suc n)
              (record { disk = d; f_pos = f_pos; at = 0; left = n; buf = buf })
        let read : Disk = record (t.disk) { inode = record (t.disk.inode) { i_atime = now } }
        ok (read, t.f_pos, t.buf, if t.at == 0 then negsuc 98 else pos t.at))

  unfoldable pub write_blocks : ℕ → ℕ → Transfer → Run Transfer
  write_blocks fuel zero t = out_of_fuel
  write_blocks fuel (suc n) t = elim (t.left == 0) [
    | true ↦ ok t
    | false ↦ do
      (d, block) ← create_block io sb now fuel (pos (t.f_pos / 1024)) t.disk
      elim (block == 0) [
        | true ↦ ok (record t { disk = d })
        | false ↦ do
          (c, found) ← bread io fuel d.inode.i_dev block d.cache
          elim found [
            | none ↦ ok (record t { disk = record d { cache = c } })
            | some b ↦ do
              let put : Transfer = put_block b (record d { cache = c }) t
              released ← brelse io fuel b put.disk.cache
              write_blocks fuel n (record put { disk = record (put.disk) { cache = released } })
          ]
      ]
  ]

  -- `append` is the flag O_APPEND of the file.
  unfoldable pub file_write : ℕ → Bool → ℤ → ℕ → (ℕ → ℕ) → Disk → Run (Disk × ℕ × ℤ)
  file_write fuel append count f_pos buf d = do
    t ← write_blocks fuel (suc (pos_part count)) (record {
      disk = d;
      f_pos = if append then d.inode.i_size else f_pos;
      at = 0;
      left = pos_part count;
      buf = buf;
    })
    let inode : Inode = record (t.disk.inode) { i_mtime = now }
    let written : Inode = if append then inode else record inode { i_ctime = now }
    ok (
      record (t.disk) { inode = written },
      if append then f_pos else t.f_pos,
      if t.at == 0 then negsuc 0 else pos t.at,
    )
