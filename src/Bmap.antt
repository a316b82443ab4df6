-- ===== src/Bmap.antt =====
-- fs/inode.c: the zones of the blocks of a file (`_bmap`, `bmap`, `create_block`); fs/truncate.c.
--
-- The inode is passed and returned; what others do to it while the code sleeps is not modelled. An
-- index block is read as 512 words of two bytes. `sb` is the super block of the inode's device, and
-- `now` the time. The functions take from Bitmap and Cache, with their fuel.
pub mod Direct
pub mod Access
mod Tests
use linux_0_11_comments.Bitmap.{set_data, set_dirt, new_block, free_block, SuperBlock, Inode}
use linux_0_11_comments.Common.{
  ltb, leb, ◌==◌, if◌then◌else◌, update, ℤ, pos_part, ltb_ℤ, pos, Run, ◌>>=◌, bad_file_block, ok,
  panic, ℕ, zero, suc, ◌+◌, ◌-◌, ◌*◌, ◌/◌, ◌%◌, Bool, true, false, ◌&&◌, ◌||◌, not, Option, none,
  some, ◌>>◌,
}
use linux_0_11_comments.Cache.{brelse, bread, Io, Cache}

-- An inode and the cache
pub record Disk : Type 0 where
  pub inode : Inode
  pub cache : Cache

-- Word `k` of a block
abbrev pub word_at : ℕ → (ℕ → ℕ) → ℕ
word_at k block = block (2 * k) + 256 * block (2 * k + 1)

abbrev pub set_word : ℕ → ℕ → (ℕ → ℕ) → ℕ → ℕ
set_word k w block = update (update block (2 * k) (w % 256)) (2 * k + 1) (w / 256 % 256)

module _ (io : Io) (sb : Option SuperBlock) (now : ℤ) where
  -- Zone number `n` of the inode, which is made if it is wanted and not there
  unfoldable pub make_zone : ℕ → Bool → ℕ → Disk → Run Disk
  make_zone fuel create n d =
      if create && d.inode.i_zone n == 0
      then (do
        (c, z) ← new_block io fuel sb d.inode.i_dev d.cache
        let zone : ℕ = z % 65536
        let with_zone : Inode = record (d.inode) { i_zone = update d.inode.i_zone n zone }
        ok (record {
          inode =
              if zone == 0 then with_zone else record with_zone { i_ctime = now; i_dirt = true };
          cache = c;
        }))
      else ok d

  -- Word `k` of the index block in the buffer `b`, likewise; then the buffer is released.
  unfoldable pub make_entry : ℕ → Bool → ℕ → ℕ → ℕ → Cache → Run (Cache × ℕ)
  make_entry fuel create dev b k c = do
    (c, i) ←
        if create && word_at k (c.b_data b) == 0
        then (do
          (c, z) ← new_block io fuel sb dev c
          ok (
              if z == 0
              then (c, 0)
              else (set_dirt b (set_data b (set_word k z (c.b_data b)) c), z)))
        else ok (c, word_at k (c.b_data b))
    c ← brelse io fuel b c
    ok (c, i)

  -- Word `k` of the index block `zone`, 0 if the block cannot be read
  unfoldable pub index_entry : ℕ → Bool → ℕ → ℕ → ℕ → Cache → Run (Cache × ℕ)
  index_entry fuel create dev zone k c = do
    (c, found) ← bread io fuel dev zone c
    elim found [ none ↦ ok (c, 0) | some b ↦ make_entry fuel create dev b k c ]

  -- The blocks of the index block in zone 7
  unfoldable pub single_indirect : ℕ → Bool → ℕ → Disk → Run (Disk × ℕ)
  single_indirect fuel create block d = do
    d ← make_zone fuel create 7 d
    if d.inode.i_zone 7 == 0 then ok (d, 0) else (do
      (c, i) ← index_entry fuel create d.inode.i_dev (d.inode.i_zone 7) block d.cache
      ok (record d { cache = c }, i))

  -- The blocks of the index blocks of the one in zone 8
  unfoldable pub double_indirect : ℕ → Bool → ℕ → Disk → Run (Disk × ℕ)
  double_indirect fuel create block d = do
    d ← make_zone fuel create 8 d
    if d.inode.i_zone 8 == 0 then ok (d, 0) else (do
      let dev : ℕ = d.inode.i_dev
      (c, i) ← index_entry fuel create dev (d.inode.i_zone 8) (block / 512) d.cache
      if i == 0 then ok (record d { cache = c }, 0) else (do
        (c, j) ← index_entry fuel create dev i (block % 512) c
        ok (record d { cache = c }, j)))

  unfoldable pub map_block : ℕ → ℤ → Bool → Disk → Run (Disk × ℕ)
  map_block fuel block create d =
      let nr = pos_part block in
      if ltb_ℤ block (pos 0) || leb (7 + 512 + 512 * 512) nr
      then panic bad_file_block
      else if ltb nr 7
      then (do d ← make_zone fuel create nr d; ok (d, d.inode.i_zone nr))
      else if ltb (nr - 7) 512
      then single_indirect fuel create (nr - 7) d
      else double_indirect fuel create (nr - 7 - 512) d

  unfoldable pub bmap : ℕ → ℤ → Disk → Run (Disk × ℕ)
  bmap fuel block d = map_block fuel block false d

  unfoldable pub create_block : ℕ → ℤ → Disk → Run (Disk × ℕ)
  create_block fuel block d = map_block fuel block true d

  -- The loop of free_ind over the words k, k + 1, ... of the buffer `b`
  unfoldable pub free_words : ℕ → (ℕ → Cache → Run Cache) → ℕ → ℕ → ℕ → Cache → Run Cache
  free_words fuel release b zero k c = ok c
  free_words fuel release b (suc n) k c = do
    c ← if word_at k (c.b_data b) == 0 then ok c else release (word_at k (c.b_data b)) c
    free_words fuel release b n (k + 1) c

  -- An index block whose entries are released by `release`, then the block itself
  unfoldable pub free_index : ℕ → (ℕ → Cache → Run Cache) → ℕ → ℕ → Cache → Run Cache
  free_index fuel release dev block c = if block == 0 then ok c else (do
    (c, found) ← bread io fuel dev block c
    c ← elim found [
      | none ↦ ok c
      | some b ↦ free_words fuel release b 512 0 c >>= λ c. brelse io fuel b c
    ]
    free_block io fuel sb dev block c)

  abbrev pub free_ind : ℕ → ℕ → ℕ → Cache → Run Cache
  free_ind fuel dev = free_index fuel (free_block io fuel sb dev) dev

  abbrev pub free_dind : ℕ → ℕ → ℕ → Cache → Run Cache
  free_dind fuel dev = free_index fuel (free_ind fuel dev) dev

  -- The loop of truncate over the direct zones n, n + 1, ...
  unfoldable pub free_direct : ℕ → ℕ → ℕ → Disk → Run Disk
  free_direct fuel zero n d = ok d
  free_direct fuel (suc m) n d = do
    d ← if d.inode.i_zone n == 0 then ok d else (do
      c ← free_block io fuel sb d.inode.i_dev (d.inode.i_zone n) d.cache
      ok (record { inode = record (d.inode) { i_zone = update d.inode.i_zone n 0 }; cache = c }))
    free_direct fuel m (n + 1) d

  -- S_ISREG(m) || S_ISDIR(m)
  abbrev pub is_file_or_dir : ℕ → Bool
  is_file_or_dir mode = mode / 4096 % 16 == 8 || mode / 4096 % 16 == 4

  unfoldable pub truncate : ℕ → Disk → Run Disk
  truncate fuel d = if not (is_file_or_dir d.inode.i_mode) then ok d else (do
    d ← free_direct fuel 7 0 d
    c ← free_ind fuel d.inode.i_dev (d.inode.i_zone 7) d.cache
    c ← free_dind fuel d.inode.i_dev (d.inode.i_zone 8) c
    ok (record {
      inode = record (d.inode) {
        i_zone = update (update d.inode.i_zone 8 0) 7 0;
        i_size = 0;
        i_dirt = true;
        i_mtime = now;
        i_ctime = now;
      };
      cache = c;
    }))
