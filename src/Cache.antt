-- ===== src/Cache.antt =====
-- fs/buffer.c: the buffer cache.
--
-- A buffer is its number from `start_buffer` on, and its head is the one that Block uses. The hash
-- queues and the free list, doubly linked in C, are lists: the free list from `free_list` on. A
-- write through the NULL `b_next` of an empty hash queue is not modelled. The other parts that the
-- cache calls are the fields of `Io`: what other tasks do while the code sleeps, `ll_rw_block` of
-- kernel/blk_drv/ll_rw_blk.c (`block_io` takes it from Block), and `sync_inodes` of fs/inode.c.
-- Loops that wait for others run on fuel.
pub mod Queues
pub mod Coherence
pub mod Getblk
mod Tests
use linux_0_11_comments.Common.{
  ltb, ◌==◌, if◌then◌else◌, is_some, update, ℤ, pos, Run, ◌>>=◌, free_free_buffer, ok, panic,
  out_of_fuel, ℕ, zero, suc, ◌+◌, ◌-◌, ◌%◌, bit_xor, Bool, true, false, ◌&&◌, ◌||◌, not, Option,
  none, some, List, [], ◌∷◌, ◌++◌, ◌>>◌,
}
use linux_0_11_comments.Block.{ll_rw_block, reada, write, read, Requests, Buffer, set_buffer}

pub record Cache : Type 0 where
  pub requests : Requests
  pub b_count : ℕ → ℕ
  pub b_data : ℕ → ℕ → ℕ
  pub hash : ℕ → List ℕ
  pub free : List ℕ
  pub nr_buffers : ℕ

pub record Io : Type 0 where
  pub away : Cache → Cache
  pub rw_block : ℕ → ℕ → Cache → Run Cache
  pub sync_inodes : Cache → Run Cache

abbrev pub head : ℕ → Cache → Buffer
head b c = c.requests.buffer b

abbrev pub set_head : ℕ → (Buffer → Buffer) → Cache → Cache
set_head b f c = record c { requests = set_buffer b f c.requests }

abbrev pub set_count : ℕ → ℕ → Cache → Cache
set_count b n c = record c { b_count = update c.b_count b n }

abbrev pub nr_hash : ℕ
nr_hash = 307

-- _hashfn(dev,block)
abbrev pub hashfn : ℕ → ℕ → ℕ
hashfn dev block = bit_xor dev block % nr_hash

abbrev pub key : ℕ → Cache → ℕ
key b c = hashfn (head b c).b_dev (head b c).b_blocknr

-- A list without a buffer.
unfoldable pub erase : ℕ → List ℕ → List ℕ
erase x [] = []
erase x (y ∷ ys) = let rest = erase x ys in if x == y then rest else y ∷ rest

unfoldable pub remove_from_queues : ℕ → Cache → Cache
remove_from_queues b c = record c {
  hash = update c.hash (key b c) (erase b (c.hash (key b c)));
  free = erase b c.free;
}

unfoldable pub insert_into_queues : ℕ → Cache → Cache
insert_into_queues b c = record c {
  free = c.free ++ b ∷ [];
  hash = if (head b c).b_dev == 0 then c.hash else update c.hash (key b c) (b ∷ c.hash (key b c));
}

abbrev pub holds : ℕ → ℕ → Cache → ℕ → Bool
holds dev block c b = (head b c).b_dev == dev && (head b c).b_blocknr == block

unfoldable pub find_in : ℕ → ℕ → Cache → List ℕ → Option ℕ
find_in dev block c [] = none
find_in dev block c (b ∷ bs) =
    let rest = find_in dev block c bs in if holds dev block c b then some b else rest

abbrev pub find_buffer : ℕ → ℕ → Cache → Option ℕ
find_buffer dev block c = find_in dev block c (c.hash (hashfn dev block))

-- BADNESS(bh)
abbrev pub badness : Cache → ℕ → ℕ
badness c b = (if (head b c).b_dirt then 2 else 0) + (if (head b c).b_lock then 1 else 0)

abbrev pub is_better : Cache → ℕ → Option ℕ → Bool
is_better c b none = true
is_better c b (some a) = ltb (badness c b) (badness c a)

-- The search of getblk along the free list, with the best buffer so far.
unfoldable pub find_unused : Cache → List ℕ → Option ℕ → Option ℕ
find_unused c [] best = best
find_unused c (b ∷ bs) best =
    let skip = find_unused c bs best in
    let take = find_unused c bs (some b) in
    let better = is_better c b best in
    if not (c.b_count b == 0)
    then skip
    else if not better
    then skip
    else if badness c b == 0
    then some b
    else take

-- ll_rw_block, for other tasks that change only the requests and the heads of the buffers.
abbrev pub block_io : ℕ → (Requests → Requests) → Io
block_io fuel away = record {
  away = λ c. record c { requests = away c.requests };
  rw_block =
      λ cmd b c. ll_rw_block away fuel cmd b c.requests >>= λ s. ok (record c { requests = s });
  sync_inodes = ok;
}

module _ (io : Io) where
  unfoldable pub wait_on_buffer : ℕ → ℕ → Cache → Run Cache
  wait_on_buffer zero b c = out_of_fuel
  wait_on_buffer (suc fuel) b c = elim ((head b c).b_lock) [
    | false ↦ ok c
    | true ↦ wait_on_buffer fuel b (io.away c)
  ]

  -- The loop over the buffers i, i + 1, ... that writes the dirty ones of the devices with `p`.
  unfoldable pub write_dirty : ℕ → (ℕ → Bool) → ℕ → ℕ → Cache → Run Cache
  write_dirty fuel p zero i c = ok c
  write_dirty fuel p (suc n) i c = do
    c ← if not (p (head i c).b_dev) then ok c else (do
      c ← wait_on_buffer fuel i c
      if p (head i c).b_dev && (head i c).b_dirt then io.rw_block write i c else ok c)
    write_dirty fuel p n (i + 1) c

  unfoldable pub sys_sync : ℕ → Cache → Run (Cache × ℤ)
  sys_sync fuel c = do
    c ← io.sync_inodes c
    c ← write_dirty fuel (λ _. true) c.nr_buffers 0 c
    ok (c, pos 0)

  unfoldable pub sync_dev : ℕ → ℕ → Cache → Run Cache
  sync_dev fuel dev c = do
    c ← write_dirty fuel (λ d. d == dev) c.nr_buffers 0 c
    c ← io.sync_inodes c
    write_dirty fuel (λ d. d == dev) c.nr_buffers 0 c

  -- The loop of invalidate_buffers over the buffers i, i + 1, ...
  unfoldable pub invalidate_from : ℕ → ℕ → ℕ → ℕ → Cache → Run Cache
  invalidate_from fuel dev zero i c = ok c
  invalidate_from fuel dev (suc n) i c = do
    c ← if not ((head i c).b_dev == dev) then ok c else (do
      c ← wait_on_buffer fuel i c
      ok (
          if (head i c).b_dev == dev
          then set_head i (λ bh. record bh { b_uptodate = false; b_dirt = false }) c
          else c))
    invalidate_from fuel dev n (i + 1) c

  abbrev pub invalidate_buffers : ℕ → ℕ → Cache → Run Cache
  invalidate_buffers fuel dev c = invalidate_from fuel dev c.nr_buffers 0 c

  unfoldable pub get_hash_table : ℕ → ℕ → ℕ → Cache → Run (Cache × Option ℕ)
  get_hash_table zero dev block c = out_of_fuel
  get_hash_table (suc fuel) dev block c = elim (find_buffer dev block c) [
    | none ↦ ok (c, none)
    | some b ↦ do
      c ← wait_on_buffer (suc fuel) b (set_count b ((c.b_count b + 1) % 256) c)
      elim (holds dev block c b) [
        | true ↦ ok (c, some b)
        | false ↦ get_hash_table fuel dev block (set_count b ((c.b_count b + 255) % 256) c)
      ]
  ]

  -- while (bh->b_dirt): is the buffer still unused when it is clean?
  unfoldable pub clean : ℕ → ℕ → Cache → Run (Cache × Bool)
  clean zero b c = out_of_fuel
  clean (suc fuel) b c = elim ((head b c).b_dirt) [
    | false ↦ ok (c, true)
    | true ↦ do
      c ← sync_dev (suc fuel) (head b c).b_dev c
      c ← wait_on_buffer (suc fuel) b c
      elim (c.b_count b == 0) [ false ↦ ok (c, false) | true ↦ clean fuel b c ]
  ]

  -- The end of getblk: the buffer gets a new block.
  abbrev pub take_over : ℕ → ℕ → ℕ → Cache → Cache
  take_over b dev block c =
      let c =
        set_head b (λ bh. record bh { b_dirt = false; b_uptodate = false }) (set_count b 1 c) in
      let c = remove_from_queues b c in
      insert_into_queues b (set_head b (λ bh. record bh { b_dev = dev; b_blocknr = block }) c)

  unfoldable pub getblk : ℕ → ℕ → ℕ → Cache → Run (Cache × ℕ)
  getblk zero dev block c = out_of_fuel
  getblk (suc fuel) dev block c = do
    (c, found) ← get_hash_table (suc fuel) dev block c
    elim found [
      | some b ↦ ok (c, b)
      | none ↦ elim (find_unused c c.free none) [
        | none ↦ getblk fuel dev block (io.away c)
        | some b ↦ do
          c ← wait_on_buffer (suc fuel) b c
          (c, unused) ← if c.b_count b == 0 then clean (suc fuel) b c else ok (c, false)
          elim (unused && not (is_some (find_buffer dev block c))) [
            | false ↦ getblk fuel dev block c
            | true ↦ ok (take_over b dev block c, b)
          ]
      ]
    ]

  unfoldable pub brelse : ℕ → ℕ → Cache → Run Cache
  brelse fuel b c = do
    c ← wait_on_buffer fuel b c
    if c.b_count b == 0 then panic free_free_buffer else ok (set_count b (c.b_count b - 1) c)

  unfoldable pub bread : ℕ → ℕ → ℕ → Cache → Run (Cache × Option ℕ)
  bread fuel dev block c = do
    (c, b) ← getblk fuel dev block c
    if (head b c).b_uptodate then ok (c, some b) else (do
      c ← io.rw_block read b c
      c ← wait_on_buffer fuel b c
      if (head b c).b_uptodate then ok (c, some b) else (do c ← brelse fuel b c; ok (c, none)))

  -- The loop of breada over the other blocks, for the buffer `bh` of the first one.
  unfoldable pub read_ahead : ℕ → ℕ → ℕ → List ℕ → Cache → Run Cache
  read_ahead fuel dev bh [] c = ok c
  read_ahead fuel dev bh (block ∷ blocks) c = do
    (c, tmp) ← getblk fuel dev block c
    c ← if (head tmp c).b_uptodate then ok c else io.rw_block reada bh c
    read_ahead fuel dev bh blocks (set_count tmp ((c.b_count tmp + 255) % 256) c)

  unfoldable pub breada : ℕ → ℕ → ℕ → List ℕ → Cache → Run (Cache × Option ℕ)
  breada fuel dev first blocks c = do
    (c, bh) ← getblk fuel dev first c
    c ← if (head bh c).b_uptodate then ok c else io.rw_block read bh c
    c ← read_ahead fuel dev bh blocks c
    c ← wait_on_buffer fuel bh c
    if (head bh c).b_uptodate then ok (c, some bh) else (do c ← brelse fuel bh c; ok (c, none))
