-- ===== src/Directory/Entries.antt =====
-- fs/namei.c: `find_entry`, `add_entry` and `empty_dir`. `get_super` is called once before
-- `create_block`.
use linux_0_11_comments.Bmap.{map_block}
use linux_0_11_comments.Inodes.Format.{half_at}
use linux_0_11_comments.Bitmap.{set_dirt, set_data, SuperBlock}
use linux_0_11_comments.Kernel.{Task}
use linux_0_11_comments.Directory.{
  is_root, starts_with_dots, put_entry_inode, is_dotdot, match, cut_length, put_entry_name,
}
use linux_0_11_comments.Inodes.{root_ino, count_up, get_super, node, set_node, Fs}
use linux_0_11_comments.Cache.{brelse, bread, Io}
use linux_0_11_comments.Inodes.Table.{maps_of, on_cache, iput}
use linux_0_11_comments.Common.{
  ltb, ◌==◌, if◌then◌else◌, is_some, ℤ, pos, Run, ◌>>=◌, null_buffer, ok, panic, out_of_fuel, ℕ,
  zero, suc, ◌+◌, ◌*◌, ◌/◌, Bool, true, false, ◌&&◌, ◌||◌, not, Option, none, some,
}

module _ (io : Io) (away : Fs → Fs) (now : ℤ) where
  -- brelse; the null pointer is no buffer
  abbrev pub release_buffer : ℕ → Option ℕ → Fs → Run Fs
  release_buffer fuel none f = ok f
  release_buffer fuel (some b) f = on_cache (brelse io fuel b) f

  abbrev pub read_block : ℕ → ℕ → ℕ → Fs → Run (Fs × Option ℕ)
  read_block fuel dir block f = do
    (c, found) ← bread io fuel (node dir f).i_dev block f.cache
    ok (record f { cache = c }, found)

  -- bmap or create_block, for the block of entry `i`
  abbrev pub map_entry : ℕ → Bool → Option SuperBlock → ℕ → ℕ → Fs → Run (Fs × ℕ)
  map_entry fuel create sb dir i f = do
    (d, block) ←
        map_block io sb now fuel (pos (i / 64)) create
          (record { inode = node dir f; cache = f.cache })
    ok (set_node dir d.inode (record f { cache = d.cache }), block)

  -- In find_entry, the buffer that entry `i` is in: the one at hand, or that of the next block
  unfoldable pub next_buffer : ℕ → ℕ → ℕ → Option ℕ → ℕ → Fs → Run (Fs × Option ℕ × ℕ)
  next_buffer fuel dir i bh a f = if is_some bh && ltb a 1024 then ok (f, bh, a) else (do
    f ← release_buffer fuel bh f
    (f, block) ← map_entry fuel false none dir i f
    if block == 0
        then ok (f, none, 0)
        else (do (f, bh) ← read_block fuel dir block f; ok (f, bh, 0)))

  -- The loop of find_entry from entry `i` on, at byte `a` of the buffer: the buffer and the byte
  unfoldable pub search_entries :
      ℕ → ℕ → ℕ → (ℕ → ℕ) → ℕ → ℕ → ℕ → Option ℕ → ℕ → Fs → Run (Fs × Option (ℕ × ℕ))
  search_entries fuel dir len name entries zero i bh a f = out_of_fuel
  search_entries fuel dir len name entries (suc n) i bh a f = elim (ltb i entries) [
    | false ↦ release_buffer fuel bh f >>= λ f. ok (f, none)
    | true ↦ do
      (f, bh, a) ← next_buffer fuel dir i bh a f
      elim bh [
        | none ↦ search_entries fuel dir len name entries n (i + 64) none 0 f
        | some b ↦ elim (match len name (f.cache.b_data b) a) [
          | true ↦ ok (f, some (b, a))
          | false ↦ search_entries fuel dir len name entries n (i + 1) (some b) (a + 16) f
        ]
      ]
  ]

  -- '..' in the root of a file system that is mounted: the directory it is mounted on
  unfoldable pub leave_mount : ℕ → ℕ → Fs → Run (Fs × ℕ)
  leave_mount fuel dir f = do
    (f, s) ← get_super away fuel (node dir f).i_dev f
    elim s [
      | none ↦ panic null_buffer
      | some s ↦ if not (is_some (f.super_block s).s_imount) then ok (f, dir) else (do
        f ← iput io away now fuel (some dir) f
        elim ((f.super_block s).s_imount) [
          | none ↦ panic null_buffer
          | some mount ↦ ok (count_up mount f, mount)
        ])
    ]

  -- The special cases of '..': the directory and the length of the name to look for
  unfoldable pub resolve_dotdot : ℕ → Task → ℕ → ℕ → (ℕ → ℕ) → Fs → Run (Fs × ℕ × ℕ)
  resolve_dotdot fuel current dir len name f =
      if not (is_dotdot len name)
      then ok (f, dir, len)
      else if is_root current.root dir
      then ok (f, dir, 1)
      else if (node dir f).i_num == root_ino
      then (leave_mount fuel dir f >>= λ r. ok (r.0, r.1, len))
      else ok (f, dir, len)

  -- The directory that was searched, and the entry; each round of the loop goes on by one entry.
  unfoldable pub find_entry : ℕ → Task → ℕ → (ℕ → ℕ) → ℕ → Fs → Run (Fs × ℕ × Option (ℕ × ℕ))
  find_entry fuel current dir name namelen f =
      let entries = (node dir f).i_size / 16 in
      if namelen == 0 then ok (f, dir, none) else (do
        (f, dir, len) ← resolve_dotdot fuel current dir (cut_length namelen) name f
        if (node dir f).i_zone 0 == 0 then ok (f, dir, none) else (do
          (f, bh) ← read_block fuel dir ((node dir f).i_zone 0) f
          elim bh [
            | none ↦ ok (f, dir, none)
            | some b ↦ do
              (f, entry) ← search_entries fuel dir len name entries (entries + 1) 0 (some b) 0 f
              ok (f, dir, entry)
          ]))

  -- A free entry is filled in, with the number of its inode left at 0.
  abbrev pub fill_entry : ℕ → ℕ → (ℕ → ℕ) → ℕ → ℕ → Fs → Fs
  fill_entry dir len name b a f =
      let f = set_node dir (record (node dir f) { i_mtime = now }) f in
      let bytes = put_entry_name len name a (f.cache.b_data b) in
      record f { cache = set_dirt b (set_data b bytes f.cache) }

  -- Behind the last entry the directory grows by entry `i`.
  abbrev pub grow : ℕ → ℕ → ℕ → ℕ → Fs → Fs
  grow dir i b a f =
      if ltb (i * 16) (node dir f).i_size
      then f
      else set_node dir
          (record (node dir f) { i_size = (i + 1) * 16; i_dirt = true; i_ctime = now })
          (record f { cache = set_data b (put_entry_inode 0 a (f.cache.b_data b)) f.cache })

  -- In add_entry, the buffer that entry `i` is in: `inl` if there can be none
  unfoldable pub make_buffer : ℕ → ℕ → ℕ → Option ℕ → ℕ → Fs → Run (Fs × Bool × Option ℕ × ℕ)
  make_buffer fuel dir i bh a f = if is_some bh && ltb a 1024 then ok (f, true, bh, a) else (do
    f ← release_buffer fuel bh f
    (f, s) ← get_super away fuel (node dir f).i_dev f
    (f, block) ← map_entry fuel true (maps_of s f) dir i f
    if block == 0
        then ok (f, false, none, 0)
        else (do (f, bh) ← read_block fuel dir block f; ok (f, true, bh, 0)))

  -- The loop of add_entry from entry `i` on
  unfoldable pub search_free :
      ℕ → ℕ → ℕ → (ℕ → ℕ) → ℕ → ℕ → Option ℕ → ℕ → Fs → Run (Fs × Option (ℕ × ℕ))
  search_free fuel dir len name zero i bh a f = out_of_fuel
  search_free fuel dir len name (suc n) i bh a f = do
    (f, room, bh, a) ← make_buffer fuel dir i bh a f
    elim room [
      | false ↦ ok (f, none)
      | true ↦ elim bh [
        | none ↦ search_free fuel dir len name n (i + 64) none 0 f
        | some b ↦
            let f = grow dir i b a f in
            elim (half_at a (f.cache.b_data b) == 0) [
              | true ↦ ok (fill_entry dir len name b a f, some (b, a))
              | false ↦ search_free fuel dir len name n (i + 1) (some b) (a + 16) f
            ]
      ]
    ]

  -- `n` rounds of the loop are allowed.
  unfoldable pub add_entry : ℕ → ℕ → ℕ → (ℕ → ℕ) → ℕ → Fs → Run (Fs × Option (ℕ × ℕ))
  add_entry fuel n dir name namelen f =
      if namelen == 0 || (node dir f).i_zone 0 == 0 then ok (f, none) else (do
        (f, bh) ← read_block fuel dir ((node dir f).i_zone 0) f
        elim bh [
          | none ↦ ok (f, none)
          | some b ↦ search_free fuel dir (cut_length namelen) name n 0 (some b) 0 f
        ])

  -- The loop of empty_dir from entry `i` on. When a block is not there the buffer was released, and is
  -- released again in the next round.
  unfoldable pub check_entries : ℕ → ℕ → ℕ → ℕ → ℕ → ℕ → ℕ → Fs → Run (Fs × Bool)
  check_entries fuel dir len zero i b a f = out_of_fuel
  check_entries fuel dir len (suc n) i b a f = elim (ltb i len) [
    | false ↦ release_buffer fuel (some b) f >>= λ f. ok (f, true)
    | true ↦ elim (ltb a 1024) [
      | true ↦ elim (half_at a (f.cache.b_data b) == 0) [
        | false ↦ release_buffer fuel (some b) f >>= λ f. ok (f, false)
        | true ↦ check_entries fuel dir len n (i + 1) b (a + 16) f
      ]
      | false ↦ do
        f ← release_buffer fuel (some b) f
        (f, block) ← map_entry fuel false none dir i f
        elim (block == 0) [
          | true ↦ check_entries fuel dir len n (i + 64) b a f
          | false ↦ do
            (f, bh) ← read_block fuel dir block f
            elim bh [
              | none ↦ ok (f, false)
              | some b ↦ elim (half_at 0 (f.cache.b_data b) == 0) [
                | false ↦ release_buffer fuel (some b) f >>= λ f. ok (f, false)
                | true ↦ check_entries fuel dir len n (i + 1) b 16 f
              ]
            ]
        ]
    ]
  ]

  -- A directory without its first two entries is not empty; its buffer is not released.
  unfoldable pub empty_dir : ℕ → ℕ → Fs → Run (Fs × Bool)
  empty_dir fuel dir f =
      let len = (node dir f).i_size / 16 in
      if ltb len 2 || (node dir f).i_zone 0 == 0 then ok (f, false) else (do
        (f, bh) ← read_block fuel dir ((node dir f).i_zone 0) f
        elim bh [
          | none ↦ ok (f, false)
          | some b ↦
              let block = f.cache.b_data b in
              if not (half_at 0 block == (node dir f).i_num)
                || half_at 16 block == 0
                || not (starts_with_dots block)
              then ok (f, false)
              else check_entries fuel dir len (len + 1) 2 b 32 f
        ])
