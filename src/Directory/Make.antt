-- ===== src/Directory/Make.antt =====
-- fs/namei.c: `sys_mknod`, `sys_mkdir` and `sys_link`, which make entries of directories. As in
-- open_namei, add_entry is allowed `rounds` rounds.
use linux_0_11_comments.Directory.Open.{make_inode, may_write}
use linux_0_11_comments.Directory.Path.{is_directory, byte_at, namei, dir_namei}
use linux_0_11_comments.Directory.Entries.{find_entry, read_block, release_buffer, add_entry}
use linux_0_11_comments.Bitmap.{set_data, free_block, set_dirt, new_block}
use linux_0_11_comments.Directory.{permission, Task, put_entry_inode}
use linux_0_11_comments.Cache.{Io}
use linux_0_11_comments.Inodes.{node, get_super, set_node, Fs}
use linux_0_11_comments.Inodes.Table.{maps_of, on_cache, iput}
use linux_0_11_comments.Common.{
  ◌==◌, if◌then◌else◌, update, ℤ, neg, pos, Run, ◌>>=◌, ok, length, ℕ, ◌+◌, ◌-◌, ◌/◌, ◌%◌, bit_and,
  Bool, true, ◌||◌, not, none, some, List, [], ◌∷◌,
}

-- S_ISBLK(mode) || S_ISCHR(mode)
abbrev pub is_device : ℕ → Bool
is_device mode = mode / 4096 % 16 == 6 || mode / 4096 % 16 == 2

-- The entries '.' and '..' of a new directory
unfoldable pub put_dots : ℕ → ℕ → (ℕ → ℕ) → ℕ → ℕ
put_dots nr parent block =
    let first = update (update (put_entry_inode nr 0 block) 2 b'.') 3 0 in
    update (update (update (put_entry_inode parent 16 first) 18 b'.') 19 b'.') 20 0

abbrev pub set_nlinks : ℕ → ℕ → Fs → Fs
set_nlinks i n f = set_node i (record (node i f) { i_nlinks = n % 256 }) f

-- de->inode = nr; bh->b_dirt = 1
abbrev pub point_entry : ℕ × ℕ → ℕ → Fs → Fs
point_entry (b, a) nr f = record f {
  cache = set_dirt b (set_data b (put_entry_inode nr a (f.cache.b_data b)) f.cache);
}

module _ (io : Io) (away : Fs → Fs) (now : ℤ) where
  -- An error, when the inodes were put back in this order
  unfoldable pub abandon : ℕ → ℕ → List ℕ → Fs → Run (Fs × ℤ)
  abandon fuel errno [] f = ok (f, neg errno)
  abandon fuel errno (i ∷ is) f = iput io away now fuel (some i) f >>= λ f. abandon fuel errno is f

  -- The same behind brelse
  abbrev pub abandon_entry : ℕ → ℕ → ℕ → List ℕ → Fs → Run (Fs × ℤ)
  abandon_entry fuel errno b is f =
      release_buffer io away now fuel (some b) f >>= λ f. abandon fuel errno is f

  -- new_block and free_block, with get_super
  abbrev pub new_zone : ℕ → ℕ → Fs → Run (Fs × ℕ)
  new_zone fuel dev f = do
    (f, s) ← get_super away fuel dev f
    (c, zone) ← new_block io fuel (maps_of s f) dev f.cache
    ok (record f { cache = c }, zone)

  abbrev pub free_zone : ℕ → ℕ → ℕ → Fs → Run Fs
  free_zone fuel dev zone f = do
    (f, s) ← get_super away fuel dev f
    on_cache (free_block io fuel (maps_of s f) dev zone) f

  -- The parts of mknod and mkdir up to the new inode: `make` goes on with the directory, the name and
  -- the inode.
  unfoldable pub with_new_inode :
      ℕ → Task → List ℕ → (ℕ → List ℕ → ℕ → Fs → Run (Fs × ℤ)) → Fs → Run (Fs × ℤ)
  with_new_inode fuel current path make f = if not (current.euid == 0) then ok (f, neg 1) else (do
    (f, found) ← dir_namei io away now fuel current path f
    elim found [
      | none ↦ ok (f, neg 2)
      | some (dir, name) ↦
          if length name == 0
          then abandon fuel 2 (dir ∷ []) f
          else if not (permission current (node dir f) may_write)
          then abandon fuel 1 (dir ∷ []) f
          else (do
            (f, dir, entry) ← find_entry io away now fuel current dir (byte_at name) (length name) f
            elim entry [
              | some (b, a) ↦ abandon_entry fuel 17 b (dir ∷ []) f
              | none ↦ do
                (f, new) ← make_inode io away now fuel current (node dir f).i_dev f
                elim new [ none ↦ abandon fuel 28 (dir ∷ []) f | some i ↦ make dir name i f ]
            ])
    ])

  -- The end of mknod and mkdir: the entry points to the inode.
  abbrev pub finish_entry : ℕ → ℕ × ℕ → ℕ → ℕ → Fs → Run (Fs × ℤ)
  finish_entry fuel (b, a) dir i f = do
    f ← iput io away now fuel (some dir) f
    f ← iput io away now fuel (some i) f
    f ← release_buffer io away now fuel (some b) f
    ok (f, pos 0)

  unfoldable pub sys_mknod : ℕ → ℕ → Task → List ℕ → ℕ → ℕ → Fs → Run (Fs × ℤ)
  sys_mknod fuel rounds current path mode dev f =
      with_new_inode fuel current path
        (λ dir name i f. do
          let zone : ℕ → ℕ =
              if is_device mode then update (node i f).i_zone 0 (dev % 65536) else (node i f).i_zone
          let f : Fs =
              set_node i
                (record (node i f) {
                  i_mode = mode % 65536;
                  i_zone = zone;
                  i_mtime = now;
                  i_atime = now;
                  i_dirt = true;
                })
                f
          (f, entry) ← add_entry io away now fuel rounds dir (byte_at name) (length name) f
          elim entry [
            | none ↦ do
              f ← iput io away now fuel (some dir) f
              abandon fuel 28 (i ∷ []) (set_nlinks i 0 f)
            | some e ↦ finish_entry fuel e dir i (point_entry e (node i f).i_num f)
          ])
        f

  -- mkdir, when the new directory has its block, in the buffer `b`
  unfoldable pub fill_directory : ℕ → ℕ → Task → ℕ → ℕ → List ℕ → ℕ → ℕ → Fs → Run (Fs × ℤ)
  fill_directory fuel rounds current mode dir name i b f = do
    let dots : ℕ → ℕ = put_dots (node i f).i_num (node dir f).i_num (f.cache.b_data b)
    f ←
        release_buffer io away now fuel (some b)
          (record (set_nlinks i 2 f) { cache = set_dirt b (set_data b dots f.cache) })
    let allowed : ℕ = bit_and mode (511 - bit_and current.umask 511)
    let f : Fs = set_node i (record (node i f) { i_mode = 0x4000 + allowed; i_dirt = true }) f
    (f, entry) ← add_entry io away now fuel rounds dir (byte_at name) (length name) f
    elim entry [
      | none ↦ do
        f ← iput io away now fuel (some dir) f
        f ← free_zone fuel (node i f).i_dev ((node i f).i_zone 0) f
        abandon fuel 28 (i ∷ []) (set_nlinks i 0 f)
      | some e ↦ do
        let f : Fs = point_entry e (node i f).i_num f
        let f : Fs = set_nlinks dir ((node dir f).i_nlinks + 1) f
        finish_entry fuel e dir i (set_node dir (record (node dir f) { i_dirt = true }) f)
    ]

  unfoldable pub sys_mkdir : ℕ → ℕ → Task → List ℕ → ℕ → Fs → Run (Fs × ℤ)
  sys_mkdir fuel rounds current path mode f =
      with_new_inode fuel current path
        (λ dir name i f. do
          let f : Fs =
              set_node i
                (record (node i f) { i_size = 32; i_dirt = true; i_mtime = now; i_atime = now }) f
          (f, zone) ← new_zone fuel (node i f).i_dev f
          let f : Fs =
              set_node i (record (node i f) { i_zone = update (node i f).i_zone 0 (zone % 65536) })
                f
          if (node i f).i_zone 0 == 0
              then (do
                f ← iput io away now fuel (some dir) f
                abandon fuel 28 (i ∷ []) (set_nlinks i ((node i f).i_nlinks + 255) f))
              else (do
                (f, bh) ←
                    read_block io away now fuel i ((node i f).i_zone 0)
                      (set_node i (record (node i f) { i_dirt = true }) f)
                elim bh [
                  | none ↦ do
                    f ← iput io away now fuel (some dir) f
                    f ← free_zone fuel (node i f).i_dev ((node i f).i_zone 0) f
                    abandon fuel 99 (i ∷ []) (set_nlinks i ((node i f).i_nlinks + 255) f)
                  | some b ↦ fill_directory fuel rounds current mode dir name i b f
                ]))
        f

  -- sys_link, when the directory of the new name is found
  unfoldable pub link_in : ℕ → ℕ → Task → ℕ → ℕ → List ℕ → Fs → Run (Fs × ℤ)
  link_in fuel rounds current old dir name f =
      if length name == 0
      then abandon fuel 1 (old ∷ dir ∷ []) f
      else if not ((node dir f).i_dev == (node old f).i_dev)
      then abandon fuel 18 (dir ∷ old ∷ []) f
      else if not (permission current (node dir f) may_write)
      then abandon fuel 13 (dir ∷ old ∷ []) f
      else (do
        (f, dir, entry) ← find_entry io away now fuel current dir (byte_at name) (length name) f
        elim entry [
          | some (b, a) ↦ abandon_entry fuel 17 b (dir ∷ old ∷ []) f
          | none ↦ do
            (f, entry) ← add_entry io away now fuel rounds dir (byte_at name) (length name) f
            elim entry [
              | none ↦ abandon fuel 28 (dir ∷ old ∷ []) f
              | some (b, a) ↦ do
                let f : Fs = point_entry (b, a) (node old f).i_num f
                f ← release_buffer io away now fuel (some b) f
                f ← iput io away now fuel (some dir) f
                let f : Fs = set_nlinks old ((node old f).i_nlinks + 1) f
                f ←
                    iput io away now fuel (some old)
                      (set_node old (record (node old f) { i_ctime = now; i_dirt = true }) f)
                ok (f, pos 0)
            ]
        ])

  unfoldable pub sys_link : ℕ → ℕ → Task → List ℕ → List ℕ → Fs → Run (Fs × ℤ)
  sys_link fuel rounds current oldname newname f = do
    (f, found) ← namei io away now fuel current oldname f
    elim found [
      | none ↦ ok (f, neg 2)
      | some old ↦ if is_directory (node old f).i_mode then abandon fuel 1 (old ∷ []) f else (do
        (f, found) ← dir_namei io away now fuel current newname f
        elim found [
          | none ↦ abandon fuel 13 (old ∷ []) f
          | some (dir, name) ↦ link_in fuel rounds current old dir name f
        ])
    ]
