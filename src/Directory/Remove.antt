-- ===== src/Directory/Remove.antt =====
-- fs/namei.c: `sys_unlink` and `sys_rmdir`, which remove entries of directories. As iget never
-- returns the null pointer, their tests for it are not modelled.
use linux_0_11_comments.Directory.Open.{may_write}
use linux_0_11_comments.Directory.{permission}
use linux_0_11_comments.Inodes.Format.{half_at}
use linux_0_11_comments.Directory.Path.{byte_at, is_directory, dir_namei}
use linux_0_11_comments.Kernel.{Task}
use linux_0_11_comments.Directory.Entries.{find_entry, empty_dir, release_buffer}
use linux_0_11_comments.Inodes.Get.{iget}
use linux_0_11_comments.Directory.Make.{abandon, point_entry, set_nlinks}
use linux_0_11_comments.Inodes.{set_node, node, Fs}
use linux_0_11_comments.Cache.{Io}
use linux_0_11_comments.Inodes.Table.{iput}
use linux_0_11_comments.Common.{
  ltb, ◌==◌, if◌then◌else◌, ℤ, neg, pos, Run, ◌>>=◌, ok, length, ℕ, ◌+◌, ◌/◌, ◌%◌, Bool, true, ◌&&◌,
  ◌||◌, not, none, some, List, [], ◌∷◌,
}

-- mode & S_ISVTX
abbrev pub is_sticky : ℕ → Bool
is_sticky mode = mode / 512 % 2 == 1

module _ (io : Io) (away : Fs → Fs) (now : ℤ) where
  -- An error, when the inodes and then the buffer were given back
  unfoldable pub abandon_holding : ℕ → ℕ → List ℕ → ℕ → Fs → Run (Fs × ℤ)
  abandon_holding fuel errno [] b f =
      release_buffer io away now fuel (some b) f >>= λ f. ok (f, neg errno)
  abandon_holding fuel errno (i ∷ is) b f =
      iput io away now fuel (some i) f >>= λ f. abandon_holding fuel errno is b f

  -- The inode of an entry, whose buffer is kept
  abbrev pub iget_held : ℕ → ℕ → ℕ × ℕ → Fs → Run (Fs × ℕ)
  iget_held fuel dir (b, a) f =
      iget io away now fuel (node dir f).i_dev (half_at a (f.cache.b_data b)) f

  -- The part of unlink and rmdir that finds the entry and its inode: `remove` goes on with the
  -- directory, the inode and the entry.
  unfoldable pub with_entry :
      ℕ → Task → List ℕ → (ℕ → ℕ → ℕ × ℕ → Fs → Run (Fs × ℤ)) → Fs → Run (Fs × ℤ)
  with_entry fuel current path remove f = do
    (f, found) ← dir_namei io away now fuel current path f
    elim found [
      | none ↦ ok (f, neg 2)
      | some (dir, name) ↦
          if length name == 0
          then abandon io away now fuel 2 (dir ∷ []) f
          else if not (permission current (node dir f) may_write)
          then abandon io away now fuel 1 (dir ∷ []) f
          else (do
            (f, dir, entry) ← find_entry io away now fuel current dir (byte_at name) (length name) f
            elim entry [
              | none ↦ abandon io away now fuel 2 (dir ∷ []) f
              | some e ↦ do (f, i) ← iget_held fuel dir e f; remove dir i e f
            ])
    ]

  -- unlink, when the entry may go
  unfoldable pub drop_link : ℕ → ℕ → ℕ → ℕ × ℕ → Fs → Run (Fs × ℤ)
  drop_link fuel dir i (b, a) f = do
    let f : Fs = if (node i f).i_nlinks == 0 then set_nlinks i 1 f else f
    f ← release_buffer io away now fuel (some b) (point_entry (b, a) 0 f)
    let f : Fs = set_nlinks i ((node i f).i_nlinks + 255) f
    f ←
        iput io away now fuel (some i)
          (set_node i (record (node i f) { i_dirt = true; i_ctime = now }) f)
    f ← iput io away now fuel (some dir) f
    ok (f, pos 0)

  unfoldable pub sys_unlink : ℕ → Task → List ℕ → Fs → Run (Fs × ℤ)
  sys_unlink fuel current path f =
      with_entry fuel current path
        (λ dir i e f.
          if is_sticky (node dir f).i_mode
            && not (current.euid == 0)
            && not (current.euid == (node i f).i_uid)
            && not (current.euid == (node dir f).i_uid)
          then abandon_holding fuel 1 (dir ∷ i ∷ []) e.0 f
          else if is_directory (node i f).i_mode
          then abandon_holding fuel 1 (i ∷ dir ∷ []) e.0 f
          else drop_link fuel dir i e f)
        f

  -- rmdir, when the directory may go
  unfoldable pub drop_directory : ℕ → ℕ → ℕ → ℕ × ℕ → Fs → Run (Fs × ℤ)
  drop_directory fuel dir i (b, a) f = do
    f ← release_buffer io away now fuel (some b) (point_entry (b, a) 0 f)
    let f : Fs = set_node i (record (node i f) { i_nlinks = 0; i_dirt = true }) f
    let f : Fs = set_nlinks dir ((node dir f).i_nlinks + 255) f
    f ←
        iput io away now fuel (some dir)
          (set_node dir (record (node dir f) { i_ctime = now; i_mtime = now; i_dirt = true }) f)
    f ← iput io away now fuel (some i) f
    ok (f, pos 0)

  unfoldable pub sys_rmdir : ℕ → Task → List ℕ → Fs → Run (Fs × ℤ)
  sys_rmdir fuel current path f =
      if not (current.euid == 0)
      then ok (f, neg 1)
      else with_entry fuel current path
          (λ dir i e f.
            if is_sticky (node dir f).i_mode
              && not (current.euid == 0)
              && not ((node i f).i_uid == current.euid)
            then abandon_holding fuel 1 (dir ∷ i ∷ []) e.0 f
            else if not ((node i f).i_dev == (node dir f).i_dev) || ltb 1 (node i f).i_count
            then abandon_holding fuel 1 (dir ∷ i ∷ []) e.0 f
            else if i == dir
            then abandon_holding fuel 1 (i ∷ dir ∷ []) e.0 f
            else if not (is_directory (node i f).i_mode)
            then abandon_holding fuel 20 (i ∷ dir ∷ []) e.0 f
            else (do
              (f, empty) ← empty_dir io away now fuel i f
              if not empty
                  then abandon_holding fuel 39 (i ∷ dir ∷ []) e.0 f
                  else drop_directory fuel dir i e f))
          f
