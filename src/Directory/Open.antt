-- ===== src/Directory/Open.antt =====
-- fs/namei.c: `open_namei`.
use linux_0_11_comments.Bitmap.{none_empty, put_back, made}
use linux_0_11_comments.Directory.Entries.{add_entry, find_entry, release_buffer}
use linux_0_11_comments.Bitmap.{set_data, set_dirt, new_inode}
use linux_0_11_comments.Bmap.{truncate}
use linux_0_11_comments.Inodes.Get.{iget, get_empty_inode}
use linux_0_11_comments.Directory.Path.{is_directory, byte_at, dir_namei}
use linux_0_11_comments.Inodes.Format.{half_at}
use linux_0_11_comments.Directory.{put_entry_inode, permission}
use linux_0_11_comments.Inodes.{set_node, node, get_super, Fs}
use linux_0_11_comments.Kernel.{Task}
use linux_0_11_comments.Cache.{Io}
use linux_0_11_comments.Inodes.Table.{maps_of, iput}
use linux_0_11_comments.Common.{
  ◌==◌, if◌then◌else◌, ℤ, neg, pos, Run, ◌>>=◌, ok, length, ℕ, ◌+◌, ◌-◌, ◌/◌, ◌%◌, ◌^◌, bit_and,
  Bool, true, ◌&&◌, ◌||◌, not, Option, none, some, List,
}

-- O_ACCMODE, O_CREAT, O_EXCL and O_TRUNC of the flags
abbrev pub acc_mode_of : ℕ → ℕ
acc_mode_of flag = flag % 4

abbrev pub has_creat : ℕ → Bool
has_creat flag = flag / 64 % 2 == 1

abbrev pub has_excl : ℕ → Bool
has_excl flag = flag / 128 % 2 == 1

abbrev pub has_trunc : ℕ → Bool
has_trunc flag = flag / 512 % 2 == 1

-- ACC_MODE(flag), of 32 bits
abbrev pub acc_mode : ℕ → ℕ
acc_mode flag =
    if acc_mode_of flag == 0
    then 4
    else if acc_mode_of flag == 1
    then 2
    else if acc_mode_of flag == 2
    then 6
    else 2 ^ 32 - 1

-- O_TRUNC asks for writing.
abbrev pub writing_flag : ℕ → ℕ
writing_flag flag = if has_trunc flag && acc_mode_of flag == 0 then flag + 1 else flag

abbrev pub file_mode : Task → ℕ → ℕ
file_mode current mode = bit_and mode (511 - bit_and current.umask 511) + 0x8000

abbrev pub may_write : ℕ
may_write = 2

module _ (io : Io) (away : Fs → Fs) (now : ℤ) where
  -- new_inode of fs/bitmap.c, with get_empty_inode and get_super
  unfoldable pub make_inode : ℕ → Task → ℕ → Fs → Run (Fs × Option ℕ)
  make_inode fuel current dev f = do
    (f, i) ← get_empty_inode io away now fuel f
    (f, s) ← get_super away fuel dev f
    (c, result) ←
        new_inode (maps_of s f) (some (node i f)) dev current.euid current.egid now f.cache
    let f : Fs = record f { cache = c }
    elim result [
      | none_empty ↦ ok (f, none)
      | put_back ↦ iput io away now fuel (some i) f >>= λ f. ok (f, none)
      | made n ↦ ok (set_node i n f, some i)
    ]

  -- truncate, on an inode of the table
  unfoldable pub truncate_inode : ℕ → ℕ → Fs → Run Fs
  truncate_inode fuel i f = do
    (f, s) ← get_super away fuel (node i f).i_dev f
    d ← truncate io (maps_of s f) now fuel (record { inode = node i f; cache = f.cache })
    ok (set_node i d.inode (record f { cache = d.cache }))

  -- An error, with the directory put back
  abbrev pub refuse : ℕ → ℕ → ℕ → Fs → Run (Fs × ℤ × Option ℕ)
  refuse fuel errno i f = iput io away now fuel (some i) f >>= λ f. ok (f, neg errno, none)

  -- The file is not in the directory yet.
  unfoldable pub create_file : ℕ → ℕ → Task → ℕ → ℕ → ℕ → List ℕ → Fs → Run (Fs × ℤ × Option ℕ)
  create_file fuel rounds current flag mode dir name f =
      if not (has_creat flag)
      then refuse fuel 2 dir f
      else if not (permission current (node dir f) may_write)
      then refuse fuel 13 dir f
      else (do
        (f, new) ← make_inode fuel current (node dir f).i_dev f
        elim new [
          | none ↦ refuse fuel 28 dir f
          | some i ↦ do
            let f : Fs =
                set_node i
                  (record (node i f) { i_uid = current.euid; i_mode = mode; i_dirt = true }) f
            (f, entry) ← add_entry io away now fuel rounds dir (byte_at name) (length name) f
            elim entry [
              | none ↦ do
                f ← iput io away now fuel (some i) (
                    set_node i (record (node i f) { i_nlinks = ((node i f).i_nlinks + 255) % 256 })
                      f)
                refuse fuel 28 dir f
              | some (b, a) ↦ do
                let bytes : ℕ → ℕ = put_entry_inode (node i f).i_num a (f.cache.b_data b)
                let f : Fs = record f { cache = set_dirt b (set_data b bytes f.cache) }
                f ← release_buffer io away now fuel (some b) f
                f ← iput io away now fuel (some dir) f
                ok (f, pos 0, some i)
            ]
        ])

  -- The file is in the directory, at the entry.
  unfoldable pub open_found : ℕ → Task → ℕ → ℕ → ℕ × ℕ → Fs → Run (Fs × ℤ × Option ℕ)
  open_found fuel current flag dir (b, a) f = do
    let inr : ℕ = half_at a (f.cache.b_data b)
    let dev : ℕ = (node dir f).i_dev
    f ← release_buffer io away now fuel (some b) f
    f ← iput io away now fuel (some dir) f
    if has_excl flag then ok (f, neg 17, none) else (do
      (f, i) ← iget io away now fuel dev inr f
      if is_directory (node i f).i_mode && not (acc_mode_of flag == 0)
            || not (permission current (node i f) (acc_mode flag))
          then refuse fuel 1 i f
          else (do
            let f : Fs = set_node i (record (node i f) { i_atime = now }) f
            f ← if has_trunc flag then truncate_inode fuel i f else ok f
            ok (f, pos 0, some i)))

  -- The value and the inode; add_entry is allowed `rounds` rounds.
  unfoldable pub open_namei : ℕ → ℕ → Task → List ℕ → ℕ → ℕ → Fs → Run (Fs × ℤ × Option ℕ)
  open_namei fuel rounds current path flags mode f = do
    let flag : ℕ = writing_flag flags
    (f, found) ← dir_namei io away now fuel current path f
    elim found [
      | none ↦ ok (f, neg 2, none)
      | some (dir, name) ↦
          if length name == 0
          then (if acc_mode_of flag == 0 && not (has_creat flag) && not (has_trunc flag)
              then ok (f, pos 0, some dir)
              else refuse fuel 21 dir f)
          else (do
            (f, dir, entry) ← find_entry io away now fuel current dir (byte_at name) (length name) f
            elim entry [
              | none ↦ create_file fuel rounds current flag (file_mode current mode) dir name f
              | some e ↦ open_found fuel current flag dir e f
            ])
    ]
