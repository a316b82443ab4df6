-- ===== src/Directory/Path.antt =====
-- fs/namei.c: `get_dir`, `dir_namei` and `namei`.
--
-- A path is the list of its bytes, without the 0 at its end.
use linux_0_11_comments.Inodes.Get.{iget}
use linux_0_11_comments.Directory.{permission}
use linux_0_11_comments.Directory.Entries.{release_buffer, find_entry}
use linux_0_11_comments.Kernel.{Task}
use linux_0_11_comments.Inodes.Format.{half_at}
use linux_0_11_comments.Inodes.{set_node, count_up, node, Fs}
use linux_0_11_comments.Cache.{Io}
use linux_0_11_comments.Inodes.Table.{iput}
use linux_0_11_comments.Common.{
  ◌==◌, if◌then◌else◌, ℤ, Run, ◌>>=◌, no_root_inode, no_cwd_inode, ok, panic, out_of_fuel, length,
  ℕ, zero, suc, ◌+◌, ◌/◌, ◌%◌, Bool, true, false, ◌&&◌, not, Option, none, some, List, [], ◌∷◌,
}

-- Byte `k` of a string, 0 at its end
abbrev pub byte_at : List ℕ → ℕ → ℕ
byte_at [] k = 0
byte_at (c ∷ cs) zero = c
byte_at (c ∷ cs) (suc k) = byte_at cs k

-- The bytes before the first '/', and what is behind it, if there is one
unfoldable pub split_slash : List ℕ → List ℕ × Option (List ℕ)
split_slash [] = ([], none)
split_slash (c ∷ cs) = elim (c == b'/') [
  | true ↦ ([], some cs)
  | false ↦ (c ∷ (split_slash cs).0, (split_slash cs).1)
]

-- The loop of dir_namei, with the basename so far
unfoldable pub last_name : List ℕ → List ℕ → List ℕ
last_name [] base = base
last_name (c ∷ cs) base = elim (c == b'/') [ true ↦ last_name cs cs | false ↦ last_name cs base ]

abbrev pub basename : List ℕ → List ℕ
basename path = last_name path path

-- S_ISDIR(mode)
abbrev pub is_directory : ℕ → Bool
is_directory mode = mode / 4096 % 16 == 4

abbrev pub may_exec : ℕ
may_exec = 1

module _ (io : Io) (away : Fs → Fs) (now : ℤ) where
  -- The inode of an entry that find_entry found in the directory
  abbrev pub iget_entry : ℕ → ℕ → ℕ × ℕ → Fs → Run (Fs × ℕ)
  iget_entry fuel dir (b, a) f = do
    let inr : ℕ = half_at a (f.cache.b_data b)
    let idev : ℕ = (node dir f).i_dev
    f ← release_buffer io away now fuel (some b) f
    f ← iput io away now fuel (some dir) f
    iget io away now fuel idev inr f

  -- The loop of get_dir at directory `inode`; every round but the last takes a '/' from the path.
  unfoldable pub walk : ℕ → Task → ℕ → ℕ → List ℕ → Fs → Run (Fs × Option ℕ)
  walk fuel current zero inode path f = out_of_fuel
  walk fuel current (suc n) inode path f =
      elim (is_directory (node inode f).i_mode && permission current (node inode f) may_exec) [
        | false ↦ iput io away now fuel (some inode) f >>= λ f. ok (f, none)
        | true ↦ elim ((split_slash path).1) [
          | none ↦ ok (f, some inode)
          | some rest ↦ do
            (f, inode, entry) ←
                find_entry io away now fuel current inode (byte_at path)
                  (length (split_slash path).0) f
            elim entry [
              | none ↦ iput io away now fuel (some inode) f >>= λ f. ok (f, none)
              | some e ↦ do (f, inode) ← iget_entry fuel inode e f; walk fuel current n inode rest f
            ]
        ]
      ]

  -- Is there such an inode, with a user?
  abbrev pub is_used : Option ℕ → Fs → Bool
  is_used none f = false
  is_used (some i) f = not ((node i f).i_count == 0)

  -- The walk from the inode of the root or of the working directory
  abbrev pub walk_from : ℕ → Task → Option ℕ → List ℕ → Fs → Run (Fs × Option ℕ)
  walk_from fuel current none path f = ok (f, none)
  walk_from fuel current (some i) path f = walk fuel current (length path + 1) i path (count_up i f)

  unfoldable pub get_dir : ℕ → Task → List ℕ → Fs → Run (Fs × Option ℕ)
  get_dir fuel current path f =
      if not (is_used current.root f)
      then panic no_root_inode
      else if not (is_used current.pwd f)
      then panic no_cwd_inode
      else elim path [
        | [] ↦ ok (f, none)
        | c ∷ cs ↦
            if c == b'/'
            then walk_from fuel current current.root cs f
            else walk_from fuel current current.pwd (c ∷ cs) f
      ]

  -- The directory and the name in it
  unfoldable pub dir_namei : ℕ → Task → List ℕ → Fs → Run (Fs × Option (ℕ × List ℕ))
  dir_namei fuel current path f = do
    (f, dir) ← get_dir fuel current path f
    elim dir [ none ↦ ok (f, none) | some dir ↦ ok (f, some (dir, basename path)) ]

  unfoldable pub namei : ℕ → Task → List ℕ → Fs → Run (Fs × Option ℕ)
  namei fuel current path f = do
    (f, found) ← dir_namei fuel current path f
    elim found [
      | none ↦ ok (f, none)
      | some (dir, name) ↦ if length name == 0 then ok (f, some dir) else (do
        (f, dir, entry) ← find_entry io away now fuel current dir (byte_at name) (length name) f
        elim entry [
          | none ↦ iput io away now fuel (some dir) f >>= λ f. ok (f, none)
          | some e ↦ do
            (f, i) ← iget_entry fuel dir e f
            ok (set_node i (record (node i f) { i_atime = now; i_dirt = true }) f, some i)
        ])
    ]
