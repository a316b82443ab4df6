-- ===== src/Inodes/Get.antt =====
-- fs/inode.c: `get_empty_inode`, `get_pipe_inode` and `iget`. As get_empty_inode stops when there is
-- none, it never returns the null pointer.
-- Device and inode numbers fit in their fields.
use linux_0_11_comments.Inodes.Table.{iput}
use linux_0_11_comments.Memory.{get_free_page}
use linux_0_11_comments.Inodes.Format.{write_inode, read_inode}
use linux_0_11_comments.Inodes.{
  root_ino, nr_super, count_up, set_node, no_inode, empty_slot, set_slot, node, wait_on_inode,
  nr_inode, MemInode, Fs, MemSuper,
}
use linux_0_11_comments.Cache.{Io}
use linux_0_11_comments.Inodes.Table.{iput}
use linux_0_11_comments.Common.{
  ltb, ◌==◌, if◌then◌else◌, update, ℤ, Run, no_free_inodes, iget_device, ok, panic, out_of_fuel, ℕ,
  zero, suc, ◌+◌, Bool, true, false, ◌&&◌, ◌||◌, Option, none, some, ◌>>=◌,
}

abbrev pub next_slot : ℕ → ℕ
next_slot i = if ltb (i + 1) nr_inode then i + 1 else 0

-- The loop of get_empty_inode, for `n` more places behind `last`: the new `last_inode`, and the inode
-- to take, `found` so far
unfoldable pub find_empty : (ℕ → MemInode) → ℕ → ℕ → Option ℕ → ℕ × Option ℕ
find_empty table zero last found = (last, found)
find_empty table (suc n) last found =
    let i = next_slot last in
    elim ((table i).inode.i_count == 0) [
      | false ↦ find_empty table n i found
      | true ↦ elim ((table i).inode.i_dirt || (table i).i_lock) [
        | false ↦ (i, some i)
        | true ↦ find_empty table n i (some i)
      ]
    ]

-- The super block of the file system that is mounted on inode `i`: of `n`, from place `s` on
unfoldable pub find_mounted : (ℕ → MemSuper) → ℕ → ℕ → ℕ → Option ℕ
find_mounted supers i zero s = none
find_mounted supers i (suc n) s = elim ((supers s).s_imount) [
  | none ↦ find_mounted supers i n (s + 1)
  | some j ↦ elim (j == i) [ true ↦ some s | false ↦ find_mounted supers i n (s + 1) ]
]

abbrev pub is_inode : ℕ → ℕ → ℕ → Fs → Bool
is_inode dev nr i f = (node i f).i_dev == dev && (node i f).i_num == nr

module _ (io : Io) (away : Fs → Fs) (now : ℤ) where
  -- while (inode->i_dirt)
  unfoldable pub clean_inode : ℕ → ℕ → Fs → Run Fs
  clean_inode zero i f = out_of_fuel
  clean_inode (suc fuel) i f = elim ((node i f).i_dirt) [
    | false ↦ ok f
    | true ↦ do
      f ← write_inode io away (suc fuel) i f
      f ← wait_on_inode away (suc fuel) i f
      clean_inode fuel i f
  ]

  unfoldable pub get_empty_inode : ℕ → Fs → Run (Fs × ℕ)
  get_empty_inode zero f = out_of_fuel
  get_empty_inode (suc fuel) f =
      let (last, found) = find_empty f.inode_table nr_inode f.last_inode none in
      elim found [
        | none ↦ panic no_free_inodes
        | some i ↦ do
          f ← wait_on_inode away (suc fuel) i (record f { last_inode = last })
          f ← clean_inode (suc fuel) i f
          elim ((node i f).i_count == 0) [
            | true ↦
                ok (set_slot i (record empty_slot { inode = record no_inode { i_count = 1 } }) f, i)
            | false ↦ get_empty_inode fuel f
          ]
      ]

  unfoldable pub get_pipe_inode : ℕ → Fs → Run (Fs × Option ℕ)
  get_pipe_inode fuel f = do
    (f, i) ← get_empty_inode fuel f
    let (m, page) = get_free_page f.memory
    let f : Fs = record f { memory = m }
    (if page == 0
        then ok (set_node i (record (node i f) { i_size = 0; i_count = 0 }) f, none)
        else ok (
          set_slot i
              (record (f.inode_table i) {
                inode = record (node i f) {
                  i_size = page;
                  i_count = 2;
                  i_zone = update (update (node i f).i_zone 1 0) 0 0;
                };
                i_pipe = true;
              })
              f,
          some i,
        ))

  -- iget behind the loop: the inode is read to the empty place.
  abbrev pub fill_inode : ℕ → ℕ → ℕ → ℕ → Fs → Run (Fs × ℕ)
  fill_inode fuel dev nr empty f = do
    f ←
        read_inode io away fuel empty
          (set_node empty (record (node empty f) { i_dev = dev; i_num = nr }) f)
    ok (f, empty)

  -- The loop of iget from place `i` on, with the empty inode
  unfoldable pub search_inodes : ℕ → ℕ → ℕ → ℕ → ℕ → Fs → Run (Fs × ℕ)
  search_inodes zero dev nr empty i f = out_of_fuel
  search_inodes (suc fuel) dev nr empty i f = elim (ltb i nr_inode) [
    | false ↦ fill_inode (suc fuel) dev nr empty f
    | true ↦ elim (is_inode dev nr i f) [
      | false ↦ search_inodes fuel dev nr empty (i + 1) f
      | true ↦ do
        f ← wait_on_inode away (suc fuel) i f
        elim (is_inode dev nr i f) [
          | false ↦ search_inodes fuel dev nr empty 0 f
          | true ↦ elim ((f.inode_table i).i_mount) [
            | false ↦ (do f ← iput io away now (suc fuel) (some empty) (count_up i f); ok (f, i))
            | true ↦ elim (find_mounted f.super_block i nr_super 0) [
              | none ↦ (do f ← iput io away now (suc fuel) (some empty) (count_up i f); ok (f, i))
              | some s ↦ do
                f ← iput io away now (suc fuel) (some i) (count_up i f)
                search_inodes fuel (f.super_block s).s_dev root_ino empty 0 f
            ]
          ]
        ]
    ]
  ]

  unfoldable pub iget : ℕ → ℕ → ℕ → Fs → Run (Fs × ℕ)
  iget fuel dev nr f =
      if dev == 0
      then panic iget_device
      else (do (f, empty) ← get_empty_inode fuel f; search_inodes fuel dev nr empty 0 f)
