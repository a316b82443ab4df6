-- ===== src/Memory/Faults.antt =====
-- mm/memory.c: copy on write, demand loading, page sharing and the set-up of the page map.
--
-- `oom` ends the task by `do_exit(SIGSEGV)`. What `do_no_page` takes from fs/ is given: `blocks`
-- are the numbers that `bmap` returns for the four blocks of a page, and `bread_page` fills a page
-- from them.
use linux_0_11_comments.Common.{
  ltb, leb, ◌==◌, if◌then◌else◌, is_some, Run, ◌>>=◌, shared_page_exists, ok, panic, exits, ℕ, zero,
  suc, ◌+◌, ◌-◌, ◌*◌, ◌/◌, ◌%◌, ◌^◌, Bool, true, false, ◌&&◌, ◌||◌, not, none, some, List,
}
use linux_0_11_comments.Kernel.{Kernel, last_task, current_task}
use linux_0_11_comments.Memory.{
  Memory, low_mem, paging_pages, used, sigsegv, map_nr, page_of, dir_entry, table_offset, or_7,
  set_write, clear_write, is_odd, store, set_map, fill_page, get_free_page, free_page, put_page,
}

-- table_entry is the address of an entry of a page table.
unfoldable pub un_wp_page : ℕ → Memory → Run Memory
un_wp_page table_entry m =
    let old_page = page_of (m.word table_entry) in
    if leb low_mem old_page && m.mem_map (map_nr old_page) == 1
    then ok (store table_entry (set_write (m.word table_entry)) m)
    else let (m, new_page) = get_free_page m in
      if new_page == 0
      then exits sigsegv
      else let m =
          if leb low_mem old_page
          then set_map (map_nr old_page) ((m.mem_map (map_nr old_page) + 255) % 256) m
          else m in
        let m = store table_entry (or_7 new_page) m in
        ok (fill_page new_page (λ offset. m.word (old_page + offset)) m)

unfoldable pub do_wp_page : ℕ → Memory → Run Memory
do_wp_page address m = un_wp_page (table_offset address + page_of (m.word (dir_entry address))) m

unfoldable pub write_verify : ℕ → Memory → Run Memory
write_verify address m =
    let dir = m.word (dir_entry address) in
    if not (is_odd dir)
    then ok m
    else let page = page_of dir + table_offset address in
      if m.word page % 4 == 1 then un_wp_page page m else ok m

unfoldable pub get_empty_page : ℕ → Memory → Run Memory
get_empty_page address m =
    let (m, tmp) = get_free_page m in
    if tmp == 0
    then (free_page 0 m >>= λ m. exits sigsegv)
    else let (m, put) = put_page tmp address m in
      if put == 0 then (free_page tmp m >>= λ m. exits sigsegv) else ok m

-- phys_addr & 0x41 is 1: the page is present and not dirty.
abbrev pub is_clean : ℕ → Bool
is_clean w = is_odd w && w / 64 % 2 == 0

-- The directory entry at `dir`, made if it is not present.
abbrev pub need_dir : ℕ → Memory → Run (Memory × ℕ)
need_dir dir m =
    if is_odd (m.word dir)
    then ok (m, m.word dir)
    else let (m, to) = get_free_page m in
      if to == 0 then exits sigsegv else ok (store dir (or_7 to) m, to)

-- Both entries become the entry at `from_page` without the write bit.
abbrev pub share_entry : ℕ → ℕ → ℕ → Memory → Run (Memory × Bool)
share_entry from_page to_page phys_addr m =
    if is_odd (m.word to_page)
    then panic shared_page_exists
    else let m = store from_page (clear_write (m.word from_page)) m in
      let m = store to_page (m.word from_page) m in
      ok (set_map (map_nr phys_addr) ((m.mem_map (map_nr phys_addr) + 1) % 256) m, true)

-- `theirs` and `mine` are the start_code of task `p` and of the current task; the result says
-- whether the page is now shared.
unfoldable pub try_to_share : ℕ → ℕ → ℕ → Memory → Run (Memory × Bool)
try_to_share address theirs mine m =
    let from_dir = dir_entry address + dir_entry theirs in
    let to_dir = dir_entry address + dir_entry mine in
    let from_page = page_of (m.word from_dir) + table_offset address in
    let phys_addr = page_of (m.word from_page) in
    if not (is_odd (m.word from_dir))
    then ok (m, false)
    else if not (is_clean (m.word from_page))
    then ok (m, false)
    else if leb m.high_memory phys_addr || ltb phys_addr low_mem
    then ok (m, false)
    else need_dir to_dir m >>= λ (m', to).
        share_entry from_page (page_of to + table_offset address) phys_addr m'

-- The loop of share_page over the slots n, ..., 1.
unfoldable pub share_with : ℕ → ℕ → Kernel → Memory → Run (Memory × Bool)
share_with zero address k m = ok (m, false)
share_with (suc n) address k m =
    let p = k.tasks (suc n) in
    let me = current_task k in
    let same_file = elim (p.executable) as (λ _. Bool) [
      | none ↦ false
      | some i ↦ elim (me.executable) [ none ↦ false | some j ↦ i == j ]
    ] in
    (do
      (m, done) ←
          if k.present (suc n) && not (k.current == suc n) && same_file
          then try_to_share address p.start_code me.start_code m
          else ok (m, false)
      elim done [ true ↦ ok (m, true) | false ↦ share_with n address k m ])

-- `i_count` is the reference count of an inode.
unfoldable pub share_page : (ℕ → ℕ) → ℕ → Kernel → Memory → Run (Memory × Bool)
share_page i_count address k m = elim ((current_task k).executable) [
  | none ↦ ok (m, false)
  | some inode ↦ if ltb (i_count inode) 2 then ok (m, false) else share_with last_task address k m
]

-- The bytes from `start` to the end of the page at `page` are cleared.
abbrev pub clear_from : ℕ → ℕ → Memory → Memory
clear_from page start m = record m {
  word = λ a.
      if leb (page + start) a && ltb a (page + 4096)
      then 0
      else if leb page a && ltb a (page + 4096) && ltb (page + start) (a + 4)
      then m.word a % 2 ^ (8 * (page + start - a))
      else m.word a;
}

unfoldable pub do_no_page :
    (ℕ → ℕ)
    → (blocks : ℕ → List ℕ) → (bread_page : ℕ → List ℕ → Memory → Memory) → ℕ
    → Kernel
    → Memory
    → Run Memory
do_no_page i_count blocks bread_page address k m =
    let me = current_task k in
    let address = page_of address in
    let tmp = (address + 2 ^ 32 - me.start_code) % 2 ^ 32 in
    if not (is_some me.executable) || leb me.end_data tmp then get_empty_page address m else (do
      (m, shared) ← share_page i_count tmp k m
      if shared
          then ok m
          else (let (m, page) = get_free_page m in
              if page == 0
              then exits sigsegv
              else let m = bread_page page (blocks (1 + tmp / 1024)) m in
                let m =
                  if ltb me.end_data (tmp + 4096)
                  then clear_from page (me.end_data - tmp) m
                  else m in
                let (m, put) = put_page page address m in
                if put == 0 then (free_page page m >>= λ m. exits sigsegv) else ok m))

unfoldable pub mem_init : ℕ → ℕ → Memory → Memory
mem_init start_mem end_mem m = record m {
  high_memory = end_mem;
  mem_map = λ i.
      if leb (map_nr start_mem) i && ltb i (map_nr start_mem + (end_mem - start_mem) / 4096)
      then 0
      else if ltb i paging_pages
      then used
      else m.mem_map i;
}
