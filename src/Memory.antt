-- ===== src/Memory.antt =====
-- mm/memory.c: physical pages, page tables, copy on write, and the page faults.
--
-- Physical memory is a map from addresses that are multiples of 4 to 32-bit words. The page
-- directory stands at address 0. Masks and shifts of addresses are written as arithmetic:
-- `0xfffff000 & w` is `page_of w`, `(a >> 20) & 0xffc` is `dir_entry a`, `(a >> 10) & 0xffc` is
-- `table_offset a`, and `1 & w` is `w % 2`. The translation cache and messages are not modelled.
pub mod Pages
pub mod Mapping
pub mod Faults
mod Tests
use linux_0_11_comments.Common.{
  ltb, leb, ◌==◌, if◌then◌else◌, update, ℤ, pos, negsuc, Run, free_nonexistent_page, free_free_page,
  bad_alignment, free_swapper, tables_exist, ok, panic, ℕ, zero, suc, ◌+◌, ◌-◌, ◌*◌, ◌/◌, ◌%◌, ◌^◌,
  Bool, true, false, ◌&&◌, ◌||◌, not, Option, none, some, ◌>>=◌, ◌>>◌,
}
use linux_0_11_comments.Kernel.{Task, Kernel, last_task, current_task}

pub record Memory : Type 0 where
  pub word : ℕ → ℕ
  pub mem_map : ℕ → ℕ
  pub high_memory : ℕ

abbrev pub low_mem : ℕ
low_mem = 0x100000

abbrev pub paging_pages : ℕ
paging_pages = 15 * 1024 * 1024 / 4096

abbrev pub used : ℕ
used = 100

abbrev pub sigsegv : ℕ
sigsegv = 11

abbrev pub map_nr : ℕ → ℕ
map_nr addr = (addr - low_mem) / 4096

abbrev pub page_of : ℕ → ℕ
page_of w = w / 4096 * 4096

abbrev pub dir_entry : ℕ → ℕ
dir_entry address = address / 2 ^ 22 % 2 ^ 10 * 4

abbrev pub table_offset : ℕ → ℕ
table_offset address = address / 2 ^ 12 % 2 ^ 10 * 4

-- w | 7, w | 2, w & ~2
abbrev pub or_7 : ℕ → ℕ
or_7 w = w / 8 * 8 + 7

abbrev pub set_write : ℕ → ℕ
set_write w = w + 2 * (1 - w / 2 % 2)

abbrev pub clear_write : ℕ → ℕ
clear_write w = w - 2 * (w / 2 % 2)

abbrev pub is_odd : ℕ → Bool
is_odd w = w % 2 == 1

abbrev pub store : ℕ → ℕ → Memory → Memory
store a w m = record m { word = update m.word a w }

abbrev pub set_map : ℕ → ℕ → Memory → Memory
set_map i n m = record m { mem_map = update m.mem_map i n }

-- The page at `page` filled by `f`, from the offset of a word.
abbrev pub fill_page : ℕ → (ℕ → ℕ) → Memory → Memory
fill_page page f m = record m {
  word = λ a. if leb page a && ltb a (page + 4096) then f (a - page) else m.word a;
}

-- `repne scasb`, downwards from entry n - 1.
unfoldable pub find_free : ℕ → (ℕ → ℕ) → Option ℕ
find_free zero mem_map = none
find_free (suc n) mem_map = if mem_map n == 0 then some n else find_free n mem_map

-- The result 0 says that no page is free.
unfoldable pub get_free_page : Memory → Memory × ℕ
get_free_page m = elim (find_free paging_pages m.mem_map) [
  | none ↦ (m, 0)
  | some i ↦ let page = i * 4096 + low_mem in (fill_page page (λ _. 0) (set_map i 1 m), page)
]

unfoldable pub free_page : ℕ → Memory → Run Memory
free_page addr m =
    if ltb addr low_mem
    then ok m
    else if leb m.high_memory addr
    then panic free_nonexistent_page
    else let i = map_nr addr in
      if m.mem_map i == 0 then panic free_free_page else ok (set_map i (m.mem_map i - 1) m)

-- for (nr = 0; nr < 1024; nr++): `n` entries from address `a` on
unfoldable pub free_entries : ℕ → ℕ → Memory → Run Memory
free_entries zero a m = ok m
free_entries (suc n) a m = do
  m ← if is_odd (m.word a) then free_page (page_of (m.word a)) m else ok m
  free_entries n (a + 4) (store a 0 m)

unfoldable pub free_dirs : ℕ → ℕ → Memory → Run Memory
free_dirs zero dir m = ok m
free_dirs (suc n) dir m = do
  m ← if not (is_odd (m.word dir)) then ok m else (do
    m ← free_entries 1024 (page_of (m.word dir)) m
    m ← free_page (page_of (m.word dir)) m
    ok (store dir 0 m))
  free_dirs n (dir + 4) m

unfoldable pub free_page_tables : ℕ → ℕ → Memory → Run Memory
free_page_tables from size m =
    if not (from % 2 ^ 22 == 0)
    then panic bad_alignment
    else if from == 0
    then panic free_swapper
    else free_dirs ((size + 0x3fffff) % 2 ^ 32 / 2 ^ 22) (dir_entry from) m

-- The inner loop of copy_page_tables: `n` entries from `a` are copied to `b`.
unfoldable pub copy_entries : ℕ → ℕ → ℕ → Memory → Memory
copy_entries zero a b m = m
copy_entries (suc n) a b m =
    let this_page = clear_write (m.word a) in
    copy_entries n (a + 4) (b + 4) (
      if not (is_odd (m.word a))
      then m
      else (let m = store b this_page m in
          if ltb low_mem this_page
          then (let i = map_nr this_page in
              set_map i ((m.mem_map i + 1) % 256) (store a this_page m))
          else m))

-- The result is -1 when memory runs out, with what has been copied so far left in place.
unfoldable pub copy_dirs : ℕ → ℕ → ℕ → ℕ → Memory → Run (Memory × ℤ)
copy_dirs from zero from_dir to_dir m = ok (m, pos 0)
copy_dirs from (suc n) from_dir to_dir m =
    if is_odd (m.word to_dir) then panic tables_exist else elim (is_odd (m.word from_dir)) [
      | false ↦ copy_dirs from n (from_dir + 4) (to_dir + 4) m
      | true ↦
          let from_page_table = page_of (m.word from_dir) in
          let (m, to_page_table) = get_free_page m in
          elim (to_page_table == 0) [
            | true ↦ ok (m, negsuc 0)
            | false ↦
                let m = store to_dir (or_7 to_page_table) m in
                let nr : ℕ = if from == 0 then 0xa0 else 1024 in
                copy_dirs from n (from_dir + 4) (to_dir + 4)
                  (copy_entries nr from_page_table to_page_table m)
          ]
    ]

unfoldable pub copy_page_tables : ℕ → ℕ → ℕ → Memory → Run (Memory × ℤ)
copy_page_tables from to size m =
    if not (from % 2 ^ 22 == 0) || not (to % 2 ^ 22 == 0)
    then panic bad_alignment
    else copy_dirs from ((size + 0x3fffff) % 2 ^ 32 / 2 ^ 22) (dir_entry from) (dir_entry to) m

-- The address of the page table for `address`, made if there is none; 0 if memory runs out.
unfoldable pub get_table : ℕ → Memory → Memory × ℕ
get_table address m =
    let dir = dir_entry address in
    if is_odd (m.word dir)
    then (m, page_of (m.word dir))
    else let (m, tmp) = get_free_page m in
      if tmp == 0 then (m, 0) else (store dir (or_7 tmp) m, tmp)

-- The result is `page`, or 0 if memory runs out.
unfoldable pub put_page : ℕ → ℕ → Memory → Memory × ℕ
put_page page address m =
    let exists = is_odd (m.word (dir_entry address)) in
    let (m, table) = get_table address m in
    if not exists && table == 0
    then (m, 0)
    else (store (table + table_offset address) (or_7 page) m, page)
