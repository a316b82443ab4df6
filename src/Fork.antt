-- ===== src/Fork.antt =====
-- kernel/fork.c: a new process as a copy of the current one, and the check of user memory before
-- the kernel writes to it. `find_empty_process` is in Sched.Calls.
--
-- The code and data descriptors of a task, its TSS, the page of its task structure, and the counts
-- of files and inodes are maps from slots and from numbers. The state of the coprocessor, the rest
-- of the TSS and the descriptors in the GDT are not modelled.
pub mod Child
pub mod Sharing
mod Tests
use linux_0_11_comments.Memory.Faults.{write_verify}
use linux_0_11_comments.Exit.{nr_open}
use linux_0_11_comments.Memory.{
  free_page_tables, copy_page_tables, get_free_page, Memory, free_page,
}
use linux_0_11_comments.Kernel.{
  task_running, task_uninterruptible, current_task, eagain, Task, modify, Kernel,
}
use linux_0_11_comments.Common.{
  ltb, ◌==◌, if◌then◌else◌, update, ℤ, eq_ℤ, pos, negsuc, no_bits, Run, ◌>>=◌,
  separate_code_and_data, bad_data_limit, ok, panic, out_of_fuel, ℕ, zero, suc, ◌+◌, ◌-◌, ◌*◌, ◌/◌,
  ◌%◌, ◌^◌, true, false, not, Option, none, some, ◌>>◌,
}

-- The bases of ldt[1] (code) and ldt[2] (data), and the limits in their selectors.
pub record Segments : Type 0 where
  pub code_base : ℕ
  pub data_base : ℕ
  pub code_limit : ℕ
  pub data_limit : ℕ

-- The registers that the system call and the interrupt saved.
pub record Registers : Type 0 where
  pub ebp : ℕ
  pub edi : ℕ
  pub esi : ℕ
  pub gs : ℕ
  pub ebx : ℕ
  pub ecx : ℕ
  pub edx : ℕ
  pub fs : ℕ
  pub es : ℕ
  pub ds : ℕ
  pub eip : ℕ
  pub cs : ℕ
  pub eflags : ℕ
  pub esp : ℕ
  pub ss : ℕ

pub record Tss : Type 0 where
  pub registers : Registers
  pub back_link : ℕ
  pub esp0 : ℕ
  pub ss0 : ℕ
  pub eax : ℕ
  pub ldt : ℕ
  pub trace_bitmap : ℕ

pub record Processes : Type 0 where
  pub kernel : Kernel
  pub memory : Memory
  pub segments : ℕ → Segments
  pub tss : ℕ → Tss
  pub task_page : ℕ → ℕ
  pub f_count : ℕ → ℕ
  pub i_count : ℕ → ℕ

abbrev pub enomem : ℤ
enomem = negsuc 11

-- The loop of verify_area: `size` bytes from the page at `start` on.
unfoldable pub verify_pages : ℕ → ℕ → ℕ → Memory → Run Memory
verify_pages zero size start m = out_of_fuel
verify_pages (suc fuel) size start m = elim (size == 0) [
  | true ↦ ok m
  | false ↦
      write_verify start m >>= λ m. verify_pages fuel (size - 4096) ((start + 4096) % 2 ^ 32) m
]

-- `base` is the base of the data segment, and `size` is not negative.
unfoldable pub verify_area : ℕ → ℕ → ℕ → Memory → Run Memory
verify_area base addr size m =
    let size = size + addr % 4096 in
    verify_pages (suc (size / 4096 + 1)) size ((addr / 4096 * 4096 + base) % 2 ^ 32) m

unfoldable pub copy_mem : ℕ → Processes → Run (Processes × ℤ)
copy_mem nr w =
    let mine = w.segments w.kernel.current in
    let base = nr * 0x4000000 in
    if not (mine.data_base == mine.code_base)
    then panic separate_code_and_data
    else if ltb mine.data_limit mine.code_limit
    then panic bad_data_limit
    else (do
      let w : Processes = record w {
        kernel = modify nr (λ t. record t { start_code = base }) w.kernel;
        segments =
            update w.segments nr (record (w.segments nr) { code_base = base; data_base = base });
      }
      (m, failed) ← copy_page_tables mine.data_base base mine.data_limit w.memory
      if eq_ℤ failed (pos 0)
          then ok (record w { memory = m }, pos 0)
          else (free_page_tables base mine.data_limit m >>= λ m.
              ok (record w { memory = m }, enomem)))

-- The fields of the new task that differ from its parent's, while it is being made.
abbrev pub newborn : Kernel → Task
newborn k =
    let me = current_task k in
    record me {
      state = task_uninterruptible;
      pid = k.last_pid;
      father = me.pid;
      counter = me.priority;
      signal = no_bits;
      alarm = pos 0;
      leader = false;
      utime = pos 0;
      stime = pos 0;
      cutime = pos 0;
      cstime = pos 0;
      start_time = k.jiffies;
    }

-- p->tss for the task structure at `page`; the segment registers are cut to 16 bits.
abbrev pub new_tss : ℕ → ℕ → Registers → Tss
new_tss nr page r = record {
  registers = record r {
    es = r.es % 2 ^ 16;
    cs = r.cs % 2 ^ 16;
    ss = r.ss % 2 ^ 16;
    ds = r.ds % 2 ^ 16;
    fs = r.fs % 2 ^ 16;
    gs = r.gs % 2 ^ 16;
  };
  back_link = 0;
  esp0 = 4096 + page;
  ss0 = 16;
  eax = 0;
  ldt = nr * 16 + 40;
  trace_bitmap = 0x80000000;
}

-- The loop over `filp`, for the descriptors i, i + 1, ...
unfoldable pub count_files : ℕ → ℕ → (ℕ → Option ℕ) → (ℕ → ℕ) → ℕ → ℕ
count_files zero i filp f_count = f_count
count_files (suc n) i filp f_count =
    count_files n (i + 1) filp
      (elim (filp i) [ none ↦ f_count | some f ↦ update f_count f ((f_count f + 1) % 2 ^ 16) ])

abbrev pub count_inode : Option ℕ → (ℕ → ℕ) → ℕ → ℕ
count_inode none i_count = i_count
count_inode (some i) i_count = update i_count i ((i_count i + 1) % 2 ^ 16)

-- copy_process from `copy_mem` on
unfoldable pub finish : ℕ → ℕ → Processes → Run (Processes × ℤ)
finish nr page w = do
  (w, failed) ← copy_mem nr w
  if not (eq_ℤ failed (pos 0))
      then (free_page page w.memory >>= λ m. ok (
        record w {
          kernel = record (w.kernel) { present = update (w.kernel.present) nr false };
          memory = m;
        },
        eagain,
      ))
      else (let me : Task = current_task w.kernel in
          ok (
            record w {
              kernel = modify nr (λ t. record t { state = task_running }) w.kernel;
              f_count = count_files nr_open 0 (w.kernel.tasks nr).filp w.f_count;
              i_count =
                  count_inode me.executable (count_inode me.root (count_inode me.pwd w.i_count));
            },
            w.kernel.last_pid,
          ))

unfoldable pub copy_process : ℕ → Registers → Processes → Run (Processes × ℤ)
copy_process nr r w =
    let (m, page) = get_free_page w.memory in
    if page == 0
    then ok (w, eagain)
    else finish nr page (record w {
      kernel = record (w.kernel) {
        present = update (w.kernel.present) nr true;
        tasks = update (w.kernel.tasks) nr (newborn w.kernel);
      };
      memory = m;
      segments = update w.segments nr (w.segments w.kernel.current);
      tss = update w.tss nr (new_tss nr page r);
      task_page = update w.task_page nr page;
    })
