-- ===== src/Fork/Child.antt =====
-- What a new process shares with its parent (kernel/fork.c).
use linux_0_11_comments.Fork.Sharing.{refers, uses}
use linux_0_11_comments.Kernel.{modify}
use linux_0_11_comments.Common.{update, pos, no_bits, ℕ, ◌+◌, ◌*◌, ◌%◌, ◌≡◌, ◌≢◌, true, false}
use linux_0_11_comments.Fork.{
  count_inode, nr_open, count_files, Task, new_tss, get_free_page, Registers, newborn, Memory,
  current_task, Kernel, Processes,
}

-- The new process in slot `nr` of `q`, made from the current one of `k`.
pub record IsChild (k q : Kernel) (nr : ℕ) : Type 0 where
  pub present : q.present nr ≡ true
  pub task : q.tasks nr ≡ record (current_task k) {
    state = 0;
    pid = k.last_pid;
    father = (current_task k).pid;
    counter = (current_task k).priority;
    signal = no_bits;
    alarm = pos 0;
    leader = false;
    utime = pos 0;
    stime = pos 0;
    cutime = pos 0;
    cstime = pos 0;
    start_time = k.jiffies;
    start_code = nr * 0x4000000;
  }
  pub others : (i : ℕ) → i ≢ nr → (q.tasks i ≡ k.tasks i) × (q.present i ≡ k.present i)
  pub same_current : q.current ≡ k.current

-- The new process of slot `nr` beside the task table: the memory `m`, the segments, the TSS, and the
-- counts of the files and inodes that it shares with its parent.
pub record IsForked (nr : ℕ) (r : Registers) (w : Processes) (m : Memory) (q : Processes)
    : Type 0 where
  pub child : IsChild w.kernel q.kernel nr
  pub copied : q.memory ≡ m
  pub page : q.task_page nr ≡ (get_free_page w.memory).1
  pub segments : q.segments nr ≡ record (w.segments w.kernel.current) {
    code_base = nr * 0x4000000;
    data_base = nr * 0x4000000;
  }
  pub returns_0 : (q.tss nr).eax ≡ 0
  pub resumes :
      ((q.tss nr).registers.eip ≡ r.eip)
      × ((q.tss nr).registers.esp ≡ r.esp)
      × ((q.tss nr).registers.eflags ≡ r.eflags)
  pub general :
      ((q.tss nr).registers.ebx ≡ r.ebx)
      × ((q.tss nr).registers.ecx ≡ r.ecx)
      × ((q.tss nr).registers.edx ≡ r.edx)
      × ((q.tss nr).registers.esi ≡ r.esi)
      × ((q.tss nr).registers.edi ≡ r.edi)
      × ((q.tss nr).registers.ebp ≡ r.ebp)
  pub kernel_stack :
      ((q.tss nr).esp0 ≡ 4096 + (get_free_page w.memory).1) × ((q.tss nr).ldt ≡ nr * 16 + 40)
  pub others :
      (i : ℕ)
      → i ≢ nr
      → (q.segments i ≡ w.segments i) × (q.tss i ≡ w.tss i) × (q.task_page i ≡ w.task_page i)
  pub files :
      (x : ℕ) → q.f_count x ≡ (w.f_count x + uses 20 0 (current_task w.kernel).filp x) % 65536
  pub inodes :
      (x : ℕ)
      → q.i_count x
        ≡ (w.i_count x
            + refers (current_task w.kernel).pwd x
            + refers (current_task w.kernel).root x
            + refers (current_task w.kernel).executable x)
          % 65536

-- The state after copy_mem.
abbrev mapped : ℕ → Memory → Processes → Processes
mapped nr m w = record w {
  kernel = modify nr (λ t. record t { start_code = nr * 0x4000000 }) w.kernel;
  segments =
      update w.segments nr
        (record (w.segments nr) { code_base = nr * 0x4000000; data_base = nr * 0x4000000 });
  memory = m;
}

-- The state in which copy_process calls copy_mem.
abbrev started : ℕ → Registers → Processes → Processes
started nr r w =
    let (m, page) = get_free_page w.memory in
    record w {
      kernel = record (w.kernel) {
        present = update (w.kernel.present) nr true;
        tasks = update (w.kernel.tasks) nr (newborn w.kernel);
      };
      memory = m;
      segments = update w.segments nr (w.segments w.kernel.current);
      tss = update w.tss nr (new_tss nr page r);
      task_page = update w.task_page nr page;
    }

-- The state after copy_process, from that in which it calls copy_mem.
abbrev forked : ℕ → Memory → Processes → Processes
forked nr m w =
    let v : Processes = mapped nr m w in
    let me : Task = current_task v.kernel in
    record v {
      kernel = modify nr (λ t. record t { state = 0 }) v.kernel;
      f_count = count_files nr_open 0 (v.kernel.tasks nr).filp v.f_count;
      i_count = count_inode me.executable (count_inode me.root (count_inode me.pwd v.i_count));
    }

-- The table with the new process in it.
abbrev with_child : ℕ → Kernel → Kernel
with_child nr k = record k {
  present = update k.present nr true;
  tasks = update k.tasks nr (record (newborn k) { state = 0; start_code = nr * 0x4000000 });
}
