-- ===== src/Kernel.antt =====
-- include/linux/sched.h, include/signal.h, include/errno.h: the task structure, the task table and
-- the constants that the parts of the kernel share.
--
-- A `struct task_struct *` is the number of the slot of `task[]` that the task was put in. The
-- structure of a slot is `tasks i`, and `present i` says whether `task[i]` is not NULL, so that the
-- structure of the running task can still be read when its slot has been cleared. Words that the
-- kernel uses as bitmaps are `Bits`. A `long` or `int` that is used as a number is an integer.
use linux_0_11_comments.Common.{
  leb, ◌==◌, if◌then◌else◌, ==_iff, Bool-cases, update, ℤ, negsuc, Bits, ℕ, zero, suc, ◌≡◌, ap,
  fun_ext, inl, inr, Bool, ◌&&◌, Option, arith,
}

-- struct sigaction
pub record Sigaction : Type 0 where
  pub sa_handler : ℕ
  pub sa_mask : Bits
  pub sa_flags : Bits
  pub sa_restorer : ℕ

-- struct task_struct, less the descriptors, the TSS and the floating point state. An inode or a
-- file is its number in the kernel's table.
pub record Task : Type 0 where
  pub state : ℕ
  pub counter : ℤ
  pub priority : ℤ
  pub signal : Bits
  pub sigaction : ℕ → Sigaction
  pub blocked : Bits
  pub exit_code : ℕ
  pub start_code : ℕ
  pub end_code : ℕ
  pub end_data : ℕ
  pub brk : ℕ
  pub start_stack : ℕ
  pub pid : ℤ
  pub father : ℤ
  pub pgrp : ℤ
  pub session : ℤ
  pub leader : Bool
  pub uid : ℕ
  pub euid : ℕ
  pub suid : ℕ
  pub gid : ℕ
  pub egid : ℕ
  pub sgid : ℕ
  pub alarm : ℤ
  pub utime : ℤ
  pub stime : ℤ
  pub cutime : ℤ
  pub cstime : ℤ
  pub start_time : ℤ
  pub used_math : Bool
  pub tty : ℤ
  pub umask : ℕ
  pub pwd : Option ℕ
  pub root : Option ℕ
  pub executable : Option ℕ
  pub close_on_exec : Bits
  pub filp : ℕ → Option ℕ

-- The globals task, current, jiffies, startup_time, last_pid and
-- last_task_used_math.
pub record Kernel : Type 0 where
  pub present : ℕ → Bool
  pub tasks : ℕ → Task
  pub current : ℕ
  pub jiffies : ℤ
  pub startup_time : ℤ
  pub last_pid : ℤ
  pub last_task_used_math : Option ℕ

abbrev pub nr_tasks : ℕ
nr_tasks = 64

abbrev pub last_task : ℕ
last_task = 63

abbrev pub hz : ℕ
hz = 100

abbrev pub task_running : ℕ
task_running = 0

abbrev pub task_interruptible : ℕ
task_interruptible = 1

abbrev pub task_uninterruptible : ℕ
task_uninterruptible = 2

abbrev pub task_zombie : ℕ
task_zombie = 3

abbrev pub task_stopped : ℕ
task_stopped = 4

abbrev pub sighup : ℕ
sighup = 1

abbrev pub sigkill : ℕ
sigkill = 9

abbrev pub sigint : ℕ
sigint = 2

abbrev pub sigquit : ℕ
sigquit = 3

abbrev pub sigpipe : ℕ
sigpipe = 13

abbrev pub sigalrm : ℕ
sigalrm = 14

abbrev pub sigchld : ℕ
sigchld = 17

abbrev pub sigstop : ℕ
sigstop = 19

-- The negative results of include/errno.h.
abbrev pub eperm : ℤ
eperm = negsuc 0

abbrev pub esrch : ℤ
esrch = negsuc 2

abbrev pub eintr : ℤ
eintr = negsuc 3

abbrev pub echild : ℤ
echild = negsuc 9

abbrev pub eagain : ℤ
eagain = negsuc 10

abbrev pub einval : ℤ
einval = negsuc 21

-- current->...
abbrev pub current_task : Kernel → Task
current_task k = k.tasks k.current

-- Writes through a pointer to the task of slot `i`, and through `current`.
abbrev pub modify : ℕ → (Task → Task) → Kernel → Kernel
modify i f k = record k { tasks = update k.tasks i (f (k.tasks i)) }

abbrev pub modify_current : (Task → Task) → Kernel → Kernel
modify_current f k = modify k.current f k

-- suser(): is the effective user the superuser?
abbrev pub suser : Kernel → Bool
suser k = (current_task k).euid == 0

-- for (p = &task[n]; p > &FIRST_TASK; --p) if (*p) *p = f(*p)
unfoldable pub sweep : (Task → Task) → ℕ → Kernel → Kernel
sweep f zero k = k
sweep f (suc n) k = sweep f n (if k.present (suc n) then modify (suc n) f k else k)

-- The table after a sweep over the slots n, ..., 1.
abbrev pub swept : (Task → Task) → ℕ → Kernel → ℕ → Task
swept f n k i = if k.present i && (leb 1 i && leb i n) then f (k.tasks i) else k.tasks i

pub sweep-swept :
    (f : Task → Task) (n : ℕ) (k : Kernel) → sweep f n k ≡ record k { tasks = swept f n k }
unfolding sweep
sweep-swept f zero k = ap (λ (t : ℕ → Task). record k { tasks = t }) (fun_ext λ i. ground arith)
sweep-swept f (suc n) k = elim (Bool-cases (k.present (suc n))) [
  | inl here ↦
      rw (here, sweep-swept f n (modify (suc n) f k))
        (ap (λ (t : ℕ → Task). record k { tasks = t })
          (fun_ext λ i. ground (arith, ==_iff (suc n) i)))
  | inr gone ↦
      rw (gone, sweep-swept f n k)
        (ap (λ (t : ℕ → Task). record k { tasks = t })
          (fun_ext λ i. ground (arith, ==_iff (suc n) i)))
]

pub with_tasks :
    (k : Kernel) (f g : ℕ → Task)
    → ((i : ℕ) → f i ≡ g i)
    → ◌≡◌ {A = Kernel} (record k { tasks = f }) (record k { tasks = g })
with_tasks k f g h = ap (λ (t : ℕ → Task). record k { tasks = t }) (fun_ext h)
