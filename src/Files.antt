-- ===== src/Files.antt =====
-- fs/fcntl.c, `sys_pipe` of fs/pipe.c and `sys_close` of fs/open.c: the descriptors of a task and
-- the table of open files.
--
-- A file is its number in `file_table`, and `released` lists the inodes that `iput` was called on.
-- What `get_pipe_inode` of fs/inode.c returns is an argument.
pub mod Descriptors
mod Tests
use linux_0_11_comments.Exit.{nr_open}
use linux_0_11_comments.Kernel.{einval, modify_current, current_task, Kernel}
use linux_0_11_comments.Common.{
  ltb, leb, ◌==◌, if◌then◌else◌, update, ℤ, pos, negsuc, Bits, set_bit, clear_bit, Run, ◌>>=◌,
  close_free_file, ok, panic, ℕ, zero, suc, ◌+◌, ◌-◌, ◌*◌, ◌/◌, ◌%◌, ◌^◌, Option, none, some, List,
  ◌∷◌,
}

pub record File : Type 0 where
  pub f_mode : ℕ
  pub f_flags : ℕ
  pub f_count : ℕ
  pub f_inode : Option ℕ
  pub f_pos : ℕ

pub record Files : Type 0 where
  pub kernel : Kernel
  pub file : ℕ → File
  pub released : List (Option ℕ)

abbrev pub nr_file : ℕ
nr_file = 64

abbrev pub ebadf : ℤ
ebadf = negsuc 8

abbrev pub emfile : ℤ
emfile = negsuc 23

abbrev pub filp : Files → ℕ → Option ℕ
filp w = (current_task w.kernel).filp

-- current->filp[fd] = f
abbrev pub set_filp : ℕ → Option ℕ → Files → Files
set_filp fd f w = record w {
  kernel = modify_current (λ t. record t { filp = update t.filp fd f }) w.kernel;
}

abbrev pub set_cloexec : (Bits → Bits) → Files → Files
set_cloexec f w = record w {
  kernel = modify_current (λ t. record t { close_on_exec = f t.close_on_exec }) w.kernel;
}

abbrev pub set_file : ℕ → (File → File) → Files → Files
set_file i f w = record w { file = update w.file i (f (w.file i)) }

-- The file of a descriptor, if it is open.
abbrev pub open_file : ℕ → Files → Option ℕ
open_file fd w = if ltb fd nr_open then filp w fd else none

unfoldable pub sys_close : ℕ → Files → Run (Files × ℤ)
sys_close fd w =
    if leb nr_open fd
    then ok (w, einval)
    else let w' = set_cloexec (λ bits. clear_bit bits fd) w in
      elim (filp w fd) [
        | none ↦ ok (w', einval)
        | some f ↦
            let w' = set_filp fd none w' in
            let count = (w.file f).f_count in
            if count == 0
            then panic close_free_file
            else let w' = set_file f (λ x. record x { f_count = count - 1 }) w' in
              ok (
                if count == 1 then record w' { released = (w.file f).f_inode ∷ w.released } else w',
                pos 0,
              )
      ]

-- The first descriptor that is not open among i, i + 1, ...
unfoldable pub free_descriptor : ℕ → ℕ → (ℕ → Option ℕ) → Option ℕ
free_descriptor zero i fds = none
free_descriptor (suc n) i fds =
    let rest = free_descriptor n (i + 1) fds in elim (fds i) [ none ↦ some i | some f ↦ rest ]

unfoldable pub dupfd : ℕ → ℕ → Files → Files × ℤ
dupfd fd arg w = elim (open_file fd w) [
  | none ↦ (w, ebadf)
  | some f ↦
      if leb nr_open arg then (w, einval) else elim (free_descriptor (nr_open - arg) arg (filp w)) [
        | none ↦ (w, emfile)
        | some i ↦
            let w = set_filp i (some f) (set_cloexec (λ bits. clear_bit bits i) w) in
            (set_file f (λ x. record x { f_count = (x.f_count + 1) % 2 ^ 16 }) w, pos i)
      ]
]

unfoldable pub sys_dup2 : ℕ → ℕ → Files → Run (Files × ℤ)
sys_dup2 oldfd newfd w = sys_close newfd w >>= λ (w, err). ok (dupfd oldfd newfd w)

unfoldable pub sys_dup : ℕ → Files → Files × ℤ
sys_dup fildes w = dupfd fildes 0 w

-- The bits O_APPEND and O_NONBLOCK, 02000 and 04000, of `arg` replace those of `flags`.
abbrev pub with_flags : ℕ → ℕ → ℕ
with_flags flags arg = flags / 4096 * 4096 + arg / 1024 % 4 * 1024 + flags % 1024

unfoldable pub sys_fcntl : ℕ → ℕ → ℕ → Files → Files × ℤ
sys_fcntl fd cmd arg w = elim (open_file fd w) [
  | none ↦ (w, ebadf)
  | some f ↦
      if cmd == 0
      then dupfd fd arg w
      else if cmd == 1
      then (w, if (current_task w.kernel).close_on_exec fd then pos 1 else pos 0)
      else if cmd == 2
      then (
        set_cloexec (λ bits. if arg % 2 == 1 then set_bit bits fd else clear_bit bits fd) w,
        pos 0,
      )
      else if cmd == 3
      then (w, pos (w.file f).f_flags)
      else if cmd == 4
      then (set_file f (λ x. record x { f_flags = with_flags x.f_flags arg }) w, pos 0)
      else (w, negsuc 0)
]

-- The first unused file among i, i + 1, ...
unfoldable pub free_file : ℕ → ℕ → (ℕ → File) → Option ℕ
free_file zero i file = none
free_file (suc n) i file =
    let rest = free_file n (i + 1) file in if (file i).f_count == 0 then some i else rest

-- Two values from a search `from i`, the second one behind the first.
abbrev pub two : (ℕ → Option ℕ) → Option (ℕ × ℕ)
two find = elim (find 0) [
  | none ↦ none
  | some i ↦ elim (find (i + 1)) [ none ↦ none | some j ↦ some (i, j) ]
]

-- On success the descriptors are what is stored through `fildes`; `none` is -1.
unfoldable pub sys_pipe : Option ℕ → Files → Files × Option (ℕ × ℕ)
sys_pipe inode w = elim (two (λ i. free_file (nr_file - i) i w.file)) [
  | none ↦ (w, none)
  | some (f, g) ↦ elim (two (λ i. free_descriptor (nr_open - i) i (filp w))) [
    | none ↦ (w, none)
    | some (fd, gd) ↦ elim inode [
      | none ↦ (w, none)
      | some n ↦
          let w = set_filp gd (some g) (set_filp fd (some f) w) in
          let ends : ℕ → Files → Files = λ mode.
            set_file (if mode == 1 then f else g)
              (λ x. record x { f_mode = mode; f_count = 1; f_inode = some n; f_pos = 0 }) in
          (ends 2 (ends 1 w), some (fd, gd))
    ]
  ]
]
