-- ===== src/Lib.antt =====
-- The kernel of Linux 0.11 as far as it decides what user processes get: which task runs, who
-- may signal or become whom, how a process ends and is waited for, which physical page an
-- address maps to, in which order the disk is asked for blocks and which buffer holds a block,
-- which lines a terminal gives its readers, what the console shows, which inode a path means,
-- and what the kernel allocates and prints.
--
-- The parts, and the files that model them:
-- - include/linux/sched.h, include/signal.h, include/errno.h: Kernel has the task structure, the
--   task table and `current`. A pointer to a task is the number of its slot in `task[]`. Bitmaps
--   are maps from bit numbers to Booleans, and counters are integers.
-- - kernel/mktime.c: Mktime, with the wrap-around of `long`.
-- - kernel/sched.c: Sched has `schedule`, Sched.Sleep `sleep_on`, `interruptible_sleep_on` and
--   `wake_up`, Sched.Timer `add_timer`, Sched.Tick `do_timer` and the floppy motors, and
--   Sched.Calls the system calls, with `find_empty_process` of kernel/fork.c.
-- - kernel/fork.c: Fork, with `copy_process`, `copy_mem` and `verify_area`.
-- - kernel/sys.c: Sys has the calls that change users, groups, sessions, the clock, the break
--   and the umask, and Sys.Unimplemented those that return ENOSYS, with `times`.
-- - kernel/signal.c: Signal has `signal`, `sigaction`, the masks and `do_signal`.
-- - kernel/exit.c: Exit has `kill`, `exit` and `waitpid`. What they ask of the memory manager,
--   the files and the terminals is a list of calls.
-- - mm/memory.c: Memory has the page map and the page tables, and Memory.Faults copy on write,
--   sharing and demand loading. Physical memory is a map from addresses to 32-bit words.
-- - kernel/blk_drv/ll_rw_blk.c and blk.h: Block has the request slots and the elevator.
-- - fs/buffer.c: Cache has the hash queues and the free list as lists of buffer numbers, over
--   the buffer heads of Block. The device and the writing of inodes are a record `Io` of
--   operations.
-- - fs/bitmap.c: Bitmap has the bitmaps of zones and inodes, as blocks in the cache.
-- - `bmap` and `create_block` of fs/inode.c, and fs/truncate.c: Bmap; fs/file_dev.c:
--   Bmap.Access.
-- - The rest of fs/inode.c, and `get_super` of fs/super.c: Inodes has the tables and their
--   locks, Inodes.Format `read_inode` and `write_inode`, Inodes.Table `iput`, `sync_inodes` and
--   `invalidate_inodes`, Inodes.Get `iget`, `get_empty_inode` and `get_pipe_inode`. A pointer to
--   an inode is its place in the table.
-- - fs/namei.c: Directory has `permission` and `match`, Directory.Entries `find_entry`,
--   `add_entry` and `empty_dir`, Directory.Path `get_dir`, `dir_namei` and `namei`,
--   Directory.Open `open_namei`, Directory.Make `mknod`, `mkdir` and `link`, and
--   Directory.Remove `unlink` and `rmdir`.
-- - kernel/chr_drv/tty_io.c and include/linux/tty.h: Tty has the queues and the line discipline
--   (`copy_to_cooked`), Tty.Reading `tty_read` and Tty.Writing `tty_write`. The device's `write`
--   is an argument.
-- - kernel/chr_drv/console.c: Console has the state of the screen, Console.Scroll and
--   Console.Edit what moves and erases words of video memory, Console.Escape the escape
--   sequences, and Console.Write `con_write` and `con_init`. `copy_to_cooked`, which answers a
--   query of the terminal and may call `con_write` again, is an argument (`cook`).
-- - lib/malloc.c: Heap has `malloc` and `free_s`. The free objects are linked in memory, the
--   descriptors in lists.
-- - kernel/vsprintf.c: Printf.Number has `number` and `skip_atoi`, Printf the format. The
--   argument list is a map from positions to words, and the strings it points to are another.
-- - fs/pipe.c: Pipe has `read_pipe` and `write_pipe`.
-- - fs/fcntl.c, `sys_close` of fs/open.c and `sys_pipe` of fs/pipe.c: Files.
--
-- Functions keep their C names, and take and return the state that they change. A function that
-- can panic, end the task or loop returns a `Run` (Common.Runs). Exit, Pipe and Sched.Tick use
-- `schedule`, Memory.Faults uses the task table of Kernel, and Fork uses the page tables of
-- Memory. Heap takes its pages from Memory. Bmap allocates and frees through Bitmap, which reads
-- and changes its blocks through Cache, and Cache locks and queues through Block. Inodes reads
-- and writes through Cache, frees through Bmap and Bitmap, and takes the pages of pipes from
-- Memory; Directory uses the inodes of Inodes and the blocks of Bmap. Console reads the queue of
-- Tty. Tty sleeps and wakes through Sched; the other parts share only the task structure. Each
-- Tests module runs the theorems of its part on a small state, mostly that of Examples.
--
-- Bounds and fuel: the loop of `schedule` runs on a fuel of two rounds; the second round follows
-- a recharge of the counters. The loops that wait for other tasks (`interruptible_sleep_on`,
-- `waitpid`, pipes, the lock of a buffer, a free request slot, an unused buffer, a terminal, an
-- inode, a super block) run on fuel that the caller gives, since only other tasks and interrupts
-- can end them; what those do is an argument (`away`). The loop for a free process number and
-- the one that calls expired timers run on fuel as well. `copy_to_cooked` gives its loop one
-- round for each character that waits and one more, and `vsprintf` one for each character of the
-- format and one more; the theorems show that this is enough. `verify_area` gives its loop a
-- round for each page and one more, `find_entry` and `empty_dir` one for each entry and one
-- more, `get_dir` one for each byte of the path and one more. `add_entry` runs on rounds that
-- the caller gives, since it goes on while blocks cannot be read. Counters, ticks and process
-- numbers are unbounded integers; addresses, user numbers, page counts and the result of
-- `kernel_mktime` wrap around as in C.
--
-- Not modelled: mounts, program loading, the terminal's control calls and the drivers of the
-- disks, because this library does not reach them; what other tasks do to an inode while the
-- code waits for a block; assembly, port input and output, segment descriptors, the translation
-- cache and messages, because no result depends on them.
pub mod Common
pub mod Mktime
pub mod Examples
pub mod Inodes
pub mod Kernel
pub mod Sched
pub mod Sys
pub mod Signal
pub mod Exit
pub mod Memory
pub mod Block
pub mod Files
pub mod Fork
pub mod Cache
pub mod Pipe
pub mod Printf
pub mod Console
pub mod Tty
pub mod Heap
pub mod Bitmap
pub mod Bmap
pub mod Directory
