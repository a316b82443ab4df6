-- ===== src/Examples.antt =====
-- A small task table for the tests: the idle task, `init`, and a child of `init` that runs; and a
-- small buffer cache.
use linux_0_11_comments.Bitmap.{SuperBlock, set_data}
use linux_0_11_comments.Cache.{block_io, Io, Cache}
use linux_0_11_comments.Block.{Requests}
use linux_0_11_comments.Sched.Choice.{IsFair}
use linux_0_11_comments.Kernel.{Sigaction, Kernel, Task}
use linux_0_11_comments.Common.{
  leb, ◌==◌, if◌then◌else◌, pos, negsuc, no_bits, ℕ, true, false, none, some, [], ◌∷◌, arith,
}

abbrev pub no_action : Sigaction
no_action = record { sa_handler = 0; sa_mask = no_bits; sa_flags = no_bits; sa_restorer = 0 }

abbrev pub example_task : ℕ → ℕ → ℕ → Task
example_task number parent user = record {
  state = 0;
  counter = pos 15;
  priority = pos 15;
  signal = no_bits;
  sigaction = λ _. no_action;
  blocked = no_bits;
  exit_code = 0;
  start_code = 0;
  end_code = 0;
  end_data = 0;
  brk = 0;
  start_stack = 0;
  pid = pos number;
  father = pos parent;
  pgrp = pos number;
  session = pos 1;
  leader = false;
  uid = user;
  euid = user;
  suid = user;
  gid = user;
  egid = user;
  sgid = user;
  alarm = pos 0;
  utime = pos 0;
  stime = pos 0;
  cutime = pos 0;
  cstime = pos 0;
  start_time = pos 0;
  used_math = false;
  tty = negsuc 0;
  umask = 18;
  pwd = none;
  root = none;
  executable = none;
  close_on_exec = no_bits;
  filp = λ _. none;
}

abbrev pub example_tasks : ℕ → Task
example_tasks i =
    if i == 2 then example_task 2 1 5 else if i == 1 then example_task 1 0 0 else example_task 0 0 0

-- The child runs.
abbrev pub example : Kernel
example = record {
  present = λ i. leb i 2;
  tasks = example_tasks;
  current = 2;
  jiffies = pos 1000;
  startup_time = pos 0;
  last_pid = pos 2;
  last_task_used_math = none;
}

pub example-IsFair : IsFair example
example-IsFair i h = (ground arith, ground arith)

-- No requests, and a buffer cache of three unused buffers.
abbrev pub no_requests : Requests
no_requests = record {
  request =
      λ _. record { dev = negsuc 0; cmd = 0; errors = 0; sector = 0; nr_sectors = 0; bh = none };
  buffer =
      λ _. record { b_dev = 0; b_blocknr = 0; b_uptodate = false; b_dirt = false; b_lock = false };
  queue = λ _. [];
  has_fn = λ _. true;
  started = [];
}

abbrev pub empty_cache : Cache
empty_cache = record {
  requests = no_requests;
  b_count = λ _. 0;
  b_data = λ _ _. 0;
  hash = λ _. [];
  free = 0 ∷ 1 ∷ 2 ∷ [];
  nr_buffers = 3;
}

-- Buffer 0 is the bitmap of the zones, with the bits 0 and 1 set.
abbrev pub mounted : Cache
mounted = set_data 0 (λ i. if i == 0 then 3 else 0) empty_cache

abbrev pub small_super : SuperBlock
small_super = record {
  s_ninodes = 100;
  s_nzones = 200;
  s_firstdatazone = 10;
  s_imap = λ _. none;
  s_zmap = λ i. if i == 0 then some 0 else none;
}

-- A device without other tasks
abbrev pub idle : Io
idle = block_io 1 (λ s. s)
