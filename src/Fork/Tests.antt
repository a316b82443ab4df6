-- ===== src/Fork/Tests.antt =====
-- A fork of the running task of the example table, with an empty page directory.
use linux_0_11_comments.Examples.{example}
use linux_0_11_comments.Fork.{new_tss, Registers, Processes, Segments}
use linux_0_11_comments.Memory.{Memory}
use linux_0_11_comments.Common.{ltb, leb, if◌then◌else◌, update, ◌&&◌}

abbrev free_memory : Memory
free_memory = record { word = λ _. 0; mem_map = λ _. 0; high_memory = 0x1000000 }

abbrev small_segments : Segments
small_segments = record {
  code_base = 0x8000000;
  data_base = 0x8000000;
  code_limit = 0xa0000;
  data_limit = 0xa0000;
}

abbrev no_registers : Registers
no_registers = record {
  ebp = 0;
  edi = 0;
  esi = 0;
  gs = 23;
  ebx = 0;
  ecx = 0;
  edx = 0;
  fs = 23;
  es = 23;
  ds = 23;
  eip = 100;
  cs = 15;
  eflags = 0;
  esp = 0x1000;
  ss = 23;
}

abbrev processes : Processes
processes = record {
  kernel = example;
  memory = free_memory;
  segments = λ _. small_segments;
  tss = λ _. new_tss 0 0 no_registers;
  task_page = λ _. 0;
  f_count = λ _. 1;
  i_count = λ _. 1;
}

abbrev one_less : Memory
one_less = record {
  word = λ a. if leb 0xfff000 a && ltb a 0x1000000 then 0 else 0;
  mem_map = update (λ _. 0) 3839 1;
  high_memory = 0x1000000;
}
