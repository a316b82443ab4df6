-- ===== src/Files/Tests.antt =====
-- Descriptors of the running task of the example table.
use linux_0_11_comments.Examples.{example}
use linux_0_11_comments.Files.{
  current_task, filp, modify_current, free_file, dupfd, sys_pipe, Files,
}
use linux_0_11_comments.Common.{
  leb, ◌==◌, if◌then◌else◌, ℤ, pos, ℕ, ◌≤◌, ◌<◌, ◌≡◌, refl, ◌≢◌, false, none, some, [], arith,
}
use linux_0_11_comments.Files.Descriptors.{dupfd-lowest}

-- The descriptors 0 and 1 are open, and name the file 5.
abbrev files : Files
files = record {
  kernel =
      modify_current (λ t. record t { filp = λ fd. if leb fd 1 then some 5 else none }) example;
  file = λ _. record { f_mode = 1; f_flags = 0; f_count = 2; f_inode = some 1; f_pos = 0 };
  released = [];
}

dupfd-lowest_example :
    let r : Files × ℤ = dupfd 0 1 files in
    (i : ℕ) × (r.1 ≡ pos i)
    × (1 ≤ i)
    × (filp files i ≡ none)
    × ((x : ℕ) → 1 ≤ x → x < i → filp files x ≢ none)
    × ((x : ℕ) → filp r.0 x ≡ (if i == x then some 5 else filp files x))
    × ((current_task r.0.kernel).close_on_exec i ≡ false)
    × ((r.0.file 5).f_count ≡ 3)
dupfd-lowest_example =
    dupfd-lowest 0 1 5 3 files refl (omega arith) (omega arith) refl (omega arith)

all_files_in_use : (sys_pipe (some 9) files).1 ≡ none
unfolding sys_pipe free_file
all_files_in_use = refl
