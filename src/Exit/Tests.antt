-- ===== src/Exit/Tests.antt =====
-- The theorems on kernel/exit.c at a table with three tasks.
use linux_0_11_comments.Examples.{example}
use linux_0_11_comments.Sched.Choice.{IsFair}
use linux_0_11_comments.Exit.{
  free_task_page, Kernel, modify, sys_waitpid, World, sys_kill, is_awaited,
}
use linux_0_11_comments.Common.{
  leb, if◌then◌else◌, pos, negsuc, no_bits, set_bit, ok, ℕ, ◌≡◌, refl, true, false, ◌&&◌, some, [],
  ◌∷◌, arith,
}
use linux_0_11_comments.Exit.Kill.{is_target, sys_kill-signals}
use linux_0_11_comments.Exit.Wait.{sys_waitpid-zombie}

sys_kill-signals_example : (sys_kill (pos 2) (pos 15) example).0 ≡ record example {
  tasks = λ i.
      if example.present i && (leb 1 i && leb i 63) && is_target (pos 2) example (example.tasks i)
      then record (example.tasks i) { signal = set_bit (example.tasks i).signal 14 }
      else example.tasks i;
}
sys_kill-signals_example = sys_kill-signals (pos 2) 15 example (omega arith) (omega arith)

abbrev childless : World
childless = record { kernel = example; effects = [] }

no_child : (i : ℕ) → is_awaited (negsuc 0) example i ≡ false
no_child i = ground arith

-- `init` runs, and its child has exited with code 256.
abbrev bereaved : World
bereaved = record {
  kernel = record (modify 2 (λ t. record t { state = 3; exit_code = 256 }) example) { current = 1 };
  effects = [];
}

bereaved-IsFair : IsFair bereaved.kernel
bereaved-IsFair i h = (ground arith, ground arith)

sys_waitpid-zombie_example :
    (i : ℕ) × (is_awaited (negsuc 0) bereaved.kernel i ≡ true)
    × ((bereaved.kernel.tasks i).state ≡ 3)
    × (k : Kernel) × (k.present i ≡ false)
    × (sys_waitpid (λ k. k) 1 (negsuc 0) no_bits bereaved
        ≡ ok (
          record { kernel = k; effects = free_task_page i ∷ [] },
          ((bereaved.kernel.tasks i).pid, some (bereaved.kernel.tasks i).exit_code),
        ))
sys_waitpid-zombie_example =
    sys_waitpid-zombie (λ k. k) 0 (negsuc 0) no_bits bereaved 2 (omega arith) (omega arith) refl
      refl refl bereaved-IsFair
