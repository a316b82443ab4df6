-- ===== src/Signal/Tests.antt =====
-- The theorems on kernel/signal.c at a table with three tasks.
use linux_0_11_comments.Examples.{example}
use linux_0_11_comments.Signal.{sys_ssetmask, do_signal, sys_sigaction, Frame}
use linux_0_11_comments.Kernel.{modify_current, current_task, Sigaction, Kernel}
use linux_0_11_comments.Common.{
  Bits, Bits, Bits, Bits, pos, Bits, no_bits, set_bit, ◌≡◌, refl, true, false, arith,
}
use linux_0_11_comments.Signal.Handling.{IsDelivered, do_signal-handled, sigkill_blocked}

-- A handler at 4096 whose mask has the bit of SIGKILL.
abbrev catch : Sigaction
catch = record {
  sa_handler = 4096;
  sa_mask = set_bit no_bits 8;
  sa_flags = no_bits;
  sa_restorer = 8192;
}

abbrev frame : Frame
frame = record { eax = 1; ecx = 2; edx = 3; eflags = 4; eip = 100; esp = 65536 }

abbrev caught : Kernel
caught = modify_current (λ t. record t { sigaction = λ _. catch }) example

do_signal-handled_example : IsDelivered 2 catch frame caught (do_signal 2 frame caught)
do_signal-handled_example = do_signal-handled 2 frame caught (omega arith) (omega arith)

sigkill_blocked_example :
    ((current_task (do_signal 2 frame (sys_sigaction (pos 2) catch example).0).0).blocked 8 ≡ true)
    × ((newmask : Bits) → (current_task (sys_ssetmask newmask example).0).blocked 8 ≡ false)
sigkill_blocked_example =
    sigkill_blocked 2 catch frame example (omega arith) (omega arith) (omega arith) (omega arith)
      refl refl
