-- ===== src/Tty/Tests.antt =====
-- A terminal in canonical mode, and the theorems on it.
use linux_0_11_comments.Tty.Reading.{take_cooked, Reading, drain}
use linux_0_11_comments.Sched.Sleep.{resume, wake_up}
use linux_0_11_comments.Examples.{example}
use linux_0_11_comments.Tty.Lines.{copy_to_cooked-IsDone, IsDone}
use linux_0_11_comments.Tty.Cooked.{IsSender}
use linux_0_11_comments.Tty.Queue.{IsLined, ends}
use linux_0_11_comments.Tty.{
  tty_intr, wake_readers, translate, kill_line, erase_last, echo_char, store_char, cook_char,
  cook_next, getch, cook_loop, chars, putch, Terminal, Tty, copy_to_cooked, Termios, TtyQueue,
}
use linux_0_11_comments.Common.{
  ◌==◌, if◌then◌else◌, pos, Run, ok, ℕ, zero, suc, ◌≡◌, refl, true, false, none, List, [], ◌∷◌,
  arith,
}

-- CR is read as NL; ^U kills the line and DEL erases a character.
abbrev settings : Termios
settings = record {
  icrnl = true;
  igncr = false;
  inlcr = false;
  iuclc = false;
  opost = true;
  onlcr = true;
  ocrnl = false;
  onlret = false;
  olcuc = false;
  icanon = true;
  isig = true;
  echo = true;
  echoctl = true;
  c_cc = λ i.
      if i == 0
      then 3
      else if i == 1
      then 28
      else if i == 2
      then 127
      else if i == 3
      then 21
      else if i == 4
      then 4
      else 0;
}

abbrev no_chars : TtyQueue
no_chars = record { lines = 0; head = 0; tail = 0; proc_list = none; buf = λ i. 0 }

abbrev typed : List ℕ → TtyQueue
typed [] = no_chars
typed (c ∷ cs) = putch c (typed cs)

-- Typed: a, b, DEL, c, CR, x, y, the kill character, z (the list has the last one first).
abbrev console : Terminal
console = record {
  tty = record {
    termios = settings;
    pgrp = pos 0;
    stopped = false;
    read_q = typed (b'z' ∷ 21 ∷ b'y' ∷ b'x' ∷ 13 ∷ b'c' ∷ 127 ∷ b'b' ∷ b'a' ∷ []);
    write_q = no_chars;
    secondary = no_chars;
  };
  kernel = example;
}

-- A device that takes all there is.
abbrev send_all : Tty → Tty
send_all t = record t { write_q = record (t.write_q) { tail = t.write_q.head } }

send_all-IsSender : IsSender send_all
unfolding IsSender
send_all-IsSender t = (refl, refl, refl)

-- The characters of a queue, the first one to be read first.
abbrev chars_of : ℕ → TtyQueue → List ℕ
chars_of zero q = []
chars_of (suc n) q = (getch q).0 ∷ chars_of n (getch q).1

abbrev cooked_chars : Run Terminal → List ℕ
cooked_chars (ok w) = chars_of (chars w.tty.secondary) w.tty.secondary
cooked_chars r = []

-- The secondary queue is then a, c, NL, z, of one line.
cooked_example : cooked_chars (copy_to_cooked send_all console) ≡ b'a' ∷ b'c' ∷ 10 ∷ b'z' ∷ []
unfolding copy_to_cooked cook_loop cook_next cook_char store_char echo_char erase_last kill_line
    translate wake_readers tty_intr wake_up resume
cooked_example = refl

no_chars-IsLined : IsLined settings no_chars
unfolding ends
no_chars-IsLined = record { valid = (omega arith, omega arith); counted = refl }

copy_to_cooked-IsDone_example : (v : Terminal) × (copy_to_cooked send_all console ≡ ok v) × IsDone v
copy_to_cooked-IsDone_example =
    copy_to_cooked-IsDone send_all console send_all-IsSender (omega arith, omega arith)
      no_chars-IsLined

-- The line "ok" waits to be read.
abbrev waiting_line : Terminal
waiting_line = record console {
  tty = record (console.tty) { secondary = record (typed (10 ∷ b'k' ∷ b'o' ∷ [])) { lines = 1 } };
}

abbrev drained : Reading
drained = drain 9 (λ i. 0) 0 waiting_line

drained_line : (drained.position ≡ 3) × (drained.buf 1 ≡ b'k') × (drained.nr ≡ 7)
unfolding drain take_cooked
drained_line = (refl, refl, refl)
