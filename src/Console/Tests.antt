-- ===== src/Console/Tests.antt =====
-- A colour EGA display of 80 columns, and the theorems on it.
use linux_0_11_comments.Console.Sequences.{step-Keeps}
use linux_0_11_comments.Console.Scroll.{scrup, lf}
use linux_0_11_comments.Console.Escape.{
  place_cursor, control, parameter, start_parameters, escaped, wrap_line, back, show_char, plain,
  step,
}
use linux_0_11_comments.Console.Scrolling.{scrup-IsScrolled, IsScrolled}
use linux_0_11_comments.Tty.{Termios, TtyQueue}
use linux_0_11_comments.Console.Output.{con_init-IsConsole}
use linux_0_11_comments.Console.Write.{
  put_all, react, write_next, write_chars, con_write, Screen, con_init, BootVideo,
}
use linux_0_11_comments.Console.Cursor.{Keeps, IsConsole}
use linux_0_11_comments.Console.{gotoxy, set_cursor, Console}
use linux_0_11_comments.Common.{
  ◌==◌, if◌then◌else◌, pos, ℕ, ◌+◌, ◌*◌, ◌≡◌, refl, true, false, none, List, [], ◌∷◌, arith,
}

abbrev ega_80 : BootVideo
ega_80 = record { orig_x = 0; orig_y = 24; orig_mode = 3; orig_cols = 80; orig_ega_bx = 0 }

abbrev screen_80 : Console
screen_80 = con_init ega_80 (λ _. 0)

screen_80-IsConsole : IsConsole screen_80
screen_80-IsConsole =
    con_init-IsConsole ega_80 (λ _. 0) (omega arith) (omega arith) (omega arith) (omega arith)

abbrev termios : Termios
termios = record {
  icrnl = true;
  igncr = false;
  inlcr = false;
  iuclc = false;
  opost = true;
  onlcr = true;
  ocrnl = false;
  onlret = false;
  olcuc = false;
  icanon = true;
  isig = true;
  echo = true;
  echoctl = true;
  c_cc = λ i. if i == 2 then 127 else 0;
}

abbrev queue_of : List ℕ → TtyQueue
queue_of cs = put_all cs (record { lines = 0; head = 0; tail = 0; proc_list = none; buf = λ _. 0 })

abbrev writing : List ℕ → Screen
writing cs = record {
  console = screen_80;
  tty = record {
    termios = termios;
    pgrp = pos 0;
    stopped = false;
    read_q = queue_of [];
    write_q = queue_of cs;
    secondary = queue_of [];
  };
  beepcount = 0;
}

abbrev output : List ℕ
output = 27 ∷ b'[' ∷ b'5' ∷ b';' ∷ b'7' ∷ b'H' ∷ b'a' ∷ b'b' ∷ 8 ∷ 10 ∷ []

-- The cursor and the character a after the output
output-places :
    ((con_write (λ s. s) (writing output)).console.x ≡ 7)
    × ((con_write (λ s. s) (writing output)).console.y ≡ 5)
    × ((con_write (λ s. s) (writing output)).console.video (0xb8000 + 160 * 4 + 12)
        ≡ 7 * 256 + b'a')
unfolding con_write write_chars write_next react step plain set_cursor show_char back lf wrap_line
    gotoxy con_init escaped start_parameters parameter control place_cursor
output-places = (refl, refl, refl)

-- An echo of the answer: the write queue is written by a second con_write.
abbrev echo_answer : Screen → Screen
echo_answer s = con_write (λ s. s) (record s { tty = record (s.tty) { write_q = s.tty.read_q } })

-- A query, which is answered, after some text
abbrev query : List ℕ
query = b'a' ∷ 27 ∷ b'[' ∷ b'5' ∷ b'n' ∷ 27 ∷ b'[' ∷ b'c' ∷ []

step-Keeps_example : Keeps screen_80 (step false b'a' screen_80).0
step-Keeps_example = step-Keeps false b'a' screen_80 screen_80-IsConsole

scrup-IsScrolled_example : IsScrolled screen_80 (scrup screen_80) 0 25
unfolding con_init gotoxy
scrup-IsScrolled_example = scrup-IsScrolled screen_80 screen_80-IsConsole refl
