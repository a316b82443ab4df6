-- ===== src/Console/Write.antt =====
-- kernel/chr_drv/console.c: `con_write` and `con_init`.
--
-- `cook` stands for the call of `copy_to_cooked` on an answer, which may call `con_write` again for
-- the echo.
use linux_0_11_comments.Console.Escape.{quiet, answer, beep}
use linux_0_11_comments.Console.Escape.{step, Event}
use linux_0_11_comments.Console.{set_cursor, gotoxy, Console}
use linux_0_11_comments.Tty.{is_erase, Tty, putch, TtyQueue, chars, getch}
use linux_0_11_comments.Common.{
  ◌==◌, if◌then◌else◌, update, ℕ, zero, suc, ◌+◌, ◌-◌, ◌*◌, ◌/◌, ◌%◌, Bool, false, not, List, [],
  ◌∷◌,
}

-- The console, the terminal that writes to it, and `beepcount`
pub record Screen : Type 0 where
  pub console : Console
  pub tty : Tty
  pub beepcount : ℕ

abbrev pub response : List ℕ
response = 27 ∷ b'[' ∷ b'?' ∷ b'1' ∷ b';' ∷ b'2' ∷ b'c' ∷ []

abbrev pub put_all : List ℕ → TtyQueue → TtyQueue
put_all [] q = q
put_all (c ∷ cs) q = put_all cs (putch c q)

-- respond, before the call of copy_to_cooked
abbrev pub respond : Screen → Screen
respond s = record s { tty = record (s.tty) { read_q = put_all response s.tty.read_q } }

unfoldable pub react : (Screen → Screen) → Event → Screen → Screen
react cook quiet s = s
react cook answer s = cook (respond s)
react cook beep s = record s { beepcount = 12 }

-- The loop body: the next character of the write queue
unfoldable pub write_next : (Screen → Screen) → Screen → Screen
write_next cook s =
    let (c, q) = getch s.tty.write_q in
    let (console, event) = step (is_erase s.tty.termios c) c s.console in
    react cook event (record s { console = console; tty = record (s.tty) { write_q = q } })

unfoldable pub write_chars : (Screen → Screen) → ℕ → Screen → Screen
write_chars cook zero s = s
write_chars cook (suc n) s = write_chars cook n (write_next cook s)

unfoldable pub con_write : (Screen → Screen) → Screen → Screen
con_write cook s =
    let written = write_chars cook (chars s.tty.write_q) s in
    record written { console = set_cursor written.console }

-- ORIG_X, ORIG_Y, ORIG_VIDEO_MODE, ORIG_VIDEO_COLS, ORIG_VIDEO_EGA_BX
pub record BootVideo : Type 0 where
  pub orig_x : ℕ
  pub orig_y : ℕ
  pub orig_mode : ℕ
  pub orig_cols : ℕ
  pub orig_ega_bx : ℕ

-- The name of the display, one character in the low byte of each word
unfoldable pub put_name : List ℕ → ℕ → (ℕ → ℕ) → ℕ → ℕ
put_name [] a video = video
put_name (c ∷ cs) a video = put_name cs (a + 2) (update video a (video a / 256 * 256 + c))

abbrev pub display_name : Bool → Bool → List ℕ
display_name mono ega =
    if ega
    then b'E' ∷ b'G' ∷ b'A' ∷ (if mono then b'm' else b'c') ∷ []
    else b'*' ∷ (if mono then b'M' else b'C') ∷ (if mono then b'D' else b'G') ∷ b'A' ∷ []

-- The variables that con_init does not set are 0, but `attr` is 7.
unfoldable pub con_init : BootVideo → (ℕ → ℕ) → Console
con_init boot video =
    let mono = boot.orig_mode == 7 in
    let ega = not (boot.orig_ega_bx % 256 == 16) in
    let start = if mono then 0xb0000 else 0xb8000 in
    let row = boot.orig_cols * 2 in
    gotoxy boot.orig_x boot.orig_y (record {
      ega = ega;
      num_columns = boot.orig_cols;
      size_row = row;
      num_lines = 25;
      mem_start = start;
      mem_end = start + (if ega then (if mono then 0x8000 else 0x4000) else 0x2000);
      erase_char = 0x0720;
      origin = start;
      scr_end = start + 25 * row;
      cursor = 0;
      x = 0;
      y = 0;
      top = 0;
      bottom = 25;
      state = 0;
      npar = 0;
      par = λ _. 0;
      ques = false;
      attr = 7;
      saved_x = 0;
      saved_y = 0;
      video = put_name (display_name mono ega) (start + row - 8) video;
      crtc = λ _. 0;
    })
