-- ===== src/Console/Output.antt =====
-- What `con_write` and `con_init` leave (kernel/chr_drv/console.c).
use linux_0_11_comments.Console.Cursor.{Keeps, IsConsole}
use linux_0_11_comments.Console.{gotoxy}
use linux_0_11_comments.Console.Write.{BootVideo, con_init, Screen}
use linux_0_11_comments.Common.{
  ltb, leb, ◌==◌, if◌then◌else◌, ℕ, ◌+◌, ◌*◌, ◌%◌, ◌≤◌, ◌<◌, ◌≡◌, refl, Bool, true, false, ◌||◌,
  not, arith,
}

-- The answer to a query keeps the console in order, whatever it does to the queues: copy_to_cooked
-- may echo, and so call con_write itself.
unfoldable pub IsAnswer : (Screen → Screen) → Type 0
IsAnswer cook = (s : Screen) → IsConsole s.console → Keeps s.console (cook s).console

video_size :
    (mono ega : Bool) (start n : ℕ)
    → n ≤ 0x2000
    → start + n ≤ start + (if ega then (if mono then 0x8000 else 0x4000) else 0x2000)
video_size true true start n le = omega arith
video_size false true start n le = omega arith
video_size true false start n le = omega arith
video_size false false start n le = omega arith

-- For a display of 8 to 163 columns, with the boot's cursor on
-- the screen, con_init makes a console in order.
pub con_init-IsConsole :
    (boot : BootVideo) (video : ℕ → ℕ)
    → 8 ≤ boot.orig_cols
    → boot.orig_cols ≤ 163
    → boot.orig_x ≤ boot.orig_cols
    → boot.orig_y < 25
    → IsConsole (con_init boot video)
unfolding con_init gotoxy
con_init-IsConsole boot video wide narrow in_line on_screen =
    let mono = boot.orig_mode == 7 in
    let ega = not (boot.orig_ega_bx % 256 == 16) in
    let inside : (ltb boot.orig_cols boot.orig_x || leb 25 boot.orig_y) ≡ false = ground arith in
    rw inside (record {
      row = omega arith;
      wide = wide;
      in_line = in_line;
      on_screen = on_screen;
      at = refl;
      region = omega arith;
      region_fits = omega arith;
      first = omega arith;
      last = refl;
      fits = video_size mono ega _ (25 * (boot.orig_cols * 2)) (omega arith);
    })
