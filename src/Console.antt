-- ===== src/Console.antt =====
-- kernel/chr_drv/console.c: the screen, and the escape sequences that a terminal's output may hold.
--
-- Video memory is a map from the addresses of its 16-bit words, which are even, to the words. A
-- string instruction that copies words to lower addresses upwards, or to higher ones downwards,
-- copies what stood there before. `pos` is `cursor`. A character is a byte, and the bytes from 128
-- on are negative in the source. Of the ports only the registers of the video controller that hold
-- the origin and the cursor are modelled; the beep is an event.
pub mod Scroll
pub mod Edit
pub mod Escape
pub mod Cursor
pub mod Lines
pub mod Screen
pub mod Steps
pub mod Sequences
pub mod Write
pub mod Scrolling
pub mod Output
mod Tests
use linux_0_11_comments.Common.{
  ltb, leb, if◌then◌else◌, update, ℕ, ◌+◌, ◌-◌, ◌*◌, ◌/◌, ◌%◌, Bool, ◌&&◌, ◌||◌,
}

-- The static variables of console.c; `ega` says that video_type is one of the two EGA types.
pub record Console : Type 0 where
  pub ega : Bool
  pub num_columns : ℕ
  pub size_row : ℕ
  pub num_lines : ℕ
  pub mem_start : ℕ
  pub mem_end : ℕ
  pub erase_char : ℕ
  pub origin : ℕ
  pub scr_end : ℕ
  pub cursor : ℕ
  pub x : ℕ
  pub y : ℕ
  pub top : ℕ
  pub bottom : ℕ
  pub state : ℕ
  pub npar : ℕ
  pub par : ℕ → ℕ
  pub ques : Bool
  pub attr : ℕ
  pub saved_x : ℕ
  pub saved_y : ℕ
  pub video : ℕ → ℕ
  pub crtc : ℕ → ℕ

-- rep stosw, for `count` words from `start` on
abbrev pub fill : ℕ → ℕ → ℕ → (ℕ → ℕ) → ℕ → ℕ
fill word start count video a = if leb start a && ltb a (start + 2 * count) then word else video a

-- rep movsl, for `count` words
abbrev pub move : ℕ → ℕ → ℕ → (ℕ → ℕ) → ℕ → ℕ
move dest source count video a =
    if leb dest a && ltb a (dest + 2 * count) then video (source + (a - dest)) else video a

abbrev pub erase_words : ℕ → ℕ → Console → Console
erase_words start count c = record c { video = fill c.erase_char start count c.video }

unfoldable pub gotoxy : ℕ → ℕ → Console → Console
gotoxy new_x new_y c =
    if ltb c.num_columns new_x || leb c.num_lines new_y
    then c
    else record c { x = new_x; y = new_y; cursor = c.origin + new_y * c.size_row + 2 * new_x }

abbrev pub set_registers : ℕ → ℕ → Console → Console
set_registers n address c =
    let at = address - c.mem_start in
    record c { crtc = update (update c.crtc n (at / 512 % 256)) (n + 1) (at / 2 % 256) }

unfoldable pub set_origin : Console → Console
set_origin c = set_registers 12 c.origin c

unfoldable pub set_cursor : Console → Console
set_cursor c = set_registers 14 c.cursor c
