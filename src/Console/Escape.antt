-- ===== src/Console/Escape.antt =====
-- kernel/chr_drv/console.c: what `con_write` does with one character, in each state.
use linux_0_11_comments.Console.Edit.{
  csi_m, csi_at, csi_p, csi_capital_m, restore_cur, csi_l, del, csi_k, save_cur, csi_j,
}
use linux_0_11_comments.Console.Scroll.{cr, lf, ri}
use linux_0_11_comments.Console.{gotoxy, Console}
use linux_0_11_comments.Common.{
  ltb, leb, ◌==◌, if◌then◌else◌, update, ℕ, ◌+◌, ◌-◌, ◌*◌, ◌%◌, ◌^◌, Bool, ◌&&◌, ◌||◌,
}

-- What a character asks for besides the screen: an answer to the terminal (`respond`), or a beep
pub data Event : Type 0 where
  quiet answer beep : Event

-- A character that is shown, after the cursor went to the next line if it stood behind the last column
unfoldable pub wrap_line : Console → Console
wrap_line c =
    if leb c.num_columns c.x
    then lf (record c { x = c.x - c.num_columns; cursor = c.cursor - c.size_row })
    else c

unfoldable pub show_char : ℕ → Console → Console
show_char ch c =
    let c = wrap_line c in
    record c {
      video = update c.video c.cursor (c.attr * 256 + ch);
      cursor = c.cursor + 2;
      x = c.x + 1;
    }

unfoldable pub tab : Console → Console
tab c =
    let n = 8 - c.x % 8 in
    let c = record c { x = c.x + n; cursor = c.cursor + 2 * n } in
    if ltb c.num_columns c.x
    then lf (record c { x = c.x - c.num_columns; cursor = c.cursor - c.size_row })
    else c

unfoldable pub back : Console → Console
back c = if c.x == 0 then c else record c { x = c.x - 1; cursor = c.cursor - 2 }

-- state 0; `erase` says that the character is the erase character of the terminal.
unfoldable pub plain : Bool → ℕ → Console → Console × Event
plain erase ch c =
    if ltb 31 ch && ltb ch 127
    then (show_char ch c, quiet)
    else if ch == 27
    then (record c { state = 1 }, quiet)
    else if ch == 10 || ch == 11 || ch == 12
    then (lf c, quiet)
    else if ch == 13
    then (cr c, quiet)
    else if erase
    then (del c, quiet)
    else if ch == 8
    then (back c, quiet)
    else if ch == 9
    then (tab c, quiet)
    else if ch == 7
    then (c, beep)
    else (c, quiet)

-- state 1: behind an escape. The last two tests are on the column, as in the source.
unfoldable pub escaped : ℕ → Console → Console × Event
escaped ch c =
    let c = record c { state = 0 } in
    if ch == b'['
    then (record c { state = 2 }, quiet)
    else if ch == b'E'
    then (gotoxy 0 ((c.y + 1) % 2 ^ 32) c, quiet)
    else if ch == b'M'
    then (ri c, quiet)
    else if ch == b'D'
    then (lf c, quiet)
    else if ch == b'Z'
    then (c, answer)
    else if c.x == b'7'
    then (save_cur c, quiet)
    else if c.x == b'8'
    then (restore_cur c, quiet)
    else (c, quiet)

-- if (!par[0]) par[0]++, and if (par[i]) par[i]--
abbrev pub at_least_one : ℕ → ℕ
at_least_one n = if n == 0 then 1 else n

abbrev pub set_par : (ℕ → ℕ) → Console → Console
set_par p c = record c { par = p }

-- a - b, of unsigned integers
abbrev pub minus : ℕ → ℕ → ℕ
minus a b = (a + 2 ^ 32 - b) % 2 ^ 32

-- The cursor goes by par[0], at least 1.
unfoldable pub move_cursor : ℕ → Console → Console
move_cursor ch c =
    let n = at_least_one (c.par 0) in
    let c = set_par (update c.par 0 n) c in
    if ch == b'A'
    then gotoxy c.x (minus c.y n) c
    else if ch == b'B' || ch == b'e'
    then gotoxy c.x ((c.y + n) % 2 ^ 32) c
    else if ch == b'C' || ch == b'a'
    then gotoxy ((c.x + n) % 2 ^ 32) c.y c
    else if ch == b'D'
    then gotoxy (minus c.x n) c.y c
    else if ch == b'E'
    then gotoxy 0 ((c.y + n) % 2 ^ 32) c
    else gotoxy 0 (minus c.y n) c

-- The cursor goes to a line or a column that is given from 1 on.
unfoldable pub place_cursor : ℕ → Console → Console
place_cursor ch c =
    let n = c.par 0 - 1 in
    let c = set_par (update c.par 0 n) c in
    if ch == b'G' || ch == b'`'
    then gotoxy n c.y c
    else if ch == b'd'
    then gotoxy c.x n c
    else (let m = c.par 1 - 1 in gotoxy m n (set_par (update c.par 1 m) c))

-- The region that scrolls
unfoldable pub set_region : Console → Console
set_region c =
    let first = c.par 0 - 1 in
    let last = if c.par 1 == 0 then c.num_lines else c.par 1 in
    let c = set_par (update (update c.par 0 first) 1 last) c in
    if ltb first last && leb last c.num_lines then record c { top = first; bottom = last } else c

abbrev pub is_move : ℕ → Bool
is_move ch =
    ch == b'A'
    || ch == b'B'
    || ch == b'e'
    || ch == b'C'
    || ch == b'a'
    || ch == b'D'
    || ch == b'E'
    || ch == b'F'

abbrev pub is_place : ℕ → Bool
is_place ch = ch == b'G' || ch == b'`' || ch == b'd' || ch == b'H' || ch == b'f'

-- state 4: the character that ends a control sequence
unfoldable pub control : ℕ → Console → Console
control ch c =
    let n = c.par 0 in
    if is_move ch
    then move_cursor ch c
    else if is_place ch
    then place_cursor ch c
    else if ch == b'J'
    then csi_j n c
    else if ch == b'K'
    then csi_k n c
    else if ch == b'L'
    then csi_l n c
    else if ch == b'M'
    then csi_capital_m n c
    else if ch == b'P'
    then csi_p n c
    else if ch == b'@'
    then csi_at n c
    else if ch == b'm'
    then csi_m c
    else if ch == b'r'
    then set_region c
    else if ch == b's'
    then save_cur c
    else if ch == b'u'
    then restore_cur c
    else c

-- state 3: the parameters
unfoldable pub parameter : ℕ → Console → Console
parameter ch c =
    if ch == b';' && ltb c.npar 15
    then record c { npar = c.npar + 1 }
    else if leb b'0' ch && leb ch b'9'
    then record c { par = update c.par c.npar ((10 * c.par c.npar + ch - b'0') % 2 ^ 32) }
    else control ch (record c { state = 0 })

-- state 2: the start of the parameters
unfoldable pub start_parameters : ℕ → Console → Console
start_parameters ch c =
    let c = record c {
      par = λ i. if ltb i 16 then 0 else c.par i;
      npar = 0;
      state = 3;
      ques = ch == b'?';
    } in
    if ch == b'?' then c else parameter ch c

unfoldable pub step : Bool → ℕ → Console → Console × Event
step erase ch c =
    if c.state == 0
    then plain erase ch c
    else if c.state == 1
    then escaped ch c
    else if c.state == 2
    then (start_parameters ch c, quiet)
    else if c.state == 3
    then (parameter ch c, quiet)
    else if c.state == 4
    then (control ch (record c { state = 0 }), quiet)
    else (c, quiet)
