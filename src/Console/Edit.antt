-- ===== src/Console/Edit.antt =====
-- kernel/chr_drv/console.c: erasing, inserting and deleting on the screen.
use linux_0_11_comments.Console.Scroll.{scrup, scrdown}
use linux_0_11_comments.Console.{erase_words, gotoxy, Console}
use linux_0_11_comments.Common.{
  ltb, leb, ◌==◌, if◌then◌else◌, update, ℕ, zero, suc, ◌+◌, ◌-◌, ◌*◌, ◌/◌, min, ◌||◌,
}

unfoldable pub del : Console → Console
del c = if c.x == 0 then c else record c {
  cursor = c.cursor - 2;
  x = c.x - 1;
  video = update c.video (c.cursor - 2) c.erase_char;
}

unfoldable pub csi_j : ℕ → Console → Console
csi_j n c =
    if n == 0
    then erase_words c.cursor ((c.scr_end - c.cursor) / 2) c
    else if n == 1
    then erase_words c.origin ((c.cursor - c.origin) / 2) c
    else if n == 2
    then erase_words c.origin (c.num_columns * c.num_lines) c
    else c

unfoldable pub csi_k : ℕ → Console → Console
csi_k n c =
    if n == 0
    then (if leb c.num_columns c.x then c else erase_words c.cursor (c.num_columns - c.x) c)
    else if n == 1
    then erase_words (c.cursor - 2 * c.x) (min c.x c.num_columns) c
    else if n == 2
    then erase_words (c.cursor - 2 * c.x) c.num_columns c
    else c

-- The attribute after one parameter of csi_m
abbrev pub attribute : ℕ → ℕ → ℕ
attribute p attr =
    if p == 0 || p == 27 then 7 else if p == 1 || p == 4 then 15 else if p == 7 then 112 else attr

-- The loop of csi_m, for `n` parameters from number `i` on
unfoldable pub attributes : ℕ → ℕ → (ℕ → ℕ) → ℕ → ℕ
attributes zero i par attr = attr
attributes (suc n) i par attr = attributes n (i + 1) par (attribute (par i) attr)

unfoldable pub csi_m : Console → Console
csi_m c = record c { attr = attributes (suc c.npar) 0 c.par c.attr }

-- The loop of insert_char: `n` words from address `p` on move up by one, and `old` comes first.
unfoldable pub insert_loop : ℕ → ℕ → ℕ → (ℕ → ℕ) → ℕ → ℕ
insert_loop zero p old video = video
insert_loop (suc n) p old video = insert_loop n (p + 2) (video p) (update video p old)

unfoldable pub insert_char : Console → Console
insert_char c = record c { video = insert_loop (c.num_columns - c.x) c.cursor c.erase_char c.video }

-- The loop of delete_char: `n` words from address `p` on take their successors' places.
unfoldable pub delete_loop : ℕ → ℕ → ℕ → (ℕ → ℕ) → ℕ → ℕ
delete_loop zero p word video = update video p word
delete_loop (suc n) p word video = delete_loop n (p + 2) word (update video p (video (p + 2)))

unfoldable pub delete_char : Console → Console
delete_char c =
    if leb c.num_columns c.x
    then c
    else record c { video = delete_loop (c.num_columns - c.x - 1) c.cursor c.erase_char c.video }

-- From the line of the cursor to the last one, as the region
abbrev pub below : (Console → Console) → Console → Console
below f c =
    let r = f (record c { top = c.y; bottom = c.num_lines }) in
    record r { top = c.top; bottom = c.bottom }

unfoldable pub insert_line : Console → Console
insert_line c = below scrdown c

unfoldable pub delete_line : Console → Console
delete_line c = below scrup c

-- `nr` times, but once for 0, and `limit` times at most
abbrev pub clamp : ℕ → ℕ → ℕ
clamp limit nr = if ltb limit nr then limit else if nr == 0 then 1 else nr

unfoldable pub times : ℕ → (Console → Console) → Console → Console
times zero f c = c
times (suc n) f c = times n f (f c)

unfoldable pub csi_at : ℕ → Console → Console
csi_at nr c = times (clamp c.num_columns nr) insert_char c

unfoldable pub csi_l : ℕ → Console → Console
csi_l nr c = times (clamp c.num_lines nr) insert_line c

unfoldable pub csi_p : ℕ → Console → Console
csi_p nr c = times (clamp c.num_columns nr) delete_char c

unfoldable pub csi_capital_m : ℕ → Console → Console
csi_capital_m nr c = times (clamp c.num_lines nr) delete_line c

unfoldable pub save_cur : Console → Console
save_cur c = record c { saved_x = c.x; saved_y = c.y }

unfoldable pub restore_cur : Console → Console
restore_cur c = gotoxy c.saved_x c.saved_y c
