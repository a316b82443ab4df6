-- ===== src/Console/Lines.antt =====
-- Scrolling keeps the cursor on the screen (kernel/chr_drv/console.c).
use linux_0_11_comments.Console.Cursor.{
  move-Keeps, move-outside, fill-outside, video-Keeps, lines_le, Keeps, IsConsole,
}
use linux_0_11_comments.Console.{move, set_origin, Console}
use linux_0_11_comments.Console.Scroll.{
  scrup, cr, ri, lf, region_words, move_origin, scroll_region_up, scrdown,
}
use linux_0_11_comments.Common.{
  ltb, ◌==◌, if-cases, ℕ, ◌+◌, ◌-◌, ◌*◌, ◌/◌, ◌≤◌, ◌<◌, ◌≡◌, refl, sym, ap, ◌∙◌, ◌&&◌, arith,
}

spread : (t k s : ℕ) → s * (t + 1 + k) ≡ s * t + s + k * s
spread t k s = omega arith

-- The lines from `t` to `b`: those that are copied, and one more
pub lines_sum : (t b s : ℕ) → t < b → s * b ≡ s * t + s + (b - t - 1) * s
lines_sum t b s lt =
    let all : t + 1 + (b - t - 1) ≡ b = omega arith in
    ap (λ n. s * n) (sym all) ∙ spread t (b - t - 1) s

pub double_columns : (k n : ℕ) → k * (2 * n) ≡ 2 * (k * n)
double_columns k n = omega arith

-- The words that are copied fit into the lines.
pub region_words_le :
    (c : Console)
    → IsConsole c
    → 2 * region_words c + c.size_row * c.top + c.size_row ≤ c.size_row * c.bottom
region_words_le c h =
    let sum = lines_sum c.top c.bottom c.size_row h.region in
    let twice : (c.bottom - c.top - 1) * c.size_row ≡ 2 * ((c.bottom - c.top - 1) * c.num_columns) =
      ap (λ s. (c.bottom - c.top - 1) * s) h.row
      ∙ double_columns (c.bottom - c.top - 1) c.num_columns in
    omega (arith, sum, twice)

pub bottom_inside : (c : Console) → IsConsole c → c.origin + c.size_row * c.bottom ≤ c.scr_end
bottom_inside c h =
    let less = lines_le c.bottom c.num_lines c.size_row h.region_fits in
    let at = h.last in omega (arith, less, at)

scroll_region_up-Keeps : (c : Console) → IsConsole c → Keeps c (scroll_region_up c)
unfolding scroll_region_up
scroll_region_up-Keeps c h = video-Keeps c _ h (λ a out.
    let n = region_words c in
    let le = region_words_le c h in
    let inside = bottom_inside c h in
    let row = h.row in
    let dest = c.origin + c.size_row * c.top in
    fill-outside c.erase_char (dest + 2 * n) c.num_columns
      (move dest (c.origin + c.size_row * (c.top + 1)) n c.video) a
      (ground (arith, out, le, inside, row))
    ∙ move-outside dest (c.origin + c.size_row * (c.top + 1)) n c.video a
        (ground (arith, out, le, inside)))

pub scrdown-Keeps : (c : Console) → IsConsole c → Keeps c (scrdown c)
unfolding scrdown
scrdown-Keeps c h = video-Keeps c _ h (λ a out.
    let n = region_words c in
    let le = region_words_le c h in
    let inside = bottom_inside c h in
    let row = h.row in
    let end = c.origin + c.size_row * c.bottom in
    fill-outside c.erase_char (end - 2 * n - 2 * c.num_columns) c.num_columns
      (move (end - 2 * n) (c.origin + c.size_row * (c.bottom - 1) - 2 * n) n c.video) a
      (ground (arith, out, le, inside, row))
    ∙ move-outside (end - 2 * n) (c.origin + c.size_row * (c.bottom - 1) - 2 * n) n c.video a
        (ground (arith, out, le, inside)))

pub next_line : (y s : ℕ) → (y + 1) * s ≡ y * s + s
next_line y s = omega arith

pub line_before : (y s : ℕ) → 0 < y → y * s ≡ (y - 1) * s + s
line_before y s lt =
    let all : y - 1 + 1 ≡ y = omega arith in ap (λ n. n * s) (sym all) ∙ next_line (y - 1) s

-- The words of all lines but the first fit as well.
screen_words_le :
    (c : Console)
    → IsConsole c
    → 2 * (2 * ((c.num_lines - 1) * c.num_columns / 2)) + c.size_row ≤ c.num_lines * c.size_row
screen_words_le c h =
    let some_line : 0 < c.num_lines = omega (arith, h.on_screen) in
    let sum = line_before c.num_lines c.size_row some_line in
    let twice : (c.num_lines - 1) * c.size_row ≡ 2 * ((c.num_lines - 1) * c.num_columns) =
      ap (λ s. (c.num_lines - 1) * s) h.row ∙ double_columns (c.num_lines - 1) c.num_columns in
    omega (arith, sum, twice)

move_origin-Keeps : (c : Console) → IsConsole c → Keeps c (move_origin c)
unfolding move_origin set_origin
move_origin-Keeps c h =
    let n = 2 * ((c.num_lines - 1) * c.num_columns / 2) in
    let le = screen_words_le c h in
    let end = h.last in
    let first = h.first in
    let fits = h.fits in
    let row = h.row in
    let at = h.at in
    if-cases (λ v. Keeps c (set_origin v)) (ltb c.mem_end (c.scr_end + c.size_row)) _ _
      (λ e. record {
        console = record {
          row = h.row;
          wide = h.wide;
          in_line = h.in_line;
          on_screen = h.on_screen;
          at = omega arith;
          region = h.region;
          region_fits = h.region_fits;
          first = omega arith;
          last = omega arith;
          fits = omega arith;
        };
        same_start = refl;
        same_end = refl;
        same_lines = refl;
        outside = λ a out.
            fill-outside c.erase_char (c.mem_start + 2 * n) c.num_columns
              (move c.mem_start (c.origin + c.size_row) n c.video) a (ground (arith, out))
            ∙ move-outside c.mem_start (c.origin + c.size_row) n c.video a (ground (arith, out));
      })
      (λ e. record {
        console = record {
          row = h.row;
          wide = h.wide;
          in_line = h.in_line;
          on_screen = h.on_screen;
          at = omega arith;
          region = h.region;
          region_fits = h.region_fits;
          first = omega arith;
          last = omega arith;
          fits = ground (arith, e);
        };
        same_start = refl;
        same_end = refl;
        same_lines = refl;
        outside = λ a out.
            fill-outside c.erase_char (c.scr_end + c.size_row - c.size_row) c.num_columns c.video a
              (ground (arith, out, e));
      })

pub scrup-Keeps : (c : Console) → IsConsole c → Keeps c (scrup c)
unfolding scrup
scrup-Keeps c h =
    if-cases (Keeps c) (c.ega && c.top == 0 && c.bottom == c.num_lines) _ _
      (λ e. move_origin-Keeps c h) (λ e. scroll_region_up-Keeps c h)

pub lf-Keeps : (c : Console) → IsConsole c → Keeps c (lf c)
unfolding lf
lf-Keeps c h =
    if-cases (Keeps c) (ltb (c.y + 1) c.bottom) _ _
      (λ e.
        move-Keeps c.x (c.y + 1) _ c h h.in_line (ground (arith, e, h.region_fits))
          (omega (arith, h.at, next_line c.y c.size_row)))
      (λ e. scrup-Keeps c h)

pub ri-Keeps : (c : Console) → IsConsole c → Keeps c (ri c)
unfolding ri
ri-Keeps c h =
    if-cases (Keeps c) (ltb c.top c.y) _ _
      (λ e.
        let some_line : 0 < c.y = ground (arith, e) in
        move-Keeps c.x (c.y - 1) _ c h h.in_line (omega (arith, h.on_screen))
          (omega (arith, h.at, line_before c.y c.size_row some_line)))
      (λ e. scrdown-Keeps c h)

pub cr-Keeps : (c : Console) → IsConsole c → Keeps c (cr c)
unfolding cr
cr-Keeps c h = move-Keeps 0 c.y _ c h (omega arith) h.on_screen (omega (arith, h.at))
