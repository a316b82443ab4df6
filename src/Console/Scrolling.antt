-- ===== src/Console/Scrolling.antt =====
-- What scrolling does to the lines of the screen (kernel/chr_drv/console.c).
use linux_0_11_comments.Console.Lines.{next_line, double_columns, line_before, lines_sum}
use linux_0_11_comments.Console.Cursor.{move-outside, fill-outside, lines_le, IsConsole}
use linux_0_11_comments.Console.{set_origin, fill, move, Console}
use linux_0_11_comments.Console.Scroll.{scrup, move_origin, region_words, scroll_region_up}
use linux_0_11_comments.Common.{
  ltb, ◌==◌, if-cases, ℕ, ◌+◌, ◌-◌, ◌*◌, ◌/◌, ◌%◌, ◌≤◌, ◌<◌, ◌≡◌, ap, ◌∙◌, subst, ◌⊎◌, inl, inr,
  ◌&&◌, arith,
}

-- The word in line `r` and column `k` of the screen
abbrev pub cell : Console → ℕ → ℕ → ℕ
cell c r k = c.video (c.origin + r * c.size_row + 2 * k)

-- The lines of the region from `t` to `b` moved up by one, and the last one is blank.
pub record IsScrolled (c v : Console) (t b : ℕ) : Type 0 where
  pub moved : (r k : ℕ) → t ≤ r → r + 1 < b → k < c.num_columns → cell v r k ≡ cell c (r + 1) k
  pub blank : (k : ℕ) → k < c.num_columns → cell v (b - 1) k ≡ c.erase_char
  pub others :
      (r k : ℕ) → (r < t) ⊎ (b ≤ r) → r < c.num_lines → k < c.num_columns → cell v r k ≡ cell c r k

even_product : (k n : ℕ) → n % 2 ≡ 0 → 2 * (k * n / 2) ≡ k * n
even_product k n e =
    let half : n ≡ 2 * (n / 2) = omega (arith, e) in
    let twice : k * n ≡ 2 * (k * (n / 2)) = ap (λ m. k * m) half ∙ double_columns k (n / 2) in
    omega (arith, twice)

fill-inside :
    (word start count : ℕ) (video : ℕ → ℕ) (a : ℕ)
    → start ≤ a
    → a < start + 2 * count
    → fill word start count video a ≡ word
fill-inside word start count video a le lt = ground (arith, le, lt)

move-inside :
    (dest source count : ℕ) (video : ℕ → ℕ) (a : ℕ)
    → dest ≤ a
    → a < dest + 2 * count
    → move dest source count video a ≡ video (source + (a - dest))
move-inside dest source count video a le lt = ground (arith, le, lt)

-- The words that are copied are those of the lines from top + 1 to bottom.
region_words-even :
    (c : Console)
    → IsConsole c
    → c.num_columns % 2 ≡ 0
    → 2 * region_words c ≡ (c.bottom - c.top - 1) * c.size_row
region_words-even c h e =
    let twice : (c.bottom - c.top - 1) * (2 * c.num_columns)
        ≡ 2 * ((c.bottom - c.top - 1) * c.num_columns) =
      omega arith in
    let row : (c.bottom - c.top - 1) * c.size_row ≡ (c.bottom - c.top - 1) * (2 * c.num_columns) =
      ap (λ s. (c.bottom - c.top - 1) * s) h.row in
    omega (arith, twice, row, even_product (c.bottom - c.top - 1) c.num_columns e)

scroll_region_up-IsScrolled :
    (c : Console)
    → IsConsole c
    → c.num_columns % 2 ≡ 0
    → IsScrolled c (scroll_region_up c) c.top c.bottom
unfolding scroll_region_up
scroll_region_up-IsScrolled c h e =
    let words = region_words-even c h e in
    let sum = lines_sum c.top c.bottom c.size_row h.region in
    let row = h.row in
    let last = line_before c.bottom c.size_row (omega (arith, h.region)) in
    let n = region_words c in
    let dest = c.origin + c.size_row * c.top in
    let source = c.origin + c.size_row * (c.top + 1) in
    let first = next_line c.top c.size_row in
    let moved_video : ℕ → ℕ = move dest source n c.video in
    record {
      moved = λ r k le lt small.
          let a = c.origin + r * c.size_row + 2 * k in
          let ge = lines_le c.top r c.size_row le in
          let next = next_line r c.size_row in
          let less = lines_le (r + 1) (c.bottom - 1) c.size_row (omega arith) in
          fill-outside c.erase_char (dest + 2 * n) c.num_columns moved_video a (inl (omega arith))
          ∙ move-inside dest source n c.video a (omega arith) (omega arith)
          ∙ ap c.video (omega arith);
      blank = λ k small.
          fill-inside c.erase_char (dest + 2 * n) c.num_columns moved_video
            (c.origin + (c.bottom - 1) * c.size_row + 2 * k) (omega arith) (omega arith);
      others = λ r k out lt small.
          let a = c.origin + r * c.size_row + 2 * k in
          let away : (a < dest) ⊎ (dest + 2 * n + 2 * c.num_columns ≤ a) = elim out [
            | inl above ↦
                let less = lines_le (r + 1) c.top c.size_row (omega arith) in
                let next = next_line r c.size_row in inl (omega arith)
            | inr below ↦ let less = lines_le c.bottom r c.size_row below in inr (omega arith)
          ] in
          fill-outside c.erase_char (dest + 2 * n) c.num_columns moved_video a
            (ground (arith, away))
          ∙ move-outside dest source n c.video a (ground (arith, away));
    }

-- The words of all lines but the first
screen_words-even :
    (c : Console)
    → IsConsole c
    → c.num_columns % 2 ≡ 0
    → 2 * (2 * ((c.num_lines - 1) * c.num_columns / 2)) ≡ (c.num_lines - 1) * c.size_row
screen_words-even c h e =
    let twice = double_columns (c.num_lines - 1) c.num_columns in
    let row : (c.num_lines - 1) * c.size_row ≡ (c.num_lines - 1) * (2 * c.num_columns) =
      ap (λ s. (c.num_lines - 1) * s) h.row in
    omega (arith, twice, row, even_product (c.num_lines - 1) c.num_columns e)

move_origin-IsScrolled :
    (c : Console) → IsConsole c → c.num_columns % 2 ≡ 0 → IsScrolled c (move_origin c) 0 c.num_lines
unfolding move_origin set_origin
move_origin-IsScrolled c h e =
    let words = screen_words-even c h e in
    let row = h.row in
    let end = h.last in
    let last = line_before c.num_lines c.size_row (omega (arith, h.on_screen)) in
    let n = 2 * ((c.num_lines - 1) * c.num_columns / 2) in
    let origin = c.origin + c.size_row in
    let copied : ℕ → ℕ = move c.mem_start origin n c.video in
    if-cases (λ v. IsScrolled c (set_origin v) 0 c.num_lines)
      (ltb c.mem_end (c.scr_end + c.size_row)) _ _
      (λ full. record {
        moved = λ r k le lt small.
            let a = c.mem_start + r * c.size_row + 2 * k in
            let next = next_line r c.size_row in
            let less = lines_le (r + 1) (c.num_lines - 1) c.size_row (omega arith) in
            fill-outside c.erase_char (c.mem_start + 2 * n) c.num_columns copied a
              (inl (omega arith))
            ∙ move-inside c.mem_start origin n c.video a (omega arith) (omega arith)
            ∙ ap c.video (omega arith);
        blank = λ k small.
            fill-inside c.erase_char (c.mem_start + 2 * n) c.num_columns copied
              (c.mem_start + (c.num_lines - 1) * c.size_row + 2 * k) (omega arith) (omega arith);
        others = λ r k out lt small. absurd (ground (arith, out, lt));
      })
      (λ room. record {
        moved = λ r k le lt small.
            let next = next_line r c.size_row in
            let less = lines_le (r + 1) (c.num_lines - 1) c.size_row (omega arith) in
            fill-outside c.erase_char (c.scr_end + c.size_row - c.size_row) c.num_columns c.video
              (origin + r * c.size_row + 2 * k) (inl (omega arith))
            ∙ ap c.video (omega arith);
        blank = λ k small.
            fill-inside c.erase_char (c.scr_end + c.size_row - c.size_row) c.num_columns c.video
              (origin + (c.num_lines - 1) * c.size_row + 2 * k) (omega arith) (omega arith);
        others = λ r k out lt small. absurd (ground (arith, out, lt));
      })

-- In a console in order with an even number of columns, scrolling up moves every line of the region up
-- by one, blanks its last line, and leaves the lines outside of the region: no matter whether the
-- lines are copied, the origin of the screen moves through video memory, or the screen is copied back
-- to the start of video memory.
pub scrup-IsScrolled :
    (c : Console) → IsConsole c → c.num_columns % 2 ≡ 0 → IsScrolled c (scrup c) c.top c.bottom
unfolding scrup
scrup-IsScrolled c h even =
    if-cases (λ v. IsScrolled c v c.top c.bottom) (c.ega && c.top == 0 && c.bottom == c.num_lines) _
      _
      (λ e.
        let top : 0 ≡ c.top = ground (arith, e) in
        let bottom : c.num_lines ≡ c.bottom = ground (arith, e) in
        subst (λ t. IsScrolled c (move_origin c) t c.bottom) top
          (subst (λ b. IsScrolled c (move_origin c) 0 b) bottom (move_origin-IsScrolled c h even)))
      (λ e. scroll_region_up-IsScrolled c h even)
