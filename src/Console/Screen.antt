-- ===== src/Console/Screen.antt =====
-- Writing on the screen keeps to it (kernel/chr_drv/console.c).
use linux_0_11_comments.Console.Cursor.{
  move-Keeps, fill-outside, Keeps-trans, video-Keeps, Keeps-refl, Keeps, lines_le, IsConsole,
}
use linux_0_11_comments.Console.{erase_words, Console}
use linux_0_11_comments.Console.Edit.{
  del, insert_char, csi_j, delete_loop, delete_char, insert_loop, csi_k,
}
use linux_0_11_comments.Common.{
  leb, ◌==◌, update, if-cases, ℕ, zero, suc, ◌+◌, ◌-◌, ◌*◌, ◌/◌, ◌≤◌, ◌<◌, min, ◌≡◌, refl, ap, ◌∙◌,
  ◌⊎◌, arith,
}

-- The place of the cursor, in its line
pub line_inside : (c : Console) → IsConsole c → c.origin + c.y * c.size_row + c.size_row ≤ c.scr_end
line_inside c h =
    let some_line : 0 < c.num_lines = omega (arith, h.on_screen) in
    let less = lines_le (c.y + 1) c.num_lines c.size_row (omega (arith, h.on_screen)) in
    let next : (c.y + 1) * c.size_row ≡ c.y * c.size_row + c.size_row = omega arith in
    omega (arith, less, next, h.last)

erase_words-Keeps :
    (start count : ℕ) (c : Console)
    → IsConsole c
    → c.origin ≤ start
    → start + 2 * count ≤ c.scr_end
    → Keeps c (erase_words start count c)
erase_words-Keeps start count c h from to =
    video-Keeps c _ h
      (λ a out. fill-outside c.erase_char start count c.video a (ground (arith, out, from, to)))

pub del-Keeps : (c : Console) → IsConsole c → Keeps c (del c)
unfolding del
del-Keeps c h =
    let inside = line_inside c h in
    if-cases (Keeps c) (c.x == 0) _ _ (λ e. Keeps-refl c h)
      (λ e.
        let written =
          video-Keeps c (update c.video (c.cursor - 2) c.erase_char) h
            (λ a out. ground (arith, out, inside, e, h.at, h.row, h.in_line)) in
        Keeps-trans c (record c { video = update c.video (c.cursor - 2) c.erase_char }) _ written
          (move-Keeps (c.x - 1) c.y (c.cursor - 2) _ written.console (omega (arith, h.in_line))
            h.on_screen (ground (arith, e, h.at))))

screen_words :
    (c : Console) → IsConsole c → c.num_lines * c.size_row ≡ 2 * (c.num_columns * c.num_lines)
screen_words c h =
    let twice : c.num_lines * (2 * c.num_columns) ≡ 2 * (c.num_columns * c.num_lines) =
      omega arith in
    ap (λ s. c.num_lines * s) h.row ∙ twice

pub csi_j-Keeps : (n : ℕ) (c : Console) → IsConsole c → Keeps c (csi_j n c)
unfolding csi_j
csi_j-Keeps n c h =
    let whole = screen_words c h in
    let inside = line_inside c h in
    let row = h.row in
    let at = h.at in
    let last = h.last in
    let line = h.in_line in
    if-cases (Keeps c) (n == 0) _ _
      (λ e. erase_words-Keeps c.cursor ((c.scr_end - c.cursor) / 2) c h (omega arith) (omega arith))
      (λ e.
        if-cases (Keeps c) (n == 1) _ _
          (λ e.
            erase_words-Keeps c.origin ((c.cursor - c.origin) / 2) c h (omega arith) (omega arith))
          (λ e.
            if-cases (Keeps c) (n == 2) _ _
              (λ e.
                erase_words-Keeps c.origin (c.num_columns * c.num_lines) c h (omega arith)
                  (omega (arith, last, whole)))
              (λ e. Keeps-refl c h)))

pub csi_k-Keeps : (n : ℕ) (c : Console) → IsConsole c → Keeps c (csi_k n c)
unfolding csi_k
csi_k-Keeps n c h =
    let inside = line_inside c h in
    let row = h.row in
    let at = h.at in
    let line = h.in_line in
    if-cases (Keeps c) (n == 0) _ _
      (λ e.
        if-cases (Keeps c) (leb c.num_columns c.x) _ _ (λ e. Keeps-refl c h)
          (λ e. erase_words-Keeps c.cursor (c.num_columns - c.x) c h (omega arith) (omega arith)))
      (λ e.
        if-cases (Keeps c) (n == 1) _ _
          (λ e.
            erase_words-Keeps (c.cursor - 2 * c.x) (min c.x c.num_columns) c h (omega arith)
              (omega arith))
          (λ e.
            if-cases (Keeps c) (n == 2) _ _
              (λ e.
                erase_words-Keeps (c.cursor - 2 * c.x) c.num_columns c h (omega arith)
                  (omega arith))
              (λ e. Keeps-refl c h)))

insert_loop-outside :
    (n p old : ℕ) (video : ℕ → ℕ) (a : ℕ)
    → (a < p) ⊎ (p + 2 * n ≤ a)
    → insert_loop n p old video a ≡ video a
unfolding insert_loop
insert_loop-outside zero p old video a out = refl
insert_loop-outside (suc n) p old video a out =
    let here : update video p old a ≡ video a = ground (arith, out) in
    insert_loop-outside n (p + 2) (video p) (update video p old) a (ground (arith, out)) ∙ here

delete_loop-outside :
    (n p word : ℕ) (video : ℕ → ℕ) (a : ℕ)
    → (a < p) ⊎ (p + 2 * n + 2 ≤ a)
    → delete_loop n p word video a ≡ video a
unfolding delete_loop
delete_loop-outside zero p word video a out = ground (arith, out)
delete_loop-outside (suc n) p word video a out =
    let here : update video p (video (p + 2)) a ≡ video a = ground (arith, out) in
    delete_loop-outside n (p + 2) word (update video p (video (p + 2))) a (ground (arith, out))
    ∙ here

pub insert_char-Keeps : (c : Console) → IsConsole c → Keeps c (insert_char c)
unfolding insert_char
insert_char-Keeps c h =
    let inside = line_inside c h in
    video-Keeps c _ h (λ a out.
      insert_loop-outside (c.num_columns - c.x) c.cursor c.erase_char c.video a
        (ground (arith, out, inside, h.at, h.row, h.in_line)))

pub delete_char-Keeps : (c : Console) → IsConsole c → Keeps c (delete_char c)
unfolding delete_char
delete_char-Keeps c h =
    let inside = line_inside c h in
    if-cases (Keeps c) (leb c.num_columns c.x) _ _ (λ e. Keeps-refl c h)
      (λ e. video-Keeps c _ h (λ a out.
        delete_loop-outside (c.num_columns - c.x - 1) c.cursor c.erase_char c.video a
          (ground (arith, out, inside, h.at, h.row, h.in_line, e))))
