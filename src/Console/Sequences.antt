-- ===== src/Console/Sequences.antt =====
-- Escape sequences keep the cursor on the screen (kernel/chr_drv/console.c).
use linux_0_11_comments.Console.Lines.{lf-Keeps, ri-Keeps}
use linux_0_11_comments.Console.Screen.{
  insert_char-Keeps, delete_char-Keeps, csi_k-Keeps, csi_j-Keeps,
}
use linux_0_11_comments.Console.Scroll.{lf, ri}
use linux_0_11_comments.Console.Cursor.{Keeps-refl, Keeps-trans, Keeps, gotoxy-Keeps, IsConsole}
use linux_0_11_comments.Console.Steps.{
  delete_line-Keeps, insert_line-Keeps, region-Keeps, times-Keeps, plain-Keeps, state-Keeps,
  par-Keeps, then-Keeps, frame-Keeps, Keeping,
}
use linux_0_11_comments.Console.{gotoxy, Console}
use linux_0_11_comments.Console.Escape.{
  is_place, is_move, at_least_one, Event, set_par, step, parameter, place_cursor, start_parameters,
  move_cursor, set_region, control, escaped,
}
use linux_0_11_comments.Console.Edit.{
  insert_char, delete_char, delete_line, insert_line, clamp, attributes, times, csi_at, csi_p,
  csi_capital_m, csi_l, save_cur, restore_cur, csi_m,
}
use linux_0_11_comments.Common.{
  ltb, leb, ◌==◌, if◌then◌else◌, update, if-cases, if-both, ℕ, suc, ◌+◌, ◌-◌, ◌%◌, ◌^◌, ◌≤◌, ◌<◌,
  Bool, ◌&&◌, ◌||◌, arith,
}

save_cur-Keeps : Keeping save_cur
unfolding save_cur
save_cur-Keeps c h = frame-Keeps c.state c.npar c.par c.ques c.attr c.x c.y c h

restore_cur-Keeps : Keeping restore_cur
unfolding restore_cur
restore_cur-Keeps c h = gotoxy-Keeps c.saved_x c.saved_y c h

escaped-Keeps : (ch : ℕ) (c : Console) → IsConsole c → Keeps c (escaped ch c).0
unfolding escaped
escaped-Keeps ch c h =
    let P : Console × Event → Type 0 = λ r. Keeps c r.0 in
    let v : Console = record c { state = 0 } in
    let k = state-Keeps 0 c h in
    let next : (f : Console → Console) → Keeping f → Keeps c (f v) =
      λ f keep. then-Keeps f c v keep k in
    if-both P (ch == b'[') _ _ (state-Keeps 2 c h) (
      if-both P (ch == b'E') _ _ (next (gotoxy 0 _) (gotoxy-Keeps 0 ((c.y + 1) % 2 ^ 32))) (
        if-both P (ch == b'M') _ _ (next ri ri-Keeps) (
          if-both P (ch == b'D') _ _ (next lf lf-Keeps) (
            if-both P (ch == b'Z') _ _ k (
              if-both P (c.x == b'7') _ _ (next save_cur save_cur-Keeps)
                (if-both P (c.x == b'8') _ _ (next restore_cur restore_cur-Keeps) k))))))

-- gotoxy, when the parameters were changed
goto-Keeps :
    (par : ℕ → ℕ) (x y : ℕ) (c : Console) → IsConsole c → Keeps c (gotoxy x y (set_par par c))
goto-Keeps par x y c h =
    then-Keeps (gotoxy x y) c (set_par par c) (gotoxy-Keeps x y) (par-Keeps par c h)

move_cursor-Keeps : (ch : ℕ) → Keeping (move_cursor ch)
unfolding move_cursor
move_cursor-Keeps ch c h =
    let P : Console → Type 0 = Keeps c in
    let go : (x y : ℕ)
        → Keeps c (gotoxy x y (set_par (update c.par 0 (at_least_one (c.par 0))) c)) =
      λ x y. goto-Keeps (update c.par 0 (at_least_one (c.par 0))) x y c h in
    if-both P (ch == b'A') _ _ (go _ _) (
      if-both P (ch == b'B' || ch == b'e') _ _ (go _ _) (
        if-both P (ch == b'C' || ch == b'a') _ _ (go _ _)
          (if-both P (ch == b'D') _ _ (go _ _) (if-both P (ch == b'E') _ _ (go _ _) (go _ _)))))

place_cursor-Keeps : (ch : ℕ) → Keeping (place_cursor ch)
unfolding place_cursor
place_cursor-Keeps ch c h =
    let P : Console → Type 0 = Keeps c in
    let par = update c.par 0 (c.par 0 - 1) in
    let go : (x y : ℕ) → Keeps c (gotoxy x y (set_par par c)) = λ x y. goto-Keeps par x y c h in
    if-both P (ch == b'G' || ch == b'`') _ _ (go _ _) (
      if-both P (ch == b'd') _ _ (go _ _)
        (goto-Keeps (update par 1 (par 1 - 1)) (par 1 - 1) (c.par 0 - 1) c h))

set_region-Keeps : Keeping set_region
unfolding set_region
set_region-Keeps c h =
    let first = c.par 0 - 1 in
    let last = if c.par 1 == 0 then c.num_lines else c.par 1 in
    let set : Console = set_par (update (update c.par 0 first) 1 last) c in
    let k = par-Keeps (update (update c.par 0 first) 1 last) c h in
    if-cases (Keeps c) (ltb first last && leb last c.num_lines) _ _
      (λ e.
        let lt : first < last = ground (arith, e) in
        let le : last ≤ c.num_lines = ground (arith, e) in
        Keeps-trans c set _ k (region-Keeps first last set k.console lt le))
      (λ e. k)

csi_m-Keeps : Keeping csi_m
unfolding csi_m
csi_m-Keeps c h =
    frame-Keeps c.state c.npar c.par c.ques (attributes (suc c.npar) 0 c.par c.attr) c.saved_x
      c.saved_y c h

control-Keeps : (ch : ℕ) → Keeping (control ch)
unfolding control csi_l csi_capital_m csi_p csi_at
control-Keeps ch c h =
    let P : Console → Type 0 = Keeps c in
    let repeated : (n limit : ℕ) (f : Console → Console)
        → Keeping f
        → Keeps c (times (clamp limit n) f c) =
      λ n limit f k. times-Keeps (clamp limit n) f k c h in
    if-both P (is_move ch) _ _ (move_cursor-Keeps ch c h) (
      if-both P (is_place ch) _ _ (place_cursor-Keeps ch c h) (
        if-both P (ch == b'J') _ _ (csi_j-Keeps (c.par 0) c h) (
          if-both P (ch == b'K') _ _ (csi_k-Keeps (c.par 0) c h) (
            if-both P (ch == b'L') _ _
              (repeated (c.par 0) c.num_lines insert_line insert_line-Keeps)
              (if-both P (ch == b'M') _ _
                (repeated (c.par 0) c.num_lines delete_line delete_line-Keeps)
                (if-both P (ch == b'P') _ _
                  (repeated (c.par 0) c.num_columns delete_char delete_char-Keeps)
                  (if-both P (ch == b'@') _ _
                    (repeated (c.par 0) c.num_columns insert_char insert_char-Keeps)
                    (if-both P (ch == b'm') _ _ (csi_m-Keeps c h) (
                      if-both P (ch == b'r') _ _ (set_region-Keeps c h) (
                        if-both P (ch == b's') _ _ (save_cur-Keeps c h) (
                          if-both P (ch == b'u') _ _ (restore_cur-Keeps c h)
                            (Keeps-refl c h))))))))))))

parameter-Keeps : (ch : ℕ) → Keeping (parameter ch)
unfolding parameter
parameter-Keeps ch c h =
    if-both (Keeps c) (ch == b';' && ltb c.npar 15) _ _
      (frame-Keeps c.state (c.npar + 1) c.par c.ques c.attr c.saved_x c.saved_y c h)
      (if-both (Keeps c) (leb b'0' ch && leb ch b'9') _ _ (par-Keeps _ c h)
        (then-Keeps (control ch) c (record c { state = 0 }) (control-Keeps ch) (state-Keeps 0 c h)))

start_parameters-Keeps : (ch : ℕ) → Keeping (start_parameters ch)
unfolding start_parameters
start_parameters-Keeps ch c h =
    let par : ℕ → ℕ = λ i. if ltb i 16 then 0 else c.par i in
    let k = frame-Keeps 3 0 par (ch == b'?') c.attr c.saved_x c.saved_y c h in
    if-both (Keeps c) (ch == b'?') _ _ k (then-Keeps (parameter ch) c _ (parameter-Keeps ch) k)

-- Every character, in every state of the escape sequences, leaves a console whose cursor is on the
-- screen and whose screen is in video memory so, and writes to no word outside of video memory.
pub step-Keeps : (erase : Bool) (ch : ℕ) (c : Console) → IsConsole c → Keeps c (step erase ch c).0
unfolding step
step-Keeps erase ch c h =
    let P : Console × Event → Type 0 = λ r. Keeps c r.0 in
    if-both P (c.state == 0) _ _ (plain-Keeps erase ch c h) (
      if-both P (c.state == 1) _ _ (escaped-Keeps ch c h) (
        if-both P (c.state == 2) _ _ (start_parameters-Keeps ch c h) (
          if-both P (c.state == 3) _ _ (parameter-Keeps ch c h) (
            if-both P (c.state == 4) _ _
              (then-Keeps (control ch) c (record c { state = 0 }) (control-Keeps ch)
                (state-Keeps 0 c h))
              (Keeps-refl c h)))))
