-- ===== src/Console/Steps.antt =====
-- Every character keeps the cursor on the screen (kernel/chr_drv/console.c).
use linux_0_11_comments.Console.Screen.{del-Keeps, line_inside}
use linux_0_11_comments.Console.Lines.{cr-Keeps, lf-Keeps, scrdown-Keeps, scrup-Keeps}
use linux_0_11_comments.Console.Cursor.{
  video-Keeps, move-Keeps, IsConsole, Keeps-trans, Keeps-refl, Keeps,
}
use linux_0_11_comments.Console.Scroll.{scroll_region_up, move_origin, lf, scrdown, scrup}
use linux_0_11_comments.Console.{set_origin, Console}
use linux_0_11_comments.Console.Edit.{below, delete_line, insert_line, times}
use linux_0_11_comments.Console.Escape.{Event, plain, tab, back, show_char, set_par, wrap_line}
use linux_0_11_comments.Common.{
  ltb, leb, ◌==◌, update, if-cases, ℕ, zero, suc, ◌+◌, ◌-◌, ◌*◌, ◌%◌, ◌≤◌, ◌<◌, ◌≡◌, refl, sym,
  subst, Bool, ◌&&◌, ◌||◌, arith,
}

-- The state of the escape sequences, the attribute and the saved cursor do not matter.
pub frame-Keeps :
    (state npar : ℕ) (par : ℕ → ℕ) (ques : Bool) (attr saved_x saved_y : ℕ) (c : Console)
    → IsConsole c
    → Keeps c (record c {
      state = state;
      npar = npar;
      par = par;
      ques = ques;
      attr = attr;
      saved_x = saved_x;
      saved_y = saved_y;
    })
frame-Keeps state npar par ques attr saved_x saved_y c h = record {
  console = record {
    row = h.row;
    wide = h.wide;
    in_line = h.in_line;
    on_screen = h.on_screen;
    at = h.at;
    region = h.region;
    region_fits = h.region_fits;
    first = h.first;
    last = h.last;
    fits = h.fits;
  };
  same_start = refl;
  same_end = refl;
  same_lines = refl;
  outside = λ a out. refl;
}

pub state-Keeps : (state : ℕ) (c : Console) → IsConsole c → Keeps c (record c { state = state })
state-Keeps state c = frame-Keeps state c.npar c.par c.ques c.attr c.saved_x c.saved_y c

pub par-Keeps : (par : ℕ → ℕ) (c : Console) → IsConsole c → Keeps c (set_par par c)
par-Keeps par c = frame-Keeps c.state c.npar par c.ques c.attr c.saved_x c.saved_y c

-- Another region of the screen scrolls.
pub region-Keeps :
    (top bottom : ℕ) (c : Console)
    → IsConsole c
    → top < bottom
    → bottom ≤ c.num_lines
    → Keeps c (record c { top = top; bottom = bottom })
region-Keeps top bottom c h lt le = record {
  console = record {
    row = h.row;
    wide = h.wide;
    in_line = h.in_line;
    on_screen = h.on_screen;
    at = h.at;
    region = lt;
    region_fits = le;
    first = h.first;
    last = h.last;
    fits = h.fits;
  };
  same_start = refl;
  same_end = refl;
  same_lines = refl;
  outside = λ a out. refl;
}

-- A step that keeps the console in order, wherever it is made
abbrev pub Keeping : (Console → Console) → Type 0
Keeping f = (c : Console) → IsConsole c → Keeps c (f c)

pub then-Keeps : (f : Console → Console) (c v : Console) → Keeping f → Keeps c v → Keeps c (f v)
then-Keeps f c v k h = Keeps-trans c v (f v) h (k v h.console)

pub times-Keeps : (n : ℕ) (f : Console → Console) → Keeping f → Keeping (times n f)
unfolding times
times-Keeps zero f k c h = Keeps-refl c h
times-Keeps (suc n) f k c h =
    let once = k c h in
    Keeps-trans c (f c) (times n f (f c)) once (times-Keeps n f k (f c) once.console)

below-Keeps : (f : Console → Console) → Keeping f → Keeping (below f)
below-Keeps f k c h =
    let narrow : Console = record c { top = c.y; bottom = c.num_lines } in
    let set = region-Keeps c.y c.num_lines c h h.on_screen (omega arith) in
    let done = then-Keeps f c narrow k set in
    Keeps-trans c (f narrow) _ done (
      region-Keeps c.top c.bottom (f narrow) done.console h.region
        (subst (λ n. c.bottom ≤ n) (sym done.same_lines) h.region_fits))

pub insert_line-Keeps : Keeping insert_line
unfolding insert_line
insert_line-Keeps = below-Keeps scrdown scrdown-Keeps

pub delete_line-Keeps : Keeping delete_line
unfolding delete_line
delete_line-Keeps = below-Keeps scrup scrup-Keeps

wrap_line-Keeps : Keeping wrap_line
unfolding wrap_line
wrap_line-Keeps c h =
    if-cases (Keeps c) (leb c.num_columns c.x) _ _
      (λ e.
        let full : c.num_columns ≤ c.x = ground (arith, e) in
        let back : Console = record c { x = c.x - c.num_columns; cursor = c.cursor - c.size_row } in
        then-Keeps lf c back lf-Keeps (
          move-Keeps (c.x - c.num_columns) c.y (c.cursor - c.size_row) c h
            (omega (arith, h.in_line)) h.on_screen (omega (arith, h.at, h.row, h.in_line))))
      (λ e. Keeps-refl c h)

-- A line feed does not change the column.
abbrev SameColumn : Console → Console → Type 0
SameColumn c v = (v.x ≡ c.x) × (v.num_columns ≡ c.num_columns)

scrup-SameColumn : (c : Console) → SameColumn c (scrup c)
unfolding scrup move_origin scroll_region_up set_origin
scrup-SameColumn c =
    if-cases (SameColumn c) (c.ega && c.top == 0 && c.bottom == c.num_lines) _ _
      (λ e.
        if-cases (λ v. SameColumn c (set_origin v)) (ltb c.mem_end (c.scr_end + c.size_row)) _ _
          (λ e. (refl, refl)) (λ e. (refl, refl)))
      (λ e. (refl, refl))

lf-SameColumn : (c : Console) → SameColumn c (lf c)
unfolding lf
lf-SameColumn c =
    if-cases (SameColumn c) (ltb (c.y + 1) c.bottom) _ _ (λ e. (refl, refl))
      (λ e. scrup-SameColumn c)

wrap_line-room : (c : Console) → IsConsole c → (wrap_line c).x < (wrap_line c).num_columns
unfolding wrap_line
wrap_line-room c h =
    if-cases (λ (v : Console). v.x < v.num_columns) (leb c.num_columns c.x) _ _
      (λ e.
        let back : Console = record c { x = c.x - c.num_columns; cursor = c.cursor - c.size_row } in
        let (x, columns) = lf-SameColumn back in omega (arith, x, columns, h.in_line, h.wide))
      (λ e. ground (arith, e))

tab-Keeps : Keeping tab
unfolding tab
tab-Keeps c h =
    let n = 8 - c.x % 8 in
    if-cases (Keeps c) (ltb c.num_columns (c.x + n)) _ _
      (λ e.
        let past : c.num_columns < c.x + n = ground (arith, e) in
        let back : Console = record c {
          x = c.x + n - c.num_columns;
          cursor = c.cursor + 2 * n - c.size_row;
        } in
        then-Keeps lf c back lf-Keeps (
          move-Keeps (c.x + n - c.num_columns) c.y (c.cursor + 2 * n - c.size_row) c h
            (omega (arith, h.in_line, h.wide)) h.on_screen (omega (arith, h.at, h.row, past))))
      (λ e.
        move-Keeps (c.x + n) c.y (c.cursor + 2 * n) c h (ground (arith, e)) h.on_screen
          (omega (arith, h.at)))

back-Keeps : Keeping back
unfolding back
back-Keeps c h =
    if-cases (Keeps c) (c.x == 0) _ _ (λ e. Keeps-refl c h)
      (λ e.
        move-Keeps (c.x - 1) c.y (c.cursor - 2) c h (omega (arith, h.in_line)) h.on_screen
          (ground (arith, e, h.at)))

show_char-Keeps : (ch : ℕ) → Keeping (show_char ch)
unfolding show_char
show_char-Keeps ch c h =
    let w : Console = wrap_line c in
    let wrapped = wrap_line-Keeps c h in
    let k = wrapped.console in
    let room = wrap_line-room c h in
    let inside = line_inside w k in
    let video = update w.video w.cursor (w.attr * 256 + ch) in
    let written = video-Keeps w video k (λ a out. ground (arith, out, inside, k.at, k.row, room)) in
    Keeps-trans c w _ wrapped (
      Keeps-trans w (record w { video = video }) _ written
        (move-Keeps (w.x + 1) w.y (w.cursor + 2) _ written.console (omega (arith, room)) k.on_screen
          (omega (arith, k.at))))

pub plain-Keeps : (erase : Bool) (ch : ℕ) (c : Console) → IsConsole c → Keeps c (plain erase ch c).0
unfolding plain
plain-Keeps erase ch c h =
    let P : Console × Event → Type 0 = λ r. Keeps c r.0 in
    if-cases P (ltb 31 ch && ltb ch 127) _ _ (λ e. show_char-Keeps ch c h)
      (λ e.
        if-cases P (ch == 27) _ _ (λ e. state-Keeps 1 c h)
          (λ e.
            if-cases P (ch == 10 || ch == 11 || ch == 12) _ _ (λ e. lf-Keeps c h)
              (λ e.
                if-cases P (ch == 13) _ _ (λ e. cr-Keeps c h)
                  (λ e.
                    if-cases P erase _ _ (λ e. del-Keeps c h)
                      (λ e.
                        if-cases P (ch == 8) _ _ (λ e. back-Keeps c h)
                          (λ e.
                            if-cases P (ch == 9) _ _ (λ e. tab-Keeps c h)
                              (λ e.
                                if-cases P (ch == 7) _ _ (λ e. Keeps-refl c h)
                                  (λ e. Keeps-refl c h))))))))
