-- ===== src/Console/Cursor.antt =====
-- The cursor stays on the screen, and the screen in video memory (kernel/chr_drv/console.c).
use native.Mathlib.Nat.{mul-le-mul_right}
use linux_0_11_comments.Console.{Console, gotoxy, move, fill}
use linux_0_11_comments.Common.{
  ltb, leb, if-cases, ℕ, ◌+◌, ◌*◌, ◌≤◌, ◌<◌, ◌≡◌, refl, ◌∙◌, ◌⊎◌, ◌||◌, arith,
}

-- The cursor is in a line of the screen, at most one column behind the last one; the region that
-- scrolls is a part of the screen, and the screen of video memory.
pub record IsConsole (c : Console) : Type 0 where
  pub row : c.size_row ≡ 2 * c.num_columns
  pub wide : 8 ≤ c.num_columns
  pub in_line : c.x ≤ c.num_columns
  pub on_screen : c.y < c.num_lines
  pub at : c.cursor ≡ c.origin + c.y * c.size_row + 2 * c.x
  pub region : c.top < c.bottom
  pub region_fits : c.bottom ≤ c.num_lines
  pub first : c.mem_start ≤ c.origin
  pub last : c.scr_end ≡ c.origin + c.num_lines * c.size_row
  pub fits : c.scr_end ≤ c.mem_end

-- Between the two only the screen and the cursor changed: nothing outside of video memory.
pub record Keeps (c v : Console) : Type 0 where
  pub console : IsConsole v
  pub same_start : v.mem_start ≡ c.mem_start
  pub same_end : v.mem_end ≡ c.mem_end
  pub same_lines : v.num_lines ≡ c.num_lines
  pub outside : (a : ℕ) → (a < c.mem_start) ⊎ (c.mem_end ≤ a) → v.video a ≡ c.video a

pub Keeps-refl : (c : Console) → IsConsole c → Keeps c c
Keeps-refl c h = record {
  console = h;
  same_start = refl;
  same_end = refl;
  same_lines = refl;
  outside = λ a out. refl;
}

pub Keeps-trans : (c v w : Console) → Keeps c v → Keeps v w → Keeps c w
Keeps-trans c v w h k = record {
  console = k.console;
  same_start = k.same_start ∙ h.same_start;
  same_end = k.same_end ∙ h.same_end;
  same_lines = k.same_lines ∙ h.same_lines;
  outside = λ a out. k.outside a (ground (arith, out, h.same_start, h.same_end)) ∙ h.outside a out;
}

-- The cursor goes to another place of the screen.
pub move-Keeps :
    (x y cursor : ℕ) (c : Console)
    → IsConsole c
    → x ≤ c.num_columns
    → y < c.num_lines
    → cursor ≡ c.origin + y * c.size_row + 2 * x
    → Keeps c (record c { x = x; y = y; cursor = cursor })
move-Keeps x y cursor c h in_line on_screen at = record {
  console = record {
    row = h.row;
    wide = h.wide;
    in_line = in_line;
    on_screen = on_screen;
    at = at;
    region = h.region;
    region_fits = h.region_fits;
    first = h.first;
    last = h.last;
    fits = h.fits;
  };
  same_start = refl;
  same_end = refl;
  same_lines = refl;
  outside = λ a out. refl;
}

pub gotoxy-Keeps : (new_x new_y : ℕ) (c : Console) → IsConsole c → Keeps c (gotoxy new_x new_y c)
unfolding gotoxy
gotoxy-Keeps new_x new_y c h =
    if-cases (Keeps c) (ltb c.num_columns new_x || leb c.num_lines new_y) _ _ (λ e. Keeps-refl c h)
      (λ e. move-Keeps new_x new_y _ c h (ground (arith, e)) (ground (arith, e)) refl)

-- Words that are written in the screen, with the cursor where it was
pub video-Keeps :
    (c : Console) (video : ℕ → ℕ)
    → IsConsole c
    → ((a : ℕ) → (a < c.origin) ⊎ (c.scr_end ≤ a) → video a ≡ c.video a)
    → Keeps c (record c { video = video })
video-Keeps c video h same = record {
  console = record {
    row = h.row;
    wide = h.wide;
    in_line = h.in_line;
    on_screen = h.on_screen;
    at = h.at;
    region = h.region;
    region_fits = h.region_fits;
    first = h.first;
    last = h.last;
    fits = h.fits;
  };
  same_start = refl;
  same_end = refl;
  same_lines = refl;
  outside = λ a out. same a (ground (arith, out, h.first, h.fits));
}

pub fill-outside :
    (word start count : ℕ) (video : ℕ → ℕ) (a : ℕ)
    → (a < start) ⊎ (start + 2 * count ≤ a)
    → fill word start count video a ≡ video a
fill-outside word start count video a out = ground (arith, out)

pub move-outside :
    (dest source count : ℕ) (video : ℕ → ℕ) (a : ℕ)
    → (a < dest) ⊎ (dest + 2 * count ≤ a)
    → move dest source count video a ≡ video a
move-outside dest source count video a out = ground (arith, out)

-- Lines are ordered as their numbers are.
pub lines_le : (m n s : ℕ) → m ≤ n → m * s ≤ n * s
lines_le m n s le = mul-le-mul_right s le

-- The registers of the video controller do not matter.
pub crtc-Keeps : (c v : Console) (crtc : ℕ → ℕ) → Keeps c v → Keeps c (record v { crtc = crtc })
crtc-Keeps c v crtc k =
    let h = k.console in
    record {
      console = record {
        row = h.row;
        wide = h.wide;
        in_line = h.in_line;
        on_screen = h.on_screen;
        at = h.at;
        region = h.region;
        region_fits = h.region_fits;
        first = h.first;
        last = h.last;
        fits = h.fits;
      };
      same_start = k.same_start;
      same_end = k.same_end;
      same_lines = k.same_lines;
      outside = k.outside;
    }
