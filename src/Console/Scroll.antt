-- ===== src/Console/Scroll.antt =====
-- kernel/chr_drv/console.c: scrolling, and the moves of the cursor that scroll.
use linux_0_11_comments.Console.{move, fill, set_origin, Console}
use linux_0_11_comments.Common.{ltb, ◌==◌, if◌then◌else◌, ℕ, ◌+◌, ◌-◌, ◌*◌, ◌/◌, ◌&&◌}

-- The words that a copy of the lines from top + 1 to bottom moves: twice the number of double words
abbrev pub region_words : Console → ℕ
region_words c = 2 * ((c.bottom - c.top - 1) * c.num_columns / 2)

-- The branches of scrup that copy the lines of the region
unfoldable pub scroll_region_up : Console → Console
scroll_region_up c =
    let n = region_words c in
    let dest = c.origin + c.size_row * c.top in
    record c {
      video =
          fill c.erase_char (dest + 2 * n) c.num_columns
            (move dest (c.origin + c.size_row * (c.top + 1)) n c.video);
    }

-- The branch of scrup that moves the origin, and copies the screen when it reaches the end of memory
unfoldable pub move_origin : Console → Console
move_origin c =
    let origin = c.origin + c.size_row in
    let cursor = c.cursor + c.size_row in
    let scr_end = c.scr_end + c.size_row in
    set_origin (
      if ltb c.mem_end scr_end
      then (let n = 2 * ((c.num_lines - 1) * c.num_columns / 2) in
          record c {
            video =
                fill c.erase_char (c.mem_start + 2 * n) c.num_columns
                  (move c.mem_start origin n c.video);
            scr_end = scr_end - (origin - c.mem_start);
            cursor = cursor - (origin - c.mem_start);
            origin = c.mem_start;
          })
      else record c {
        video = fill c.erase_char (scr_end - c.size_row) c.num_columns c.video;
        scr_end = scr_end;
        cursor = cursor;
        origin = origin;
      })

unfoldable pub scrup : Console → Console
scrup c =
    if c.ega && c.top == 0 && c.bottom == c.num_lines then move_origin c else scroll_region_up c

-- The copy goes downwards, from the last double word of the line before the last one on.
unfoldable pub scrdown : Console → Console
scrdown c =
    let n = region_words c in
    let end = c.origin + c.size_row * c.bottom in
    record c {
      video =
          fill c.erase_char (end - 2 * n - 2 * c.num_columns) c.num_columns
            (move (end - 2 * n) (c.origin + c.size_row * (c.bottom - 1) - 2 * n) n c.video);
    }

unfoldable pub lf : Console → Console
lf c =
    if ltb (c.y + 1) c.bottom
    then record c { y = c.y + 1; cursor = c.cursor + c.size_row }
    else scrup c

unfoldable pub ri : Console → Console
ri c = if ltb c.top c.y then record c { y = c.y - 1; cursor = c.cursor - c.size_row } else scrdown c

unfoldable pub cr : Console → Console
cr c = record c { cursor = c.cursor - 2 * c.x; x = 0 }
