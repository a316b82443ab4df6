-- ===== src/Mktime.antt =====
-- kernel/mktime.c: seconds since 1970 from the fields of `struct tm` (include/time.h).
-- The fields of `tm` are the numbers in it, of 32 bits. Of the sums of `kernel_mktime` the year and the
-- result are cut to 32 bits: additions and products wrap around modulo 2 ^ 32, so that one wrap-around
-- at the end is that of all the assignments to `res`.
pub mod Calendar
mod Tests
use linux_0_11_comments.Common.{
  ltb, if◌then◌else◌, ℤ, ◌+ℤ◌, ◌-ℤ◌, scale, quot, rem, ltb_ℤ, eq_ℤ, pos, negsuc, get_elem?, ℕ, ◌+◌,
  ◌-◌, ◌*◌, ◌%◌, ◌^◌, ◌&&◌, not, Option, none, List, [], ◌∷◌, map,
}
use mathlib.Core.Option

pub record Tm : Type 0 where
  pub tm_sec : ℤ
  pub tm_min : ℤ
  pub tm_hour : ℤ
  pub tm_mday : ℤ
  pub tm_mon : ℤ
  pub tm_year : ℤ

abbrev pub minute : ℕ
minute = 60

abbrev pub hour : ℕ
hour = 60 * minute

abbrev pub day : ℕ
day = 24 * hour

abbrev pub year_seconds : ℕ
year_seconds = 365 * day

abbrev pub month : List ℕ
month =
    0
    ∷ day * 31
    ∷ day * (31 + 29)
    ∷ day * (31 + 29 + 31)
    ∷ day * (31 + 29 + 31 + 30)
    ∷ day * (31 + 29 + 31 + 30 + 31)
    ∷ day * (31 + 29 + 31 + 30 + 31 + 30)
    ∷ day * (31 + 29 + 31 + 30 + 31 + 30 + 31)
    ∷ day * (31 + 29 + 31 + 30 + 31 + 30 + 31 + 31)
    ∷ day * (31 + 29 + 31 + 30 + 31 + 30 + 31 + 31 + 30)
    ∷ day * (31 + 29 + 31 + 30 + 31 + 30 + 31 + 31 + 30 + 31)
    ∷ day * (31 + 29 + 31 + 30 + 31 + 30 + 31 + 31 + 30 + 31 + 30)
    ∷ []

-- `month[i]`; `none` is a read outside the table.
abbrev pub month_at : ℤ → Option ℕ
month_at (pos m) = get_elem? month m
month_at (negsuc m) = none

-- A signed number of 32 bits, by its word
abbrev pub signed : ℕ → ℤ
signed w = if ltb w (2 ^ 31) then pos w else negsuc (2 ^ 32 - 1 - w)

-- The wrap-around of `int` and `long`
unfoldable pub to_long : ℤ → ℤ
to_long (pos n) = signed (n % 2 ^ 32)
to_long (negsuc n) = signed (2 ^ 32 - 1 - n % 2 ^ 32)

unfoldable pub kernel_mktime : Tm → Option ℤ
kernel_mktime tm =
    let year = to_long (tm.tm_year -ℤ pos 70) in
    let res = scale year_seconds year +ℤ scale day (quot (to_long (year +ℤ pos 1)) 4) in
    Option.map
      (λ start.
        let res = res +ℤ pos start in
        let res =
          if ltb_ℤ (pos 1) tm.tm_mon && not (eq_ℤ (rem (to_long (year +ℤ pos 2)) 4) (pos 0))
          then res -ℤ pos day
          else res in
        let res = res +ℤ scale day (tm.tm_mday -ℤ pos 1) in
        let res = res +ℤ scale hour tm.tm_hour in
        let res = res +ℤ scale minute tm.tm_min in to_long (res +ℤ tm.tm_sec))
      (month_at tm.tm_mon)
