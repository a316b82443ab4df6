-- ===== src/Mktime/Calendar.antt =====
-- The Gregorian calendar from 1970 on, and kernel/mktime.c against it.
use linux_0_11_comments.Common.{
  ltb, ◌==◌, if◌then◌else◌, ◌+ℤ◌, ◌-ℤ◌, pos_add, pos_sub, scale-pos, ltb_ℤ-pos, eq_ℤ-pos,
  if_pos_sub, pos, get_elem?, ℕ, zero, suc, ◌+◌, ◌-◌, ◌*◌, ◌/◌, ◌%◌, ◌^◌, ◌≤◌, ◌<◌, min, ◌≡◌, refl,
  Bool, true, false, ◌&&◌, ◌||◌, not, some, arith,
}
use linux_0_11_comments.Mktime.{
  to_long, Tm, month_at, hour, minute, year_seconds, day, month, kernel_mktime,
}

pub record Date : Type 0 where
  pub year : ℕ
  pub mon : ℕ
  pub mday : ℕ
  pub hours : ℕ
  pub minutes : ℕ
  pub seconds : ℕ

-- The `struct tm` of a date; `year` counts from 1970 and `tm_year` from 1900.
abbrev pub to_tm : Date → Tm
to_tm d = record {
  tm_sec = pos d.seconds;
  tm_min = pos d.minutes;
  tm_hour = pos d.hours;
  tm_mday = pos d.mday;
  tm_mon = pos d.mon;
  tm_year = pos (70 + d.year);
}

abbrev pub is_leap : ℕ → Bool
is_leap y = y % 4 == 0 && (not (y % 100 == 0) || y % 400 == 0)

abbrev pub leap_day : ℕ → ℕ
leap_day y = if is_leap (1970 + y) then 1 else 0

-- The days of the first `y` years from 1970.
unfoldable pub days_before_year : ℕ → ℕ
days_before_year zero = 0
days_before_year (suc y) = days_before_year y + 365 + leap_day y

abbrev pub month_length : ℕ → ℕ → ℕ
month_length leap m =
    if m == 1 then 28 + leap else if m == 3 || m == 5 || m == 8 || m == 10 then 30 else 31

-- The days of the first `m` months of a year; `leap` is its number of leap days.
unfoldable pub days_before_month : ℕ → ℕ → ℕ
days_before_month leap zero = 0
days_before_month leap (suc m) = days_before_month leap m + month_length leap m

unfoldable pub seconds_since_1970 : Date → ℕ
unfolding days_before_year days_before_month
seconds_since_1970 d =
    (((days_before_year d.year + days_before_month (leap_day d.year) d.mon + (d.mday - 1)) * 24
            + d.hours)
          * 60
        + d.minutes)
      * 60
    + d.seconds

leap_before_2100 : (y : ℕ) → y < 130 → leap_day y ≡ (if (y + 2) % 4 == 0 then 1 else 0)
leap_before_2100 y h = ground arith

days_before_year_closed : (y : ℕ) → y ≤ 130 → days_before_year y ≡ 365 * y + (y + 1) / 4
unfolding days_before_year
days_before_year_closed zero h = refl
days_before_year_closed (suc y) h = ground (arith, days_before_year_closed y, leap_before_2100 y)

-- The table assumes a leap year.
month_start : (m : ℕ) → m < 12 → get_elem? month m ≡ some (day * days_before_month 1 m)
unfolding days_before_month
month_start zero h = refl
month_start (suc zero) h = refl
month_start (suc (suc zero)) h = refl
month_start (suc (suc (suc zero))) h = refl
month_start (suc (suc (suc (suc zero)))) h = refl
month_start (suc (suc (suc (suc (suc zero))))) h = refl
month_start (suc (suc (suc (suc (suc (suc zero)))))) h = refl
month_start (suc (suc (suc (suc (suc (suc (suc zero))))))) h = refl
month_start (suc (suc (suc (suc (suc (suc (suc (suc zero)))))))) h = refl
month_start (suc (suc (suc (suc (suc (suc (suc (suc (suc zero))))))))) h = refl
month_start (suc (suc (suc (suc (suc (suc (suc (suc (suc (suc zero)))))))))) h = refl
month_start (suc (suc (suc (suc (suc (suc (suc (suc (suc (suc (suc zero))))))))))) h = refl
month_start (suc (suc (suc (suc (suc (suc (suc (suc (suc (suc (suc (suc m)))))))))))) h =
    absurd (omega arith)

common_year : (m : ℕ) → days_before_month 1 m ≡ days_before_month 0 m + (if ltb 1 m then 1 else 0)
unfolding days_before_month
common_year zero = refl
common_year (suc zero) = refl
common_year (suc (suc m)) = ground (arith, common_year (suc m))

either_year :
    (leap : Bool) (m : ℕ)
    → days_before_month (if leap then 1 else 0) m + (if ltb 1 m && not leap then 1 else 0)
      ≡ days_before_month 1 m
either_year true m = ground arith
either_year false m = ground (arith, common_year m)

-- What `kernel_mktime` adds up, on dates from 1970 on.
mktime_sum : (y start m mday h min sec : ℕ) → ℕ
mktime_sum y start m mday h min sec =
    (if ltb 1 m && not ((y + 2) % 4 == 0)
      then year_seconds * y + day * ((y + 1) / 4) + start - day
      else year_seconds * y + day * ((y + 1) / 4) + start)
    + day * (mday - 1)
    + hour * h
    + minute * min
    + sec

to_long-pos : (n : ℕ) → n < 2 ^ 31 → to_long (pos n) ≡ pos n
unfolding to_long
to_long-pos n h =
    let at : n % 2 ^ 32 ≡ n = omega (arith, h) in
    let low : ltb n (2 ^ 31) ≡ true = ground (arith, h) in rw (at, low) refl

kernel_mktime-sum :
    (d : Date) (start : ℕ)
    → d.year < 68
    → month_at (pos d.mon) ≡ some start
    → 1 ≤ d.mday
    → (ltb 1 d.mon ≡ true → day ≤ start)
    → kernel_mktime (to_tm d)
      ≡ some (to_long (pos (mktime_sum d.year start d.mon d.mday d.hours d.minutes d.seconds)))
unfolding kernel_mktime mktime_sum
kernel_mktime-sum d start hy e hd late =
    let year : pos (70 + d.year) -ℤ pos 70 ≡ pos d.year =
      rw (pos_sub (70 + d.year) 70 (omega arith)) (ground arith) in
    let year_1 : to_long (pos d.year +ℤ pos 1) ≡ pos (d.year + 1) =
      rw (pos_add d.year 1) (to_long-pos (d.year + 1) (omega (arith, hy))) in
    let year_2 : to_long (pos d.year +ℤ pos 2) ≡ pos (d.year + 2) =
      rw (pos_add d.year 2) (to_long-pos (d.year + 2) (omega (arith, hy))) in
    rw (e, year, to_long-pos d.year (omega (arith, hy)), year_1, year_2, pos_sub d.mday 1 hd)
      (simp (pos_add, scale-pos)
        (rw (ltb_ℤ-pos 1 d.mon, eq_ℤ-pos ((d.year + 2) % 4) 0)
          (rw
            (if_pos_sub (ltb 1 d.mon && not ((d.year + 2) % 4 == 0))
              (year_seconds * d.year + day * ((d.year + 1) / 4) + start) day
              (λ t. ground (arith, late)))
            (simp pos_add))))

month_bound : (leap m : ℕ) → leap ≤ 1 → days_before_month leap m ≤ 31 * m
unfolding days_before_month
month_bound leap zero h = omega arith
month_bound leap (suc m) h = ground (arith, month_bound leap m h)

-- A date from 1970 to 2037, and a time of day.
pub record IsValid (d : Date) : Type 0 where
  pub year : d.year < 68
  pub mon : d.mon < 12
  pub first : 1 ≤ d.mday
  pub last : d.mday ≤ 31
  pub hours : d.hours < 24
  pub minutes : d.minutes < 60
  pub seconds : d.seconds < 60

seconds_bound : (d : Date) → IsValid d → seconds_since_1970 d < 2 ^ 31
unfolding seconds_since_1970
seconds_bound d h = ground (
  arith,
  h.year,
  h.mon,
  h.first,
  h.last,
  h.hours,
  h.minutes,
  h.seconds,
  days_before_year_closed d.year,
  month_bound (leap_day d.year) d.mon,
)

mktime_sum-calendar :
    (d : Date)
    → IsValid d
    → mktime_sum d.year (day * days_before_month 1 d.mon) d.mon d.mday d.hours d.minutes d.seconds
      ≡ seconds_since_1970 d
unfolding seconds_since_1970 mktime_sum
mktime_sum-calendar d h = rw (leap_before_2100 d.year (omega (arith, h.year))) (
    ground (
      arith,
      h.year,
      h.first,
      days_before_year_closed d.year,
      either_year ((d.year + 2) % 4 == 0) d.mon,
    ))

-- For every date from 1970 to 2037 with its month in the table and its day from 1 to 31, and every
-- time of day, `kernel_mktime` returns the seconds that the Gregorian calendar counts from 1970-01-01,
-- and they fit a `long` of 32 bits.
pub kernel_mktime-calendar :
    (d : Date)
    → IsValid d
    → (kernel_mktime (to_tm d) ≡ some (pos (seconds_since_1970 d)))
      × (seconds_since_1970 d < 2 ^ 31)
kernel_mktime-calendar d h =
    let small = seconds_bound d h in
    (
      rw
          (
            kernel_mktime-sum d _ h.year (month_start d.mon h.mon) h.first
                (λ t. ground (arith, common_year d.mon)),
            mktime_sum-calendar d h,
            to_long-pos (seconds_since_1970 d) small,
          )
          refl,
      small,
    )
