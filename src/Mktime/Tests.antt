-- ===== src/Mktime/Tests.antt =====
-- The theorems of kernel/mktime.c at concrete dates, and a run.
use linux_0_11_comments.Common.{◌+ℤ◌, ◌-ℤ◌, scale, pos, negsuc, ◌^◌, ◌<◌, ◌≡◌, refl, some, arith}
use linux_0_11_comments.Mktime.{to_long, kernel_mktime}
use linux_0_11_comments.Mktime.Calendar.{Date, to_tm, seconds_since_1970, kernel_mktime-calendar}

-- 1991-12-25 20:30:59
abbrev christmas : Date
christmas = record { year = 21; mon = 11; mday = 25; hours = 20; minutes = 30; seconds = 59 }

christmas_seconds : kernel_mktime (to_tm christmas) ≡ some (pos 693_693_059)
unfolding kernel_mktime to_long ◌+ℤ◌ ◌-ℤ◌ scale
christmas_seconds = refl

-- In 2050 the result has wrapped around.
abbrev too_late : Date
too_late = record { year = 80; mon = 0; mday = 1; hours = 0; minutes = 0; seconds = 0 }

too_late_seconds : kernel_mktime (to_tm too_late) ≡ some (negsuc 1_770_359_295)
unfolding kernel_mktime to_long ◌+ℤ◌ ◌-ℤ◌ scale
too_late_seconds = refl

kernel_mktime-calendar_example :
    (kernel_mktime (to_tm christmas) ≡ some (pos (seconds_since_1970 christmas)))
    × (seconds_since_1970 christmas < 2 ^ 31)
kernel_mktime-calendar_example = kernel_mktime-calendar christmas (record {
  year = omega arith;
  mon = omega arith;
  first = omega arith;
  last = omega arith;
  hours = omega arith;
  minutes = omega arith;
  seconds = omega arith;
})
