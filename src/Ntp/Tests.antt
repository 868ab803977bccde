-- ===== src/Ntp/Tests.antt =====
-- Runs of the definitions of Ntp at concrete inputs.
use arduino_spider_l3s_libra.Base.{
  ◌+◌, ◌-◌, ◌*◌, ◌≤◌, ◌<◌, ◌≡◌, ◌⊎◌, arith, refl, ok, u16, u32, ◌%◌,
}
use arduino_spider_l3s_libra.Ntp.{gmt_offset, calendar, Time, time_of}
use arduino_spider_l3s_libra.Ntp.Gregorian.{day_number}
use arduino_spider_l3s_libra.Ntp.Calendar.{calendar-day_number, calendar-leap_end, time_of-clock}
use arduino_spider_l3s_libra.Ntp.Zone.{gmt_offset-hours}

-- 29 February 2000.
calendar-day_number_example : calendar (day_number 30 1 29) 7 ≡ ok (2000, 2, 29)
calendar-day_number_example =
    calendar-day_number 30 1 29 7 (omega arith) (omega arith, omega arith, omega arith)
      (λ e. omega (arith, e.1))

-- 31 December 1972.
calendar-leap_end_example : calendar (day_number 2 11 31) 7 ≡ ok (1973, 1, 0)
calendar-leap_end_example = calendar-leap_end 2 7 (omega arith) refl

time_of-clock_example :
    (r : Time) × (time_of 1400000000 7 ≡ ok r)
    × (r.hour < 24)
    × (r.minute < 60)
    × (r.second < 60)
    × (r.hour * 3600 + r.minute * 60 + r.second ≡ 1400000000 % 86400)
time_of-clock_example = time_of-clock 1400000000 7 (omega arith)

gmt_offset-hours_example :
    ((12 < 10)
      × (gmt_offset 12 ≡ 3600 * 12)
      × (gmt_offset (u16 (65536 - 12)) ≡ u32 (4294967296 - 3600 * 12)))
    ⊎ ((10 ≤ 12)
        × (gmt_offset 12 ≡ u32 (4294967296 + 3600 * 12 - 65536))
        × (gmt_offset (u16 (65536 - 12)) ≡ u32 (4294967296 + 65536 - 3600 * 12)))
gmt_offset-hours_example = gmt_offset-hours 12 (omega arith)
