-- ===== src/Ntp/Calendar.antt =====
-- The date of `NTP_get_time` against the calendar.
use arduino_spider_l3s_libra.Base.{
  ℕ, suc, ◌+◌, ◌-◌, ◌*◌, ◌/◌, ◌%◌, ◌≤◌, ◌<◌, ◌≡◌, refl, sym, ap, ◌∙◌, true, take, ok, arith,
}
use mathlib.Core.Path.{subst}
use arduino_spider_l3s_libra.Ntp.{
  m_d_table_leap, is_leap, year_loop, month_loop, calendar, Time, time_of,
}
use arduino_spider_l3s_libra.Ntp.Years.{
  sum, year_days, years_days, months, day_count, year_loop-stop, year_loop-next, year_loop-same,
  year_loop-years, month_loop-month, IsTableDate, IsLeapEnd, months-length, ordinal-le, calendar-of,
  year-of, month_loop-nothing, year_loop-total,
}
use arduino_spider_l3s_libra.Ntp.Gregorian.{
  is_leap_year, IsDate, day_number, is_leap-is_leap_year, day_count-day_number, IsDate-IsTableDate,
}

calendar-day_count :
    (k i day day0 : ℕ)
    → k ≤ 136
    → IsTableDate (1970 + k) i day
    → ¬ IsLeapEnd (1970 + k) i day
    → calendar (day_count k i day) day0 ≡ ok (1970 + k, i + 1, day)
calendar-day_count k i day day0 h date not_end =
    calendar-of (day_count k i day) day0 (1970 + k) (sum (take i (months (1970 + k))) + day) (
      year_loop-same refl (omega (arith, date.1)) refl
      ∙ year-of k (sum (take i (months (1970 + k))) + day) (omega arith) (omega (arith, date.1))
          (ordinal-le (1970 + k) i day date not_end))
    ∙ ap (λ d. ok (1970 + k, d.0, d.1))
        (month_loop-month (months (1970 + k)) i 0 day day0
            (subst (λ n. i < n) (sym (months-length (1970 + k))) date.0) date.1 date.2
          ∙ ap (λ n. (n, day)) (omega arith))

calendar-count_end :
    (k day0 : ℕ)
    → k ≤ 136
    → is_leap (1970 + k) ≡ true
    → calendar (day_count k 11 31) day0 ≡ ok (1970 + k + 1, 1, 0)
calendar-count_end k day0 h leap =
    calendar-of (day_count k 11 31) day0 (1970 + k + 1) 0 (
      year_loop-same refl to_end refl
      ∙ (year_loop-same (omega arith) refl refl
          ∙ (year_loop-years k (suc (136 - k)) 366 1970 (omega arith)
              ∙ (year_loop-next (136 - k) 366 (1970 + k) (omega arith)
                  ∙ (year_loop-same refl none_left refl
                      ∙ year_loop-stop (136 - k) 0 (1970 + k + 1) (omega arith))))))
    ∙ ap (λ d. ok (1970 + k + 1, d.0, d.1)) (month_loop-nothing (1970 + k + 1) day0)
  where
    table : months (1970 + k) ≡ m_d_table_leap
    table = rw leap refl

    to_end : day_count k 11 31 + 1 ≡ years_days k 1970 + 366
    to_end = let e : sum (take 11 (months (1970 + k))) ≡ 335 = rw table refl in omega (arith, e)

    none_left : 366 - year_days (1970 + k) ≡ 0
    none_left = rw leap refl

-- Every date of the Gregorian calendar from 1970 to 2106 but the 31st of December of a leap year: the
-- number of days from 1 January 1970 to it gives back its year, its month and its day, whatever `*day`
-- was before.
pub calendar-day_number :
    (k i day day0 : ℕ)
    → k ≤ 136
    → IsDate (1970 + k) i day
    → ¬ ((is_leap_year (1970 + k) ≡ true) × (i ≡ 11) × (day ≡ 31))
    → calendar (day_number k i day) day0 ≡ ok (1970 + k, i + 1, day)
calendar-day_number k i day day0 h date not_end =
    ap (λ n. calendar n day0) (sym (day_count-day_number k i day h date.0))
    ∙ calendar-day_count k i day day0 h (IsDate-IsTableDate (1970 + k) i day date)
        (λ e. not_end (sym (is_leap-is_leap_year (1970 + k)) ∙ e.0, e.1, e.2))

-- The 31st of December of a leap year of the Gregorian calendar, from 1970 to 2106, comes out as day 0
-- of January of the next year.
pub calendar-leap_end :
    (k day0 : ℕ)
    → k ≤ 136
    → is_leap_year (1970 + k) ≡ true
    → calendar (day_number k 11 31) day0 ≡ ok (1970 + k + 1, 1, 0)
calendar-leap_end k day0 h leap =
    ap (λ n. calendar n day0) (sym (day_count-day_number k 11 31 h (omega arith)))
    ∙ calendar-count_end k day0 h (is_leap-is_leap_year (1970 + k) ∙ leap)

-- For every time of an unsigned long the year loop ends within its rounds, and the hour, the minute and
-- the second are in their ranges and give back the second of the day.
pub time_of-clock :
    (t day0 : ℕ)
    → t < 4294967296
    → (r : Time) × (time_of t day0 ≡ ok r)
      × (r.hour < 24)
      × (r.minute < 60)
      × (r.second < 60)
      × (r.hour * 3600 + r.minute * 60 + r.second ≡ t % 86400)
unfolding time_of
time_of-clock t day0 h = (
  record {
    year = years.0.0;
    month = date.0;
    day = date.1;
    hour = t / 3600 % 24;
    minute = t / 60 % 60;
    second = t % 60;
  },
  rw c refl,
  omega arith,
  omega arith,
  omega arith,
  omega arith,
)
  where
    years : (r : ℕ × ℕ) × (year_loop 137 (t / 86400 + 1) 1970 ≡ ok r)
    years = year_loop-total 137 (t / 86400 + 1) 1970 (omega arith)

    date : ℕ × ℕ
    date = month_loop (months (years.0.0)) 0 (years.0.1) day0

    c : calendar (t / 86400) day0 ≡ ok (years.0.0, date.0, date.1)
    c = calendar-of (t / 86400) day0 (years.0.0) (years.0.1) (years.1)
