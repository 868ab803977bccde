-- ===== src/Ntp/Gregorian.antt =====
-- The Gregorian calendar, apart from the code, and its agreement with the sums that the loops of
-- `NTP_get_time` count off.
use arduino_spider_l3s_libra.Base.{
  ℕ, zero, suc, ◌+◌, ◌-◌, ◌*◌, ◌/◌, ◌%◌, ◌==◌, ◌||◌, ◌≤◌, ◌<◌, ◌≡◌, refl, ap₂, ◌∙◌, Bool,
  Bool-cases, true, false, inl, inr, List, [], ◌∷◌, take, get_or, if◌then◌else◌, arith,
}
use arduino_spider_l3s_libra.Base.Table.{all_below, eq_below}
use arduino_spider_l3s_libra.Ntp.{m_d_table_normal, m_d_table_leap, is_leap}
use arduino_spider_l3s_libra.Ntp.Years.{sum, years_days, months, day_count, IsTableDate}

-- Every fourth year, but of the centuries only every fourth.
abbrev pub is_leap_year : ℕ → Bool
is_leap_year year =
    if year % 400 == 0 then true else if year % 100 == 0 then false else year % 4 == 0

-- The days of the month after `i` others, in a leap year or not: thirty have April, June, September
-- and November.
abbrev pub month_length : Bool → ℕ → ℕ
month_length leap i =
    if i == 1
    then (if leap then 29 else 28)
    else if i == 3 || i == 5 || i == 8 || i == 10
    then 30
    else 31

abbrev pub days_in_month : ℕ → ℕ → ℕ
days_in_month year i = month_length (is_leap_year year) i

abbrev pub days_before_month : ℕ → ℕ → ℕ
days_before_month year zero = 0
days_before_month year (suc i) = days_before_month year i + days_in_month year i

-- The days from 1 January of the year 1 to 1 January of the year 1 + `y`.
abbrev pub days_of_years : ℕ → ℕ
days_of_years y = 365 * y + y / 4 - y / 100 + y / 400

-- The days since 1 January 1970 of day `day` in the month after `i` others of the year 1970 + `k`.
abbrev pub day_number : ℕ → ℕ → ℕ → ℕ
day_number k i day =
    days_of_years (1969 + k) - days_of_years 1969 + days_before_month (1970 + k) i + day - 1

-- A date: the month after `i` others, and a day of it.
abbrev pub IsDate : ℕ → ℕ → ℕ → Type 0
IsDate year i day = (i < 12) × (0 < day) × (day ≤ days_in_month year i)

pub is_leap-is_leap_year : (year : ℕ) → is_leap year ≡ is_leap_year year
is_leap-is_leap_year year = ground arith

leap_lengths : all_below 12 (λ i. get_or m_d_table_leap i 0 == month_length true i) ≡ true
unfolding all_below
leap_lengths = refl

normal_lengths : all_below 12 (λ i. get_or m_d_table_normal i 0 == month_length false i) ≡ true
unfolding all_below
normal_lengths = refl

-- The code's tables hold the lengths of the months.
months-days_in_month : (year i : ℕ) → i < 12 → get_or (months year) i 0 ≡ days_in_month year i
months-days_in_month year i h = elim (Bool-cases (is_leap_year year)) [
  | inl e ↦
      rw (is_leap-is_leap_year year, e)
        (eq_below 12 (λ n. get_or m_d_table_leap n 0) (month_length true) leap_lengths i h)
  | inr e ↦
      rw (is_leap-is_leap_year year, e)
        (eq_below 12 (λ n. get_or m_d_table_normal n 0) (month_length false) normal_lengths i h)
]

-- The days of the years before, as a formula.
years_table :
    all_below 138 (λ k. years_days k 1970 == days_of_years (1969 + k) - days_of_years 1969) ≡ true
unfolding all_below
years_table = refl

years_days-days_of_years :
    (k : ℕ) → k < 138 → years_days k 1970 ≡ days_of_years (1969 + k) - days_of_years 1969
years_days-days_of_years =
    eq_below 138 (λ k. years_days k 1970) (λ k. days_of_years (1969 + k) - days_of_years 1969)
      years_table

sum-take-suc : (xs : List ℕ) (i : ℕ) → sum (take (suc i) xs) ≡ sum (take i xs) + get_or xs i 0
sum-take-suc [] zero = refl
sum-take-suc [] (suc i) = refl
sum-take-suc (x ∷ xs) zero = omega arith
sum-take-suc (x ∷ xs) (suc i) = omega (arith, sum-take-suc xs i)

months-days_before_month :
    (year i : ℕ) → i ≤ 12 → sum (take i (months year)) ≡ days_before_month year i
months-days_before_month year zero h = refl
months-days_before_month year (suc i) h =
    sum-take-suc (months year) i
    ∙ ap₂ (◌+◌) (months-days_before_month year i (omega arith))
        (months-days_in_month year i (omega arith))

pub day_count-day_number : (k i day : ℕ) → k ≤ 136 → i < 12 → day_count k i day ≡ day_number k i day
day_count-day_number k i day h p = omega (
  arith,
  years_days-days_of_years k (omega arith),
  months-days_before_month (1970 + k) i (omega arith),
)

pub IsDate-IsTableDate : (year i day : ℕ) → IsDate year i day → IsTableDate year i day
IsDate-IsTableDate year i day h = (h.0, h.1, omega (arith, h.2, months-days_in_month year i h.0))
