-- ===== src/Ntp/Years.antt =====
-- The years and the months of `NTP_get_time`: the number of a day is the days of the years before, of the
-- months before, and of the month, and the loops count them off.
use arduino_spider_l3s_libra.Base.{
  ℕ, zero, suc, ◌+◌, ◌-◌, ◌*◌, ◌≤◌, ◌<◌, ltb, leb, leb→le, ltb→lt, ◌≡◌, ◌≢◌, refl, ap, ◌∙◌, ◌⊎◌,
  inl, inr, Bool-cases, true, false, List, [], ◌∷◌, length, take, get_or, if◌then◌else◌, ok, arith,
}
use mathlib.Core.Path.{subst}
use arduino_spider_l3s_libra.Base.Table.{all_below, at_all_below}
use arduino_spider_l3s_libra.Ntp.{
  m_d_table_normal, m_d_table_leap, is_leap, year_loop, month_loop, calendar,
}

abbrev pub sum : List ℕ → ℕ
sum [] = 0
sum (x ∷ xs) = x + sum xs

abbrev pub year_days : ℕ → ℕ
year_days year = if is_leap year then 366 else 365

-- The days of `k` years from `year` on.
abbrev pub years_days : ℕ → ℕ → ℕ
years_days zero year = 0
years_days (suc k) year = year_days year + years_days k (year + 1)

abbrev pub months : ℕ → List ℕ
months year = if is_leap year then m_d_table_leap else m_d_table_normal

-- What the loops count off for day `day` in the month after `i` others of the year 1970 + `k`.
abbrev pub day_count : ℕ → ℕ → ℕ → ℕ
day_count k i day = years_days k 1970 + (sum (take i (months (1970 + k))) + day) - 1

pub year_days-cases : (year : ℕ) → (year_days year ≡ 365) ⊎ (year_days year ≡ 366)
year_days-cases year = elim (Bool-cases (is_leap year)) [
  | inl e ↦ inr (rw e refl)
  | inr e ↦ inl (rw e refl)
]

pub year_loop-stop :
    (fuel counter year : ℕ) → counter ≤ 365 → year_loop fuel counter year ≡ ok (year, counter)
unfolding year_loop
year_loop-stop zero counter year h =
    let short : ltb 365 counter ≡ false = ground arith in rw short refl
year_loop-stop (suc fuel) counter year h =
    let short : ltb 365 counter ≡ false = ground arith in rw (short, year_loop) refl

pub year_loop-next :
    (fuel counter year : ℕ)
    → 365 < counter
    → year_loop (suc fuel) counter year ≡ year_loop fuel (counter - year_days year) (year + 1)
unfolding year_loop
year_loop-next fuel counter year h =
    let long : ltb 365 counter ≡ true = ground arith in rw (long, year_loop) refl

pub year_loop-same : {n m c d y z : ℕ} → n ≡ m → c ≡ d → y ≡ z → year_loop n c y ≡ year_loop m d z
year_loop-same p q r = rw (p, q, r) refl

-- Whole years are passed while at least a day is left.
pub year_loop-years :
    (k fuel c year : ℕ)
    → 0 < c
    → year_loop (k + fuel) (years_days k year + c) year ≡ year_loop fuel c (year + k)
year_loop-years zero fuel c year h = year_loop-same (omega arith) (omega arith) (omega arith)
year_loop-years (suc k) fuel c year h =
    year_loop-same (omega arith) refl refl
    ∙ (year_loop-next (k + fuel) (years_days (suc k) year + c) year long
        ∙ (year_loop-same refl left refl
            ∙ (year_loop-years k fuel c (year + 1) h ∙ year_loop-same refl refl (omega arith))))
  where
    long : 365 < years_days (suc k) year + c
    long = elim (year_days-cases year) [ inl e ↦ omega (arith, e) | inr e ↦ omega (arith, e) ]

    left : years_days (suc k) year + c - year_days year ≡ years_days k (year + 1) + c
    left = omega arith

pub month_loop-month :
    (table : List ℕ) (i m day day0 : ℕ)
    → i < length table
    → 0 < day
    → day ≤ get_or table i 0
    → month_loop table m (sum (take i table) + day) day0 ≡ (m + i + 1, day)
unfolding month_loop
month_loop-month [] i m day day0 h p q = absurd (omega arith)
month_loop-month (x ∷ xs) zero m day day0 h p q =
    let short : ltb x (0 + day) ≡ false = ground arith in rw short (ground arith)
month_loop-month (x ∷ xs) (suc i) m day day0 h p q =
    let long : ltb x (x + sum (take i xs) + day) ≡ true = ground arith in
    rw long (
      ap (λ c. month_loop xs (m + 1) c day0) left
      ∙ (month_loop-month xs i (m + 1) day day0 (omega arith) p q
          ∙ ap (λ n. (n, day)) (omega arith)))
  where
    left : x + sum (take i xs) + day - x ≡ sum (take i xs) + day
    left = omega arith

-- The days of the year up to a date in it, bounded through the tables.
pub leap_table :
    all_below 11 (λ i. leb (sum (take i m_d_table_leap) + get_or m_d_table_leap i 0) 335) ≡ true
unfolding all_below
leap_table = refl

pub normal_table :
    all_below 12 (λ i. leb (sum (take i m_d_table_normal) + get_or m_d_table_normal i 0) 365) ≡ true
unfolding all_below
normal_table = refl

-- The month after `i` others, and a day of it, by the code's tables.
abbrev pub IsTableDate : ℕ → ℕ → ℕ → Type 0
IsTableDate year i day = (i < 12) × (0 < day) × (day ≤ get_or (months year) i 0)

-- The 31st of December of a leap year.
abbrev pub IsLeapEnd : ℕ → ℕ → ℕ → Type 0
IsLeapEnd year i day = (is_leap year ≡ true) × (i ≡ 11) × (day ≡ 31)

pub months-length : (year : ℕ) → length (months year) ≡ 12
months-length year = elim (Bool-cases (is_leap year)) [ inl e ↦ rw e refl | inr e ↦ rw e refl ]

pub leap-ordinal :
    (i day : ℕ)
    → i < 12
    → day ≤ get_or m_d_table_leap i 0
    → ¬ ((i ≡ 11) × (day ≡ 31))
    → sum (take i m_d_table_leap) + day ≤ 365
leap-ordinal i day h p q = elim (Bool-cases (ltb i 11)) [
  | inl e ↦ before e
  | inr e ↦ last (ground arith)
]
  where
    before : ltb i 11 ≡ true → sum (take i m_d_table_leap) + day ≤ 365
    before e =
        let f =
          at_all_below (λ n. leb (sum (take n m_d_table_leap) + get_or m_d_table_leap n 0) 335) 11 i
            (ltb→lt i 11 e) leap_table in
        let g = leb→le _ _ f in omega arith

    last : i ≡ 11 → sum (take i m_d_table_leap) + day ≤ 365
    last e =
        let s : sum (take i m_d_table_leap) ≡ 335 = ap (λ n. sum (take n m_d_table_leap)) e in
        let d : day ≤ 31 = subst (λ n. day ≤ get_or m_d_table_leap n 0) e p in
        let n : day ≢ 31 = λ d31. q (e, d31) in omega (arith, s, d, n)

pub normal-ordinal :
    (i day : ℕ)
    → i < 12
    → day ≤ get_or m_d_table_normal i 0
    → sum (take i m_d_table_normal) + day ≤ 365
normal-ordinal i day h p =
    let f =
      at_all_below (λ n. leb (sum (take n m_d_table_normal) + get_or m_d_table_normal n 0) 365) 12 i
        h normal_table in
    let g = leb→le _ _ f in omega arith

pub ordinal-le :
    (year i day : ℕ)
    → IsTableDate year i day
    → ¬ IsLeapEnd year i day
    → sum (take i (months year)) + day ≤ 365
ordinal-le year i day date not_end = elim (Bool-cases (is_leap year)) [
  | inl e ↦
      let m : months year ≡ m_d_table_leap = rw e refl in
      rw m (
        leap-ordinal i day date.0 (subst (λ t. day ≤ get_or t i 0) m date.2)
          (λ q. not_end (e, q.0, q.1)))
  | inr e ↦
      let m : months year ≡ m_d_table_normal = rw e refl in
      rw m (normal-ordinal i day date.0 (subst (λ t. day ≤ get_or t i 0) m date.2))
]

pub year_days-pos : (year : ℕ) → 365 ≤ year_days year
year_days-pos year = elim (year_days-cases year) [
  | inl e ↦ omega (arith, e)
  | inr e ↦ omega (arith, e)
]

pub calendar-of :
    (days day0 year counter : ℕ)
    → year_loop 137 (days + 1) 1970 ≡ ok (year, counter)
    → calendar days day0
      ≡ ok (
        year,
        (month_loop (months year) 0 counter day0).0,
        (month_loop (months year) 0 counter day0).1,
      )
unfolding calendar
calendar-of days day0 year counter e = rw e refl

pub year-of :
    (k c : ℕ)
    → k ≤ 137
    → 0 < c
    → c ≤ 365
    → year_loop 137 (years_days k 1970 + c) 1970 ≡ ok (1970 + k, c)
year-of k c h p q =
    year_loop-same (omega arith) refl refl
    ∙ (year_loop-years k (137 - k) c 1970 p ∙ year_loop-stop (137 - k) c (1970 + k) q)

pub month_loop-nothing : (year day0 : ℕ) → month_loop (months year) 0 0 day0 ≡ (1, 0)
unfolding month_loop
month_loop-nothing year day0 = elim (Bool-cases (is_leap year)) [
  | inl e ↦ rw e refl
  | inr e ↦ rw e refl
]

pub year_loop-total :
    (fuel counter year : ℕ)
    → counter ≤ 365 * (fuel + 1)
    → (r : ℕ × ℕ) × (year_loop fuel counter year ≡ ok r)
year_loop-total zero counter year h =
    ((year, counter), year_loop-stop zero counter year (omega arith))
year_loop-total (suc fuel) counter year h = elim (Bool-cases (ltb 365 counter)) [
  | inl e ↦
      let long = ltb→lt 365 counter e in
      let rest =
        year_loop-total fuel (counter - year_days year) (year + 1)
          (let d = year_days-pos year in omega (arith, d)) in
      (rest.0, year_loop-next fuel counter year long ∙ rest.1)
  | inr e ↦ ((year, counter), year_loop-stop (suc fuel) counter year (ground arith))
]
