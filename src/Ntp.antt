-- ===== src/Ntp.antt =====
-- NTP.c: the time that `NTP_get_time` makes of a reply. `int` has 16 bits on the AVR.
pub mod Years
pub mod Gregorian
pub mod Calendar
pub mod Client
pub mod Zone
mod Tests
use arduino_spider_l3s_libra.Base.{
  ℕ, zero, suc, ◌+◌, ◌-◌, ◌*◌, ◌/◌, ◌%◌, ◌==◌, ◌&&◌, ◌||◌, not, ltb, leb, Bool, true, false, List,
  [], ◌∷◌, if◌then◌else◌, Result, ok, trap, Trap, ◌>>=◌, u16, u32, ◌<<<◌, bit_or,
}
use arduino_spider_l3s_libra.Stream.{load}
use arduino_spider_l3s_libra.Socket.{extend16}

-- The two tables of the lengths of the months.
abbrev pub m_d_table_normal : List ℕ
m_d_table_normal = 31 ∷ 28 ∷ 31 ∷ 30 ∷ 31 ∷ 30 ∷ 31 ∷ 31 ∷ 30 ∷ 31 ∷ 30 ∷ 31 ∷ []

abbrev pub m_d_table_leap : List ℕ
m_d_table_leap = 31 ∷ 29 ∷ 31 ∷ 30 ∷ 31 ∷ 30 ∷ 31 ∷ 31 ∷ 30 ∷ 31 ∷ 30 ∷ 31 ∷ []

-- `((*year % 4 == 0) && (*year % 100 != 0)) || (*year % 400 == 0)`
abbrev pub is_leap : ℕ → Bool
is_leap year = year % 4 == 0 && not (year % 100 == 0) || year % 400 == 0

-- `while(counter > 365)`, `fuel` rounds at most: the year and what is left of `counter`.
unfoldable pub year_loop : ℕ → ℕ → ℕ → Result (ℕ × ℕ)
year_loop zero counter year = if ltb 365 counter then trap Trap.hang else ok (year, counter)
year_loop (suc fuel) counter year = elim (ltb 365 counter) [
  | false ↦ ok (year, counter)
  | true ↦ year_loop fuel (counter - (if is_leap year then 366 else 365)) (year + 1)
]

-- `for(ret = 0; ret < 12; ret++)` over what is left of the table, after `month` months: the month and the
-- day. The day of a loop that does not break is the caller's, `day0`.
unfoldable pub month_loop : List ℕ → ℕ → ℕ → ℕ → ℕ × ℕ
month_loop [] month counter day0 = (month, day0)
month_loop (days ∷ table) month counter day0 =
    let rest = month_loop table (month + 1) (counter - days) day0 in
    if ltb days counter then rest else (month + 1, counter)

-- From "counting" on, for the whole days since 1970; 137 rounds are enough for an unsigned long of
-- seconds. The caller's `*day` is `day0`.
unfoldable pub calendar : ℕ → ℕ → Result (ℕ × ℕ × ℕ)
calendar days day0 = do
  (year, counter) ← year_loop 137 (days + 1) 1970
  let table = if is_leap year then m_d_table_leap else m_d_table_normal
  let date = month_loop table 0 counter day0
  ok (year, date.0, date.1)

-- `(GMT) * 60 * 60`, an int, as a long.
unfoldable pub gmt_offset : ℕ → ℕ
gmt_offset gmt = extend16 (u16 (u16 (gmt * 60) * 60))

-- The seconds since 1900 at byte 40 of the reply, as seconds since 1970 in the local time.
unfoldable pub timestamp_now : List ℕ → ℕ → Result ℕ
timestamp_now msg gmt = do
  b40 ← load msg 40
  b41 ← load msg 41
  b42 ← load msg 42
  b43 ← load msg 43
  let received =
      bit_or (bit_or (bit_or (u32 (b40 <<< 24)) (u32 (b41 <<< 16))) (u32 (b42 <<< 8))) b43
  ok (u32 (u32 (received + 4294967296 - 2208988800) + gmt_offset gmt))

pub record Time : Type 0 where
  pub year : ℕ
  pub month : ℕ
  pub day : ℕ
  pub hour : ℕ
  pub minute : ℕ
  pub second : ℕ

unfoldable pub time_of : ℕ → ℕ → Result Time
time_of t day0 = do
  (year, month, day) ← calendar (t / 86400) day0
  ok (record {
    year = year;
    month = month;
    day = day;
    hour = t / 3600 % 24;
    minute = t / 60 % 60;
    second = t % 60;
  })
