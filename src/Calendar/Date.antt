-- ===== src/Calendar/Date.antt =====
-- The dates of src/common/utils/billing-date.util.ts: JavaScript's `Date` read by its UTC fields.
-- Months count from 0, days from 1, and `millis` is the time of day.
use edge_billing_service.Base.{
  ℕ, ◌+◌, ◌-◌, ◌*◌, ◌/◌, ◌%◌, ◌≤◌, ◌<◌, Bool, ◌&&◌, ◌||◌, not, ltb, leb, ◌==◌, if◌then◌else◌,
}

pub record Date : Type 0 where
  pub year : ℕ
  pub month : ℕ
  pub day : ℕ
  pub millis : ℕ

-- The leap years of the Gregorian calendar, which JavaScript's `Date` follows.
abbrev pub is_leap : ℕ → Bool
is_leap year = (year % 4 == 0) && (not (year % 100 == 0) || (year % 400 == 0))

-- Return the last day of a given month: the day of `Date.UTC(year, month + 1, 0)`.
unfoldable pub days_in_month : ℕ → ℕ → ℕ
days_in_month year month =
    if month == 1
    then (if is_leap year then 29 else 28)
    else if (month == 3) || (month == 5) || (month == 8) || (month == 10)
    then 30
    else 31

-- Clamp a day to the last day of the month.
unfoldable pub clamp_day : ℕ → ℕ → ℕ → ℕ
clamp_day day year month = let last = days_in_month year month in if leb day last then day else last

-- `new Date(Date.UTC(year, month, day))` for a day of that month.
abbrev pub utc : ℕ → ℕ → ℕ → Date
utc year month day = record { year = year; month = month; day = day; millis = 0 }

-- The date exists.
pub record IsValid (d : Date) : Type 0 where
  pub month_lt : d.month < 12
  pub day_pos : 1 ≤ d.day
  pub day_le : d.day ≤ days_in_month d.year d.month
  pub millis_lt : d.millis < 86400000

-- The number of the month since the year 0.
abbrev pub month_index : Date → ℕ
month_index d = d.year * 12 + d.month

-- A number that orders valid dates as `getTime()` does.
abbrev pub stamp : Date → ℕ
stamp d = (month_index d * 31 + (d.day - 1)) * 86400000 + d.millis

abbrev pub before : Date → Date → Bool
before d e = ltb (stamp d) (stamp e)

-- Add months to a date, clamping the day for shorter months; the time of day is dropped.
unfoldable pub add_months : Date → ℕ → Date
add_months d months =
    let m = d.month + months in
    let target_year = d.year + m / 12 in
    let target_month = m % 12 in
    utc target_year target_month (clamp_day d.day target_year target_month)
