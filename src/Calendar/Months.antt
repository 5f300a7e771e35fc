-- ===== src/Calendar/Months.antt =====
-- Facts on the lengths of months, on clamping and on adding months.
use edge_billing_service.Base.{ℕ, ◌+◌, ◌≤◌, ◌<◌, ◌≡◌, arith}
use edge_billing_service.Calendar.Date.{
  Date, IsValid, days_in_month, clamp_day, add_months, month_index, stamp, utc,
}

pub days_in_month_bounds :
    (year month : ℕ) → (28 ≤ days_in_month year month) × (days_in_month year month ≤ 31)
unfolding days_in_month
days_in_month_bounds year month = ground arith

-- A clamped day is a day of the month, and is the day itself unless the month is shorter.
pub clamp_day_bounds :
    (day year month : ℕ)
    → 1 ≤ day
    → (1 ≤ clamp_day day year month)
      × (clamp_day day year month ≤ days_in_month year month)
      × (clamp_day day year month ≤ day)
unfolding clamp_day
clamp_day_bounds day year month h = ground (arith, days_in_month_bounds year month)

pub clamp_day_eq :
    (day year month : ℕ) → day ≤ days_in_month year month → clamp_day day year month ≡ day
unfolding clamp_day
clamp_day_eq day year month h = ground arith

pub utc-IsValid :
    (year month day : ℕ)
    → month < 12
    → 1 ≤ day
    → IsValid (utc year month (clamp_day day year month))
utc-IsValid year month day h k = ground (arith, clamp_day_bounds day year month k)

-- Adding months gives a date that exists, the given number of months later, on the same day or,
-- where that month is shorter, on its last day.
pub add_months-IsValid :
    (d : Date) (n : ℕ)
    → IsValid d
    → IsValid (add_months d n) × (month_index (add_months d n) ≡ month_index d + n)
unfolding add_months
add_months-IsValid d n v = (utc-IsValid _ _ d.day (omega arith) v.day_pos, omega arith)

-- The dates of an earlier month come before those of a later one.
pub stamp-lt_of_month :
    (d e : Date) → IsValid d → IsValid e → month_index d < month_index e → stamp d < stamp e
stamp-lt_of_month d e v w h =
    omega (arith, days_in_month_bounds d.year d.month, days_in_month_bounds e.year e.month)
