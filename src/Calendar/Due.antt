-- ===== src/Calendar/Due.antt =====
-- When the invoice of a billing period is due.
use edge_billing_service.Base.{ℕ, ◌+◌, ◌*◌, ◌≤◌, ◌<◌, ◌≡◌, ◌⊎◌, true, false, List, arith, inl, inr}
use edge_billing_service.Calendar.Date.{
  Date, IsValid, clamp_day, month_index, stamp, add_months, utc,
}
use edge_billing_service.Calendar.Billing.{
  is_boundary, get_billing_cycle_day, calculate_invoice_due_date, due_month,
}
use edge_billing_service.Calendar.Months.{utc-IsValid, add_months-IsValid, stamp-lt_of_month}

-- The month that is charged: the one before the period for an advance day, else its own.
due_month_index :
    (advance : List ℕ) (start : Date) (charge_day : ℕ)
    → IsValid start
    → 1 ≤ start.year
    → let (year, month) = due_month advance start charge_day in
      (month < 12)
      × (((is_boundary advance charge_day ≡ true) × (year * 12 + month + 1 ≡ month_index start))
          ⊎ ((is_boundary advance charge_day ≡ false)
              × (year ≡ start.year)
              × (month ≡ start.month)))
due_month_index advance start charge_day v h = ground arith

-- The period starts on the cycle day of its customer, at midnight.
pub record IsAligned (advance : List ℕ) (start : Date) (charge_day : ℕ) : Type 0 where
  pub is_valid : IsValid start
  pub year_pos : 1 ≤ start.year
  pub on_cycle_day :
      start.day ≡ clamp_day (get_billing_cycle_day advance charge_day) start.year start.month
  pub at_midnight : start.millis ≡ 0

-- For a charge day from 1 on and a period that starts at midnight on the cycle day of its customer,
-- a prepaid invoice is due on a date that exists, at or before the start of its period, and at most
-- one month earlier.
pub due_date_prepaid :
    (advance : List ℕ) (start : Date) (charge_day : ℕ)
    → 1 ≤ charge_day
    → IsAligned advance start charge_day
    → let due = calculate_invoice_due_date advance start charge_day true in
      IsValid due × (stamp due ≤ stamp start) × (month_index start ≤ month_index due + 1)
unfolding calculate_invoice_due_date get_billing_cycle_day
due_date_prepaid advance start charge_day pos_day a =
    let (year, month) = due_month advance start charge_day in
    let where_due = due_month_index advance start charge_day a.is_valid a.year_pos in
    let due = utc year month (clamp_day charge_day year month) in
    let valid : IsValid due = utc-IsValid year month charge_day where_due.0 pos_day in
    (
      valid,
      elim where_due.1 [
        | inl (_, earlier) ↦
            omega (arith, stamp-lt_of_month due start valid a.is_valid (omega arith))
        | inr (plain, same_year, same_month) ↦ ground arith
      ],
      omega arith,
    )

-- For a charge day from 1 on and a period that starts at midnight on the cycle day of its customer,
-- a postpaid invoice is due on a date that exists, in the month that starts the period or the next
-- one, one month after a prepaid one and later than it.
pub due_date_postpaid :
    (advance : List ℕ) (start : Date) (charge_day : ℕ)
    → 1 ≤ charge_day
    → IsAligned advance start charge_day
    → let due = calculate_invoice_due_date advance start charge_day false in
      let prepaid_due = calculate_invoice_due_date advance start charge_day true in
      IsValid due
      × (month_index start ≤ month_index due)
      × (month_index due ≤ month_index start + 1)
      × (month_index due ≡ month_index prepaid_due + 1)
      × (stamp prepaid_due < stamp due)
unfolding calculate_invoice_due_date
due_date_postpaid advance start charge_day pos_day a =
    let (year, month) = due_month advance start charge_day in
    let where_due = due_month_index advance start charge_day a.is_valid a.year_pos in
    let due = utc year month (clamp_day charge_day year month) in
    let valid : IsValid due = utc-IsValid year month charge_day where_due.0 pos_day in
    let later = add_months-IsValid due 1 valid in
    (
      later.0,
      omega arith,
      omega arith,
      later.1,
      stamp-lt_of_month due (add_months due 1) valid later.0 (omega arith),
    )
