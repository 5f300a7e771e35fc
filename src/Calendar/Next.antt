-- ===== src/Calendar/Next.antt =====
-- The next billing period from a given day.
use edge_billing_service.Base.{
  ℕ, ◌+◌, ◌*◌, ◌≤◌, ◌<◌, ◌≡◌, refl, ◌⊎◌, inl, inr, true, List, arith, Bool-cases,
}
use native.Mathlib.Decide.{dec_lt}
use edge_billing_service.Calendar.Date.{Date, IsValid, clamp_day, month_index, stamp, utc}
use edge_billing_service.Calendar.Billing.{
  is_boundary, get_billing_cycle_day, calculate_invoice_due_date, next_payment_date,
  calculate_next_billing_period, payment_month, next_month, cycle_start,
}
use edge_billing_service.Calendar.Months.{utc-IsValid, add_months-IsValid, stamp-lt_of_month}

-- A date on which a customer with this charge day is charged.
pub record IsChargeDate (charge_day : ℕ) (d : Date) : Type 0 where
  pub is_valid : IsValid d
  pub on_charge_day : d.day ≡ clamp_day charge_day d.year d.month
  pub at_midnight : d.millis ≡ 0

payment_month_index :
    (today : Date) (charge_day : ℕ)
    → IsValid today
    → let (year, month) = payment_month today charge_day in
      (month < 12)
      × (((clamp_day charge_day today.year today.month ≤ today.day)
            × (year * 12 + month ≡ month_index today + 1))
          ⊎ ((today.day < clamp_day charge_day today.year today.month)
              × (year ≡ today.year)
              × (month ≡ today.month)))
payment_month_index today charge_day v = ground arith

-- A month has one charge date.
charge_date_unique :
    (charge_day : ℕ) (d : Date) (year month : ℕ)
    → IsChargeDate charge_day d
    → month < 12
    → month_index d ≡ year * 12 + month
    → stamp d ≡ stamp (utc year month (clamp_day charge_day year month))
charge_date_unique charge_day d year month c h e =
    let valid = c.is_valid in
    let same_year : d.year ≡ year = omega arith in
    let same_month : d.month ≡ month = omega arith in
    let same_day : d.day ≡ clamp_day charge_day year month = ground arith in
    omega (arith, c.at_midnight)

-- The next payment date is a charge date after today.
next_payment_date_after :
    (today : Date) (charge_day : ℕ)
    → IsValid today
    → 1 ≤ charge_day
    → let payment = next_payment_date today charge_day in
      IsChargeDate charge_day payment × (stamp today < stamp payment)
unfolding next_payment_date
next_payment_date_after today charge_day v h =
    let (year, month) = payment_month today charge_day in
    let where_due = payment_month_index today charge_day v in
    let payment = utc year month (clamp_day charge_day year month) in
    let valid : IsValid payment = utc-IsValid year month charge_day where_due.0 h in
    (
      record { is_valid = valid; on_charge_day = refl; at_midnight = refl },
      elim where_due.1 [
        | inl (_, later) ↦ stamp-lt_of_month today payment v valid (omega arith)
        | inr (before_day, same_year, same_month) ↦
            let same_day : clamp_day charge_day year month
                ≡ clamp_day charge_day today.year today.month =
              cc in
            omega (arith, v.millis_lt)
      ],
    )

next_payment_date_least :
    (today : Date) (charge_day : ℕ)
    → IsValid today
    → 1 ≤ charge_day
    → (d : Date) → IsChargeDate charge_day d
    → stamp today < stamp d
    → stamp (next_payment_date today charge_day) ≤ stamp d
unfolding next_payment_date
next_payment_date_least today charge_day v h d c later =
    let (year, month) = payment_month today charge_day in
    let where_due = payment_month_index today charge_day v in
    let payment = utc year month (clamp_day charge_day year month) in
    let valid : IsValid payment = utc-IsValid year month charge_day where_due.0 h in
    let not_before : month_index today ≤ month_index d =
      elim (dec_lt (month_index d) (month_index today)) [
        | yes earlier ↦ absurd (omega (arith, stamp-lt_of_month d today c.is_valid v earlier))
        | no other ↦ omega arith
      ] in
    let not_passed : month_index payment ≤ month_index d = elim where_due.1 [
      | inl (passed, next) ↦ elim (dec_lt (month_index today) (month_index d)) [
        | yes beyond ↦ omega arith
        | no same ↦ absurd (
            omega (
              arith,
              charge_date_unique charge_day d today.year today.month c v.month_lt (omega arith),
            ))
      ]
      | inr (_, same_year, same_month) ↦ omega arith
    ] in
    elim (dec_lt (month_index payment) (month_index d)) [
      | yes beyond ↦ omega (arith, stamp-lt_of_month payment d valid c.is_valid beyond)
      | no same ↦
          omega (arith, charge_date_unique charge_day d year month c where_due.0 (omega arith))
    ]

-- From a date that exists and for a charge day from 1 on, the next payment date is the first charge
-- date after today: it is a charge date, it comes after
-- today, and every charge date after today is that date or comes after it.
pub next_payment_date_first :
    (today : Date) (charge_day : ℕ)
    → IsValid today
    → 1 ≤ charge_day
    → (d : Date) → IsChargeDate charge_day d
    → stamp today < stamp d
    → let payment = next_payment_date today charge_day in
      IsChargeDate charge_day payment × (stamp today < stamp payment) × (stamp payment ≤ stamp d)
next_payment_date_first today charge_day v h d c later =
    let after = next_payment_date_after today charge_day v h in
    (after.0, after.1, next_payment_date_least today charge_day v h d c later)

next_month_index :
    (d : Date)
    → IsValid d
    → let (year, month) = next_month d.year d.month in
      (month < 12) × (year * 12 + month ≡ month_index d + 1)
next_month_index d v = ground arith

-- The first day of the cycle that a payment opens.
cycle_start-after :
    (advance : List ℕ) (payment : Date) (charge_day : ℕ)
    → IsChargeDate charge_day payment
    → 1 ≤ charge_day
    → let start = cycle_start advance payment charge_day in
      IsValid start
      × (stamp payment ≤ stamp start)
      × (calculate_invoice_due_date advance start charge_day true ≡ payment)
unfolding cycle_start calculate_invoice_due_date get_billing_cycle_day
cycle_start-after advance payment charge_day c h =
    elim (Bool-cases (is_boundary advance charge_day)) [
      | inl boundary ↦
          let valid = utc-IsValid _ _ 1 (next_month_index payment c.is_valid).0 (omega arith) in
          (
            rw boundary valid,
            rw boundary (
                omega (
                  arith,
                  next_month_index payment c.is_valid,
                  stamp-lt_of_month payment _ c.is_valid valid,
                )),
            rw boundary (ground arith),
          )
      | inr plain ↦ (rw plain (ground arith), rw plain (omega arith), rw plain (ground arith))
    ]

-- From a date that exists and for a charge day from 1 on, a prepaid customer's next period starts after today and lasts one month, and it is due
-- on the next payment date, which is the day on which the invoice of that period is due.
pub next_period_prepaid :
    (advance : List ℕ) (today : Date) (charge_day : ℕ)
    → IsValid today
    → 1 ≤ charge_day
    → let next = calculate_next_billing_period advance today charge_day true in
      (stamp today < stamp next.billing_period_start)
      × (month_index next.billing_period_end ≡ month_index next.billing_period_start + 1)
      × (next.due_date ≡ next_payment_date today charge_day)
      × (calculate_invoice_due_date advance next.billing_period_start charge_day true
          ≡ next.due_date)
unfolding calculate_next_billing_period
next_period_prepaid advance today charge_day v h =
    let payment = next_payment_date today charge_day in
    let after = next_payment_date_after today charge_day v h in
    let opened = cycle_start-after advance payment charge_day after.0 h in
    (
      omega (arith, opened.1, after.1),
      (add_months-IsValid (cycle_start advance payment charge_day) 1 opened.0).1,
      refl,
      opened.2,
    )
