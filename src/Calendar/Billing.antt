-- ===== src/Calendar/Billing.antt =====
-- src/common/utils/billing-date.util.ts: billing cycles and the days on which they are charged.
use edge_billing_service.Base.{ℕ, ◌+◌, ◌-◌, Bool, List, [], ◌∷◌, leb, ltb, ◌==◌, any, if◌then◌else◌}
use edge_billing_service.Calendar.Date.{Date, utc, clamp_day, add_months}

-- The default of `PAYROLL_ADVANCE_DAYS`: the days on which the cycle starts on the 1st.
abbrev pub default_payroll_advance_days : List ℕ
default_payroll_advance_days = 28 ∷ 29 ∷ 30 ∷ 31 ∷ []

-- `PAYROLL_ADVANCE_DAYS.includes(chargeDay)`
abbrev pub is_boundary : List ℕ → ℕ → Bool
is_boundary advance charge_day = any (λ d. d == charge_day) advance

pub record NextPeriod : Type 0 where
  pub billing_period_start : Date
  pub billing_period_end : Date
  pub due_date : Date

-- The month after, with its year.
abbrev pub next_month : ℕ → ℕ → ℕ × ℕ
next_month year month = if ltb 11 (month + 1) then (year + 1, 0) else (year, month + 1)

-- The month of the next occurrence of the charge day.
abbrev pub payment_month : Date → ℕ → ℕ × ℕ
payment_month today charge_day =
    if leb (clamp_day charge_day today.year today.month) today.day
    then next_month today.year today.month
    else (today.year, today.month)

-- Step 1: the next occurrence of the charge day.
unfoldable pub next_payment_date : Date → ℕ → Date
next_payment_date today charge_day =
    let (year, month) = payment_month today charge_day in
    utc year month (clamp_day charge_day year month)

-- `advance` is the configured list of advance days.
module _ (advance : List ℕ) where
  -- The day on which the billing cycle of a customer with this charge day starts.
  unfoldable pub get_billing_cycle_day : ℕ → ℕ
  get_billing_cycle_day charge_day = if is_boundary advance charge_day then 1 else charge_day

  -- The month in which the charge of a period is collected, before the shift for postpaid.
  abbrev pub due_month : Date → ℕ → ℕ × ℕ
  due_month start charge_day =
      if is_boundary advance charge_day
      then (if start.month == 0 then (start.year - 1, 11) else (start.year, start.month - 1))
      else (start.year, start.month)

  unfoldable pub calculate_invoice_due_date : Date → ℕ → Bool → Date
  calculate_invoice_due_date start charge_day is_prepaid =
      let (due_year, due_mon) = due_month start charge_day in
      let due_date = utc due_year due_mon (clamp_day charge_day due_year due_mon) in
      if is_prepaid then due_date else add_months due_date 1

  -- Step 2: the start of the cycle that a payment on this date belongs to.
  unfoldable pub cycle_start : Date → ℕ → Date
  unfolding get_billing_cycle_day
  cycle_start payment charge_day =
      let (start_year, start_month) =
        if is_boundary advance charge_day
        then next_month payment.year payment.month
        else (payment.year, payment.month) in
      utc start_year start_month
        (clamp_day (get_billing_cycle_day charge_day) start_year start_month)

  unfoldable pub calculate_next_billing_period : Date → ℕ → Bool → NextPeriod
  calculate_next_billing_period today charge_day is_prepaid =
      let payment = next_payment_date today charge_day in
      let first = cycle_start payment charge_day in
      let start = if is_prepaid then first else add_months first 1 in
      record {
        billing_period_start = start;
        billing_period_end = add_months start 1;
        due_date = if is_prepaid then payment else add_months payment 1;
      }
