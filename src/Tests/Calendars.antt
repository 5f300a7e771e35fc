-- ===== src/Tests/Calendars.antt =====
-- Due dates and statuses at concrete inputs.
use edge_billing_service.Base.{◌+◌, ◌≤◌, ◌<◌, ◌≡◌, refl, true, arith}
use edge_billing_service.Calendar.Date.{
  Date, IsValid, utc, stamp, month_index, days_in_month, clamp_day,
}
use edge_billing_service.Calendar.Billing.{
  calculate_invoice_due_date, next_payment_date, default_payroll_advance_days,
  get_billing_cycle_day,
}
use edge_billing_service.Calendar.Due.{IsAligned, due_date_prepaid}
use edge_billing_service.Calendar.Next.{IsChargeDate, next_payment_date_first}
use edge_billing_service.StateMachine.Status.{invoice_eq, subscription_eq, refund_eq}
use edge_billing_service.Tests.Sample.{today}

abbrev april : Date
april = utc 2026 3 1

-- Paid on the last day of February for a month that starts on 1 March.
due_on_last_day :
    calculate_invoice_due_date default_payroll_advance_days (utc 2026 2 1) 31 true ≡ utc 2026 1 28
unfolding calculate_invoice_due_date clamp_day days_in_month
due_on_last_day = refl

april-IsAligned : IsAligned default_payroll_advance_days april 31
unfolding get_billing_cycle_day clamp_day days_in_month
april-IsAligned = record {
  is_valid = record {
    month_lt = omega arith;
    day_pos = omega arith;
    day_le = omega arith;
    millis_lt = omega arith;
  };
  year_pos = omega arith;
  on_cycle_day = refl;
  at_midnight = refl;
}

today-IsValid : IsValid today
unfolding days_in_month
today-IsValid = record {
  month_lt = omega arith;
  day_pos = omega arith;
  day_le = omega arith;
  millis_lt = omega arith;
}

charged-IsChargeDate : IsChargeDate 31 (utc 2026 3 30)
unfolding clamp_day days_in_month
charged-IsChargeDate = record {
  is_valid = record {
    month_lt = omega arith;
    day_pos = omega arith;
    day_le = omega arith;
    millis_lt = omega arith;
  };
  on_charge_day = refl;
  at_midnight = refl;
}

due_date_prepaid_example :
    let due = calculate_invoice_due_date default_payroll_advance_days april 31 true in
    IsValid due × (stamp due ≤ stamp april) × (month_index april ≤ month_index due + 1)
due_date_prepaid_example =
    due_date_prepaid default_payroll_advance_days april 31 (omega arith) april-IsAligned

next_payment_date_first_example :
    IsChargeDate 31 (next_payment_date today 31)
    × (stamp today < stamp (next_payment_date today 31))
    × (stamp (next_payment_date today 31) ≤ stamp (utc 2026 3 30))
next_payment_date_first_example =
    next_payment_date_first today 31 today-IsValid (omega arith) (utc 2026 3 30)
      charged-IsChargeDate (omega arith)
