-- ===== src/Subscriptions/Period.antt =====
-- The periods of subscriptions: `calculateBillingPeriodEnd` and `calculateFirstBillingPeriodStart` of
-- src/subscriptions/subscriptions.service.ts. `getMonth` and `setMonth` are those of a server whose
-- local time is UTC.
use edge_billing_service.Base.{
  false, ◌%◌, ◌/◌, ◌<◌, ℕ, ◌+◌, ◌-◌, leb, ltb, not, ◌||◌, ◌&&◌, ◌==◌, if◌then◌else◌, List, ◌≡◌, ◌∙◌,
  sym, refl, arith, Bool-cases, inl, inr,
}
use edge_billing_service.Calendar.Date.{Date, IsValid, utc, days_in_month, clamp_day, add_months}
use edge_billing_service.Calendar.Billing.{next_month, get_billing_cycle_day}
use edge_billing_service.Calendar.Months.{days_in_month_bounds}

-- `end.setMonth(end.getMonth() + 1)`: a day that the next month does not have runs into the month
-- after it.
unfoldable pub set_next_month : Date → Date
set_next_month d =
    let (year, month) = next_month d.year d.month in
    let (later_year, later_month) = next_month year month in
    if leb d.day (days_in_month year month)
    then record d { year = year; month = month }
    else record d { year = later_year; month = later_month; day = d.day - days_in_month year month }

-- `end.setDate(0)`: the last day of the month before.
unfoldable pub set_last_day_before : Date → Date
set_last_day_before d =
    let year = if d.month == 0 then d.year - 1 else d.year in
    let month = if d.month == 0 then 11 else d.month - 1 in
    record d { year = year; month = month; day = days_in_month year month }

unfoldable pub calculate_billing_period_end : Date → Date
calculate_billing_period_end start =
    let end = set_next_month start in
    if not (end.day == start.day) then set_last_day_before end else end

-- `calculateFirstBillingPeriodStart`, with the configured advance days and the clock.
unfoldable pub calculate_first_billing_period_start : List ℕ → Date → ℕ → Date → Date
calculate_first_billing_period_start advance onboarding charge_day now =
    let (year, month) =
      if ltb now.year onboarding.year
        || ((onboarding.year == now.year) && ltb now.month onboarding.month)
      then next_month onboarding.year onboarding.month
      else next_month now.year now.month in
    utc year month (clamp_day (get_billing_cycle_day advance charge_day) year month)

next_month_eq : (year month : ℕ) → month < 12 → (next_month year month).0 ≡ year + (month + 1) / 12
next_month_eq year month h = ground arith

next_month_mod : (year month : ℕ) → month < 12 → (next_month year month).1 ≡ (month + 1) % 12
next_month_mod year month h = ground arith

month_back :
    (year month day millis : ℕ)
    → month < 12
    → set_last_day_before (record {
      year = (next_month year month).0;
      month = (next_month year month).1;
      day = day;
      millis = millis;
    })
      ≡ record { year = year; month = month; day = days_in_month year month; millis = millis }
unfolding set_last_day_before
month_back year month day millis h = ground arith

next_month_lt : (year month : ℕ) → month < 12 → (next_month year month).1 < 12
next_month_lt year month h = ground arith

month_end :
    (start : Date) (year month : ℕ)
    → year ≡ start.year + (start.month + 1) / 12
    → month ≡ (start.month + 1) % 12
    → leb start.day (days_in_month year month) ≡ false
    → record { year = year; month = month; day = days_in_month year month; millis = start.millis }
      ≡ record (add_months start 1) { millis = start.millis }
unfolding add_months clamp_day
month_end start year month e f h =
    let clamped : clamp_day start.day year month ≡ days_in_month year month = ground (arith, h) in
    rw (sym e, sym f, clamped) refl

-- The end of a period is a month after its start as `addMonths` counts it, at the time of day of the
-- start: the overflow of `setMonth` and the step back of `setDate(0)` clamp the day.
pub period_end-add_months :
    (start : Date)
    → IsValid start
    → calculate_billing_period_end start ≡ record (add_months start 1) { millis = start.millis }
unfolding calculate_billing_period_end add_months clamp_day set_next_month set_last_day_before
period_end-add_months start v =
    let (year, month) = next_month start.year start.month in
    elim (Bool-cases (leb start.day (days_in_month year month))) [
      | inl fits ↦ rw fits (
          ground (
            arith,
            next_month_eq start.year start.month v.month_lt,
            next_month_mod start.year start.month v.month_lt,
          ))
      | inr longer ↦
          let differs : (start.day - days_in_month year month == start.day) ≡ false =
            ground (arith, days_in_month_bounds year month, longer) in
          rw (longer, differs)
            (month_back year month (start.day - days_in_month year month) start.millis
                (next_month_lt start.year start.month v.month_lt)
              ∙ month_end start year month (next_month_eq start.year start.month v.month_lt)
                  (next_month_mod start.year start.month v.month_lt) longer)
    ]
