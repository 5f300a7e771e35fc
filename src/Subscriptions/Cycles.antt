-- ===== src/Subscriptions/Cycles.antt =====
-- The periods of a subscription follow one another without a gap and, up to day 28, without drift.
use edge_billing_service.Base.{
  ℕ, zero, suc, ◌+◌, ◌/◌, ◌%◌, ◌≤◌, ◌==◌, ◌≡◌, refl, ap, ◌∙◌, sym, inl, inr, arith, some, List,
  find, Option-cases, find-update_self, map_row, update,
}
use edge_billing_service.Calendar.Date.{Date, IsValid, add_months}
use edge_billing_service.Calendar.Months.{days_in_month_bounds, clamp_day_eq}
use edge_billing_service.Store.Rows.{Subscription}
use edge_billing_service.Store.Action.{Store, err, ok, subscription_not_found}
use edge_billing_service.Store.Ensures.{Commits}
use edge_billing_service.Subscriptions.Period.{calculate_billing_period_end, period_end-add_months}
use edge_billing_service.Subscriptions.Service.{advance_billing_period, next_cycle}

-- What `advanceBillingPeriod` has done: the new period starts where the old one ended, ends a
-- billing period later, and nothing else of the subscription but the billing date has changed.
abbrev pub Advances : ℕ → Store → Subscription → Store → Type 0
Advances id s u t =
    (old : Subscription) × (find (λ x. x.id == id) s.subscriptions ≡ some old)
    × (find (λ x. x.id == id) t.subscriptions ≡ some u)
    × (u.billing_period_start ≡ old.billing_period_end)
    × (u.billing_period_end ≡ calculate_billing_period_end old.billing_period_end)
    × (u.status ≡ old.status)
    × (u.amount_cents ≡ old.amount_cents)

-- In every state: an advance that raises has changed nothing; one that returns has stored a period that
-- starts where the one before ended and ends a billing period later, with status and price as before.
pub advance-Advances :
    (advance_days : List ℕ) (id : ℕ) (s : Store)
    → Commits s (Advances id s) (advance_billing_period advance_days id s)
unfolding advance_billing_period next_cycle
advance-Advances advance_days id s = elim (Option-cases (find (λ u. u.id == id) s.subscriptions)) [
  | inl missing ↦
      let whole : advance_billing_period advance_days id s ≡ (err (subscription_not_found id), s) =
        ground (arith, missing) in
      rw whole refl
  | inr (old, found) ↦
      let customer = find (λ c. c.id == old.customer_id) s.customers in
      let f : Subscription → Subscription =
        next_cycle advance_days customer old.billing_period_end in
      let t = record s { subscriptions = update (λ u. u.id == id) f s.subscriptions } in
      let whole : advance_billing_period advance_days id s ≡ (ok (f old), t) =
        ground (arith, found) in
      rw whole (
        old,
        found,
        find-update_self (λ u. u.id == id) f (λ u. refl) s.subscriptions ∙ ap (map_row f) found,
        refl,
        refl,
        refl,
        refl,
      )
]

-- The start of the n-th period after this one.
abbrev pub nth_period : ℕ → Date → Date
nth_period zero start = start
nth_period (suc n) start = nth_period n (calculate_billing_period_end start)

-- The same day and time of day, months later.
abbrev shift : Date → ℕ → Date
shift d n = record {
  year = d.year + (d.month + n) / 12;
  month = (d.month + n) % 12;
  day = d.day;
  millis = d.millis;
}

add_months-shift :
    (d : Date) (n : ℕ) → d.day ≤ 28 → record (add_months d n) { millis = d.millis } ≡ shift d n
unfolding add_months
add_months-shift d n h =
    let year = d.year + (d.month + n) / 12 in
    let month = (d.month + n) % 12 in
    let fits = days_in_month_bounds year month in
    rw (clamp_day_eq d.day year month (omega (arith, fits, h))) refl

shift-shift : (d : Date) (n : ℕ) → shift (shift d 1) n ≡ shift d (suc n)
shift-shift d n =
    let years : d.year + (d.month + 1) / 12 + ((d.month + 1) % 12 + n) / 12
        ≡ d.year + (d.month + suc n) / 12 =
      omega arith in
    let months : ((d.month + 1) % 12 + n) % 12 ≡ (d.month + suc n) % 12 = omega arith in
    rw (years, months) refl

shift-IsValid : (d : Date) (n : ℕ) → IsValid d → d.day ≤ 28 → IsValid (shift d n)
shift-IsValid d n v h =
    let fits = days_in_month_bounds (d.year + (d.month + n) / 12) ((d.month + n) % 12) in
    record {
      month_lt = omega arith;
      day_pos = v.day_pos;
      day_le = omega (arith, fits, h);
      millis_lt = v.millis_lt;
    }

shift_zero : (d : Date) → IsValid d → d ≡ shift d 0
shift_zero d v =
    let years : d.year + (d.month + 0) / 12 ≡ d.year = omega (arith, v.month_lt) in
    let months : (d.month + 0) % 12 ≡ d.month = omega (arith, v.month_lt) in rw (years, months) refl

nth_period-shift :
    (n : ℕ) (start : Date) → IsValid start → start.day ≤ 28 → nth_period n start ≡ shift start n
nth_period-shift zero start v h = shift_zero start v
nth_period-shift (suc n) start v h =
    ap (nth_period n) (period_end-add_months start v ∙ add_months-shift start 1 h)
    ∙ nth_period-shift n (shift start 1) (shift-IsValid start 1 v h) h
    ∙ shift-shift start n

-- From a day up to the 28th, the n-th period starts n months later on the same day, at the same
-- time of day: repeated advances do not drift.
pub nth_period-add_months :
    (n : ℕ) (start : Date)
    → IsValid start
    → start.day ≤ 28
    → nth_period n start ≡ record (add_months start n) { millis = start.millis }
nth_period-add_months n start v h = nth_period-shift n start v h ∙ sym (add_months-shift start n h)
