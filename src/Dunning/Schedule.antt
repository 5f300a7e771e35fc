-- ===== src/Dunning/Schedule.antt =====
-- The schedule of dunning attempts: `scheduleDunningAttempt` and `scheduleNextDunningAttempt` of
-- src/dunning/dunning.service.ts, with the queries of src/dunning/dunning.repository.ts. The days of
-- the schedule and the maximal number of attempts are the configuration's.
use edge_billing_service.Base.{
  ℕ, zero, suc, ◌+◌, ◌-◌, ltb, Bool, true, false, not, ◌&&◌, none, List, [], ◌∷◌, ◌==◌, ◌===◌,
  filter, update, insert, length, if◌then◌else◌,
}
use edge_billing_service.Calendar.Date.{Date, days_in_month}
use edge_billing_service.Calendar.Billing.{next_month}
use edge_billing_service.StateMachine.Status.{scheduled, skipped, attempt_eq}
use edge_billing_service.Store.Rows.{DunningAttempt}
use edge_billing_service.Store.Action.{Action, pure, gets, modify, when, generate_id, ◌>>=◌, ◌>>◌}

-- The day after, at the same time.
abbrev pub next_day : Date → Date
unfolding days_in_month
next_day d =
    if ltb d.day (days_in_month d.year d.month)
    then record d { day = d.day + 1 }
    else let (year, month) = next_month d.year d.month in
      record d { year = year; month = month; day = 1 }

-- `setDate(getDate() + days)`
abbrev pub add_days : ℕ → Date → Date
add_days zero d = d
add_days (suc n) d = add_days n (next_day d)

-- `schedule[index]` within the schedule, its last entry beyond, 0 for an empty one.
abbrev pub day_at : ℕ → List ℕ → ℕ
day_at n [] = 0
day_at n (d ∷ []) = d
day_at zero (d ∷ e ∷ rest) = d
day_at (suc n) (d ∷ e ∷ rest) = day_at n (e ∷ rest)

abbrev pub is_of_invoice : ℕ → DunningAttempt → Bool
is_of_invoice invoice_id a = a.invoice_id == invoice_id

-- `findExistingNonSkipped`
abbrev pub find_non_skipped : ℕ → List DunningAttempt → List DunningAttempt
find_non_skipped invoice_id = filter (λ a. is_of_invoice invoice_id a && not (a.status === skipped))

abbrev pub insert_attempt : DunningAttempt → Action (Unit {0})
insert_attempt a = modify (λ s. record s { dunning_attempts = insert a s.dunning_attempts })

-- `dunningRepo.updateStatus`
abbrev pub update_attempt : ℕ → (DunningAttempt → DunningAttempt) → Action (Unit {0})
update_attempt id f =
    modify (λ s. record s { dunning_attempts = update (λ a. a.id == id) f s.dunning_attempts })

-- `markRemainingAsSkipped`
abbrev pub mark_remaining_as_skipped : ℕ → Action (Unit {0})
mark_remaining_as_skipped invoice_id = modify (λ s. record s {
  dunning_attempts =
      update (λ a. is_of_invoice invoice_id a && (a.status === scheduled))
        (λ a. record a { status = skipped }) s.dunning_attempts;
})

-- A new attempt.
abbrev pub scheduled_attempt : ℕ → ℕ → ℕ → Date → DunningAttempt
scheduled_attempt id invoice_id number date = record {
  id = id;
  invoice_id = invoice_id;
  charge_id = none;
  payment_method_id = none;
  attempt_number = number;
  scheduled_date = date;
  executed_at = none;
  status = scheduled;
  failure_reason = none;
}

module _ (retry_schedule_days : List ℕ) where
  unfoldable pub schedule_attempt : ℕ → ℕ → Action (Unit {0})
  schedule_attempt invoice_id number = do
    now ← gets (λ s. s.clock)
    id ← generate_id
    insert_attempt (
        scheduled_attempt id invoice_id number
          (add_days (day_at (number - 1) retry_schedule_days) now))

  -- `scheduleDunningAttempt`: the first attempt, unless there is one that is not skipped.
  unfoldable pub schedule_dunning_attempt : ℕ → Action (Unit {0})
  unfolding schedule_attempt
  schedule_dunning_attempt invoice_id = do
    existing ← gets (λ s. find_non_skipped invoice_id s.dunning_attempts)
    when (length existing == 0) (schedule_attempt invoice_id 1)

  -- `scheduleNextDunningAttempt`: whether there is a next one.
  unfoldable pub schedule_next_dunning_attempt : ℕ → ℕ → ℕ → Action Bool
  unfolding schedule_attempt
  schedule_next_dunning_attempt max_retry_attempts invoice_id current =
      if ltb max_retry_attempts (current + 1)
      then pure false
      else schedule_attempt invoice_id (current + 1) >> pure true
