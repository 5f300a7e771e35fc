-- ===== src/Dunning/Service.antt =====
-- `executeDunningAttempt`, `selectPaymentMethodForAttempt` and `escalateDunning` of
-- src/dunning/dunning.service.ts.
use Prim.Native.String.{String}
use edge_billing_service.Base.{
  ℕ, Bool, true, false, not, ◌&&◌, Option, none, some, List, [], ◌∷◌, ◌==◌, ◌===◌, any, filter,
  length, if◌then◌else◌, find,
}
use edge_billing_service.StateMachine.Status.{
  InvoiceStatus, draft, finalized, paid, void, past_due, AttemptStatus, ChargeStatus, scheduled,
  skipped, attempt_eq,
}
use edge_billing_service.Store.Rows.{DunningAttempt, Invoice, PaymentMethod}
use edge_billing_service.Store.Action.{
  Action, Error, pure, raise, gets, or_raise, when, catch, transaction, attempt_not_found,
  invoice_not_found, invoice_already_paid, dunning_escalated, ◌>>=◌, ◌>>◌,
}
use edge_billing_service.Outbound.{World, publish, log_dual_write_failure, should_dual_write}
use edge_billing_service.Methods.{get_ordered_payment_methods}
use edge_billing_service.Invoices.Repository.{find_invoice}
use edge_billing_service.Charges.Service.{ChargeResult, execute_payment_for_invoice}
use edge_billing_service.Subscriptions.Service.{update_state}
use edge_billing_service.Dunning.Schedule.{
  is_of_invoice, update_attempt, mark_remaining_as_skipped, schedule_next_dunning_attempt,
}

-- `ExecuteDunningResult`
pub record DunningResult : Type 0 where
  pub status : AttemptStatus
  pub charge_id : Option ℕ
  pub failure_reason : Option String

abbrev pub skipped_result : DunningResult
skipped_result = record { status = skipped; charge_id = none; failure_reason = none }

-- The methods of the failed attempts.
abbrev pub has_tried : ℕ → DunningAttempt → Bool
has_tried method_id a = elim a.payment_method_id [
  | none ↦ false
  | some id ↦ (id == method_id) && (a.status === AttemptStatus.failed)
]

-- `orderedPms.filter((pm) => !triedPmIds.has(pm.id))`
abbrev pub untried : List DunningAttempt → List PaymentMethod → List PaymentMethod
untried history methods = filter (λ pm. not (any (has_tried pm.id) history)) methods

-- A new result for the attempt and no further attempts: the transaction that both skips share.
unfoldable pub skip_attempt : ℕ → ℕ → Action (Unit {0})
skip_attempt id invoice_id =
    transaction do
      update_attempt id (λ a. record a { status = skipped })
      mark_remaining_as_skipped invoice_id

abbrev pub is_already_paid : Error → Bool
is_already_paid (invoice_already_paid id) = true
is_already_paid x = false

module _ (world : World) where
  -- The subscription becomes past due; an error of this is logged only.
  abbrev pub mark_past_due : Option ℕ → Action (Unit {0})
  mark_past_due none = pure tt
  mark_past_due (some id) = catch (update_state world id past_due >> pure tt) (λ x. pure tt)

  -- `escalateDunning`
  unfoldable pub escalate_dunning : Invoice → Action (Unit {0})
  escalate_dunning inv = do
    attempts ← gets (λ s. filter (is_of_invoice inv.id) s.dunning_attempts)
    mark_past_due inv.subscription_id
    dual ← gets (should_dual_write inv.customer_id)
    catch (publish world (dunning_escalated inv.id (length attempts))) (λ x.
        if dual
        then log_dual_write_failure inv.customer_id (dunning_escalated inv.id (length attempts))
        else pure tt)

  abbrev pub escalate_found : Option Invoice → Action (Unit {0})
  escalate_found none = pure tt
  escalate_found (some inv) = escalate_dunning inv

  -- No method is left: the attempt fails, the chain ends and dunning escalates.
  unfoldable pub give_up : ℕ → ℕ → String → Action (Option ℕ)
  unfolding escalate_dunning
  give_up id invoice_id reason = do
    now ← gets (λ s. s.clock)
    update_attempt id (λ a. record a {
      status = AttemptStatus.failed;
      executed_at = some now;
      failure_reason = some reason;
    })
    mark_remaining_as_skipped invoice_id
    found ← find_invoice invoice_id
    escalate_found found
    pure none

  -- The cascade over the methods that no failed attempt has tried.
  unfoldable pub choose_untried : ℕ → ℕ → List PaymentMethod → Action (Option ℕ)
  unfolding give_up
  choose_untried id invoice_id [] = give_up id invoice_id "all_payment_methods_exhausted"
  choose_untried id invoice_id (pm ∷ rest) = pure (some pm.id)

  -- The branches on the number of methods.
  unfoldable pub choose_method : ℕ → ℕ → List PaymentMethod → Action (Option ℕ)
  unfolding choose_untried
  choose_method id invoice_id [] = give_up id invoice_id "no_active_payment_methods"
  choose_method id invoice_id (pm ∷ []) = pure (some pm.id)
  choose_method id invoice_id (pm ∷ other ∷ rest) = do
    history ← gets (λ s. filter (is_of_invoice invoice_id) s.dunning_attempts)
    choose_untried id invoice_id (untried history (pm ∷ other ∷ rest))

  -- `selectPaymentMethodForAttempt`
  unfoldable pub select_payment_method_for_attempt : ℕ → ℕ → ℕ → Action (Option ℕ)
  unfolding choose_method
  select_payment_method_for_attempt customer_id invoice_id id = do
    ordered ← gets (get_ordered_payment_methods customer_id)
    choose_method id invoice_id ordered

-- `chargeResult.failureReason ?? "Charge failed"`
abbrev pub reason_or_default : Option String → String
reason_or_default none = "Charge failed"
reason_or_default (some reason) = reason

module _ (world : World) (retry_schedule_days : List ℕ) (max_retry_attempts : ℕ) where
  -- The transaction of a failure: whether there is a next attempt.
  unfoldable pub fail_attempt : DunningAttempt → ℕ → ℕ → String → Action Bool
  unfolding schedule_next_dunning_attempt
  fail_attempt attempt method_id charge_id reason = do
    now ← gets (λ s. s.clock)
    transaction do
      update_attempt attempt.id (λ a. record a {
        executed_at = some now;
        charge_id = some charge_id;
        status = AttemptStatus.failed;
        failure_reason = some reason;
        payment_method_id = some method_id;
      })
      schedule_next_dunning_attempt retry_schedule_days max_retry_attempts attempt.invoice_id
          attempt.attempt_number

  -- The transaction of a success.
  unfoldable pub succeed_attempt : DunningAttempt → ℕ → ℕ → Action (Unit {0})
  succeed_attempt attempt method_id charge_id = do
    now ← gets (λ s. s.clock)
    transaction do
      update_attempt attempt.id (λ a. record a {
        executed_at = some now;
        charge_id = some charge_id;
        status = AttemptStatus.succeeded;
        payment_method_id = some method_id;
      })
      mark_remaining_as_skipped attempt.invoice_id

  -- The failure path: the attempt fails, and dunning escalates when no attempt is left.
  unfoldable pub conclude_failure : DunningAttempt → Invoice → ℕ → ℕ → String → Action DunningResult
  unfolding fail_attempt
  conclude_failure attempt inv method_id charge_id reason = do
    has_next ← fail_attempt attempt method_id charge_id reason
    when (not has_next) (escalate_dunning world inv)
    pure (record {
      status = AttemptStatus.failed;
      charge_id = some charge_id;
      failure_reason = some reason;
    })

  -- A charge that has not succeeded, a pending one among them, counts as a failure.
  unfoldable pub conclude :
      DunningAttempt → Invoice → ℕ → ChargeResult → ChargeStatus → Action DunningResult
  unfolding succeed_attempt conclude_failure
  conclude attempt inv method_id result ChargeStatus.succeeded = do
    succeed_attempt attempt method_id result.charge_id
    pure (record {
      status = AttemptStatus.succeeded;
      charge_id = some result.charge_id;
      failure_reason = none;
    })
  conclude attempt inv method_id result ChargeStatus.pending =
      conclude_failure attempt inv method_id result.charge_id
        (reason_or_default result.failure_reason)
  conclude attempt inv method_id result ChargeStatus.failed =
      conclude_failure attempt inv method_id result.charge_id
        (reason_or_default result.failure_reason)

  -- The handler of an error of the charge: an invoice that is paid by now ends the chain.
  abbrev pub handle_charge_error : DunningAttempt → Error → Action (Option ChargeResult)
  handle_charge_error attempt x =
      if is_already_paid x then skip_attempt attempt.id attempt.invoice_id >> pure none else raise x

  abbrev pub conclude_charge :
      DunningAttempt → Invoice → ℕ → Option ChargeResult → Action DunningResult
  conclude_charge attempt inv method_id none = pure skipped_result
  conclude_charge attempt inv method_id (some result) =
      conclude attempt inv method_id result result.status

  -- The attempt once its payment method is selected.
  unfoldable pub charge_attempt : DunningAttempt → Invoice → ℕ → Option ℕ → Action DunningResult
  unfolding conclude skip_attempt
  charge_attempt attempt inv correlation none = pure (record {
    status = AttemptStatus.failed;
    charge_id = none;
    failure_reason = some "all_payment_methods_exhausted";
  })
  charge_attempt attempt inv correlation (some method_id) = do
    result ←
        catch
          (execute_payment_for_invoice world retry_schedule_days attempt.invoice_id correlation
              attempt.attempt_number (some method_id)
            >>= λ r. pure (some r))
          (handle_charge_error attempt)
    conclude_charge attempt inv method_id result

  -- An invoice that is paid or void is skipped.
  unfoldable pub attempt_invoice :
      DunningAttempt → ℕ → Invoice → InvoiceStatus → Action DunningResult
  unfolding charge_attempt skip_attempt select_payment_method_for_attempt
  attempt_invoice attempt correlation inv paid =
      skip_attempt attempt.id attempt.invoice_id >> pure skipped_result
  attempt_invoice attempt correlation inv void =
      skip_attempt attempt.id attempt.invoice_id >> pure skipped_result
  attempt_invoice attempt correlation inv draft = do
    selected ← select_payment_method_for_attempt world inv.customer_id attempt.invoice_id attempt.id
    charge_attempt attempt inv correlation selected
  attempt_invoice attempt correlation inv finalized = do
    selected ← select_payment_method_for_attempt world inv.customer_id attempt.invoice_id attempt.id
    charge_attempt attempt inv correlation selected

  -- The attempt once it is known to be scheduled.
  unfoldable pub run_attempt : DunningAttempt → ℕ → Action DunningResult
  unfolding attempt_invoice
  run_attempt attempt correlation = do
    found ← find_invoice attempt.invoice_id
    inv ← or_raise found (invoice_not_found attempt.invoice_id)
    attempt_invoice attempt correlation inv inv.status

  abbrev pub run_if_scheduled : DunningAttempt → ℕ → AttemptStatus → Action DunningResult
  run_if_scheduled attempt correlation scheduled = run_attempt attempt correlation
  run_if_scheduled attempt correlation skipped = pure skipped_result
  run_if_scheduled attempt correlation AttemptStatus.succeeded = pure skipped_result
  run_if_scheduled attempt correlation AttemptStatus.failed = pure skipped_result

  -- `executeDunningAttempt`
  unfoldable pub execute_dunning_attempt : ℕ → ℕ → Action DunningResult
  unfolding run_attempt
  execute_dunning_attempt id correlation = do
    found ← gets (λ s. find (λ a. a.id == id) s.dunning_attempts)
    attempt ← or_raise found (attempt_not_found id)
    run_if_scheduled attempt correlation attempt.status
