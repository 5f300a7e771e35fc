-- ===== src/Dunning/Books.antt =====
-- What dunning leaves as it is: the invoices and the ledger change only by a payment.
use Prim.Native.String.{String}
use edge_billing_service.Base.{
  ℕ, ◌+◌, ◌==◌, ◌===◌, Bool, true, false, not, ltb, Option, none, some, List, [], ◌∷◌, length,
  filter, find, Option-cases, Bool-cases, if◌then◌else◌, refl, inl, inr, ◌&&◌,
}
use edge_billing_service.StateMachine.Status.{
  SubscriptionStatus, past_due, AttemptStatus, ChargeStatus, subscription_eq,
}
use edge_billing_service.StateMachine.Tables.{subscription_transitions}
use edge_billing_service.Store.Rows.{DunningAttempt, Invoice, Subscription, PaymentMethod}
use edge_billing_service.Store.Action.{
  Action, Event, pure, gets, when, catch, or_raise, invalid_transition, subscription_not_found,
  validate_transition, subscription_state_changed, ◌>>=◌, ◌>>◌,
}
use edge_billing_service.Store.Moves.{Moves, when-Moves}
use edge_billing_service.Outbound.{
  World, publish_or_log, should_dual_write, publish, log_dual_write_failure,
}
use edge_billing_service.Methods.{get_ordered_payment_methods}
use edge_billing_service.Charges.Service.{ChargeResult}
use edge_billing_service.Charges.Books.{
  SameBooks, bind_keeps, catch_keeps, publish_keeps, publish_or_log_keeps, or_raise_keeps,
}
use edge_billing_service.Subscriptions.Service.{
  update_state, state_update, update_state_with_concurrency_check,
}
use edge_billing_service.Dunning.Schedule.{is_of_invoice, schedule_next_dunning_attempt}
use edge_billing_service.Dunning.Service.{
  escalate_dunning, mark_past_due, escalate_found, give_up, choose_untried, choose_method,
  select_payment_method_for_attempt, untried, DunningResult, conclude, conclude_failure,
  fail_attempt, succeed_attempt, skip_attempt, reason_or_default,
}

validate_keeps :
    (current target : SubscriptionStatus)
    → Moves SameBooks (validate_transition current target subscription_transitions)
validate_keeps current target s = (refl, refl)

concurrency_keeps :
    (id : ℕ) (f : Subscription → Subscription) (expected : SubscriptionStatus)
    → Moves SameBooks (update_state_with_concurrency_check id f expected)
concurrency_keeps id f expected s =
    elim (Option-cases (find (λ u. (u.id == id) && (u.status === expected)) s.subscriptions)) [
      | inl missing ↦ rw (missing, update_state_with_concurrency_check) (refl, refl)
      | inr (u, found) ↦ rw (found, update_state_with_concurrency_check) (refl, refl)
    ]

module _ (world : World) where
  -- A subscription that becomes past due.
  past_due_keeps : (id : ℕ) → Moves SameBooks (update_state world id past_due)
  unfolding update_state
  past_due_keeps id =
      let announced : Subscription → Subscription → Action Subscription = λ existing updated.
        gets (should_dual_write existing.customer_id) >>= λ dual.
        publish_or_log world existing.customer_id dual (subscription_state_changed id)
        >> pure updated in
      let written : Subscription → Option Subscription → Action Subscription =
        λ existing changed. or_raise changed invalid_transition >>= announced existing in
      let changing : Subscription → Unit {0} → Action Subscription = λ existing _ s.
        (update_state_with_concurrency_check id (state_update existing.status past_due s.clock)
              existing.status
            >>= written existing)
          s in
      let checked : Subscription → Action Subscription = λ existing.
        validate_transition existing.status past_due subscription_transitions
        >>= changing existing in
      let known : Option Subscription → Action Subscription =
        λ found. or_raise found (subscription_not_found id) >>= checked in
      bind_keeps (gets (λ s. find (λ u. u.id == id) s.subscriptions)) known (λ s. (refl, refl))
        λ found.
          bind_keeps (or_raise found (subscription_not_found id)) checked
            (or_raise_keeps found (subscription_not_found id))
            λ existing.
              bind_keeps (validate_transition existing.status past_due subscription_transitions)
                (changing existing) (validate_keeps existing.status past_due)
                λ _ s.
                  bind_keeps
                    (update_state_with_concurrency_check id
                      (state_update existing.status past_due s.clock) existing.status)
                    (written existing)
                    (concurrency_keeps id (state_update existing.status past_due s.clock)
                      existing.status)
                    (λ changed.
                      bind_keeps (or_raise changed invalid_transition) (announced existing)
                        (or_raise_keeps changed invalid_transition)
                        λ updated t.
                          let dual = should_dual_write existing.customer_id t in
                          bind_keeps
                            (publish_or_log world existing.customer_id dual
                              (subscription_state_changed id))
                            (λ _. pure updated)
                            (publish_or_log_keeps world existing.customer_id dual
                              (subscription_state_changed id))
                            (λ _ v. (refl, refl)) t)
                    s

  mark_past_due_keeps : (id : Option ℕ) → Moves SameBooks (mark_past_due world id)
  mark_past_due_keeps none = λ s. (refl, refl)
  mark_past_due_keeps (some id) =
      let change : Action (Unit {0}) = update_state world id past_due >> pure tt in
      catch_keeps change (λ x. pure tt)
        (bind_keeps (update_state world id past_due) (λ _. pure tt) (past_due_keeps id)
          (λ _ s. (refl, refl)))
        (λ x s. (refl, refl))

  log_keeps :
      (customer_id : ℕ) (dual : Bool) (e : Event)
      → Moves SameBooks (if dual then log_dual_write_failure customer_id e else pure tt)
  log_keeps customer_id true e s = (refl, refl)
  log_keeps customer_id false e s = (refl, refl)

  pub escalate_keeps : (inv : Invoice) → Moves SameBooks (escalate_dunning world inv)
  unfolding escalate_dunning
  escalate_keeps inv s =
      let e =
        Event.dunning_escalated inv.id
          (length (filter (is_of_invoice inv.id) s.dunning_attempts)) in
      let tell : Unit {0} → Action (Unit {0}) = λ _ t.
        catch (publish world e)
          (λ x.
            if should_dual_write inv.customer_id t
            then log_dual_write_failure inv.customer_id e
            else pure tt)
          t in
      bind_keeps (mark_past_due world inv.subscription_id) tell
        (mark_past_due_keeps inv.subscription_id)
        (λ _ t.
          let dual = should_dual_write inv.customer_id t in
          catch_keeps (publish world e)
            (λ x. if dual then log_dual_write_failure inv.customer_id e else pure tt)
            (publish_keeps world e) (λ x. log_keeps inv.customer_id dual e) t)
        s

  escalate_found_keeps : (o : Option Invoice) → Moves SameBooks (escalate_found world o)
  escalate_found_keeps none = λ s. (refl, refl)
  escalate_found_keeps (some inv) = escalate_keeps inv

  give_up_keeps :
      (id invoice_id : ℕ) (reason : String) → Moves SameBooks (give_up world id invoice_id reason)
  unfolding give_up
  give_up_keeps id invoice_id reason s =
      let done : Unit {0} → Action (Option ℕ) = λ _. pure none in
      bind_keeps (escalate_found world (find (λ i. i.id == invoice_id) s.invoices)) done
        (escalate_found_keeps (find (λ i. i.id == invoice_id) s.invoices)) (λ _ s. (refl, refl)) _

  choose_untried_keeps :
      (id invoice_id : ℕ) (methods : List PaymentMethod)
      → Moves SameBooks (choose_untried world id invoice_id methods)
  unfolding choose_untried
  choose_untried_keeps id invoice_id [] =
      give_up_keeps id invoice_id "all_payment_methods_exhausted"
  choose_untried_keeps id invoice_id (pm ∷ rest) = λ s. (refl, refl)

  choose_method_keeps :
      (id invoice_id : ℕ) (methods : List PaymentMethod)
      → Moves SameBooks (choose_method world id invoice_id methods)
  unfolding choose_method
  choose_method_keeps id invoice_id [] = give_up_keeps id invoice_id "no_active_payment_methods"
  choose_method_keeps id invoice_id (pm ∷ []) = λ s. (refl, refl)
  choose_method_keeps id invoice_id (pm ∷ other ∷ rest) = λ s.
      choose_untried_keeps id invoice_id
        (untried (filter (is_of_invoice invoice_id) s.dunning_attempts) (pm ∷ other ∷ rest)) s

  pub select_keeps :
      (customer_id invoice_id id : ℕ)
      → Moves SameBooks (select_payment_method_for_attempt world customer_id invoice_id id)
  unfolding select_payment_method_for_attempt
  select_keeps customer_id invoice_id id s =
      choose_method_keeps id invoice_id (get_ordered_payment_methods customer_id s) s

pub skip_keeps : (id invoice_id : ℕ) → Moves SameBooks (skip_attempt id invoice_id)
unfolding skip_attempt
skip_keeps id invoice_id s = (refl, refl)

module _ (world : World) (retry_schedule_days : List ℕ) (max_retry_attempts : ℕ) where
  fail_attempt_keeps :
      (attempt : DunningAttempt) (method_id charge_id : ℕ) (reason : String)
      → Moves SameBooks (
          fail_attempt world retry_schedule_days max_retry_attempts attempt method_id charge_id
            reason)
  unfolding fail_attempt schedule_next_dunning_attempt
  fail_attempt_keeps attempt method_id charge_id reason s =
      elim (Bool-cases (ltb max_retry_attempts (attempt.attempt_number + 1))) [
        | inl last ↦ rw last (refl, refl)
        | inr more ↦ rw more (refl, refl)
      ]

  conclude_failure_keeps :
      (attempt : DunningAttempt) (inv : Invoice) (method_id charge_id : ℕ) (reason : String)
      → Moves SameBooks (
          conclude_failure world retry_schedule_days max_retry_attempts attempt inv method_id
            charge_id reason)
  unfolding conclude_failure
  conclude_failure_keeps attempt inv method_id charge_id reason =
      let answer : Unit {0} → Action DunningResult = λ _. pure (record {
        status = AttemptStatus.failed;
        charge_id = some charge_id;
        failure_reason = some reason;
      }) in
      let next : Bool → Action DunningResult =
        λ has_next. when (not has_next) (escalate_dunning world inv) >>= answer in
      bind_keeps
        (fail_attempt world retry_schedule_days max_retry_attempts attempt method_id charge_id
          reason)
        next (fail_attempt_keeps attempt method_id charge_id reason)
        (λ has_next.
          bind_keeps (when (not has_next) (escalate_dunning world inv)) answer
            (when-Moves SameBooks (not has_next) (escalate_dunning world inv) (λ s. (refl, refl))
              (escalate_keeps world inv))
            (λ _ s. (refl, refl)))

  pub conclude_keeps :
      (attempt : DunningAttempt) (inv : Invoice) (method_id : ℕ) (result : ChargeResult)
      (status : ChargeStatus)
      → Moves SameBooks (
          conclude world retry_schedule_days max_retry_attempts attempt inv method_id result status)
  unfolding conclude succeed_attempt
  conclude_keeps attempt inv method_id result ChargeStatus.succeeded = λ s. (refl, refl)
  conclude_keeps attempt inv method_id result ChargeStatus.pending =
      conclude_failure_keeps attempt inv method_id result.charge_id
        (reason_or_default result.failure_reason)
  conclude_keeps attempt inv method_id result ChargeStatus.failed =
      conclude_failure_keeps attempt inv method_id result.charge_id
        (reason_or_default result.failure_reason)
