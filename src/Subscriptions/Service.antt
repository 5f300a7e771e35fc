-- ===== src/Subscriptions/Service.antt =====
-- `updateState`, `advanceBillingPeriod`, `updatePricing`, `applyPayrollUpdate` and
-- `createFromEvent` of src/subscriptions/subscriptions.service.ts, with the queries of
-- src/subscriptions/subscriptions.repository.ts. Employees are given by their resolved costs.
use edge_billing_service.Base.{
  ℕ, ℤ, pos, leb_ℤ, Bool, true, false, ◌&&◌, ◌||◌, Option, none, some, List, [], ◌∷◌, ◌==◌, ◌===◌,
  find, filter, update, length, if◌then◌else◌,
}
use edge_billing_service.Calendar.Date.{Date}
use edge_billing_service.Calendar.Billing.{calculate_invoice_due_date}
use edge_billing_service.StateMachine.Status.{
  SubscriptionStatus, active, paused, canceled, subscription_eq,
}
use edge_billing_service.StateMachine.Tables.{subscription_transitions}
use edge_billing_service.Store.Rows.{Customer, Subscription}
use edge_billing_service.Store.Action.{
  Store, Action, ok, err, pure, gets, or_raise, validate_transition, invalid_transition,
  subscription_not_found, row_expected, ◌>>=◌, ◌>>◌, subscription_state_changed,
}
use edge_billing_service.Outbound.{World, publish_or_log, should_dual_write}
use edge_billing_service.Credits.Service.{find_customer}
use edge_billing_service.Invoices.Drafts.{void_draft_invoices_for_customer}
use edge_billing_service.Subscriptions.Period.{calculate_billing_period_end}

abbrev pub find_subscription : ℕ → Action (Option Subscription)
find_subscription id = gets (λ s. find (λ u. u.id == id) s.subscriptions)

-- `update`: raises when there is no such row; the row as it is after.
abbrev pub update_subscription : ℕ → (Subscription → Subscription) → Action Subscription
update_subscription id f s = elim (find (λ u. u.id == id) s.subscriptions) [
  | none ↦ (err row_expected, s)
  | some u ↦ (ok (f u), record s { subscriptions = update (λ u. u.id == id) f s.subscriptions })
]

-- `updateStateWithConcurrencyCheck`: the row after, if it had the expected status.
abbrev pub update_state_with_concurrency_check :
    ℕ → (Subscription → Subscription) → SubscriptionStatus → Action (Option Subscription)
update_state_with_concurrency_check id f expected s =
    elim (find (λ u. (u.id == id) && (u.status === expected)) s.subscriptions) [
      | none ↦ (ok none, s)
      | some u ↦ (
        ok (some (f u)),
        record s {
          subscriptions = update (λ u. (u.id == id) && (u.status === expected)) f s.subscriptions;
        },
      )
    ]

abbrev pub has_status : List SubscriptionStatus → Subscription → Bool
has_status [] u = false
has_status (x ∷ xs) u = (u.status === x) || has_status xs u

-- `findByCustomerAndStatuses`
abbrev pub find_by_customer_and_statuses : ℕ → List SubscriptionStatus → Store → List Subscription
find_by_customer_and_statuses customer_id statuses s =
    filter (λ u. (u.customer_id == customer_id) && has_status statuses u) s.subscriptions

-- What `updateState` writes, by the current and the target status.
unfoldable pub state_update :
    SubscriptionStatus → SubscriptionStatus → Date → Subscription → Subscription
unfolding calculate_billing_period_end
state_update current target now u =
    if (target === paused) || (target === canceled)
    then record u { status = target; next_billing_date = none }
    else if (current === paused) && (target === active)
    then record u {
      status = target;
      billing_period_start = now;
      billing_period_end = calculate_billing_period_end now;
      next_billing_date = some (calculate_billing_period_end now);
    }
    else record u { status = target }

-- Drafts are voided when a subscription is paused or canceled.
abbrev pub void_drafts_for : SubscriptionStatus → ℕ → Action (Unit {0})
void_drafts_for target customer_id =
    if (target === paused) || (target === canceled)
    then void_draft_invoices_for_customer customer_id >> pure tt
    else pure tt

-- `updateState`
unfoldable pub update_state : World → ℕ → SubscriptionStatus → Action Subscription
unfolding state_update
update_state world id target = do
  found ← find_subscription id
  existing ← or_raise found (subscription_not_found id)
  validate_transition existing.status target subscription_transitions
  now ← gets (λ s. s.clock)
  void_drafts_for target existing.customer_id
  changed ←
      update_state_with_concurrency_check id (state_update existing.status target now)
        existing.status
  updated ← or_raise changed invalid_transition
  dual ← gets (should_dual_write existing.customer_id)
  publish_or_log world existing.customer_id dual (subscription_state_changed id)
  pure updated

-- `customer?.chargeDay ?? 15` and `customer?.isPrepaid ?? true`
abbrev pub charge_day_or_default : Option Customer → ℕ
charge_day_or_default none = 15
charge_day_or_default (some c) = c.charge_day

abbrev pub prepaid_or_default : Option Customer → Bool
prepaid_or_default none = true
prepaid_or_default (some c) = c.is_prepaid

module _ (advance_days : List ℕ) where
  -- The fields that `advanceBillingPeriod` writes.
  unfoldable pub next_cycle : Option Customer → Date → Subscription → Subscription
  unfolding calculate_billing_period_end calculate_invoice_due_date
  next_cycle customer start u = record u {
    billing_period_start = start;
    billing_period_end = calculate_billing_period_end start;
    next_billing_date = some (
        calculate_invoice_due_date advance_days start (charge_day_or_default customer)
          (prepaid_or_default customer));
  }

  -- `advanceBillingPeriod`
  unfoldable pub advance_billing_period : ℕ → Action Subscription
  unfolding next_cycle
  advance_billing_period id = do
    found ← find_subscription id
    existing ← or_raise found (subscription_not_found id)
    customer ← find_customer existing.customer_id
    update_subscription id (next_cycle customer existing.billing_period_end)

-- `updatePricing`: the number of subscriptions whose price it is to update.
unfoldable pub update_pricing : ℕ → ℤ → Action ℕ
update_pricing customer_id amount s =
    let existing = find_by_customer_and_statuses customer_id (active ∷ paused ∷ []) s in
    if leb_ℤ amount (pos 0) then (ok 0, s) else if length existing == 0 then (ok 0, s) else (
      ok (length existing),
      record s {
        subscriptions =
            update (λ u. (u.customer_id == customer_id) && has_status (active ∷ paused ∷ []) u)
              (λ u. record u { amount_cents = amount }) s.subscriptions;
      },
    )
