-- ===== src/Subscriptions/Events.antt =====
-- `applyPayrollUpdate` and `createFromEvent` of src/subscriptions/subscriptions.service.ts.
use Prim.Native.String.{String}
use edge_billing_service.Base.{
  ℕ, ℤ, pos, Bool, false, Option, none, some, List, [], ◌∷◌, map, insert, ◌==◌, if◌then◌else◌,
}
use edge_billing_service.Calendar.Date.{Date}
use edge_billing_service.Calendar.Billing.{calculate_invoice_due_date}
use edge_billing_service.StateMachine.Status.{active, paused}
use edge_billing_service.Store.Rows.{Invoice, InvoiceType, Subscription}
use edge_billing_service.Store.Action.{
  Action, pure, gets, or_raise, modify, generate_id, row_expected, ◌>>=◌, ◌>>◌,
}
use edge_billing_service.Credits.Service.{find_customer}
use edge_billing_service.Invoices.Repository.{find_open_recurring_draft}
use edge_billing_service.Invoices.Drafts.{
  DraftParams, create_draft_invoice, employee_item, update_open_invoice_line_items,
  void_draft_invoices_for_customer,
}
use edge_billing_service.Payroll.{RawEmployee, ResolvedEmployee, resolve}
use edge_billing_service.Subscriptions.Period.{
  calculate_billing_period_end, calculate_first_billing_period_start,
}
use edge_billing_service.Subscriptions.Service.{
  find_subscription, update_state_with_concurrency_check, find_by_customer_and_statuses,
  update_pricing, charge_day_or_default, prepaid_or_default,
}

-- `SubscriptionCreatePayload`, less the name and the interval of the plan.
pub record CreatePayload : Type 0 where
  pub onboarding_date : Date
  pub billing_start_date : Date
  pub amount_cents : ℤ
  pub currency : String
  pub employees : List RawEmployee

abbrev pub costs_of : List ResolvedEmployee → List ℤ
costs_of = map (λ e. e.customer_cost)

module _ (ceil_share : ℤ → ℤ → ℤ) where
  -- The update of the price and of the open draft once the cycle is known.
  unfoldable pub apply_resolved : ℕ → List ResolvedEmployee × ℤ → Action ℤ
  unfolding update_pricing
  apply_resolved customer_id ([], total) = update_pricing customer_id total >> pure total
  apply_resolved customer_id (e ∷ employees, total) = do
    update_pricing customer_id total
    update_open_invoice_line_items customer_id (costs_of (e ∷ employees)) total
    pure total

  abbrev pub apply_to_active : ℕ → List RawEmployee → List Subscription → Action ℤ
  apply_to_active customer_id raws [] = pure (pos 0)
  apply_to_active customer_id raws (u ∷ others) = λ s.
      apply_resolved customer_id (resolve ceil_share s.clock u.billing_period_start raws (pos 0)) s

  -- `applyPayrollUpdate`
  unfoldable pub apply_payroll_update : ℕ → List RawEmployee → Action ℤ
  unfolding apply_resolved
  apply_payroll_update customer_id raws =
      gets (find_by_customer_and_statuses customer_id (active ∷ []))
      >>= apply_to_active customer_id raws

module _ (advance_days : List ℕ) where
  -- The fields of a resumed subscription.
  unfoldable pub resumed : Date → ℕ → Bool → ℤ → Subscription → Subscription
  unfolding calculate_billing_period_end calculate_invoice_due_date
  resumed start charge_day is_prepaid amount u = record u {
    status = active;
    amount_cents = amount;
    billing_period_start = start;
    billing_period_end = calculate_billing_period_end start;
    next_billing_date = some (calculate_invoice_due_date advance_days start charge_day is_prepaid);
  }

  -- The row of a new subscription.
  unfoldable pub new_subscription : ℕ → ℕ → String → Date → ℕ → Bool → ℤ → Subscription
  unfolding calculate_billing_period_end calculate_invoice_due_date
  new_subscription id customer_id currency start charge_day is_prepaid amount = record {
    id = id;
    customer_id = customer_id;
    status = active;
    amount_cents = amount;
    currency = currency;
    billing_period_start = start;
    billing_period_end = calculate_billing_period_end start;
    next_billing_date = some (calculate_invoice_due_date advance_days start charge_day is_prepaid);
  }

  -- Step 1: the first paused subscription is resumed, or a new one is created; its identifier.
  unfoldable pub resume_or_create : ℕ → String → Date → ℕ → Bool → ℤ → List Subscription → Action ℕ
  unfolding resumed new_subscription
  resume_or_create customer_id currency start charge_day is_prepaid amount (u ∷ others) = do
    update_state_with_concurrency_check u.id (resumed start charge_day is_prepaid amount) paused
    pure u.id
  resume_or_create customer_id currency start charge_day is_prepaid amount [] = do
    id ← generate_id
    modify (λ s. record s {
      subscriptions =
          insert (new_subscription id customer_id currency start charge_day is_prepaid amount)
            s.subscriptions;
    })
    pure id

  -- The draft of the first period.
  unfoldable pub first_draft : ℕ → String → ℕ → Bool → List ℤ → ℤ → Subscription → DraftParams
  unfolding calculate_invoice_due_date
  first_draft customer_id currency charge_day is_prepaid costs total u = record {
    customer_id = customer_id;
    subscription_id = some u.id;
    type = InvoiceType.recurring;
    line_items = map employee_item costs;
    total_amount_cents = total;
    currency = currency;
    billing_period_start = u.billing_period_start;
    billing_period_end = u.billing_period_end;
    due_date = calculate_invoice_due_date advance_days u.billing_period_start charge_day is_prepaid;
  }

  abbrev pub belongs_to : ℕ → Option ℕ → Bool
  belongs_to id none = false
  belongs_to id (some other) = other == id

  -- Step 2: the customer's open draft is updated if it is the subscription's, else it is voided and
  -- a new one is created.
  unfoldable pub update_or_create_draft :
      ℕ → ℕ → List ℤ → ℤ → DraftParams → Option Invoice → Action (Unit {0})
  update_or_create_draft customer_id id costs total params none =
      create_draft_invoice params >> pure tt
  update_or_create_draft customer_id id costs total params (some inv) =
      if belongs_to id inv.subscription_id
      then update_open_invoice_line_items customer_id costs total
      else (void_draft_invoices_for_customer customer_id >> create_draft_invoice params >> pure tt)

  -- The payroll of the event, resolved for the cycle: no employees cost nothing.
  abbrev pub amount_or_resolved : ℤ → List ResolvedEmployee × ℤ → ℤ
  amount_or_resolved amount ([], total) = amount
  amount_or_resolved amount (e ∷ employees, total) = total

  abbrev pub cycle_anchor : CreatePayload → ℕ → Date → List Subscription → Date
  cycle_anchor payload charge_day now [] =
      calculate_first_billing_period_start advance_days payload.onboarding_date charge_day now
  cycle_anchor payload charge_day now (u ∷ others) = payload.billing_start_date

  module _ (ceil_share : ℤ → ℤ → ℤ) where
    -- `createFromEvent`
    unfoldable pub create_from_event : CreatePayload → ℕ → Action (Unit {0})
    unfolding resume_or_create first_draft update_or_create_draft
    create_from_event payload customer_id = do
      now ← gets (λ s. s.clock)
      customer ← find_customer customer_id
      let charge_day = charge_day_or_default customer
      let is_prepaid = prepaid_or_default customer
      existing ← gets (find_by_customer_and_statuses customer_id (paused ∷ []))
      let anchor = cycle_anchor payload charge_day now existing
      let resolved = resolve ceil_share now anchor payload.employees (pos 0)
      id ←
          resume_or_create customer_id payload.currency anchor charge_day is_prepaid
            (amount_or_resolved payload.amount_cents resolved) existing
      row ← find_subscription id
      u ← or_raise row row_expected
      found ← find_open_recurring_draft customer_id
      update_or_create_draft customer_id id (costs_of resolved.0) resolved.1
          (first_draft customer_id payload.currency charge_day is_prepaid (costs_of resolved.0)
            resolved.1 u)
          found
