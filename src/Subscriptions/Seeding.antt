-- ===== src/Subscriptions/Seeding.antt =====
-- `advanceAndSeedNextDraft` of src/subscriptions/subscriptions.service.ts. The answer of the monolith
-- to `getPayrollBreakdown` is an argument, and so is what the breakdown of a line item, which is not a
-- field of the rows here, says of salary and platform fee.
use edge_billing_service.Base.{
  ℕ, ℤ, pos, ltb, Bool, true, false, not, ◌===◌, Option, none, some, List, map, filter,
  if◌then◌else◌,
}
use edge_billing_service.Calendar.Date.{Date, stamp}
use edge_billing_service.Calendar.Billing.{calculate_invoice_due_date}
use edge_billing_service.Store.Rows.{
  Customer, Invoice, InvoiceType, LineItem, LineItemType, item_type_eq, Subscription,
}
use edge_billing_service.Store.Action.{Action, pure, gets, ◌>>=◌, ◌>>◌}
use edge_billing_service.Credits.Service.{find_customer}
use edge_billing_service.Invoices.Repository.{find_invoice, get_line_items}
use edge_billing_service.Invoices.Service.{NewItem, sum_new_items}
use edge_billing_service.Invoices.Surcharge.{is_surcharge}
use edge_billing_service.Invoices.Drafts.{
  create_draft_invoice, draft_exists_for_subscription_period, employee_item,
}
use edge_billing_service.Payroll.{RawEmployee, resolve}
use edge_billing_service.Subscriptions.Service.{find_subscription, advance_billing_period}
use edge_billing_service.Subscriptions.Events.{costs_of}

-- What the sources of the new draft say: the employees of the monolith, if it answers, and salary
-- with platform fee of a line item that has a breakdown.
pub record Sources : Type 0 where
  pub fetch_payroll : ℕ → Option (List RawEmployee)
  pub recurring_cents : LineItem → Option ℤ
  pub ceil_share : ℤ → ℤ → ℤ

-- A line item of the last cycle without its one-time adjustments.
abbrev pub stale_amount : LineItem → Option ℤ → ℤ
stale_amount li none = li.amount_cents
stale_amount li (some recurring) =
    if li.type === LineItemType.employee_cost then recurring else li.amount_cents

module _ (sources : Sources) where
  abbrev pub stale_items : List LineItem → List NewItem
  stale_items items =
      map
        (λ li. record {
          type = li.type;
          amount_cents = stale_amount li (sources.recurring_cents li);
          quantity = li.quantity;
        })
        (filter (λ li. not (is_surcharge li)) items)

  -- The line items of the new draft and their total: of the fresh payroll, or of the last cycle.
  unfoldable pub seed_items :
      Date → Date → List LineItem → Option (List RawEmployee) → List NewItem × ℤ
  seed_items now start items (some raws) =
      let resolved = resolve sources.ceil_share now start raws (pos 0) in
      (map employee_item (costs_of resolved.0), resolved.1)
  seed_items now start items none = (stale_items items, sum_new_items (stale_items items))

  module _ (advance_days : List ℕ) where
    -- The draft of the new period, unless there is one.
    unfoldable pub seed_draft : Invoice → Customer → Subscription → Bool → Action (Unit {0})
    unfolding seed_items calculate_invoice_due_date
    seed_draft inv customer u true = pure tt
    seed_draft inv customer u false = do
      now ← gets (λ s. s.clock)
      items ← get_line_items inv.id
      let seeded = seed_items now u.billing_period_start items (sources.fetch_payroll customer.id)
      create_draft_invoice (record {
        customer_id = u.customer_id;
        subscription_id = some u.id;
        type = InvoiceType.recurring;
        line_items = seeded.0;
        total_amount_cents = seeded.1;
        currency = inv.currency;
        billing_period_start = u.billing_period_start;
        billing_period_end = u.billing_period_end;
        due_date =
            calculate_invoice_due_date advance_days u.billing_period_start customer.charge_day
              customer.is_prepaid;
      })
      pure tt

    -- The advance once the customer is known.
    unfoldable pub advance_for : Invoice → Subscription → Option Customer → Action (Unit {0})
    unfolding advance_billing_period seed_draft
    advance_for inv u none = pure tt
    advance_for inv u (some customer) = do
      advanced ← advance_billing_period advance_days u.id
      seeded ←
          draft_exists_for_subscription_period u.id advanced.billing_period_start
            advanced.billing_period_end
      seed_draft inv customer advanced seeded

    -- A subscription that is past the invoice's period is left as it is.
    unfoldable pub advance_found : Invoice → Option Subscription → Action (Unit {0})
    unfolding advance_for
    advance_found inv none = pure tt
    advance_found inv (some u) =
        if ltb (stamp inv.billing_period_start) (stamp u.billing_period_start)
        then pure tt
        else (find_customer u.customer_id >>= advance_for inv u)

    -- Only recurring invoices of a subscription advance it.
    unfoldable pub advance_recurring : Invoice → InvoiceType → Option ℕ → Action (Unit {0})
    unfolding advance_found
    advance_recurring inv InvoiceType.recurring (some id) =
        find_subscription id >>= advance_found inv
    advance_recurring inv InvoiceType.recurring none = pure tt
    advance_recurring inv InvoiceType.onboarding id = pure tt
    advance_recurring inv InvoiceType.one_time id = pure tt

    abbrev pub advance_loaded : Option Invoice → Action (Unit {0})
    advance_loaded none = pure tt
    advance_loaded (some inv) = advance_recurring inv inv.type inv.subscription_id

    -- `advanceAndSeedNextDraft`
    unfoldable pub advance_and_seed_next_draft : ℕ → Action (Unit {0})
    unfolding advance_recurring
    advance_and_seed_next_draft invoice_id = find_invoice invoice_id >>= advance_loaded
