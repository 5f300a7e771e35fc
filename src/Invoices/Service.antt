-- ===== src/Invoices/Service.antt =====
-- The life of an invoice: src/invoices/invoices.service.ts.
use Prim.Native.String.{String}
use edge_billing_service.Base.{
  ◌*ℤ◌, ℕ, ℤ, pos, ◌+ℤ◌, ◌-ℤ◌, ltb_ℤ, eqb_ℤ, Bool, true, Option, none, some, List, [], ◌∷◌,
  if◌then◌else◌,
}
use edge_billing_service.Calendar.Billing.{calculate_invoice_due_date}
use edge_billing_service.StateMachine.Status.{
  InvoiceStatus, draft, finalized, paid, void, invoice_eq,
}
use edge_billing_service.StateMachine.Tables.{invoice_transitions}
use edge_billing_service.Store.Rows.{
  Customer, Invoice, InvoiceType, LineItemType, Subscription, item_type_eq, invoice_type_eq,
}
use edge_billing_service.Store.Action.{
  Action, pure, raise, gets, or_raise, when, catch, transaction, generate_id, validate_transition,
  ◌>>=◌, ◌>>◌, invoice_not_found, invoice_already_paid, invoice_not_finalized,
  invoice_already_voided, concurrent_modification,
}
use edge_billing_service.Ledger.Service.{record_invoice_finalized, record_invoice_voided}
use edge_billing_service.Credits.Service.{find_customer}
use edge_billing_service.Invoices.Repository.{
  find_invoice, create_invoice, update_invoice, update_with_concurrency_check, create_line_item,
}
use edge_billing_service.Invoices.Surcharge.{
  Settled, strip_existing_surcharge_line_items, apply_credits_and_surcharge,
}

-- A line item before it is stored. The description and the breakdown are not modelled.
pub record NewItem : Type 0 where
  pub type : LineItemType
  pub amount_cents : ℤ
  pub quantity : ℕ

unfoldable pub insert_items : ℕ → List NewItem → Action (Unit {0})
insert_items invoice_id [] = pure tt
insert_items invoice_id (x ∷ xs) = do
  id ← generate_id
  create_line_item (record {
    id = id;
    invoice_id = invoice_id;
    type = x.type;
    amount_cents = x.amount_cents;
    quantity = x.quantity;
  })
  insert_items invoice_id xs

-- The status and total of a settled invoice, its ledger entry, and the step to `paid` where
-- nothing is left to pay.
unfoldable pub close_settled : ℕ → String → ℕ → Settled → Action (Unit {0})
close_settled invoice_id currency correlation settled = do
  update_invoice invoice_id
      (λ i. record i { status = finalized; total_amount_cents = settled.final_total_cents })
  when (ltb_ℤ (pos 0) settled.final_total_cents) (
      record_invoice_finalized invoice_id settled.final_total_cents currency correlation >> pure tt)
  when (eqb_ℤ settled.final_total_cents (pos 0)) do
    validate_transition finalized paid invoice_transitions
    now ← gets (λ s. s.clock)
    update_invoice invoice_id (λ i. record i { status = paid; paid_at = some now })

-- The transaction of `finalizeDraftForSubscription`, of `finalizeAndCharge` and of the loop over
-- onboarding invoices. The invoice is the row as it was read before the transaction.
unfoldable pub finalize_transaction : Invoice → ℕ → Action Settled
finalize_transaction inv correlation = transaction do
  validate_transition inv.status finalized invoice_transitions
  removed ← strip_existing_surcharge_line_items inv.id
  settled ←
      apply_credits_and_surcharge inv.id inv.customer_id (inv.total_amount_cents -ℤ removed)
        inv.currency correlation
  close_settled inv.id inv.currency correlation settled
  pure settled

-- `finalizeDraftForSubscription`: the invoice as the caller goes on with it, and the settlement.
-- The transaction returns the row with its status `finalized`.
unfoldable pub finalize_draft_for_subscription : Invoice → ℕ → Action (Invoice × Settled)
unfolding finalize_transaction
finalize_draft_for_subscription inv correlation = do
  settled ← finalize_transaction inv correlation
  now ← gets (λ s. s.clock)
  let is_paid = eqb_ℤ settled.final_total_cents (pos 0)
  pure (
    record inv {
      total_amount_cents = settled.final_total_cents;
      status = if is_paid then paid else finalized;
      paid_at = if is_paid then some now else inv.paid_at;
    },
    settled,
  )

-- The statuses that `voidInvoice` refuses.
abbrev pub check_voidable : ℕ → InvoiceStatus → Action (Unit {0})
check_voidable id paid = raise (invoice_already_paid id)
check_voidable id draft = raise (invoice_not_finalized id)
check_voidable id void = raise (invoice_already_voided id)
check_voidable id finalized = pure tt

unfoldable pub void_transaction : Invoice → ℕ → Action Invoice
void_transaction inv correlation = transaction do
  now ← gets (λ s. s.clock)
  row ←
      update_with_concurrency_check inv.id (λ i. record i { status = void; voided_at = some now })
        finalized
  updated ← or_raise row concurrent_modification
  record_invoice_voided inv.id inv.total_amount_cents inv.currency correlation
  pure updated

unfoldable pub void_invoice : ℕ → ℕ → Action Invoice
unfolding void_transaction
void_invoice id correlation = do
  found ← find_invoice id
  inv ← or_raise found (invoice_not_found id)
  check_voidable id inv.status
  void_transaction inv correlation

-- `customer?.chargeDay ?? 15`
abbrev pub charge_day_of : Option Customer → ℕ
charge_day_of none = 15
charge_day_of (some c) = c.charge_day

-- `customer?.isPrepaid ?? true`
abbrev pub is_prepaid_of : Option Customer → Bool
is_prepaid_of none = true
is_prepaid_of (some c) = c.is_prepaid

-- `calculateLineItems`
abbrev pub calculate_line_items : Subscription → List NewItem
calculate_line_items sub =
    record { type = LineItemType.base_fee; amount_cents = sub.amount_cents; quantity = 1 } ∷ []

abbrev pub sum_new_items : List NewItem → ℤ
sum_new_items [] = pos 0
sum_new_items (x ∷ xs) = x.amount_cents *ℤ pos x.quantity +ℤ sum_new_items xs

-- The invoice of a due subscription, created and finalized in one transaction.
unfoldable pub create_invoice_for_subscription : List ℕ → Subscription → ℕ → Action (ℕ × Settled)
unfolding insert_items close_settled
create_invoice_for_subscription advance sub correlation = do
  id ← generate_id
  customer ← find_customer sub.customer_id
  let items = calculate_line_items sub
  settled ← transaction do
    create_invoice (record {
      id = id;
      customer_id = sub.customer_id;
      subscription_id = some sub.id;
      type = InvoiceType.recurring;
      status = draft;
      total_amount_cents = pos 0;
      currency = sub.currency;
      billing_period_start = sub.billing_period_start;
      billing_period_end = sub.billing_period_end;
      due_date =
          calculate_invoice_due_date advance sub.billing_period_start (charge_day_of customer)
            (is_prepaid_of customer);
      paid_at = none;
      voided_at = none;
      credit_adjustment_cents = none;
    })
    insert_items id items
    settled ←
        apply_credits_and_surcharge id sub.customer_id (sum_new_items items) sub.currency
          correlation
    validate_transition draft finalized invoice_transitions
    close_settled id sub.currency correlation settled
    pure settled
  pure (id, settled)

-- The charge of an invoice is the charges service's: an argument here.
module _ (execute_payment : ℕ → ℕ → Action (Unit {0})) where
  -- The charge after a finalization: none for an invoice with nothing to pay, and an error of the
  -- charge goes no further.
  unfoldable pub charge_settled : ℕ → ℕ → Settled → Action (Unit {0})
  charge_settled invoice_id correlation settled =
      when (ltb_ℤ (pos 0) settled.final_total_cents)
        (catch (execute_payment invoice_id correlation) (λ e. pure tt))

  unfoldable pub finalize_and_charge : ℕ → ℕ → Action (Unit {0})
  unfolding charge_settled finalize_transaction
  finalize_and_charge invoice_id correlation = do
    found ← find_invoice invoice_id
    inv ← or_raise found (invoice_not_found invoice_id)
    settled ← finalize_transaction inv correlation
    charge_settled invoice_id correlation settled
