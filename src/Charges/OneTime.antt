-- ===== src/Charges/OneTime.antt =====
-- One-time and onboarding charges: `createOneTimeCharge`,
-- `executePaymentForInvoiceWithPaymentMethod` and `createOnboardingCharge` of
-- src/charges/charges.service.ts.
use edge_billing_service.Base.{ℕ, ℤ, pos, leb, false, not, Option, none, some, List, ◌==◌, find}
use edge_billing_service.Calendar.Date.{Date, stamp}
use edge_billing_service.StateMachine.Status.{draft, finalized, invoice_eq}
use edge_billing_service.StateMachine.Tables.{invoice_transitions}
use edge_billing_service.Store.Rows.{
  Charge, Invoice, InvoiceType, LineItemType, PaymentMethod, supplied, same_charge_key,
}
use edge_billing_service.Store.Action.{
  Action, pure, gets, or_raise, raise_if, transaction, generate_id, validate_transition,
  business_rule, customer_not_found, no_payment_method, charge_not_found, ◌>>=◌, ◌>>◌,
}
use edge_billing_service.Outbound.{World}
use edge_billing_service.Methods.{resolve_gateway_customer_id, select_method}
use edge_billing_service.Ledger.Service.{record_invoice_finalized}
use edge_billing_service.Invoices.Repository.{
  find_invoice, create_invoice, update_invoice, create_line_item,
}
use edge_billing_service.Credits.Service.{find_customer}
use edge_billing_service.Charges.Service.{
  ChargeResult, Payment, create_charge_with_idempotency, pending_charge, run_payment,
}

-- `CreateOneTimeChargeDto`, less the description.
pub record OneTimeInput : Type 0 where
  pub customer_id : ℕ
  pub amount_cents : ℤ
  pub payment_method_id : Option ℕ

-- `CreateOnboardingChargeDto`, less the description.
pub record OnboardingInput : Type 0 where
  pub customer_id : ℕ
  pub amount_cents : ℤ
  pub scheduled_date : Date

-- The given method, which need not be active, or the default one.
abbrev pub resolve_one_time_method : ℕ → Option ℕ → Action PaymentMethod
resolve_one_time_method customer_id none = select_method customer_id none
resolve_one_time_method customer_id (some id) = do
  found ← gets (λ s. find (λ pm. pm.id == id) s.payment_methods)
  pm ← or_raise found (no_payment_method customer_id)
  raise_if (not (pm.customer_id == customer_id)) (no_payment_method customer_id)
  pure pm

-- The row of a new invoice without a type: the column's default is `recurring`.
abbrev pub untyped_draft : ℕ → ℕ → Date → Invoice
untyped_draft id customer_id date = record {
  id = id;
  customer_id = customer_id;
  subscription_id = none;
  type = InvoiceType.recurring;
  status = draft;
  total_amount_cents = pos 0;
  currency = "usd";
  billing_period_start = date;
  billing_period_end = date;
  due_date = date;
  paid_at = none;
  voided_at = none;
  credit_adjustment_cents = none;
}

-- The transaction of a one-time charge: an invoice of one item, finalized.
unfoldable pub create_one_time_invoice : ℕ → OneTimeInput → ℕ → Action (Unit {0})
create_one_time_invoice invoice_id input correlation = transaction do
  now ← gets (λ s. s.clock)
  create_invoice (untyped_draft invoice_id input.customer_id now)
  item_id ← generate_id
  create_line_item (record {
    id = item_id;
    invoice_id = invoice_id;
    type = LineItemType.one_time_charge;
    amount_cents = input.amount_cents;
    quantity = 1;
  })
  validate_transition draft finalized invoice_transitions
  update_invoice invoice_id
      (λ i. record i { total_amount_cents = input.amount_cents; status = finalized })
  record_invoice_finalized invoice_id input.amount_cents "usd" correlation
  pure tt

-- The transaction of an onboarding charge: a draft of one item.
unfoldable pub create_onboarding_invoice : ℕ → OnboardingInput → Action (Unit {0})
create_onboarding_invoice invoice_id input = transaction do
  create_invoice (untyped_draft invoice_id input.customer_id input.scheduled_date)
  item_id ← generate_id
  create_line_item (record {
    id = item_id;
    invoice_id = invoice_id;
    type = LineItemType.onboarding_fee;
    amount_cents = input.amount_cents;
    quantity = 1;
  })
  update_invoice invoice_id (λ i. record i { total_amount_cents = input.amount_cents })

-- `createOnboardingCharge`: the invoice as it is loaded at the end. The scheduled day is compared
-- with the start of today.
unfoldable pub create_onboarding_charge : OnboardingInput → Action Invoice
unfolding create_onboarding_invoice
create_onboarding_charge input = do
  row ← find_customer input.customer_id
  or_raise row (customer_not_found input.customer_id)
  now ← gets (λ s. s.clock)
  raise_if (leb (stamp input.scheduled_date) (stamp (record now { millis = 0 }))) business_rule
  invoice_id ← generate_id
  create_onboarding_invoice invoice_id input
  found ← find_invoice invoice_id
  or_raise found business_rule

module _ (world : World) (retry_schedule_days : List ℕ) where
  -- `executePaymentForInvoiceWithPaymentMethod`
  unfoldable pub execute_payment_with_method :
      ℕ → OneTimeInput → PaymentMethod → ℕ → ℕ → ℕ → Action ChargeResult
  execute_payment_with_method invoice_id input pm gateway_customer key correlation = do
    id ← generate_id
    let p : Payment = record {
      invoice_id = invoice_id;
      customer_id = input.customer_id;
      invoice_status = finalized;
      charge_id = id;
      amount_cents = input.amount_cents;
      currency = "usd";
    }
    created ← create_charge_with_idempotency (pending_charge p pm.id (supplied key) 1)
    run_payment world retry_schedule_days p
        (record {
          amount = input.amount_cents;
          currency = "usd";
          gateway_customer = gateway_customer;
          gateway_method = pm.gateway_method_id;
          idempotency_key = supplied key;
        })
        false correlation created

  -- A one-time charge whose key is new; the row of its charge.
  unfoldable pub make_one_time_charge : OneTimeInput → ℕ → ℕ → Action Charge
  unfolding create_one_time_invoice execute_payment_with_method
  make_one_time_charge input key correlation = do
    row ← find_customer input.customer_id
    customer ← or_raise row (customer_not_found input.customer_id)
    pm ← resolve_one_time_method input.customer_id input.payment_method_id
    gateway_customer ← resolve_gateway_customer_id input.customer_id pm.gateway_provider customer
    invoice_id ← generate_id
    create_one_time_invoice invoice_id input correlation
    result ← execute_payment_with_method invoice_id input pm gateway_customer key correlation
    inv ← find_invoice invoice_id
    charged ← gets (λ s. find (λ c. c.id == result.charge_id) s.charges)
    or_raise inv business_rule
    or_raise charged (charge_not_found result.charge_id)

  -- The rest of `createOneTimeCharge` once the key is looked up.
  unfoldable pub repeat_or_charge : OneTimeInput → ℕ → ℕ → Option Charge → Action Charge
  unfolding make_one_time_charge
  repeat_or_charge input key correlation (some existing) = pure existing
  repeat_or_charge input key correlation none = make_one_time_charge input key correlation

  unfoldable pub create_one_time_charge : OneTimeInput → ℕ → ℕ → Action Charge
  unfolding repeat_or_charge
  create_one_time_charge input key correlation = do
    found ← gets (λ s. find (λ c. same_charge_key c.idempotency_key (supplied key)) s.charges)
    repeat_or_charge input key correlation found
