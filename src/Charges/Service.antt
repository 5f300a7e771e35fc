-- ===== src/Charges/Service.antt =====
-- Payments: src/charges/charges.service.ts, with `createWithIdempotency` and `updateStatus` of
-- src/charges/charges.repository.ts.
use Prim.Native.String.{String}
use edge_billing_service.Base.{
  ℕ, ℤ, Bool, true, false, ◌&&◌, Option, none, some, List, ◌==◌, find, update, insert,
}
use edge_billing_service.StateMachine.Status.{
  InvoiceStatus, ChargeStatus, draft, finalized, paid, void, invoice_eq,
}
use edge_billing_service.StateMachine.Tables.{invoice_transitions}
use edge_billing_service.Store.Rows.{
  Charge, ChargeKey, Invoice, PaymentMethod, invoice_attempt, same_charge_key,
}
use edge_billing_service.Store.Action.{
  Action, Error, ok, pure, raise, gets, or_raise, modify, when, catch, transaction, generate_id,
  validate_transition, business_rule, invoice_already_paid, invoice_not_finalized,
  customer_not_found, payment_succeeded, payment_failed, invoice_paid, ◌>>=◌, ◌>>◌,
}
use edge_billing_service.Outbound.{
  World, ChargeRequest, ChargeAnswer, publish_or_log, should_dual_write,
}
use edge_billing_service.Methods.{select_method, resolve_gateway_customer_id}
use edge_billing_service.Ledger.Service.{record_payment_succeeded}
use edge_billing_service.Invoices.Repository.{find_invoice, update_invoice}
use edge_billing_service.Credits.Service.{find_customer}
use edge_billing_service.Dunning.Schedule.{schedule_dunning_attempt}

-- `ChargeResultDto`
pub record ChargeResult : Type 0 where
  pub charge_id : ℕ
  pub status : ChargeStatus
  pub payment_intent_id : Option ℕ
  pub failure_reason : Option String

-- `createWithIdempotency`: the row, or the row that has the key, and whether there was one.
abbrev pub create_charge_with_idempotency : Charge → Action (Charge × Bool)
create_charge_with_idempotency row s =
    elim (find (λ c. same_charge_key c.idempotency_key row.idempotency_key) s.charges) [
      | none ↦ (ok (row, false), record s { charges = insert row s.charges })
      | some existing ↦ (ok (existing, true), s)
    ]

-- `chargesRepository.updateStatus`
abbrev pub update_charge : ℕ → (Charge → Charge) → Action (Unit {0})
update_charge id f = modify (λ s. record s { charges = update (λ c. c.id == id) f s.charges })

-- A payment under way: the invoice with its status as it was read, and the row of its charge.
pub record Payment : Type 0 where
  pub invoice_id : ℕ
  pub customer_id : ℕ
  pub invoice_status : InvoiceStatus
  pub charge_id : ℕ
  pub amount_cents : ℤ
  pub currency : String

-- The row of a new charge.
abbrev pub pending_charge : Payment → ℕ → ChargeKey → ℕ → Charge
pending_charge p method_id key attempt = record {
  id = p.charge_id;
  invoice_id = p.invoice_id;
  customer_id = p.customer_id;
  payment_method_id = method_id;
  amount_cents = p.amount_cents;
  currency = p.currency;
  status = ChargeStatus.pending;
  payment_intent_id = none;
  idempotency_key = key;
  attempt_number = attempt;
  failure_reason = none;
}

-- The transaction of a success: the charge, the invoice and the ledger.
unfoldable pub settle_charge : Payment → (Charge → Charge) → ℕ → Action (Unit {0})
settle_charge p f correlation = transaction do
  update_charge p.charge_id f
  validate_transition p.invoice_status paid invoice_transitions
  now ← gets (λ s. s.clock)
  update_invoice p.invoice_id (λ i. record i { status = paid; paid_at = some now })
  record_payment_succeeded p.charge_id p.amount_cents p.currency correlation
  pure tt

-- The transaction of a synchronous success.
unfoldable pub pay_transaction : Payment → ℕ → ℕ → Action (Unit {0})
unfolding settle_charge
pay_transaction p intent correlation =
    settle_charge p
      (λ c. record c { status = ChargeStatus.succeeded; payment_intent_id = some intent })
      correlation

-- `failureMessage || "Payment declined by gateway"`; an absent message and an empty one are one here.
abbrev pub decline_reason : Option String → String
decline_reason none = "Payment declined by gateway"
decline_reason (some m) = m

abbrev pub is_some : {A : Type 0} → Option A → Bool
is_some none = false
is_some (some a) = true

-- The statuses with which a charge cannot begin.
abbrev pub check_payable : ℕ → InvoiceStatus → Action (Unit {0})
check_payable id finalized = pure tt
check_payable id paid = raise (invoice_already_paid id)
check_payable id draft = raise (invoice_not_finalized id)
check_payable id void = raise (invoice_not_finalized id)

module _ (world : World) (retry_schedule_days : List ℕ) where
  -- What follows a success: the two messages.
  unfoldable pub announce_payment : Payment → Action (Unit {0})
  announce_payment p = do
    dual ← gets (should_dual_write p.customer_id)
    publish_or_log world p.customer_id dual (payment_succeeded p.invoice_id p.amount_cents)
    publish_or_log world p.customer_id dual (invoice_paid p.invoice_id p.amount_cents)

  -- The branches on the gateway's answer.
  unfoldable pub settle_answer : Payment → ℕ → ChargeAnswer → ChargeStatus → Action ChargeResult
  unfolding pay_transaction announce_payment
  settle_answer p correlation answer ChargeStatus.succeeded = do
    pay_transaction p answer.id correlation
    announce_payment p
    pure (record {
      charge_id = p.charge_id;
      status = ChargeStatus.succeeded;
      payment_intent_id = some answer.id;
      failure_reason = none;
    })
  settle_answer p correlation answer ChargeStatus.pending = do
    update_charge p.charge_id (λ c. record c { payment_intent_id = some answer.id })
    pure (record {
      charge_id = p.charge_id;
      status = ChargeStatus.pending;
      payment_intent_id = some answer.id;
      failure_reason = none;
    })
  settle_answer p correlation answer ChargeStatus.failed = do
    update_charge p.charge_id (λ c. record c {
      status = ChargeStatus.failed;
      payment_intent_id = some answer.id;
      failure_reason = some (decline_reason answer.failure_message);
    })
    pure (record {
      charge_id = p.charge_id;
      status = ChargeStatus.failed;
      payment_intent_id = some answer.id;
      failure_reason = none;
    })

  -- The `try` block.
  unfoldable pub try_payment : Payment → ChargeRequest → ℕ → Action ChargeResult
  unfolding settle_answer
  try_payment p request correlation = do
    answer ← λ s. (world.create_charge request, s)
    settle_answer p correlation answer answer.status

  -- The `catch` block; the first attempt for a subscription's invoice schedules dunning.
  unfoldable pub fail_payment : Payment → Bool → Error → Action ChargeResult
  fail_payment p is_first e = do
    update_charge p.charge_id
        (λ c. record c { status = ChargeStatus.failed; failure_reason = some (world.message e) })
    dual ← gets (should_dual_write p.customer_id)
    publish_or_log world p.customer_id dual (payment_failed p.invoice_id p.amount_cents)
    when is_first (catch (schedule_dunning_attempt retry_schedule_days p.invoice_id) (λ x. pure tt))
    pure (record {
      charge_id = p.charge_id;
      status = ChargeStatus.failed;
      payment_intent_id = none;
      failure_reason = some (world.message e);
    })

  -- What both kinds of payment do with the charge that they inserted or found.
  unfoldable pub run_payment :
      Payment → ChargeRequest → Bool → ℕ → Charge × Bool → Action ChargeResult
  unfolding try_payment fail_payment
  run_payment p request is_first correlation (row, true) = pure (record {
    charge_id = row.id;
    status = row.status;
    payment_intent_id = row.payment_intent_id;
    failure_reason = none;
  })
  run_payment p request is_first correlation (row, false) =
      catch (try_payment p request correlation) (fail_payment p is_first)

  -- `executePaymentForInvoice` from the row of the charge on.
  unfoldable pub charge_invoice : Invoice → PaymentMethod → ℕ → ℕ → ℕ → Action ChargeResult
  unfolding run_payment
  charge_invoice inv pm gateway_customer correlation attempt = do
    id ← generate_id
    let p : Payment = record {
      invoice_id = inv.id;
      customer_id = inv.customer_id;
      invoice_status = inv.status;
      charge_id = id;
      amount_cents = inv.total_amount_cents;
      currency = inv.currency;
    }
    let key = invoice_attempt inv.id attempt
    created ← create_charge_with_idempotency (pending_charge p pm.id key attempt)
    run_payment p
        (record {
          amount = inv.total_amount_cents;
          currency = inv.currency;
          gateway_customer = gateway_customer;
          gateway_method = pm.gateway_method_id;
          idempotency_key = key;
        })
        (is_some inv.subscription_id && (attempt == 1)) correlation created

  -- `executePaymentForInvoice` once the invoice is loaded.
  unfoldable pub pay_loaded : ℕ → ℕ → ℕ → Option ℕ → Invoice → Action ChargeResult
  unfolding charge_invoice
  pay_loaded invoice_id correlation attempt method_id inv = do
    check_payable invoice_id inv.status
    pm ← select_method inv.customer_id method_id
    row ← find_customer inv.customer_id
    customer ← or_raise row (customer_not_found inv.customer_id)
    gateway_customer ← resolve_gateway_customer_id inv.customer_id pm.gateway_provider customer
    charge_invoice inv pm gateway_customer correlation attempt

  unfoldable pub execute_payment_for_invoice : ℕ → ℕ → ℕ → Option ℕ → Action ChargeResult
  unfolding pay_loaded
  execute_payment_for_invoice invoice_id correlation attempt method_id = do
    found ← find_invoice invoice_id
    inv ← or_raise found business_rule
    pay_loaded invoice_id correlation attempt method_id inv
