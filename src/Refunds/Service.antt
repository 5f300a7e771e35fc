-- ===== src/Refunds/Service.antt =====
-- src/refunds/refunds.service.ts, src/refunds/refunds.repository.ts and
-- src/refunds/validate-refund-amount.ts. The payment gateway is an argument: it answers a refund
-- of a payment with the gateway's identifier for it, or fails.
use Prim.Native.String.{String}
use edge_billing_service.Base.{
  ℕ, ℤ, pos, ◌+ℤ◌, ltb_ℤ, Bool, true, false, not, ◌&&◌, Option, none, some, List, [], ◌∷◌, ◌++◌,
  ◌==◌, ◌===◌, find, filter, update, insert,
}
use edge_billing_service.StateMachine.Status.{RefundStatus, ChargeStatus, refund_eq, charge_eq}
use edge_billing_service.StateMachine.Tables.{refund_transitions}
use edge_billing_service.Store.Rows.{Charge, Refund}
use edge_billing_service.Store.Action.{
  Action, Event, Error, Result, ok, pure, gets, or_raise, raise_if, modify, catch, transaction,
  generate_id, validate_transition, charge_not_found, business_rule, refund_succeeded,
  refund_failed, ◌>>=◌, ◌>>◌,
}
use edge_billing_service.Ledger.Service.{record_refund_succeeded}

-- `CreateRefundInput`, less the reason, which is only stored.
pub record RefundInput : Type 0 where
  pub charge_id : ℕ
  pub amount_cents : ℤ
  pub customer_id : Option ℕ

-- `refundsRepository.findSucceededByChargeId`
abbrev pub succeeded_of : ℕ → List Refund → List Refund
succeeded_of charge_id =
    filter (λ r. (r.charge_id == charge_id) && (r.status === RefundStatus.succeeded))

abbrev pub sum_refunds : List Refund → ℤ
sum_refunds [] = pos 0
sum_refunds (r ∷ rest) = r.amount_cents +ℤ sum_refunds rest

-- `validateRefundAmount`
unfoldable pub validate_refund_amount : ℤ → ℤ → ℤ → Action (Unit {0})
validate_refund_amount charge_amount existing requested =
    raise_if (ltb_ℤ charge_amount (existing +ℤ requested)) business_rule

-- `createWithIdempotency`: the row, or the row that has the key, and whether there was one.
abbrev pub create_with_idempotency : Refund → Action (Refund × Bool)
create_with_idempotency row s =
    elim (find (λ r. r.idempotency_key == row.idempotency_key) s.refunds) [
      | none ↦ (ok (row, false), record s { refunds = insert row s.refunds })
      | some existing ↦ (ok (existing, true), s)
    ]

-- `updateStatus` and `updateToSucceeded`
abbrev pub update_refund : ℕ → (Refund → Refund) → Action (Unit {0})
update_refund id f = modify (λ s. record s { refunds = update (λ r. r.id == id) f s.refunds })

-- The call of the queue is not awaited, and its failure is only logged: the outbox holds what is handed
-- to the queue here, and the refund is the same whether the queue takes it or not.
abbrev pub publish : Event → Action (Unit {0})
publish e = modify (λ s. record s { outbox = s.outbox ++ e ∷ [] })

-- The row of a new refund.
abbrev pub pending_refund : ℕ → Charge → ℤ → ℕ → Refund
pending_refund id charge amount key = record {
  id = id;
  charge_id = charge.id;
  invoice_id = charge.invoice_id;
  customer_id = charge.customer_id;
  amount_cents = amount;
  currency = charge.currency;
  status = RefundStatus.pending;
  idempotency_key = key;
  gateway_refund_id = none;
  failure_reason = none;
}

-- A charge of another customer is reported as missing.
abbrev pub owned_by_other : Option ℕ → Charge → Bool
owned_by_other none charge = false
owned_by_other (some customer_id) charge = not (charge.customer_id == customer_id)

-- The gateway takes the payment's reference, the amount and the idempotency key. The message of an
-- error is what the row records of a failure.
module _ (gateway : ℕ → ℤ → ℕ → Result ℕ) (message : Error → String) where
  -- The `try` block: the call of the gateway and the transaction on its success.
  unfoldable pub settle_refund : Refund → ℕ → ℕ → Action Refund
  settle_refund row intent correlation = do
    gateway_id ← λ s. (gateway intent row.amount_cents row.idempotency_key, s)
    validate_transition RefundStatus.processing RefundStatus.succeeded refund_transitions
    transaction do
      update_refund row.id
          (λ r. record r { status = RefundStatus.succeeded; gateway_refund_id = some gateway_id })
      record_refund_succeeded row.id row.amount_cents row.currency correlation
    publish (refund_succeeded row.id row.amount_cents)
    pure (record row { status = RefundStatus.succeeded; gateway_refund_id = some gateway_id })

  -- The `catch` block.
  unfoldable pub fail_refund : Refund → Error → Action Refund
  fail_refund row e = do
    validate_transition RefundStatus.processing RefundStatus.failed refund_transitions
    update_refund row.id
        (λ r. record r { status = RefundStatus.failed; failure_reason = some (message e) })
    publish (refund_failed row.id row.amount_cents)
    pure (record row { status = RefundStatus.failed; failure_reason = some (message e) })

  -- What `createRefund` does with the row that it inserted or found.
  unfoldable pub process_refund : Refund → Bool → ℕ → ℕ → Action Refund
  unfolding settle_refund fail_refund
  process_refund row true intent correlation = pure row
  process_refund row false intent correlation = do
    validate_transition RefundStatus.pending RefundStatus.processing refund_transitions
    update_refund row.id (λ r. record r { status = RefundStatus.processing })
    catch (settle_refund row intent correlation) (fail_refund row)

  -- The checks on the charge that was found, and the refund of it.
  unfoldable pub refund_charge : RefundInput → ℕ → ℕ → Charge → Action Refund
  unfolding process_refund
  refund_charge input key correlation charge = do
    raise_if (owned_by_other input.customer_id charge) (charge_not_found input.charge_id)
    raise_if (not (charge.status === ChargeStatus.succeeded)) business_rule
    intent ← or_raise charge.payment_intent_id business_rule
    existing ← gets (λ s. succeeded_of input.charge_id s.refunds)
    validate_refund_amount charge.amount_cents (sum_refunds existing) input.amount_cents
    id ← generate_id
    created ← create_with_idempotency (pending_refund id charge input.amount_cents key)
    process_refund created.0 created.1 intent correlation

  unfoldable pub create_refund : RefundInput → ℕ → ℕ → Action Refund
  unfolding refund_charge
  create_refund input key correlation = do
    found ← gets (λ s. find (λ c. c.id == input.charge_id) s.charges)
    charge ← or_raise found (charge_not_found input.charge_id)
    refund_charge input key correlation charge
