-- ===== src/Refunds/Retry.antt =====
-- Repeated refunds: the idempotency key and the limit.
use Prim.Native.String.{String}
use edge_billing_service.Base.Int.{◌≤ℤ◌}
use edge_billing_service.Base.{◌+◌, ℕ, ℤ, ◌+ℤ◌, ltb_ℤ, ◌==◌, ◌≡◌, arith, true, false, some, find}
use edge_billing_service.StateMachine.Status.{ChargeStatus, charge_eq}
use edge_billing_service.Store.Rows.{Charge, Refund}
use edge_billing_service.Store.Action.{Store, Error, Result, ok, err, business_rule}
use edge_billing_service.Refunds.Service.{
  RefundInput, validate_refund_amount, owned_by_other, process_refund, refund_charge, create_refund,
}
use edge_billing_service.Refunds.Outcome.{refunded}

-- The charge of an input can be refunded: it is the customer's, it succeeded, and it has a
-- reference at the gateway.
pub record IsRefundable (input : RefundInput) (s : Store) (charge : Charge) : Type 0 where
  pub found : find (λ c. c.id == input.charge_id) s.charges ≡ some charge
  pub owned : owned_by_other input.customer_id charge ≡ false
  pub succeeded : charge.status ≡ ChargeStatus.succeeded
  pub intent : ℕ
  pub reference : charge.payment_intent_id ≡ some intent

module _ (gateway : ℕ → ℤ → ℕ → Result ℕ) (message : Error → String) where
  -- For a charge that can be refunded and an amount within what is left of it, a key that a refund
  -- already has gives that refund: only an identifier is drawn, the gateway is not asked, and no
  -- row, entry or message is written.
  pub create_refund_repeated :
      (input : RefundInput) (key correlation : ℕ) (s : Store) (charge : Charge) (old : Refund)
      → IsRefundable input s charge
      → refunded input.charge_id s.refunds +ℤ input.amount_cents ≤ℤ charge.amount_cents
      → find (λ r. r.idempotency_key == key) s.refunds ≡ some old
      → create_refund gateway message input key correlation s
        ≡ (ok old, record s { next_id = s.next_id + 1 })
  unfolding create_refund refund_charge process_refund validate_refund_amount
  create_refund_repeated input key correlation s charge old h within duplicate =
      ground (arith, h.found, h.owned, h.succeeded, h.reference)

  -- For a charge that can be refunded, an amount above what is left of it is refused and nothing
  -- changes, also where the key is that of an earlier refund.
  pub create_refund_refused :
      (input : RefundInput) (key correlation : ℕ) (s : Store) (charge : Charge)
      → IsRefundable input s charge
      → ltb_ℤ charge.amount_cents (refunded input.charge_id s.refunds +ℤ input.amount_cents) ≡ true
      → create_refund gateway message input key correlation s ≡ (err business_rule, s)
  unfolding create_refund refund_charge validate_refund_amount
  create_refund_refused input key correlation s charge h above =
      ground (arith, h.found, h.owned, h.succeeded, h.reference)
