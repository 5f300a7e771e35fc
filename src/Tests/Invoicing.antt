-- ===== src/Tests/Invoicing.antt =====
-- Invoices and refunds at concrete inputs.
use Prim.Native.String.{String}
use edge_billing_service.Base.{
  ◌+◌, leb_ℤ, if◌then◌else◌, ℕ, ℤ, pos, ◌≡◌, refl, some, arith, [], ◌∷◌,
}
use edge_billing_service.Base.Int.{◌-ℤ◌, ◌+ℤ◌, ◌≤ℤ◌, ◌*ℤ◌}
use edge_billing_service.StateMachine.Status.{draft, finalized, void}
use edge_billing_service.Store.Action.{business_rule, external, Result, ok, err, Error}
use edge_billing_service.Store.Ensures.{Commits, Returns}
use edge_billing_service.Invoices.Liveness.{Ready, finalize-Returns}
use edge_billing_service.Invoices.Service.{finalize_transaction, void_invoice}
use edge_billing_service.Invoices.Finalize.{Finalizes, finalize-Finalizes}
use edge_billing_service.Invoices.Voiding.{Voids, void_invoice-Voids, void_invoice_succeeds}
use edge_billing_service.Invoices.Drafts.{
  update_open_invoice_line_items, recalculate_surcharge_on_open_invoice,
}
use edge_billing_service.Invoices.Refresh.{
  Refreshes, sum_costs, update_open-Refreshes, recalculate-Refreshes,
}
use edge_billing_service.Refunds.Service.{RefundInput, create_refund}
use edge_billing_service.Refunds.Outcome.{Refunds, refunded, create_refund-Refunds}
use edge_billing_service.Refunds.Limits.{refunds_within_charge}
use edge_billing_service.Refunds.Retry.{IsRefundable, create_refund_repeated, create_refund_refused}
use edge_billing_service.Tests.Sample.{old_refund, sample, today, invoice_of, charge}

finalize-Finalizes_example :
    Commits sample
      (Finalizes (invoice_of 11 draft) sample)
      (finalize_transaction (invoice_of 11 draft) 1 sample)
unfolding ◌+ℤ◌ ◌*ℤ◌
finalize-Finalizes_example = finalize-Finalizes (invoice_of 11 draft) 1 sample refl (omega arith)

void_invoice-Voids_example : Commits sample (λ _ t. Voids 10 sample t) (void_invoice 10 1 sample)
void_invoice-Voids_example = void_invoice-Voids 10 1 sample

void_invoice_succeeds_example :
    (void_invoice 10 1 sample).0
    ≡ ok (record (invoice_of 10 finalized) { status = void; voided_at = some today })
void_invoice_succeeds_example =
    void_invoice_succeeds 1 sample (invoice_of 10 finalized) refl refl (omega arith) refl refl

update_open-Refreshes_example : Refreshes 7 sample (
    update_open_invoice_line_items 7
      (pos 4000 ∷ pos 5200 ∷ [])
      (sum_costs (pos 4000 ∷ pos 5200 ∷ []))
      sample)
update_open-Refreshes_example = update_open-Refreshes 7 (pos 4000 ∷ pos 5200 ∷ []) sample

recalculate-Refreshes_example : Refreshes 7 sample (recalculate_surcharge_on_open_invoice 7 sample)
recalculate-Refreshes_example = recalculate-Refreshes 7 sample

-- A gateway that refuses amounts above 3000 and answers others with an identifier.
abbrev test_gateway : ℕ → ℤ → ℕ → Result ℕ
test_gateway intent amount key =
    if leb_ℤ amount (pos 3000) then ok 902 else err (external "refused")

abbrev test_message : Error → String
test_message e = "failed"

abbrev refund_input : RefundInput
refund_input = record { charge_id = 30; amount_cents = pos 2000; customer_id = some 7 }

create_refund-Refunds_example :
    Refunds test_gateway test_message refund_input sample
      (create_refund test_gateway test_message refund_input 2 1 sample).1
create_refund-Refunds_example =
    create_refund-Refunds test_gateway test_message refund_input 2 1 sample (omega arith, tt)

refunds_within_charge_example :
    refunded 30 (create_refund test_gateway test_message refund_input 2 1 sample).1.refunds
    ≤ℤ pos 10000
unfolding ◌+ℤ◌
refunds_within_charge_example =
    refunds_within_charge test_gateway test_message refund_input 2 1 sample 30 charge
      (omega arith, tt) refl (omega arith)

abbrev sample_ready : Ready 11 1 2 4 sample
sample_ready = (refl, refl, refl, (invoice_of 11 draft, refl))

finalize-Returns_example :
    Returns
      (λ r t. pos 0 ≤ℤ r.final_total_cents)
      (finalize_transaction (invoice_of 11 draft) 1 sample)
unfolding ◌+ℤ◌ ◌*ℤ◌ ◌-ℤ◌
finalize-Returns_example =
    finalize-Returns (invoice_of 11 draft) 1 sample {receivable = 1} {income = 2} {credit = 4} refl
      sample_ready (omega arith) (omega arith)

abbrev sample_refundable :
    (amount : ℤ) → IsRefundable (record refund_input { amount_cents = amount }) sample charge
sample_refundable amount = record {
  found = refl;
  owned = refl;
  succeeded = refl;
  intent = 900;
  reference = refl;
}

create_refund_repeated_example :
    create_refund test_gateway test_message refund_input 1 1 sample
    ≡ (ok old_refund, record sample { next_id = sample.next_id + 1 })
unfolding ◌+ℤ◌
create_refund_repeated_example =
    create_refund_repeated test_gateway test_message refund_input 1 1 sample charge old_refund
      (sample_refundable (pos 2000)) (omega arith) refl

create_refund_refused_example :
    create_refund test_gateway test_message
      (record refund_input { amount_cents = pos 6000 })
      1
      1
      sample
    ≡ (err business_rule, sample)
unfolding ◌+ℤ◌
create_refund_refused_example =
    create_refund_refused test_gateway test_message
      (record refund_input { amount_cents = pos 6000 }) 1 1 sample charge
      (sample_refundable (pos 6000)) refl
