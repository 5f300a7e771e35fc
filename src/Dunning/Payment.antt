-- ===== src/Dunning/Payment.antt =====
-- What a dunning attempt does to the books.
use edge_billing_service.Base.{
  ◌⊎◌, Bool, true, false, if◌then◌else◌, ℕ, ◌==◌, ◌≡◌, refl, sym, subst, inl, inr, Option, none,
  some, List, find, Option-cases,
}
use edge_billing_service.StateMachine.Status.{
  InvoiceStatus, AttemptStatus, draft, finalized, paid, void, scheduled, skipped,
}
use edge_billing_service.Store.Rows.{DunningAttempt, Invoice}
use edge_billing_service.Store.Action.{
  Store, Action, Error, pure, raise, or_raise, catch, attempt_not_found, invoice_not_found, ◌>>=◌,
  ◌>>◌,
}
use edge_billing_service.Store.Moves.{Moves, catch-Moves}
use edge_billing_service.Outbound.{World}
use edge_billing_service.Charges.Books.{SameBooks, or_raise_keeps}
use edge_billing_service.Charges.Composing.{pays_then_keeps, after_same, before_same}
use edge_billing_service.Charges.Payment.{PaysOrKeeps, execute_payment-PaysOrKeeps}
use edge_billing_service.Charges.Service.{ChargeResult, execute_payment_for_invoice}
use edge_billing_service.Dunning.Service.{
  DunningResult, select_payment_method_for_attempt, skip_attempt, is_already_paid,
  handle_charge_error, conclude_charge, charge_attempt, attempt_invoice, run_attempt,
  run_if_scheduled, execute_dunning_attempt,
}
use edge_billing_service.Dunning.Books.{select_keeps, conclude_keeps}

module _ (world : World) (retry_schedule_days : List ℕ) (max_retry_attempts : ℕ) where
  handle_keeps :
      (attempt : DunningAttempt) (x : Error) (already_paid : Bool)
      → Moves SameBooks (
          if already_paid
          then skip_attempt attempt.id attempt.invoice_id >> pure {A = Option ChargeResult} none
          else raise x)
  unfolding skip_attempt
  handle_keeps attempt x true s = (refl, refl)
  handle_keeps attempt x false s = (refl, refl)

  conclude_charge_keeps :
      (attempt : DunningAttempt) (inv : Invoice) (method_id : ℕ) (r : Option ChargeResult)
      → Moves SameBooks
          (conclude_charge world retry_schedule_days max_retry_attempts attempt inv method_id r)
  conclude_charge_keeps attempt inv method_id none = λ s. (refl, refl)
  conclude_charge_keeps attempt inv method_id (some r) =
      conclude_keeps world retry_schedule_days max_retry_attempts attempt inv method_id r r.status

  charge_attempt-PaysOrKeeps :
      (attempt : DunningAttempt) (inv : Invoice) (correlation : ℕ) (method_id : Option ℕ)
      → Moves (PaysOrKeeps attempt.invoice_id) (
          charge_attempt world retry_schedule_days max_retry_attempts attempt inv correlation
            method_id)
  unfolding charge_attempt
  charge_attempt-PaysOrKeeps attempt inv correlation none = λ s. inl (refl, refl)
  charge_attempt-PaysOrKeeps attempt inv correlation (some method_id) =
      let R = PaysOrKeeps attempt.invoice_id in
      let pay : Action ChargeResult =
        execute_payment_for_invoice world retry_schedule_days attempt.invoice_id correlation
          attempt.attempt_number (some method_id) in
      let keep : ChargeResult → Action (Option ChargeResult) = λ r. pure (some r) in
      let handler : Error → Action (Option ChargeResult) =
        handle_charge_error world retry_schedule_days max_retry_attempts attempt in
      before_same attempt.invoice_id (catch (pay >>= keep) handler)
        (conclude_charge world retry_schedule_days max_retry_attempts attempt inv method_id)
        (catch-Moves R SameBooks R (λ s t h. h) (pays_then_keeps attempt.invoice_id) (pay >>= keep)
          handler
          (before_same attempt.invoice_id pay keep
            (execute_payment-PaysOrKeeps world retry_schedule_days attempt.invoice_id correlation
              attempt.attempt_number (some method_id))
            (λ r s. (refl, refl)))
          (λ x. handle_keeps attempt x (is_already_paid x)))
        (conclude_charge_keeps attempt inv method_id)

  cascade-PaysOrKeeps :
      (attempt : DunningAttempt) (correlation : ℕ) (inv : Invoice)
      → Moves (PaysOrKeeps attempt.invoice_id) (
          select_payment_method_for_attempt world inv.customer_id attempt.invoice_id attempt.id
          >>= charge_attempt world retry_schedule_days max_retry_attempts attempt inv correlation)
  cascade-PaysOrKeeps attempt correlation inv =
      after_same attempt.invoice_id
        (select_payment_method_for_attempt world inv.customer_id attempt.invoice_id attempt.id)
        (charge_attempt world retry_schedule_days max_retry_attempts attempt inv correlation)
        (select_keeps world inv.customer_id attempt.invoice_id attempt.id)
        (charge_attempt-PaysOrKeeps attempt inv correlation)

  attempt_invoice-PaysOrKeeps :
      (attempt : DunningAttempt) (correlation : ℕ) (inv : Invoice) (status : InvoiceStatus)
      → Moves (PaysOrKeeps attempt.invoice_id) (
          attempt_invoice world retry_schedule_days max_retry_attempts attempt correlation inv
            status)
  unfolding attempt_invoice skip_attempt
  attempt_invoice-PaysOrKeeps attempt correlation inv draft =
      cascade-PaysOrKeeps attempt correlation inv
  attempt_invoice-PaysOrKeeps attempt correlation inv finalized =
      cascade-PaysOrKeeps attempt correlation inv
  attempt_invoice-PaysOrKeeps attempt correlation inv paid = λ s. inl (refl, refl)
  attempt_invoice-PaysOrKeeps attempt correlation inv void = λ s. inl (refl, refl)

  run_attempt-PaysOrKeeps :
      (attempt : DunningAttempt) (correlation : ℕ)
      → Moves
          (PaysOrKeeps attempt.invoice_id)
          (run_attempt world retry_schedule_days max_retry_attempts attempt correlation)
  unfolding run_attempt
  run_attempt-PaysOrKeeps attempt correlation s =
      let found = find (λ i. i.id == attempt.invoice_id) s.invoices in
      let pay : Invoice → Action DunningResult = λ inv.
        attempt_invoice world retry_schedule_days max_retry_attempts attempt correlation inv
          inv.status in
      after_same attempt.invoice_id (or_raise found (invoice_not_found attempt.invoice_id)) pay
        (or_raise_keeps found (invoice_not_found attempt.invoice_id))
        (λ inv. attempt_invoice-PaysOrKeeps attempt correlation inv inv.status) s

  scheduled-PaysOrKeeps :
      (attempt : DunningAttempt) (correlation : ℕ) (status : AttemptStatus)
      → Moves
          (PaysOrKeeps attempt.invoice_id)
          (run_if_scheduled world retry_schedule_days max_retry_attempts attempt correlation status)
  scheduled-PaysOrKeeps attempt correlation scheduled = run_attempt-PaysOrKeeps attempt correlation
  scheduled-PaysOrKeeps attempt correlation skipped = λ s. inl (refl, refl)
  scheduled-PaysOrKeeps attempt correlation AttemptStatus.succeeded = λ s. inl (refl, refl)
  scheduled-PaysOrKeeps attempt correlation AttemptStatus.failed = λ s. inl (refl, refl)

-- The books are as they were, or the invoice of the attempt is paid in them.
abbrev pub Retries : ℕ → Store → Store → Type 0
Retries id s t =
    SameBooks s t
    ⊎ ((attempt : DunningAttempt) × (find (λ a. a.id == id) s.dunning_attempts ≡ some attempt)
        × PaysOrKeeps attempt.invoice_id s t)

-- However a dunning attempt ends, and whatever the gateway and the queue answer, either no invoice
-- and no ledger entry changed, or the invoice of the attempt was finalized and is now paid and there
-- is one new ledger entry, of its total.
pub execute_dunning-Retries :
    (world : World) (retry_schedule_days : List ℕ) (max_retry_attempts id correlation : ℕ)
    (s : Store)
    → Retries id s
        (execute_dunning_attempt world retry_schedule_days max_retry_attempts id correlation s).1
unfolding execute_dunning_attempt
execute_dunning-Retries world retry_schedule_days max_retry_attempts id correlation s =
    elim (Option-cases (find (λ a. a.id == id) s.dunning_attempts)) [
      | inl missing ↦ rw missing (inl (refl, refl))
      | inr (attempt, found) ↦
          let run : DunningAttempt → Action DunningResult = λ a.
            run_if_scheduled world retry_schedule_days max_retry_attempts a correlation a.status in
          subst (λ o. Retries id s ((or_raise o (attempt_not_found id) >>= run) s).1) (sym found)
            (inr (
              attempt,
              found,
              scheduled-PaysOrKeeps world retry_schedule_days max_retry_attempts attempt correlation
                  attempt.status s,
            ))
    ]
