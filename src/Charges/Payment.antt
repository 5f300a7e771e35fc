-- ===== src/Charges/Payment.antt =====
-- What a payment leaves: the invoice and the ledger move together.
use edge_billing_service.Charges.Books.{
  fail_payment_keeps, SameBooks, announce_payment_keeps, bind_keeps, check_payable-Reads,
  unchanged_books, create_charge_keeps, or_raise_keeps, resolve-Reads, select_method-Reads,
}
use edge_billing_service.Charges.Settling.{
  Pays, Settles, Settles-trans, after_keeps, keeps_before, pay_transaction-Settles,
}
use edge_billing_service.Methods.{select_method, resolve_gateway_customer_id}
use edge_billing_service.Credits.Service.{find_customer}
use edge_billing_service.Base.{
  find-holds, ==→eq, ◌+◌, ◌&&◌, find, Option-cases, none, ℕ, ◌==◌, ◌≡◌, refl, sym, subst, ◌⊎◌, inl,
  inr, Bool, true, false, Option, some, List,
}
use edge_billing_service.StateMachine.Status.{ChargeStatus, invoice_eq}
use edge_billing_service.Store.Rows.{
  provider_eq, Customer, invoice_attempt, PaymentMethod, Charge, Invoice,
}
use edge_billing_service.Store.Action.{
  customer_not_found, business_rule, or_raise, Store, Action, ◌>>=◌, pure,
}
use edge_billing_service.Store.Moves.{Moves, bind-Moves, catch-Moves}
use edge_billing_service.Outbound.{World, ChargeRequest, ChargeAnswer}
use edge_billing_service.Charges.Service.{
  pending_charge, is_some, create_charge_with_idempotency, ChargeResult, Payment, pay_transaction,
  announce_payment, settle_answer, try_payment, fail_payment, run_payment, charge_invoice,
  execute_payment_for_invoice, check_payable, pay_loaded,
}

module _ (world : World) (retry_schedule_days : List ℕ) where
  answered : Payment → Option ℕ → ChargeStatus → Unit {0} → Action ChargeResult
  answered p intent status _ = pure (record {
    charge_id = p.charge_id;
    status = status;
    payment_intent_id = intent;
    failure_reason = none;
  })

  settle_answer-Settles :
      (p : Payment) (correlation : ℕ) (answer : ChargeAnswer) (status : ChargeStatus)
      → Moves
          (Settles p.invoice_id p.invoice_status p.amount_cents)
          (settle_answer world retry_schedule_days p correlation answer status)
  unfolding settle_answer answered
  settle_answer-Settles p correlation answer ChargeStatus.succeeded =
      let R = Settles p.invoice_id p.invoice_status p.amount_cents in
      let announce = announce_payment world retry_schedule_days p in
      let done = answered p (some answer.id) ChargeStatus.succeeded in
      bind-Moves R SameBooks R (λ s t h. h)
        (Settles-trans p.invoice_id p.invoice_status p.amount_cents)
        (pay_transaction p answer.id correlation) (λ _. announce >>= done)
        (pay_transaction-Settles p answer.id correlation)
        (λ _.
          bind_keeps announce done (announce_payment_keeps world retry_schedule_days p)
            (λ _ s. (refl, refl)))
  settle_answer-Settles p correlation answer ChargeStatus.pending = λ s. inl (refl, refl)
  settle_answer-Settles p correlation answer ChargeStatus.failed = λ s. inl (refl, refl)

  try_payment-Settles :
      (p : Payment) (request : ChargeRequest) (correlation : ℕ)
      → Moves
          (Settles p.invoice_id p.invoice_status p.amount_cents)
          (try_payment world retry_schedule_days p request correlation)
  unfolding try_payment
  try_payment-Settles p request correlation =
      let R = Settles p.invoice_id p.invoice_status p.amount_cents in
      bind-Moves SameBooks R R (λ s t h. inl h)
        (keeps_before p.invoice_id p.invoice_status p.amount_cents)
        (λ s. (world.create_charge request, s))
        (λ answer. settle_answer world retry_schedule_days p correlation answer answer.status)
        (λ s. (refl, refl)) (λ answer. settle_answer-Settles p correlation answer answer.status)

  pub run_payment-Settles :
      (p : Payment) (request : ChargeRequest) (is_first : Bool) (correlation : ℕ)
      (created : Charge × Bool)
      → Moves
          (Settles p.invoice_id p.invoice_status p.amount_cents)
          (run_payment world retry_schedule_days p request is_first correlation created)
  unfolding run_payment
  run_payment-Settles p request is_first correlation (row, true) = λ s. inl (refl, refl)
  run_payment-Settles p request is_first correlation (row, false) =
      let R = Settles p.invoice_id p.invoice_status p.amount_cents in
      catch-Moves R SameBooks R (λ s t h. h)
        (Settles-trans p.invoice_id p.invoice_status p.amount_cents)
        (try_payment world retry_schedule_days p request correlation)
        (fail_payment world retry_schedule_days p is_first)
        (try_payment-Settles p request correlation)
        (fail_payment_keeps world retry_schedule_days p is_first)

  charge_invoice-Settles :
      (inv : Invoice) (pm : PaymentMethod) (gateway_customer correlation attempt : ℕ)
      → Moves
          (Settles inv.id inv.status inv.total_amount_cents)
          (charge_invoice world retry_schedule_days inv pm gateway_customer correlation attempt)
  unfolding charge_invoice
  charge_invoice-Settles inv pm gateway_customer correlation attempt s =
      let key = invoice_attempt inv.id attempt in
      let p : Payment = record {
        invoice_id = inv.id;
        customer_id = inv.customer_id;
        invoice_status = inv.status;
        charge_id = s.next_id;
        amount_cents = inv.total_amount_cents;
        currency = inv.currency;
      } in
      let request : ChargeRequest = record {
        amount = inv.total_amount_cents;
        currency = inv.currency;
        gateway_customer = gateway_customer;
        gateway_method = pm.gateway_method_id;
        idempotency_key = key;
      } in
      let is_first = is_some inv.subscription_id && (attempt == 1) in
      after_keeps inv.id inv.status inv.total_amount_cents
        (create_charge_with_idempotency (pending_charge p pm.id key attempt))
        (run_payment world retry_schedule_days p request is_first correlation)
        (create_charge_keeps (pending_charge p pm.id key attempt))
        (run_payment-Settles p request is_first correlation) (record s { next_id = s.next_id + 1 })

  pay_loaded-Settles :
      (invoice_id correlation attempt : ℕ) (method_id : Option ℕ) (inv : Invoice)
      → Moves
          (Settles inv.id inv.status inv.total_amount_cents)
          (pay_loaded world retry_schedule_days invoice_id correlation attempt method_id inv)
  unfolding pay_loaded
  pay_loaded-Settles invoice_id correlation attempt method_id inv =
      let charge : PaymentMethod → ℕ → Action ChargeResult =
        λ pm g. charge_invoice world retry_schedule_days inv pm g correlation attempt in
      let resolve : PaymentMethod → Customer → Action ChargeResult =
        λ pm c. resolve_gateway_customer_id inv.customer_id pm.gateway_provider c >>= charge pm in
      let known : PaymentMethod → Option Customer → Action ChargeResult =
        λ pm row. or_raise row (customer_not_found inv.customer_id) >>= resolve pm in
      let chosen : PaymentMethod → Action ChargeResult =
        λ pm. find_customer inv.customer_id >>= known pm in
      let checked : Unit {0} → Action ChargeResult =
        λ _. select_method inv.customer_id method_id >>= chosen in
      after_keeps inv.id inv.status inv.total_amount_cents (check_payable invoice_id inv.status)
        checked
        (unchanged_books (check_payable invoice_id inv.status)
          (check_payable-Reads invoice_id inv.status))
        λ _.
          after_keeps inv.id inv.status inv.total_amount_cents
            (select_method inv.customer_id method_id) chosen
            (unchanged_books (select_method inv.customer_id method_id)
              (select_method-Reads inv.customer_id method_id))
            λ pm.
              after_keeps inv.id inv.status inv.total_amount_cents (find_customer inv.customer_id)
                (known pm) (λ s. (refl, refl))
                λ row.
                  after_keeps inv.id inv.status inv.total_amount_cents
                    (or_raise row (customer_not_found inv.customer_id)) (resolve pm)
                    (or_raise_keeps row (customer_not_found inv.customer_id))
                    λ c.
                      after_keeps inv.id inv.status inv.total_amount_cents
                        (resolve_gateway_customer_id inv.customer_id pm.gateway_provider c)
                        (charge pm)
                        (unchanged_books
                          (resolve_gateway_customer_id inv.customer_id pm.gateway_provider c)
                          (resolve-Reads inv.customer_id pm.gateway_provider c))
                        λ g. charge_invoice-Settles inv pm g correlation attempt

-- The books are as they were, or the payment of the invoice as it stood is in them.
abbrev pub PaysOrKeeps : ℕ → Store → Store → Type 0
PaysOrKeeps id s t =
    SameBooks s t
    ⊎ ((inv : Invoice) × (find (λ i. i.id == id) s.invoices ≡ some inv)
        × Pays id inv.status inv.total_amount_cents s t)

pub settled_invoice :
    (id : ℕ) (inv : Invoice) (s t : Store)
    → find (λ i. i.id == id) s.invoices ≡ some inv
    → Settles inv.id inv.status inv.total_amount_cents s t
    → PaysOrKeeps id s t
settled_invoice id inv s t found (inl h) = inl h
settled_invoice id inv s t found (inr h) = inr (
  inv,
  found,
  subst (λ n. Pays n inv.status inv.total_amount_cents s t)
      (==→eq inv.id id (find-holds (λ i. i.id == id) s.invoices {x = inv} found)) h,
)

-- However the call ends, and whatever the gateway and the queue answer, either no invoice and no
-- ledger entry changed, or the invoice was finalized and is now paid and there is one new ledger
-- entry, of the total that the invoice had.
pub execute_payment-PaysOrKeeps :
    (world : World) (retry_schedule_days : List ℕ) (id correlation attempt : ℕ)
    (method_id : Option ℕ) (s : Store)
    → PaysOrKeeps id s
        (execute_payment_for_invoice world retry_schedule_days id correlation attempt method_id s).1
unfolding execute_payment_for_invoice
execute_payment-PaysOrKeeps world retry_schedule_days id correlation attempt method_id s =
    elim (Option-cases (find (λ i. i.id == id) s.invoices)) [
      | inl missing ↦ rw missing (inl (refl, refl))
      | inr (inv, found) ↦
          let pay = pay_loaded world retry_schedule_days id correlation attempt method_id in
          subst (λ o. PaysOrKeeps id s ((or_raise o business_rule >>= pay) s).1) (sym found)
            (settled_invoice id inv s (pay inv s).1 found
              (pay_loaded-Settles world retry_schedule_days id correlation attempt method_id inv s))
    ]
