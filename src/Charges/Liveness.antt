-- ===== src/Charges/Liveness.antt =====
-- A payment whose gateway succeeds and whose queue takes messages is made.
use edge_billing_service.Base.Int.{◌≤ℤ◌}
use edge_billing_service.Base.{
  if◌then◌else◌, ◌++◌, ◌∷◌, [], ==→eq, find-holds, ℕ, ◌+◌, pos, ◌==◌, ◌&&◌, ◌≡◌, refl, sym, subst,
  ap, ◌∙◌, Bool, true, false, Option, none, some, List, find, insert, arith, inl, inr,
}
use edge_billing_service.StateMachine.Status.{ChargeStatus, finalized, invoice_eq}
use edge_billing_service.Store.Rows.{
  Charge, Customer, Invoice, PaymentMethod, LedgerText, ReferenceType, cash, accounts_receivable,
  stripe, invoice_attempt, same_charge_key,
}
use edge_billing_service.Store.Action.{
  raise, Store, Action, Error, Event, ok, gets, catch, pure, or_raise, business_rule,
  customer_not_found, no_payment_method, ◌>>=◌, >>=-ok, outcome,
}
use edge_billing_service.Store.Moves.{catch-ok}
use edge_billing_service.Store.Ensures.{Returns, bind-Returns}
use edge_billing_service.Methods.{select_method, resolve_gateway_customer_id}
use edge_billing_service.Credits.Service.{find_customer}
use edge_billing_service.Outbound.{
  log_dual_write_failure, World, ChargeRequest, ChargeAnswer, publish, publish_or_log,
  should_dual_write,
}
use edge_billing_service.Ledger.Service.{record_payment_succeeded, account_lookup}
use edge_billing_service.Ledger.Posting.{create_entry-ok, posted, entry_between}
use edge_billing_service.Invoices.Surcharge.{default_method}
use edge_billing_service.Charges.Service.{
  ChargeResult, Payment, pending_charge, is_some, check_payable, pay_loaded,
  execute_payment_for_invoice, settle_charge, pay_transaction, announce_payment, settle_answer,
  try_payment, fail_payment, run_payment, charge_invoice, create_charge_with_idempotency,
}
use edge_billing_service.Charges.Books.{SameBooks}
use edge_billing_service.Charges.Settling.{Pays, paid_then_same, paid_row, paid_status}

-- What a payment needs of the world: the gateway makes every charge and the queue takes every message.
pub record Cooperates (world : World) : Type 0 where
  pub answer : ChargeRequest → ChargeAnswer
  pub accepts : (r : ChargeRequest) → world.create_charge r ≡ ok (answer r)
  pub succeeds : (r : ChargeRequest) → (answer r).status ≡ ChargeStatus.succeeded
  pub takes : (e : Event) → world.delivers e ≡ true

-- What it needs of the state: the invoice is finalized with an amount to pay, and the ledger has the
-- two accounts.
pub record Payable (p : Payment) (s : Store) : Type 0 where
  pub is_finalized : p.invoice_status ≡ finalized
  pub row : Invoice
  pub found : find (λ i. i.id == p.invoice_id) s.invoices ≡ some row
  pub owed : pos 1 ≤ℤ p.amount_cents
  pub cash_id : ℕ
  pub receivable_id : ℕ
  pub has_cash : account_lookup cash s.account_ids ≡ some cash_id
  pub has_receivable : account_lookup accounts_receivable s.account_ids ≡ some receivable_id

step-Returns :
    {A B : Type 0} (Q : B → Store → Type 0) (m : Action A) (f : A → Action B) (s t : Store) (a : A)
    → m s ≡ (ok a, t)
    → Returns Q (f a t)
    → Returns Q ((m >>= f) s)
step-Returns Q m f s t a e h = subst (Returns Q) (sym (>>=-ok m f s e)) h

catch-Returns :
    {A : Type 0} (Q : A → Store → Type 0) (m : Action A) (handler : Error → Action A) (s : Store)
    → Returns Q (m s)
    → Returns Q (catch m handler s)
catch-Returns Q m handler s h = elim (outcome (m s)) [
  | inl (a, t, e) ↦ subst (Returns Q) (sym (catch-ok m handler s e)) (subst (Returns Q) e h)
  | inr (x, t, e) ↦ absurd (subst (Returns Q) e h)
]

settle_charge-Returns :
    (p : Payment) (f : Charge → Charge) (correlation : ℕ) (s : Store)
    → Payable p s
    → Returns
        (λ _ t. Pays p.invoice_id p.invoice_status p.amount_cents s t)
        (settle_charge p f correlation s)
unfolding settle_charge record_payment_succeeded
settle_charge-Returns p f correlation s h =
    let run =
      create_entry-ok cash accounts_receivable p.amount_cents p.currency ReferenceType.payment
        p.charge_id LedgerText.payment_succeeded correlation (paid_row p f s) h.owed h.has_cash
        h.has_receivable in
    let e =
      entry_between s.clock p.amount_cents p.currency ReferenceType.payment p.charge_id
        LedgerText.payment_succeeded correlation s.next_id h.cash_id h.receivable_id in
    let whole : settle_charge p f correlation s ≡ (ok tt, posted (paid_row p f s) e) =
      ground (arith, run, h.is_finalized, h.found) in
    rw whole
      (h.is_finalized, paid_status p.invoice_id s h.row h.found, (s.clock, refl), (e, refl, refl))

module _ (world : World) (good : Cooperates world) where
  published :
      (customer_id : ℕ) (dual : Bool) (e : Event) (s : Store)
      → publish_or_log world customer_id dual e s
        ≡ (ok tt, record s { outbox = s.outbox ++ e ∷ [] })
  published customer_id dual e s =
      let sent : publish world e s ≡ (ok tt, record s { outbox = s.outbox ++ e ∷ [] }) =
        rw (good.takes e, publish) refl in
      catch-ok (publish world e)
        (λ x. if dual then log_dual_write_failure customer_id e else raise x) s sent

  announce-Returns :
      (retry_schedule_days : List ℕ) (p : Payment) (s : Store)
      → Returns (λ _ t. SameBooks s t) (announce_payment world retry_schedule_days p s)
  unfolding announce_payment
  announce-Returns retry_schedule_days p s =
      let dual = should_dual_write p.customer_id s in
      let first = Event.payment_succeeded p.invoice_id p.amount_cents in
      let second = Event.invoice_paid p.invoice_id p.amount_cents in
      let next = record s { outbox = s.outbox ++ first ∷ [] } in
      let same : Unit {0} → Store → Type 0 = λ _ t. SameBooks s t in
      step-Returns same (publish_or_log world p.customer_id dual first)
        (λ _. publish_or_log world p.customer_id dual second) s next tt
        (published p.customer_id dual first s)
        (subst (Returns same) (sym (published p.customer_id dual second next)) (refl, refl))

  -- What a payment that was made has done.
  abbrev Makes : Payment → Store → ChargeResult → Store → Type 0
  Makes p s r t =
      (r.status ≡ ChargeStatus.succeeded) × Pays p.invoice_id p.invoice_status p.amount_cents s t

  settle_answer-Returns :
      (retry_schedule_days : List ℕ) (p : Payment) (correlation : ℕ) (a : ChargeAnswer) (s : Store)
      → Payable p s
      → Returns
          (Makes p s)
          (settle_answer world retry_schedule_days p correlation a ChargeStatus.succeeded s)
  unfolding settle_answer pay_transaction
  settle_answer-Returns retry_schedule_days p correlation a s h =
      let f : Charge → Charge =
        λ c. record c { status = ChargeStatus.succeeded; payment_intent_id = some a.id } in
      let paid : Unit {0} → Store → Type 0 =
        λ _ t. Pays p.invoice_id p.invoice_status p.amount_cents s t in
      let announce = announce_payment world retry_schedule_days p in
      let done : Unit {0} → Action ChargeResult = λ _. pure (record {
        charge_id = p.charge_id;
        status = ChargeStatus.succeeded;
        payment_intent_id = some a.id;
        failure_reason = none;
      }) in
      bind-Returns paid (Makes p s) (settle_charge p f correlation) (λ _. announce >>= done) s
        (settle_charge-Returns p f correlation s h)
        (λ _ t made.
          bind-Returns (λ _ u. SameBooks t u) (Makes p s) announce done t
            (announce-Returns retry_schedule_days p t)
            (λ _ u same.
              (refl, paid_then_same p.invoice_id p.invoice_status p.amount_cents s t u made same)))

  run_payment-Returns :
      (retry_schedule_days : List ℕ) (p : Payment) (request : ChargeRequest) (is_first : Bool)
      (correlation : ℕ) (row : Charge) (s : Store)
      → Payable p s
      → Returns
          (Makes p s)
          (run_payment world retry_schedule_days p request is_first correlation (row, false) s)
  unfolding run_payment try_payment
  run_payment-Returns retry_schedule_days p request is_first correlation row s h =
      let a = good.answer request in
      catch-Returns (Makes p s) (try_payment world retry_schedule_days p request correlation)
        (fail_payment world retry_schedule_days p is_first) s
        (step-Returns (Makes p s) (λ s. (world.create_charge request, s))
          (λ answer. settle_answer world retry_schedule_days p correlation answer answer.status) s s
          a (ap (λ r. (r, s)) (good.accepts request))
          (subst
            (λ st.
              Returns (Makes p s) (settle_answer world retry_schedule_days p correlation a st s))
            (sym (good.succeeds request))
            (settle_answer-Returns retry_schedule_days p correlation a s h)))

-- An attempt that can be charged: the invoice is finalized with an amount to pay, the customer has a
-- default method at Stripe, the attempt's key is new and the ledger has the two accounts.
pub record Chargeable (id attempt : ℕ) (s : Store) : Type 0 where
  pub invoice : Invoice
  pub found : find (λ i. i.id == id) s.invoices ≡ some invoice
  pub is_finalized : invoice.status ≡ finalized
  pub owed : pos 1 ≤ℤ invoice.total_amount_cents
  pub method : PaymentMethod
  pub has_method : default_method invoice.customer_id s.payment_methods ≡ some method
  pub at_stripe : method.gateway_provider ≡ stripe
  pub customer : Customer
  pub has_customer : find (λ c. c.id == invoice.customer_id) s.customers ≡ some customer
  pub gateway_customer : ℕ
  pub is_known : customer.stripe_customer_id ≡ some gateway_customer
  pub is_new :
      find (λ c. same_charge_key c.idempotency_key (invoice_attempt invoice.id attempt)) s.charges
      ≡ none
  pub cash_id : ℕ
  pub receivable_id : ℕ
  pub has_cash : account_lookup cash s.account_ids ≡ some cash_id
  pub has_receivable : account_lookup accounts_receivable s.account_ids ≡ some receivable_id

inserted :
    (new : Charge) (s : Store)
    → find (λ c. same_charge_key c.idempotency_key new.idempotency_key) s.charges ≡ none
    → create_charge_with_idempotency new s
      ≡ (ok (new, false), record s { charges = insert new s.charges })
inserted new s h = ground (arith, h)

charge_invoice-Returns :
    (world : World)
    → Cooperates world
    → (retry_schedule_days : List ℕ) (id correlation attempt : ℕ) (s : Store)
    → (h : Chargeable id attempt s)
    → Returns
        (λ r t.
          (r.status ≡ ChargeStatus.succeeded)
          × Pays h.invoice.id h.invoice.status h.invoice.total_amount_cents s t)
        (charge_invoice world retry_schedule_days h.invoice h.method h.gateway_customer correlation
          attempt s)
unfolding charge_invoice
charge_invoice-Returns world good retry_schedule_days id correlation attempt s h =
    let key = invoice_attempt h.invoice.id attempt in
    let p : Payment = record {
      invoice_id = h.invoice.id;
      customer_id = h.invoice.customer_id;
      invoice_status = h.invoice.status;
      charge_id = s.next_id;
      amount_cents = h.invoice.total_amount_cents;
      currency = h.invoice.currency;
    } in
    let request : ChargeRequest = record {
      amount = h.invoice.total_amount_cents;
      currency = h.invoice.currency;
      gateway_customer = h.gateway_customer;
      gateway_method = h.method.gateway_method_id;
      idempotency_key = key;
    } in
    let is_first = is_some h.invoice.subscription_id && (attempt == 1) in
    let drawn = record s { next_id = s.next_id + 1 } in
    let new = pending_charge p h.method.id key attempt in
    let ready = record drawn { charges = insert new s.charges } in
    let payable : Payable p ready = record {
      is_finalized = h.is_finalized;
      row = h.invoice;
      found =
          subst (λ n. find (λ i. i.id == n) s.invoices ≡ some h.invoice)
            (sym (
              ==→eq h.invoice.id id
                (find-holds (λ i. i.id == id) s.invoices {x = h.invoice} h.found)))
            h.found;
      owed = h.owed;
      cash_id = h.cash_id;
      receivable_id = h.receivable_id;
      has_cash = h.has_cash;
      has_receivable = h.has_receivable;
    } in
    step-Returns
      (λ r t.
        (r.status ≡ ChargeStatus.succeeded)
        × Pays h.invoice.id h.invoice.status h.invoice.total_amount_cents s t)
      (create_charge_with_idempotency new)
      (run_payment world retry_schedule_days p request is_first correlation) drawn ready
      (new, false) (inserted new drawn h.is_new)
      (run_payment-Returns world good retry_schedule_days p request is_first correlation new ready
        payable)

-- When the gateway makes every charge and the queue takes every message, an attempt that can be charged
-- returns a succeeded charge, the invoice is paid and there is one new ledger entry, of its total.
pub execute_payment-Returns :
    (world : World)
    → Cooperates world
    → (retry_schedule_days : List ℕ) (id correlation attempt : ℕ) (s : Store)
    → (h : Chargeable id attempt s)
    → Returns
        (λ r t.
          (r.status ≡ ChargeStatus.succeeded)
          × Pays h.invoice.id h.invoice.status h.invoice.total_amount_cents s t)
        (execute_payment_for_invoice world retry_schedule_days id correlation attempt none s)
unfolding execute_payment_for_invoice pay_loaded
execute_payment-Returns world good retry_schedule_days id correlation attempt s h =
    let inv = h.invoice in
    let Q : ChargeResult → Store → Type 0 = λ r t.
      (r.status ≡ ChargeStatus.succeeded) × Pays inv.id inv.status inv.total_amount_cents s t in
    let charge : PaymentMethod → ℕ → Action ChargeResult =
      λ pm g. charge_invoice world retry_schedule_days inv pm g correlation attempt in
    let resolve : PaymentMethod → Customer → Action ChargeResult =
      λ pm c. resolve_gateway_customer_id inv.customer_id pm.gateway_provider c >>= charge pm in
    let known : PaymentMethod → Option Customer → Action ChargeResult =
      λ pm o. or_raise o (customer_not_found inv.customer_id) >>= resolve pm in
    let chosen : PaymentMethod → Action ChargeResult =
      λ pm. find_customer inv.customer_id >>= known pm in
    let checked : Unit {0} → Action ChargeResult =
      λ _. select_method inv.customer_id none >>= chosen in
    let pay = pay_loaded world retry_schedule_days id correlation attempt none in
    let loaded : Option Invoice → Action ChargeResult = λ o. or_raise o business_rule >>= pay in
    step-Returns Q (gets (λ s. find (λ i. i.id == id) s.invoices)) loaded s s (some inv)
      (ap (λ o. (ok o, s)) h.found)
      (step-Returns Q (check_payable id inv.status) checked s s tt
        (ap (λ st. check_payable id st s) h.is_finalized)
        (step-Returns Q (select_method inv.customer_id none) chosen s s h.method
          (ap (λ o. or_raise o (no_payment_method inv.customer_id) s) h.has_method)
          (step-Returns Q (find_customer inv.customer_id) (known h.method) s s (some h.customer)
            (ap (λ o. (ok o, s)) h.has_customer)
            (step-Returns Q
              (resolve_gateway_customer_id inv.customer_id h.method.gateway_provider h.customer)
              (charge h.method) s s h.gateway_customer
              (ap (λ pr. resolve_gateway_customer_id inv.customer_id pr h.customer s) h.at_stripe
                ∙ ap (λ o. or_raise o business_rule s) h.is_known)
              (charge_invoice-Returns world good retry_schedule_days id correlation attempt s h)))))
