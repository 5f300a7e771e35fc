-- ===== src/Charges/Idempotency.antt =====
-- An attempt whose key has a charge does not reach the gateway.
use edge_billing_service.Base.{
  arith, true, ℕ, ◌+◌, ◌==◌, ◌&&◌, Option, some, none, List, find, ◌≡◌, refl, sym, subst, inl, inr,
  Option-cases, ==→eq, find-holds,
}
use edge_billing_service.Store.Rows.{
  Charge, Invoice, Customer, PaymentMethod, invoice_attempt, same_charge_key,
}
use edge_billing_service.Store.Action.{
  Store, Action, Result, ok, err, outcome, or_raise, business_rule, customer_not_found, >>=-ok,
  >>=-err, ◌>>=◌,
}
use edge_billing_service.Store.Moves.{Moves}
use edge_billing_service.Outbound.{World, ChargeRequest}
use edge_billing_service.Methods.{select_method, resolve_gateway_customer_id}
use edge_billing_service.Credits.Service.{find_customer}
use edge_billing_service.Charges.Service.{
  ChargeResult, Payment, pending_charge, is_some, check_payable, create_charge_with_idempotency,
  charge_invoice, pay_loaded, execute_payment_for_invoice, run_payment,
}
use edge_billing_service.Charges.Books.{
  Reads, or_raise-Reads, check_payable-Reads, select_method-Reads, resolve-Reads,
}

-- The result of a row that was there, in a state that has drawn one identifier more; or an error
-- that has changed nothing.
abbrev pub Repeats : Charge → Store → Result ChargeResult × Store → Type 0
Repeats row s (ok r, t) =
    (r ≡ record {
      charge_id = row.id;
      status = row.status;
      payment_intent_id = row.payment_intent_id;
      failure_reason = none;
    })
    × (t ≡ record s { next_id = s.next_id + 1 })
Repeats row s (err x, t) = t ≡ s

module _ {A : Type 0} (row : Charge) where
  read_then :
      (m : Action A) (f : A → Action ChargeResult) (s : Store)
      → Moves Reads m
      → ((a : A) → Repeats row s (f a s))
      → Repeats row s ((m >>= f) s)
  read_then m f s h k = elim (outcome (m s)) [
    | inl (a, t, e) ↦
        let same : t ≡ s = subst (λ r. r.1 ≡ s) e (h s) in
        subst (Repeats row s) (sym (>>=-ok m f s e))
          (subst (λ u. Repeats row s (f a u)) (sym same) (k a))
    | inr (x, t, e) ↦ subst (Repeats row s) (sym (>>=-err m f s e)) (subst (λ r. r.1 ≡ s) e (h s))
  ]

existing :
    (new row : Charge) (s : Store)
    → find (λ c. same_charge_key c.idempotency_key new.idempotency_key) s.charges ≡ some row
    → create_charge_with_idempotency new s ≡ (ok (row, true), s)
existing new row s h = ground (arith, h)

module _ (world : World) (retry_schedule_days : List ℕ) (correlation attempt : ℕ)
    (row : Charge) where
  repeated :
      (inv : Invoice) (pm : PaymentMethod) (gateway_customer : ℕ) (s : Store)
      → find (λ c. same_charge_key c.idempotency_key (invoice_attempt inv.id attempt)) s.charges
        ≡ some row
      → Repeats row s
          (charge_invoice world retry_schedule_days inv pm gateway_customer correlation attempt s)
  unfolding charge_invoice run_payment
  repeated inv pm gateway_customer s h =
      let key = invoice_attempt inv.id attempt in
      let p : Payment = record {
        invoice_id = inv.id;
        customer_id = inv.customer_id;
        invoice_status = inv.status;
        charge_id = s.next_id;
        amount_cents = inv.total_amount_cents;
        currency = inv.currency;
      } in
      let request : ChargeRequest = record {
        amount = inv.total_amount_cents;
        currency = inv.currency;
        gateway_customer = gateway_customer;
        gateway_method = pm.gateway_method_id;
        idempotency_key = key;
      } in
      let is_first = is_some inv.subscription_id && (attempt == 1) in
      let drawn = record s { next_id = s.next_id + 1 } in
      subst (Repeats row s)
        (sym (
          >>=-ok (create_charge_with_idempotency (pending_charge p pm.id key attempt))
            (run_payment world retry_schedule_days p request is_first correlation) drawn
            (existing (pending_charge p pm.id key attempt) row drawn h)))
        (refl, refl)

  repeated_loaded :
      (id : ℕ) (method_id : Option ℕ) (inv : Invoice) (s : Store)
      → find (λ c. same_charge_key c.idempotency_key (invoice_attempt inv.id attempt)) s.charges
        ≡ some row
      → Repeats row s (pay_loaded world retry_schedule_days id correlation attempt method_id inv s)
  unfolding pay_loaded
  repeated_loaded id method_id inv s h =
      let charge : PaymentMethod → ℕ → Action ChargeResult =
        λ pm g. charge_invoice world retry_schedule_days inv pm g correlation attempt in
      let resolve : PaymentMethod → Customer → Action ChargeResult =
        λ pm c. resolve_gateway_customer_id inv.customer_id pm.gateway_provider c >>= charge pm in
      let known : PaymentMethod → Option Customer → Action ChargeResult =
        λ pm o. or_raise o (customer_not_found inv.customer_id) >>= resolve pm in
      let chosen : PaymentMethod → Action ChargeResult =
        λ pm. find_customer inv.customer_id >>= known pm in
      let checked : Unit {0} → Action ChargeResult =
        λ _. select_method inv.customer_id method_id >>= chosen in
      read_then row (check_payable id inv.status) checked s (check_payable-Reads id inv.status) λ _.
        read_then row (select_method inv.customer_id method_id) chosen s
          (select_method-Reads inv.customer_id method_id)
          λ pm.
            read_then row (find_customer inv.customer_id) (known pm) s (λ s. refl)
              λ o.
                read_then row (or_raise o (customer_not_found inv.customer_id)) (resolve pm) s
                  (or_raise-Reads o (customer_not_found inv.customer_id))
                  λ c.
                    read_then row
                      (resolve_gateway_customer_id inv.customer_id pm.gateway_provider c)
                      (charge pm) s (resolve-Reads inv.customer_id pm.gateway_provider c)
                      λ g. repeated inv pm g s h

-- When the key of an attempt has a charge, the payment raises and changes nothing, or returns that
-- charge's identifier and status and changes nothing but the supply of identifiers, whatever the
-- gateway would answer.
pub execute_payment_repeated :
    (world : World) (retry_schedule_days : List ℕ) (id correlation attempt : ℕ)
    (method_id : Option ℕ) (row : Charge) (s : Store)
    → find (λ c. same_charge_key c.idempotency_key (invoice_attempt id attempt)) s.charges
      ≡ some row
    → Repeats row s
        (execute_payment_for_invoice world retry_schedule_days id correlation attempt method_id s)
unfolding execute_payment_for_invoice
execute_payment_repeated world retry_schedule_days id correlation attempt method_id row s h =
    elim (Option-cases (find (λ i. i.id == id) s.invoices)) [
      | inl missing ↦ rw missing refl
      | inr (inv, found) ↦
          let same : inv.id ≡ id =
            ==→eq inv.id id (find-holds (λ i. i.id == id) s.invoices {x = inv} found) in
          let pay = pay_loaded world retry_schedule_days id correlation attempt method_id in
          subst (λ o. Repeats row s ((or_raise o business_rule >>= pay) s)) (sym found)
            (repeated_loaded world retry_schedule_days correlation attempt row id method_id inv s (
              subst
                (λ n.
                  find (λ c. same_charge_key c.idempotency_key (invoice_attempt n attempt))
                    s.charges
                  ≡ some row)
                (sym same) h))
    ]
