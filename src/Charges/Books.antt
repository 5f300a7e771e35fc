-- ===== src/Charges/Books.antt =====
-- What leaves the invoices and the ledger as they are.
use edge_billing_service.Methods.{select_method, resolve_gateway_customer_id}
use edge_billing_service.Invoices.Surcharge.{default_method}
use edge_billing_service.Base.{
  ap, ◌===◌, ◌&&◌, find, Option-cases, none, ℕ, ◌==◌, ◌≡◌, refl, ◌∙◌, inl, inr, Bool, true, false,
  Option, some, List, Bool-cases, if◌then◌else◌, update, length,
}
use edge_billing_service.StateMachine.Status.{
  InvoiceStatus, ChargeStatus, draft, finalized, paid, void, invoice_eq,
}
use edge_billing_service.Store.Rows.{
  stripe, adyen, provider_eq, Customer, GatewayProvider, same_charge_key, Charge,
}
use edge_billing_service.Store.Action.{
  payment_method_not_found, no_payment_method, business_rule, or_raise, Store, Action, Error, ◌>>=◌,
  Event, when, catch, gets, pure, raise,
}
use edge_billing_service.Store.Moves.{Moves, bind-Moves, catch-Moves, when-Moves}
use edge_billing_service.Outbound.{
  World, publish, publish_or_log, should_dual_write, log_dual_write_failure,
}
use edge_billing_service.Dunning.Schedule.{find_non_skipped, schedule_dunning_attempt}
use edge_billing_service.Charges.Service.{
  create_charge_with_idempotency, ChargeResult, Payment, announce_payment, fail_payment,
  check_payable,
}

-- No invoice and no ledger entry has changed.
abbrev pub SameBooks : Store → Store → Type 0
SameBooks s t = (t.invoices ≡ s.invoices) × (t.ledger_entries ≡ s.ledger_entries)

pub SameBooks-trans : (s t u : Store) → SameBooks s t → SameBooks t u → SameBooks s u
SameBooks-trans s t u (a, b) (c, d) = (c ∙ a, d ∙ b)

module _ {A : Type 0} where
  pub bind_keeps :
      {B : Type 0} (m : Action A) (f : A → Action B)
      → Moves SameBooks m
      → ((a : A) → Moves SameBooks (f a))
      → Moves SameBooks (m >>= f)
  bind_keeps = bind-Moves SameBooks SameBooks SameBooks (λ s t h. h) SameBooks-trans

  pub catch_keeps :
      (m : Action A) (handler : Error → Action A)
      → Moves SameBooks m
      → ((x : Error) → Moves SameBooks (handler x))
      → Moves SameBooks (catch m handler)
  catch_keeps = catch-Moves SameBooks SameBooks SameBooks (λ s t h. h) SameBooks-trans

module _ (world : World) where
  pub publish_keeps : (e : Event) → Moves SameBooks (publish world e)
  publish_keeps e s = elim (Bool-cases (world.delivers e)) [
    | inl delivered ↦ rw delivered (refl, refl)
    | inr lost ↦ rw lost (refl, refl)
  ]

  pub handler_keeps :
      (customer_id : ℕ) (dual : Bool) (e : Event) (x : Error)
      → Moves SameBooks (if dual then log_dual_write_failure customer_id e else raise x)
  handler_keeps customer_id true e x s = (refl, refl)
  handler_keeps customer_id false e x s = (refl, refl)

  pub publish_or_log_keeps :
      (customer_id : ℕ) (dual : Bool) (e : Event)
      → Moves SameBooks (publish_or_log world customer_id dual e)
  publish_or_log_keeps customer_id dual e =
      catch_keeps (publish world e)
        (λ x. if dual then log_dual_write_failure customer_id e else raise x) (publish_keeps e)
        (handler_keeps customer_id dual e)

module _ (world : World) (retry_schedule_days : List ℕ) where
  pub announce_payment_keeps :
      (p : Payment) → Moves SameBooks (announce_payment world retry_schedule_days p)
  unfolding announce_payment
  announce_payment_keeps p =
      bind_keeps (gets (should_dual_write p.customer_id))
        (λ dual.
          publish_or_log world p.customer_id dual
            (Event.payment_succeeded p.invoice_id p.amount_cents)
          >>= λ _.
              publish_or_log world p.customer_id dual
                (Event.invoice_paid p.invoice_id p.amount_cents))
        (λ s. (refl, refl))
        (λ dual.
          bind_keeps
            (publish_or_log world p.customer_id dual
              (Event.payment_succeeded p.invoice_id p.amount_cents))
            (λ _.
              publish_or_log world p.customer_id dual
                (Event.invoice_paid p.invoice_id p.amount_cents))
            (publish_or_log_keeps world p.customer_id dual
              (Event.payment_succeeded p.invoice_id p.amount_cents))
            (λ _.
              publish_or_log_keeps world p.customer_id dual
                (Event.invoice_paid p.invoice_id p.amount_cents)))

  schedule_keeps : (id : ℕ) → Moves SameBooks (schedule_dunning_attempt retry_schedule_days id)
  unfolding schedule_dunning_attempt
  schedule_keeps id s = elim (Bool-cases (length (find_non_skipped id s.dunning_attempts) == 0)) [
    | inl none_left ↦ rw none_left (refl, refl)
    | inr planned ↦ rw planned (refl, refl)
  ]

  pub fail_payment_keeps :
      (p : Payment) (is_first : Bool) (x : Error)
      → Moves SameBooks (fail_payment world retry_schedule_days p is_first x)
  unfolding fail_payment
  fail_payment_keeps p is_first x s =
      let e = Event.payment_failed p.invoice_id p.amount_cents in
      let dual = should_dual_write p.customer_id s in
      let retry =
        catch (schedule_dunning_attempt retry_schedule_days p.invoice_id) (λ x. pure tt) in
      let answer : Unit {0} → Action ChargeResult = λ _. pure (record {
        charge_id = p.charge_id;
        status = ChargeStatus.failed;
        payment_intent_id = none;
        failure_reason = some (world.message x);
      }) in
      bind_keeps (publish_or_log world p.customer_id dual e) (λ _. when is_first retry >>= answer)
        (publish_or_log_keeps world p.customer_id dual e)
        (λ _.
          bind_keeps (when is_first retry) answer
            (when-Moves SameBooks is_first retry (λ s. (refl, refl))
              (catch_keeps (schedule_dunning_attempt retry_schedule_days p.invoice_id)
                (λ x. pure tt) (schedule_keeps p.invoice_id) (λ x s. (refl, refl))))
            (λ _ s. (refl, refl)))
        (record s {
          charges =
              update (λ c. c.id == p.charge_id)
                (λ c. record c {
                  status = ChargeStatus.failed;
                  failure_reason = some (world.message x);
                })
                s.charges;
        })

-- A call that changes nothing.
abbrev pub Reads : Store → Store → Type 0
Reads s t = t ≡ s

pub or_raise-Reads : {A : Type 0} (o : Option A) (x : Error) → Moves Reads (or_raise o x)
or_raise-Reads none x s = refl
or_raise-Reads (some a) x s = refl

pub check_payable-Reads : (id : ℕ) (status : InvoiceStatus) → Moves Reads (check_payable id status)
check_payable-Reads id draft s = refl
check_payable-Reads id finalized s = refl
check_payable-Reads id paid s = refl
check_payable-Reads id void s = refl

pub select_method-Reads :
    (customer_id : ℕ) (method_id : Option ℕ) → Moves Reads (select_method customer_id method_id)
select_method-Reads customer_id none s =
    or_raise-Reads (default_method customer_id s.payment_methods) (no_payment_method customer_id) s
select_method-Reads customer_id (some id) s =
    or_raise-Reads
      (find (λ pm. (pm.id == id) && (pm.customer_id == customer_id) && pm.is_active)
        s.payment_methods)
      (payment_method_not_found id) s

pub resolve-Reads :
    (customer_id : ℕ) (provider : GatewayProvider) (c : Customer)
    → Moves Reads (resolve_gateway_customer_id customer_id provider c)
resolve-Reads customer_id stripe c s = or_raise-Reads c.stripe_customer_id business_rule s
resolve-Reads customer_id adyen c s =
    elim (Option-cases (
      find (λ a. (a.customer_id == customer_id) && (a.provider === adyen)) s.gateway_assignments)) [
        | inl missing ↦ rw missing refl
        | inr (a, found) ↦ rw found refl
      ]

pub unchanged_books : {A : Type 0} (m : Action A) → Moves Reads m → Moves SameBooks m
unchanged_books m h s = (ap (λ t. t.invoices) (h s), ap (λ t. t.ledger_entries) (h s))

pub or_raise_keeps : {A : Type 0} (o : Option A) (x : Error) → Moves SameBooks (or_raise o x)
or_raise_keeps o x = unchanged_books (or_raise o x) (or_raise-Reads o x)

pub create_charge_keeps : (row : Charge) → Moves SameBooks (create_charge_with_idempotency row)
create_charge_keeps row s =
    elim (Option-cases
      (find (λ c. same_charge_key c.idempotency_key row.idempotency_key) s.charges)) [
        | inl new ↦ rw (new, create_charge_with_idempotency) (refl, refl)
        | inr (old, found) ↦ rw (found, create_charge_with_idempotency) (refl, refl)
      ]
