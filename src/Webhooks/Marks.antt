-- ===== src/Webhooks/Marks.antt =====
-- The mark of a processed event stays, through every call of a webhook.
use Prim.Native.String.{String}
use edge_billing_service.Base.{
  ℕ, Bool, true, false, ◌&&◌, ◌==◌, ◌===◌, Option, none, some, List, [], ◌∷◌, any, insert, find,
  ◌≡◌, refl, sym, ◌∙◌, subst, inl, inr, Bool-cases, Option-cases, arith, if◌then◌else◌,
}
use edge_billing_service.StateMachine.Status.{
  InvoiceStatus, ChargeStatus, draft, finalized, paid, void, invoice_eq,
}
use edge_billing_service.Store.Rows.{
  Charge, Invoice, Customer, PaymentMethod, PaymentMethodType, GatewayProvider, provider_eq,
  LedgerText, ReferenceType, accounts_receivable, cash,
}
use edge_billing_service.Store.Logged.{WebhookStatus}
use edge_billing_service.Store.Action.{
  Store, Action, Event, ◌>>◌, ◌>>=◌, raise, ok, err, row_expected,
}
use edge_billing_service.Store.Moves.{Moves, bind-Moves, catch-Moves}
use edge_billing_service.Outbound.{World, publish}
use edge_billing_service.Ledger.Service.{record_payment_succeeded}
use edge_billing_service.Ledger.Posting.{posted, create_entry-Posts_any}
use edge_billing_service.Charges.Settling.{paid_row}
use edge_billing_service.Charges.Service.{settle_charge, Payment}
use edge_billing_service.Webhooks.Service.{
  WebhookEvent, webhook_payment_succeeded, webhook_payment_failed, webhook_mandate_updated,
  webhook_refund_completed, payment_of, settle_by_webhook, settle_pending, settle_invoice,
  settle_matched, handle_payment_succeeded, fail_matched, handle_payment_failed,
  announce_deactivation, detach_method, detach_by_type, detach_found, handle_mandate_updated,
  route_event, route_normalized, process_if_new, process_webhook_event, is_processed,
  mark_processed, has_intent, log_event, set_log,
}

-- The table of processed events is the same.
abbrev SameMarks : Store → Store → Type 0
SameMarks s t = t.processed_events ≡ s.processed_events

SameMarks-trans : (s t u : Store) → SameMarks s t → SameMarks t u → SameMarks s u
SameMarks-trans s t u h k = k ∙ h

bind_same :
    {A B : Type 0} (m : Action A) (f : A → Action B)
    → Moves SameMarks m
    → ((a : A) → Moves SameMarks (f a))
    → Moves SameMarks (m >>= f)
bind_same = bind-Moves SameMarks SameMarks SameMarks (λ s t h. h) SameMarks-trans

pay_from_same :
    (p : Payment) (f : Charge → Charge) (correlation : ℕ) (status : InvoiceStatus) (s : Store)
    → p.invoice_status ≡ status
    → SameMarks s (settle_charge p f correlation s).1
unfolding settle_charge record_payment_succeeded
pay_from_same p f correlation finalized s h =
    elim (Option-cases (find (λ i. i.id == p.invoice_id) s.invoices)) [
      | inl missing ↦
          let whole : settle_charge p f correlation s ≡ (err row_expected, s) =
            ground (arith, missing, h) in
          rw whole refl
      | inr (row, found) ↦
          elim (create_entry-Posts_any cash accounts_receivable p.amount_cents p.currency
            ReferenceType.payment p.charge_id LedgerText.payment_succeeded correlation
            (paid_row p f s)) [
              | inl (e, amount, run) ↦
                  let whole : settle_charge p f correlation s ≡ (ok tt, posted (paid_row p f s) e) =
                    ground (arith, run, h, found) in
                  rw whole refl
              | inr (x, run) ↦
                  let whole : settle_charge p f correlation s ≡ (err x, s) =
                    ground (arith, run, h, found) in
                  rw whole refl
            ]
    ]
pay_from_same p f correlation draft s h = rw h refl
pay_from_same p f correlation paid s h = rw h refl
pay_from_same p f correlation void s h = rw h refl

module _ (world : World) where
  publish_same : (e : Event) → Moves SameMarks (publish world e)
  publish_same e s = elim (Bool-cases (world.delivers e)) [
    | inl delivered ↦ rw delivered refl
    | inr lost ↦ rw lost refl
  ]

  settle_by_webhook_same :
      (correlation : ℕ) (charge : Charge) (inv : Invoice)
      → Moves SameMarks (settle_by_webhook world correlation charge inv)
  unfolding settle_by_webhook
  settle_by_webhook_same correlation charge inv =
      let p = payment_of charge inv in
      let mark : Charge → Charge = λ c. record c { status = ChargeStatus.succeeded } in
      let first : Event = Event.payment_succeeded inv.id inv.total_amount_cents in
      let second : Event = Event.invoice_paid inv.id inv.total_amount_cents in
      bind_same (settle_charge p mark correlation)
        (λ _. publish world first >> publish world second)
        (λ s. pay_from_same p mark correlation p.invoice_status s refl)
        (λ _.
          bind_same (publish world first) (λ _. publish world second) (publish_same first)
            (λ _. publish_same second))

  settle_pending_same :
      (correlation : ℕ) (charge : Charge) (inv : Invoice) (i : InvoiceStatus) (c : ChargeStatus)
      → Moves SameMarks (settle_pending world correlation charge inv i c)
  unfolding settle_pending
  settle_pending_same correlation charge inv finalized ChargeStatus.pending =
      settle_by_webhook_same correlation charge inv
  settle_pending_same correlation charge inv finalized ChargeStatus.failed =
      settle_by_webhook_same correlation charge inv
  settle_pending_same correlation charge inv finalized ChargeStatus.succeeded = λ s. refl
  settle_pending_same correlation charge inv paid c = λ s. refl
  settle_pending_same correlation charge inv draft c = λ s. refl
  settle_pending_same correlation charge inv void c = λ s. refl

  settle_invoice_same :
      (correlation : ℕ) (charge : Charge) (o : Option Invoice)
      → Moves SameMarks (settle_invoice world correlation charge o)
  settle_invoice_same correlation charge none = λ s. refl
  settle_invoice_same correlation charge (some inv) =
      settle_pending_same correlation charge inv inv.status charge.status

  settle_matched_same :
      (correlation : ℕ) (o : Option Charge) → Moves SameMarks (settle_matched world correlation o)
  settle_matched_same correlation none = λ s. refl
  settle_matched_same correlation (some charge) = λ s.
      settle_invoice_same correlation charge (find (λ i. i.id == charge.invoice_id) s.invoices) s

  fail_matched_same :
      (reason : Option String) (charge : Option Charge)
      → Moves SameMarks (fail_matched world reason charge)
  fail_matched_same reason none = λ s. refl
  fail_matched_same reason (some charge) = λ s. publish_same _ _

  announce_same :
      (id : ℕ) (c : Option Customer) → Moves SameMarks (announce_deactivation world id c)
  announce_same id none = λ s. refl
  announce_same id (some c) = publish_same (Event.mandate_deactivated id)

  detach_method_same : (pm : PaymentMethod) → Moves SameMarks (detach_method world pm)
  unfolding detach_method
  detach_method_same pm s = announce_same pm.id (find (λ c. c.id == pm.customer_id) s.customers) _

  detach_by_type_same :
      (pm : PaymentMethod) (t : PaymentMethodType) (is_active : Bool)
      → Moves SameMarks (detach_by_type world pm t is_active)
  detach_by_type_same pm PaymentMethodType.card is_active = λ s. refl
  detach_by_type_same pm PaymentMethodType.bank_transfer is_active = λ s. refl
  detach_by_type_same pm PaymentMethodType.bank_account false = λ s. refl
  detach_by_type_same pm PaymentMethodType.bank_account true = detach_method_same pm

  detach_found_same : (o : Option PaymentMethod) → Moves SameMarks (detach_found world o)
  detach_found_same none = λ s. refl
  detach_found_same (some pm) = detach_by_type_same pm pm.type pm.is_active

  mandate_same :
      (inactive : Bool) (method : Option ℕ)
      → Moves SameMarks (handle_mandate_updated world inactive method)
  unfolding handle_mandate_updated
  mandate_same false method = λ s. refl
  mandate_same true none = λ s. refl
  mandate_same true (some m) =
      λ s. detach_found_same (find (λ pm. pm.gateway_method_id == m) s.payment_methods) s

  route_event_same :
      (correlation : ℕ) (e : WebhookEvent) → Moves SameMarks (route_event world correlation e)
  unfolding route_event handle_payment_succeeded handle_payment_failed
  route_event_same correlation (webhook_payment_succeeded intent) = λ s.
      settle_matched_same correlation (find (λ c. has_intent intent c.payment_intent_id) s.charges)
        s
  route_event_same correlation (webhook_payment_failed intent reason) =
      λ s. fail_matched_same reason (find (λ c. has_intent intent c.payment_intent_id) s.charges) s
  route_event_same correlation (webhook_mandate_updated inactive method) =
      mandate_same inactive method
  route_event_same correlation webhook_refund_completed = λ s. refl

  route_normalized_same :
      (log_id correlation : ℕ) (o : Option WebhookEvent)
      → Moves SameMarks (route_normalized world log_id correlation o)
  route_normalized_same log_id correlation none = λ s. refl
  route_normalized_same log_id correlation (some e) =
      catch-Moves SameMarks SameMarks SameMarks (λ s t h. h) SameMarks-trans
        (route_event world correlation e >> set_log log_id WebhookStatus.succeeded)
        (λ x. set_log log_id WebhookStatus.failed >> raise x)
        (bind_same (route_event world correlation e) (λ _. set_log log_id WebhookStatus.succeeded)
          (route_event_same correlation e) (λ _ s. refl))
        (λ x s. refl)

  -- Marks that are set stay set.
  module _ (id : ℕ) (provider : GatewayProvider) where
    abbrev KeepsMark : Store → Store → Type 0
    KeepsMark s t = is_processed id provider s ≡ true → is_processed id provider t ≡ true

    same-KeepsMark : (s t : Store) → SameMarks s t → KeepsMark s t
    same-KeepsMark s t e h =
        subst (λ xs. any (λ x. (x.0 == id) && (x.1 === provider)) xs ≡ true) (sym e) h

    any-insert_other :
        (x : ℕ × GatewayProvider) (xs : List (ℕ × GatewayProvider))
        → any (λ y. (y.0 == id) && (y.1 === provider)) xs ≡ true
        → any (λ y. (y.0 == id) && (y.1 === provider)) (insert x xs) ≡ true
    any-insert_other x [] h = cc
    any-insert_other x (y ∷ ys) h = elim (Bool-cases ((y.0 == id) && (y.1 === provider))) [
      | inl here ↦ rw here refl
      | inr other ↦ rw other (
          any-insert_other x ys (
            subst
              (λ c. (if c then true else any (λ y. (y.0 == id) && (y.1 === provider)) ys) ≡ true)
              other h))
    ]

    mark-KeepsMark : (other : ℕ) (by : GatewayProvider) → Moves KeepsMark (mark_processed other by)
    mark-KeepsMark other by s h = elim (Bool-cases (is_processed other by s)) [
      | inl old ↦ rw old h
      | inr new ↦ rw new (any-insert_other (other, by) s.processed_events h)
    ]

    process_if_new-KeepsMark :
        (other : ℕ) (by : GatewayProvider) (o : Option WebhookEvent) (correlation log_id : ℕ)
        (old : Bool)
        → Moves KeepsMark (process_if_new world other by o correlation log_id old)
    process_if_new-KeepsMark other by o correlation log_id true = λ s h. h
    process_if_new-KeepsMark other by o correlation log_id false =
        bind-Moves SameMarks KeepsMark KeepsMark same-KeepsMark
          (λ s t u h k m. k (same-KeepsMark s t h m)) (route_normalized world log_id correlation o)
          (λ _. mark_processed other by) (route_normalized_same log_id correlation o)
          (λ _. mark-KeepsMark other by)

    -- An event that is processed is so after any call of a webhook.
    pub process_webhook-KeepsMark :
        (other : ℕ) (by : GatewayProvider) (o : Option WebhookEvent) (correlation : ℕ) (s : Store)
        → is_processed id provider s ≡ true
        → is_processed id provider (process_webhook_event world other by o correlation s).1 ≡ true
    unfolding process_webhook_event
    process_webhook-KeepsMark other by o correlation s h =
        process_if_new-KeepsMark other by o correlation s.next_id (is_processed other by s)
          (log_event other by s).1 h
