-- ===== src/Webhooks/Books.antt =====
-- What webhooks do to the books, and that an event is processed once.
use Prim.Native.String.{String}
use edge_billing_service.Base.{
  ℕ, Bool, true, false, ◌==◌, Option, none, some, find, ◌≡◌, refl, sym, subst, inl, inr,
  Option-cases, Bool-cases, ==→eq, find-holds,
}
use edge_billing_service.StateMachine.Status.{
  InvoiceStatus, ChargeStatus, draft, finalized, paid, void,
}
use edge_billing_service.Store.Rows.{
  Charge, Invoice, Customer, PaymentMethod, PaymentMethodType, GatewayProvider, provider_eq,
}
use edge_billing_service.Store.Action.{Store, Action, Event, ◌>>◌, ◌>>=◌, raise, gets}
use edge_billing_service.Store.Moves.{Moves, bind-Moves, catch-Moves}
use edge_billing_service.Store.Logged.{WebhookStatus}
use edge_billing_service.Outbound.{World, publish}
use edge_billing_service.Charges.Books.{SameBooks, bind_keeps, publish_keeps}
use edge_billing_service.Charges.Settling.{Settles, Settles-trans, settle_charge-Settles}
use edge_billing_service.Charges.Service.{settle_charge}
use edge_billing_service.Charges.Payment.{PaysOrKeeps, settled_invoice}
use edge_billing_service.Charges.Composing.{pays_then_keeps, keeps_then_pays}
use edge_billing_service.Webhooks.Service.{
  WebhookEvent, webhook_payment_succeeded, webhook_payment_failed, webhook_mandate_updated,
  webhook_refund_completed, payment_of, settle_by_webhook, settle_pending, settle_invoice,
  settle_matched, handle_payment_succeeded, fail_matched, handle_payment_failed,
  announce_deactivation, detach_method, detach_by_type, detach_found, handle_mandate_updated,
  route_event, route_normalized, process_if_new, process_webhook_event, is_processed,
  mark_processed, has_intent, log_event, set_log,
}

-- The books are as they were, or one invoice is paid in them.
abbrev pub Receives : Store → Store → Type 0
Receives s t = (id : ℕ) × PaysOrKeeps id s t

keeps_Receives : (s t : Store) → SameBooks s t → Receives s t
keeps_Receives s t h = (0, inl h)

same_Receives : {A : Type 0} (m : Action A) → Moves SameBooks m → Moves Receives m
same_Receives m h s = keeps_Receives s (m s).1 (h s)

then_same : (s t u : Store) → Receives s t → SameBooks t u → Receives s u
then_same s t u (id, h) k = (id, pays_then_keeps id s t u h k)

same_then : (s t u : Store) → SameBooks s t → Receives t u → Receives s u
same_then s t u h (id, k) = (id, keeps_then_pays id s t u h k)

mark_keeps : (id : ℕ) (provider : GatewayProvider) → Moves SameBooks (mark_processed id provider)
mark_keeps id provider s = elim (Bool-cases (is_processed id provider s)) [
  | inl old ↦ rw old (refl, refl)
  | inr new ↦ rw new (refl, refl)
]

module _ (world : World) where
  settle_by_webhook-Settles :
      (correlation : ℕ) (charge : Charge) (inv : Invoice)
      → Moves
          (Settles inv.id inv.status inv.total_amount_cents)
          (settle_by_webhook world correlation charge inv)
  unfolding settle_by_webhook
  settle_by_webhook-Settles correlation charge inv =
      let R = Settles inv.id inv.status inv.total_amount_cents in
      let mark : Charge → Charge = λ c. record c { status = ChargeStatus.succeeded } in
      let first : Event = Event.payment_succeeded inv.id inv.total_amount_cents in
      let second : Event = Event.invoice_paid inv.id inv.total_amount_cents in
      bind-Moves R SameBooks R (λ s t h. h) (Settles-trans inv.id inv.status inv.total_amount_cents)
        (settle_charge (payment_of charge inv) mark correlation)
        (λ _. publish world first >> publish world second)
        (settle_charge-Settles (payment_of charge inv) mark correlation)
        (λ _.
          bind_keeps (publish world first) (λ _. publish world second) (publish_keeps world first)
            (λ _. publish_keeps world second))

  settle_pending-Settles :
      (correlation : ℕ) (charge : Charge) (inv : Invoice) (i : InvoiceStatus) (c : ChargeStatus)
      → Moves
          (Settles inv.id inv.status inv.total_amount_cents)
          (settle_pending world correlation charge inv i c)
  unfolding settle_pending
  settle_pending-Settles correlation charge inv finalized ChargeStatus.pending =
      settle_by_webhook-Settles correlation charge inv
  settle_pending-Settles correlation charge inv finalized ChargeStatus.failed =
      settle_by_webhook-Settles correlation charge inv
  settle_pending-Settles correlation charge inv finalized ChargeStatus.succeeded =
      λ s. inl (refl, refl)
  settle_pending-Settles correlation charge inv paid c = λ s. inl (refl, refl)
  settle_pending-Settles correlation charge inv draft c = λ s. inl (refl, refl)
  settle_pending-Settles correlation charge inv void c = λ s. inl (refl, refl)

  settle_matched-Receives :
      (correlation : ℕ) (charge : Option Charge)
      → Moves Receives (settle_matched world correlation charge)
  settle_matched-Receives correlation none = λ s. keeps_Receives s s (refl, refl)
  settle_matched-Receives correlation (some charge) = λ s.
      elim (Option-cases (find (λ i. i.id == charge.invoice_id) s.invoices)) [
        | inl missing ↦ rw missing (keeps_Receives s s (refl, refl))
        | inr (inv, found) ↦
            let settle = settle_invoice world correlation charge in
            subst (λ o. Receives s (settle o s).1) (sym found)
              (
                inv.id,
                settled_invoice inv.id inv s (settle (some inv) s).1
                    (subst (λ n. find (λ i. i.id == n) s.invoices ≡ some inv)
                      (sym (
                        ==→eq inv.id charge.invoice_id
                          (find-holds (λ i. i.id == charge.invoice_id) s.invoices {x = inv} found)))
                      found)
                    (settle_pending-Settles correlation charge inv inv.status charge.status s),
              )
      ]

  fail_matched_keeps :
      (reason : Option String) (charge : Option Charge)
      → Moves SameBooks (fail_matched world reason charge)
  fail_matched_keeps reason none = λ s. (refl, refl)
  fail_matched_keeps reason (some charge) = λ s. publish_keeps world _ _

  announce_keeps :
      (id : ℕ) (c : Option Customer) → Moves SameBooks (announce_deactivation world id c)
  announce_keeps id none = λ s. (refl, refl)
  announce_keeps id (some c) = publish_keeps world (Event.mandate_deactivated id)

  detach_method_keeps : (pm : PaymentMethod) → Moves SameBooks (detach_method world pm)
  unfolding detach_method
  detach_method_keeps pm s = announce_keeps pm.id (find (λ c. c.id == pm.customer_id) s.customers) _

  detach_by_type_keeps :
      (pm : PaymentMethod) (t : PaymentMethodType) (is_active : Bool)
      → Moves SameBooks (detach_by_type world pm t is_active)
  detach_by_type_keeps pm PaymentMethodType.card is_active = λ s. (refl, refl)
  detach_by_type_keeps pm PaymentMethodType.bank_transfer is_active = λ s. (refl, refl)
  detach_by_type_keeps pm PaymentMethodType.bank_account false = λ s. (refl, refl)
  detach_by_type_keeps pm PaymentMethodType.bank_account true = detach_method_keeps pm

  detach_found_keeps : (o : Option PaymentMethod) → Moves SameBooks (detach_found world o)
  detach_found_keeps none = λ s. (refl, refl)
  detach_found_keeps (some pm) = detach_by_type_keeps pm pm.type pm.is_active

  mandate_keeps :
      (inactive : Bool) (method : Option ℕ)
      → Moves SameBooks (handle_mandate_updated world inactive method)
  unfolding handle_mandate_updated
  mandate_keeps false method = λ s. (refl, refl)
  mandate_keeps true none = λ s. (refl, refl)
  mandate_keeps true (some m) =
      λ s. detach_found_keeps (find (λ pm. pm.gateway_method_id == m) s.payment_methods) s

  route_event-Receives :
      (correlation : ℕ) (e : WebhookEvent) → Moves Receives (route_event world correlation e)
  unfolding route_event handle_payment_succeeded handle_payment_failed
  route_event-Receives correlation (webhook_payment_succeeded intent) = λ s.
      settle_matched-Receives correlation
        (find (λ c. has_intent intent c.payment_intent_id) s.charges) s
  route_event-Receives correlation (webhook_payment_failed intent reason) = λ s.
      let charge = find (λ c. has_intent intent c.payment_intent_id) s.charges in
      same_Receives (fail_matched world reason charge) (fail_matched_keeps reason charge) s
  route_event-Receives correlation (webhook_mandate_updated inactive method) =
      same_Receives (handle_mandate_updated world inactive method) (mandate_keeps inactive method)
  route_event-Receives correlation webhook_refund_completed = λ s. keeps_Receives s s (refl, refl)

  route_normalized-Receives :
      (log_id correlation : ℕ) (o : Option WebhookEvent)
      → Moves Receives (route_normalized world log_id correlation o)
  route_normalized-Receives log_id correlation none = λ s. (0, inl (refl, refl))
  route_normalized-Receives log_id correlation (some e) =
      catch-Moves Receives SameBooks Receives (λ s t h. h) then_same
        (route_event world correlation e >> set_log log_id WebhookStatus.succeeded)
        (λ x. set_log log_id WebhookStatus.failed >> raise x)
        (bind-Moves Receives SameBooks Receives (λ s t h. h) then_same
          (route_event world correlation e) (λ _. set_log log_id WebhookStatus.succeeded)
          (route_event-Receives correlation e) (λ _ s. (refl, refl)))
        (λ x s. (refl, refl))

  process_if_new-Receives :
      (id : ℕ) (provider : GatewayProvider) (o : Option WebhookEvent) (correlation log_id : ℕ)
      (old : Bool)
      → Moves Receives (process_if_new world id provider o correlation log_id old)
  process_if_new-Receives id provider o correlation log_id true = λ s. (0, inl (refl, refl))
  process_if_new-Receives id provider o correlation log_id false =
      bind-Moves Receives SameBooks Receives (λ s t h. h) then_same
        (route_normalized world log_id correlation o) (λ _. mark_processed id provider)
        (route_normalized-Receives log_id correlation o) (λ _. mark_keeps id provider)

  -- However the processing of a webhook ends, and whatever the queue answers: either no invoice and no
  -- ledger entry changed, or one invoice was finalized and is now paid and there is one new ledger
  -- entry, of its total.
  pub process_webhook-Receives :
      (id : ℕ) (provider : GatewayProvider) (o : Option WebhookEvent) (correlation : ℕ) (s : Store)
      → Receives s (process_webhook_event world id provider o correlation s).1
  unfolding process_webhook_event
  process_webhook-Receives id provider o correlation s =
      bind-Moves SameBooks Receives Receives keeps_Receives same_then (log_event id provider)
        (λ log_id.
          gets (is_processed id provider) >>= process_if_new world id provider o correlation log_id)
        (λ s. (refl, refl))
        (λ log_id t.
          process_if_new-Receives id provider o correlation log_id (is_processed id provider t) t)
        s
