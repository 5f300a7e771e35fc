-- ===== src/Webhooks/Service.antt =====
-- `processWebhookEvent` and the handlers of src/webhooks/webhook-processing.service.ts, with the
-- table of processed events of src/integration/sqs/idempotency.service.ts and
-- src/integration/sqs/processed-events.repository.ts, and the log of
-- src/webhooks/webhook-events.repository.ts, whose writes do not fail here. The normalised event is what
-- the gateway's adapter or the fallback made of the payload.
use Prim.Native.String.{String}
use edge_billing_service.Base.{
  ℕ, ℤ, Bool, true, false, ◌&&◌, Option, none, some, ◌==◌, ◌===◌, any, find, insert, update,
  if◌then◌else◌,
}
use edge_billing_service.StateMachine.Status.{
  ChargeStatus, InvoiceStatus, draft, finalized, paid, void,
}
use edge_billing_service.Store.Rows.{
  Charge, Invoice, Customer, PaymentMethod, PaymentMethodType, GatewayProvider, provider_eq,
}
use edge_billing_service.Store.Action.{
  Store, Action, pure, gets, modify, payment_succeeded, payment_failed, invoice_paid,
  mandate_deactivated, ◌>>=◌, ◌>>◌, catch, raise, generate_id,
}
use edge_billing_service.Store.Logged.{WebhookStatus}
use edge_billing_service.Outbound.{World, publish}
use edge_billing_service.Credits.Service.{find_customer}
use edge_billing_service.Invoices.Repository.{find_invoice}
use edge_billing_service.Charges.Service.{Payment, settle_charge, update_charge}

-- `NormalizedWebhookEvent`: the fields that the handlers of its type read.
pub data WebhookEvent : Type 0 where
  webhook_payment_succeeded : ℕ → WebhookEvent
  webhook_payment_failed : ℕ → Option String → WebhookEvent
  webhook_mandate_updated : Bool → Option ℕ → WebhookEvent
  webhook_refund_completed : WebhookEvent

abbrev pub has_intent : ℕ → Option ℕ → Bool
has_intent id none = false
has_intent id (some intent) = intent == id

-- `findByStripePaymentIntentId`
abbrev pub find_charge_by_intent : ℕ → Action (Option Charge)
find_charge_by_intent id = gets (λ s. find (λ c. has_intent id c.payment_intent_id) s.charges)

abbrev pub payment_of : Charge → Invoice → Payment
payment_of charge inv = record {
  invoice_id = inv.id;
  customer_id = inv.customer_id;
  invoice_status = inv.status;
  charge_id = charge.id;
  amount_cents = inv.total_amount_cents;
  currency = inv.currency;
}

-- `event.metadata.failureMessage ?? "Payment failed (no error details)"`
abbrev pub webhook_reason : Option String → String
webhook_reason none = "Payment failed (no error details)"
webhook_reason (some reason) = reason

abbrev pub is_processed : ℕ → GatewayProvider → Store → Bool
is_processed id provider s = any (λ e. (e.0 == id) && (e.1 === provider)) s.processed_events

-- `markProcessed`: a row that is there already is no error.
abbrev pub mark_processed : ℕ → GatewayProvider → Action (Unit {0})
mark_processed id provider = modify (λ s.
    if is_processed id provider s
    then s
    else record s { processed_events = insert (id, provider) s.processed_events })

-- `logEvent`: the identifier of the new row.
abbrev pub log_event : ℕ → GatewayProvider → Action ℕ
log_event event_id provider = do
  id ← generate_id
  modify (λ s. record s {
    webhook_events =
        insert
          (record {
            id = id;
            event_id = event_id;
            provider = provider;
            status = WebhookStatus.received;
          })
          s.webhook_events;
  })
  pure id

-- `updateStatus` of the log.
abbrev pub set_log : ℕ → WebhookStatus → Action (Unit {0})
set_log id status = modify (λ s. record s {
  webhook_events = update (λ r. r.id == id) (λ r. record r { status = status }) s.webhook_events;
})

module _ (world : World) where
  -- The writes of a success and its messages.
  unfoldable pub settle_by_webhook : ℕ → Charge → Invoice → Action (Unit {0})
  unfolding settle_charge
  settle_by_webhook correlation charge inv = do
    settle_charge (payment_of charge inv) (λ c. record c { status = ChargeStatus.succeeded })
        correlation
    publish world (payment_succeeded inv.id inv.total_amount_cents)
    publish world (invoice_paid inv.id inv.total_amount_cents)

  -- The branches on the status of the invoice, then of the charge.
  unfoldable pub settle_pending :
      ℕ → Charge → Invoice → InvoiceStatus → ChargeStatus → Action (Unit {0})
  unfolding settle_by_webhook
  settle_pending correlation charge inv finalized ChargeStatus.pending =
      settle_by_webhook correlation charge inv
  settle_pending correlation charge inv finalized ChargeStatus.failed =
      settle_by_webhook correlation charge inv
  settle_pending correlation charge inv finalized ChargeStatus.succeeded = pure tt
  settle_pending correlation charge inv paid c = pure tt
  settle_pending correlation charge inv draft c = pure tt
  settle_pending correlation charge inv void c = pure tt

  abbrev pub settle_invoice : ℕ → Charge → Option Invoice → Action (Unit {0})
  settle_invoice correlation charge none = pure tt
  settle_invoice correlation charge (some inv) =
      settle_pending correlation charge inv inv.status charge.status

  abbrev pub settle_matched : ℕ → Option Charge → Action (Unit {0})
  settle_matched correlation none = pure tt
  settle_matched correlation (some charge) =
      find_invoice charge.invoice_id >>= settle_invoice correlation charge

  -- `handlePaymentSucceeded`
  unfoldable pub handle_payment_succeeded : ℕ → ℕ → Action (Unit {0})
  unfolding settle_pending
  handle_payment_succeeded correlation intent =
      find_charge_by_intent intent >>= settle_matched correlation

  -- `invoice?.totalAmountCents ?? charge.amountCents`
  abbrev pub failed_amount : Charge → Option Invoice → ℤ
  failed_amount charge none = charge.amount_cents
  failed_amount charge (some inv) = inv.total_amount_cents

  abbrev pub fail_matched : Option String → Option Charge → Action (Unit {0})
  fail_matched reason none = pure tt
  fail_matched reason (some charge) = do
    inv ← find_invoice charge.invoice_id
    update_charge charge.id (λ c. record c {
      status = ChargeStatus.failed;
      failure_reason = some (webhook_reason reason);
    })
    publish world (payment_failed charge.invoice_id (failed_amount charge inv))

  -- `handlePaymentFailed`
  unfoldable pub handle_payment_failed : ℕ → Option String → Action (Unit {0})
  handle_payment_failed intent reason = find_charge_by_intent intent >>= fail_matched reason

  abbrev pub announce_deactivation : ℕ → Option Customer → Action (Unit {0})
  announce_deactivation method_id none = pure tt
  announce_deactivation method_id (some customer) = publish world (mandate_deactivated method_id)

  -- The bank account of a mandate that ended is detached, unless it is already.
  unfoldable pub detach_method : PaymentMethod → Action (Unit {0})
  detach_method pm = do
    modify (λ s. record s {
      payment_methods =
          update (λ m. m.id == pm.id) (λ m. record m { is_active = false }) s.payment_methods;
    })
    customer ← find_customer pm.customer_id
    announce_deactivation pm.id customer

  abbrev pub detach_by_type : PaymentMethod → PaymentMethodType → Bool → Action (Unit {0})
  detach_by_type pm PaymentMethodType.card is_active = pure tt
  detach_by_type pm PaymentMethodType.bank_transfer is_active = pure tt
  detach_by_type pm PaymentMethodType.bank_account false = pure tt
  detach_by_type pm PaymentMethodType.bank_account true = detach_method pm

  abbrev pub detach_found : Option PaymentMethod → Action (Unit {0})
  detach_found none = pure tt
  detach_found (some pm) = detach_by_type pm pm.type pm.is_active

  -- `handleMandateUpdated`: whether the mandate is inactive, and its payment method.
  unfoldable pub handle_mandate_updated : Bool → Option ℕ → Action (Unit {0})
  unfolding detach_method
  handle_mandate_updated false method = pure tt
  handle_mandate_updated true none = pure tt
  handle_mandate_updated true (some gateway_method) =
      gets (λ s. find (λ pm. pm.gateway_method_id == gateway_method) s.payment_methods)
      >>= detach_found

  unfoldable pub route_event : ℕ → WebhookEvent → Action (Unit {0})
  unfolding handle_payment_succeeded handle_payment_failed handle_mandate_updated
  route_event correlation (webhook_payment_succeeded intent) =
      handle_payment_succeeded correlation intent
  route_event correlation (webhook_payment_failed intent reason) =
      handle_payment_failed intent reason
  route_event correlation (webhook_mandate_updated inactive method) =
      handle_mandate_updated inactive method
  route_event correlation webhook_refund_completed = pure tt

  -- The routing, with its outcome in the log; an error is raised again.
  abbrev pub route_logged : ℕ → ℕ → WebhookEvent → Action (Unit {0})
  route_logged log_id correlation e =
      catch (route_event correlation e >> set_log log_id WebhookStatus.succeeded)
        (λ x. set_log log_id WebhookStatus.failed >> raise x)

  abbrev pub route_normalized : ℕ → ℕ → Option WebhookEvent → Action (Unit {0})
  route_normalized log_id correlation none = set_log log_id WebhookStatus.ignored
  route_normalized log_id correlation (some e) = route_logged log_id correlation e

  -- The rest of `processWebhookEvent` for an event that is new, and for one that is not.
  abbrev pub process_if_new :
      ℕ → GatewayProvider → Option WebhookEvent → ℕ → ℕ → Bool → Action (Unit {0})
  process_if_new id provider normalized correlation log_id true =
      set_log log_id WebhookStatus.ignored
  process_if_new id provider normalized correlation log_id false =
      route_normalized log_id correlation normalized >> mark_processed id provider

  -- `processWebhookEvent`
  unfoldable pub process_webhook_event :
      ℕ → GatewayProvider → Option WebhookEvent → ℕ → Action (Unit {0})
  unfolding route_event
  process_webhook_event id provider normalized correlation = do
    log_id ← log_event id provider
    old ← gets (is_processed id provider)
    process_if_new id provider normalized correlation log_id old
