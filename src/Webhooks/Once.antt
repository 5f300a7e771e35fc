-- ===== src/Webhooks/Once.antt =====
-- An event is processed once.
use edge_billing_service.Base.{ℕ, ◌+◌, Option, List, [], ◌∷◌, length, ◌≡◌}
use edge_billing_service.Store.Rows.{GatewayProvider, provider_eq}
use edge_billing_service.Store.Action.{Store, Result, ok}
use edge_billing_service.Store.Logged.{WebhookLog}
use edge_billing_service.Store.Ensures.{Ensures}
use edge_billing_service.Outbound.{World}
use edge_billing_service.Webhooks.Service.{WebhookEvent, process_webhook_event}

-- A call of a webhook.
pub record WebhookCall : Type 0 where
  pub id : ℕ
  pub provider : GatewayProvider
  pub normalized : Option WebhookEvent
  pub correlation : ℕ

-- The call returned and has written the log only, which has one row more.
abbrev pub Ignores : Store → Result (Unit {0}) × Store → Type 0
Ignores s r =
    (log : List WebhookLog) × (r
      ≡ (ok tt, record s { next_id = s.next_id + 1; webhook_events = log }))
    × (length log ≡ length s.webhook_events + 1)

module _ (world : World) where
  abbrev pub after_call : WebhookCall → Store → Store
  after_call c s = (process_webhook_event world c.id c.provider c.normalized c.correlation s).1

  abbrev pub after_calls : List WebhookCall → Store → Store
  after_calls [] s = s
  after_calls (c ∷ cs) s = after_calls cs (after_call c s)
