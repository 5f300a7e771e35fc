-- ===== src/Store/Logged.antt =====
-- The rows of src/database/schema/webhook-events.ts, less the payload, the type of the event and the
-- columns that are only shown.
use edge_billing_service.Base.{ℕ}
use edge_billing_service.Store.Rows.{GatewayProvider}

pub data WebhookStatus : Type 0 where
  received ignored succeeded failed : WebhookStatus

pub record WebhookLog : Type 0 where
  pub id : ℕ
  pub event_id : ℕ
  pub provider : GatewayProvider
  pub status : WebhookStatus
