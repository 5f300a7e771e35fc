-- ===== src/Outbound.antt =====
-- Messages to the monolith: `publish` of src/integration/sqs/sqs-producer.service.ts, and the dual
-- writes of src/migration/dual-write.service.ts with the flags of
-- src/feature-flags/feature-flags.service.ts.
use Prim.Native.String.{String}
use edge_billing_service.Base.{
  ℕ, ℤ, Bool, false, ◌&&◌, Option, none, some, [], ◌∷◌, ◌++◌, ◌==◌, ◌===◌, find, insert,
  if◌then◌else◌,
}
use edge_billing_service.StateMachine.Status.{ChargeStatus}
use edge_billing_service.Store.Rows.{
  FlagName, billing_service_enabled, dual_write_enabled, flag_eq, ChargeKey,
}
use edge_billing_service.Store.Action.{
  Store, Action, Event, Error, Result, ok, err, raise, modify, catch, undelivered,
}

-- A request to charge: the fields of `CreateChargeInput` that the gateways act on.
pub record ChargeRequest : Type 0 where
  pub amount : ℤ
  pub currency : String
  pub gateway_customer : ℕ
  pub gateway_method : ℕ
  pub idempotency_key : ChargeKey

-- The gateway's `ChargeResult`.
pub record ChargeAnswer : Type 0 where
  pub id : ℕ
  pub status : ChargeStatus
  pub failure_message : Option String

-- What the services call outside the repository: the gateway's answer to a charge, or an error;
-- whether the queue takes a message; and the text of an error.
pub record World : Type 0 where
  pub create_charge : ChargeRequest → Result ChargeAnswer
  pub delivers : Event → Bool
  pub message : Error → String

-- `featureFlagService.isEnabled`
abbrev pub is_enabled : ℕ → FlagName → Store → Bool
is_enabled customer_id name s =
    elim (find (λ f. (f.customer_id == customer_id) && (f.name === name)) s.feature_flags) [
      | none ↦ false
      | some f ↦ f.enabled
    ]

-- `getDualWriteMetadata`: whether there is metadata.
abbrev pub should_dual_write : ℕ → Store → Bool
should_dual_write customer_id s =
    is_enabled customer_id billing_service_enabled s && is_enabled customer_id dual_write_enabled s

-- `logDualWriteFailure`
abbrev pub log_dual_write_failure : ℕ → Event → Action (Unit {0})
log_dual_write_failure customer_id e =
    modify (λ s. record s { failed_dual_writes = insert (customer_id, e) s.failed_dual_writes })

module _ (world : World) where
  -- `sqsProducerService.publish`
  abbrev pub publish : Event → Action (Unit {0})
  publish e s =
      if world.delivers e
      then (ok tt, record s { outbox = s.outbox ++ e ∷ [] })
      else (err (undelivered e), s)

  -- A publication whose failure is logged for a customer with dual writes, and raised for others.
  abbrev pub publish_or_log : ℕ → Bool → Event → Action (Unit {0})
  publish_or_log customer_id dual e =
      catch (publish e) (λ x. if dual then log_dual_write_failure customer_id e else raise x)
