-- ===== src/Store/Reconciled.antt =====
-- The rows of src/database/schema/reconciliation-runs.ts and
-- src/database/schema/reconciliation-discrepancies.ts, less the columns of the resolution of a
-- dispute, which the administration writes.
use Prim.Native.String.{String}
use edge_billing_service.Base.{ℕ, ℤ, Option}
use edge_billing_service.Calendar.Date.{Date}

pub data RunStatus : Type 0 where
  balanced discrepancy_found failed : RunStatus

pub data DiscrepancyType : Type 0 where
  missing_internal missing_stripe amount_mismatch : DiscrepancyType

pub record Discrepancy : Type 0 where
  pub type : DiscrepancyType
  pub internal_reference_id : Option ℕ
  pub stripe_transaction_id : Option ℕ
  pub expected_amount_cents : ℤ
  pub actual_amount_cents : ℤ
  pub difference_cents : ℤ

pub record RunRow : Type 0 where
  pub id : ℕ
  pub period_start : Date
  pub period_end : Date
  pub status : RunStatus
  pub records_compared : ℕ
  pub total_internal_amount_cents : ℤ
  pub total_stripe_amount_cents : ℤ
  pub error_reason : Option String
  pub correlation_id : ℕ

pub record DiscrepancyRow : Type 0 where
  pub id : ℕ
  pub run_id : ℕ
  pub discrepancy : Discrepancy
