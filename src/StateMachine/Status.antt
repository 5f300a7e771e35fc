-- ===== src/StateMachine/Status.antt =====
-- The statuses of invoices, subscriptions, refunds, charges and dunning attempts, with their
-- equality tests.
use edge_billing_service.Base.{ℕ, ◌≡◌, ◌↔◌, true, arith, ◌==◌}
use edge_billing_service.Base.Eq.{Eq}

pub data InvoiceStatus : Type 0 where
  draft finalized paid void : InvoiceStatus

pub data SubscriptionStatus : Type 0 where
  pending active paused canceled past_due : SubscriptionStatus

pub data RefundStatus : Type 0 where
  pending processing succeeded failed : RefundStatus

pub data ChargeStatus : Type 0 where
  pending succeeded failed : ChargeStatus

pub data AttemptStatus : Type 0 where
  scheduled succeeded failed skipped : AttemptStatus

abbrev invoice_code : InvoiceStatus → ℕ
invoice_code draft = 0
invoice_code finalized = 1
invoice_code paid = 2
invoice_code void = 3

abbrev subscription_code : SubscriptionStatus → ℕ
subscription_code SubscriptionStatus.pending = 0
subscription_code active = 1
subscription_code paused = 2
subscription_code canceled = 3
subscription_code past_due = 4

abbrev refund_code : RefundStatus → ℕ
refund_code RefundStatus.pending = 0
refund_code processing = 1
refund_code RefundStatus.succeeded = 2
refund_code RefundStatus.failed = 3

abbrev charge_code : ChargeStatus → ℕ
charge_code ChargeStatus.pending = 0
charge_code ChargeStatus.succeeded = 1
charge_code ChargeStatus.failed = 2

abbrev attempt_code : AttemptStatus → ℕ
attempt_code scheduled = 0
attempt_code AttemptStatus.succeeded = 1
attempt_code AttemptStatus.failed = 2
attempt_code skipped = 3

pub same_invoice : (a b : InvoiceStatus) → ((invoice_code a == invoice_code b) ≡ true) ↔ (a ≡ b)
same_invoice a b = ground arith

pub same_subscription :
    (a b : SubscriptionStatus) → ((subscription_code a == subscription_code b) ≡ true) ↔ (a ≡ b)
same_subscription a b = ground arith

pub same_refund : (a b : RefundStatus) → ((refund_code a == refund_code b) ≡ true) ↔ (a ≡ b)
same_refund a b = ground arith

pub same_charge : (a b : ChargeStatus) → ((charge_code a == charge_code b) ≡ true) ↔ (a ≡ b)
same_charge a b = ground arith

pub same_attempt : (a b : AttemptStatus) → ((attempt_code a == attempt_code b) ≡ true) ↔ (a ≡ b)
same_attempt a b = ground arith

instance abbrev pub invoice_eq : Eq InvoiceStatus
invoice_eq = record { same = λ a b. invoice_code a == invoice_code b; same_iff = same_invoice }

instance abbrev pub subscription_eq : Eq SubscriptionStatus
subscription_eq = record {
  same = λ a b. subscription_code a == subscription_code b;
  same_iff = same_subscription;
}

instance abbrev pub refund_eq : Eq RefundStatus
refund_eq = record { same = λ a b. refund_code a == refund_code b; same_iff = same_refund }

instance abbrev pub charge_eq : Eq ChargeStatus
charge_eq = record { same = λ a b. charge_code a == charge_code b; same_iff = same_charge }

instance abbrev pub attempt_eq : Eq AttemptStatus
attempt_eq = record { same = λ a b. attempt_code a == attempt_code b; same_iff = same_attempt }
