-- ===== src/StateMachine/Tables.antt =====
-- The transition tables: src/invoices/invoice-state-machine.ts,
-- src/subscriptions/subscription-state-machine.ts and src/refunds/refund-state-machine.ts; and the
-- test of src/common/utils/state-machine.util.ts.
use edge_billing_service.Base.{Bool, List, [], ◌∷◌, any, ◌===◌}
use edge_billing_service.Base.Eq.{Eq}
use edge_billing_service.StateMachine.Status.{
  InvoiceStatus, draft, finalized, paid, void, SubscriptionStatus, active, paused, canceled,
  past_due, RefundStatus, processing,
}

-- `AllowedTransitions<T>`
abbrev pub AllowedTransitions : Type 0 → Type 0
AllowedTransitions S = S → List S

abbrev pub invoice_transitions : AllowedTransitions InvoiceStatus
invoice_transitions draft = finalized ∷ []
invoice_transitions finalized = paid ∷ void ∷ []
invoice_transitions paid = []
invoice_transitions void = []

abbrev pub subscription_transitions : AllowedTransitions SubscriptionStatus
subscription_transitions SubscriptionStatus.pending = active ∷ []
subscription_transitions active = paused ∷ canceled ∷ past_due ∷ []
subscription_transitions paused = active ∷ canceled ∷ []
subscription_transitions past_due = active ∷ canceled ∷ []
subscription_transitions canceled = []

abbrev pub refund_transitions : AllowedTransitions RefundStatus
refund_transitions RefundStatus.pending = processing ∷ []
refund_transitions processing = RefundStatus.succeeded ∷ RefundStatus.failed ∷ []
refund_transitions RefundStatus.succeeded = []
refund_transitions RefundStatus.failed = []

-- `allowed.includes(targetState)`
abbrev pub is_allowed : {S : Type 0} ⦃e : Eq S⦄ → S → S → AllowedTransitions S → Bool
is_allowed current target allowed = any (λ s. s === target) (allowed current)
