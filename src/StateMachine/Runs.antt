-- ===== src/StateMachine/Runs.antt =====
-- Runs of the state machines: sequences of transitions that the tables allow.
use edge_billing_service.Base.{ℕ, zero, suc, ◌+◌, ◌≤◌, ◌≡◌, refl, true, arith}
use edge_billing_service.Base.Eq.{Eq}
use edge_billing_service.StateMachine.Status.{
  InvoiceStatus, draft, finalized, paid, void, SubscriptionStatus, active, paused, canceled,
  past_due, RefundStatus, processing, invoice_eq, subscription_eq, refund_eq,
}
use edge_billing_service.StateMachine.Tables.{
  AllowedTransitions, invoice_transitions, subscription_transitions, refund_transitions, is_allowed,
}

-- `Run T n s t`: n allowed transitions lead from `s` to `t`.
pub data Run {S : Type 0} ⦃e : Eq S⦄ (T : AllowedTransitions S) : ℕ → S → S → Type 0 where
  here : {s : S} → Run T zero s s
  next : {n : ℕ} {s t u : S} → Run T n s t → is_allowed t u T ≡ true → Run T (suc n) s u

-- How far an invoice has come.
abbrev pub invoice_rank : InvoiceStatus → ℕ
invoice_rank draft = 0
invoice_rank finalized = 1
invoice_rank paid = 2
invoice_rank void = 2

abbrev pub refund_rank : RefundStatus → ℕ
refund_rank RefundStatus.pending = 0
refund_rank processing = 1
refund_rank RefundStatus.succeeded = 2
refund_rank RefundStatus.failed = 2

invoice_step-rank :
    (s t : InvoiceStatus)
    → is_allowed s t invoice_transitions ≡ true
    → invoice_rank t ≡ invoice_rank s + 1
invoice_step-rank s t h = ground arith

refund_step-rank :
    (s t : RefundStatus)
    → is_allowed s t refund_transitions ≡ true
    → refund_rank t ≡ refund_rank s + 1
refund_step-rank s t h = ground arith

invoice-Run-rank :
    {n : ℕ} {s t : InvoiceStatus}
    → Run invoice_transitions n s t
    → invoice_rank t ≡ invoice_rank s + n
invoice-Run-rank here = omega arith
invoice-Run-rank (next {t = t} {u = u} r h) =
    omega (arith, invoice-Run-rank r, invoice_step-rank t u h)

refund-Run-rank :
    {n : ℕ} {s t : RefundStatus} → Run refund_transitions n s t → refund_rank t ≡ refund_rank s + n
refund-Run-rank here = omega arith
refund-Run-rank (next {t = t} {u = u} r h) =
    omega (arith, refund-Run-rank r, refund_step-rank t u h)

rank_le : (s : InvoiceStatus) → invoice_rank s ≤ 2
rank_le s = ground arith

refund_rank_le : (s : RefundStatus) → refund_rank s ≤ 2
refund_rank_le s = ground arith

-- Every transition takes an invoice one rank further (draft 0, finalized 1, paid and void 2), so
-- it goes through at most two transitions and never comes back to a status that it has left.
pub invoice-Run_bounds :
    {n : ℕ} {s t : InvoiceStatus}
    → Run invoice_transitions n s t
    → (n ≤ 2) × (invoice_rank t ≡ invoice_rank s + n)
invoice-Run_bounds {t = t} r = (omega (arith, invoice-Run-rank r, rank_le t), invoice-Run-rank r)

-- A refund that has succeeded or failed keeps that status: no transition leaves it.
pub refund_settled :
    {n : ℕ} {s t : RefundStatus}
    → refund_rank s ≡ 2
    → Run refund_transitions n s t
    → (n ≡ 0) × (t ≡ s)
refund_settled h here = (refl, refl)
refund_settled h (next {t = t} {u = u} r e) =
    absurd (omega (arith, refund-Run-rank r, refund_step-rank t u e, refund_rank_le u))

-- A subscription can be canceled from every status, in at most two transitions.
pub cancel_reachable :
    (s : SubscriptionStatus) → (n : ℕ) × (n ≤ 2) × Run subscription_transitions n s canceled
cancel_reachable SubscriptionStatus.pending =
    (2, omega arith, next {t = active} (next here refl) refl)
cancel_reachable active = (1, omega arith, next here refl)
cancel_reachable paused = (1, omega arith, next here refl)
cancel_reachable past_due = (1, omega arith, next here refl)
cancel_reachable canceled = (0, omega arith, here)

-- A canceled subscription stays canceled.
pub canceled_final :
    {n : ℕ} {s t : SubscriptionStatus}
    → s ≡ canceled
    → Run subscription_transitions n s t
    → t ≡ canceled
canceled_final h here = h
canceled_final h (next {t = t} {u = u} r e) = ground (arith, canceled_final h r)
