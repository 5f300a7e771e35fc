-- ===== src/Generation/Counts.antt =====
-- The run always ends, and everything that is due is counted once.
use edge_billing_service.Base.{
  ℕ, ◌+◌, suc, List, [], ◌∷◌, length, ◌≡◌, refl, ◌∙◌, ap, sym, subst, inl, inr, arith,
}
use edge_billing_service.Calendar.Date.{Date}
use edge_billing_service.Store.Rows.{Invoice, Subscription}
use edge_billing_service.Store.Action.{Store, Action, Result, ok, err, catch, pure, outcome, ◌>>=◌}
use edge_billing_service.Store.Moves.{catch-ok, catch-err}
use edge_billing_service.Store.Ensures.{Returns, bind-Returns}
use edge_billing_service.Invoices.Repository.{find_duplicates}
use edge_billing_service.Outbound.{World}
use edge_billing_service.Subscriptions.Seeding.{Sources}
use edge_billing_service.Generation.Service.{
  bill_or_skip, complete_invoice, Billing, created, skipped, failed, completed, GenerationCounts,
  count, run_all, bill_subscription, finalize_pending, generate_invoices, find_due_for_billing,
  find_pending_onboarding,
}

-- All that was counted.
abbrev pub counted : GenerationCounts → ℕ
counted r = r.created + r.skipped + r.failed + r.finalized

-- The call returns.
abbrev AlwaysReturns : {A : Type 0} → Action A → Type 0
AlwaysReturns m = (s : Store) → Returns (λ _ t. Unit {0}) (m s)

caught : {A : Type 0} (m : Action A) (a : A) → AlwaysReturns (catch m (λ x. pure a))
caught m a s = elim (outcome (m s)) [
  | inl (b, t, e) ↦ subst (Returns (λ _ t. Unit {0})) (sym (catch-ok m (λ x. pure a) s e)) tt
  | inr (x, t, e) ↦ subst (Returns (λ _ t. Unit {0})) (sym (catch-err m (λ x. pure a) s e)) tt
]

weaken-Returns :
    {A : Type 0} (P Q : A → Store → Type 0) (r : Result A × Store)
    → Returns P r
    → ((a : A) (t : Store) → P a t → Q a t)
    → Returns Q r
weaken-Returns P Q (ok a, t) h k = k a t h
weaken-Returns P Q (err x, t) h k = h

bill_subscription-caught :
    (world : World) (retry_schedule_days advance_days : List ℕ) (sources : Sources)
    (correlation : ℕ) (u : Subscription)
    → AlwaysReturns (bill_subscription world retry_schedule_days advance_days sources correlation u)
unfolding bill_subscription
bill_subscription-caught world retry_schedule_days advance_days sources correlation u =
    caught
      (find_duplicates u.id u.billing_period_start u.billing_period_end >>= λ existing.
        bill_or_skip world retry_schedule_days advance_days sources u existing correlation)
      failed

finalize_pending-caught :
    (world : World) (retry_schedule_days : List ℕ) (correlation : ℕ) (inv : Invoice)
    → AlwaysReturns (finalize_pending world retry_schedule_days correlation inv)
unfolding finalize_pending
finalize_pending-caught world retry_schedule_days correlation inv =
    caught (complete_invoice world retry_schedule_days inv correlation) failed

counted-count : (b : Billing) (r : GenerationCounts) → counted (count b r) ≡ suc (counted r)
counted-count created r = omega arith
counted-count skipped r = omega arith
counted-count failed r = omega arith
counted-count completed r = omega arith

run_all-Returns :
    {A : Type 0} (step : A → Action Billing)
    → ((x : A) → AlwaysReturns (step x))
    → (xs : List A) (r : GenerationCounts) (s : Store)
    → Returns (λ q t. counted q ≡ counted r + length xs) (run_all step xs r s)
unfolding run_all
run_all-Returns step h [] r s = omega arith
run_all-Returns step h (x ∷ xs) r s =
    bind-Returns (λ _ t. Unit {0}) (λ q t. counted q ≡ counted r + length (x ∷ xs)) (step x)
      (λ b. run_all step xs (count b r)) s (h x s)
      (λ b t _.
        weaken-Returns (λ q u. counted q ≡ counted (count b r) + length xs)
          (λ q u. counted q ≡ counted r + length (x ∷ xs)) (run_all step xs (count b r) t)
          (run_all-Returns step h xs (count b r) t) (λ q u e. omega (arith, e, counted-count b r)))

abbrev none_yet : GenerationCounts
none_yet = record { created = 0; skipped = 0; failed = 0; finalized = 0 }

module _ (world : World) (retry_schedule_days advance_days : List ℕ) (sources : Sources)
    (date : Date) (correlation : ℕ) where
  -- The first loop, over the subscriptions that are due.
  abbrev pub bill_due : Action GenerationCounts
  bill_due s =
      run_all (bill_subscription world retry_schedule_days advance_days sources correlation)
        (find_due_for_billing date s) none_yet s

  -- The standalone invoices that are pending in the state that the first loop leaves.
  abbrev pub pending_after : Store → List Invoice
  pending_after s = find_pending_onboarding date (bill_due s).1

  -- What the run has counted: the first loop every subscription that was due, and the second every
  -- invoice that was then pending.
  abbrev pub Counts : Store → GenerationCounts → Type 0
  Counts s r =
      (billed : GenerationCounts) × ((bill_due s).0 ≡ ok billed)
      × (counted billed ≡ length (find_due_for_billing date s))
      × (counted r ≡ counted billed + length (pending_after s))

  after_first :
      (s : Store) (x : Result GenerationCounts × Store)
      → bill_due s ≡ x
      → Returns (λ r t. counted r ≡ counted none_yet + length (find_due_for_billing date s)) x
      → Returns
          (λ r t. Counts s r)
          (elim x.0 [
            | ok billed ↦
                run_all
                  (finalize_pending world retry_schedule_days correlation)
                  (find_pending_onboarding date x.1)
                  billed
                  x.1
            | err e ↦ (err e, x.1)
          ])
  unfolding finalize_pending
  after_first s (ok billed, t) e h =
      let pending = find_pending_onboarding date t in
      let finish = finalize_pending world retry_schedule_days correlation in
      weaken-Returns (λ q u. counted q ≡ counted billed + length pending) (λ r u. Counts s r)
        (run_all finish pending billed t)
        (run_all-Returns finish (finalize_pending-caught world retry_schedule_days correlation)
          pending billed t)
        (λ q u f. (
          billed,
          ap (λ x. x.0) e,
          omega (arith, h),
          f ∙ ap (λ x. counted billed + length (find_pending_onboarding date x.1)) (sym e),
        ))
  after_first s (err x, t) e h = absurd h

  -- The billing run returns in every state, whatever fails inside it: its first loop returns and
  -- counts every subscription that was due once, and the second counts once more for every
  -- standalone invoice that is pending in the state that the first loop leaves.
  pub generate_invoices-Returns :
      (s : Store)
      → Returns
          (λ r t. Counts s r)
          (generate_invoices world retry_schedule_days advance_days sources date correlation s)
  unfolding generate_invoices bill_subscription finalize_pending
  generate_invoices-Returns s = after_first s (bill_due s) refl (
      run_all-Returns (bill_subscription world retry_schedule_days advance_days sources correlation)
        (bill_subscription-caught world retry_schedule_days advance_days sources correlation)
        (find_due_for_billing date s) none_yet s)
