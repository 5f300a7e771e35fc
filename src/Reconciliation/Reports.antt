-- ===== src/Reconciliation/Reports.antt =====
-- The discrepancies of a comparison are the keys at which the two sides differ.
use edge_billing_service.Base.{
  ℕ, Option, none, some, List, [], ◌++◌, ◌≡◌, ◌≢◌, refl, sym, ◌∙◌, All, arith, subst, Has,
  Has-append_left, Has-append_right, All-append, All-map,
}
use edge_billing_service.Base.Keyed.{get_key, has-get, get-entries}
use edge_billing_service.Store.Reconciled.{Discrepancy}
use edge_billing_service.Reconciliation.Lookup.{
  last_payment, last_transaction, get-payments, get-transactions, add_payments-AreDistinct,
  add_transactions-AreDistinct,
}
use edge_billing_service.Reconciliation.Compare.{
  InternalPayment, Transaction, add_payments, add_transactions, check_payments, check_transactions,
  compare_records,
}
use edge_billing_service.Reconciliation.Differences.{
  Tells, payment_amount, transaction_amount, TellsSome, check_payments-TellsSome,
  check_transactions-TellsSome, check_payments-Has, check_transactions-Has,
}

-- What a list of discrepancies says of both sides: each tells of some key, and there is one for
-- each key at which there are not both records with the same amount.
pub record Reports (payments : List InternalPayment) (transactions : List Transaction)
    (discrepancies : List Discrepancy) : Type 0 where
  pub sound :
      All
        (TellsSome (λ k. last_payment k payments) (λ k. last_transaction k transactions))
        discrepancies
  pub complete :
      (k : ℕ)
      → payment_amount (last_payment k payments)
        ≢ transaction_amount (last_transaction k transactions)
      → Has (Tells (last_payment k payments) (last_transaction k transactions)) discrepancies

module _ (payments : List InternalPayment) (transactions : List Transaction) where
  abbrev internal : List (ℕ × InternalPayment)
  internal = add_payments [] payments

  abbrev stripe : List (ℕ × Transaction)
  stripe = add_transactions [] transactions

  complete_at :
      (k : ℕ) (p : Option InternalPayment) (t : Option Transaction)
      → get_key k internal ≡ p
      → get_key k stripe ≡ t
      → payment_amount p ≢ transaction_amount t
      → Has (Tells p t) (check_payments internal stripe ++ check_transactions internal stripe)
  complete_at k (some p) t ep et h =
      Has-append_left (Tells (some p) t) (check_payments internal stripe)
        (check_transactions internal stripe)
        (subst (λ o. Has (Tells (some p) o) (check_payments internal stripe)) et
          (check_payments-Has k p internal stripe ep
            (subst (λ o. payment_amount (some p) ≢ transaction_amount o) (sym et) h)))
  complete_at k none (some t) ep et h =
      Has-append_right (Tells none (some t)) (check_payments internal stripe)
        (check_transactions internal stripe)
        (check_transactions-Has k t internal stripe et (ground (arith, has-get k internal)))
  complete_at k none none ep et h = absurd (h refl)

  -- A comparison finds exactly the differences: each discrepancy tells of a key at which the last
  -- payment and the last transaction are not both there with the same amount, and every such key
  -- has a discrepancy that tells of it.
  pub compare_records-Reports :
      Reports payments transactions (compare_records payments transactions).discrepancies
  unfolding compare_records
  compare_records-Reports = record {
    sound =
        let entries = get-entries internal (add_payments-AreDistinct [] payments tt) in
        let transaction_entries =
          get-entries stripe (add_transactions-AreDistinct [] transactions tt) in
        All-append (TellsSome (λ k. last_payment k payments) (λ k. last_transaction k transactions))
          (check_payments internal stripe) (check_transactions internal stripe)
          (check_payments-TellsSome (λ k. last_payment k payments)
            (λ k. last_transaction k transactions) internal stripe
            (All-map (λ e. get_key e.0 internal ≡ some e.1)
              (λ e. last_payment e.0 payments ≡ some e.1) internal
              (λ e h. sym (get-payments e.0 payments) ∙ h) entries)
            (λ k. get-transactions k transactions))
          (check_transactions-TellsSome (λ k. last_payment k payments)
            (λ k. last_transaction k transactions) internal stripe
            (All-map (λ e. get_key e.0 stripe ≡ some e.1)
              (λ e. last_transaction e.0 transactions ≡ some e.1) stripe
              (λ e h. sym (get-transactions e.0 transactions) ∙ h) transaction_entries)
            (λ k. get-payments k payments));
    complete = λ k h.
        complete_at k (last_payment k payments) (last_transaction k transactions)
          (get-payments k payments) (get-transactions k transactions) h;
  }
