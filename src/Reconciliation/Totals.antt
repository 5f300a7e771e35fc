-- ===== src/Reconciliation/Totals.antt =====
-- The differences of a comparison add up to the difference of the totals.
use edge_billing_service.Base.{
  ℕ, ℤ, pos, ◌+ℤ◌, ◌-ℤ◌, neg, eqb_ℤ, false, Option, none, some, List, [], ◌∷◌, ◌++◌, ◌==◌, ◌≡◌, ◌≢◌,
  refl, sym, ap, ◌∙◌, All, inl, inr, Bool-cases, if◌then◌else◌, arith, int_laws, add_zero,
  add_assoc, ==→eq, ==_refl, subst,
}
use edge_billing_service.Base.Keyed.{get_key, has_key, set_key, AreDistinct, has-get}
use edge_billing_service.Store.Reconciled.{Discrepancy}
use edge_billing_service.Reconciliation.Compare.{
  InternalPayment, Transaction, add_payments, add_transaction, add_transactions, compare_payment,
  check_payments, check_transactions, compare_records, sum_payments, sum_transactions,
}
use edge_billing_service.Reconciliation.Lookup.{
  add_payments-AreDistinct, add_transactions-AreDistinct,
}
use edge_billing_service.Reconciliation.Differences.{amount_or_zero, transaction_amount, eq_of_eqb}
use edge_billing_service.Reconciliation.Sums.{
  add_swap, zero_add, regroup_sum, sub_add_neg, sum_by, add_pairs, sum-distinct,
}

abbrev payment_value : InternalPayment → ℤ
payment_value p = p.amount_cents

abbrev transaction_value : Transaction → ℤ
transaction_value t = t.amount

-- The payments under their intents.
abbrev pub by_intent : List InternalPayment → List (ℕ × InternalPayment)
by_intent [] = []
by_intent (p ∷ ps) = (p.intent, p) ∷ by_intent ps

abbrev pub with_source : Option ℕ → Transaction → List (ℕ × Transaction) → List (ℕ × Transaction)
with_source none t m = m
with_source (some k) t m = (k, t) ∷ m

-- The transactions with a source, under it.
abbrev pub by_source : List Transaction → List (ℕ × Transaction)
by_source [] = []
by_source (t ∷ ts) = with_source t.source t (by_source ts)

add_payments-by_intent :
    (m : List (ℕ × InternalPayment)) (ps : List InternalPayment)
    → add_payments m ps ≡ add_pairs payment_value m (by_intent ps)
add_payments-by_intent m [] = refl
add_payments-by_intent m (p ∷ ps) = add_payments-by_intent (set_key p.intent p m) ps

add_pairs-with_source :
    (o : Option ℕ) (t : Transaction) (m r : List (ℕ × Transaction))
    → add_pairs transaction_value (add_transaction o t m) r
      ≡ add_pairs transaction_value m (with_source o t r)
add_pairs-with_source none t m r = refl
add_pairs-with_source (some k) t m r = refl

add_transactions-by_source :
    (m : List (ℕ × Transaction)) (ts : List Transaction)
    → add_transactions m ts ≡ add_pairs transaction_value m (by_source ts)
add_transactions-by_source m [] = refl
add_transactions-by_source m (t ∷ ts) =
    add_transactions-by_source (add_transaction t.source t m) ts
    ∙ add_pairs-with_source t.source t m (by_source ts)

abbrev pub sum_differences : List Discrepancy → ℤ
sum_differences [] = pos 0
sum_differences (d ∷ ds) = d.difference_cents +ℤ sum_differences ds

sum_differences-append :
    (xs ys : List Discrepancy)
    → sum_differences (xs ++ ys) ≡ sum_differences xs +ℤ sum_differences ys
sum_differences-append [] ys = omega int_laws
sum_differences-append (x ∷ xs) ys =
    ap (λ z. x.difference_cents +ℤ z) (sum_differences-append xs ys)
    ∙ sym (add_assoc x.difference_cents (sum_differences xs) (sum_differences ys))

zero-sub_self : (a b : ℤ) → a ≡ b → pos 0 ≡ a -ℤ b
zero-sub_self a b e = rw e (omega int_laws)

sum-compare_payment :
    (p : InternalPayment) (o : Option Transaction)
    → sum_differences (compare_payment p o)
      ≡ p.amount_cents -ℤ amount_or_zero (transaction_amount o)
unfolding compare_payment
sum-compare_payment p none = omega int_laws
sum-compare_payment p (some t) = elim (Bool-cases (eqb_ℤ p.amount_cents t.amount)) [
  | inl same ↦
      rw same (zero-sub_self p.amount_cents t.amount (eq_of_eqb p.amount_cents t.amount same))
  | inr differs ↦ rw differs (add_zero (p.amount_cents -ℤ t.amount))
]

-- What the transactions of the given payments come to.
abbrev matched : List (ℕ × InternalPayment) → List (ℕ × Transaction) → ℤ
matched [] stripe = pos 0
matched ((k, p) ∷ m) stripe =
    amount_or_zero (transaction_amount (get_key k stripe)) +ℤ matched m stripe

-- What the transactions without a payment come to.
abbrev unmatched : List (ℕ × InternalPayment) → List (ℕ × Transaction) → ℤ
unmatched internal [] = pos 0
unmatched internal ((k, t) ∷ m) =
    (if has_key k internal then pos 0 else t.amount) +ℤ unmatched internal m

regroup : (p q a m : ℤ) → p -ℤ a +ℤ (q -ℤ m) ≡ p +ℤ q -ℤ (a +ℤ m)
regroup p q a m = omega int_laws

sum-check_payments :
    (m : List (ℕ × InternalPayment)) (stripe : List (ℕ × Transaction))
    → sum_differences (check_payments m stripe) ≡ sum_by payment_value m -ℤ matched m stripe
unfolding check_payments
sum-check_payments [] stripe = omega int_laws
sum-check_payments ((k, p) ∷ m) stripe =
    let o = get_key k stripe in
    sum_differences-append (compare_payment p o) (check_payments m stripe)
    ∙ ap (λ z. z +ℤ sum_differences (check_payments m stripe)) (sum-compare_payment p o)
    ∙ ap (λ z. p.amount_cents -ℤ amount_or_zero (transaction_amount o) +ℤ z)
        (sum-check_payments m stripe)
    ∙ regroup p.amount_cents (sum_by payment_value m) (amount_or_zero (transaction_amount o))
        (matched m stripe)

neg_zero_add : (a : ℤ) → neg a ≡ neg (pos 0 +ℤ a)
neg_zero_add a = omega int_laws

neg_add : (a b : ℤ) → neg a +ℤ neg b ≡ neg (a +ℤ b)
neg_add a b = omega int_laws

sum-check_transactions :
    (internal : List (ℕ × InternalPayment)) (m : List (ℕ × Transaction))
    → sum_differences (check_transactions internal m) ≡ neg (unmatched internal m)
unfolding check_transactions
sum-check_transactions internal [] = omega int_laws
sum-check_transactions internal ((k, t) ∷ m) = elim (Bool-cases (has_key k internal)) [
  | inl known ↦ rw known (sum-check_transactions internal m ∙ neg_zero_add (unmatched internal m))
  | inr unknown ↦ rw unknown (
      ap (λ z. neg t.amount +ℤ z) (sum-check_transactions internal m)
      ∙ neg_add t.amount (unmatched internal m))
]

-- One more payment moves its transaction from the one sum to the other.
unmatched-cons :
    (k : ℕ) (p : InternalPayment) (m : List (ℕ × InternalPayment)) (stripe : List (ℕ × Transaction))
    → AreDistinct stripe
    → has_key k m ≡ false
    → amount_or_zero (transaction_amount (get_key k stripe)) +ℤ unmatched ((k, p) ∷ m) stripe
      ≡ unmatched m stripe
unmatched-cons k p m [] d new = omega int_laws
unmatched-cons k p m ((j, t) ∷ r) d new = elim (Bool-cases (j == k)) [
  | inl same ↦
      let missing : get_key k r ≡ none = ground (arith, has-get k r, d.0) in
      let rest : pos 0 +ℤ unmatched ((k, p) ∷ m) r ≡ unmatched m r =
        subst
          (λ o. amount_or_zero (transaction_amount o) +ℤ unmatched ((k, p) ∷ m) r ≡ unmatched m r)
          missing (unmatched-cons k p m r d.1 new) in
      rw (==→eq j k same, ==_refl k, new) (ap (λ z. t.amount +ℤ z) rest)
  | inr other ↦
      let apart : (k == j) ≡ false = ground arith in
      rw (other, apart)
        (add_swap (amount_or_zero (transaction_amount (get_key k r)))
            (if has_key j m then pos 0 else t.amount) (unmatched ((k, p) ∷ m) r)
          ∙ ap (λ z. (if has_key j m then pos 0 else t.amount) +ℤ z)
              (unmatched-cons k p m r d.1 new))
]

unmatched-none : (m : List (ℕ × Transaction)) → unmatched [] m ≡ sum_by transaction_value m
unmatched-none [] = refl
unmatched-none ((k, t) ∷ m) = ap (λ z. t.amount +ℤ z) (unmatched-none m)

matched-unmatched :
    (internal : List (ℕ × InternalPayment)) (stripe : List (ℕ × Transaction))
    → AreDistinct internal
    → AreDistinct stripe
    → matched internal stripe +ℤ unmatched internal stripe ≡ sum_by transaction_value stripe
matched-unmatched [] stripe d e = zero_add (unmatched [] stripe) ∙ unmatched-none stripe
matched-unmatched ((k, p) ∷ m) stripe d e =
    regroup_sum (amount_or_zero (transaction_amount (get_key k stripe))) (matched m stripe)
      (unmatched ((k, p) ∷ m) stripe)
    ∙ ap (λ z. matched m stripe +ℤ z) (unmatched-cons k p m stripe e d.0)
    ∙ matched-unmatched m stripe d.1 e

sum-by_intent : (ps : List InternalPayment) → sum_by payment_value (by_intent ps) ≡ sum_payments ps
sum-by_intent [] = refl
sum-by_intent (p ∷ ps) = ap (λ z. p.amount_cents +ℤ z) (sum-by_intent ps)

sum-with_source :
    (o : Option ℕ) (t : Transaction) (m : List (ℕ × Transaction))
    → o ≢ none
    → sum_by transaction_value (with_source o t m) ≡ t.amount +ℤ sum_by transaction_value m
sum-with_source none t m h = absurd (h refl)
sum-with_source (some k) t m h = refl

sum-by_source :
    (ts : List Transaction)
    → All (λ t. t.source ≢ none) ts
    → sum_by transaction_value (by_source ts) ≡ sum_transactions ts
sum-by_source [] h = refl
sum-by_source (t ∷ ts) h =
    sum-with_source t.source t (by_source ts) h.0 ∙ ap (λ z. t.amount +ℤ z) (sum-by_source ts h.1)

module _ (payments : List InternalPayment) (transactions : List Transaction) where
  abbrev internal : List (ℕ × InternalPayment)
  internal = add_payments [] payments

  abbrev stripe : List (ℕ × Transaction)
  stripe = add_transactions [] transactions

  -- Where no two payments have one intent, and each transaction has a source that no other has, the
  -- differences of a comparison add up to the payments' total less the transactions' total.
  pub compare_records-accounts :
      AreDistinct (by_intent payments)
      → AreDistinct (by_source transactions)
      → All (λ t. t.source ≢ none) transactions
      → let c = compare_records payments transactions in
        sum_differences c.discrepancies
        ≡ c.total_internal_amount_cents -ℤ c.total_stripe_amount_cents
  unfolding compare_records
  compare_records-accounts d e sourced =
      let ours : sum_by payment_value internal ≡ sum_payments payments =
        ap (sum_by payment_value) (add_payments-by_intent [] payments)
        ∙ sum-distinct payment_value (by_intent payments) d
        ∙ sum-by_intent payments in
      let theirs : sum_by transaction_value stripe ≡ sum_transactions transactions =
        ap (sum_by transaction_value) (add_transactions-by_source [] transactions)
        ∙ sum-distinct transaction_value (by_source transactions) e
        ∙ sum-by_source transactions sourced in
      sum_differences-append (check_payments internal stripe) (check_transactions internal stripe)
      ∙ ap (λ z. z +ℤ sum_differences (check_transactions internal stripe))
          (sum-check_payments internal stripe)
      ∙ ap (λ z. sum_by payment_value internal -ℤ matched internal stripe +ℤ z)
          (sum-check_transactions internal stripe)
      ∙ sub_add_neg (sum_by payment_value internal) (matched internal stripe)
          (unmatched internal stripe)
      ∙ ap (λ z. sum_by payment_value internal -ℤ z)
          (matched-unmatched internal stripe (add_payments-AreDistinct [] payments tt)
            (add_transactions-AreDistinct [] transactions tt))
      ∙ ap (λ z. z -ℤ sum_by transaction_value stripe) ours
      ∙ ap (λ z. sum_payments payments -ℤ z) theirs
