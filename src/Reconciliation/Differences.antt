-- ===== src/Reconciliation/Differences.antt =====
-- What a single discrepancy tells of the two sides, and which there are.
use edge_billing_service.Base.{
  ℕ, ℤ, pos, ◌-ℤ◌, eqb_ℤ, true, false, Option, none, some, List, [], ◌∷◌, ◌==◌, ◌≡◌, ◌≢◌, inl, inr,
  refl, sym, ap, All, map_row, Bool-cases, arith, int_laws, eq_of_parts, neg, subst, ==→eq, Has,
  Has-append_left, Has-append_right, All-append, All-map,
}
use edge_billing_service.Base.Keyed.{get_key, has_key, has-get}
use edge_billing_service.Store.Reconciled.{
  Discrepancy, DiscrepancyType, missing_internal, missing_stripe, amount_mismatch,
}
use edge_billing_service.Reconciliation.Compare.{
  InternalPayment, Transaction, compare_payment, check_payments, unknown_transaction,
  check_transactions,
}

-- The kind of a discrepancy, by which of the two records there are.
abbrev pub kind_of : Option InternalPayment → Option Transaction → DiscrepancyType
kind_of none t = missing_internal
kind_of (some p) none = missing_stripe
kind_of (some p) (some t) = amount_mismatch

abbrev pub amount_or_zero : Option ℤ → ℤ
amount_or_zero none = pos 0
amount_or_zero (some a) = a

abbrev pub payment_amount : Option InternalPayment → Option ℤ
payment_amount = map_row (λ p. p.amount_cents)

abbrev pub transaction_amount : Option Transaction → Option ℤ
transaction_amount = map_row (λ t. t.amount)

-- What a discrepancy says of the payment and the transaction of a key: there are not both with the
-- same amount.
pub record Tells (p : Option InternalPayment) (t : Option Transaction) (d : Discrepancy)
    : Type 0 where
  pub differs : payment_amount p ≢ transaction_amount t
  pub kind : d.type ≡ kind_of p t
  pub internal : d.internal_reference_id ≡ map_row (λ p. p.charge_id) p
  pub external : d.stripe_transaction_id ≡ map_row (λ t. t.id) t
  pub expected : d.expected_amount_cents ≡ amount_or_zero (payment_amount p)
  pub actual : d.actual_amount_cents ≡ amount_or_zero (transaction_amount t)
  pub difference :
      d.difference_cents
      ≡ amount_or_zero (payment_amount p) -ℤ amount_or_zero (transaction_amount t)

pub eq_of_eqb : (a b : ℤ) → eqb_ℤ a b ≡ true → a ≡ b
eq_of_eqb a b h = ground (arith, eq_of_parts a b)

pub ne_of_eqb : (a b : ℤ) → eqb_ℤ a b ≡ false → some a ≢ some b
ne_of_eqb a b h e = ground arith

pub sub_zero : (a : ℤ) → a ≡ a -ℤ pos 0
sub_zero a = omega int_laws

pub neg-zero_sub : (a : ℤ) → neg a ≡ pos 0 -ℤ a
neg-zero_sub a = omega int_laws

pub missing-Tells :
    (p : InternalPayment) (d : Discrepancy)
    → compare_payment p none ≡ d ∷ []
    → Tells (some p) none d
unfolding compare_payment
missing-Tells p d e = record {
  differs = λ h. cc;
  kind = cc;
  internal = cc;
  external = cc;
  expected = cc;
  actual = cc;
  difference = cc (sub_zero p.amount_cents);
}

pub mismatch-Tells :
    (p : InternalPayment) (t : Transaction)
    → eqb_ℤ p.amount_cents t.amount ≡ false
    → Tells (some p) (some t) (record {
      type = amount_mismatch;
      internal_reference_id = some p.charge_id;
      stripe_transaction_id = some t.id;
      expected_amount_cents = p.amount_cents;
      actual_amount_cents = t.amount;
      difference_cents = p.amount_cents -ℤ t.amount;
    })
mismatch-Tells p t h = record {
  differs = ne_of_eqb p.amount_cents t.amount h;
  kind = refl;
  internal = refl;
  external = refl;
  expected = refl;
  actual = refl;
  difference = refl;
}

pub unknown_transaction-Tells : (t : Transaction) → Tells none (some t) (unknown_transaction t)
unfolding unknown_transaction
unknown_transaction-Tells t = record {
  differs = λ h. cc;
  kind = refl;
  internal = refl;
  external = refl;
  expected = refl;
  actual = refl;
  difference = neg-zero_sub t.amount;
}

pub compare_payment-Tells :
    (p : InternalPayment) (o : Option Transaction) → All (Tells (some p) o) (compare_payment p o)
unfolding compare_payment
compare_payment-Tells p none = (missing-Tells p _ refl, tt)
compare_payment-Tells p (some t) = elim (Bool-cases (eqb_ℤ p.amount_cents t.amount)) [
  | inl same ↦ rw same tt
  | inr differs ↦ rw differs (mismatch-Tells p t differs, tt)
]

pub compare_payment-Has :
    (p : InternalPayment) (o : Option Transaction)
    → payment_amount (some p) ≢ transaction_amount o
    → Has (Tells (some p) o) (compare_payment p o)
unfolding compare_payment
compare_payment-Has p none h = inl (missing-Tells p _ refl)
compare_payment-Has p (some t) h = elim (Bool-cases (eqb_ℤ p.amount_cents t.amount)) [
  | inl same ↦ absurd (h (ap some (eq_of_eqb p.amount_cents t.amount same)))
  | inr differs ↦ rw differs (inl (mismatch-Tells p t differs))
]

module _ (find_payment : ℕ → Option InternalPayment)
    (find_transaction : ℕ → Option Transaction) where
  -- A key tells what the discrepancy says.
  abbrev pub TellsSome : Discrepancy → Type 0
  TellsSome d = (k : ℕ) × Tells (find_payment k) (find_transaction k) d

  pub check_payments-TellsSome :
      (m : List (ℕ × InternalPayment)) (stripe : List (ℕ × Transaction))
      → All (λ e. find_payment e.0 ≡ some e.1) m
      → ((k : ℕ) → get_key k stripe ≡ find_transaction k)
      → All TellsSome (check_payments m stripe)
  unfolding check_payments
  check_payments-TellsSome [] stripe h get = tt
  check_payments-TellsSome ((k, p) ∷ m) stripe h get =
      All-append TellsSome (compare_payment p (get_key k stripe)) (check_payments m stripe)
        (All-map (Tells (some p) (get_key k stripe)) TellsSome
          (compare_payment p (get_key k stripe))
          (λ d tells. (
            k,
            subst (λ o. Tells o (find_transaction k) d) (sym h.0)
                (subst (λ o. Tells (some p) o d) (get k) tells),
          ))
          (compare_payment-Tells p (get_key k stripe)))
        (check_payments-TellsSome m stripe h.1 get)

  pub check_transactions-TellsSome :
      (internal : List (ℕ × InternalPayment)) (m : List (ℕ × Transaction))
      → All (λ e. find_transaction e.0 ≡ some e.1) m
      → ((k : ℕ) → get_key k internal ≡ find_payment k)
      → All TellsSome (check_transactions internal m)
  unfolding check_transactions
  check_transactions-TellsSome internal [] h get = tt
  check_transactions-TellsSome internal ((k, t) ∷ m) h get =
      elim (Bool-cases (has_key k internal)) [
        | inl known ↦ rw known (check_transactions-TellsSome internal m h.1 get)
        | inr unknown ↦ rw unknown (
            let missing : find_payment k ≡ none = ground (arith, has-get k internal, get k) in
            (
              (
                k,
                subst (λ o. Tells o (find_transaction k) (unknown_transaction t)) (sym missing)
                    (subst (λ o. Tells none o (unknown_transaction t)) (sym h.0)
                      (unknown_transaction-Tells t)),
              ),
              check_transactions-TellsSome internal m h.1 get,
            ))
      ]

pub check_payments-Has :
    (k : ℕ) (p : InternalPayment) (m : List (ℕ × InternalPayment)) (stripe : List (ℕ × Transaction))
    → get_key k m ≡ some p
    → payment_amount (some p) ≢ transaction_amount (get_key k stripe)
    → Has (Tells (some p) (get_key k stripe)) (check_payments m stripe)
unfolding check_payments
check_payments-Has k p [] stripe e h = cc
check_payments-Has k p ((j, q) ∷ m) stripe e h = elim (Bool-cases (j == k)) [
  | inl here ↦
      let same : q ≡ p = ground arith in
      Has-append_left (Tells (some p) (get_key k stripe)) (compare_payment q (get_key j stripe))
        (check_payments m stripe)
        (rw (same, ==→eq j k here) (compare_payment-Has p (get_key k stripe) h))
  | inr later ↦
      Has-append_right (Tells (some p) (get_key k stripe)) (compare_payment q (get_key j stripe))
        (check_payments m stripe) (check_payments-Has k p m stripe (ground arith) h)
]

pub check_transactions-Has :
    (k : ℕ) (t : Transaction) (internal : List (ℕ × InternalPayment)) (m : List (ℕ × Transaction))
    → get_key k m ≡ some t
    → has_key k internal ≡ false
    → Has (Tells none (some t)) (check_transactions internal m)
unfolding check_transactions
check_transactions-Has k t internal [] e h = cc
check_transactions-Has k t internal ((j, u) ∷ m) e h = elim (Bool-cases (j == k)) [
  | inl here ↦
      let same : u ≡ t = ground arith in
      rw (==→eq j k here, h, same) (inl (unknown_transaction-Tells t))
  | inr later ↦
      let found = check_transactions-Has k t internal m (ground arith) h in
      elim (Bool-cases (has_key j internal)) [
        | inl known ↦ rw known found
        | inr unknown ↦ rw unknown (inr found)
      ]
]
