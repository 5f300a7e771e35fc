-- ===== src/Reconciliation/Compare.antt =====
-- `compareRecords` of src/reconciliation/reconciliation.service.ts.
use edge_billing_service.Base.{
  ℕ, ◌+◌, ℤ, pos, ◌+ℤ◌, ◌-ℤ◌, neg, eqb_ℤ, Option, none, some, List, [], ◌∷◌, ◌++◌, if◌then◌else◌,
  Bool, length,
}
use edge_billing_service.Base.Keyed.{set_key, get_key, has_key}
use edge_billing_service.Store.Reconciled.{
  Discrepancy, missing_internal, missing_stripe, amount_mismatch,
}

-- `InternalPaymentRecord`
pub record InternalPayment : Type 0 where
  pub charge_id : ℕ
  pub intent : ℕ
  pub amount_cents : ℤ

-- `BalanceTransactionResult`: whether its type is "charge", and the columns that are compared.
pub record Transaction : Type 0 where
  pub id : ℕ
  pub amount : ℤ
  pub is_charge : Bool
  pub source : Option ℕ

-- The map of the payments by their intent, onto what was set before.
abbrev pub add_payments :
    List (ℕ × InternalPayment) → List InternalPayment → List (ℕ × InternalPayment)
add_payments m [] = m
add_payments m (p ∷ ps) = add_payments (set_key p.intent p m) ps

abbrev pub add_transaction :
    Option ℕ → Transaction → List (ℕ × Transaction) → List (ℕ × Transaction)
add_transaction none t m = m
add_transaction (some k) t m = set_key k t m

-- The map of the transactions by their source; one without a source is left out.
abbrev pub add_transactions : List (ℕ × Transaction) → List Transaction → List (ℕ × Transaction)
add_transactions m [] = m
add_transactions m (t ∷ ts) = add_transactions (add_transaction t.source t m) ts

-- What a payment and the transaction of its intent differ in.
unfoldable pub compare_payment : InternalPayment → Option Transaction → List Discrepancy
compare_payment p none =
    record {
      type = missing_stripe;
      internal_reference_id = some p.charge_id;
      stripe_transaction_id = none;
      expected_amount_cents = p.amount_cents;
      actual_amount_cents = pos 0;
      difference_cents = p.amount_cents;
    }
    ∷ []
compare_payment p (some t) =
    if eqb_ℤ p.amount_cents t.amount
    then []
    else record {
      type = amount_mismatch;
      internal_reference_id = some p.charge_id;
      stripe_transaction_id = some t.id;
      expected_amount_cents = p.amount_cents;
      actual_amount_cents = t.amount;
      difference_cents = p.amount_cents -ℤ t.amount;
    }
      ∷ []

unfoldable pub check_payments :
    List (ℕ × InternalPayment) → List (ℕ × Transaction) → List Discrepancy
unfolding compare_payment
check_payments [] stripe = []
check_payments ((k, p) ∷ m) stripe = compare_payment p (get_key k stripe) ++ check_payments m stripe

-- The discrepancy of a transaction that no payment has.
unfoldable pub unknown_transaction : Transaction → Discrepancy
unknown_transaction t = record {
  type = missing_internal;
  internal_reference_id = none;
  stripe_transaction_id = some t.id;
  expected_amount_cents = pos 0;
  actual_amount_cents = t.amount;
  difference_cents = neg t.amount;
}

unfoldable pub check_transactions :
    List (ℕ × InternalPayment) → List (ℕ × Transaction) → List Discrepancy
unfolding unknown_transaction
check_transactions internal [] = []
check_transactions internal ((k, t) ∷ m) =
    let rest = check_transactions internal m in
    if has_key k internal then rest else unknown_transaction t ∷ rest

abbrev pub sum_payments : List InternalPayment → ℤ
sum_payments [] = pos 0
sum_payments (p ∷ ps) = p.amount_cents +ℤ sum_payments ps

abbrev pub sum_transactions : List Transaction → ℤ
sum_transactions [] = pos 0
sum_transactions (t ∷ ts) = t.amount +ℤ sum_transactions ts

-- The number of transactions whose key no payment has.
abbrev pub count_unknown : List (ℕ × InternalPayment) → List (ℕ × Transaction) → ℕ
count_unknown internal [] = 0
count_unknown internal ((k, t) ∷ m) =
    (if has_key k internal then 0 else 1) + count_unknown internal m

pub record Comparison : Type 0 where
  pub discrepancies : List Discrepancy
  pub total_internal_amount_cents : ℤ
  pub total_stripe_amount_cents : ℤ
  pub records_compared : ℕ

unfoldable pub compare_records : List InternalPayment → List Transaction → Comparison
unfolding check_payments check_transactions
compare_records payments transactions =
    let internal = add_payments [] payments in
    let stripe = add_transactions [] transactions in
    record {
      discrepancies = check_payments internal stripe ++ check_transactions internal stripe;
      total_internal_amount_cents = sum_payments payments;
      total_stripe_amount_cents = sum_transactions transactions;
      records_compared = length internal + count_unknown internal stripe;
    }
