-- ===== src/Credits/Balances.antt =====
-- The credit balance of each customer under the updates of the repository.
use edge_billing_service.Base.{
  ℕ, ℤ, pos, ◌+ℤ◌, ◌-ℤ◌, ◌≡◌, ◌≢◌, refl, Option, none, some, List, arith, find, find-update,
  find-insert, find-holds, ◌==◌, Option-cases, inl, inr, int_laws,
}
use edge_billing_service.Store.Rows.{CreditBalance}
use edge_billing_service.Store.Action.{Store}
use edge_billing_service.Credits.Service.{upsert_rows, deduct_balance}

abbrev pub amount_of : Option CreditBalance → ℤ
amount_of none = pos 0
amount_of (some b) = b.balance_cents

-- The balance of a customer, 0 where there is no row.
abbrev pub balance_of : ℕ → List CreditBalance → ℤ
balance_of customer_id rows = amount_of (find (λ b. b.customer_id == customer_id) rows)

pub deduct_balance_self :
    (customer_id : ℕ) (amount : ℤ) (s : Store) {b : CreditBalance}
    → find (λ b. b.customer_id == customer_id) s.credit_balances ≡ some b
    → balance_of customer_id (deduct_balance customer_id amount s).1.credit_balances
      ≡ b.balance_cents -ℤ amount
unfolding deduct_balance
deduct_balance_self customer_id amount s e = ground (
  arith,
  find-update (λ b. b.customer_id == customer_id) (λ b. b.customer_id == customer_id)
      (λ b. record b { balance_cents = b.balance_cents -ℤ amount }) (λ b. refl) s.credit_balances,
  find-holds (λ b. b.customer_id == customer_id) s.credit_balances e,
)

pub deduct_balance_other :
    (customer_id other : ℕ) (amount : ℤ) (s : Store)
    → other ≢ customer_id
    → balance_of other (deduct_balance customer_id amount s).1.credit_balances
      ≡ balance_of other s.credit_balances
unfolding deduct_balance
deduct_balance_other customer_id other amount s ne =
    elim (Option-cases (find (λ b. b.customer_id == other) s.credit_balances)) [
      | inl e ↦ ground (
        arith,
        find-update (λ b. b.customer_id == other) (λ b. b.customer_id == customer_id)
            (λ b. record b { balance_cents = b.balance_cents -ℤ amount }) (λ b. refl)
            s.credit_balances,
      )
      | inr (b, e) ↦ ground (
        arith,
        find-update (λ b. b.customer_id == other) (λ b. b.customer_id == customer_id)
            (λ b. record b { balance_cents = b.balance_cents -ℤ amount }) (λ b. refl)
            s.credit_balances,
        find-holds (λ b. b.customer_id == other) s.credit_balances e,
      )
    ]

-- An upsert adds its increment to the customer's balance: the row that it inserts holds it.
pub upsert_rows_self :
    (row : CreditBalance) (rows : List CreditBalance)
    → balance_of row.customer_id (upsert_rows row row.balance_cents rows)
      ≡ balance_of row.customer_id rows +ℤ row.balance_cents
upsert_rows_self row rows =
    elim (Option-cases (find (λ b. b.customer_id == row.customer_id) rows)) [
      | inl e ↦ grind (int_laws, find-insert (λ b. b.customer_id == row.customer_id) row rows)
      | inr (b, e) ↦ ground (
        arith,
        find-update (λ b. b.customer_id == row.customer_id) (λ b. b.customer_id == row.customer_id)
            (λ b. record b { balance_cents = b.balance_cents +ℤ row.balance_cents }) (λ b. refl)
            rows,
        find-holds (λ b. b.customer_id == row.customer_id) rows e,
      )
    ]
