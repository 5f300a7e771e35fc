-- ===== src/Credits/Application.antt =====
-- Applying a credit balance to an invoice.
use Prim.Native.String.{String}
use edge_billing_service.Base.{
  ℕ, ℤ, Bool, pos, ◌+◌, ◌+ℤ◌, ◌-ℤ◌, ◌≤ℤ◌, neg, min_ℤ, eqb_ℤ, ◌≡◌, refl, ap, ◌∙◌, ◌⊎◌, Option, some,
  List, arith, find, update, insert, map_row, find-update_self, ◌==◌, if◌then◌else◌, Option-cases,
  Bool-cases, inl, inr, int_laws, true, false,
}
use edge_billing_service.Calendar.Date.{Date}
use edge_billing_service.Store.Rows.{
  CreditBalance, Invoice, LedgerEntry, LineItemType, ReferenceType, accounts_receivable, credits,
  credit_applied_to_invoice,
}
use edge_billing_service.Store.Action.{Store, Result, ok, err, Error, row_expected, pure}
use edge_billing_service.Ledger.Service.{account_lookup, record_credit_applied}
use edge_billing_service.Ledger.Posting.{posted, entry_between, create_entry-ok, create_entry-Posts}
use edge_billing_service.Credits.Service.{
  CreditApplication, deduct_balance, write_credit_application, apply_balance,
  apply_credits_to_invoice,
}
use edge_billing_service.Credits.Balances.{balance_of, deduct_balance_self}

-- The invoice with a credit taken off its total.
abbrev pub with_credit : ℤ → ℤ → Invoice → Invoice
with_credit total credit i = record i {
  total_amount_cents = total -ℤ credit;
  credit_adjustment_cents = some credit;
}

module _ (invoice_id customer_id : ℕ) (total balance : ℤ) (currency : String)
    (correlation : ℕ) where
  -- What is applied: the balance or the total, whichever is less.
  abbrev pub applied : ℤ
  applied = min_ℤ balance total

  -- The state once the line item is written.
  abbrev pub itemized : Store → Store
  itemized s = record s {
    next_id = s.next_id + 1;
    line_items =
        insert
          (record {
            id = s.next_id;
            invoice_id = invoice_id;
            type = LineItemType.credit_applied;
            amount_cents = neg applied;
            quantity = 1;
          })
          s.line_items;
  }

  -- The state before the ledger entry: the invoice and the balance are written too.
  abbrev pub credited : Store → Store
  credited s = record (itemized s) {
    invoices = update (λ i. i.id == invoice_id) (with_credit total applied) s.invoices;
    credit_balances =
        update (λ b. b.customer_id == customer_id)
          (λ b. record b { balance_cents = b.balance_cents -ℤ applied }) s.credit_balances;
  }

  -- The entry of the application.
  abbrev pub application_entry : Date → ℕ → ℕ → ℕ → LedgerEntry
  application_entry now id receivable credit =
      entry_between now applied currency ReferenceType.credit_application invoice_id
        credit_applied_to_invoice correlation id receivable credit

  pub write_credit_application-ok :
      (s : Store) {i : Invoice} {receivable credit : ℕ}
      → find (λ i. i.id == invoice_id) s.invoices ≡ some i
      → account_lookup accounts_receivable s.account_ids ≡ some receivable
      → account_lookup credits s.account_ids ≡ some credit
      → pos 1 ≤ℤ applied
      → write_credit_application invoice_id customer_id total balance currency correlation s ≡ (
        ok (record { credit_applied = applied; new_total = total -ℤ applied }),
        posted (credited s) (application_entry s.clock (s.next_id + 1) receivable credit),
      )
  unfolding write_credit_application record_credit_applied deduct_balance
  write_credit_application-ok s {receivable = receivable} {credit = credit} ei er ec h = ground (
    arith,
    create_entry-ok accounts_receivable credits applied currency ReferenceType.credit_application
        invoice_id credit_applied_to_invoice correlation (credited s) {d = receivable} {c = credit}
        h er ec,
  )

  -- The writes succeed, with a positive amount, or raise.
  pub write_credit_application-cases :
      (s : Store)
      → ((pos 1 ≤ℤ applied)
          × ((receivable : ℕ) × (credit : ℕ) × (write_credit_application invoice_id customer_id
                  total balance currency correlation s
                ≡ (
                  ok (record { credit_applied = applied; new_total = total -ℤ applied }),
                  posted (credited s) (application_entry s.clock (s.next_id + 1) receivable credit),
                ))))
        ⊎ ((e : Error) × (t : Store) × (write_credit_application invoice_id customer_id total
                balance currency correlation s
              ≡ (err e, t)))
  unfolding write_credit_application record_credit_applied deduct_balance
  write_credit_application-cases s =
      elim (Option-cases (find (λ i. i.id == invoice_id) s.invoices)) [
        | inl missing ↦ inr (row_expected, itemized s, ground arith)
        | inr (i, ei) ↦
            elim (create_entry-Posts accounts_receivable credits applied currency
              ReferenceType.credit_application invoice_id credit_applied_to_invoice correlation
              (credited s)) [
                | inl (h, (r, c, er, ec, e)) ↦ inl (h, (r, c, ground arith))
                | inr (x, _, e) ↦ inr (x, credited s, ground arith)
              ]
      ]

abbrev pub total_of : ℕ → List Invoice → Option ℤ
total_of id invoices = map_row (λ i. i.total_amount_cents) (find (λ i. i.id == id) invoices)

module _ (invoice_id customer_id : ℕ) (total : ℤ) (currency : String) (correlation : ℕ)
    (s : Store) where
  -- With a positive balance, a positive total, an existing invoice and the two accounts known,
  -- the call succeeds: it applies the lesser of balance and total, takes it off the balance, and
  -- the invoice is left with the rest.
  pub apply_credits_pays :
      {b : CreditBalance} {i : Invoice} {receivable credit : ℕ}
      → find (λ b. b.customer_id == customer_id) s.credit_balances ≡ some b
      → find (λ i. i.id == invoice_id) s.invoices ≡ some i
      → account_lookup accounts_receivable s.account_ids ≡ some receivable
      → account_lookup credits s.account_ids ≡ some credit
      → pos 1 ≤ℤ b.balance_cents
      → pos 1 ≤ℤ total
      → let (r, t) = apply_credits_to_invoice invoice_id customer_id total currency correlation s in
        let c = min_ℤ b.balance_cents total in
        (r ≡ ok (record { credit_applied = c; new_total = total -ℤ c }))
        × (balance_of customer_id t.credit_balances ≡ b.balance_cents -ℤ c)
        × (total_of invoice_id t.invoices ≡ some (total -ℤ c))
  unfolding apply_credits_to_invoice deduct_balance
  apply_credits_pays {b} {i} {receivable} {credit} eb ei er ec hb ht =
      let c = min_ℤ b.balance_cents total in
      let run =
        write_credit_application-ok invoice_id customer_id total b.balance_cents currency
          correlation s ei er ec (ground arith) in
      let whole : apply_credits_to_invoice invoice_id customer_id total currency correlation s ≡ (
        ok (record { credit_applied = c; new_total = total -ℤ c }),
        posted (credited invoice_id customer_id total b.balance_cents currency correlation s) (
            application_entry invoice_id customer_id total b.balance_cents currency correlation
              s.clock (s.next_id + 1) receivable credit),
      ) =
        ground (arith, run) in
      (
        ap (λ r. r.0) whole,
        ap (λ r. balance_of customer_id r.1.credit_balances) whole
            ∙ deduct_balance_self customer_id c s eb,
        ap (λ r. total_of invoice_id r.1.invoices) whole
            ∙ ap (map_row (λ i. i.total_amount_cents)) (
                find-update_self (λ i. i.id == invoice_id) (with_credit total c) (λ i. refl)
                  s.invoices)
            ∙ ap (λ o. map_row (λ i. i.total_amount_cents) (map_row (with_credit total c) o)) ei,
      )

  -- What a call of `applyCreditsToInvoice` that began in `s` has done, if it returned: what it
  -- applied and what is left to pay make up the total, the amount applied is not negative, and the
  -- balance has fallen by it.
  abbrev pub Conserves : Result CreditApplication × Store → Type 0
  Conserves (ok r, t) =
      (r.credit_applied +ℤ r.new_total ≡ total)
      × (pos 0 ≤ℤ r.credit_applied)
      × (balance_of customer_id t.credit_balances +ℤ r.credit_applied
          ≡ balance_of customer_id s.credit_balances)
  Conserves (err e, t) = Unit {0}

  unchanged-Conserves : Conserves (ok (record { credit_applied = pos 0; new_total = total }), s)
  unchanged-Conserves = (omega int_laws, omega arith, omega int_laws)

  write-Conserves :
      (b : CreditBalance)
      → find (λ b. b.customer_id == customer_id) s.credit_balances ≡ some b
      → Conserves (
          write_credit_application invoice_id customer_id total b.balance_cents currency correlation
            s)
  unfolding deduct_balance
  write-Conserves b eb =
      elim (write_credit_application-cases invoice_id customer_id total b.balance_cents currency
        correlation s) [
          | inr (x, t, e) ↦ rw e tt
          | inl (h, (receivable, credit, e)) ↦
              let c = min_ℤ b.balance_cents total in
              rw e (
                omega int_laws,
                omega arith,
                rw (deduct_balance_self customer_id c s eb, eb) (omega int_laws),
              )
        ]

  pub apply_credits-unchanged :
      eqb_ℤ (balance_of customer_id s.credit_balances) (pos 0) ≡ true
      → apply_credits_to_invoice invoice_id customer_id total currency correlation s
        ≡ (ok (record { credit_applied = pos 0; new_total = total }), s)
  unfolding apply_credits_to_invoice
  apply_credits-unchanged h = ground arith

  pub apply_credits-write :
      (b : CreditBalance)
      → find (λ b. b.customer_id == customer_id) s.credit_balances ≡ some b
      → eqb_ℤ b.balance_cents (pos 0) ≡ false
      → apply_credits_to_invoice invoice_id customer_id total currency correlation s
        ≡ write_credit_application invoice_id customer_id total b.balance_cents currency correlation
            s
  unfolding apply_credits_to_invoice
  apply_credits-write b e h =
      ap (λ o. apply_balance invoice_id customer_id total currency correlation o s) e
      ∙ ap
          (λ (z : Bool).
            (if z
                then pure (record { credit_applied = pos 0; new_total = total })
                else write_credit_application invoice_id customer_id total b.balance_cents currency
                    correlation)
              s)
          h

  -- Whatever the state, if `applyCreditsToInvoice` returns, then what it applied and what is left
  -- to pay make up the total, what it applied is not negative, and the customer's balance has
  -- fallen by what it applied.
  pub apply_credits-Conserves :
      Conserves (apply_credits_to_invoice invoice_id customer_id total currency correlation s)
  apply_credits-Conserves =
      elim (Option-cases (find (λ b. b.customer_id == customer_id) s.credit_balances)) [
        | inl missing ↦ rw (apply_credits-unchanged (ground arith)) unchanged-Conserves
        | inr (b, eb) ↦ elim (Bool-cases (eqb_ℤ b.balance_cents (pos 0))) [
          | inl empty ↦ rw (apply_credits-unchanged (ground arith)) unchanged-Conserves
          | inr funded ↦ rw (apply_credits-write b eb funded) (write-Conserves b eb)
        ]
      ]
