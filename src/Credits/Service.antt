-- ===== src/Credits/Service.antt =====
-- src/credits/credits.service.ts and src/credits/credit-balances.repository.ts: credit notes and
-- the credit balances that pay for invoices.
use Prim.Native.String.{String}
use edge_billing_service.Base.{
  ℕ, ℤ, pos, ◌+ℤ◌, ◌-ℤ◌, neg, abs, min_ℤ, leb_ℤ, ltb_ℤ, eqb_ℤ, not, Option, none, some, List, ◌==◌,
  find, update, insert, if◌then◌else◌,
}
use edge_billing_service.Store.Rows.{Customer, CreditBalance, CreditNote, LineItemType}
use edge_billing_service.Store.Action.{
  Action, pure, gets, or_raise, raise_if, modify, generate_id, transaction, customer_not_found,
  invoice_not_found, credit_exceeds_invoice, ◌>>=◌, ◌>>◌,
}
use edge_billing_service.Ledger.Service.{
  record_credit_note_issued, record_credit_note_reversed, record_credit_applied,
}
use edge_billing_service.Invoices.Repository.{find_invoice, update_invoice, create_line_item}

-- `customersService.findById`
abbrev pub find_customer : ℕ → Action (Option Customer)
find_customer id = gets (λ s. find (λ c. c.id == id) s.customers)

-- `creditBalancesRepo.findByCustomerInTx`
abbrev pub find_balance : ℕ → Action (Option CreditBalance)
find_balance customer_id = gets (λ s. find (λ b. b.customer_id == customer_id) s.credit_balances)

-- `creditBalancesRepo.upsertInTx`: insert the row, or add the amount to the one that is there.
abbrev pub upsert_rows : CreditBalance → ℤ → List CreditBalance → List CreditBalance
upsert_rows row increment rows = elim (find (λ b. b.customer_id == row.customer_id) rows) [
  | none ↦ insert row rows
  | some old ↦
      update (λ b. b.customer_id == row.customer_id)
        (λ b. record b { balance_cents = b.balance_cents +ℤ increment }) rows
]

unfoldable pub upsert_balance : CreditBalance → ℤ → Action (Unit {0})
upsert_balance row increment =
    modify (λ s. record s { credit_balances = upsert_rows row increment s.credit_balances })

-- `creditBalancesRepo.deductInTx`
unfoldable pub deduct_balance : ℕ → ℤ → Action (Unit {0})
deduct_balance customer_id amount = modify (λ s. record s {
  credit_balances =
      update (λ b. b.customer_id == customer_id)
        (λ b. record b { balance_cents = b.balance_cents -ℤ amount }) s.credit_balances;
})

-- The checks of `issueCreditNote` before it writes.
unfoldable pub check_credit_invoice : ℕ → Option ℕ → ℤ → Action (Unit {0})
check_credit_invoice customer_id none amount = pure tt
check_credit_invoice customer_id (some invoice_id) amount = do
  found ← find_invoice invoice_id
  invoice ← or_raise found (invoice_not_found invoice_id)
  raise_if (not (invoice.customer_id == customer_id)) (invoice_not_found invoice_id)
  raise_if (ltb_ℤ invoice.total_amount_cents amount)
      (credit_exceeds_invoice amount invoice.total_amount_cents)

abbrev pub insert_note : CreditNote → Action (Unit {0})
insert_note n = modify (λ s. record s { credit_notes = insert n s.credit_notes })

-- A positive amount is posted as a credit, a negative one as a reversal of its magnitude.
unfoldable pub post_credit_note : CreditNote → ℕ → Action ℕ
post_credit_note note correlation =
    if leb_ℤ (pos 0) note.amount_cents
    then record_credit_note_issued note.id note.amount_cents "usd" correlation
    else record_credit_note_reversed note.id (abs note.amount_cents) "usd" correlation

-- The transaction of `issueCreditNote`: the note, the balance and the ledger entry.
unfoldable pub write_credit_note : CreditNote → ℕ → Action (Unit {0})
write_credit_note note correlation = do
  insert_note note
  upsert_balance
      (record {
        customer_id = note.customer_id;
        balance_cents = note.amount_cents;
        currency = "usd";
      })
      note.amount_cents
  post_credit_note note correlation
  pure tt

-- The writes of `issueCreditNote`, in one transaction.
unfoldable pub save_credit_note : ℕ → Option ℕ → ℤ → ℕ → Action CreditNote
save_credit_note customer_id invoice_id amount correlation = do
  id ← generate_id
  let note : CreditNote = record {
    id = id;
    customer_id = customer_id;
    invoice_id = invoice_id;
    amount_cents = amount;
    currency = "usd";
  }
  transaction (write_credit_note note correlation)
  pure note

unfoldable pub issue_credit_note : ℕ → Option ℕ → ℤ → ℕ → Action CreditNote
issue_credit_note customer_id invoice_id amount correlation = do
  customer ← find_customer customer_id
  or_raise customer (customer_not_found customer_id)
  check_credit_invoice customer_id invoice_id amount
  save_credit_note customer_id invoice_id amount correlation

-- `CreditApplicationResult`
pub record CreditApplication : Type 0 where
  pub credit_applied : ℤ
  pub new_total : ℤ

-- The writes of `applyCreditsToInvoice` once there is a balance to apply.
unfoldable pub write_credit_application : ℕ → ℕ → ℤ → ℤ → String → ℕ → Action CreditApplication
write_credit_application invoice_id customer_id total balance currency correlation = do
  let credit_to_apply = min_ℤ balance total
  let new_total = total -ℤ credit_to_apply
  item_id ← generate_id
  create_line_item (record {
    id = item_id;
    invoice_id = invoice_id;
    type = LineItemType.credit_applied;
    amount_cents = neg credit_to_apply;
    quantity = 1;
  })
  update_invoice invoice_id (λ i. record i {
    total_amount_cents = new_total;
    credit_adjustment_cents = some credit_to_apply;
  })
  deduct_balance customer_id credit_to_apply
  record_credit_applied invoice_id credit_to_apply currency correlation
  pure (record { credit_applied = credit_to_apply; new_total = new_total })

-- The rest of `applyCreditsToInvoice` once the balance is read.
unfoldable pub apply_balance :
    ℕ → ℕ → ℤ → String → ℕ → Option CreditBalance → Action CreditApplication
apply_balance invoice_id customer_id total currency correlation none =
    pure (record { credit_applied = pos 0; new_total = total })
apply_balance invoice_id customer_id total currency correlation (some b) =
    if eqb_ℤ b.balance_cents (pos 0)
    then pure (record { credit_applied = pos 0; new_total = total })
    else write_credit_application invoice_id customer_id total b.balance_cents currency correlation

unfoldable pub apply_credits_to_invoice : ℕ → ℕ → ℤ → String → ℕ → Action CreditApplication
unfolding apply_balance
apply_credits_to_invoice invoice_id customer_id total currency correlation = do
  found ← find_balance customer_id
  apply_balance invoice_id customer_id total currency correlation found
