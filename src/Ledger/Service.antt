-- ===== src/Ledger/Service.antt =====
-- src/ledger/ledger.service.ts: double-entry postings under named accounts.
use Prim.Native.String.{String}
use edge_billing_service.Base.{
  ℕ, ℤ, pos, Option, none, some, List, [], ◌∷◌, leb_ℤ, ◌===◌, insert, if◌then◌else◌,
}
use edge_billing_service.Calendar.Date.{Date}
use edge_billing_service.Store.Rows.{
  Account, accounts_receivable, revenue, cash, credits, refunds, ReferenceType, LedgerText,
  LedgerEntry, account_eq, invoice_finalized, payment_succeeded, credit_note_issued,
  credit_note_reversed, credit_applied_to_invoice, invoice_voided, refund_succeeded,
  migration_from_charge, migration_payment_from_charge, migration_void_of_charge,
  migration_from_payroll, migration_payment_from_payroll, rollback_of,
}
use edge_billing_service.Store.Action.{
  Action, pure, gets, or_raise, raise_if, modify, generate_id, ◌>>=◌, ◌>>◌, account_not_found,
  amount_not_positive,
}

-- `this.accountIds.get(name)`
abbrev pub account_lookup : Account → List (Account × ℕ) → Option ℕ
account_lookup name [] = none
account_lookup name ((a, id) ∷ rest) = if name === a then some id else account_lookup name rest

unfoldable pub get_account_id : Account → Action ℕ
get_account_id name = do
  ids ← gets (λ s. s.account_ids)
  or_raise (account_lookup name ids) (account_not_found name)

-- `ledgerEntriesRepo.createInTx`, with `createdAt: new Date()`
abbrev pub insert_entry : (Date → LedgerEntry) → Action (Unit {0})
insert_entry e = modify (λ s. record s { ledger_entries = insert (e s.clock) s.ledger_entries })

-- One insertion is atomic, with the caller's transaction or with one of its own.
unfoldable pub create_entry :
    Account → Account → ℤ → String → ReferenceType → ℕ → LedgerText → ℕ → Action ℕ
unfolding get_account_id
create_entry debit credit amount currency reference_type reference_id description correlation = do
  raise_if (leb_ℤ amount (pos 0)) (amount_not_positive amount)
  debit_id ← get_account_id debit
  credit_id ← get_account_id credit
  id ← generate_id
  insert_entry (λ now. record {
    id = id;
    debit_account_id = debit_id;
    credit_account_id = credit_id;
    amount_cents = amount;
    currency = currency;
    reference_type = reference_type;
    reference_id = reference_id;
    description = description;
    correlation_id = correlation;
    created_at = now;
  })
  pure id

unfoldable pub record_invoice_finalized : ℕ → ℤ → String → ℕ → Action ℕ
record_invoice_finalized invoice_id amount currency =
    create_entry accounts_receivable revenue amount currency ReferenceType.invoice invoice_id
      invoice_finalized

unfoldable pub record_payment_succeeded : ℕ → ℤ → String → ℕ → Action ℕ
record_payment_succeeded payment_id amount currency =
    create_entry cash accounts_receivable amount currency ReferenceType.payment payment_id
      payment_succeeded

unfoldable pub record_credit_note_issued : ℕ → ℤ → String → ℕ → Action ℕ
record_credit_note_issued note_id amount currency =
    create_entry credits accounts_receivable amount currency ReferenceType.credit_note note_id
      credit_note_issued

unfoldable pub record_credit_note_reversed : ℕ → ℤ → String → ℕ → Action ℕ
record_credit_note_reversed note_id amount currency =
    create_entry accounts_receivable credits amount currency ReferenceType.credit_note note_id
      credit_note_reversed

unfoldable pub record_credit_applied : ℕ → ℤ → String → ℕ → Action ℕ
record_credit_applied invoice_id amount currency =
    create_entry accounts_receivable credits amount currency ReferenceType.credit_application
      invoice_id credit_applied_to_invoice

unfoldable pub record_invoice_voided : ℕ → ℤ → String → ℕ → Action ℕ
record_invoice_voided invoice_id amount currency =
    create_entry revenue accounts_receivable amount currency ReferenceType.invoice_void invoice_id
      invoice_voided

unfoldable pub record_migration_invoice_finalized : ℕ → ℤ → String → ℕ → ℕ → Action ℕ
record_migration_invoice_finalized invoice_id amount currency charge_id =
    create_entry accounts_receivable revenue amount currency ReferenceType.migration invoice_id
      (migration_from_charge charge_id)

unfoldable pub record_migration_payment : ℕ → ℤ → String → ℕ → ℕ → Action ℕ
record_migration_payment invoice_id amount currency charge_id =
    create_entry cash accounts_receivable amount currency ReferenceType.migration invoice_id
      (migration_payment_from_charge charge_id)

unfoldable pub record_migration_payroll_finalized : ℕ → ℤ → String → ℕ → ℕ → Action ℕ
record_migration_payroll_finalized invoice_id amount currency payroll_id =
    create_entry accounts_receivable revenue amount currency ReferenceType.migration invoice_id
      (migration_from_payroll payroll_id)

unfoldable pub record_migration_payroll_payment : ℕ → ℤ → String → ℕ → ℕ → Action ℕ
record_migration_payroll_payment invoice_id amount currency payroll_id =
    create_entry cash accounts_receivable amount currency ReferenceType.migration invoice_id
      (migration_payment_from_payroll payroll_id)

unfoldable pub record_refund_succeeded : ℕ → ℤ → String → ℕ → Action ℕ
record_refund_succeeded refund_id amount currency =
    create_entry refunds cash amount currency ReferenceType.refund refund_id refund_succeeded

-- The mirror image of an existing entry.
unfoldable pub record_reversed_entry : LedgerEntry → Action ℕ
record_reversed_entry original = do
  raise_if (leb_ℤ original.amount_cents (pos 0)) (amount_not_positive original.amount_cents)
  id ← generate_id
  insert_entry (λ now. record {
    id = id;
    debit_account_id = original.credit_account_id;
    credit_account_id = original.debit_account_id;
    amount_cents = original.amount_cents;
    currency = original.currency;
    reference_type = original.reference_type;
    reference_id = original.reference_id;
    description = rollback_of original.description;
    correlation_id = original.correlation_id;
    created_at = now;
  })
  pure id

unfoldable pub record_migration_void_reversal : ℕ → ℤ → String → ℕ → ℕ → Action ℕ
record_migration_void_reversal invoice_id amount currency charge_id =
    create_entry revenue accounts_receivable amount currency ReferenceType.migration invoice_id
      (migration_void_of_charge charge_id)
