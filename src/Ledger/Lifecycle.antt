-- ===== src/Ledger/Lifecycle.antt =====
-- The postings of a business event offset those of the event that it settles or undoes.
use Prim.Native.String.{String}
use edge_billing_service.Base.{
  ℕ, ℤ, pos, ◌+ℤ◌, ◌-ℤ◌, ◌≤ℤ◌, ◌≡◌, ◌≢◌, ap, ◌∙◌, some, List, int_laws, insert,
}
use edge_billing_service.Store.Rows.{
  Account, accounts_receivable, revenue, cash, credits, refunds, LedgerEntry,
}
use edge_billing_service.Store.Action.{Store, Action, ok, ◌>>◌, >>=-ok}
use edge_billing_service.Ledger.Service.{
  account_lookup, record_invoice_finalized, record_payment_succeeded, record_invoice_voided,
  record_refund_succeeded, record_credit_note_issued, record_credit_applied,
}
use edge_billing_service.Ledger.Posting.{posted, create_entry-ok}
use edge_billing_service.Ledger.Balance.{effect, account_balance, account_balance-insert}

-- The chart of accounts is loaded: each account has an identifier of its own.
pub record HasChart (ids : List (Account × ℕ)) : Type 0 where
  pub receivable : ℕ
  pub income : ℕ
  pub bank : ℕ
  pub credit : ℕ
  pub refunded : ℕ
  pub receivable_known : account_lookup accounts_receivable ids ≡ some receivable
  pub income_known : account_lookup revenue ids ≡ some income
  pub bank_known : account_lookup cash ids ≡ some bank
  pub credit_known : account_lookup credits ids ≡ some credit
  pub refunded_known : account_lookup refunds ids ≡ some refunded
  pub receivable_ne_income : receivable ≢ income
  pub receivable_ne_bank : receivable ≢ bank
  pub receivable_ne_credit : receivable ≢ credit
  pub income_ne_bank : income ≢ bank
  pub bank_ne_refunded : bank ≢ refunded
  pub receivable_ne_refunded : receivable ≢ refunded

-- Two entries posted one after the other.
two_postings :
    (m k : Action ℕ) (s : Store) (e f : LedgerEntry) {i j : ℕ}
    → m s ≡ (ok i, posted s e)
    → k (posted s e) ≡ (ok j, posted (posted s e) f)
    → (a : ℕ)
    → account_balance a ((m >> k) s).1.ledger_entries
      ≡ account_balance a s.ledger_entries +ℤ effect a e +ℤ effect a f
two_postings m k s e f me ke a =
    ap (λ r. account_balance a r.1.ledger_entries) (>>=-ok m (λ _. k) s me ∙ ke)
    ∙ account_balance-insert a f (insert e s.ledger_entries)
    ∙ ap (λ b. b +ℤ effect a f) (account_balance-insert a e s.ledger_entries)

module _ (s : Store) (chart : HasChart s.account_ids) (amount : ℤ) (currency : String)
    (positive : pos 1 ≤ℤ amount) (first second correlation : ℕ) where
  abbrev before_balance : ℕ → ℤ
  before_balance a = account_balance a s.ledger_entries

  -- The balances after two postings of the amount, between given accounts.
  both :
      (m k : Action ℕ) (e f : LedgerEntry) {i j : ℕ}
      → m s ≡ (ok i, posted s e)
      → k (posted s e) ≡ (ok j, posted (posted s e) f)
      → (a : ℕ)
      → account_balance a ((m >> k) s).1.ledger_entries
        ≡ before_balance a +ℤ effect a e +ℤ effect a f
  both m k e f = two_postings m k s e f

  -- With the chart of accounts loaded, a paid invoice leaves nothing receivable: finalizing and
  -- paying the same positive amount moves it from revenue to cash and leaves the receivables as they
  -- were.
  pub payment_settles_invoice :
      let (r, t) =
        (record_invoice_finalized first amount currency correlation
            >> record_payment_succeeded second amount currency correlation)
          s in
      (account_balance chart.receivable t.ledger_entries ≡ before_balance chart.receivable)
      × (account_balance chart.bank t.ledger_entries ≡ before_balance chart.bank +ℤ amount)
      × (account_balance chart.income t.ledger_entries ≡ before_balance chart.income -ℤ amount)
  unfolding record_invoice_finalized record_payment_succeeded
  payment_settles_invoice =
      let run =
        both (record_invoice_finalized first amount currency correlation)
          (record_payment_succeeded second amount currency correlation) _ _
          (create_entry-ok _ _ amount currency _ first _ correlation s positive
            chart.receivable_known chart.income_known)
          (create_entry-ok _ _ amount currency _ second _ correlation (posted s _) positive
            chart.bank_known chart.receivable_known) in
      (
        run chart.receivable ∙ grind int_laws,
        run chart.bank ∙ grind int_laws,
        run chart.income ∙ grind int_laws,
      )

  -- With the chart of accounts loaded, voiding takes back what finalizing a positive amount posted:
  -- receivables and revenue are as they were.
  pub void_reverses_invoice :
      let (r, t) =
        (record_invoice_finalized first amount currency correlation
            >> record_invoice_voided second amount currency correlation)
          s in
      (account_balance chart.receivable t.ledger_entries ≡ before_balance chart.receivable)
      × (account_balance chart.income t.ledger_entries ≡ before_balance chart.income)
  unfolding record_invoice_finalized record_invoice_voided
  void_reverses_invoice =
      let run =
        both (record_invoice_finalized first amount currency correlation)
          (record_invoice_voided second amount currency correlation) _ _
          (create_entry-ok _ _ amount currency _ first _ correlation s positive
            chart.receivable_known chart.income_known)
          (create_entry-ok _ _ amount currency _ second _ correlation (posted s _) positive
            chart.income_known chart.receivable_known) in
      (run chart.receivable ∙ grind int_laws, run chart.income ∙ grind int_laws)

  -- With the chart of accounts loaded, a refund of a positive payment takes the cash out again and
  -- books it under refunds; the receivables keep the credit of the payment.
  pub refund_reverses_cash :
      let (r, t) =
        (record_payment_succeeded first amount currency correlation
            >> record_refund_succeeded second amount currency correlation)
          s in
      (account_balance chart.bank t.ledger_entries ≡ before_balance chart.bank)
      × (account_balance chart.refunded t.ledger_entries ≡ before_balance chart.refunded +ℤ amount)
      × (account_balance chart.receivable t.ledger_entries
          ≡ before_balance chart.receivable -ℤ amount)
  unfolding record_payment_succeeded record_refund_succeeded
  refund_reverses_cash =
      let run =
        both (record_payment_succeeded first amount currency correlation)
          (record_refund_succeeded second amount currency correlation) _ _
          (create_entry-ok _ _ amount currency _ first _ correlation s positive chart.bank_known
            chart.receivable_known)
          (create_entry-ok _ _ amount currency _ second _ correlation (posted s _) positive
            chart.refunded_known chart.bank_known) in
      (
        run chart.bank ∙ grind int_laws,
        run chart.refunded ∙ grind int_laws,
        run chart.receivable ∙ grind int_laws,
      )

  -- With the chart of accounts loaded, applying a positive credit to an invoice undoes the postings
  -- of its issue: the credits account and the receivables are as they were.
  pub credit_application_offsets_issue :
      let (r, t) =
        (record_credit_note_issued first amount currency correlation
            >> record_credit_applied second amount currency correlation)
          s in
      (account_balance chart.credit t.ledger_entries ≡ before_balance chart.credit)
      × (account_balance chart.receivable t.ledger_entries ≡ before_balance chart.receivable)
  unfolding record_credit_note_issued record_credit_applied
  credit_application_offsets_issue =
      let run =
        both (record_credit_note_issued first amount currency correlation)
          (record_credit_applied second amount currency correlation) _ _
          (create_entry-ok _ _ amount currency _ first _ correlation s positive chart.credit_known
            chart.receivable_known)
          (create_entry-ok _ _ amount currency _ second _ correlation (posted s _) positive
            chart.receivable_known chart.credit_known) in
      (run chart.credit ∙ grind int_laws, run chart.receivable ∙ grind int_laws)
