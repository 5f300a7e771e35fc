-- ===== src/Tests/Ledgers.antt =====
-- Postings and credits at concrete inputs.
use edge_billing_service.Base.{ℕ, pos, ◌+ℤ◌, ◌-ℤ◌, ◌≡◌, ◌⊎◌, refl, some, arith}
use edge_billing_service.Base.Int.{◌≤ℤ◌}
use edge_billing_service.Store.Rows.{accounts_receivable, revenue, ReferenceType, invoice_finalized}
use edge_billing_service.Store.Action.{ok, err, Error, ◌>>◌}
use edge_billing_service.Ledger.Service.{
  account_lookup, create_entry, record_invoice_finalized, record_payment_succeeded,
  record_invoice_voided,
}
use edge_billing_service.Ledger.Posting.{posted, entry_between, create_entry-Posts, Refuses}
use edge_billing_service.Ledger.Balance.{account_balance}
use edge_billing_service.Ledger.Lifecycle.{HasChart, payment_settles_invoice, void_reverses_invoice}
use edge_billing_service.Credits.Service.{apply_credits_to_invoice, issue_credit_note}
use edge_billing_service.Credits.Application.{Conserves, apply_credits-Conserves}
use edge_billing_service.Credits.Notes.{Issues, issue_credit_note-Issues}
use edge_billing_service.Tests.Sample.{sample, chart, today}

abbrev sample_chart : HasChart chart
sample_chart = record {
  receivable = 1;
  income = 2;
  bank = 3;
  credit = 4;
  refunded = 5;
  receivable_known = refl;
  income_known = refl;
  bank_known = refl;
  credit_known = refl;
  refunded_known = refl;
  receivable_ne_income = omega arith;
  receivable_ne_bank = omega arith;
  receivable_ne_credit = omega arith;
  income_ne_bank = omega arith;
  bank_ne_refunded = omega arith;
  receivable_ne_refunded = omega arith;
}

payment_settles_invoice_example :
    let (r, t) =
      (record_invoice_finalized 11 (pos 7000) "usd" 1
          >> record_payment_succeeded 30 (pos 7000) "usd" 1)
        sample in
    (account_balance 1 t.ledger_entries ≡ account_balance 1 sample.ledger_entries)
    × (account_balance 3 t.ledger_entries ≡ account_balance 3 sample.ledger_entries +ℤ pos 7000)
    × (account_balance 2 t.ledger_entries ≡ account_balance 2 sample.ledger_entries -ℤ pos 7000)
payment_settles_invoice_example =
    payment_settles_invoice sample sample_chart (pos 7000) "usd" (omega arith) 11 30 1

void_reverses_invoice_example :
    let (r, t) =
      (record_invoice_finalized 11 (pos 7000) "usd" 1
          >> record_invoice_voided 11 (pos 7000) "usd" 1)
        sample in
    (account_balance 1 t.ledger_entries ≡ account_balance 1 sample.ledger_entries)
    × (account_balance 2 t.ledger_entries ≡ account_balance 2 sample.ledger_entries)
void_reverses_invoice_example =
    void_reverses_invoice sample sample_chart (pos 7000) "usd" (omega arith) 11 11 1

create_entry-Posts_example :
    ((pos 1 ≤ℤ pos 7000)
      × ((d : ℕ) × (c : ℕ) × (account_lookup accounts_receivable chart ≡ some d)
          × (account_lookup revenue chart ≡ some c)
          × (create_entry accounts_receivable revenue
                (pos 7000)
                "usd"
                ReferenceType.invoice
                11
                invoice_finalized
                1
                sample
              ≡ (
                ok 100,
                posted sample (
                    entry_between today
                      (pos 7000)
                      "usd"
                      ReferenceType.invoice
                      11
                      invoice_finalized
                      1
                      100
                      d
                      c),
              ))))
    ⊎ ((e : Error) × Refuses accounts_receivable revenue (pos 7000) sample e
        × (create_entry accounts_receivable revenue
              (pos 7000)
              "usd"
              ReferenceType.invoice
              11
              invoice_finalized
              1
              sample
            ≡ (err e, sample)))
create_entry-Posts_example =
    create_entry-Posts accounts_receivable revenue (pos 7000) "usd" ReferenceType.invoice 11
      invoice_finalized 1 sample

apply_credits-Conserves_example :
    Conserves 11 7
      (pos 9700)
      "usd"
      1
      sample
      (apply_credits_to_invoice 11 7 (pos 9700) "usd" 1 sample)
apply_credits-Conserves_example = apply_credits-Conserves 11 7 (pos 9700) "usd" 1 sample

issue_credit_note-Issues_example :
    Issues 7 (pos 400) sample (issue_credit_note 7 (some 11) (pos 400) 1 sample)
issue_credit_note-Issues_example = issue_credit_note-Issues 7 (some 11) (pos 400) 1 sample
