-- ===== src/Ledger/Balance.antt =====
-- The balances of the accounts, and how the postings of one business event offset another's.
use edge_billing_service.Base.{
  ℕ, ℤ, pos, ◌+ℤ◌, ◌-ℤ◌, ◌≤ℤ◌, ◌≡◌, refl, sym, List, [], ◌∷◌, insert, arith, int_laws, ◌==◌,
  if◌then◌else◌, add_assoc,
}
use edge_billing_service.Calendar.Date.{Date}
use edge_billing_service.Store.Rows.{LedgerEntry, rollback_of}
use edge_billing_service.Store.Action.{Store, ok}
use edge_billing_service.Ledger.Service.{record_reversed_entry}
use edge_billing_service.Ledger.Posting.{posted}

-- What an entry adds to an account: its amount if it debits it, less its amount if it credits it.
abbrev pub effect : ℕ → LedgerEntry → ℤ
effect a e =
    (if e.debit_account_id == a then e.amount_cents else pos 0)
    -ℤ (if e.credit_account_id == a then e.amount_cents else pos 0)

-- Debits less credits.
abbrev pub account_balance : ℕ → List LedgerEntry → ℤ
account_balance a [] = pos 0
account_balance a (e ∷ es) = effect a e +ℤ account_balance a es

pub account_balance-insert :
    (a : ℕ) (e : LedgerEntry) (es : List LedgerEntry)
    → account_balance a (insert e es) ≡ account_balance a es +ℤ effect a e
account_balance-insert a e [] = omega int_laws
account_balance-insert a e (x ∷ es) = rw (account_balance-insert a e es) (sym (add_assoc _ _ _))

-- The entry that reverses another.
abbrev pub mirror : Date → ℕ → LedgerEntry → LedgerEntry
mirror now id e = record e {
  id = id;
  debit_account_id = e.credit_account_id;
  credit_account_id = e.debit_account_id;
  description = rollback_of e.description;
  created_at = now;
}

record_reversed_entry-ok :
    (original : LedgerEntry) (s : Store)
    → pos 1 ≤ℤ original.amount_cents
    → record_reversed_entry original s
      ≡ (ok s.next_id, posted s (mirror s.clock s.next_id original))
unfolding record_reversed_entry
record_reversed_entry-ok original s h = ground arith

effect-mirror :
    (now : Date) (a id : ℕ) (e : LedgerEntry) → effect a (mirror now id e) +ℤ effect a e ≡ pos 0
effect-mirror now a id e = omega int_laws

-- The reversal of an entry of a positive amount is posted, and with both every account has the
-- balance that it had without them.
pub reversed_entry_restores :
    (original : LedgerEntry) (s : Store) (a : ℕ)
    → pos 1 ≤ℤ original.amount_cents
    → let (r, t) = record_reversed_entry original s in
      (r ≡ ok s.next_id)
      × (account_balance a t.ledger_entries +ℤ effect a original
          ≡ account_balance a s.ledger_entries)
reversed_entry_restores original s a h = rw (record_reversed_entry-ok original s h) (
  refl,
  rw (account_balance-insert a (mirror s.clock s.next_id original) s.ledger_entries)
      (omega int_laws),
)
