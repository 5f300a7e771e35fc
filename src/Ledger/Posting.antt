-- ===== src/Ledger/Posting.antt =====
-- What a posting does: it writes one entry, or it raises and changes nothing.
use Prim.Native.String.{String}
use edge_billing_service.Base.{
  ℕ, ℤ, pos, ◌+◌, ◌≤ℤ◌, ◌≡◌, refl, ◌⊎◌, inl, inr, none, some, insert, arith, Option-cases,
  Bool-cases, leb_ℤ,
}
use edge_billing_service.Calendar.Date.{Date}
use edge_billing_service.Store.Rows.{Account, ReferenceType, LedgerText, LedgerEntry}
use edge_billing_service.Store.Action.{
  Result, Store, ok, err, Error, amount_not_positive, account_not_found,
}
use edge_billing_service.Ledger.Service.{account_lookup, create_entry}

-- The state with one more entry, under the next identifier.
abbrev pub posted : Store → LedgerEntry → Store
posted s e = record s { next_id = s.next_id + 1; ledger_entries = insert e s.ledger_entries }

-- The entry of a posting between two account identifiers.
abbrev pub entry_between :
    Date → ℤ → String → ReferenceType → ℕ → LedgerText → ℕ → ℕ → ℕ → ℕ → LedgerEntry
entry_between now amount currency kind reference_id text correlation id debit_id credit_id =
    record {
      id = id;
      debit_account_id = debit_id;
      credit_account_id = credit_id;
      amount_cents = amount;
      currency = currency;
      reference_type = kind;
      reference_id = reference_id;
      description = text;
      correlation_id = correlation;
      created_at = now;
    }

-- What a posting has done: one entry of that amount is written, or nothing.
abbrev pub Posts : ℤ → Store → Result ℕ × Store → Type 0
Posts amount s r =
    ((e : LedgerEntry) × (e.amount_cents ≡ amount) × (r ≡ (ok s.next_id, posted s e)))
    ⊎ ((x : Error) × (r ≡ (err x, s)))

-- The reason to refuse a posting between two accounts.
abbrev pub Refuses : Account → Account → ℤ → Store → Error → Type 0
Refuses debit credit amount s e =
    ((amount ≤ℤ pos 0) × (e ≡ amount_not_positive amount))
    ⊎ (((account_lookup debit s.account_ids ≡ none) × (e ≡ account_not_found debit))
        ⊎ ((account_lookup credit s.account_ids ≡ none) × (e ≡ account_not_found credit)))

module _ (debit credit : Account) (amount : ℤ) (currency : String) (kind : ReferenceType)
    (reference_id : ℕ) (text : LedgerText) (correlation : ℕ) where
  abbrev entry : Date → ℕ → ℕ → ℕ → LedgerEntry
  entry now = entry_between now amount currency kind reference_id text correlation

  pub create_entry-ok :
      (s : Store) {d c : ℕ}
      → pos 1 ≤ℤ amount
      → account_lookup debit s.account_ids ≡ some d
      → account_lookup credit s.account_ids ≡ some c
      → create_entry debit credit amount currency kind reference_id text correlation s
        ≡ (ok s.next_id, posted s (entry s.clock s.next_id d c))
  unfolding create_entry
  create_entry-ok s h ed ec = ground arith

  -- A posting of a positive amount between known accounts writes one entry with that amount and
  -- those accounts. It raises, and leaves the state as it was, only when the amount is not positive,
  -- with that amount as the reason, or when one of the accounts is not known.
  pub create_entry-Posts :
      (s : Store)
      → ((pos 1 ≤ℤ amount)
          × ((d : ℕ) × (c : ℕ) × (account_lookup debit s.account_ids ≡ some d)
              × (account_lookup credit s.account_ids ≡ some c)
              × (create_entry debit credit amount currency kind reference_id text correlation s
                  ≡ (ok s.next_id, posted s (entry s.clock s.next_id d c)))))
        ⊎ ((e : Error) × (Refuses debit credit amount s e)
            × (create_entry debit credit amount currency kind reference_id text correlation s
                ≡ (err e, s)))
  unfolding create_entry
  create_entry-Posts s = elim (Bool-cases (leb_ℤ amount (pos 0))) [
    | inl refused ↦ inr (amount_not_positive amount, inl (ground arith, refl), ground arith)
    | inr positive ↦ elim (Option-cases (account_lookup debit s.account_ids)) [
      | inl unknown ↦ inr (account_not_found debit, inr (inl (unknown, refl)), ground arith)
      | inr (d, ed) ↦ elim (Option-cases (account_lookup credit s.account_ids)) [
        | inl unknown ↦ inr (account_not_found credit, inr (inr (unknown, refl)), ground arith)
        | inr (c, ec) ↦
            let h : pos 1 ≤ℤ amount = ground arith in
            inl (h, (d, c, ed, ec, create_entry-ok s h ed ec))
      ]
    ]
  ]

  pub create_entry-Posts_any :
      (s : Store)
      → Posts amount s
          (create_entry debit credit amount currency kind reference_id text correlation s)
  create_entry-Posts_any s = elim (create_entry-Posts s) [
    | inl (h, (d, c, ed, ec, e)) ↦ inl (entry s.clock s.next_id d c, refl, e)
    | inr (x, _, e) ↦ inr (x, e)
  ]
