-- ===== src/Credits/Notes.antt =====
-- Issuing credit notes.
use edge_billing_service.Base.{
  ℕ, ℤ, pos, ◌+◌, ◌+ℤ◌, abs, leb_ℤ, ltb_ℤ, ◌≡◌, ◌⊎◌, refl, sym, subst, ap, ◌∙◌, Option, none, some,
  arith, find, insert, ◌==◌, Option-cases, Bool-cases, inl, inr, abs_of_nonneg,
}
use edge_billing_service.Store.Rows.{
  LedgerEntry, CreditBalance, CreditNote, ReferenceType, accounts_receivable, credits,
  credit_note_issued,
}
use edge_billing_service.Store.Action.{
  Store, Result, ok, err, Error, invoice_not_found, credit_exceeds_invoice, pure, outcome,
  transaction, transaction-ok, transaction-err, >>=-ok, >>=-err,
}
use edge_billing_service.Ledger.Service.{
  create_entry, record_credit_note_issued, record_credit_note_reversed,
}
use edge_billing_service.Ledger.Posting.{Posts, create_entry-Posts_any}
use edge_billing_service.Credits.Service.{
  upsert_balance, upsert_rows, check_credit_invoice, save_credit_note, post_credit_note,
  write_credit_note, issue_credit_note,
}
use edge_billing_service.Credits.Balances.{balance_of, upsert_rows_self}

-- The row that a note upserts.
abbrev balance_row : CreditNote → CreditBalance
balance_row n = record {
  customer_id = n.customer_id;
  balance_cents = n.amount_cents;
  currency = "usd";
}

-- The note and the balance are written, the ledger entry is not.
abbrev noted : CreditNote → Store → Store
noted n s = record s {
  credit_notes = insert n s.credit_notes;
  credit_balances = upsert_rows (balance_row n) n.amount_cents s.credit_balances;
}

-- The transaction of a note: the note, the balance and one ledger entry, or an error.
abbrev Wrote : CreditNote → Store → Result (Unit {0}) × Store → Type 0
Wrote n s (ok u, t) =
    (t.credit_notes ≡ insert n s.credit_notes)
    × (t.credit_balances ≡ upsert_rows (balance_row n) n.amount_cents s.credit_balances)
    × ((e : LedgerEntry) × (e.amount_cents ≡ abs n.amount_cents)
        × (t.ledger_entries ≡ insert e s.ledger_entries))
Wrote n s (err e, t) = Unit {0}

post_credit_note-Posts :
    (n : CreditNote) (correlation : ℕ) (s : Store)
    → Posts (abs n.amount_cents) s (post_credit_note n correlation s)
unfolding post_credit_note record_credit_note_issued record_credit_note_reversed
post_credit_note-Posts n correlation s = elim (Bool-cases (leb_ℤ (pos 0) n.amount_cents)) [
  | inl credit ↦
      let same = sym (abs_of_nonneg n.amount_cents credit) in
      rw credit (
        subst
          (λ a. Posts a s (
            create_entry credits accounts_receivable n.amount_cents "usd" ReferenceType.credit_note
              n.id credit_note_issued correlation s))
          same
          (create_entry-Posts_any credits accounts_receivable n.amount_cents "usd"
            ReferenceType.credit_note n.id credit_note_issued correlation s))
  | inr reversal ↦
      rw reversal (create_entry-Posts_any _ _ (abs n.amount_cents) "usd" _ n.id _ correlation s)
]

write_credit_note-Wrote :
    (n : CreditNote) (correlation : ℕ) (s : Store) → Wrote n s (write_credit_note n correlation s)
unfolding write_credit_note upsert_balance
write_credit_note-Wrote n correlation s = elim (post_credit_note-Posts n correlation (noted n s)) [
  | inl (e, amount, run) ↦
      subst (Wrote n s)
        (sym (>>=-ok (post_credit_note n correlation) (λ _. pure tt) (noted n s) run))
        (refl, refl, (e, amount, refl))
  | inr (x, run) ↦
      subst (Wrote n s)
        (sym (>>=-err (post_credit_note n correlation) (λ _. pure tt) (noted n s) run)) tt
]

-- What `issueCreditNote` has done when it ends: the note is stored, the customer's balance has
-- grown by its amount and one ledger entry of its magnitude is written, or it raised and no note, balance or ledger entry has changed.
abbrev pub Issues : ℕ → ℤ → Store → Result CreditNote × Store → Type 0
Issues customer_id amount s (ok n, t) =
    (n.customer_id ≡ customer_id)
    × (n.amount_cents ≡ amount)
    × (t.credit_notes ≡ insert n s.credit_notes)
    × (balance_of customer_id t.credit_balances
        ≡ balance_of customer_id s.credit_balances +ℤ amount)
    × ((e : LedgerEntry) × (e.amount_cents ≡ abs amount)
        × (t.ledger_entries ≡ insert e s.ledger_entries))
Issues customer_id amount s (err e, t) =
    (t.credit_notes ≡ s.credit_notes)
    × (t.credit_balances ≡ s.credit_balances)
    × (t.ledger_entries ≡ s.ledger_entries)

-- The checks raise or pass, and change nothing.
check_credit_invoice-state :
    (customer_id : ℕ) (invoice_id : Option ℕ) (amount : ℤ) (s : Store)
    → (check_credit_invoice customer_id invoice_id amount s ≡ (ok tt, s))
      ⊎ ((x : Error) × (check_credit_invoice customer_id invoice_id amount s ≡ (err x, s)))
unfolding check_credit_invoice
check_credit_invoice-state customer_id none amount s = inl refl
check_credit_invoice-state customer_id (some id) amount s =
    elim (Option-cases (find (λ i. i.id == id) s.invoices)) [
      | inl missing ↦ inr (invoice_not_found id, ground arith)
      | inr (i, e) ↦ elim (Bool-cases (i.customer_id == customer_id)) [
        | inr foreign ↦ inr (invoice_not_found id, ground arith)
        | inl own ↦ elim (Bool-cases (ltb_ℤ i.total_amount_cents amount)) [
          | inl over ↦ inr (credit_exceeds_invoice amount i.total_amount_cents, ground arith)
          | inr fits ↦ inl (ground arith)
        ]
      ]
    ]

save_credit_note-Issues :
    (customer_id : ℕ) (invoice_id : Option ℕ) (amount : ℤ) (correlation : ℕ) (s : Store)
    → Issues customer_id amount s (save_credit_note customer_id invoice_id amount correlation s)
unfolding save_credit_note
save_credit_note-Issues customer_id invoice_id amount correlation s =
    let n : CreditNote = record {
      id = s.next_id;
      customer_id = customer_id;
      invoice_id = invoice_id;
      amount_cents = amount;
      currency = "usd";
    } in
    let drawn = record s { next_id = s.next_id + 1 } in
    let write = write_credit_note n correlation in
    let wrote = write_credit_note-Wrote n correlation drawn in
    elim (outcome (write drawn)) [
      | inl (u, t, e) ↦
          let w : Wrote n drawn (ok u, t) = subst (Wrote n drawn) e wrote in
          subst (Issues customer_id amount s)
            (sym (>>=-ok (transaction write) (λ _. pure n) drawn (transaction-ok write drawn e)))
            (
              refl,
              refl,
              w.0,
              ap (balance_of customer_id) w.1 ∙ upsert_rows_self (balance_row n) s.credit_balances,
              w.2,
            )
      | inr (x, t, e) ↦
          subst (Issues customer_id amount s)
            (sym (>>=-err (transaction write) (λ _. pure n) drawn (transaction-err write drawn e)))
            (refl, refl, refl)
    ]

-- Whatever the state, `issueCreditNote` is all or nothing: either the note of that customer and
-- amount is stored, the customer's balance has grown by the amount and one ledger entry of its
-- magnitude is written, or it raised and left notes, balances and ledger as they were.
pub issue_credit_note-Issues :
    (customer_id : ℕ) (invoice_id : Option ℕ) (amount : ℤ) (correlation : ℕ) (s : Store)
    → Issues customer_id amount s (issue_credit_note customer_id invoice_id amount correlation s)
unfolding issue_credit_note
issue_credit_note-Issues customer_id invoice_id amount correlation s =
    let rest = save_credit_note customer_id invoice_id amount correlation in
    let check = check_credit_invoice customer_id invoice_id amount in
    elim (Option-cases (find (λ c. c.id == customer_id) s.customers)) [
      | inl missing ↦ rw missing (refl, refl, refl)
      | inr (c, e) ↦ elim (check_credit_invoice-state customer_id invoice_id amount s) [
        | inl passed ↦ rw e (
            subst (Issues customer_id amount s) (sym (>>=-ok check (λ _. rest) s passed))
              (save_credit_note-Issues customer_id invoice_id amount correlation s))
        | inr (x, refused) ↦ rw e (
            subst (Issues customer_id amount s) (sym (>>=-err check (λ _. rest) s refused))
              (refl, refl, refl))
      ]
    ]
