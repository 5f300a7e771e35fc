-- ===== src/Charges/Settling.antt =====
-- What the transaction of a payment does to the books.
use edge_billing_service.Charges.Books.{SameBooks, SameBooks-trans}
use edge_billing_service.Base.{
  find-update_self, map_row, find, Option-cases, ℕ, ℤ, ◌==◌, ◌≡◌, refl, ap, ◌∙◌, ◌⊎◌, inl, inr,
  arith, some, insert, update,
}
use edge_billing_service.StateMachine.Status.{
  InvoiceStatus, ChargeStatus, draft, finalized, paid, void, invoice_eq,
}
use edge_billing_service.Calendar.Date.{Date}
use edge_billing_service.Ledger.Service.{record_payment_succeeded}
use edge_billing_service.Ledger.Posting.{posted, create_entry-Posts_any}
use edge_billing_service.Store.Rows.{
  Charge, provider_eq, LedgerText, ReferenceType, accounts_receivable, cash, Invoice, LedgerEntry,
}
use edge_billing_service.Store.Action.{row_expected, Store, Action, ok, err, ◌>>=◌}
use edge_billing_service.Store.Moves.{Moves, bind-Moves}
use edge_billing_service.Invoices.Finalize.{status_of}
use edge_billing_service.Charges.Service.{Payment, pay_transaction, settle_charge}

-- The invoice was finalized, has been marked as paid, and one entry of the amount is written.
abbrev pub Pays : ℕ → InvoiceStatus → ℤ → Store → Store → Type 0
Pays id status amount s t =
    (status ≡ finalized)
    × (status_of id t.invoices ≡ some paid)
    × ((now : Date) × (t.invoices
          ≡ update (λ i. i.id == id) (λ i. record i { status = paid; paid_at = some now })
              s.invoices))
    × ((e : LedgerEntry) × (e.amount_cents ≡ amount)
        × (t.ledger_entries ≡ insert e s.ledger_entries))

-- The books are as they were, or the payment is in them.
abbrev pub Settles : ℕ → InvoiceStatus → ℤ → Store → Store → Type 0
Settles id status amount s t = SameBooks s t ⊎ Pays id status amount s t

pub paid_then_same :
    (id : ℕ) (status : InvoiceStatus) (amount : ℤ) (s t u : Store)
    → Pays id status amount s t
    → SameBooks t u
    → Pays id status amount s u
paid_then_same id status amount s t u (h, q, (now, i), (e, a, l)) (j, m) =
    (h, ap (status_of id) j ∙ q, (now, j ∙ i), (e, a, m ∙ l))

pub same_then_paid :
    (id : ℕ) (status : InvoiceStatus) (amount : ℤ) (s t u : Store)
    → SameBooks s t
    → Pays id status amount t u
    → Pays id status amount s u
same_then_paid id status amount s t u (j, m) (h, q, (now, i), (e, a, l)) =
    let mark : Invoice → Invoice = λ i. record i { status = paid; paid_at = some now } in
    (h, q, (now, i ∙ ap (update (λ i. i.id == id) mark) j), (e, a, l ∙ ap (insert e) m))

pub Settles-trans :
    (id : ℕ) (status : InvoiceStatus) (amount : ℤ) (s t u : Store)
    → Settles id status amount s t
    → SameBooks t u
    → Settles id status amount s u
Settles-trans id status amount s t u (inl h) k = inl (SameBooks-trans s t u h k)
Settles-trans id status amount s t u (inr h) k = inr (paid_then_same id status amount s t u h k)

pub keeps_before :
    (id : ℕ) (status : InvoiceStatus) (amount : ℤ) (s t u : Store)
    → SameBooks s t
    → Settles id status amount t u
    → Settles id status amount s u
keeps_before id status amount s t u h (inl k) = inl (SameBooks-trans s t u h k)
keeps_before id status amount s t u h (inr k) = inr (same_then_paid id status amount s t u h k)

-- The state in which the transaction of a success writes the ledger.
abbrev pub paid_row : Payment → (Charge → Charge) → Store → Store
paid_row p f s = record s {
  charges = update (λ c. c.id == p.charge_id) f s.charges;
  invoices =
      update (λ i. i.id == p.invoice_id) (λ i. record i { status = paid; paid_at = some s.clock })
        s.invoices;
}

pub after_keeps :
    {A B : Type 0} (id : ℕ) (status : InvoiceStatus) (amount : ℤ) (m : Action A) (f : A → Action B)
    → Moves SameBooks m
    → ((a : A) → Moves (Settles id status amount) (f a))
    → Moves (Settles id status amount) (m >>= f)
after_keeps id status amount =
    let R = Settles id status amount in
    bind-Moves SameBooks R R (λ s t h. inl h) (keeps_before id status amount)

pub paid_status :
    (id : ℕ) (s : Store) (row : Invoice)
    → find (λ i. i.id == id) s.invoices ≡ some row
    → status_of id (
        update
          (λ i. i.id == id)
          (λ i. record i { status = paid; paid_at = some s.clock })
          s.invoices)
      ≡ some paid
paid_status id s row found =
    let mark : Invoice → Invoice = λ i. record i { status = paid; paid_at = some s.clock } in
    ap (map_row (λ i. i.status))
      (find-update_self (λ i. i.id == id) mark (λ i. refl) s.invoices ∙ ap (map_row mark) found)

pub pay_from :
    (p : Payment) (f : Charge → Charge) (correlation : ℕ) (status : InvoiceStatus) (s : Store)
    → p.invoice_status ≡ status
    → Settles p.invoice_id p.invoice_status p.amount_cents s (settle_charge p f correlation s).1
unfolding settle_charge record_payment_succeeded
pay_from p f correlation finalized s h =
    elim (Option-cases (find (λ i. i.id == p.invoice_id) s.invoices)) [
      | inl missing ↦
          let whole : settle_charge p f correlation s ≡ (err row_expected, s) =
            ground (arith, missing, h) in
          rw whole (inl (refl, refl))
      | inr (row, found) ↦
          elim (create_entry-Posts_any cash accounts_receivable p.amount_cents p.currency
            ReferenceType.payment p.charge_id LedgerText.payment_succeeded correlation
            (paid_row p f s)) [
              | inl (e, amount, run) ↦
                  let whole : settle_charge p f correlation s ≡ (ok tt, posted (paid_row p f s) e) =
                    ground (arith, run, h, found) in
                  rw whole (
                    inr
                      (h, paid_status p.invoice_id s row found, (s.clock, refl), (e, amount, refl)))
              | inr (x, run) ↦
                  let whole : settle_charge p f correlation s ≡ (err x, s) =
                    ground (arith, run, h, found) in
                  rw whole (inl (refl, refl))
            ]
    ]
pay_from p f correlation draft s h = rw h (inl (refl, refl))
pay_from p f correlation paid s h = rw h (inl (refl, refl))
pay_from p f correlation void s h = rw h (inl (refl, refl))

pub settle_charge-Settles :
    (p : Payment) (f : Charge → Charge) (correlation : ℕ)
    → Moves (Settles p.invoice_id p.invoice_status p.amount_cents) (settle_charge p f correlation)
settle_charge-Settles p f correlation s = pay_from p f correlation p.invoice_status s refl

pub pay_transaction-Settles :
    (p : Payment) (intent correlation : ℕ)
    → Moves
        (Settles p.invoice_id p.invoice_status p.amount_cents)
        (pay_transaction p intent correlation)
unfolding pay_transaction
pay_transaction-Settles p intent correlation =
    settle_charge-Settles p
      (λ c. record c { status = ChargeStatus.succeeded; payment_intent_id = some intent })
      correlation
