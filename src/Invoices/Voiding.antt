-- ===== src/Invoices/Voiding.antt =====
-- Voiding: what `voidInvoice` leaves.
use edge_billing_service.Base.{
  subst, ==→eq, ==_refl, ℕ, pos, ◌==◌, ◌===◌, ◌&&◌, ◌≡◌, refl, sym, ap, ◌∙◌, List, [], ◌∷◌, arith,
  Bool, true, insert, Option-cases, inl, inr, some, find, find-update, find-holds, update, map_row,
  if◌then◌else◌,
}
use edge_billing_service.Base.Int.{◌≤ℤ◌}
use edge_billing_service.StateMachine.Status.{
  InvoiceStatus, finalized, void, draft, paid, invoice_eq,
}
use edge_billing_service.Store.Rows.{
  Invoice, LedgerEntry, accounts_receivable, revenue, ReferenceType, invoice_voided,
}
use edge_billing_service.Store.Action.{or_raise, invoice_not_found, Store, ok, err, ◌>>=◌, ◌>>◌}
use edge_billing_service.Store.Ensures.{Commits}
use edge_billing_service.Ledger.Service.{record_invoice_voided, account_lookup}
use edge_billing_service.Ledger.Posting.{posted, create_entry-Posts_any, create_entry-ok}
use edge_billing_service.Credits.Application.{total_of}
use edge_billing_service.Invoices.Finalize.{status_of}
use edge_billing_service.Invoices.Service.{void_invoice, void_transaction, check_voidable}

-- A search with one condition more finds the same row, if the row meets it.
find_and :
    {A : Type 0} (p q : A → Bool) (xs : List A) {x : A}
    → find p xs ≡ some x
    → q x ≡ true
    → find (λ y. p y && q y) xs ≡ some x
find_and p q [] e h = cc
find_and p q (y ∷ xs) {x} e h = ground (arith, find_and p q xs {x = x})

-- What `voidInvoice` has done: the invoice was finalized and is void with the same total, and one
-- ledger entry is written, of that total.
abbrev pub Voids : ℕ → Store → Store → Type 0
Voids id s t =
    (status_of id s.invoices ≡ some finalized)
    × (status_of id t.invoices ≡ some void)
    × (total_of id t.invoices ≡ total_of id s.invoices)
    × ((e : LedgerEntry) × (some e.amount_cents ≡ total_of id s.invoices)
        × (t.ledger_entries ≡ insert e s.ledger_entries))

module _ (correlation : ℕ) (s : Store) (inv : Invoice) where
  -- The state with the invoice void.
  abbrev voided : Store
  voided = record s {
    invoices =
        update (λ i. (i.id == inv.id) && (i.status === finalized))
          (λ i. record i { status = void; voided_at = some s.clock }) s.invoices;
  }

  voided-row :
      find (λ i. i.id == inv.id) s.invoices ≡ some inv
      → inv.status ≡ finalized
      → find (λ i. i.id == inv.id) voided.invoices
        ≡ some (record inv { status = void; voided_at = some s.clock })
  voided-row found is_finalized =
      find-update (λ i. i.id == inv.id) (λ i. (i.id == inv.id) && (i.status === finalized))
        (λ i. record i { status = void; voided_at = some s.clock }) (λ i. refl) s.invoices
      ∙ ap
          (map_row (λ i.
            if (i.id == inv.id) && (i.status === finalized)
            then record i { status = void; voided_at = some s.clock }
            else i))
          found
      ∙ rw (==_refl inv.id, is_finalized) refl

  void_transaction-Voids :
      find (λ i. i.id == inv.id) s.invoices ≡ some inv
      → inv.status ≡ finalized
      → Commits s (λ _ t. Voids inv.id s t) (void_transaction inv correlation s)
  unfolding void_transaction record_invoice_voided
  void_transaction-Voids found is_finalized =
      let now : Invoice = record inv { status = void; voided_at = some s.clock } in
      let row = voided-row found is_finalized in
      let selected =
        find_and (λ i. i.id == inv.id) (λ i. i.status === finalized) s.invoices found
          (rw is_finalized refl) in
      elim (create_entry-Posts_any revenue accounts_receivable inv.total_amount_cents inv.currency
        ReferenceType.invoice_void inv.id invoice_voided correlation voided) [
          | inr (x, run) ↦
              let whole : void_transaction inv correlation s ≡ (err x, s) =
                ground (arith, run, selected) in
              rw whole refl
          | inl (e, amount, run) ↦
              let whole : void_transaction inv correlation s ≡ (ok now, posted voided e) =
                ground (arith, run, selected) in
              rw whole (
                ap (map_row (λ i. i.status)) found ∙ ap some is_finalized,
                ap (map_row (λ i. i.status)) row,
                ap (map_row (λ i. i.total_amount_cents)) row
                    ∙ sym (ap (map_row (λ i. i.total_amount_cents)) found),
                (e, ap some amount ∙ sym (ap (map_row (λ i. i.total_amount_cents)) found), refl),
              )
        ]

void_found :
    (id correlation : ℕ) (s : Store) (inv : Invoice) (status : InvoiceStatus)
    → find (λ i. i.id == id) s.invoices ≡ some inv
    → inv.status ≡ status
    → Commits s
        (λ _ t. Voids id s t)
        ((check_voidable id status >> void_transaction inv correlation) s)
void_found id correlation s inv draft found e = refl
void_found id correlation s inv paid found e = refl
void_found id correlation s inv void found e = refl
void_found id correlation s inv finalized found e =
    let same : inv.id ≡ id = ==→eq inv.id id (find-holds (λ i. i.id == id) s.invoices found) in
    subst (λ n. Commits s (λ _ t. Voids n s t) (void_transaction inv correlation s)) same
      (void_transaction-Voids correlation s inv
        (subst (λ n. find (λ i. i.id == n) s.invoices ≡ some inv) (sym same) found) e)

-- Whatever the invoice, `voidInvoice` either raises and changes nothing, or the invoice was
-- finalized, is now void with the same total, and one ledger entry of that total is written.
pub void_invoice-Voids :
    (id correlation : ℕ) (s : Store)
    → Commits s (λ _ t. Voids id s t) (void_invoice id correlation s)
unfolding void_invoice
void_invoice-Voids id correlation s = elim (Option-cases (find (λ i. i.id == id) s.invoices)) [
  | inl missing ↦
      let whole : void_invoice id correlation s ≡ (err (invoice_not_found id), s) = ground arith in
      rw whole refl
  | inr (inv, found) ↦
      subst
        (λ o.
          Commits s (λ _ t. Voids id s t)
            ((or_raise o (invoice_not_found id) >>= λ i.
                check_voidable id i.status >> void_transaction i correlation)
              s))
        (sym found) (void_found id correlation s inv inv.status found refl)
]

-- A finalized invoice with a positive total is voided, where the two ledger accounts are known.
pub void_invoice_succeeds :
    (correlation : ℕ) (s : Store) (inv : Invoice) {income receivable : ℕ}
    → find (λ i. i.id == inv.id) s.invoices ≡ some inv
    → inv.status ≡ finalized
    → pos 1 ≤ℤ inv.total_amount_cents
    → account_lookup revenue s.account_ids ≡ some income
    → account_lookup accounts_receivable s.account_ids ≡ some receivable
    → (void_invoice inv.id correlation s).0
      ≡ ok (record inv { status = void; voided_at = some s.clock })
unfolding void_invoice void_transaction record_invoice_voided
void_invoice_succeeds correlation s inv {income} {receivable} found e positive known_income
      known_receivable =
    let selected =
      find_and (λ i. i.id == inv.id) (λ i. i.status === finalized) s.invoices found (rw e refl) in
    let run =
      create_entry-ok revenue accounts_receivable inv.total_amount_cents inv.currency
        ReferenceType.invoice_void inv.id invoice_voided correlation (voided correlation s inv)
        {d = income} {c = receivable} positive known_income known_receivable in
    ground (arith, run, selected)
