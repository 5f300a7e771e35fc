-- ===== src/Invoices/Finalize.antt =====
-- Finalization: the invoice that a finalizing transaction leaves.
use Prim.Native.String.{String}
use edge_billing_service.Base.Int.{◌≤ℤ◌}
use edge_billing_service.Base.{
  subst, sym, ℕ, ℤ, pos, ◌+ℤ◌, ◌-ℤ◌, ltb_ℤ, eqb_ℤ, ◌==◌, ◌≡◌, refl, ap, ◌∙◌, List, int_laws, arith,
  Bool, true, Option, some, find, filter, inl, inr, if◌then◌else◌, Bool-cases, Option-cases,
  map_row, find-update_self, update,
}
use edge_billing_service.StateMachine.Status.{InvoiceStatus, draft, finalized, paid, invoice_eq}
use edge_billing_service.StateMachine.Tables.{is_allowed, invoice_transitions}
use edge_billing_service.Store.Rows.{
  invoice_finalized, ReferenceType, revenue, accounts_receivable, LineItem, Invoice,
}
use edge_billing_service.Store.Action.{
  row_expected, Store, Action, ok, err, ◌>>=◌, ◌>>◌, gets, when, pure, validate_transition,
}
use edge_billing_service.Store.Ensures.{
  when-Ensures, Ensures, Commits, bind-Ensures, weaken-Ensures, transaction-Commits,
}
use edge_billing_service.Invoices.Repository.{line_items_of, update_invoice}
use edge_billing_service.Invoices.Items.{charged}
use edge_billing_service.Invoices.Surcharge.{
  sum_items, is_surcharge, Settled, strip_existing_surcharge_line_items,
  apply_credits_and_surcharge,
}
use edge_billing_service.Invoices.Settlement.{Strips, Settles, strip-Strips, settle-Settles}
use edge_billing_service.Invoices.Service.{close_settled, finalize_transaction}
use edge_billing_service.Ledger.Service.{record_invoice_finalized}
use edge_billing_service.Ledger.Posting.{create_entry-Posts_any}
use edge_billing_service.Credits.Application.{total_of}

abbrev pub status_of : ℕ → List Invoice → Option InvoiceStatus
status_of id invoices = map_row (λ i. i.status) (find (λ i. i.id == id) invoices)

-- `paid` where nothing is left to pay.
abbrev pub settled_status : ℤ → InvoiceStatus
settled_status total = if eqb_ℤ total (pos 0) then paid else finalized

-- What the update of an invoice has done.
abbrev pub Updates : ℕ → (Invoice → Invoice) → Store → Store → Type 0
Updates id f s t =
    (t ≡ record s { invoices = update (λ i. i.id == id) f s.invoices })
    × (i : Invoice) × (find (λ i. i.id == id) s.invoices ≡ some i)
    × (find (λ i. i.id == id) t.invoices ≡ some (f i))

pub update_invoice-Updates :
    (id : ℕ) (f : Invoice → Invoice) (s : Store)
    → ((i : Invoice) → ((f i).id == id) ≡ (i.id == id))
    → Ensures (λ _ t. Updates id f s t) (update_invoice id f s)
update_invoice-Updates id f s keep = elim (Option-cases (find (λ i. i.id == id) s.invoices)) [
  | inl missing ↦
      let run : update_invoice id f s ≡ (err row_expected, s) = ground arith in rw run tt
  | inr (i, e) ↦
      let run : update_invoice id f s
          ≡ (ok tt, record s { invoices = update (λ i. i.id == id) f s.invoices }) =
        ground arith in
      rw run (refl, i, e, find-update_self (λ i. i.id == id) f keep s.invoices ∙ ap (map_row f) e)
]

-- What the closing writes have done so far: the line items are as they were, and the invoice has
-- the total and the status.
abbrev pub Closes : ℕ → ℤ → InvoiceStatus → List LineItem → Store → Type 0
Closes id total status items t =
    (t.line_items ≡ items)
    × (total_of id t.invoices ≡ some total)
    × (status_of id t.invoices ≡ some status)

open-Closes :
    (id : ℕ) (total : ℤ) (s : Store)
    → Ensures
        (λ _ t. Closes id total finalized s.line_items t)
        (update_invoice id (λ i. record i { status = finalized; total_amount_cents = total }) s)
open-Closes id total s =
    weaken-Ensures
      (λ _ t. Updates id (λ i. record i { status = finalized; total_amount_cents = total }) s t)
      (λ _ t. Closes id total finalized s.line_items t)
      (update_invoice id (λ i. record i { status = finalized; total_amount_cents = total }) s)
      (update_invoice-Updates id (λ i. record i { status = finalized; total_amount_cents = total })
        s (λ i. refl))
      (λ _ t (e, i, found, now). (
        ap (λ u. u.line_items) e,
        ap (map_row (λ i. i.total_amount_cents)) now,
        ap (map_row (λ i. i.status)) now,
      ))

-- The ledger entry leaves the invoice as it is.
post-Closes :
    (id : ℕ) (total : ℤ) (currency : String) (correlation : ℕ) (items : List LineItem) (s : Store)
    → Closes id total finalized items s
    → Ensures
        (λ _ t. Closes id total finalized items t)
        (when
          (ltb_ℤ (pos 0) total)
          (record_invoice_finalized id total currency correlation >> pure tt)
          s)
unfolding record_invoice_finalized
post-Closes id total currency correlation items s h =
    let P : Unit {0} → Store → Type 0 = λ _ t. Closes id total finalized items t in
    when-Ensures P (ltb_ℤ (pos 0) total)
      (record_invoice_finalized id total currency correlation >> pure tt) s
      (λ positive.
        bind-Ensures (λ _ t. Closes id total finalized items t) P
          (record_invoice_finalized id total currency correlation) (λ _. pure tt) s
          (elim (create_entry-Posts_any accounts_receivable revenue total currency
            ReferenceType.invoice id invoice_finalized correlation s) [
              | inl (e, same, run) ↦ rw run h
              | inr (x, run) ↦ rw run tt
            ])
          (λ _ t k. k))
      (λ nothing. h)

pay-Closes :
    (id : ℕ) (total : ℤ) (items : List LineItem) (s : Store)
    → Closes id total finalized items s
    → Ensures
        (λ _ t. Closes id total (settled_status total) items t)
        (when
          (eqb_ℤ total (pos 0))
          (do
            validate_transition finalized paid invoice_transitions
            now ← gets (λ s. s.clock)
            update_invoice id (λ i. record i { status = paid; paid_at = some now }))
          s)
pay-Closes id total items s h =
    when-Ensures (λ _ t. Closes id total (settled_status total) items t) (eqb_ℤ total (pos 0))
      (do
        validate_transition finalized paid invoice_transitions
        now ← gets (λ s. s.clock)
        update_invoice id (λ i. record i { status = paid; paid_at = some now }))
      s
      (λ zero.
        weaken-Ensures
          (λ _ t. Updates id (λ i. record i { status = paid; paid_at = some s.clock }) s t)
          (λ _ t. Closes id total (settled_status total) items t)
          (update_invoice id (λ i. record i { status = paid; paid_at = some s.clock }) s)
          (update_invoice-Updates id (λ i. record i { status = paid; paid_at = some s.clock }) s
            (λ i. refl))
          (λ _ t (e, i, found, now). (
            ap (λ u. u.line_items) e ∙ h.0,
            ap (map_row (λ i. i.total_amount_cents)) now
                ∙ sym (ap (map_row (λ i. i.total_amount_cents)) found)
                ∙ h.1,
            ap (map_row (λ i. i.status)) now
                ∙ ap (λ (b : Bool). some (if b then paid else finalized)) (sym zero),
          )))
      (λ left. (h.0, h.1, h.2 ∙ ap (λ (b : Bool). some (if b then paid else finalized)) (sym left)))

pub close-Closes :
    (id : ℕ) (currency : String) (correlation : ℕ) (r : Settled) (s : Store)
    → Ensures
        (λ _ t. Closes id r.final_total_cents (settled_status r.final_total_cents) s.line_items t)
        (close_settled id currency correlation r s)
unfolding close_settled
close-Closes id currency correlation r s =
    let total = r.final_total_cents in
    let P : Unit {0} → Store → Type 0 = λ _ t. Closes id total finalized s.line_items t in
    let Q : Unit {0} → Store → Type 0 =
      λ _ t. Closes id total (settled_status total) s.line_items t in
    bind-Ensures P Q
      (update_invoice id (λ i. record i { status = finalized; total_amount_cents = total })) _ s
      (open-Closes id total s)
      (λ _ t h.
        bind-Ensures P Q
          (when (ltb_ℤ (pos 0) total)
            (record_invoice_finalized id total currency correlation >> pure tt))
          _ t (post-Closes id total currency correlation s.line_items t h)
          (λ _ u k. pay-Closes id total s.line_items u k))

-- What a finalizing transaction that began in `s` has done to the invoice as it was read.
abbrev pub Finalizes : Invoice → Store → Settled → Store → Type 0
Finalizes inv s r t =
    (inv.status ≡ draft)
    × (charged inv.id t.line_items ≡ r.final_total_cents)
    × (total_of inv.id t.invoices ≡ some r.final_total_cents)
    × (status_of inv.id t.invoices ≡ some (settled_status r.final_total_cents))
    × (pos 0 ≤ℤ r.credit_applied)
    × (pos 0 ≤ℤ r.surcharge_cents)
    × (r.final_total_cents
          +ℤ r.credit_applied
          +ℤ sum_items (filter is_surcharge (line_items_of inv.id s.line_items))
        ≡ inv.total_amount_cents +ℤ r.surcharge_cents)

allowed-draft :
    (status : InvoiceStatus)
    → is_allowed status finalized invoice_transitions ≡ true
    → status ≡ draft
allowed-draft status h = ground arith

validate_finalize :
    (inv : Invoice) (s : Store)
    → Ensures
        (λ _ t. (t ≡ s) × (inv.status ≡ draft))
        (validate_transition inv.status finalized invoice_transitions s)
validate_finalize inv s = elim (Bool-cases (is_allowed inv.status finalized invoice_transitions)) [
  | inl allowed ↦ rw allowed (refl, allowed-draft inv.status allowed)
  | inr refused ↦ rw refused tt
]

module _ (inv : Invoice) (correlation : ℕ) (s : Store) where
  -- The transaction from the settlement on.
  abbrev pub after_settle : Settled → Action Settled
  after_settle settled = close_settled inv.id inv.currency correlation settled >> pure settled

  -- The transaction from the removal of old surcharges on.
  abbrev pub after_strip : ℤ → Action Settled
  after_strip removed =
      apply_credits_and_surcharge inv.id inv.customer_id (inv.total_amount_cents -ℤ removed)
        inv.currency correlation
      >>= after_settle

  settled-Finalizes :
      (removed : ℤ) (r : Settled) (t u : Store)
      → charged inv.id s.line_items ≡ inv.total_amount_cents
      → inv.status ≡ draft
      → Strips inv.id s removed t
      → Settles inv.id (inv.total_amount_cents -ℤ removed) t r u
      → Ensures (Finalizes inv s) (after_settle r u)
  settled-Finalizes removed r t u balanced is_draft strips settles =
      bind-Ensures
        (λ _ v.
          Closes inv.id r.final_total_cents (settled_status r.final_total_cents) u.line_items v)
        (Finalizes inv s) (close_settled inv.id inv.currency correlation r) (λ _. pure r) u
        (close-Closes inv.id inv.currency correlation r u)
        (λ _ v closes. (
          is_draft,
          ap (charged inv.id) closes.0 ∙ grind (int_laws, balanced, strips, settles),
          closes.1,
          closes.2,
          settles.2,
          settles.3,
          grind (int_laws, strips, settles),
        ))

  -- Where the total of the invoice is the sum of its line items and its surcharges do not sum to
  -- a negative amount, a finalizing transaction either raises and changes nothing, or: the invoice
  -- was a draft; its line items again sum to its total, which is the stored one; it is paid if the
  -- total is 0 and finalized otherwise; and the new total is the old one less the old surcharge and
  -- the credit applied, plus the new surcharge, where neither of these two is negative.
  pub finalize-Finalizes :
      charged inv.id s.line_items ≡ inv.total_amount_cents
      → pos 0 ≤ℤ sum_items (filter is_surcharge (line_items_of inv.id s.line_items))
      → Commits s (Finalizes inv s) (finalize_transaction inv correlation s)
  unfolding finalize_transaction
  finalize-Finalizes balanced positive =
      transaction-Commits (Finalizes inv s)
        (validate_transition inv.status finalized invoice_transitions
          >> (strip_existing_surcharge_line_items inv.id >>= after_strip))
        s
        (bind-Ensures (λ _ t. (t ≡ s) × (inv.status ≡ draft)) (Finalizes inv s)
          (validate_transition inv.status finalized invoice_transitions)
          (λ _. strip_existing_surcharge_line_items inv.id >>= after_strip) s
          (validate_finalize inv s)
          (λ _ t h.
            subst
              (λ z.
                Ensures (Finalizes inv s)
                  ((strip_existing_surcharge_line_items inv.id >>= after_strip) z))
              (sym h.0)
              (bind-Ensures (Strips inv.id s) (Finalizes inv s)
                (strip_existing_surcharge_line_items inv.id) after_strip s
                (strip-Strips inv.id s positive)
                (λ removed t strips.
                  bind-Ensures (Settles inv.id (inv.total_amount_cents -ℤ removed) t)
                    (Finalizes inv s)
                    (apply_credits_and_surcharge inv.id inv.customer_id
                      (inv.total_amount_cents -ℤ removed) inv.currency correlation)
                    after_settle t
                    (settle-Settles inv.id inv.customer_id (inv.total_amount_cents -ℤ removed)
                      inv.currency correlation t)
                    (λ r u settles. settled-Finalizes removed r t u balanced h.1 strips settles)))))
