-- ===== src/Invoices/Liveness.antt =====
-- Finalization returns where there is something to bill.
use Prim.Native.String.{String}
use edge_billing_service.Base.Int.{◌≤ℤ◌}
use edge_billing_service.Base.{
  ℕ, ℤ, pos, ◌-ℤ◌, ltb_ℤ, leb_ℤ, eqb_ℤ, min_ℤ, ◌==◌, ◌≡◌, refl, sym, subst, ap, ◌∙◌, arith,
  int_laws, Option, none, some, find, filter, inl, inr, Bool-cases, Option-cases, map_row,
  find-update_self, update,
}
use edge_billing_service.StateMachine.Status.{draft, finalized, paid, invoice_eq}
use edge_billing_service.StateMachine.Tables.{invoice_transitions}
use edge_billing_service.Store.Rows.{
  Invoice, accounts_receivable, revenue, credits, ReferenceType, invoice_finalized,
}
use edge_billing_service.Store.Action.{
  transaction, Store, Result, ok, err, ◌>>=◌, ◌>>◌, gets, when, pure, validate_transition,
}
use edge_billing_service.Store.Ensures.{Returns, bind-Returns, transaction-Returns}
use edge_billing_service.Ledger.Service.{account_lookup, record_invoice_finalized}
use edge_billing_service.Ledger.Posting.{create_entry-ok}
use edge_billing_service.Credits.Service.{CreditApplication, apply_credits_to_invoice}
use edge_billing_service.Credits.Balances.{balance_of}
use edge_billing_service.Credits.Application.{
  write_credit_application-ok, apply_credits-unchanged, apply_credits-write, with_credit,
}
use edge_billing_service.Invoices.Repository.{line_items_of, update_invoice}
use edge_billing_service.Invoices.Surcharge.{
  sum_items, is_surcharge, Settled, strip_existing_surcharge_line_items, calculate_surcharge,
  add_surcharge, surcharge_rest, apply_credits_and_surcharge,
}
use edge_billing_service.Invoices.Settlement.{Levies, calculate_surcharge-Levies, AtLeastCent}
use edge_billing_service.Invoices.Finalize.{after_settle, after_strip}
use edge_billing_service.Invoices.Service.{close_settled, finalize_transaction}

module _ (id receivable income credit : ℕ) where
  -- The invoice exists and the accounts of a finalization are known.
  abbrev pub Ready : Store → Type 0
  Ready t =
      (account_lookup accounts_receivable t.account_ids ≡ some receivable)
      × (account_lookup revenue t.account_ids ≡ some income)
      × (account_lookup credits t.account_ids ≡ some credit)
      × ((i : Invoice) × (find (λ i. i.id == id) t.invoices ≡ some i))

  strip-Returns :
      (s : Store)
      → Ready s
      → Returns
          (λ removed t.
            Ready t
            × (removed ≡ sum_items (filter is_surcharge (line_items_of id s.line_items)))
            × (t.credit_balances ≡ s.credit_balances))
          (strip_existing_surcharge_line_items id s)
  unfolding strip_existing_surcharge_line_items
  strip-Returns s h =
      elim (Bool-cases
        (ltb_ℤ (pos 0) (sum_items (filter is_surcharge (line_items_of id s.line_items))))) [
          | inl present ↦ rw present (h, refl, refl)
          | inr nothing ↦ rw nothing (h, refl, refl)
        ]

  update-Returns :
      (f : Invoice → Invoice) (s : Store)
      → ((i : Invoice) → ((f i).id == id) ≡ (i.id == id))
      → Ready s
      → Returns (λ _ t. Ready t) (update_invoice id f s)
  update-Returns f s keep (r, n, c, (i, e)) =
      let run : update_invoice id f s
          ≡ (ok tt, record s { invoices = update (λ i. i.id == id) f s.invoices }) =
        ground arith in
      rw run
        (r, n, c, (f i, find-update_self (λ i. i.id == id) f keep s.invoices ∙ ap (map_row f) e))

  post-Returns :
      (total : ℤ) (currency : String) (correlation : ℕ) (s : Store)
      → pos 0 ≤ℤ total
      → Ready s
      → Returns
          (λ _ t. Ready t)
          (when
            (ltb_ℤ (pos 0) total)
            (record_invoice_finalized id total currency correlation >> pure tt)
            s)
  unfolding record_invoice_finalized
  post-Returns total currency correlation s h ready = elim (Bool-cases (ltb_ℤ (pos 0) total)) [
    | inr nothing ↦ rw nothing ready
    | inl positive ↦
        let run =
          create_entry-ok accounts_receivable revenue total currency ReferenceType.invoice id
            invoice_finalized correlation s {d = receivable} {c = income} (ground arith) ready.0
            ready.1 in
        rw positive (
          bind-Returns (λ _ t. Ready t) (λ _ t. Ready t)
            (record_invoice_finalized id total currency correlation) (λ _. pure tt) s
            (subst (Returns (λ _ t. Ready t)) (sym run) ready) (λ _ t k. k))
  ]

  pay-Returns :
      (total : ℤ) (s : Store)
      → Ready s
      → Returns
          (λ _ t. Ready t)
          (when
            (eqb_ℤ total (pos 0))
            (do
              validate_transition finalized paid invoice_transitions
              now ← gets (λ s. s.clock)
              update_invoice id (λ i. record i { status = paid; paid_at = some now }))
            s)
  pay-Returns total s ready = elim (Bool-cases (eqb_ℤ total (pos 0))) [
    | inr left ↦ rw left ready
    | inl settled ↦ rw settled (
        update-Returns (λ i. record i { status = paid; paid_at = some s.clock }) s (λ i. refl)
          ready)
  ]

  close-Returns :
      (currency : String) (correlation : ℕ) (r : Settled) (s : Store)
      → pos 0 ≤ℤ r.final_total_cents
      → Ready s
      → Returns (λ _ t. Ready t) (close_settled id currency correlation r s)
  unfolding close_settled
  close-Returns currency correlation r s h ready =
      let total = r.final_total_cents in
      let P : Unit {0} → Store → Type 0 = λ _ t. Ready t in
      bind-Returns P P
        (update_invoice id (λ i. record i { status = finalized; total_amount_cents = total })) _ s
        (update-Returns (λ i. record i { status = finalized; total_amount_cents = total }) s
          (λ i. refl) ready)
        (λ _ t k.
          bind-Returns P P
            (when (ltb_ℤ (pos 0) total)
              (record_invoice_finalized id total currency correlation >> pure tt))
            _ t (post-Returns total currency correlation t h k) (λ _ u l. pay-Returns total u l))

  add_surcharge-Returns :
      (applied : CreditApplication) (o : Option ℤ) (s : Store)
      → pos 0 ≤ℤ applied.new_total
      → AtLeastCent o
      → Ready s
      → Returns (λ r t. Ready t × (pos 0 ≤ℤ r.final_total_cents)) (add_surcharge id applied o s)
  unfolding add_surcharge
  add_surcharge-Returns applied none s h cent ready = (ready, h)
  add_surcharge-Returns applied (some a) s h cent ready = (ready, omega int_laws)

  levied-Returns :
      (customer_id : ℕ) (applied : CreditApplication) (s : Store) (r : Result (Option ℤ) × Store)
      → pos 0 ≤ℤ applied.new_total
      → Ready s
      → Levies customer_id s r
      → Returns (λ o t. Ready t × AtLeastCent o) r
  levied-Returns customer_id applied s (ok none, t) h ready e = (subst Ready (sym e) ready, tt)
  levied-Returns customer_id applied s (ok (some a), t) h ready (e, by_card, cent) =
      (subst Ready (sym e) ready, cent)
  levied-Returns customer_id applied s (err x, t) h ready e = absurd e

  rest-Returns :
      (customer_id : ℕ) (applied : CreditApplication) (s : Store)
      → pos 0 ≤ℤ applied.new_total
      → Ready s
      → Returns
          (λ r t. Ready t × (pos 0 ≤ℤ r.final_total_cents))
          (surcharge_rest id customer_id applied s)
  unfolding surcharge_rest
  rest-Returns customer_id applied s h ready = elim (Bool-cases (leb_ℤ applied.new_total (pos 0))) [
    | inl nothing ↦ rw nothing (add_surcharge-Returns applied none s h tt ready)
    | inr left ↦ rw left (
        bind-Returns (λ o t. Ready t × AtLeastCent o)
          (λ r t. Ready t × (pos 0 ≤ℤ r.final_total_cents))
          (calculate_surcharge customer_id applied.new_total) (add_surcharge id applied) s
          (levied-Returns customer_id applied s
            (calculate_surcharge customer_id applied.new_total s) h ready
            (calculate_surcharge-Levies customer_id applied.new_total s))
          (λ o t k. add_surcharge-Returns applied o t h k.1 k.0))
  ]

  apply-Returns :
      (customer_id : ℕ) (total : ℤ) (currency : String) (correlation : ℕ) (s : Store)
      → pos 1 ≤ℤ total
      → pos 0 ≤ℤ balance_of customer_id s.credit_balances
      → Ready s
      → Returns
          (λ a t. Ready t × (pos 0 ≤ℤ a.new_total))
          (apply_credits_to_invoice id customer_id total currency correlation s)
  apply-Returns customer_id total currency correlation s h funds ready =
      let unchanged : Ready s × (pos 0 ≤ℤ total) = (ready, omega arith) in
      elim (Option-cases (find (λ b. b.customer_id == customer_id) s.credit_balances)) [
        | inl missing ↦
            rw (apply_credits-unchanged id customer_id total currency correlation s (ground arith))
              unchanged
        | inr (b, eb) ↦ elim (Bool-cases (eqb_ℤ b.balance_cents (pos 0))) [
          | inl empty ↦
              rw
                (apply_credits-unchanged id customer_id total currency correlation s (ground arith))
                unchanged
          | inr funded ↦
              let (receivable_known, income_known, credit_known, (i, found)) = ready in
              let c = min_ℤ b.balance_cents total in
              let amount : pos 0 ≤ℤ b.balance_cents =
                subst (λ o. pos 0 ≤ℤ elim o [ none ↦ pos 0 | some x ↦ x.balance_cents ]) eb funds in
              let whole =
                apply_credits-write id customer_id total currency correlation s b eb funded
                ∙ write_credit_application-ok id customer_id total b.balance_cents currency
                    correlation s found receivable_known credit_known (ground arith) in
              rw whole (
                (
                  receivable_known,
                  income_known,
                  credit_known,
                  (
                    with_credit total c i,
                    find-update_self (λ i. i.id == id) (with_credit total c) (λ i. refl) s.invoices
                        ∙ ap (map_row (with_credit total c)) found,
                  ),
                ),
                grind int_laws,
              )
        ]
      ]

module _ (inv : Invoice) (correlation : ℕ) (s : Store) {receivable income credit : ℕ} where
  -- A finalizing transaction returns, with a total that is not negative, where the invoice is a
  -- draft whose row exists, the three accounts are known, the total less the old surcharge is at
  -- least a cent, and the customer's credit balance is not negative.
  pub finalize-Returns :
      inv.status ≡ draft
      → Ready inv.id receivable income credit s
      → pos 1
        ≤ℤ inv.total_amount_cents
          -ℤ sum_items (filter is_surcharge (line_items_of inv.id s.line_items))
      → pos 0 ≤ℤ balance_of inv.customer_id s.credit_balances
      → Returns (λ r t. pos 0 ≤ℤ r.final_total_cents) (finalize_transaction inv correlation s)
  unfolding finalize_transaction apply_credits_and_surcharge
  finalize-Returns is_draft ready billable funds =
      let removed = sum_items (filter is_surcharge (line_items_of inv.id s.line_items)) in
      let IsReady = Ready inv.id receivable income credit in
      let Q : Settled → Store → Type 0 = λ r t. pos 0 ≤ℤ r.final_total_cents in
      let Priced : Settled → Store → Type 0 = λ r t. IsReady t × (pos 0 ≤ℤ r.final_total_cents) in
      let strip = strip_existing_surcharge_line_items inv.id in
      let checked : finalize_transaction inv correlation s
          ≡ transaction (strip >>= after_strip inv correlation s) s =
        rw is_draft refl in
      subst (Returns Q) (sym checked) (
        transaction-Returns Q (strip >>= after_strip inv correlation s) s (
          bind-Returns (λ x t. IsReady t × (x ≡ removed) × (t.credit_balances ≡ s.credit_balances))
            Q strip (after_strip inv correlation s) s
            (strip-Returns inv.id receivable income credit s ready)
            (λ x t (ready_t, same, kept).
              bind-Returns Priced Q
                (apply_credits_and_surcharge inv.id inv.customer_id (inv.total_amount_cents -ℤ x)
                  inv.currency correlation)
                (after_settle inv correlation s) t
                (bind-Returns (λ a u. IsReady u × (pos 0 ≤ℤ a.new_total)) Priced
                  (apply_credits_to_invoice inv.id inv.customer_id (inv.total_amount_cents -ℤ x)
                    inv.currency correlation)
                  (surcharge_rest inv.id inv.customer_id) t
                  (apply-Returns inv.id receivable income credit inv.customer_id
                    (inv.total_amount_cents -ℤ x) inv.currency correlation t (rw same billable)
                    (rw kept funds) ready_t)
                  (λ a u h.
                    rest-Returns inv.id receivable income credit inv.customer_id a u h.1 h.0))
                (λ r u h.
                  bind-Returns (λ _ v. IsReady v) Q
                    (close_settled inv.id inv.currency correlation r) (λ _. pure r) u
                    (close-Returns inv.id receivable income credit inv.currency correlation r u h.1
                      h.0)
                    (λ _ v k. h.1)))))
