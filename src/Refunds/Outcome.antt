-- ===== src/Refunds/Outcome.antt =====
-- What `createRefund` leaves: the refund, and the ledger with it.
use Prim.Native.String.{String}
use edge_billing_service.Base.Int.{◌≤ℤ◌}
use edge_billing_service.Base.{
  find-holds, ==→eq, ◌++◌, ℕ, ℤ, ◌+◌, ◌<◌, ◌+ℤ◌, ltb_ℤ, ◌==◌, ◌===◌, ◌≡◌, refl, sym, subst, ap, ◌∙◌,
  List, [], ◌∷◌, find, update, insert, All, arith, false, some, Option-cases, Bool-cases, inl, inr,
  ◌⊎◌,
}
use edge_billing_service.StateMachine.Status.{RefundStatus, ChargeStatus, refund_eq, charge_eq}
use edge_billing_service.Store.Rows.{
  Charge, Refund, LedgerEntry, cash, refunds, ReferenceType, refund_succeeded,
}
use edge_billing_service.Store.Action.{
  Store, Error, Result, ok, err, ◌>>=◌, or_raise, charge_not_found, Event,
}
use edge_billing_service.Ledger.Service.{record_refund_succeeded}
use edge_billing_service.Ledger.Posting.{create_entry-Posts_any, posted}
use edge_billing_service.Refunds.Service.{
  RefundInput, succeeded_of, sum_refunds, validate_refund_amount, pending_refund, owned_by_other,
  settle_refund, fail_refund, process_refund, refund_charge, create_refund,
}

-- What has been refunded of a charge.
abbrev pub refunded : ℕ → List Refund → ℤ
refunded charge_id rows = sum_refunds (succeeded_of charge_id rows)

-- The next identifier is above those of the refunds.
abbrev pub IsFresh : Store → Type 0
IsFresh s = All (λ (r : Refund). r.id < s.next_id) s.refunds

update-insert :
    (f : Refund → Refund) (row : Refund) (rows : List Refund)
    → All (λ (r : Refund). r.id < row.id) rows
    → update (λ r. r.id == row.id) f (insert row rows) ≡ insert (f row) rows
update-insert f row [] h = ground arith
update-insert f row (x ∷ rows) h = ground (arith, update-insert f row rows h.1)

-- A refund that ended with the gateway's answer: the row, and the ledger with it.
abbrev pub Ends : Store → Refund → Store → Type 0
Ends s row t =
    (t.refunds ≡ insert row s.refunds)
    × (((row.status ≡ RefundStatus.succeeded)
          × ((e : LedgerEntry) × (e.amount_cents ≡ row.amount_cents)
              × (t.ledger_entries ≡ insert e s.ledger_entries)))
        ⊎ ((row.status ≡ RefundStatus.failed) × (t.ledger_entries ≡ s.ledger_entries)))

Result-cases : {A : Type 0} (r : Result A) → ((a : A) × (r ≡ ok a)) ⊎ ((x : Error) × (r ≡ err x))
Result-cases (ok a) = inl (a, refl)
Result-cases (err x) = inr (x, refl)

-- The row of a refund that the gateway made.
abbrev succeeded_row : ℕ → Refund → Refund
succeeded_row gateway_id r = record r {
  status = RefundStatus.succeeded;
  gateway_refund_id = some gateway_id;
}

-- The row of a refund that failed.
abbrev failed_row : String → Refund → Refund
failed_row reason r = record r { status = RefundStatus.failed; failure_reason = some reason }

-- How the `try` block has ended: the row succeeded and one entry is written, or an error and
-- nothing changed.
abbrev Settles : Refund → Store → Result Refund × Store → Type 0
Settles row v r =
    ((gateway_id : ℕ) × (t : Store) × (e : LedgerEntry) × (r
        ≡ (ok (succeeded_row gateway_id row), t))
      × (t.refunds ≡ update (λ r. r.id == row.id) (succeeded_row gateway_id) v.refunds)
      × (e.amount_cents ≡ row.amount_cents)
      × (t.ledger_entries ≡ insert e v.ledger_entries))
    ⊎ ((x : Error) × (r ≡ (err x, v)))

module _ (gateway : ℕ → ℤ → ℕ → Result ℕ) (message : Error → String) where
  settle_refund-Settles :
      (row : Refund) (intent correlation : ℕ) (v : Store)
      → Settles row v (settle_refund gateway message row intent correlation v)
  unfolding settle_refund record_refund_succeeded
  settle_refund-Settles row intent correlation v =
      elim (Result-cases (gateway intent row.amount_cents row.idempotency_key)) [
        | inr (x, failed) ↦ inr (x, ground (arith, failed))
        | inl (gateway_id, answered) ↦
            let w : Store = record v {
              refunds = update (λ r. r.id == row.id) (succeeded_row gateway_id) v.refunds;
            } in
            elim (create_entry-Posts_any refunds cash row.amount_cents row.currency
              ReferenceType.refund row.id refund_succeeded correlation w) [
                | inr (x, run) ↦ inr (x, ground (arith, answered, run))
                | inl (e, amount, run) ↦ inl (
                  gateway_id,
                  record (posted w e) {
                    outbox = v.outbox ++ Event.refund_succeeded row.id row.amount_cents ∷ [];
                  },
                  e,
                  ground (arith, answered, run),
                  refl,
                  amount,
                  refl,
                )
              ]
      ]

  -- The row on which the `try` block works.
  abbrev processing_row : Refund → Refund
  processing_row r = record r { status = RefundStatus.processing }

  -- A row that is in the table as pending ends as succeeded or failed.
  process-Ends :
      (row : Refund) (intent correlation : ℕ) (s u : Store)
      → All (λ (r : Refund). r.id < row.id) s.refunds
      → u.refunds ≡ insert row s.refunds
      → u.ledger_entries ≡ s.ledger_entries
      → (final : Refund) × (final.charge_id ≡ row.charge_id)
        × (final.amount_cents ≡ row.amount_cents)
        × Ends s final (process_refund gateway message row false intent correlation u).1
  unfolding process_refund fail_refund
  process-Ends row intent correlation s u fresh rows entries =
      let v : Store = record u {
        refunds = update (λ r. r.id == row.id) processing_row u.refunds;
      } in
      let moved : v.refunds ≡ insert (processing_row row) s.refunds =
        ap (update (λ r. r.id == row.id) processing_row) rows
        ∙ update-insert processing_row row s.refunds fresh in
      let settled : (f : Refund → Refund)
          → update (λ r. r.id == row.id) f v.refunds ≡ insert (f (processing_row row)) s.refunds =
        λ f.
          ap (update (λ r. r.id == row.id) f) moved
          ∙ update-insert f (processing_row row) s.refunds fresh in
      elim (settle_refund-Settles row intent correlation v) [
        | inl (gateway_id, t, e, run, refunds_now, amount, ledger_now) ↦
            let whole : (process_refund gateway message row false intent correlation u).1 ≡ t =
              ground (arith, run) in
            (
              succeeded_row gateway_id (processing_row row),
              refl,
              refl,
              (
                ap (λ z. z.refunds) whole ∙ refunds_now ∙ settled (succeeded_row gateway_id),
                inl (
                  refl,
                  (
                    e,
                    amount,
                    ap (λ z. z.ledger_entries) whole ∙ ledger_now ∙ ap (insert e) entries,
                  ),
                ),
              ),
            )
        | inr (x, run) ↦
            let t : Store = record v {
              refunds = update (λ r. r.id == row.id) (failed_row (message x)) v.refunds;
              outbox = v.outbox ++ Event.refund_failed row.id row.amount_cents ∷ [];
            } in
            let whole : (process_refund gateway message row false intent correlation u).1 ≡ t =
              ground (arith, run) in
            (
              failed_row (message x) (processing_row row),
              refl,
              refl,
              (
                ap (λ z. z.refunds) whole ∙ settled (failed_row (message x)),
                inr (refl, ap (λ z. z.ledger_entries) whole ∙ entries),
              ),
            )
      ]

  -- What `createRefund` has done: no refund and no entry is written, or one refund of a charge of
  -- its amount, which with it and what was refunded before is within the charge's.
  abbrev pub Refunds : RefundInput → Store → Store → Type 0
  Refunds input s t =
      ((t.refunds ≡ s.refunds) × (t.ledger_entries ≡ s.ledger_entries))
      ⊎ ((charge : Charge) × (find (λ c. c.id == input.charge_id) s.charges ≡ some charge)
          × (refunded charge.id s.refunds +ℤ input.amount_cents ≤ℤ charge.amount_cents)
          × (row : Refund) × (row.charge_id ≡ charge.id)
          × (row.amount_cents ≡ input.amount_cents)
          × Ends s row t)

  charge-Refunds :
      (input : RefundInput) (key correlation : ℕ) (charge : Charge) (s : Store)
      → IsFresh s
      → find (λ c. c.id == input.charge_id) s.charges ≡ some charge
      → Refunds input s (refund_charge gateway message input key correlation charge s).1
  unfolding refund_charge validate_refund_amount
  charge-Refunds input key correlation charge s fresh found =
      let go : Store = (refund_charge gateway message input key correlation charge s).1 in
      let drawn : Store = record s { next_id = s.next_id + 1 } in
      let refused : go ≡ s → Refunds input s go =
        λ e. inl (ap (λ z. z.refunds) e, ap (λ z. z.ledger_entries) e) in
      let same : charge.id ≡ input.charge_id =
        ==→eq charge.id input.charge_id
          (find-holds (λ c. c.id == input.charge_id) s.charges found) in
      let existing = refunded input.charge_id s.refunds in
      elim (Bool-cases (owned_by_other input.customer_id charge)) [
        | inl other ↦ refused (ground (arith, other))
        | inr owned ↦ elim (Bool-cases (charge.status === ChargeStatus.succeeded)) [
          | inr open_charge ↦ refused (ground (arith, owned, open_charge))
          | inl done ↦ elim (Option-cases charge.payment_intent_id) [
            | inl unpaid ↦ refused (ground (arith, owned, done, unpaid))
            | inr (intent, reference) ↦
                elim (Bool-cases (ltb_ℤ charge.amount_cents (existing +ℤ input.amount_cents))) [
                  | inl above ↦ refused (ground (arith, owned, done, reference, above))
                  | inr within ↦
                      elim (Option-cases (find (λ r. r.idempotency_key == key) s.refunds)) [
                        | inr (old, duplicate) ↦
                            let e : go ≡ drawn =
                              ground (arith, owned, done, reference, within, duplicate) in
                            inl (ap (λ z. z.refunds) e, ap (λ z. z.ledger_entries) e)
                        | inl new ↦
                            let row = pending_refund s.next_id charge input.amount_cents key in
                            let u : Store = record drawn { refunds = insert row s.refunds } in
                            let e : go
                                ≡ (process_refund gateway message row false intent correlation
                                    u).1 =
                              ground (arith, owned, done, reference, within, new) in
                            let (final, its_charge, its_amount, ends) =
                              process-Ends row intent correlation s u fresh refl refl in
                            inr (
                              charge,
                              found,
                              subst
                                  (λ n.
                                    refunded n s.refunds +ℤ input.amount_cents
                                    ≤ℤ charge.amount_cents)
                                  (sym same) (ground (arith, within)),
                              final,
                              its_charge,
                              its_amount,
                              subst (Ends s final) (sym e) ends,
                            )
                      ]
                ]
          ]
        ]
      ]

  -- Where the next identifier is above those of the refunds, `createRefund` writes no refund and no
  -- ledger entry, or one refund of the charge for the amount asked, which with what was refunded
  -- before is within the charge's amount; the refund succeeded and one ledger entry of its amount
  -- is written, or it failed and none is.
  pub create_refund-Refunds :
      (input : RefundInput) (key correlation : ℕ) (s : Store)
      → IsFresh s
      → Refunds input s (create_refund gateway message input key correlation s).1
  unfolding create_refund
  create_refund-Refunds input key correlation s fresh =
      elim (Option-cases (find (λ c. c.id == input.charge_id) s.charges)) [
        | inl missing ↦
            let e : (create_refund gateway message input key correlation s).1 ≡ s =
              ground (arith, missing) in
            inl (ap (λ z. z.refunds) e, ap (λ z. z.ledger_entries) e)
        | inr (charge, found) ↦
            subst
              (λ o.
                Refunds input s
                  ((or_raise o (charge_not_found input.charge_id)
                      >>= refund_charge gateway message input key correlation)
                    s).1)
              (sym found) (charge-Refunds input key correlation charge s fresh found)
      ]
