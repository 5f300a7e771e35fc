-- ===== src/Reconciliation/Stored.antt =====
-- What a run writes, and that the row of a completed period stays found through later runs.
use Prim.Native.String.{String}
use edge_billing_service.Base.{
  ℕ, ◌+◌, Bool, true, Option, none, some, List, [], ◌∷◌, ◌++◌, map, find, insert, find-insert, ◌≡◌,
  refl, ap, ◌∙◌, ==_refl,
}
use edge_billing_service.Calendar.Date.{Date, stamp}
use edge_billing_service.Store.Reconciled.{RunStatus, Discrepancy, RunRow, DiscrepancyRow}
use edge_billing_service.Store.Action.{
  Store, Error, Result, ok, err, pure, transaction, >>=-ok, transaction-ok, ◌>>◌,
}
use edge_billing_service.Reconciliation.Compare.{Transaction, Comparison, compare_records}
use edge_billing_service.Reconciliation.Service.{
  ReconciliationRun, find_existing_run, is_run_of, insert_batch, insert_run, store_result,
  reconcile_with, reconcile_unless, store_failed_run, run_daily_reconciliation, charges_only,
  status_of, get_internal_payments, whole_second,
}

-- The state with a row for each discrepancy of a run.
abbrev pub with_batch : ℕ → List Discrepancy → Store → Store
with_batch run_id [] s = s
with_batch run_id (d ∷ ds) s = with_batch run_id ds (record s {
  next_id = s.next_id + 1;
  reconciliation_discrepancies =
      insert (record { id = s.next_id; run_id = run_id; discrepancy = d })
        s.reconciliation_discrepancies;
})

insert_batch-ok :
    (run_id : ℕ) (ds : List Discrepancy) (s : Store)
    → insert_batch run_id ds s ≡ (ok tt, with_batch run_id ds s)
insert_batch-ok run_id [] s = refl
insert_batch-ok run_id (d ∷ ds) s = insert_batch-ok run_id ds _

pub with_batch-runs :
    (run_id : ℕ) (ds : List Discrepancy) (s : Store)
    → (with_batch run_id ds s).reconciliation_runs ≡ s.reconciliation_runs
with_batch-runs run_id [] s = refl
with_batch-runs run_id (d ∷ ds) s = with_batch-runs run_id ds _

-- The discrepancies in the rows of a run.
abbrev pub discrepancies_of : List DiscrepancyRow → List Discrepancy
discrepancies_of = map (λ r. r.discrepancy)

map-insert :
    (r : DiscrepancyRow) (rows : List DiscrepancyRow) (ds : List Discrepancy)
    → discrepancies_of (insert r rows) ++ ds ≡ discrepancies_of rows ++ r.discrepancy ∷ ds
map-insert r [] ds = refl
map-insert r (x ∷ rows) ds = ap (λ l. x.discrepancy ∷ l) (map-insert r rows ds)

pub append-nil : (ds : List Discrepancy) → ds ≡ ds ++ []
append-nil [] = refl
append-nil (d ∷ ds) = ap (λ l. d ∷ l) (append-nil ds)

pub with_batch-discrepancies :
    (run_id : ℕ) (ds : List Discrepancy) (s : Store)
    → discrepancies_of (with_batch run_id ds s).reconciliation_discrepancies
      ≡ discrepancies_of s.reconciliation_discrepancies ++ ds
with_batch-discrepancies run_id [] s = append-nil _
with_batch-discrepancies run_id (d ∷ ds) s =
    with_batch-discrepancies run_id ds _ ∙ map-insert _ s.reconciliation_discrepancies ds

module _ (start end : Date) (correlation : ℕ) where
  abbrev pub row_of : ℕ → RunStatus → Comparison → RunRow
  row_of id status c = record {
    id = id;
    period_start = start;
    period_end = end;
    status = status;
    records_compared = c.records_compared;
    total_internal_amount_cents = c.total_internal_amount_cents;
    total_stripe_amount_cents = c.total_stripe_amount_cents;
    error_reason = none;
    correlation_id = correlation;
  }

  -- The state with the row of a run.
  abbrev pub with_run : RunRow → Store → Store
  with_run row s = record s {
    next_id = s.next_id + 1;
    reconciliation_runs = insert row s.reconciliation_runs;
  }

  pub is_run_of-row :
      (id : ℕ) (ds : List Discrepancy) (c : Comparison)
      → is_run_of start end (row_of id (status_of ds) c) ≡ true
  is_run_of-row id [] c = rw (==_refl (stamp start), ==_refl (stamp end)) refl
  is_run_of-row id (d ∷ ds) c = rw (==_refl (stamp start), ==_refl (stamp end)) refl

  abbrev pub run_of : ℕ → Comparison → ReconciliationRun
  run_of id c = record {
    id = id;
    status = status_of c.discrepancies;
    records_compared = c.records_compared;
    total_internal_amount_cents = c.total_internal_amount_cents;
    total_stripe_amount_cents = c.total_stripe_amount_cents;
    error_reason = none;
    discrepancies = c.discrepancies;
  }

  pub store_result-ok :
      (c : Comparison) (s : Store)
      → store_result start end correlation (status_of c.discrepancies) c s ≡ (
        ok (run_of s.next_id c),
        with_batch s.next_id c.discrepancies
            (with_run (row_of s.next_id (status_of c.discrepancies) c) s),
      )
  unfolding store_result
  store_result-ok c s =
      let row = row_of s.next_id (status_of c.discrepancies) c in
      let u = record s { next_id = s.next_id + 1 } in
      let body = insert_run row >> insert_batch s.next_id c.discrepancies in
      >>=-ok (transaction body) (λ _. pure (run_of s.next_id c)) u
        (transaction-ok body u (insert_batch-ok s.next_id c.discrepancies (with_run row s)))

-- A later run: what the gateway answers to it, its period and its correlation.
pub record LaterRun : Type 0 where
  pub answers : Date → Date → Result (List Transaction)
  pub start : Date
  pub end : Date
  pub correlation : ℕ

find-stays :
    (p : RunRow → Bool) (row : RunRow) (x : RunRow) (xs : List RunRow)
    → find p xs ≡ some row
    → find p (insert x xs) ≡ some row
find-stays p row x xs h = find-insert p x xs ∙ rw h refl

module _ (message : Error → String) where
  abbrev pub after_run : LaterRun → Store → Store
  after_run r s = (run_daily_reconciliation r.answers message r.start r.end r.correlation s).1

  abbrev pub after_runs : List LaterRun → Store → Store
  after_runs [] s = s
  after_runs (r ∷ rs) s = after_runs rs (after_run r s)

  module _ (start end : Date) (row : RunRow) where
    reconcile_with-stays :
        (r : LaterRun) (answer : Result (List Transaction)) (s : Store)
        → find_existing_run start end s ≡ some row
        → find_existing_run start end
            (reconcile_with r.start r.end r.correlation message answer s).1
          ≡ some row
    unfolding reconcile_with store_failed_run
    reconcile_with-stays r (err x) s h =
        find-stays (is_run_of start end) row _ s.reconciliation_runs h
    reconcile_with-stays r (ok ts) s h =
        let c = compare_records (get_internal_payments r.start r.end s) ts in
        let added = row_of r.start r.end r.correlation s.next_id (status_of c.discrepancies) c in
        ap (λ o. find_existing_run start end o.1) (store_result-ok r.start r.end r.correlation c s)
        ∙ ap (find (is_run_of start end)) (
            with_batch-runs s.next_id c.discrepancies
              (with_run r.start r.end r.correlation added s))
        ∙ find-stays (is_run_of start end) row added s.reconciliation_runs h

    reconcile_unless-stays :
        (r : LaterRun) (answer : Result (List Transaction)) (o : Option RunRow) (s : Store)
        → find_existing_run start end s ≡ some row
        → find_existing_run start end
            (reconcile_unless r.start r.end r.correlation message answer o s).1
          ≡ some row
    unfolding reconcile_unless
    reconcile_unless-stays r answer none s h = reconcile_with-stays r (charges_only answer) s h
    reconcile_unless-stays r answer (some x) s h = h

    -- Through any sequence of runs the row of a completed period stays the one that is found.
    pub after_runs-stays :
        (rs : List LaterRun) (s : Store)
        → find_existing_run start end s ≡ some row
        → find_existing_run start end (after_runs rs s) ≡ some row
    unfolding run_daily_reconciliation
    after_runs-stays [] s h = h
    after_runs-stays (r ∷ rs) s h = after_runs-stays rs (after_run r s) (
        reconcile_unless-stays r (r.answers (whole_second r.start) (whole_second r.end))
          (find_existing_run r.start r.end s) s h)
