-- ===== src/Reconciliation/Reruns.antt =====
-- What a run leaves in the tables, and that a completed period is not compared again.
use Prim.Native.String.{String}
use edge_billing_service.Base.{
  ℕ, Option, none, some, List, [], ◌++◌, find, insert, find-insert, ◌≡◌, ◌≢◌, ◌⊎◌, inl, inr, refl,
  sym, ap, ◌∙◌, subst,
}
use edge_billing_service.Calendar.Date.{Date}
use edge_billing_service.Store.Reconciled.{failed, RunRow}
use edge_billing_service.Store.Action.{Store, Error, Result, ok, err}
use edge_billing_service.Store.Ensures.{Returns}
use edge_billing_service.Reconciliation.Compare.{Transaction, Comparison, compare_records}
use edge_billing_service.Reconciliation.Stored.{
  append-nil, discrepancies_of, with_batch, with_batch-runs, with_batch-discrepancies, row_of,
  with_run, is_run_of-row, store_result-ok, LaterRun, after_runs, after_runs-stays,
}
use edge_billing_service.Reconciliation.Service.{
  ReconciliationRun, find_existing_run, is_run_of, store_result, reconcile_with, reconcile_unless,
  run_daily_reconciliation, charges_only, status_of, get_internal_payments, whole_second,
}

module _ (start end : Date) where
  -- What a run has stored: its period was completed before, by the run that it returns, and nothing
  -- changes; or it was not, and there is one row more, of the run, with a row for each of its
  -- discrepancies.
  abbrev pub Stores : Store → ReconciliationRun → Store → Type 0
  Stores s r t =
      ((row : RunRow) × (find_existing_run start end s ≡ some row)
        × (row.id ≡ r.id)
        × (row.status ≡ r.status)
        × (t ≡ s))
      ⊎ ((find_existing_run start end s ≡ none)
          × ((row : RunRow) × (t.reconciliation_runs ≡ insert row s.reconciliation_runs)
              × (row.id ≡ r.id)
              × (row.status ≡ r.status)
              × (row.period_start ≡ start)
              × (row.period_end ≡ end))
          × (discrepancies_of t.reconciliation_discrepancies
              ≡ discrepancies_of s.reconciliation_discrepancies ++ r.discrepancies))

module _ (message : Error → String) (start end : Date) where
  -- Unless the run has failed: after any sequence of other runs, a later run of the period has its
  -- result and changes nothing.
  abbrev pub Settles : ReconciliationRun → Store → Type 0
  Settles r t =
      r.status ≢ failed
      → (between : List LaterRun) (again : Date → Date → Result (List Transaction))
        (correlation : ℕ)
      → let u = after_runs message between t in
        run_daily_reconciliation again message start end correlation u
        ≡ (ok (record r { discrepancies = [] }), u)

  -- The run of a period that is in the table.
  repeated :
      (row : RunRow) (t : Store)
      → find_existing_run start end t ≡ some row
      → (again : Date → Date → Result (List Transaction)) (correlation : ℕ)
      → run_daily_reconciliation again message start end correlation t ≡ (
        ok (record {
          id = row.id;
          status = row.status;
          records_compared = row.records_compared;
          total_internal_amount_cents = row.total_internal_amount_cents;
          total_stripe_amount_cents = row.total_stripe_amount_cents;
          error_reason = row.error_reason;
          discrepancies = [];
        }),
        t,
      )
  unfolding run_daily_reconciliation
  repeated row t e again correlation = rw e refl

  module _ (correlation : ℕ) where
    store_result-Returns :
        (c : Comparison) (s : Store)
        → find_existing_run start end s ≡ none
        → Returns
            (λ r t. Stores start end s r t × Settles r t)
            (store_result start end correlation (status_of c.discrepancies) c s)
    store_result-Returns c s absent =
        let ds = c.discrepancies in
        let row = row_of start end correlation s.next_id (status_of ds) c in
        let u = with_run start end correlation row s in
        let t = with_batch s.next_id ds u in
        let runs : t.reconciliation_runs ≡ insert row s.reconciliation_runs =
          with_batch-runs s.next_id ds u in
        let found : find_existing_run start end t ≡ some row =
          ap (find (is_run_of start end)) runs
          ∙ find-insert (is_run_of start end) row s.reconciliation_runs
          ∙ rw (absent, is_run_of-row start end correlation s.next_id ds c) refl in
        subst (Returns (λ r t. Stores start end s r t × Settles r t))
          (sym (store_result-ok start end correlation c s))
          (
            inr (
              absent,
              (row, runs, refl, refl, refl, refl),
              with_batch-discrepancies s.next_id ds u,
            ),
            λ completed between.
                repeated row _ (after_runs-stays message start end row between t found),
          )

    reconcile_with-Returns :
        (answer : Result (List Transaction)) (s : Store)
        → find_existing_run start end s ≡ none
        → Returns
            (λ r t. Stores start end s r t × Settles r t)
            (reconcile_with start end correlation message answer s)
    unfolding reconcile_with
    reconcile_with-Returns (ok transactions) s absent =
        store_result-Returns (compare_records (get_internal_payments start end s) transactions) s
          absent
    reconcile_with-Returns (err x) s absent = (
      inr (absent, (_, refl, refl, refl, refl, refl), append-nil _),
      λ completed. absurd (completed refl),
    )

    reconcile_unless-Returns :
        (answer : Result (List Transaction)) (o : Option RunRow) (s : Store)
        → find_existing_run start end s ≡ o
        → Returns
            (λ r t. Stores start end s r t × Settles r t)
            (reconcile_unless start end correlation message answer o s)
    unfolding reconcile_unless
    reconcile_unless-Returns answer none s absent =
        reconcile_with-Returns (charges_only answer) s absent
    reconcile_unless-Returns answer (some row) s found = (
      inl (row, found, refl, refl, refl),
      λ completed between. repeated row _ (after_runs-stays message start end row between s found),
    )

-- In every state and whatever the gateway answers a run returns. If its period was completed
-- before, it returns that run and nothing changes; otherwise there is one row more, of the run and
-- its period, with a row for each discrepancy. Unless the run has failed, a later run of the period,
-- after any sequence of runs of any periods, has its result, without the discrepancies, and changes
-- nothing.
pub run_daily-Returns :
    (get_balance_transactions : Date → Date → Result (List Transaction)) (message : Error → String)
    (start end : Date) (correlation : ℕ) (s : Store)
    → Returns
        (λ r t. Stores start end s r t × Settles message start end r t)
        (run_daily_reconciliation get_balance_transactions message start end correlation s)
unfolding run_daily_reconciliation
run_daily-Returns get_balance_transactions message start end correlation s =
    reconcile_unless-Returns message start end correlation
      (get_balance_transactions (whole_second start) (whole_second end))
      (find_existing_run start end s) s refl
