-- ===== src/Reconciliation/Service.antt =====
-- `runDailyReconciliation` of src/reconciliation/reconciliation.service.ts, with the queries of
-- src/reconciliation/reconciliation-runs.repository.ts and
-- src/reconciliation/reconciliation-discrepancies.repository.ts. The gateway's answer to the query
-- of the balance transactions is an argument.
use Prim.Native.String.{String}
use edge_billing_service.Base.{
  ℕ, ◌-◌, ◌%◌, ℤ, pos, Bool, true, false, ◌&&◌, Option, none, some, List, [], ◌∷◌, ◌==◌, find,
  filter, insert, leb, ltb,
}
use edge_billing_service.Calendar.Date.{Date, stamp}
use edge_billing_service.Store.Rows.{LedgerEntry, Charge, ReferenceType}
use edge_billing_service.Store.Reconciled.{
  RunStatus, balanced, discrepancy_found, failed, Discrepancy, RunRow,
}
use edge_billing_service.Store.Action.{
  Store, Action, Error, Result, ok, err, pure, gets, modify, transaction, generate_id, ◌>>=◌, ◌>>◌,
}
use edge_billing_service.Invoices.Repository.{same_date}
use edge_billing_service.Reconciliation.Compare.{
  InternalPayment, Transaction, Comparison, compare_records,
}

abbrev is_payment : ReferenceType → Bool
is_payment ReferenceType.payment = true
is_payment ReferenceType.invoice = false
is_payment ReferenceType.invoice_void = false
is_payment ReferenceType.refund = false
is_payment ReferenceType.credit_note = false
is_payment ReferenceType.credit_application = false
is_payment ReferenceType.migration = false

-- `findByReferenceType` for payments: those that were created in the period.
abbrev pub is_payment_within : Date → Date → LedgerEntry → Bool
is_payment_within start end e =
    is_payment e.reference_type
    && leb (stamp start) (stamp e.created_at)
    && ltb (stamp e.created_at) (stamp end)

abbrev payment_record : Charge → Option ℕ → Option InternalPayment
payment_record c none = none
payment_record c (some intent) =
    some (record { charge_id = c.id; intent = intent; amount_cents = c.amount_cents })

-- The payment of an entry, where its charge is known with an intent.
abbrev charge_payment : Option Charge → Option InternalPayment
charge_payment none = none
charge_payment (some c) = payment_record c c.payment_intent_id

abbrev add_found : Option InternalPayment → List InternalPayment → List InternalPayment
add_found none rest = rest
add_found (some p) rest = p ∷ rest

abbrev pub payments_of : List Charge → List LedgerEntry → List InternalPayment
payments_of charges [] = []
payments_of charges (e ∷ es) =
    add_found (charge_payment (find (λ c. c.id == e.reference_id) charges)) (payments_of charges es)

-- `getInternalPayments`
abbrev pub get_internal_payments : Date → Date → Store → List InternalPayment
get_internal_payments start end s =
    payments_of s.charges (filter (is_payment_within start end) s.ledger_entries)

-- `Math.floor(date.getTime() / 1000)`, as a date.
abbrev pub whole_second : Date → Date
whole_second d = record d { millis = d.millis - d.millis % 1000 }

abbrev pub charges_only : Result (List Transaction) → Result (List Transaction)
charges_only (ok ts) = ok (filter (λ t. t.is_charge) ts)
charges_only (err x) = err x

-- `ReconciliationRun`, less the period.
pub record ReconciliationRun : Type 0 where
  pub id : ℕ
  pub status : RunStatus
  pub records_compared : ℕ
  pub total_internal_amount_cents : ℤ
  pub total_stripe_amount_cents : ℤ
  pub error_reason : Option String
  pub discrepancies : List Discrepancy

abbrev is_complete : RunStatus → Bool
is_complete balanced = true
is_complete discrepancy_found = true
is_complete failed = false

abbrev pub is_run_of : Date → Date → RunRow → Bool
is_run_of start end r =
    same_date r.period_start start && same_date r.period_end end && is_complete r.status

-- `findExistingRun`
abbrev pub find_existing_run : Date → Date → Store → Option RunRow
find_existing_run start end s = find (is_run_of start end) s.reconciliation_runs

abbrev pub insert_run : RunRow → Action (Unit {0})
insert_run r = modify (λ s. record s { reconciliation_runs = insert r s.reconciliation_runs })

-- `insertBatch`
abbrev pub insert_batch : ℕ → List Discrepancy → Action (Unit {0})
insert_batch run_id [] = pure tt
insert_batch run_id (d ∷ ds) = do
  id ← generate_id
  modify (λ s. record s {
    reconciliation_discrepancies =
        insert (record { id = id; run_id = run_id; discrepancy = d })
          s.reconciliation_discrepancies;
  })
  insert_batch run_id ds

abbrev pub status_of : List Discrepancy → RunStatus
status_of [] = balanced
status_of (d ∷ ds) = discrepancy_found

module _ (start end : Date) (correlation : ℕ) where
  abbrev run_row : ℕ → RunStatus → Comparison → RunRow
  run_row id status c = record {
    id = id;
    period_start = start;
    period_end = end;
    status = status;
    records_compared = c.records_compared;
    total_internal_amount_cents = c.total_internal_amount_cents;
    total_stripe_amount_cents = c.total_stripe_amount_cents;
    error_reason = none;
    correlation_id = correlation;
  }

  -- `storeResult`
  unfoldable pub store_result : RunStatus → Comparison → Action ReconciliationRun
  store_result status c = do
    id ← generate_id
    transaction (insert_run (run_row id status c) >> insert_batch id c.discrepancies)
    pure (record {
      id = id;
      status = status;
      records_compared = c.records_compared;
      total_internal_amount_cents = c.total_internal_amount_cents;
      total_stripe_amount_cents = c.total_stripe_amount_cents;
      error_reason = none;
      discrepancies = c.discrepancies;
    })

  -- `storeFailedRun`
  unfoldable pub store_failed_run : String → Action ReconciliationRun
  store_failed_run reason = do
    id ← generate_id
    insert_run (record {
      id = id;
      period_start = start;
      period_end = end;
      status = failed;
      records_compared = 0;
      total_internal_amount_cents = pos 0;
      total_stripe_amount_cents = pos 0;
      error_reason = some reason;
      correlation_id = correlation;
    })
    pure (record {
      id = id;
      status = failed;
      records_compared = 0;
      total_internal_amount_cents = pos 0;
      total_stripe_amount_cents = pos 0;
      error_reason = some reason;
      discrepancies = [];
    })

  module _ (message : Error → String) where
    -- The comparison with what the gateway answered, or the failed run.
    unfoldable pub reconcile_with : Result (List Transaction) → Action ReconciliationRun
    unfolding store_result store_failed_run
    reconcile_with (ok transactions) = do
      payments ← gets (get_internal_payments start end)
      let c = compare_records payments transactions
      store_result (status_of c.discrepancies) c
    reconcile_with (err x) = store_failed_run (message x)

    -- The run of a period that has been completed before.
    abbrev earlier_run : RunRow → ReconciliationRun
    earlier_run r = record {
      id = r.id;
      status = r.status;
      records_compared = r.records_compared;
      total_internal_amount_cents = r.total_internal_amount_cents;
      total_stripe_amount_cents = r.total_stripe_amount_cents;
      error_reason = r.error_reason;
      discrepancies = [];
    }

    unfoldable pub reconcile_unless :
        Result (List Transaction) → Option RunRow → Action ReconciliationRun
    unfolding reconcile_with
    reconcile_unless answer none = reconcile_with (charges_only answer)
    reconcile_unless answer (some r) = pure (earlier_run r)

-- `runDailyReconciliation`
unfoldable pub run_daily_reconciliation :
    (Date → Date → Result (List Transaction))
    → (Error → String)
    → Date
    → Date
    → ℕ
    → Action ReconciliationRun
unfolding reconcile_unless
run_daily_reconciliation get_balance_transactions message start end correlation = do
  existing ← gets (find_existing_run start end)
  reconcile_unless start end correlation message
      (get_balance_transactions (whole_second start) (whole_second end)) existing
