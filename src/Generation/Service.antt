-- ===== src/Generation/Service.antt =====
-- The loops of `generateInvoicesForDueSubscriptions`, and `createFromEvent`, of
-- src/invoices/invoices.service.ts, with the queries of src/invoices/invoices.repository.ts and
-- src/subscriptions/subscriptions.repository.ts for what is due.
use Prim.Native.String.{String}
use edge_billing_service.Base.{
  ℕ, ◌+◌, ℤ, pos, eqb_ℤ, leb, Bool, true, false, ◌&&◌, ◌||◌, ◌===◌, any, find, filter, map, Option,
  none, some, List, [], ◌∷◌, if◌then◌else◌,
}
use edge_billing_service.Calendar.Date.{Date, stamp}
use edge_billing_service.StateMachine.Status.{
  draft, finalized, paid, void, active, invoice_eq, subscription_eq,
}
use edge_billing_service.Store.Rows.{
  Invoice, InvoiceType, LineItemType, Subscription, invoice_type_eq,
}
use edge_billing_service.Store.Action.{
  Store, Action, pure, gets, catch, when, invoice_created, invoice_paid, ◌>>=◌, ◌>>◌,
}
use edge_billing_service.Outbound.{World, publish_or_log, should_dual_write}
use edge_billing_service.Invoices.Repository.{find_duplicates}
use edge_billing_service.Invoices.Service.{
  finalize_draft_for_subscription, create_invoice_for_subscription, finalize_transaction,
  finalize_and_charge,
}
use edge_billing_service.Invoices.Drafts.{create_draft_invoice}
use edge_billing_service.Charges.Service.{execute_payment_for_invoice}
use edge_billing_service.Subscriptions.Seeding.{Sources, advance_and_seed_next_draft}

-- How the run ends for one subscription or invoice.
pub data Billing : Type 0 where
  created skipped failed completed : Billing

-- The four counters of the run. The source logs them all and returns those but `failed`.
pub record GenerationCounts : Type 0 where
  pub created : ℕ
  pub skipped : ℕ
  pub failed : ℕ
  pub finalized : ℕ

abbrev pub count : Billing → GenerationCounts → GenerationCounts
count created r = record r { created = r.created + 1 }
count skipped r = record r { skipped = r.skipped + 1 }
count failed r = record r { failed = r.failed + 1 }
count completed r = record r { finalized = r.finalized + 1 }

abbrev pub is_by : Date → Option Date → Bool
is_by date none = false
is_by date (some d) = leb (stamp d) (stamp date)

-- `findDueForBilling`
abbrev pub find_due_for_billing : Date → Store → List Subscription
find_due_for_billing date s =
    filter (λ u. (u.status === active) && is_by date u.next_billing_date) s.subscriptions

-- `findPendingOnboarding`
abbrev pub find_pending_onboarding : Date → Store → List Invoice
find_pending_onboarding date s =
    filter
      (λ i.
        ((i.type === InvoiceType.onboarding) || (i.type === InvoiceType.one_time))
        && (i.status === draft)
        && is_by date (some i.due_date))
      s.invoices

abbrev pub is_open_draft : Invoice → Bool
is_open_draft i = (i.status === draft) && (i.type === InvoiceType.recurring)

abbrev pub is_none : Option Invoice → Bool
is_none none = true
is_none (some i) = false

-- The invoice that the run made for a subscription, and what is left to pay of it.
pub record Billed : Type 0 where
  pub invoice_id : ℕ
  pub customer_id : ℕ
  pub new_total : ℤ

module _ (world : World) (retry_schedule_days : List ℕ) where
  -- A payment whose error is logged only.
  unfoldable pub try_charge : ℕ → ℕ → Action (Unit {0})
  try_charge invoice_id correlation =
      catch
        (execute_payment_for_invoice world retry_schedule_days invoice_id correlation 1 none
          >> pure tt)
        (λ x. pure tt)

  -- The messages and the payment of a new invoice; nothing is charged where nothing is left to pay.
  unfoldable pub announce_and_charge : Billed → ℕ → Action (Unit {0})
  unfolding try_charge
  announce_and_charge b correlation = do
    dual ← gets (should_dual_write b.customer_id)
    if eqb_ℤ b.new_total (pos 0)
        then publish_or_log world b.customer_id dual (invoice_paid b.invoice_id (pos 0))
        else (publish_or_log world b.customer_id dual (invoice_created b.invoice_id b.new_total)
            >> try_charge b.invoice_id correlation)

  -- The rest of an iteration of the second loop.
  unfoldable pub complete_invoice : Invoice → ℕ → Action Billing
  unfolding try_charge finalize_transaction
  complete_invoice inv correlation = do
    settled ← finalize_transaction inv correlation
    dual ← gets (should_dual_write inv.customer_id)
    if eqb_ℤ settled.final_total_cents (pos 0)
        then publish_or_log world inv.customer_id dual (invoice_paid inv.id (pos 0))
        else try_charge inv.id correlation
    pure completed

  -- An iteration of the second loop: an error is counted.
  unfoldable pub finalize_pending : ℕ → Invoice → Action Billing
  unfolding complete_invoice
  finalize_pending correlation inv = catch (complete_invoice inv correlation) (λ x. pure failed)

module _ (world : World) (retry_schedule_days advance_days : List ℕ) (sources : Sources) where
  -- The draft of the period is finalized, or an invoice is created for it.
  unfoldable pub bill_period : Subscription → Option Invoice → ℕ → Action Billed
  bill_period u (some inv) correlation = do
    (row, settled) ← finalize_draft_for_subscription inv correlation
    pure (record {
      invoice_id = row.id;
      customer_id = row.customer_id;
      new_total = settled.final_total_cents;
    })
  bill_period u none correlation = do
    (id, settled) ← create_invoice_for_subscription advance_days u correlation
    pure (record {
      invoice_id = id;
      customer_id = u.customer_id;
      new_total = settled.final_total_cents;
    })

  -- The rest of an iteration once the subscription is known to be open for billing.
  unfoldable pub bill_open : Subscription → Option Invoice → ℕ → Action Billing
  unfolding bill_period announce_and_charge
  bill_open u existing correlation = do
    b ← bill_period u existing correlation
    announce_and_charge world retry_schedule_days b correlation
    catch (advance_and_seed_next_draft sources advance_days b.invoice_id) (λ x. pure tt)
    pure created

  -- The two reasons to skip, then the billing.
  unfoldable pub bill_or_skip : Subscription → List Invoice → ℕ → Action Billing
  unfolding bill_open
  bill_or_skip u existing correlation =
      let existing_draft = find is_open_draft existing in
      if any (λ i. (i.status === finalized) || (i.status === paid)) existing
      then pure skipped
      else if any (λ i. i.status === void) existing && is_none existing_draft
      then pure skipped
      else bill_open u existing_draft correlation

  -- An iteration of the first loop: an error is counted.
  unfoldable pub bill_subscription : ℕ → Subscription → Action Billing
  unfolding bill_or_skip
  bill_subscription correlation u =
      catch
        (find_duplicates u.id u.billing_period_start u.billing_period_end >>= λ existing.
          bill_or_skip u existing correlation)
        (λ x. pure failed)

-- A loop over what is due, with the counts so far.
unfoldable pub run_all :
    {A : Type 0} → (A → Action Billing) → List A → GenerationCounts → Action GenerationCounts
run_all step [] r = pure r
run_all step (x ∷ xs) r = step x >>= λ b. run_all step xs (count b r)

module _ (world : World) (retry_schedule_days advance_days : List ℕ) (sources : Sources) where
  -- `generateInvoicesForDueSubscriptions`
  unfoldable pub generate_invoices : Date → ℕ → Action GenerationCounts
  unfolding run_all bill_subscription finalize_pending
  generate_invoices date correlation = do
    due ← gets (find_due_for_billing date)
    billed ←
        run_all (bill_subscription world retry_schedule_days advance_days sources correlation) due
          (record { created = 0; skipped = 0; failed = 0; finalized = 0 })
    pending ← gets (find_pending_onboarding date)
    run_all (finalize_pending world retry_schedule_days correlation) pending billed

-- The line items of a standalone invoice have the invoice's type.
abbrev pub item_type_of : InvoiceType → LineItemType
item_type_of InvoiceType.recurring = LineItemType.recurring
item_type_of InvoiceType.onboarding = LineItemType.onboarding
item_type_of InvoiceType.one_time = LineItemType.one_time

-- `InvoiceCreatePayload`, less the descriptions.
pub record InvoicePayload : Type 0 where
  pub type : InvoiceType
  pub currency : String
  pub total_amount_cents : ℤ
  pub line_items : List ℤ
  pub due_date : Date

-- `createFromEvent`
unfoldable pub create_invoice_from_event :
    (ℕ → ℕ → Action (Unit {0})) → InvoicePayload → ℕ → ℕ → Action ℕ
unfolding finalize_and_charge
create_invoice_from_event execute_payment payload customer_id correlation = do
  now ← gets (λ s. s.clock)
  id ← create_draft_invoice (record {
    customer_id = customer_id;
    subscription_id = none;
    type = payload.type;
    line_items =
        map
          (λ amount. record {
            type = item_type_of payload.type;
            amount_cents = amount;
            quantity = 1;
          })
          payload.line_items;
    total_amount_cents = payload.total_amount_cents;
    currency = payload.currency;
    billing_period_start = now;
    billing_period_end = now;
    due_date = payload.due_date;
  })
  when (is_by now (some payload.due_date)) (finalize_and_charge execute_payment id correlation)
  pure id
