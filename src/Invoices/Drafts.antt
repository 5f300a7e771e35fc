-- ===== src/Invoices/Drafts.antt =====
-- Drafts and their line items: `createDraftInvoice`, `updateOpenInvoiceLineItems` and
-- `recalculateSurchargeOnOpenInvoice` of src/invoices/invoices.service.ts.
use Prim.Native.String.{String}
use edge_billing_service.Base.{
  ◌&&◌, ℕ, ℤ, pos, ◌+ℤ◌, ltb, Bool, not, Option, none, some, List, [], ◌∷◌, ◌++◌, map, any, filter,
  ◌===◌,
}
use edge_billing_service.Calendar.Date.{Date}
use edge_billing_service.StateMachine.Status.{draft, void, invoice_eq}
use edge_billing_service.Store.Rows.{
  Invoice, InvoiceType, LineItemType, item_type_eq, invoice_type_eq,
}
use edge_billing_service.Store.Action.{
  Action, pure, gets, when, transaction, generate_id, ◌>>=◌, ◌>>◌,
}
use edge_billing_service.Invoices.Repository.{
  create_invoice, update_invoice, get_line_items, delete_line_items, delete_line_items_of_type,
  find_open_recurring_draft, find_draft_by_customer, count_open_recurring_drafts, find_duplicates,
}
use edge_billing_service.Invoices.Surcharge.{sum_items, is_surcharge, calculate_surcharge}
use edge_billing_service.Invoices.Service.{NewItem, insert_items}

pub record DraftParams : Type 0 where
  pub customer_id : ℕ
  pub subscription_id : Option ℕ
  pub type : InvoiceType
  pub line_items : List NewItem
  pub total_amount_cents : ℤ
  pub currency : String
  pub billing_period_start : Date
  pub billing_period_end : Date
  pub due_date : Date

-- The line item of a surcharge, if there is one.
abbrev pub surcharge_items : Option ℤ → List NewItem
surcharge_items none = []
surcharge_items (some amount) =
    record { type = LineItemType.surcharge; amount_cents = amount; quantity = 1 } ∷ []

-- `surcharge?.amountCents ?? 0`
abbrev pub surcharge_cents : Option ℤ → ℤ
surcharge_cents none = pos 0
surcharge_cents (some amount) = amount

-- The row of a new draft.
abbrev pub draft_row : ℕ → DraftParams → ℤ → Invoice
draft_row id p total = record {
  id = id;
  customer_id = p.customer_id;
  subscription_id = p.subscription_id;
  type = p.type;
  status = draft;
  total_amount_cents = total;
  currency = p.currency;
  billing_period_start = p.billing_period_start;
  billing_period_end = p.billing_period_end;
  due_date = p.due_date;
  paid_at = none;
  voided_at = none;
  credit_adjustment_cents = none;
}

unfoldable pub create_draft_invoice : DraftParams → Action ℕ
create_draft_invoice p = do
  id ← generate_id
  surcharge ← calculate_surcharge p.customer_id p.total_amount_cents
  transaction do
    create_invoice (draft_row id p (p.total_amount_cents +ℤ surcharge_cents surcharge))
    insert_items id (p.line_items ++ surcharge_items surcharge)
  pure id

-- One line item for each employee.
abbrev pub employee_item : ℤ → NewItem
employee_item cost = record { type = LineItemType.employee_cost; amount_cents = cost; quantity = 1 }

-- The writes of `updateOpenInvoiceLineItems` on the draft that it found.
unfoldable pub replace_line_items : Invoice → ℕ → List ℤ → ℤ → Action (Unit {0})
replace_line_items inv customer_id costs total = do
  surcharge ← calculate_surcharge customer_id total
  transaction do
    delete_line_items inv.id
    insert_items inv.id (map employee_item costs ++ surcharge_items surcharge)
    update_invoice inv.id
        (λ i. record i { total_amount_cents = total +ℤ surcharge_cents surcharge })

-- What is found must be a recurring draft, and the only one.
unfoldable pub update_found_line_items : Option Invoice → ℕ → List ℤ → ℤ → Action (Unit {0})
unfolding replace_line_items
update_found_line_items none customer_id costs total = pure tt
update_found_line_items (some inv) customer_id costs total = do
  drafts ← count_open_recurring_drafts customer_id
  let is_draft = (inv.status === draft) && (inv.type === InvoiceType.recurring)
  when (is_draft && not (ltb 1 drafts)) (replace_line_items inv customer_id costs total)

-- The employees are given by their costs.
unfoldable pub update_open_invoice_line_items : ℕ → List ℤ → ℤ → Action (Unit {0})
unfolding update_found_line_items
update_open_invoice_line_items customer_id costs total = do
  found ← find_open_recurring_draft customer_id
  update_found_line_items found customer_id costs total

-- The writes of `recalculateSurchargeOnOpenInvoice` on the draft that it found.
unfoldable pub replace_surcharge : Invoice → ℕ → Action (Unit {0})
replace_surcharge inv customer_id = do
  items ← get_line_items inv.id
  let subtotal = sum_items (filter (λ li. not (is_surcharge li)) items)
  surcharge ← calculate_surcharge customer_id subtotal
  transaction do
    delete_line_items_of_type inv.id LineItemType.surcharge
    insert_items inv.id (surcharge_items surcharge)
    update_invoice inv.id
        (λ i. record i { total_amount_cents = subtotal +ℤ surcharge_cents surcharge })

unfoldable pub recalculate_found : Option Invoice → ℕ → Action (Unit {0})
unfolding replace_surcharge
recalculate_found none customer_id = pure tt
recalculate_found (some inv) customer_id =
    when ((inv.status === draft) && (inv.type === InvoiceType.recurring))
      (replace_surcharge inv customer_id)

unfoldable pub recalculate_surcharge_on_open_invoice : ℕ → Action (Unit {0})
unfolding recalculate_found
recalculate_surcharge_on_open_invoice customer_id = do
  found ← find_open_recurring_draft customer_id
  recalculate_found found customer_id

unfoldable pub void_found_draft : Option Invoice → Action ℕ
void_found_draft none = pure 0
void_found_draft (some inv) = do
  now ← gets (λ s. s.clock)
  update_invoice inv.id (λ i. record i { status = void; voided_at = some now })
  pure 1

-- The oldest draft of the customer becomes void; the number of invoices that did.
unfoldable pub void_draft_invoices_for_customer : ℕ → Action ℕ
unfolding void_found_draft
void_draft_invoices_for_customer customer_id =
    find_draft_by_customer customer_id >>= void_found_draft

unfoldable pub draft_exists_for_subscription_period : ℕ → Date → Date → Action Bool
draft_exists_for_subscription_period subscription_id start end = do
  rows ← find_duplicates subscription_id start end
  pure (any (λ i. (i.status === draft) && (i.type === InvoiceType.recurring)) rows)
