-- ===== src/Invoices/Repository.antt =====
-- The queries of src/invoices/invoices.repository.ts and of src/database/base.repository.ts on
-- invoices and line items.
use edge_billing_service.Base.{
  ℕ, Bool, false, Option, none, some, List, [], ◌∷◌, ◌++◌, ◌&&◌, ◌==◌, ◌===◌, find, filter, update,
  delete, insert,
}
use edge_billing_service.Calendar.Date.{Date, stamp}
use edge_billing_service.StateMachine.Status.{InvoiceStatus, draft, invoice_eq}
use edge_billing_service.Store.Rows.{
  Invoice, LineItem, LineItemType, InvoiceType, invoice_type_eq, item_type_eq,
}
use edge_billing_service.Store.Action.{Action, ok, err, gets, modify, row_expected}

abbrev pub find_invoice : ℕ → Action (Option Invoice)
find_invoice id = gets (λ s. find (λ i. i.id == id) s.invoices)

abbrev pub create_invoice : Invoice → Action (Unit {0})
create_invoice i = modify (λ s. record s { invoices = insert i s.invoices })

-- `update`: raises when there is no such row.
abbrev pub update_invoice : ℕ → (Invoice → Invoice) → Action (Unit {0})
update_invoice id f s = elim (find (λ i. i.id == id) s.invoices) [
  | none ↦ (err row_expected, s)
  | some i ↦ (ok tt, record s { invoices = update (λ i. i.id == id) f s.invoices })
]

-- Update in the given status only; the row, if there was one.
abbrev pub update_with_concurrency_check :
    ℕ → (Invoice → Invoice) → InvoiceStatus → Action (Option Invoice)
update_with_concurrency_check id f expected s =
    elim (find (λ i. (i.id == id) && (i.status === expected)) s.invoices) [
      | none ↦ (ok none, s)
      | some i ↦ (
        ok (some (f i)),
        record s { invoices = update (λ i. (i.id == id) && (i.status === expected)) f s.invoices },
      )
    ]

abbrev pub line_items_of : ℕ → List LineItem → List LineItem
line_items_of invoice_id = filter (λ li. li.invoice_id == invoice_id)

abbrev pub get_line_items : ℕ → Action (List LineItem)
get_line_items invoice_id = gets (λ s. line_items_of invoice_id s.line_items)

abbrev pub create_line_item : LineItem → Action (Unit {0})
create_line_item li = modify (λ s. record s { line_items = insert li s.line_items })

abbrev pub create_line_items : List LineItem → Action (Unit {0})
create_line_items items = modify (λ s. record s { line_items = s.line_items ++ items })

abbrev pub delete_line_items : ℕ → Action (Unit {0})
delete_line_items invoice_id =
    modify (λ s. record s { line_items = delete (λ li. li.invoice_id == invoice_id) s.line_items })

abbrev pub delete_line_items_of_type : ℕ → LineItemType → Action (Unit {0})
delete_line_items_of_type invoice_id type = modify (λ s. record s {
  line_items = delete (λ li. (li.invoice_id == invoice_id) && (li.type === type)) s.line_items;
})

abbrev pub is_draft_of : ℕ → Invoice → Bool
is_draft_of customer_id i = (i.customer_id == customer_id) && (i.status === draft)

abbrev pub is_open_recurring : ℕ → Invoice → Bool
is_open_recurring customer_id i = is_draft_of customer_id i && (i.type === InvoiceType.recurring)

-- The last row of a selection: rows stand in the order of creation.
abbrev pub last {ℓ} : {A : Type ℓ} → List A → Option A
last [] = none
last (x ∷ xs) = elim (last xs) [ none ↦ some x | some y ↦ some y ]

-- The newest open recurring draft of the customer.
abbrev pub find_open_recurring_draft : ℕ → Action (Option Invoice)
find_open_recurring_draft customer_id =
    gets (λ s. last (filter (is_open_recurring customer_id) s.invoices))

-- The oldest draft of the customer.
abbrev pub find_draft_by_customer : ℕ → Action (Option Invoice)
find_draft_by_customer customer_id = gets (λ s. find (is_draft_of customer_id) s.invoices)

-- The number of rows of a selection with `LIMIT 2`.
abbrev pub count_two {ℓ} : {A : Type ℓ} → List A → ℕ
count_two [] = 0
count_two (x ∷ []) = 1
count_two (x ∷ y ∷ rest) = 2

abbrev pub count_open_recurring_drafts : ℕ → Action ℕ
count_open_recurring_drafts customer_id =
    gets (λ s. count_two (filter (is_open_recurring customer_id) s.invoices))

-- Equality in the columns of dates.
abbrev pub same_date : Date → Date → Bool
same_date d e = stamp d == stamp e

abbrev pub belongs_to : ℕ → Option ℕ → Bool
belongs_to id owner = elim owner [ none ↦ false | some o ↦ o == id ]

abbrev pub find_duplicates : ℕ → Date → Date → Action (List Invoice)
find_duplicates subscription_id start end = gets (λ s.
    filter
      (λ i.
        belongs_to subscription_id i.subscription_id
        && same_date i.billing_period_start start
        && same_date i.billing_period_end end)
      s.invoices)
