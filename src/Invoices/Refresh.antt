-- ===== src/Invoices/Refresh.antt =====
-- Open drafts: their total stays the sum of their line items.
use edge_billing_service.Base.{
  insert, ◌+◌, ℕ, ℤ, pos, ◌+ℤ◌, ◌==◌, ◌&&◌, not, ◌≡◌, refl, sym, subst, ap, ◌∙◌, List, [], ◌∷◌,
  ◌++◌, map, filter, delete, int_laws, Bool, true, false, Option-cases, inl, inr, ◌⊎◌, Option, none,
  some, mul_one, map_row,
}
use edge_billing_service.StateMachine.Status.{invoice_eq}
use edge_billing_service.Store.Rows.{Invoice, LineItem, LineItemType, item_type_eq, invoice_type_eq}
use edge_billing_service.Store.Action.{
  outcome, Result, Store, ◌>>=◌, ◌>>◌, when, transaction, Action,
}
use edge_billing_service.Store.Ensures.{
  Ensures, Commits, bind-Ensures, transaction-Commits, weaken-Ensures,
}
use edge_billing_service.Invoices.Repository.{
  line_items_of, update_invoice, delete_line_items, delete_line_items_of_type, last,
  is_open_recurring,
}
use edge_billing_service.Invoices.Items.{charged, charged-insert}
use edge_billing_service.Invoices.Surcharge.{sum_items, is_surcharge, calculate_surcharge}
use edge_billing_service.Invoices.Finalize.{update_invoice-Updates, Updates}
use edge_billing_service.Invoices.Service.{NewItem, insert_items, sum_new_items}
use edge_billing_service.Invoices.Drafts.{
  employee_item, surcharge_items, surcharge_cents, replace_line_items, update_found_line_items,
  update_open_invoice_line_items, replace_surcharge, recalculate_found,
  recalculate_surcharge_on_open_invoice,
}
use edge_billing_service.Credits.Application.{total_of}

pub insert_items-Ensures :
    (id : ℕ) (items : List NewItem) (s : Store)
    → Ensures
        (λ _ t. charged id t.line_items ≡ charged id s.line_items +ℤ sum_new_items items)
        (insert_items id items s)
unfolding insert_items
insert_items-Ensures id [] s = omega int_laws
insert_items-Ensures id (x ∷ items) s =
    let item : LineItem = record {
      id = s.next_id;
      invoice_id = id;
      type = x.type;
      amount_cents = x.amount_cents;
      quantity = x.quantity;
    } in
    let u : Store = record s { next_id = s.next_id + 1; line_items = insert item s.line_items } in
    weaken-Ensures (λ _ t. charged id t.line_items ≡ charged id u.line_items +ℤ sum_new_items items)
      (λ _ t. charged id t.line_items ≡ charged id s.line_items +ℤ sum_new_items (x ∷ items))
      (insert_items id items u) (insert_items-Ensures id items u)
      (λ _ t h. grind (int_laws, h, charged-insert id item s.line_items refl))

-- The sum of the employees' costs.
abbrev pub sum_costs : List ℤ → ℤ
sum_costs [] = pos 0
sum_costs (c ∷ costs) = c +ℤ sum_costs costs

sum-employees :
    (costs : List ℤ) (o : Option ℤ)
    → sum_new_items (map employee_item costs ++ surcharge_items o)
      ≡ sum_costs costs +ℤ surcharge_cents o
sum-employees [] none = omega int_laws
sum-employees [] (some a) = grind (int_laws, mul_one a)
sum-employees (c ∷ costs) o = grind (int_laws, mul_one c, sum-employees costs o)

sum-surcharge : (o : Option ℤ) → sum_new_items (surcharge_items o) ≡ surcharge_cents o
sum-surcharge none = refl
sum-surcharge (some a) = grind (int_laws, mul_one a)

charged-delete_all :
    (id : ℕ) (items : List LineItem) → charged id (delete (λ li. li.invoice_id == id) items) ≡ pos 0
charged-delete_all id [] = refl
charged-delete_all id (x ∷ items) = grind (int_laws, charged-delete_all id items)

charged-delete_kind :
    (id : ℕ) (p : LineItem → Bool) (items : List LineItem)
    → charged id (delete (λ li. (li.invoice_id == id) && p li) items)
      ≡ sum_items (filter (λ li. not (p li)) (line_items_of id items))
charged-delete_kind id p [] = refl
charged-delete_kind id p (x ∷ items) = grind (int_laws, charged-delete_kind id p items)

-- The total of the invoice is the sum of its line items.
abbrev pub IsBalanced : ℕ → Store → Type 0
IsBalanced id t = total_of id t.invoices ≡ some (charged id t.line_items)

-- The total set last.
set_total-IsBalanced :
    (id : ℕ) (total : ℤ) (s : Store)
    → charged id s.line_items ≡ total
    → Ensures
        (λ _ t. IsBalanced id t)
        (update_invoice id (λ i. record i { total_amount_cents = total }) s)
set_total-IsBalanced id total s h =
    weaken-Ensures (λ _ t. Updates id (λ i. record i { total_amount_cents = total }) s t)
      (λ _ t. IsBalanced id t) (update_invoice id (λ i. record i { total_amount_cents = total }) s)
      (update_invoice-Updates id (λ i. record i { total_amount_cents = total }) s (λ i. refl))
      (λ _ t (e, i, found, now).
        ap (map_row (λ i. i.total_amount_cents)) now
        ∙ ap some (sym h ∙ ap (charged id) (sym (ap (λ u. u.line_items) e))))

-- New items and then the total, from a state where the items come to the total.
rewrite-IsBalanced :
    (id : ℕ) (items : List NewItem) (total : ℤ) (s : Store)
    → charged id s.line_items +ℤ sum_new_items items ≡ total
    → Ensures
        (λ _ t. IsBalanced id t)
        ((insert_items id items >> update_invoice id (λ i. record i { total_amount_cents = total }))
          s)
rewrite-IsBalanced id items total s h =
    bind-Ensures (λ _ t. charged id t.line_items ≡ charged id s.line_items +ℤ sum_new_items items)
      (λ _ t. IsBalanced id t) (insert_items id items)
      (λ _. update_invoice id (λ i. record i { total_amount_cents = total })) s
      (insert_items-Ensures id items s) (λ _ t k. set_total-IsBalanced id total t (k ∙ h))

-- What is done to a draft: its total is the sum of its line items, or an error has changed nothing.
abbrev pub Balances : ℕ → Store → Result (Unit {0}) × Store → Type 0
Balances id s r = Commits s (λ _ t. IsBalanced id t) r

-- A transaction after the surcharge is calculated.
after_surcharge :
    (id customer_id : ℕ) (subtotal : ℤ) (k : Option ℤ → Action (Unit {0})) (s : Store)
    → ((o : Option ℤ) → Balances id s (k o s))
    → Balances id s ((calculate_surcharge customer_id subtotal >>= k) s)
unfolding calculate_surcharge
after_surcharge id customer_id subtotal k s h = h _

-- The transaction of both operations, once they know what to delete and what to insert.
abbrev rewriting : ℕ → Action (Unit {0}) → List NewItem → ℤ → Action (Unit {0})
rewriting id clear items total = transaction (
    clear
    >> (insert_items id items >> update_invoice id (λ i. record i { total_amount_cents = total })))

replace_line_items-Balances :
    (inv : Invoice) (customer_id : ℕ) (costs : List ℤ) (s : Store)
    → Balances inv.id s (replace_line_items inv customer_id costs (sum_costs costs) s)
unfolding replace_line_items
replace_line_items-Balances inv customer_id costs s =
    let u : Store = record s { line_items = delete (λ li. li.invoice_id == inv.id) s.line_items } in
    after_surcharge inv.id customer_id (sum_costs costs)
      (λ o.
        rewriting inv.id (delete_line_items inv.id) (map employee_item costs ++ surcharge_items o)
          (sum_costs costs +ℤ surcharge_cents o))
      s
      (λ o.
        transaction-Commits (λ _ t. IsBalanced inv.id t)
          (delete_line_items inv.id
            >> (insert_items inv.id (map employee_item costs ++ surcharge_items o)
                >> update_invoice inv.id
                    (λ i. record i { total_amount_cents = sum_costs costs +ℤ surcharge_cents o })))
          s
          (rewrite-IsBalanced inv.id (map employee_item costs ++ surcharge_items o)
            (sum_costs costs +ℤ surcharge_cents o) u
            (grind (int_laws, charged-delete_all inv.id s.line_items, sum-employees costs o))))

replace_surcharge-Balances :
    (inv : Invoice) (customer_id : ℕ) (s : Store)
    → Balances inv.id s (replace_surcharge inv customer_id s)
unfolding replace_surcharge
replace_surcharge-Balances inv customer_id s =
    let clear = delete_line_items_of_type inv.id LineItemType.surcharge in
    let subtotal =
      sum_items (filter (λ li. not (is_surcharge li)) (line_items_of inv.id s.line_items)) in
    let u : Store = record s {
      line_items = delete (λ li. (li.invoice_id == inv.id) && is_surcharge li) s.line_items;
    } in
    after_surcharge inv.id customer_id subtotal
      (λ o. rewriting inv.id clear (surcharge_items o) (subtotal +ℤ surcharge_cents o)) s
      (λ o.
        transaction-Commits (λ _ t. IsBalanced inv.id t)
          (clear
            >> (insert_items inv.id (surcharge_items o)
                >> update_invoice inv.id
                    (λ i. record i { total_amount_cents = subtotal +ℤ surcharge_cents o })))
          s
          (rewrite-IsBalanced inv.id (surcharge_items o) (subtotal +ℤ surcharge_cents o) u (
            grind
              (int_laws, charged-delete_kind inv.id is_surcharge s.line_items, sum-surcharge o))))

-- What a refresh of the open draft of a customer has done: nothing, or the total of the newest
-- open draft is the sum of its line items; an error has changed nothing.
abbrev pub Refreshes : ℕ → Store → Result (Unit {0}) × Store → Type 0
Refreshes customer_id s = Commits s (λ _ t.
    (t ≡ s)
    ⊎ ((inv : Invoice) × (last (filter (is_open_recurring customer_id) s.invoices) ≡ some inv)
        × IsBalanced inv.id t))

-- A step on the draft that was found, under a condition.
refresh_found :
    (customer_id : ℕ) (s : Store) (inv : Invoice) (c : Bool) (m : Action (Unit {0}))
    → last (filter (is_open_recurring customer_id) s.invoices) ≡ some inv
    → Balances inv.id s (m s)
    → Refreshes customer_id s (when c m s)
refresh_found customer_id s inv false m found h = inl refl
refresh_found customer_id s inv true m found h = elim (outcome (m s)) [
  | inl (a, t, e) ↦
      subst (Refreshes customer_id s) (sym e) (inr (inv, found, subst (Balances inv.id s) e h))
  | inr (x, t, e) ↦ subst (Refreshes customer_id s) (sym e) (subst (Balances inv.id s) e h)
]

-- `updateOpenInvoiceLineItems`, called with the sum of the employees' costs, does nothing, raises
-- and changes nothing, or leaves the customer's newest open draft with a total that is the sum of
-- its line items.
pub update_open-Refreshes :
    (customer_id : ℕ) (costs : List ℤ) (s : Store)
    → Refreshes customer_id s (update_open_invoice_line_items customer_id costs (sum_costs costs) s)
unfolding update_open_invoice_line_items
update_open-Refreshes customer_id costs s =
    elim (Option-cases (last (filter (is_open_recurring customer_id) s.invoices))) [
      | inl missing ↦
          subst
            (λ o.
              Refreshes customer_id s
                (update_found_line_items o customer_id costs (sum_costs costs) s))
            (sym missing) (inl refl)
      | inr (inv, found) ↦
          subst
            (λ o.
              Refreshes customer_id s
                (update_found_line_items o customer_id costs (sum_costs costs) s))
            (sym found)
            (refresh_found customer_id s inv _
              (replace_line_items inv customer_id costs (sum_costs costs)) found
              (replace_line_items-Balances inv customer_id costs s))
    ]

-- `recalculateSurchargeOnOpenInvoice` does nothing, raises and changes nothing, or leaves the
-- customer's newest open draft with a total that is the sum of its line items.
pub recalculate-Refreshes :
    (customer_id : ℕ) (s : Store)
    → Refreshes customer_id s (recalculate_surcharge_on_open_invoice customer_id s)
unfolding recalculate_surcharge_on_open_invoice
recalculate-Refreshes customer_id s =
    elim (Option-cases (last (filter (is_open_recurring customer_id) s.invoices))) [
      | inl missing ↦
          subst (λ o. Refreshes customer_id s (recalculate_found o customer_id s)) (sym missing)
            (inl refl)
      | inr (inv, found) ↦
          subst (λ o. Refreshes customer_id s (recalculate_found o customer_id s)) (sym found)
            (refresh_found customer_id s inv _ (replace_surcharge inv customer_id) found
              (replace_surcharge-Balances inv customer_id s))
    ]
