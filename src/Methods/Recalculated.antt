-- ===== src/Methods/Recalculated.antt =====
-- The surcharge of an open invoice is computed anew without a change of the payment methods.
use edge_billing_service.Base.{
  ℕ, ℤ, ◌+ℤ◌, ◌+◌, ◌≤◌, not, Option, List, [], ◌∷◌, ◌==◌, find, filter, insert, ◌≡◌, refl, ◌∙◌, inl,
  inr, Option-cases, arith,
}
use edge_billing_service.Store.Rows.{LineItemType, Invoice}
use edge_billing_service.Store.Action.{Store, Action, transaction, ◌>>=◌, ◌>>◌}
use edge_billing_service.Store.Moves.{Moves, bind-Moves, when-Moves, transaction-Moves, read_then}
use edge_billing_service.Invoices.Repository.{
  update_invoice, delete_line_items_of_type, is_open_recurring, last, line_items_of,
}
use edge_billing_service.Invoices.Service.{NewItem, insert_items}
use edge_billing_service.Invoices.Surcharge.{calculate_surcharge, is_surcharge, sum_items}
use edge_billing_service.Invoices.Drafts.{
  replace_surcharge, recalculate_found, recalculate_surcharge_on_open_invoice, surcharge_items,
  surcharge_cents,
}

-- The methods are as they were, and no identifier was given back.
abbrev pub KeepsMethods : Store → Store → Type 0
KeepsMethods s t = (t.payment_methods ≡ s.payment_methods) × (s.next_id ≤ t.next_id)

KeepsMethods-refl : (s : Store) → KeepsMethods s s
KeepsMethods-refl s = (refl, omega arith)

KeepsMethods-trans : (s t u : Store) → KeepsMethods s t → KeepsMethods t u → KeepsMethods s u
KeepsMethods-trans s t u h k = (k.0 ∙ h.0, omega arith)

pub bind_keeps :
    {A B : Type 0} (m : Action A) (f : A → Action B)
    → Moves KeepsMethods m
    → ((a : A) → Moves KeepsMethods (f a))
    → Moves KeepsMethods (m >>= f)
bind_keeps = bind-Moves KeepsMethods KeepsMethods KeepsMethods (λ s t h. h) KeepsMethods-trans

insert_items_keep : (id : ℕ) (items : List NewItem) → Moves KeepsMethods (insert_items id items)
unfolding insert_items
insert_items_keep id [] s = KeepsMethods-refl s
insert_items_keep id (x ∷ xs) s =
    let rest = insert_items_keep id xs (record s {
      next_id = s.next_id + 1;
      line_items =
          insert
            (record {
              id = s.next_id;
              invoice_id = id;
              type = x.type;
              amount_cents = x.amount_cents;
              quantity = x.quantity;
            })
            s.line_items;
    }) in
    (rest.0, omega (arith, rest.1))

update_invoice_keeps : (id : ℕ) (f : Invoice → Invoice) → Moves KeepsMethods (update_invoice id f)
update_invoice_keeps id f s = elim (Option-cases (find (λ i. i.id == id) s.invoices)) [
  | inl missing ↦ rw (missing, update_invoice) (KeepsMethods-refl s)
  | inr (i, found) ↦ rw (found, update_invoice) (refl, omega arith)
]

replace_surcharge_keeps : (inv : Invoice) (c : ℕ) → Moves KeepsMethods (replace_surcharge inv c)
unfolding replace_surcharge calculate_surcharge
replace_surcharge_keeps inv c s =
    let clear = delete_line_items_of_type inv.id LineItemType.surcharge in
    let subtotal =
      sum_items (filter (λ li. not (is_surcharge li)) (line_items_of inv.id s.line_items)) in
    let write : Option ℤ → Invoice → Invoice =
      λ o i. record i { total_amount_cents = subtotal +ℤ surcharge_cents o } in
    read_then (KeepsMethods s) (calculate_surcharge c subtotal)
      (λ o.
        transaction
          (clear >> (insert_items inv.id (surcharge_items o) >> update_invoice inv.id (write o))))
      s refl (KeepsMethods-refl s)
      (λ o e.
        transaction-Moves KeepsMethods
          (clear >> (insert_items inv.id (surcharge_items o) >> update_invoice inv.id (write o)))
          KeepsMethods-refl
          (bind_keeps clear
            (λ _. insert_items inv.id (surcharge_items o) >> update_invoice inv.id (write o))
            (λ u. (refl, omega arith))
            (λ _.
              bind_keeps (insert_items inv.id (surcharge_items o))
                (λ _. update_invoice inv.id (write o))
                (insert_items_keep inv.id (surcharge_items o))
                (λ _. update_invoice_keeps inv.id (write o))))
          s)

pub recalculate_keeps : (c : ℕ) → Moves KeepsMethods (recalculate_surcharge_on_open_invoice c)
unfolding recalculate_surcharge_on_open_invoice recalculate_found
recalculate_keeps c s = elim (Option-cases (last (filter (is_open_recurring c) s.invoices))) [
  | inl missing ↦ rw missing (KeepsMethods-refl s)
  | inr (inv, found) ↦ rw found (
      when-Moves KeepsMethods _ (replace_surcharge inv c) KeepsMethods-refl
        (replace_surcharge_keeps inv c) s)
]
