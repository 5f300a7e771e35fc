-- ===== src/Invoices/Items.antt =====
-- The sum of an invoice's line items, and what the writes do to it.
use edge_billing_service.Invoices.Surcharge.{sum_items, round_hundredth}
use edge_billing_service.Invoices.Repository.{line_items_of}
use edge_billing_service.Store.Rows.{LineItem, item_type_eq}
use edge_billing_service.Base.Int.{◌+ℤ◌, ◌*ℤ◌, neg, ◌≤ℤ◌}
use edge_billing_service.Base.{
  negsuc, filter, delete, insert, ℕ, ℤ, pos, ◌==◌, ◌≡◌, List, [], ◌∷◌, int_laws, arith, Bool, ◌&&◌,
}

-- The sum of the line items of an invoice.
abbrev pub charged : ℕ → List LineItem → ℤ
charged id items = sum_items (line_items_of id items)

abbrev pub item_total : LineItem → ℤ
item_total li = li.amount_cents *ℤ pos li.quantity

pub charged-insert :
    (id : ℕ) (li : LineItem) (items : List LineItem)
    → li.invoice_id ≡ id
    → charged id (insert li items) ≡ charged id items +ℤ item_total li
charged-insert id li [] e = grind int_laws
charged-insert id li (x ∷ items) e = grind (int_laws, charged-insert id li items e)

-- Deleting a kind of line item takes its sum off the invoice's.
pub charged-delete :
    (id : ℕ) (p : LineItem → Bool) (items : List LineItem)
    → charged id (delete (λ li. (li.invoice_id == id) && p li) items)
        +ℤ sum_items (filter p (line_items_of id items))
      ≡ charged id items
charged-delete id p [] = omega int_laws
charged-delete id p (x ∷ items) = grind (int_laws, charged-delete id p items)

-- A hundred times `Math.round(n / 100)` is at most 50 above n and at most 49 below it.
pub round_hundredth-bounds :
    (n : ℤ)
    → (pos 100 *ℤ round_hundredth n ≤ℤ n +ℤ pos 50) × (n ≤ℤ pos 100 *ℤ round_hundredth n +ℤ pos 49)
unfolding round_hundredth ◌*ℤ◌ ◌+ℤ◌ neg
round_hundredth-bounds (pos n) = (ground arith, ground arith)
round_hundredth-bounds (negsuc n) = (ground arith, ground arith)
