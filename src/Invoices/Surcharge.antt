-- ===== src/Invoices/Surcharge.antt =====
-- The credit card surcharge: `calculateSurcharge`, `stripExistingSurchargeLineItems` and
-- `applyCreditsAndSurcharge` of src/invoices/invoices.service.ts. The optional collaborators of the
-- service are taken to be present.
use Prim.Native.String.{String}
use edge_billing_service.Base.{
  ℕ, suc, ℤ, pos, negsuc, ◌+◌, ◌/◌, ◌+ℤ◌, ◌*ℤ◌, neg, leb_ℤ, ltb_ℤ, eqb_ℤ, Bool, false, ◌&&◌, Option,
  none, some, List, [], ◌∷◌, ◌==◌, ◌===◌, find, filter, if◌then◌else◌,
}
use edge_billing_service.Store.Rows.{
  LineItem, LineItemType, PaymentMethod, card, SurchargeConfig, SurchargeType, percentage, flat_fee,
  item_type_eq, method_type_eq,
}
use edge_billing_service.Store.Action.{Action, pure, gets, when, generate_id, ◌>>=◌, ◌>>◌}
use edge_billing_service.Invoices.Repository.{
  get_line_items, create_line_item, delete_line_items_of_type,
}
use edge_billing_service.Credits.Service.{CreditApplication, apply_credits_to_invoice}

-- `items.reduce((sum, li) => sum + li.amountCents * li.quantity, 0)`
abbrev pub sum_items : List LineItem → ℤ
sum_items [] = pos 0
sum_items (li ∷ rest) = li.amount_cents *ℤ pos li.quantity +ℤ sum_items rest

-- `Math.round(n / 100)`: to the nearest integer, halves upwards.
unfoldable pub round_hundredth : ℤ → ℤ
round_hundredth (pos n) = pos ((n + 50) / 100)
round_hundredth (negsuc n) = neg (pos ((suc n + 49) / 100))

-- The surcharge of a configured type and value.
unfoldable pub surcharge_amount : SurchargeType → ℤ → ℤ → ℤ
unfolding round_hundredth
surcharge_amount percentage value subtotal = round_hundredth (subtotal *ℤ value)
surcharge_amount flat_fee value subtotal = value *ℤ pos 100

-- The default payment method is a card.
abbrev pub pays_by_card : Option PaymentMethod → Bool
pays_by_card none = false
pays_by_card (some pm) = pm.type === card

-- The surcharge by a configuration; none where it is not set, 0, or does not come to a cent.
unfoldable pub surcharge_by : Option SurchargeConfig → ℤ → Option ℤ
unfolding surcharge_amount
surcharge_by none subtotal = none
surcharge_by (some c) subtotal = elim c.surcharge_type [
  | none ↦ none
  | some type ↦ elim c.surcharge_value [
    | none ↦ none
    | some value ↦
        if eqb_ℤ value (pos 0)
        then none
        else let amount = surcharge_amount type value subtotal in
          if leb_ℤ amount (pos 0) then none else some amount
  ]
]

abbrev pub default_method : ℕ → List PaymentMethod → Option PaymentMethod
default_method customer_id =
    find (λ pm. (pm.customer_id == customer_id) && pm.is_default && pm.is_active)

unfoldable pub calculate_surcharge : ℕ → ℤ → Action (Option ℤ)
unfolding surcharge_by
calculate_surcharge customer_id subtotal = do
  pm ← gets (λ s. default_method customer_id s.payment_methods)
  config ← gets (λ s. find (λ c. c.customer_id == customer_id) s.surcharge_configs)
  pure (if pays_by_card pm then surcharge_by config subtotal else none)

abbrev pub is_surcharge : LineItem → Bool
is_surcharge li = li.type === LineItemType.surcharge

-- Remove the surcharge items of an invoice; the sum of what was removed.
unfoldable pub strip_existing_surcharge_line_items : ℕ → Action ℤ
strip_existing_surcharge_line_items invoice_id = do
  items ← get_line_items invoice_id
  let removed = sum_items (filter is_surcharge items)
  when (ltb_ℤ (pos 0) removed) (delete_line_items_of_type invoice_id LineItemType.surcharge)
  pure removed

pub record Settled : Type 0 where
  pub credit_applied : ℤ
  pub surcharge_cents : ℤ
  pub final_total_cents : ℤ

-- Insert the surcharge, if there is one, and add it to the total.
unfoldable pub add_surcharge : ℕ → CreditApplication → Option ℤ → Action Settled
add_surcharge invoice_id applied none = pure (record {
  credit_applied = applied.credit_applied;
  surcharge_cents = pos 0;
  final_total_cents = applied.new_total;
})
add_surcharge invoice_id applied (some amount) = do
  id ← generate_id
  create_line_item (record {
    id = id;
    invoice_id = invoice_id;
    type = LineItemType.surcharge;
    amount_cents = amount;
    quantity = 1;
  })
  pure (record {
    credit_applied = applied.credit_applied;
    surcharge_cents = amount;
    final_total_cents = applied.new_total +ℤ amount;
  })

-- The surcharge on what is left after the credits; none where nothing is left to pay.
unfoldable pub surcharge_rest : ℕ → ℕ → CreditApplication → Action Settled
unfolding add_surcharge
surcharge_rest invoice_id customer_id applied =
    if leb_ℤ applied.new_total (pos 0)
    then add_surcharge invoice_id applied none
    else calculate_surcharge customer_id applied.new_total >>= add_surcharge invoice_id applied

unfoldable pub apply_credits_and_surcharge : ℕ → ℕ → ℤ → String → ℕ → Action Settled
unfolding surcharge_rest
apply_credits_and_surcharge invoice_id customer_id subtotal currency correlation = do
  applied ← apply_credits_to_invoice invoice_id customer_id subtotal currency correlation
  surcharge_rest invoice_id customer_id applied
