-- ===== src/Invoices/Settlement.antt =====
-- What the steps of a settlement do to the line items and to the total.
use Prim.Native.String.{String}
use edge_billing_service.Base.Int.{◌≤ℤ◌}
use edge_billing_service.Base.{
  find, sym, subst, ℕ, ℤ, pos, neg, ◌+ℤ◌, ltb_ℤ, leb_ℤ, eqb_ℤ, ◌==◌, ◌≡◌, refl, ap, ◌∙◌, int_laws,
  arith, Bool, true, false, Option, none, some, filter, inl, inr, if◌then◌else◌, Bool-cases,
  Option-cases, mul_one, min_ℤ,
}
use edge_billing_service.Store.Rows.{LineItem, LineItemType, item_type_eq, SurchargeConfig}
use edge_billing_service.Store.Action.{Result, Store, ok, err}
use edge_billing_service.Store.Ensures.{Ensures, bind-Ensures, weaken-Ensures}
use edge_billing_service.Invoices.Repository.{line_items_of}
use edge_billing_service.Invoices.Items.{charged, charged-insert, charged-delete}
use edge_billing_service.Invoices.Surcharge.{
  sum_items, is_surcharge, surcharge_by, default_method, pays_by_card, calculate_surcharge,
  strip_existing_surcharge_line_items, Settled, add_surcharge, surcharge_rest,
  apply_credits_and_surcharge,
}
use edge_billing_service.Credits.Service.{
  write_credit_application, CreditApplication, apply_credits_to_invoice,
}
use edge_billing_service.Credits.Application.{
  write_credit_application-cases, apply_credits-unchanged, apply_credits-write,
}

-- What `stripExistingSurchargeLineItems` has done.
abbrev pub Strips : ℕ → Store → ℤ → Store → Type 0
Strips id s removed t =
    (charged id t.line_items +ℤ removed ≡ charged id s.line_items)
    × (removed ≡ sum_items (filter is_surcharge (line_items_of id s.line_items)))

pub strip-Strips :
    (id : ℕ) (s : Store)
    → pos 0 ≤ℤ sum_items (filter is_surcharge (line_items_of id s.line_items))
    → Ensures (Strips id s) (strip_existing_surcharge_line_items id s)
unfolding strip_existing_surcharge_line_items
strip-Strips id s h =
    let removed = sum_items (filter is_surcharge (line_items_of id s.line_items)) in
    elim (Bool-cases (ltb_ℤ (pos 0) removed)) [
      | inl some_left ↦ rw some_left (charged-delete id is_surcharge s.line_items, refl)
      | inr nothing ↦ rw nothing (grind (int_laws, h, nothing), refl)
    ]

-- A surcharge, if there is one, is at least a cent.
abbrev pub AtLeastCent : Option ℤ → Type 0
AtLeastCent none = Unit {0}
AtLeastCent (some a) = pos 1 ≤ℤ a

surcharge_by-AtLeastCent :
    (config : Option SurchargeConfig) (subtotal : ℤ) → AtLeastCent (surcharge_by config subtotal)
unfolding surcharge_by
surcharge_by-AtLeastCent config subtotal = ground arith

-- What a call of `calculateSurcharge` has found in the state `s`: it reads only, and a surcharge
-- is at least a cent and falls on a customer whose default payment method is a card.
abbrev pub Levies : ℕ → Store → Result (Option ℤ) × Store → Type 0
Levies customer_id s (ok none, t) = t ≡ s
Levies customer_id s (ok (some a), t) =
    (t ≡ s) × (pays_by_card (default_method customer_id s.payment_methods) ≡ true) × (pos 1 ≤ℤ a)
Levies customer_id s (err e, t) = ⊥

levied :
    (customer_id : ℕ) (s : Store) (by_card : Bool) (o : Option ℤ)
    → pays_by_card (default_method customer_id s.payment_methods) ≡ by_card
    → AtLeastCent o
    → Levies customer_id s (ok (if by_card then o else none), s)
levied customer_id s true none e h = refl
levied customer_id s true (some a) e h = (refl, e, h)
levied customer_id s false o e h = refl

-- In every state `calculateSurcharge` returns and changes nothing, and a surcharge is levied only on
-- customers whose default payment method is a card, of at least a cent.
pub calculate_surcharge-Levies :
    (customer_id : ℕ) (subtotal : ℤ) (s : Store)
    → Levies customer_id s (calculate_surcharge customer_id subtotal s)
unfolding calculate_surcharge
calculate_surcharge-Levies customer_id subtotal s =
    levied customer_id s (pays_by_card (default_method customer_id s.payment_methods))
      (surcharge_by (find (λ c. c.customer_id == customer_id) s.surcharge_configs) subtotal) refl
      (surcharge_by-AtLeastCent (find (λ c. c.customer_id == customer_id) s.surcharge_configs)
        subtotal)

pub Levies-Ensures :
    (customer_id : ℕ) (s : Store) (r : Result (Option ℤ) × Store)
    → Levies customer_id s r
    → Ensures (λ o t. (t ≡ s) × AtLeastCent o) r
Levies-Ensures customer_id s (ok none, t) h = (h, tt)
Levies-Ensures customer_id s (ok (some a), t) (e, c, h) = (e, h)
Levies-Ensures customer_id s (err e, t) h = tt

-- What the insertion of a surcharge has done.
abbrev pub Surcharges : ℕ → Store → CreditApplication → Settled → Store → Type 0
Surcharges id s applied r t =
    (charged id t.line_items ≡ charged id s.line_items +ℤ r.surcharge_cents)
    × (r.final_total_cents ≡ applied.new_total +ℤ r.surcharge_cents)
    × (r.credit_applied ≡ applied.credit_applied)
    × (pos 0 ≤ℤ r.surcharge_cents)

add_surcharge-Surcharges :
    (id : ℕ) (applied : CreditApplication) (o : Option ℤ) (s : Store)
    → AtLeastCent o
    → Ensures (Surcharges id s applied) (add_surcharge id applied o s)
unfolding add_surcharge
add_surcharge-Surcharges id applied none s h = (omega int_laws, omega int_laws, refl, omega arith)
add_surcharge-Surcharges id applied (some a) s h = (
  charged-insert id
        (record {
          id = s.next_id;
          invoice_id = id;
          type = LineItemType.surcharge;
          amount_cents = a;
          quantity = 1;
        })
        s.line_items refl
      ∙ ap (λ x. charged id s.line_items +ℤ x) (mul_one a),
  refl,
  refl,
  omega arith,
)

pub surcharge_rest-Surcharges :
    (id customer_id : ℕ) (applied : CreditApplication) (s : Store)
    → Ensures (Surcharges id s applied) (surcharge_rest id customer_id applied s)
unfolding surcharge_rest
surcharge_rest-Surcharges id customer_id applied s =
    elim (Bool-cases (leb_ℤ applied.new_total (pos 0))) [
      | inl nothing ↦ rw nothing (add_surcharge-Surcharges id applied none s tt)
      | inr rest ↦ rw rest (
          bind-Ensures (λ o t. (t ≡ s) × AtLeastCent o) (Surcharges id s applied)
            (calculate_surcharge customer_id applied.new_total) (add_surcharge id applied) s
            (Levies-Ensures customer_id s (calculate_surcharge customer_id applied.new_total s)
              (calculate_surcharge-Levies customer_id applied.new_total s))
            (λ o t h.
              subst (λ u. Ensures (Surcharges id s applied) (add_surcharge id applied o u))
                (sym h.0) (add_surcharge-Surcharges id applied o s h.1)))
    ]

-- What `applyCreditsToInvoice` has done to the line items.
abbrev pub TakesCredit : ℕ → ℤ → Store → CreditApplication → Store → Type 0
TakesCredit id total s a t =
    (charged id t.line_items +ℤ a.credit_applied ≡ charged id s.line_items)
    × (a.credit_applied +ℤ a.new_total ≡ total)
    × (pos 0 ≤ℤ a.credit_applied)

write-TakesCredit :
    (id customer_id : ℕ) (total balance : ℤ) (currency : String) (correlation : ℕ) (s : Store)
    → Ensures
        (TakesCredit id total s)
        (write_credit_application id customer_id total balance currency correlation s)
write-TakesCredit id customer_id total balance currency correlation s =
    elim (write_credit_application-cases id customer_id total balance currency correlation s) [
      | inr (x, t, e) ↦ rw e tt
      | inl (h, (receivable, credit, e)) ↦
          let c = min_ℤ balance total in
          let item : LineItem = record {
            id = s.next_id;
            invoice_id = id;
            type = LineItemType.credit_applied;
            amount_cents = neg c;
            quantity = 1;
          } in
          rw e (
            grind (int_laws, charged-insert id item s.line_items refl, mul_one (neg c)),
            omega int_laws,
            omega arith,
          )
    ]

apply_credits-TakesCredit :
    (id customer_id : ℕ) (total : ℤ) (currency : String) (correlation : ℕ) (s : Store)
    → Ensures
        (TakesCredit id total s)
        (apply_credits_to_invoice id customer_id total currency correlation s)
apply_credits-TakesCredit id customer_id total currency correlation s =
    let unchanged : TakesCredit id total s (record { credit_applied = pos 0; new_total = total })
        s =
      (omega int_laws, omega int_laws, omega arith) in
    elim (Option-cases (find (λ b. b.customer_id == customer_id) s.credit_balances)) [
      | inl missing ↦
          rw (apply_credits-unchanged id customer_id total currency correlation s (ground arith))
            unchanged
      | inr (b, eb) ↦ elim (Bool-cases (eqb_ℤ b.balance_cents (pos 0))) [
        | inl empty ↦
            rw (apply_credits-unchanged id customer_id total currency correlation s (ground arith))
              unchanged
        | inr funded ↦
            rw (apply_credits-write id customer_id total currency correlation s b eb funded)
              (write-TakesCredit id customer_id total b.balance_cents currency correlation s)
      ]
    ]

-- What `applyCreditsAndSurcharge` has done: the line items move with the total.
abbrev pub Settles : ℕ → ℤ → Store → Settled → Store → Type 0
Settles id subtotal s r t =
    (charged id t.line_items +ℤ r.credit_applied ≡ charged id s.line_items +ℤ r.surcharge_cents)
    × (r.final_total_cents +ℤ r.credit_applied ≡ subtotal +ℤ r.surcharge_cents)
    × (pos 0 ≤ℤ r.credit_applied)
    × (pos 0 ≤ℤ r.surcharge_cents)

pub settle-Settles :
    (id customer_id : ℕ) (subtotal : ℤ) (currency : String) (correlation : ℕ) (s : Store)
    → Ensures
        (Settles id subtotal s)
        (apply_credits_and_surcharge id customer_id subtotal currency correlation s)
unfolding apply_credits_and_surcharge
settle-Settles id customer_id subtotal currency correlation s =
    bind-Ensures (TakesCredit id subtotal s) (Settles id subtotal s)
      (apply_credits_to_invoice id customer_id subtotal currency correlation)
      (surcharge_rest id customer_id) s
      (apply_credits-TakesCredit id customer_id subtotal currency correlation s)
      (λ a u h.
        weaken-Ensures (Surcharges id u a) (Settles id subtotal s)
          (surcharge_rest id customer_id a u) (surcharge_rest-Surcharges id customer_id a u)
          (λ r t k. (grind (int_laws, h, k), grind (int_laws, h, k), grind (int_laws, h, k), k.3)))
