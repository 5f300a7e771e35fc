-- ===== src/Charges/Onboarding.antt =====
-- The invoice of an onboarding charge is an open recurring draft of the customer.
use edge_billing_service.Base.{
  ◌+◌, leb, ◌==◌, ==_refl, Bool, true, some, List, [], ◌∷◌, find, filter, insert, update, length,
  length-filter-insert, ◌≡◌, refl, ap, inl, inr, arith, Bool-cases, Option-cases,
}
use edge_billing_service.Calendar.Date.{stamp}
use edge_billing_service.StateMachine.Status.{invoice_eq}
use edge_billing_service.Store.Rows.{Invoice, LineItemType}
use edge_billing_service.Store.Action.{
  Store, ok, err, customer_not_found, business_rule, row_expected,
}
use edge_billing_service.Store.Ensures.{Ensures}
use edge_billing_service.Invoices.Repository.{find_open_recurring_draft, is_open_recurring, last}
use edge_billing_service.Charges.OneTime.{
  OnboardingInput, untyped_draft, create_onboarding_charge, create_onboarding_invoice,
}

module _ {A : Type 0} where
  last-insert : (y : A) (ys : List A) → last (insert y ys) ≡ some y
  last-insert y [] = refl
  last-insert y (x ∷ xs) = rw (last-insert y xs) refl

  filter-insert :
      (p : A → Bool) (y : A) (ys : List A)
      → p y ≡ true
      → filter p (insert y ys) ≡ insert y (filter p ys)
  filter-insert p y [] h = rw h refl
  filter-insert p y (x ∷ xs) h = ground (arith, filter-insert p y xs h)

  update-last :
      (q : A → Bool) (f : A → A) (y : A) (ys : List A)
      → q y ≡ true
      → update q f (insert y ys) ≡ insert (f y) (update q f ys)
  update-last q f y [] h = rw h refl
  update-last q f y (x ∷ xs) h = ground (arith, update-last q f y xs h)

  length-filter-update :
      (p q : A → Bool) (f : A → A) (ys : List A)
      → ((x : A) → p (f x) ≡ p x)
      → length (filter p (update q f ys)) ≡ length (filter p ys)
  length-filter-update p q f [] keeps = refl
  length-filter-update p q f (y ∷ ys) keeps =
      ground (arith, keeps y, length-filter-update p q f ys keeps)

  one_more :
      (p q : A → Bool) (f : A → A) (y : A) (ys : List A)
      → ((x : A) → p (f x) ≡ p x)
      → p y ≡ true
      → length (filter p (update q f (insert y ys))) ≡ length (filter p ys) + 1
  one_more p q f y ys keeps h =
      ground (arith, length-filter-update p q f (insert y ys) keeps, length-filter-insert p y ys)

  newest :
      (p q : A → Bool) (f : A → A) (y : A) (ys : List A)
      → q y ≡ true
      → p (f y) ≡ true
      → last (filter p (update q f (insert y ys))) ≡ some (f y)
  newest p q f y ys h k =
      rw (update-last q f y ys h, filter-insert p (f y) (update q f ys) k)
        (last-insert (f y) (filter p (update q f ys)))

-- The customer's newest open recurring draft is the new invoice, of the amount of the charge, beside
-- those that the customer had.
abbrev pub IsNextPayroll : OnboardingInput → Store → Store → Type 0
IsNextPayroll input s t =
    (inv : Invoice) × (find_open_recurring_draft input.customer_id t ≡ (ok (some inv), t))
    × (inv.id ≡ s.next_id)
    × (inv.total_amount_cents ≡ input.amount_cents)
    × (length (filter (is_open_recurring input.customer_id) t.invoices)
        ≡ length (filter (is_open_recurring input.customer_id) s.invoices) + 1)

-- When `createOnboardingCharge` returns, its invoice, of the amount of the charge, is the one that
-- `findOpenRecurringDraft` returns for the customer, and the customer has one open recurring draft more
-- than before.
pub create_onboarding-IsNextPayroll :
    (input : OnboardingInput) (s : Store)
    → Ensures (λ _ t. IsNextPayroll input s t) (create_onboarding_charge input s)
unfolding create_onboarding_charge create_onboarding_invoice
create_onboarding-IsNextPayroll input s =
    let id = s.next_id in
    let row = untyped_draft id input.customer_id input.scheduled_date in
    let f : Invoice → Invoice = λ i. record i { total_amount_cents = input.amount_cents } in
    let t : Store = record s {
      next_id = id + 1 + 1;
      invoices = update (λ i. i.id == id) f (insert row s.invoices);
      line_items =
          insert
            (record {
              id = id + 1;
              invoice_id = id;
              type = LineItemType.onboarding_fee;
              amount_cents = input.amount_cents;
              quantity = 1;
            })
            s.line_items;
    } in
    let past = leb (stamp input.scheduled_date) (stamp (record s.clock { millis = 0 })) in
    elim (Option-cases (find (λ c. c.id == input.customer_id) s.customers)) [
      | inl missing ↦
          let whole : create_onboarding_charge input s
              ≡ (err (customer_not_found input.customer_id), s) =
            ground (arith, missing) in
          rw whole tt
      | inr (c, known) ↦ elim (Bool-cases past) [
        | inl early ↦
            let whole : create_onboarding_charge input s ≡ (err business_rule, s) =
              ground (arith, known, early) in
            rw whole tt
        | inr later ↦ elim (Option-cases (find (λ i. i.id == id) (insert row s.invoices))) [
          | inl gone ↦
              let whole : create_onboarding_charge input s
                  ≡ (err row_expected, record s { next_id = id + 1 }) =
                ground (arith, known, later, gone) in
              rw whole tt
          | inr (i, there) ↦ elim (Option-cases (find (λ i. i.id == id) t.invoices)) [
            | inl lost ↦
                let whole : create_onboarding_charge input s ≡ (err business_rule, t) =
                  ground (arith, known, later, there, lost) in
                rw whole tt
            | inr (inv, got) ↦
                let whole : create_onboarding_charge input s ≡ (ok inv, t) =
                  ground (arith, known, later, there, got) in
                rw whole (
                  f row,
                  ap (λ o. (ok o, t))
                      (newest (is_open_recurring input.customer_id) (λ i. i.id == id) f row
                        s.invoices (==_refl id) (rw (==_refl input.customer_id) refl)),
                  refl,
                  refl,
                  one_more (is_open_recurring input.customer_id) (λ i. i.id == id) f row s.invoices
                      (λ i. refl) (rw (==_refl input.customer_id) refl),
                )
          ]
        ]
      ]
    ]
