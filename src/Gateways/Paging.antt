-- ===== src/Gateways/Paging.antt =====
-- The loops over the pages of a list in `getBalanceTransactions` and `listPaymentMethods` of
-- src/gateway/stripe/stripe.adapter.ts. Stripe's list call is an argument: the page after a cursor.
-- The loops run on fuel, of which there is enough for one page for each item and one more.
use edge_billing_service.Base.{
  ℕ, suc, zero, Bool, true, false, not, ◌||◌, Option, none, some, List, [], ◌∷◌, ◌++◌, ◌==◌, any,
  if◌then◌else◌,
}
use edge_billing_service.Invoices.Repository.{last}

-- A page of Stripe's list: its items and whether there are more after them.
pub record Page (A : Type 0) : Type 0 where
  pub items : List A
  pub has_more : Bool

abbrev pub is_empty : {A : Type 0} → List A → Bool
is_empty [] = true
is_empty (x ∷ xs) = false

module _ {A : Type 0} (id : A → ℕ) where
  -- The identifier of the last item of a page.
  abbrev pub cursor : List A → Option ℕ
  cursor xs = elim (last xs) [ none ↦ none | some x ↦ some (id x) ]

  -- `while (true) { … }`: the items of the pages from a cursor on, after those so far; `none` when the
  -- fuel runs out.
  unfoldable pub fetch_from : (Option ℕ → Page A) → ℕ → Option ℕ → List A → Option (List A)
  fetch_from fetch zero after so_far = none
  fetch_from fetch (suc fuel) after so_far =
      let page = fetch after in
      let all = so_far ++ page.items in
      let rest = fetch_from fetch fuel (cursor page.items) all in
      if not page.has_more || is_empty page.items then some all else rest

  unfoldable pub fetch_all : (Option ℕ → Page A) → ℕ → Option (List A)
  unfolding fetch_from
  fetch_all fetch fuel = fetch_from fetch fuel none []

  -- The items whose identifier has not been seen before.
  unfoldable pub dedupe : List ℕ → List A → List A
  dedupe seen [] = []
  dedupe seen (x ∷ xs) =
      let rest = dedupe seen xs in
      let added = dedupe (id x ∷ seen) xs in if any (λ j. j == id x) seen then rest else x ∷ added

abbrev both : {A : Type 0} → Option (List A) → Option (List A) → Option (List A)
both none o = none
both (some xs) none = none
both (some xs) (some ys) = some (xs ++ ys)

abbrev deduped : {A : Type 0} → (A → ℕ) → Option (List A) → Option (List A)
deduped id none = none
deduped id (some xs) = some (dedupe id [] xs)

-- `listPaymentMethods`: the methods, then the legacy sources, once for each identifier.
unfoldable pub list_payment_methods :
    {A : Type 0} → (A → ℕ) → (Option ℕ → Page A) → (Option ℕ → Page A) → ℕ → Option (List A)
unfolding fetch_all dedupe
list_payment_methods id fetch_methods fetch_sources fuel =
    deduped id (both (fetch_all id fetch_methods fuel) (fetch_all id fetch_sources fuel))
