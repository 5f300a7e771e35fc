-- ===== src/Gateways/Listing.antt =====
-- `listPaymentMethods` lists every method and source once.
use edge_billing_service.Base.{
  ℕ, ◌<◌, Bool, false, not, ◌&&◌, ◌||◌, Option, some, List, [], ◌∷◌, ◌++◌, ◌==◌, ◌≡◌, refl, ◌∙◌,
  length, inl, inr, arith, any, Bool-cases, ==_refl,
}
use edge_billing_service.Gateways.Paging.{Page, dedupe, list_payment_methods}
use edge_billing_service.Gateways.Pages.{Serves, fetch_all-Serves}

module _ {A : Type 0} (id : A → ℕ) where
  abbrev pub has_item : ℕ → List A → Bool
  has_item k xs = any (λ x. id x == k) xs

  -- No identifier stands twice.
  abbrev pub AreSingle : List A → Type 0
  AreSingle [] = Unit
  AreSingle (x ∷ xs) = (has_item (id x) xs ≡ false) × AreSingle xs

  abbrev seen_before : ℕ → List ℕ → Bool
  seen_before k seen = any (λ j. j == k) seen

  has-dedupe :
      (k : ℕ) (seen : List ℕ) (xs : List A)
      → has_item k (dedupe id seen xs) ≡ (not (seen_before k seen) && has_item k xs)
  unfolding dedupe
  has-dedupe k seen [] = elim (Bool-cases (seen_before k seen)) [
    | inl h ↦ rw h refl
    | inr h ↦ rw h refl
  ]
  has-dedupe k seen (x ∷ xs) = ground (arith, has-dedupe k seen xs, has-dedupe k (id x ∷ seen) xs)

  has-append : (k : ℕ) (xs ys : List A) → has_item k (xs ++ ys) ≡ (has_item k xs || has_item k ys)
  has-append k [] ys = refl
  has-append k (x ∷ xs) ys = ground (arith, has-append k xs ys)

  dedupe-AreSingle : (seen : List ℕ) (xs : List A) → AreSingle (dedupe id seen xs)
  unfolding dedupe
  dedupe-AreSingle seen [] = tt
  dedupe-AreSingle seen (x ∷ xs) = elim (Bool-cases (seen_before (id x) seen)) [
    | inl old ↦ rw old (dedupe-AreSingle seen xs)
    | inr new ↦ rw new (
      has-dedupe (id x) (id x ∷ seen) xs ∙ rw (==_refl (id x)) refl,
      dedupe-AreSingle (id x ∷ seen) xs,
    )
  ]

-- When Stripe serves a list of methods and a list of sources, and both loops have more fuel than items,
-- the listing returns; what it returns holds an identifier exactly when one of the two lists does, and
-- holds none twice.
pub list_payment_methods-Lists :
    {A : Type 0} (id : A → ℕ) (n m : ℕ) (methods sources : Option ℕ → Page A) (xs ys : List A)
    (fuel : ℕ)
    → Serves id n methods xs
    → Serves id m sources ys
    → length xs < fuel
    → length ys < fuel
    → (r : List A) × (list_payment_methods id methods sources fuel ≡ some r)
      × AreSingle id r
      × ((k : ℕ) → has_item id k r ≡ (has_item id k xs || has_item id k ys))
unfolding list_payment_methods
list_payment_methods-Lists id n m methods sources xs ys fuel first second enough also = (
  dedupe id [] (xs ++ ys),
  rw
      (
        fetch_all-Serves id n methods xs fuel first enough,
        fetch_all-Serves id m sources ys fuel second also,
      )
      refl,
  dedupe-AreSingle id [] (xs ++ ys),
  λ k. has-dedupe id k [] (xs ++ ys) ∙ has-append id k xs ys,
)
