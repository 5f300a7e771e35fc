-- ===== src/Gateways/Pages.antt =====
-- The loop over the pages finds the whole list.
use edge_billing_service.Base.{
  ℕ, suc, zero, ◌≤◌, ◌<◌, true, not, Option, none, some, List, [], ◌∷◌, ◌++◌, ◌≡◌, refl, sym, ap,
  ◌∙◌, length, inl, inr, arith, Bool-cases,
}
use edge_billing_service.Invoices.Repository.{last}
use edge_billing_service.Gateways.Paging.{Page, is_empty, fetch_from, fetch_all}

module _ {A : Type 0} where
  abbrev pub take : ℕ → List A → List A
  take zero xs = []
  take (suc n) [] = []
  take (suc n) (x ∷ xs) = x ∷ take n xs

  abbrev pub drop : ℕ → List A → List A
  drop zero xs = xs
  drop (suc n) [] = []
  drop (suc n) (x ∷ xs) = drop n xs

  -- The first page of what is left of a list.
  abbrev pub page_of : ℕ → List A → Page A
  page_of n xs = record { items = take n xs; has_more = not (is_empty (drop n xs)) }

  take-drop : (n : ℕ) (xs : List A) → take n xs ++ drop n xs ≡ xs
  take-drop zero xs = refl
  take-drop (suc n) [] = refl
  take-drop (suc n) (x ∷ xs) = ap (λ l. x ∷ l) (take-drop n xs)

  append_assoc : (xs ys zs : List A) → (xs ++ ys) ++ zs ≡ xs ++ (ys ++ zs)
  append_assoc [] ys zs = refl
  append_assoc (x ∷ xs) ys zs = ap (λ l. x ∷ l) (append_assoc xs ys zs)

  append-nil : (xs : List A) → xs ++ [] ≡ xs
  append-nil [] = refl
  append-nil (x ∷ xs) = ap (λ l. x ∷ l) (append-nil xs)

  length-drop : (n : ℕ) (xs : List A) → length (drop n xs) ≤ length xs
  length-drop zero xs = omega arith
  length-drop (suc n) [] = omega arith
  length-drop (suc n) (x ∷ xs) = omega (arith, length-drop n xs)

  regroup : (xs ys zs : List A) (y : A) → (xs ++ (ys ++ y ∷ [])) ++ zs ≡ (xs ++ ys) ++ y ∷ zs
  regroup xs ys zs y = simp append_assoc

  empty_of : (xs : List A) → is_empty xs ≡ true → xs ≡ []
  empty_of [] h = refl
  empty_of (x ∷ xs) h = cc

  -- A list that is not empty ends in its last item.
  split_last :
      (x : A) (xs : List A)
      → (init : List A) × (y : A) × (last (x ∷ xs) ≡ some y) × (x ∷ xs ≡ init ++ y ∷ [])
  split_last x [] = ([], x, refl, refl)
  split_last x (z ∷ xs) =
      let (init, y, e, whole) = split_last z xs in (x ∷ init, y, rw e refl, ap (λ l. x ∷ l) whole)

  module _ (id : A → ℕ) (size : ℕ) (fetch : Option ℕ → Page A) (xs : List A) where
    -- What Stripe documents of a list call with a page size: without a cursor it answers the first
    -- page, and after an item of the list the page of what follows it.
    pub record Serves : Type 0 where
      pub first : fetch none ≡ page_of (suc size) xs
      pub next :
          (before : List A) (y : A) (later : List A)
          → xs ≡ before ++ y ∷ later
          → fetch (some (id y)) ≡ page_of (suc size) later

    fetch_from-rest :
        (fuel : ℕ) (after : Option ℕ) (so_far later : List A)
        → Serves
        → xs ≡ so_far ++ later
        → fetch after ≡ page_of (suc size) later
        → length later < fuel
        → fetch_from id fetch fuel after so_far ≡ some xs
    unfolding fetch_from
    fetch_from-rest zero after so_far later h split page enough = absurd (omega arith)
    fetch_from-rest (suc fuel) after so_far [] h split page enough = rw page (ap some (sym split))
    fetch_from-rest (suc fuel) after so_far (x ∷ later) h split page enough =
        let items = x ∷ take size later in
        let rest = drop size later in
        let whole : xs ≡ (so_far ++ items) ++ rest =
          split
          ∙ ap (λ l. so_far ++ x ∷ l) (sym (take-drop size later))
          ∙ sym (append_assoc so_far items rest) in
        elim (Bool-cases (is_empty rest)) [
          | inl ended ↦
              rw (page, ended)
                (ap some (
                  sym (append-nil (so_far ++ items))
                  ∙ ap (λ l. (so_far ++ items) ++ l) (sym (empty_of rest ended))
                  ∙ sym whole))
          | inr more ↦
              let (init, y, at_end, parts) = split_last x (take size later) in
              let after_y : xs ≡ (so_far ++ init) ++ y ∷ rest =
                whole ∙ ap (λ l. (so_far ++ l) ++ rest) parts ∙ regroup so_far init rest y in
              rw (page, more)
                (rw at_end (
                  fetch_from-rest fuel (some (id y)) (so_far ++ items) rest h whole
                    (h.next (so_far ++ init) y rest after_y)
                    (omega (arith, length-drop size later, enough))))
        ]

    -- When Stripe serves a list in pages and there is more fuel than items, the loop over the pages
    -- ends, and finds the whole list in its order.
    pub fetch_all-Serves :
        (fuel : ℕ) → Serves → length xs < fuel → fetch_all id fetch fuel ≡ some xs
    unfolding fetch_all
    fetch_all-Serves fuel h enough = fetch_from-rest fuel none [] xs h refl h.first enough
