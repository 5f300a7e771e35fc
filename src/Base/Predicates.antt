-- ===== src/Base/Predicates.antt =====
-- Predicates on the items of a list.
use mathlib.Core.Logic.{◌⊎◌, inl, inr}
use mathlib.Core.List.{List, [], ◌∷◌, ◌++◌}
use edge_billing_service.Base.Table.{All}

-- One of the items has the property.
abbrev pub Has : {A : Type 0} → (A → Type 0) → List A → Type 0
Has P [] = ⊥
Has P (x ∷ xs) = P x ⊎ Has P xs

module _ {A : Type 0} (P : A → Type 0) where
  pub Has-append_left : (xs ys : List A) → Has P xs → Has P (xs ++ ys)
  Has-append_left [] ys h = absurd h
  Has-append_left (x ∷ xs) ys (inl p) = inl p
  Has-append_left (x ∷ xs) ys (inr h) = inr (Has-append_left xs ys h)

  pub Has-append_right : (xs ys : List A) → Has P ys → Has P (xs ++ ys)
  Has-append_right [] ys h = h
  Has-append_right (x ∷ xs) ys h = inr (Has-append_right xs ys h)

  pub All-append : (xs ys : List A) → All P xs → All P ys → All P (xs ++ ys)
  All-append [] ys h k = k
  All-append (x ∷ xs) ys h k = (h.0, All-append xs ys h.1 k)

  pub All-map : (Q : A → Type 0) (xs : List A) → ((x : A) → P x → Q x) → All P xs → All Q xs
  All-map Q [] f h = tt
  All-map Q (x ∷ xs) f h = (f x h.0, All-map Q xs f h.1)
