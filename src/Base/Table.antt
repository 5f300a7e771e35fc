-- ===== src/Base/Table.antt =====
-- Database tables as lists of rows in the order of insertion, and the queries the repositories
-- build on them: select, update and delete by a condition.
use mathlib.Core.Path.{◌≡◌, refl}
use native.Mathlib.Omega.{arith}
use mathlib.Core.Bool.{Bool, true, false, not}
use mathlib.Core.Option.{Option, none, some}
use mathlib.Core.List.{List, [], ◌∷◌, ◌++◌}
use Prim.Native.Nat.{ℕ, suc, ◌+◌}
use edge_billing_service.Base.Tests.{if◌then◌else◌}

module _ {ℓ} {A : Type ℓ} where
  abbrev pub length : List A → ℕ
  length [] = 0
  length (x ∷ xs) = suc (length xs)

  -- `SELECT … WHERE p`
  abbrev pub filter : (A → Bool) → List A → List A
  filter p [] = []
  filter p (x ∷ xs) = let rest = filter p xs in if p x then x ∷ rest else rest

  -- `SELECT … WHERE p LIMIT 1`
  abbrev pub find : (A → Bool) → List A → Option A
  find p [] = none
  find p (x ∷ xs) = let rest = find p xs in if p x then some x else rest

  -- `UPDATE … SET … WHERE p`
  abbrev pub update : (A → Bool) → (A → A) → List A → List A
  update p f [] = []
  update p f (x ∷ xs) = (if p x then f x else x) ∷ update p f xs

  -- `DELETE … WHERE p`
  abbrev pub delete : (A → Bool) → List A → List A
  delete p xs = filter (λ x. not (p x)) xs

  -- `INSERT`
  abbrev pub insert : A → List A → List A
  insert x xs = xs ++ x ∷ []

  abbrev pub any : (A → Bool) → List A → Bool
  any p [] = false
  any p (x ∷ xs) = if p x then true else any p xs

  abbrev pub All {κ} : (A → Type κ) → List A → Type κ
  All P [] = Unit
  All P (x ∷ xs) = P x × All P xs

-- An optional row with a change to it.
abbrev pub map_row {ℓ κ} : {A : Type ℓ} {B : Type κ} → (A → B) → Option A → Option B
map_row f none = none
map_row f (some x) = some (f x)

module _ {ℓ} {A : Type ℓ} where
  -- A search after an update that leaves the searched column alone.
  pub find-update :
      (p q : A → Bool) (f : A → A)
      → ((x : A) → p (f x) ≡ p x)
      → (xs : List A) → find p (update q f xs) ≡ map_row (λ x. if q x then f x else x) (find p xs)
  find-update p q f keep [] = refl
  find-update p q f keep (x ∷ xs) = ground (arith, keep x, find-update p q f keep xs)

  pub find-insert :
      (p : A → Bool) (x : A) (xs : List A)
      → find p (insert x xs)
        ≡ elim (find p xs) [ none ↦ if p x then some x else none | some y ↦ some y ]
  find-insert p x [] = refl
  find-insert p x (y ∷ xs) = ground (arith, find-insert p x xs)

  pub find-holds : (p : A → Bool) (xs : List A) {x : A} → find p xs ≡ some x → p x ≡ true
  find-holds p [] e = cc
  find-holds p (y ∷ xs) {x} e = ground (arith, find-holds p xs {x = x})

  -- A search by the condition of the update itself.
  pub find-update_self :
      (p : A → Bool) (f : A → A)
      → ((x : A) → p (f x) ≡ p x)
      → (xs : List A) → find p (update p f xs) ≡ map_row f (find p xs)
  find-update_self p f keep [] = refl
  find-update_self p f keep (x ∷ xs) = ground (arith, keep x, find-update_self p f keep xs)

-- 1 for true.
abbrev pub bit : Bool → ℕ
bit c = if c then 1 else 0

pub length-filter-insert {ℓ} :
    {A : Type ℓ} (p : A → Bool) (x : A) (xs : List A)
    → length (filter p (insert x xs)) ≡ length (filter p xs) + bit (p x)
length-filter-insert p x [] = ground arith
length-filter-insert p x (y ∷ ys) = ground (arith, length-filter-insert p x ys)

pub length-filter-cons {ℓ} :
    {A : Type ℓ} (p : A → Bool) (x : A) (xs : List A)
    → length (filter p (x ∷ xs)) ≡ bit (p x) + length (filter p xs)
length-filter-cons p x xs = ground arith
