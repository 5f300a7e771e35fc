-- ===== src/Base/Upsert.antt =====
-- `INSERT … ON CONFLICT DO UPDATE` on a table, by a condition that says which rows conflict.
use mathlib.Core.Path.{◌≡◌, refl, ◌∙◌}
use native.Mathlib.Omega.{arith}
use mathlib.Core.Bool.{Bool, true, false}
use mathlib.Core.Option.{Option, none, some}
use mathlib.Core.List.{List, [], ◌∷◌}
use edge_billing_service.Base.Tests.{if◌then◌else◌}
use edge_billing_service.Base.Table.{
  find, update, insert, map_row, find-update, find-insert, find-update_self,
}

module _ {ℓ} {A : Type ℓ} where
  abbrev pub upsert : (A → Bool) → (A → A) → A → List A → List A
  upsert q f r xs = elim (find q xs) [ none ↦ insert r xs | some old ↦ update q f xs ]

  -- The row after an upsert: the new one, or the old one with the change.
  abbrev pub put_row : (A → A) → A → Option A → Option A
  put_row f r none = some r
  put_row f r (some old) = some (f old)

  pub find-upsert :
      (q : A → Bool) (f : A → A) (r : A)
      → q r ≡ true
      → ((x : A) → q (f x) ≡ q x)
      → (xs : List A) → find q (upsert q f r xs) ≡ put_row f r (find q xs)
  find-upsert q f r here keep xs = ground (arith, find-insert q r xs, find-update_self q f keep xs)

  found :
      (b : Bool) (r : A)
      → b ≡ false
      → (o : Option A) → elim o [ none ↦ if b then some r else none | some y ↦ some y ] ≡ o
  found b r h none = rw h refl
  found b r h (some y) = refl

  pub find-changed :
      (p q : A → Bool) (f : A → A)
      → ((x : A) → p x ≡ true → q x ≡ false)
      → (xs : List A) → map_row (λ x. if q x then f x else x) (find p xs) ≡ find p xs
  find-changed p q f apart [] = refl
  find-changed p q f apart (x ∷ xs) = ground (arith, apart x, find-changed p q f apart xs)

  -- The rows that another condition selects are as before.
  pub find-upsert_other :
      (p q : A → Bool) (f : A → A) (r : A)
      → p r ≡ false
      → ((x : A) → p (f x) ≡ p x)
      → ((x : A) → p x ≡ true → q x ≡ false)
      → (xs : List A) → find p (upsert q f r xs) ≡ find p xs
  find-upsert_other p q f r there keep apart xs =
      let updated : find p (update q f xs) ≡ find p xs =
        find-update p q f keep xs ∙ find-changed p q f apart xs in
      elim (find q xs)
        as (λ o. find p (elim o [ none ↦ insert r xs | some old ↦ update q f xs ]) ≡ find p xs) [
          | none ↦ find-insert p r xs ∙ found (p r) r there (find p xs)
          | some old ↦ updated
        ]
