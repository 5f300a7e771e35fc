-- ===== src/Base/Keyed.antt =====
-- JavaScript's `Map` with numbers as keys: pairs in the order in which their keys were first set.
use Prim.Native.Nat.{ℕ}
use mathlib.Core.Path.{◌≡◌, refl}
use mathlib.Core.Bool.{Bool, true, false, ◌||◌}
use mathlib.Core.Option.{Option, none, some}
use mathlib.Core.List.{List, [], ◌∷◌}
use native.Mathlib.Omega.{arith}
use edge_billing_service.Base.Table.{All}
use edge_billing_service.Base.Predicates.{All-map}
use edge_billing_service.Base.Tests.{◌==◌, if◌then◌else◌}

module _ {A : Type 0} where
  -- `map.set(k, v)`: a key that is there keeps its place.
  abbrev pub set_key : ℕ → A → List (ℕ × A) → List (ℕ × A)
  set_key k v [] = (k, v) ∷ []
  set_key k v ((j, w) ∷ m) =
      let rest = set_key k v m in if j == k then (j, v) ∷ m else (j, w) ∷ rest

  -- `map.get(k)`
  abbrev pub get_key : ℕ → List (ℕ × A) → Option A
  get_key k [] = none
  get_key k ((j, w) ∷ m) = let rest = get_key k m in if j == k then some w else rest

  -- `map.has(k)`
  abbrev pub has_key : ℕ → List (ℕ × A) → Bool
  has_key k [] = false
  has_key k ((j, w) ∷ m) = (j == k) || has_key k m

  -- No key stands twice.
  abbrev pub AreDistinct : List (ℕ × A) → Type 0
  AreDistinct [] = Unit
  AreDistinct ((j, w) ∷ m) = (has_key j m ≡ false) × AreDistinct m

  pub get-set :
      (k j : ℕ) (v : A) (m : List (ℕ × A))
      → get_key j (set_key k v m) ≡ (if k == j then some v else get_key j m)
  get-set k j v [] = refl
  get-set k j v ((i, w) ∷ m) = ground (arith, get-set k j v m)

  pub has-set :
      (k j : ℕ) (v : A) (m : List (ℕ × A)) → has_key j (set_key k v m) ≡ ((k == j) || has_key j m)
  has-set k j v [] = refl
  has-set k j v ((i, w) ∷ m) = ground (arith, has-set k j v m)

  pub set-AreDistinct :
      (k : ℕ) (v : A) (m : List (ℕ × A)) → AreDistinct m → AreDistinct (set_key k v m)
  set-AreDistinct k v [] d = (refl, tt)
  set-AreDistinct k v ((j, w) ∷ m) d = ground (arith, has-set k j v m, set-AreDistinct k v m d.1)

  -- A key is there exactly when it has a value.
  pub has-get :
      (k : ℕ) (m : List (ℕ × A))
      → has_key k m ≡ (elim (get_key k m) [ none ↦ false | some _ ↦ true ])
  has-get k [] = refl
  has-get k ((j, w) ∷ m) = ground (arith, has-get k m)

-- In a map whose keys are distinct every pair is found by its key.
pub get-entries :
    {A : Type 0} (m : List (ℕ × A)) → AreDistinct m → All (λ e. get_key e.0 m ≡ some e.1) m
get-entries [] d = tt
get-entries ((j, w) ∷ m) d = (
  ground arith,
  All-map (λ e. get_key e.0 m ≡ some e.1) (λ e. get_key e.0 ((j, w) ∷ m) ≡ some e.1) m
      (λ e h. ground (arith, has-get e.0 m, d.0)) (get-entries m d.1),
)
