-- ===== src/Reconciliation/Sums.antt =====
-- Sums of amounts over maps with distinct keys.
use edge_billing_service.Base.{
  ℕ, ℤ, pos, ◌+ℤ◌, ◌-ℤ◌, neg, false, List, [], ◌∷◌, ◌==◌, ◌≡◌, refl, ap, ◌∙◌, All, inl, inr,
  Bool-cases, arith, int_laws, add_zero,
}
use edge_billing_service.Base.Keyed.{has_key, set_key, AreDistinct, has-set}

pub add_swap : (a b c : ℤ) → a +ℤ (b +ℤ c) ≡ b +ℤ (a +ℤ c)
add_swap a b c = omega int_laws

pub zero_add : (a : ℤ) → pos 0 +ℤ a ≡ a
zero_add a = omega int_laws

pub regroup_sum : (a m u : ℤ) → a +ℤ m +ℤ u ≡ m +ℤ (a +ℤ u)
regroup_sum a m u = omega int_laws

pub sub_add_neg : (p m u : ℤ) → p -ℤ m +ℤ neg u ≡ p -ℤ (m +ℤ u)
sub_add_neg p m u = omega int_laws

pub add_shift : (a b c : ℤ) → a +ℤ (b +ℤ c) ≡ b +ℤ a +ℤ c
add_shift a b c = omega int_laws

module _ {A : Type 0} (f : A → ℤ) where
  abbrev pub sum_by : List (ℕ × A) → ℤ
  sum_by [] = pos 0
  sum_by ((k, a) ∷ m) = f a +ℤ sum_by m

  abbrev pub add_pairs : List (ℕ × A) → List (ℕ × A) → List (ℕ × A)
  add_pairs m [] = m
  add_pairs m ((k, a) ∷ r) = add_pairs (set_key k a m) r

  pub sum-set :
      (k : ℕ) (a : A) (m : List (ℕ × A))
      → has_key k m ≡ false
      → sum_by (set_key k a m) ≡ f a +ℤ sum_by m
  sum-set k a [] h = refl
  sum-set k a ((j, b) ∷ m) h = elim (Bool-cases (j == k)) [
    | inl same ↦ absurd (ground arith)
    | inr other ↦
        rw other
          (ap (λ z. f b +ℤ z) (sum-set k a m (ground arith)) ∙ add_swap (f b) (f a) (sum_by m))
  ]

  pub set-IsApart :
      (k : ℕ) (a : A) (m r : List (ℕ × A))
      → has_key k r ≡ false
      → All (λ e. has_key e.0 m ≡ false) r
      → All (λ e. has_key e.0 (set_key k a m) ≡ false) r
  set-IsApart k a m [] new apart = tt
  set-IsApart k a m ((j, b) ∷ r) new apart =
      (ground (arith, has-set k j a m), set-IsApart k a m r (ground arith) apart.1)

  pub sum-add_pairs :
      (m r : List (ℕ × A))
      → AreDistinct r
      → All (λ e. has_key e.0 m ≡ false) r
      → sum_by (add_pairs m r) ≡ sum_by r +ℤ sum_by m
  sum-add_pairs m [] d apart = omega int_laws
  sum-add_pairs m ((k, a) ∷ r) d apart =
      sum-add_pairs (set_key k a m) r d.1 (set-IsApart k a m r d.0 apart.1)
      ∙ ap (λ z. sum_by r +ℤ z) (sum-set k a m apart.0)
      ∙ add_shift (sum_by r) (f a) (sum_by m)

  pub IsApart-empty : (r : List (ℕ × A)) → All (λ e. has_key {A = A} e.0 [] ≡ false) r
  IsApart-empty [] = tt
  IsApart-empty (e ∷ r) = (refl, IsApart-empty r)

  pub sum-distinct : (r : List (ℕ × A)) → AreDistinct r → sum_by (add_pairs [] r) ≡ sum_by r
  sum-distinct r d = sum-add_pairs [] r d (IsApart-empty r) ∙ add_zero (sum_by r)
