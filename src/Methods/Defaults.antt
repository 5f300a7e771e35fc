-- ===== src/Methods/Defaults.antt =====
-- Rows in which a customer has one default payment method at most, and the changes that keep this.
use edge_billing_service.Base.{
  ℕ, ◌+◌, ◌≤◌, ◌<◌, Bool, true, false, ◌&&◌, some, List, [], ◌∷◌, ◌==◌, find, update, insert, bit,
  length-filter-insert, All, find-update, ◌≡◌, refl, ap, ◌∙◌, subst, inl, inr, Bool-cases, ==→eq,
  arith,
}
use edge_billing_service.Store.Rows.{PaymentMethod}
use edge_billing_service.Methods.Service.{make_default, detached}
use edge_billing_service.Methods.Counts.{
  has_id, is_default_of, count_defaults, AreDistinct, AreOwned, update-AreDistinct, update-AreBelow,
  count-update_le, count-update_one, count-make_default_other, find-AreOwned, detached_less,
  count-detached, count-cleared, insert-AreDistinct, insert-AreBelow,
}

-- The identifiers are distinct and below the next one, and no customer has two active defaults.
pub record HaveOneDefault (n : ℕ) (xs : List PaymentMethod) : Type 0 where
  pub below : All (λ x. x.id < n) xs
  pub distinct : AreDistinct xs
  pub one : (c : ℕ) → count_defaults c xs ≤ 1

abbrev pub cleared : ℕ → List PaymentMethod → List PaymentMethod
cleared c =
    update (λ pm. (pm.customer_id == c) && pm.is_default) (λ pm. record pm { is_default = false })

module _ (n : ℕ) (xs : List PaymentMethod) (h : HaveOneDefault n xs) where
  -- A change of some rows that makes none of them a default.
  pub update-HaveOneDefault :
      (q : PaymentMethod → Bool) (f : PaymentMethod → PaymentMethod)
      → ((x : PaymentMethod) → (f x).id ≡ x.id)
      → ((c : ℕ) (x : PaymentMethod) → bit (is_default_of c (f x)) ≤ bit (is_default_of c x))
      → HaveOneDefault n (update q f xs)
  update-HaveOneDefault q f keep less = record {
    below = update-AreBelow q f keep n xs h.below;
    distinct = update-AreDistinct q f keep xs h.distinct;
    one = λ c. omega (arith, count-update_le q f c (less c) xs, h.one c);
  }

  -- A new row, which is a default only where the customer has none.
  pub insert-HaveOneDefault :
      (x : PaymentMethod)
      → x.id ≡ n
      → (x.is_default ≡ true → count_defaults x.customer_id xs ≡ 0)
      → HaveOneDefault (n + 1) (insert x xs)
  insert-HaveOneDefault x new first = record {
    below = insert-AreBelow n x xs h.below new;
    distinct = insert-AreDistinct n x xs h.below new h.distinct;
    one = λ c.
        let more = length-filter-insert (is_default_of c) x xs in
        elim (Bool-cases (is_default_of c x)) [
          | inl counted ↦
              let own : x.customer_id ≡ c = ground arith in
              let empty : count_defaults c xs ≡ 0 =
                subst (λ d. count_defaults d xs ≡ 0) own (first (ground arith)) in
              omega (arith, more, empty, ap bit counted)
          | inr other ↦ omega (arith, more, h.one c, ap bit other)
        ];
  }

  cleared_less :
      (d c : ℕ) (x : PaymentMethod)
      → bit (is_default_of c (record x { is_default = false })) ≤ bit (is_default_of c x)
  cleared_less d c x = ground arith

  pub cleared-HaveOneDefault : (c : ℕ) → HaveOneDefault n (cleared c xs)
  cleared-HaveOneDefault c =
      update-HaveOneDefault (λ pm. (pm.customer_id == c) && pm.is_default)
        (λ pm. record pm { is_default = false }) (λ x. refl) (cleared_less c)

AreOwned-cleared :
    (k c d : ℕ) (xs : List PaymentMethod) → AreOwned k c xs → AreOwned k c (cleared d xs)
AreOwned-cleared k c d [] h = tt
AreOwned-cleared k c d (x ∷ xs) h = elim (Bool-cases ((x.customer_id == d) && x.is_default)) [
  | inl here ↦ rw here (h.0, AreOwned-cleared k c d xs h.1)
  | inr other ↦ rw other (h.0, AreOwned-cleared k c d xs h.1)
]

-- The defaults of the customer are cleared, then a row of the customer becomes the default.
pub set-HaveOneDefault :
    (n : ℕ) (xs : List PaymentMethod) (p : PaymentMethod → Bool) {pm : PaymentMethod}
    → HaveOneDefault n xs
    → find p xs ≡ some pm
    → HaveOneDefault n (update (has_id pm.id) make_default (cleared pm.customer_id xs))
set-HaveOneDefault n xs p {pm} h found =
    let c = pm.customer_id in
    let ys = cleared c xs in
    let g = cleared-HaveOneDefault n xs h c in
    record {
      below = update-AreBelow (has_id pm.id) make_default (λ x. refl) n ys g.below;
      distinct = update-AreDistinct (has_id pm.id) make_default (λ x. refl) ys g.distinct;
      one = λ d. elim (Bool-cases (c == d)) [
        | inl own ↦ omega (
          arith,
          count-update_one pm.id d make_default ys g.distinct,
          subst (λ e. count_defaults e ys ≡ 0) (==→eq c d own) (count-cleared c xs),
        )
        | inr other ↦ omega (
          arith,
          count-make_default_other pm.id c d ys
              (AreOwned-cleared pm.id c c xs (find-AreOwned p xs h.distinct found)) other,
          g.one d,
        )
      ];
    }

pub detached-HaveOneDefault :
    (n k : ℕ) (xs : List PaymentMethod)
    → HaveOneDefault n xs
    → HaveOneDefault n (update (has_id k) detached xs)
detached-HaveOneDefault n k xs h =
    update-HaveOneDefault n xs h (has_id k) detached (λ x. refl) detached_less

-- Another row of the customer becomes the default, then the default is detached.
pub pass-HaveOneDefault :
    (n k : ℕ) (xs : List PaymentMethod) (p q : PaymentMethod → Bool) {pm next : PaymentMethod}
    → HaveOneDefault n xs
    → ((x : PaymentMethod) → p (make_default x) ≡ p x)
    → find p xs ≡ some pm
    → pm.id ≡ k
    → is_default_of pm.customer_id pm ≡ true
    → find q xs ≡ some next
    → next.customer_id ≡ pm.customer_id
    → (next.id == pm.id) ≡ false
    → HaveOneDefault n (update (has_id k) detached (update (has_id next.id) make_default xs))
pass-HaveOneDefault n k xs p q {pm} {next} h keep found id default found_next same apart =
    let ys = update (has_id next.id) make_default xs in
    let c = pm.customer_id in
    let differ : (pm.id == next.id) ≡ false = ground arith in
    let still : find p ys ≡ some pm =
      find-update p (has_id next.id) make_default keep xs ∙ rw (found, differ) refl in
    record {
      below =
          update-AreBelow (has_id k) detached (λ x. refl) n ys
            (update-AreBelow (has_id next.id) make_default (λ x. refl) n xs h.below);
      distinct =
          update-AreDistinct (has_id k) detached (λ x. refl) ys
            (update-AreDistinct (has_id next.id) make_default (λ x. refl) xs h.distinct);
      one = λ d. elim (Bool-cases (c == d)) [
        | inl own ↦
            subst (λ e. count_defaults e (update (has_id k) detached ys) ≤ 1) (==→eq c d own)
              (omega (
                arith,
                count-detached k c p ys still id default,
                count-update_one next.id c make_default xs h.distinct,
                h.one c,
              ))
        | inr other ↦ omega (
          arith,
          count-update_le (has_id k) detached d (detached_less d) ys,
          count-make_default_other next.id c d xs
              (subst (λ e. AreOwned next.id e xs) same (find-AreOwned q xs h.distinct found_next))
              other,
          h.one d,
        )
      ];
    }
