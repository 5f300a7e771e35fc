-- ===== src/Methods/Counts.antt =====
-- Rows of payment methods with distinct identifiers, and how many of them are a customer's default.
use edge_billing_service.Base.{
  ℕ, ◌+◌, ◌≤◌, ◌<◌, Bool, true, false, ◌&&◌, ◌||◌, none, some, List, [], ◌∷◌, ◌==◌, any, find,
  filter, update, insert, length, bit, length-filter-cons, All, ◌≡◌, refl, ap, ◌∙◌, subst, inl, inr,
  Bool-cases, ==→eq, ==_refl, arith,
}
use edge_billing_service.Store.Rows.{PaymentMethod}
use edge_billing_service.Methods.Service.{make_default, detached}

abbrev pub has_id : ℕ → PaymentMethod → Bool
has_id id pm = pm.id == id

-- The active default of a customer.
abbrev pub is_default_of : ℕ → PaymentMethod → Bool
is_default_of c pm = (pm.customer_id == c) && pm.is_default && pm.is_active

abbrev pub count_defaults : ℕ → List PaymentMethod → ℕ
count_defaults c xs = length (filter (is_default_of c) xs)

abbrev pub AreDistinct : List PaymentMethod → Type 0
AreDistinct [] = Unit
AreDistinct (x ∷ xs) = (any (has_id x.id) xs ≡ false) × AreDistinct xs

-- The rows with this identifier are the customer's.
abbrev pub AreOwned : ℕ → ℕ → List PaymentMethod → Type 0
AreOwned k c [] = Unit
AreOwned k c (x ∷ xs) = ((x.id == k) ≡ true → x.customer_id ≡ c) × AreOwned k c xs

module _ (q : PaymentMethod → Bool) (f : PaymentMethod → PaymentMethod)
    (keep : (x : PaymentMethod) → (f x).id ≡ x.id) where
  any-update :
      (k : ℕ) (xs : List PaymentMethod) → any (has_id k) (update q f xs) ≡ any (has_id k) xs
  any-update k [] = refl
  any-update k (x ∷ xs) = elim (Bool-cases (q x)) [
    | inl here ↦ rw (here, keep x, any-update k xs) refl
    | inr other ↦ rw (other, any-update k xs) refl
  ]

  pub update-AreDistinct : (xs : List PaymentMethod) → AreDistinct xs → AreDistinct (update q f xs)
  update-AreDistinct [] d = tt
  update-AreDistinct (x ∷ xs) d = elim (Bool-cases (q x)) [
    | inl here ↦ rw (here, keep x) (any-update x.id xs ∙ d.0, update-AreDistinct xs d.1)
    | inr other ↦ rw other (any-update x.id xs ∙ d.0, update-AreDistinct xs d.1)
  ]

  pub update-AreBelow :
      (n : ℕ) (xs : List PaymentMethod)
      → All (λ x. x.id < n) xs
      → All (λ x. x.id < n) (update q f xs)
  update-AreBelow n [] h = tt
  update-AreBelow n (x ∷ xs) h = elim (Bool-cases (q x)) [
    | inl here ↦ rw (here, keep x) (h.0, update-AreBelow n xs h.1)
    | inr other ↦ rw other (h.0, update-AreBelow n xs h.1)
  ]

-- A change that makes no row a default makes no more defaults.
pub count-update_le :
    (q : PaymentMethod → Bool) (f : PaymentMethod → PaymentMethod) (c : ℕ)
    → ((x : PaymentMethod) → bit (is_default_of c (f x)) ≤ bit (is_default_of c x))
    → (xs : List PaymentMethod) → count_defaults c (update q f xs) ≤ count_defaults c xs
count-update_le q f c less [] = omega arith
count-update_le q f c less (x ∷ xs) = elim (Bool-cases (q x)) [
  | inl here ↦ rw here (
      omega (
        arith,
        length-filter-cons (is_default_of c) (f x) (update q f xs),
        length-filter-cons (is_default_of c) x xs,
        less x,
        count-update_le q f c less xs,
      ))
  | inr other ↦ rw other (
      omega (
        arith,
        length-filter-cons (is_default_of c) x (update q f xs),
        length-filter-cons (is_default_of c) x xs,
        count-update_le q f c less xs,
      ))
]

update-none :
    (k : ℕ) (f : PaymentMethod → PaymentMethod) (xs : List PaymentMethod)
    → any (has_id k) xs ≡ false
    → update (has_id k) f xs ≡ xs
update-none k f [] h = refl
update-none k f (x ∷ xs) h = elim (Bool-cases (x.id == k)) [
  | inl here ↦ absurd (ground arith)
  | inr other ↦ rw other (ap (λ l. x ∷ l) (update-none k f xs (ground arith)))
]

bit_le : (b : Bool) → bit b ≤ 1
bit_le b = ground arith

-- One row changes, so there is one default more at most.
pub count-update_one :
    (k c : ℕ) (f : PaymentMethod → PaymentMethod) (xs : List PaymentMethod)
    → AreDistinct xs
    → count_defaults c (update (has_id k) f xs) ≤ count_defaults c xs + 1
count-update_one k c f [] d = omega arith
count-update_one k c f (x ∷ xs) d = elim (Bool-cases (x.id == k)) [
  | inl here ↦
      let same =
        update-none k f xs (subst (λ j. any (has_id j) xs ≡ false) (==→eq x.id k here) d.0) in
      rw (here, same)
        (omega (
          arith,
          length-filter-cons (is_default_of c) (f x) xs,
          length-filter-cons (is_default_of c) x xs,
          bit_le (is_default_of c (f x)),
        ))
  | inr other ↦ rw other (
      omega (
        arith,
        length-filter-cons (is_default_of c) x (update (has_id k) f xs),
        length-filter-cons (is_default_of c) x xs,
        count-update_one k c f xs d.1,
      ))
]

-- Making a row a default leaves the other customers' defaults as they were.
pub count-make_default_other :
    (k c d : ℕ) (xs : List PaymentMethod)
    → AreOwned k c xs
    → (c == d) ≡ false
    → count_defaults d (update (has_id k) make_default xs) ≡ count_defaults d xs
count-make_default_other k c d [] owned other = refl
count-make_default_other k c d (x ∷ xs) owned other = elim (Bool-cases (x.id == k)) [
  | inl here ↦
      let foreign : (x.customer_id == d) ≡ false = rw (owned.0 here) other in
      rw (here, foreign) (count-make_default_other k c d xs owned.1 other)
  | inr elsewhere ↦ rw elsewhere (
      omega (
        arith,
        length-filter-cons (is_default_of d) x (update (has_id k) make_default xs),
        length-filter-cons (is_default_of d) x xs,
        count-make_default_other k c d xs owned.1 other,
      ))
]

pub AreOwned-none :
    (k c : ℕ) (xs : List PaymentMethod) → any (has_id k) xs ≡ false → AreOwned k c xs
AreOwned-none k c [] h = tt
AreOwned-none k c (x ∷ xs) h = elim (Bool-cases (x.id == k)) [
  | inl here ↦ absurd (ground arith)
  | inr other ↦ (λ e. absurd (ground arith), AreOwned-none k c xs (ground arith))
]

any-found :
    (p : PaymentMethod → Bool) (xs : List PaymentMethod) {pm : PaymentMethod}
    → find p xs ≡ some pm
    → any (has_id pm.id) xs ≡ true
any-found p [] h = cc
any-found p (x ∷ xs) {pm} h = elim (Bool-cases (p x)) [
  | inl here ↦ let same : x ≡ pm = ground arith in rw (ap (λ y. y.id) same, ==_refl pm.id) refl
  | inr other ↦ let rest = any-found p xs {pm = pm} (ground arith) in rw rest (ground arith)
]

-- The rows with the identifier of a row that was found are the customer's, as it is.
pub find-AreOwned :
    (p : PaymentMethod → Bool) (xs : List PaymentMethod) {pm : PaymentMethod}
    → AreDistinct xs
    → find p xs ≡ some pm
    → AreOwned pm.id pm.customer_id xs
find-AreOwned p [] d h = tt
find-AreOwned p (x ∷ xs) {pm} d h = elim (Bool-cases (p x)) [
  | inl here ↦
      let same : x ≡ pm = ground arith in
      (
        λ e. ap (λ y. y.customer_id) same,
        AreOwned-none pm.id pm.customer_id xs (subst (λ y. any (has_id y.id) xs ≡ false) same d.0),
      )
  | inr other ↦
      let rest : find p xs ≡ some pm = ground arith in
      (
        λ e. absurd (
            let old = any-found p xs {pm = pm} rest in
            let new = subst (λ j. any (has_id j) xs ≡ false) (==→eq x.id pm.id e) d.0 in cc),
        find-AreOwned p xs {pm = pm} d.1 rest,
      )
]

pub detached_default : (c : ℕ) (x : PaymentMethod) → is_default_of c (detached x) ≡ false
detached_default c x = ground arith

pub detached_less :
    (c : ℕ) (x : PaymentMethod) → bit (is_default_of c (detached x)) ≤ bit (is_default_of c x)
detached_less c x = rw (detached_default c x) (omega arith)

-- Detaching a default makes one default less.
pub count-detached :
    (k c : ℕ) (p : PaymentMethod → Bool) (xs : List PaymentMethod) {pm : PaymentMethod}
    → find p xs ≡ some pm
    → pm.id ≡ k
    → is_default_of c pm ≡ true
    → count_defaults c (update (has_id k) detached xs) + 1 ≤ count_defaults c xs
count-detached k c p [] h id default = cc
count-detached k c p (x ∷ xs) {pm} h id default = elim (Bool-cases (p x)) [
  | inl here ↦
      let same : x ≡ pm = ground arith in
      let hit : (x.id == k) ≡ true = rw (ap (λ y. y.id) same, id) (==_refl k) in
      let counted : is_default_of c x ≡ true = ap (is_default_of c) same ∙ default in
      let rest = count-update_le (has_id k) detached c (detached_less c) xs in
      rw hit (
        omega (
          arith,
          length-filter-cons (is_default_of c) (detached x) (update (has_id k) detached xs),
          length-filter-cons (is_default_of c) x xs,
          ap bit (detached_default c x),
          ap bit counted,
          rest,
        ))
  | inr other ↦
      let rest = count-detached k c p xs {pm = pm} (ground arith) id default in
      elim (Bool-cases (x.id == k)) [
        | inl hit ↦ rw hit (
            omega (
              arith,
              length-filter-cons (is_default_of c) (detached x) (update (has_id k) detached xs),
              length-filter-cons (is_default_of c) x xs,
              detached_less c x,
              rest,
            ))
        | inr miss ↦ rw miss (
            omega (
              arith,
              length-filter-cons (is_default_of c) x (update (has_id k) detached xs),
              length-filter-cons (is_default_of c) x xs,
              rest,
            ))
      ]
]

-- A customer whose defaults were cleared has none.
pub count-cleared :
    (c : ℕ) (xs : List PaymentMethod)
    → count_defaults c (
        update
          (λ pm. (pm.customer_id == c) && pm.is_default)
          (λ pm. record pm { is_default = false })
          xs)
      ≡ 0
count-cleared c [] = refl
count-cleared c (x ∷ xs) = ground (arith, count-cleared c xs)

pub find-none :
    (p : PaymentMethod → Bool) (xs : List PaymentMethod)
    → find p xs ≡ none
    → length (filter p xs) ≡ 0
find-none p [] h = refl
find-none p (x ∷ xs) h = ground (arith, find-none p xs)

any-insert :
    (k : ℕ) (x : PaymentMethod) (xs : List PaymentMethod)
    → any (has_id k) (insert x xs) ≡ (any (has_id k) xs || (x.id == k))
any-insert k x [] = ground arith
any-insert k x (y ∷ xs) = ground (arith, any-insert k x xs)

-- A row with a new identifier.
pub insert-AreDistinct :
    (n : ℕ) (x : PaymentMethod) (xs : List PaymentMethod)
    → All (λ y. y.id < n) xs
    → x.id ≡ n
    → AreDistinct xs
    → AreDistinct (insert x xs)
insert-AreDistinct n x [] below new d = (refl, tt)
insert-AreDistinct n x (y ∷ xs) below new d =
    let apart : (x.id == y.id) ≡ false = ground arith in
    (any-insert y.id x xs ∙ rw (d.0, apart) refl, insert-AreDistinct n x xs below.1 new d.1)

pub insert-AreBelow :
    (n : ℕ) (x : PaymentMethod) (xs : List PaymentMethod)
    → All (λ y. y.id < n) xs
    → x.id ≡ n
    → All (λ y. y.id < n + 1) (insert x xs)
insert-AreBelow n x [] below new = (omega arith, tt)
insert-AreBelow n x (y ∷ xs) below new = (omega arith, insert-AreBelow n x xs below.1 new)

pub AreBelow-weaken :
    (n m : ℕ) (xs : List PaymentMethod) → n ≤ m → All (λ y. y.id < n) xs → All (λ y. y.id < m) xs
AreBelow-weaken n m [] le h = tt
AreBelow-weaken n m (x ∷ xs) le h = (omega arith, AreBelow-weaken n m xs le h.1)
