-- ===== src/Customers/Rows.antt =====
-- Rows of customers that are distinct and stay, through an insertion and an update.
use edge_billing_service.Base.{
  ℕ, Bool, Option, none, some, List, [], ◌∷◌, ◌==◌, ◌≡◌, refl, sym, ◌∙◌, subst, find, insert,
  update, arith, Bool-cases, inl, inr, find-insert, find-update,
}
use edge_billing_service.Store.Rows.{Customer}
use edge_billing_service.Store.Action.{Store}
use edge_billing_service.Customers.Service.{UpdatedPayload, find_by_monolith_id, renamed}

abbrev pub has_monolith_id : ℕ → Customer → Bool
has_monolith_id k c = c.monolith_id == k

-- No two rows are one customer of the monolith.
abbrev pub AreDistinct : List Customer → Type 0
AreDistinct [] = Unit
AreDistinct (c ∷ cs) = (find (has_monolith_id c.monolith_id) cs ≡ none) × AreDistinct cs

-- What a row keeps: its identifiers, the day of the charge and whether it is prepaid.
abbrev pub StaysAs : Option Customer → Option Customer → Type 0
StaysAs none o = Unit
StaysAs (some c) none = ⊥
StaysAs (some c) (some d) =
    (d.id ≡ c.id)
    × (d.stripe_customer_id ≡ c.stripe_customer_id)
    × (d.charge_day ≡ c.charge_day)
    × (d.is_prepaid ≡ c.is_prepaid)

-- From one table to another the rows stay distinct and every row stays.
pub record Keeps (s t : Store) : Type 0 where
  pub distinct : AreDistinct s.customers → AreDistinct t.customers
  pub stays : (k : ℕ) → StaysAs (find_by_monolith_id k s) (find_by_monolith_id k t)

StaysAs-refl : (o : Option Customer) → StaysAs o o
StaysAs-refl none = tt
StaysAs-refl (some c) = (refl, refl, refl, refl)

StaysAs-trans : (a b c : Option Customer) → StaysAs a b → StaysAs b c → StaysAs a c
StaysAs-trans none b c h k = tt
StaysAs-trans (some x) none c h k = absurd h
StaysAs-trans (some x) (some y) none h k = absurd k
StaysAs-trans (some x) (some y) (some z) (a, b, c, d) (e, f, g, h) = (e ∙ a, f ∙ b, g ∙ c, h ∙ d)

pub same-Keeps : (s t : Store) → t.customers ≡ s.customers → Keeps s t
same-Keeps s t e = record {
  distinct = subst AreDistinct (sym e);
  stays = λ k.
      subst (λ cs. StaysAs (find_by_monolith_id k s) (find (has_monolith_id k) cs)) (sym e)
        (StaysAs-refl (find_by_monolith_id k s));
}

pub Keeps-trans : (s t u : Store) → Keeps s t → Keeps t u → Keeps s u
Keeps-trans s t u h k = record {
  distinct = λ d. k.distinct (h.distinct d);
  stays = λ j.
      StaysAs-trans (find_by_monolith_id j s) (find_by_monolith_id j t) (find_by_monolith_id j u)
        (h.stays j) (k.stays j);
}

pub insert-AreDistinct :
    (c : Customer) (cs : List Customer)
    → find (has_monolith_id c.monolith_id) cs ≡ none
    → AreDistinct cs
    → AreDistinct (insert c cs)
insert-AreDistinct c [] h d = (refl, tt)
insert-AreDistinct c (x ∷ cs) h d = (
  find-insert (has_monolith_id x.monolith_id) c cs ∙ ground (arith, d.0, h),
  insert-AreDistinct c cs (ground (arith, h)) d.1,
)

pub insert-StaysAs :
    (c : Customer) (cs : List Customer) (k : ℕ)
    → StaysAs (find (has_monolith_id k) cs) (find (has_monolith_id k) (insert c cs))
insert-StaysAs c [] k = tt
insert-StaysAs c (x ∷ cs) k = elim (Bool-cases (x.monolith_id == k)) [
  | inl here ↦ rw here (refl, refl, refl, refl)
  | inr other ↦ rw other (insert-StaysAs c cs k)
]

module _ (q : Customer → Bool) (p : UpdatedPayload) where
  pub update-AreDistinct :
      (cs : List Customer) → AreDistinct cs → AreDistinct (update q (renamed p) cs)
  update-AreDistinct [] d = tt
  update-AreDistinct (x ∷ cs) d = elim (Bool-cases (q x)) [
    | inl here ↦ rw here (
      find-update (has_monolith_id x.monolith_id) q (renamed p) (λ c. refl) cs ∙ rw d.0 refl,
      update-AreDistinct cs d.1,
    )
    | inr other ↦ rw other (
      find-update (has_monolith_id x.monolith_id) q (renamed p) (λ c. refl) cs ∙ rw d.0 refl,
      update-AreDistinct cs d.1,
    )
  ]

  pub update-StaysAs :
      (cs : List Customer) (k : ℕ)
      → StaysAs (find (has_monolith_id k) cs) (find (has_monolith_id k) (update q (renamed p) cs))
  update-StaysAs [] k = tt
  update-StaysAs (x ∷ cs) k = elim (Bool-cases (x.monolith_id == k)) [
    | inl here ↦ elim (Bool-cases (q x)) [
      | inl changed ↦ rw (here, changed, here) (refl, refl, refl, refl)
      | inr kept ↦ rw (here, kept, here) (refl, refl, refl, refl)
    ]
    | inr other ↦ elim (Bool-cases (q x)) [
      | inl changed ↦ rw (other, changed, other) (update-StaysAs cs k)
      | inr kept ↦ rw (other, kept, other) (update-StaysAs cs k)
    ]
  ]
