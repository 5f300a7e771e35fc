-- ===== src/Store/Ensures.antt =====
-- What holds of a call that returns, and the rules for sequences and transactions.
use edge_billing_service.Base.{false, true, ◌≡◌, refl, sym, subst, inl, inr, Bool}
use edge_billing_service.Store.Action.{
  Store, Action, Result, ok, err, transaction, outcome, >>=-ok, >>=-err, transaction-ok,
  transaction-err, ◌>>=◌, when,
}

-- If the call returned, the result and the state it left are related.
abbrev pub Ensures : {A : Type 0} → (A → Store → Type 0) → Result A × Store → Type 0
Ensures P (ok a, t) = P a t
Ensures P (err e, t) = Unit {0}

-- The same, and a call that raised has changed nothing.
abbrev pub Commits : {A : Type 0} → Store → (A → Store → Type 0) → Result A × Store → Type 0
Commits s P (ok a, t) = P a t
Commits s P (err e, t) = t ≡ s

module _ {A : Type 0} where
  pub bind-Ensures :
      {B : Type 0} (P : A → Store → Type 0) (Q : B → Store → Type 0) (m : Action A)
      (f : A → Action B) (s : Store)
      → Ensures P (m s)
      → ((a : A) (t : Store) → P a t → Ensures Q (f a t))
      → Ensures Q ((m >>= f) s)
  bind-Ensures P Q m f s h k = elim (outcome (m s)) [
    | inl (a, t, e) ↦ subst (Ensures Q) (sym (>>=-ok m f s e)) (k a t (subst (Ensures P) e h))
    | inr (x, t, e) ↦ subst (Ensures Q) (sym (>>=-err m f s e)) tt
  ]

  -- A transaction commits what its body ensures.
  pub transaction-Commits :
      (P : A → Store → Type 0) (m : Action A) (s : Store)
      → Ensures P (m s)
      → Commits s P (transaction m s)
  transaction-Commits P m s h = elim (outcome (m s)) [
    | inl (a, t, e) ↦ subst (Commits s P) (sym (transaction-ok m s e)) (subst (Ensures P) e h)
    | inr (x, t, e) ↦ subst (Commits s P) (sym (transaction-err m s e)) refl
  ]

  pub weaken-Ensures :
      (P Q : A → Store → Type 0) (r : Result A × Store)
      → Ensures P r
      → ((a : A) (t : Store) → P a t → Q a t)
      → Ensures Q r
  weaken-Ensures P Q r h k = elim (outcome r) [
    | inl (a, t, e) ↦ subst (Ensures Q) (sym e) (k a t (subst (Ensures P) e h))
    | inr (x, t, e) ↦ subst (Ensures Q) (sym e) tt
  ]

pub when-Ensures :
    (P : Unit {0} → Store → Type 0) (c : Bool) (m : Action (Unit {0})) (s : Store)
    → (c ≡ true → Ensures P (m s))
    → (c ≡ false → P tt s)
    → Ensures P (when c m s)
when-Ensures P true m s then_holds else_holds = then_holds refl
when-Ensures P false m s then_holds else_holds = else_holds refl

-- The call returned, and the result and the state it left are related.
abbrev pub Returns : {A : Type 0} → (A → Store → Type 0) → Result A × Store → Type 0
Returns P (ok a, t) = P a t
Returns P (err e, t) = ⊥

module _ {A : Type 0} where
  pub bind-Returns :
      {B : Type 0} (P : A → Store → Type 0) (Q : B → Store → Type 0) (m : Action A)
      (f : A → Action B) (s : Store)
      → Returns P (m s)
      → ((a : A) (t : Store) → P a t → Returns Q (f a t))
      → Returns Q ((m >>= f) s)
  bind-Returns P Q m f s h k = elim (outcome (m s)) [
    | inl (a, t, e) ↦ subst (Returns Q) (sym (>>=-ok m f s e)) (k a t (subst (Returns P) e h))
    | inr (x, t, e) ↦ absurd (subst (Returns P) e h)
  ]

  pub transaction-Returns :
      (P : A → Store → Type 0) (m : Action A) (s : Store)
      → Returns P (m s)
      → Returns P (transaction m s)
  transaction-Returns P m s h = elim (outcome (m s)) [
    | inl (a, t, e) ↦ subst (Returns P) (sym (transaction-ok m s e)) (subst (Returns P) e h)
    | inr (x, t, e) ↦ absurd (subst (Returns P) e h)
  ]
