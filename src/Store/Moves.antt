-- ===== src/Store/Moves.antt =====
-- What a call does to the store however it ends, and the rules for sequences, handlers and
-- transactions.
use edge_billing_service.Base.{false, true, ◌≡◌, sym, subst, ap, ◌∙◌, inl, inr, Bool}
use edge_billing_service.Store.Action.{
  Store, Action, Error, ok, err, catch, outcome, transaction, transaction-ok, transaction-err,
  >>=-ok, >>=-err, ◌>>=◌, when,
}

-- The state before the call and the state after it are related, whether it returns or raises.
abbrev pub Moves : (Store → Store → Type 0) → {A : Type 0} → Action A → Type 0
Moves R m = (s : Store) → R s (m s).1

module _ {A : Type 0} where
  pub catch-ok :
      (m : Action A) (handler : Error → Action A) (s : Store) {a : A} {t : Store}
      → m s ≡ (ok a, t)
      → catch m handler s ≡ (ok a, t)
  catch-ok m handler s e = ap (λ r. elim r.0 [ ok a ↦ (ok a, r.1) | err x ↦ handler x r.1 ]) e

  pub catch-err :
      (m : Action A) (handler : Error → Action A) (s : Store) {x : Error} {t : Store}
      → m s ≡ (err x, t)
      → catch m handler s ≡ handler x t
  catch-err m handler s e = ap (λ r. elim r.0 [ ok a ↦ (ok a, r.1) | err x ↦ handler x r.1 ]) e

module _ (P Q R : Store → Store → Type 0) (widen : (s t : Store) → P s t → R s t)
    (compose : (s t u : Store) → P s t → Q t u → R s u) where
  pub bind-Moves :
      {A B : Type 0} (m : Action A) (f : A → Action B)
      → Moves P m
      → ((a : A) → Moves Q (f a))
      → Moves R (m >>= f)
  bind-Moves m f first rest s = elim (outcome (m s)) [
    | inl (a, t, e) ↦
        subst (λ r. R s r.1) (sym (>>=-ok m f s e))
          (compose s t (f a t).1 (subst (λ r. P s r.1) e (first s)) (rest a t))
    | inr (x, t, e) ↦
        subst (λ r. R s r.1) (sym (>>=-err m f s e)) (widen s t (subst (λ r. P s r.1) e (first s)))
  ]

  pub catch-Moves :
      {A : Type 0} (m : Action A) (handler : Error → Action A)
      → Moves P m
      → ((x : Error) → Moves Q (handler x))
      → Moves R (catch m handler)
  catch-Moves m handler body handled s = elim (outcome (m s)) [
    | inl (a, t, e) ↦
        subst (λ r. R s r.1) (sym (catch-ok m handler s e))
          (widen s t (subst (λ r. P s r.1) e (body s)))
    | inr (x, t, e) ↦
        subst (λ r. R s r.1) (sym (catch-err m handler s e))
          (compose s t (handler x t).1 (subst (λ r. P s r.1) e (body s)) (handled x t))
  ]

pub when-Moves :
    (R : Store → Store → Type 0) (c : Bool) (m : Action (Unit {0}))
    → ((s : Store) → R s s)
    → Moves R m
    → Moves R (when c m)
when-Moves R true m stay h = h
when-Moves R false m stay h = stay

pub transaction-Moves :
    (R : Store → Store → Type 0) {A : Type 0} (m : Action A)
    → ((s : Store) → R s s)
    → Moves R m
    → Moves R (transaction m)
transaction-Moves R m stay h s = elim (outcome (m s)) [
  | inl (a, t, e) ↦ subst (λ r. R s r.1) (sym (transaction-ok m s e)) (subst (λ r. R s r.1) e (h s))
  | inr (x, t, e) ↦ subst (λ r. R s r.1) (sym (transaction-err m s e)) (stay s)
]

-- A sequence that begins by reading: what holds of the state holds after the sequence, if it does
-- after the rest for each result of the reading.
pub read_then :
    (Q : Store → Type 0) {A B : Type 0} (m : Action A) (f : A → Action B) (s : Store)
    → (m s).1 ≡ s
    → Q s
    → ((a : A) → m s ≡ (ok a, s) → Q (f a s).1)
    → Q ((m >>= f) s).1
read_then Q m f s reads h k = elim (outcome (m s)) [
  | inl (a, t, e) ↦
      let same : t ≡ s = sym (ap (λ r. r.1) e) ∙ reads in
      let whole : m s ≡ (ok a, s) = e ∙ ap (λ u. (ok a, u)) same in
      subst (λ r. Q r.1) (sym (>>=-ok m f s whole)) (k a whole)
  | inr (x, t, e) ↦
      let same : t ≡ s = sym (ap (λ r. r.1) e) ∙ reads in
      subst (λ r. Q r.1) (sym (>>=-err m f s e)) (subst Q (sym same) h)
]
