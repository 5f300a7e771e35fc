-- ===== src/Methods/Steps.antt =====
-- Steps of the calls on payment methods that leave each customer one default at most.
use edge_billing_service.Base.{
  ℕ, Bool, true, ◌&&◌, Option, none, some, List, [], ◌∷◌, ◌==◌, find, find-holds, ◌≡◌, refl, sym,
  ap, ◌∙◌, subst, inl, inr, update, Bool-cases, Option-cases, arith,
}
use edge_billing_service.Store.Rows.{PaymentMethod, provider_eq}
use edge_billing_service.Store.Action.{
  Store, Action, ok, err, Error, or_raise, ◌>>=◌, ◌>>◌, outcome, >>=-ok, >>=-err,
  customer_not_found, payment_method_not_found, row_expected, pure,
}
use edge_billing_service.Store.Moves.{Moves}
use edge_billing_service.Charges.Books.{Reads, or_raise-Reads}
use edge_billing_service.Methods.{get_active_payment_method}
use edge_billing_service.Methods.Service.{
  known_customer, make_default, is_active_of, update_method, clear_defaults,
}
use edge_billing_service.Methods.Counts.{has_id, is_default_of, count_defaults, AreBelow-weaken}
use edge_billing_service.Methods.Defaults.{
  HaveOneDefault, cleared, cleared-HaveOneDefault, set-HaveOneDefault,
}
use edge_billing_service.Methods.Recalculated.{KeepsMethods, recalculate_keeps}
use edge_billing_service.Invoices.Drafts.{recalculate_surcharge_on_open_invoice}

abbrev pub HasOneDefault : Store → Type 0
HasOneDefault s = HaveOneDefault s.next_id s.payment_methods

-- A larger supply of identifiers and the same methods.
pub kept-HasOneDefault : (s t : Store) → KeepsMethods s t → HasOneDefault s → HasOneDefault t
kept-HasOneDefault s t k h = subst (HaveOneDefault t.next_id) (sym k.0) (record {
  below = AreBelow-weaken s.next_id t.next_id s.payment_methods k.1 h.below;
  distinct = h.distinct;
  one = h.one;
})

pub known_customer-Reads : (c : ℕ) → Moves Reads (known_customer c)
known_customer-Reads c s =
    or_raise-Reads (find (λ x. x.id == c) s.customers) (customer_not_found c) s

abbrev pub is_method : ℕ → ℕ → PaymentMethod → Bool
is_method c id pm = (pm.id == id) && (pm.customer_id == c) && pm.is_active

pub get_active-Reads : (c id : ℕ) → Moves Reads (get_active_payment_method c id)
get_active-Reads c id s =
    or_raise-Reads (find (is_method c id) s.payment_methods) (payment_method_not_found id) s

pub or_raise-found :
    {A : Type 0} (o : Option A) (x : Error) (s : Store) {a : A}
    → or_raise o x s ≡ (ok a, s)
    → o ≡ some a
or_raise-found none x s e = cc
or_raise-found (some b) x s e = cc

pub get_active-found :
    (c id : ℕ) (s : Store) {pm : PaymentMethod}
    → get_active_payment_method c id s ≡ (ok pm, s)
    → find (is_method c id) s.payment_methods ≡ some pm
get_active-found c id s e =
    or_raise-found (find (is_method c id) s.payment_methods) (payment_method_not_found id) s e

-- What keeps the methods keeps the property.
pub keeping :
    {A : Type 0} (m : Action A) (s : Store)
    → Moves KeepsMethods m
    → HasOneDefault s
    → HasOneDefault (m s).1
keeping m s k h = kept-HasOneDefault s (m s).1 (k s) h

pub then_keeping :
    {A B : Type 0} (m : Action A) (f : A → Action B) (s : Store)
    → HasOneDefault (m s).1
    → ((a : A) → Moves KeepsMethods (f a))
    → HasOneDefault ((m >>= f) s).1
then_keeping m f s h k = elim (outcome (m s)) [
  | inl (a, t, e) ↦
      subst (λ r. HasOneDefault r.1) (sym (>>=-ok m f s e))
        (keeping (f a) t (k a) (subst (λ r. HasOneDefault r.1) e h))
  | inr (x, t, e) ↦
      subst (λ r. HasOneDefault r.1) (sym (>>=-err m f s e)) (subst (λ r. HasOneDefault r.1) e h)
]

-- A sequence of three calls, grouped to the right.
pub regrouped :
    {A B C : Type 0} (m : Action A) (f : A → Action B) (g : B → Action C) (s : Store)
    → HasOneDefault ((m >>= λ a. f a >>= g) s).1
    → HasOneDefault ((m >>= f >>= g) s).1
regrouped m f g s h = elim (outcome (m s)) [
  | inl (a, t, e) ↦
      let whole : (m >>= f >>= g) s ≡ (m >>= λ a. f a >>= g) s =
        ap (λ r. elim r.0 [ ok b ↦ g b r.1 | err x ↦ (err x, r.1) ]) (>>=-ok m f s e)
        ∙ sym (>>=-ok m (λ a. f a >>= g) s e) in
      subst (λ r. HasOneDefault r.1) (sym whole) h
  | inr (x, t, e) ↦
      let whole : (m >>= f >>= g) s ≡ (m >>= λ a. f a >>= g) s =
        >>=-err (m >>= f) g s (>>=-err m f s e) ∙ sym (>>=-err m (λ a. f a >>= g) s e) in
      subst (λ r. HasOneDefault r.1) (sym whole) h
]

-- An update of a row and what follows: the row is missing, or it is written.
pub then_update :
    {B : Type 0} (id : ℕ) (f : PaymentMethod → PaymentMethod) (g : PaymentMethod → Action B)
    (s : Store)
    → HasOneDefault s
    → ((row : PaymentMethod)
        → HasOneDefault
            (g (f row) (record s { payment_methods = update (has_id id) f s.payment_methods })).1)
    → HasOneDefault ((update_method id f >>= g) s).1
then_update id f g s h k = elim (Option-cases (find (has_id id) s.payment_methods)) [
  | inl missing ↦
      let gone : update_method id f s ≡ (err row_expected, s) = rw (missing, update_method) refl in
      subst (λ r. HasOneDefault r.1) (sym (>>=-err (update_method id f) g s gone)) h
  | inr (row, found) ↦
      let written : update_method id f s
          ≡ (ok (f row), record s { payment_methods = update (has_id id) f s.payment_methods }) =
        rw (found, update_method) refl in
      subst (λ r. HasOneDefault r.1) (sym (>>=-ok (update_method id f) g s written)) (k row)
]

pub bind_pure : {A : Type 0} (m : Action A) (s : Store) → (m >>= pure) s ≡ m s
bind_pure m s = elim (outcome (m s)) [
  | inl (a, t, e) ↦ >>=-ok m pure s e ∙ sym e
  | inr (x, t, e) ↦ >>=-err m pure s e ∙ sym e
]

pub regroup_last :
    (id : ℕ) (f : PaymentMethod → PaymentMethod) (s : Store)
    → HasOneDefault ((update_method id f >>= pure) s).1
    → HasOneDefault (update_method id f s).1
regroup_last id f s h = subst (λ r. HasOneDefault r.1) (bind_pure (update_method id f) s) h

pub no_default :
    (p : PaymentMethod → Bool) (c : ℕ) (xs : List PaymentMethod)
    → ((x : PaymentMethod) → is_default_of c x ≡ true → p x ≡ true)
    → find p xs ≡ none
    → count_defaults c xs ≡ 0
no_default p c [] implies e = refl
no_default p c (x ∷ xs) implies e = elim (Bool-cases (is_default_of c x)) [
  | inl default ↦ absurd (ground (arith, implies x default))
  | inr other ↦ elim (Bool-cases (p x)) [
    | inl here ↦ absurd (ground arith)
    | inr there ↦ rw other (no_default p c xs implies (ground arith))
  ]
]

pub active_default :
    (c : ℕ) (x : PaymentMethod) → is_default_of c x ≡ true → is_active_of c x ≡ true
active_default c x h = ground arith

-- A method of the customer that was found becomes the default.
pub default_set :
    (c id : ℕ) (s : Store) {pm : PaymentMethod}
    → HasOneDefault s
    → find (is_method c id) s.payment_methods ≡ some pm
    → HasOneDefault
        ((clear_defaults c
            >> (update_method id make_default >>= λ updated.
                recalculate_surcharge_on_open_invoice c >> pure updated))
          s).1
default_set c id s {pm} h found =
    let is_pm = find-holds (is_method c id) s.payment_methods found in
    let same_id : pm.id ≡ id = ground (arith, is_pm) in
    let same_customer : pm.customer_id ≡ c = ground (arith, is_pm) in
    let k = set-HaveOneDefault s.next_id s.payment_methods (is_method c id) {pm = pm} h found in
    then_update id make_default (λ updated. recalculate_surcharge_on_open_invoice c >> pure updated)
      (record s { payment_methods = cleared c s.payment_methods })
      (cleared-HaveOneDefault s.next_id s.payment_methods h c)
      (λ row.
        then_keeping (recalculate_surcharge_on_open_invoice c) (λ _. pure (make_default row)) _
          (keeping (recalculate_surcharge_on_open_invoice c) _ (recalculate_keeps c) (
            subst
              (λ j.
                HaveOneDefault s.next_id
                  (update (has_id j) make_default (cleared c s.payment_methods)))
              same_id
              (subst
                (λ d.
                  HaveOneDefault s.next_id
                    (update (has_id pm.id) make_default (cleared d s.payment_methods)))
                same_customer k)))
          (λ a t. (refl, omega arith)))
