-- ===== src/Surcharges/Requests.antt =====
-- The table of settings implements a function from customers to settings.
use edge_billing_service.Base.{
  any, subst, Bool, true, false, ◌&&◌, ℕ, Option, none, some, List, [], ◌∷◌, ◌==◌, ◌≡◌, refl, sym,
  ap, ◌∙◌, find, delete, if◌then◌else◌, arith, Bool-cases, inl, inr, ==→eq,
}
use edge_billing_service.Base.Upsert.{upsert, put_row, find-upsert, find-upsert_other}
use edge_billing_service.Store.Rows.{SurchargeConfig}
use edge_billing_service.Store.Constraints.{is_known, references_customer}
use edge_billing_service.Store.Action.{
  Store, ok, err, constraint_violated, modify, pure, >>=-ok, >>=-err, ◌>>◌,
}
use edge_billing_service.Surcharges.Service.{
  ConfigInput, is_config_of, config_row, set_config, get_config, upsert_config, delete_config,
}

pub data ConfigRequest : Type 0 where
  put_config : ℕ → ConfigInput → ConfigRequest
  drop_config : ℕ → ConfigRequest

abbrev pub after_request : ConfigRequest → Store → Store
after_request (put_config c dto) s = (upsert_config c dto s).1
after_request (drop_config c) s = (delete_config c s).1

abbrev pub after_requests : List ConfigRequest → Store → Store
after_requests [] s = s
after_requests (r ∷ rs) s = after_requests rs (after_request r s)

-- What a customer has after a request, by what there was before and whether it is known.
abbrev pub asked : Bool → ConfigRequest → ℕ → Option SurchargeConfig → Option SurchargeConfig
asked known (put_config c dto) d old = if (c == d) && known then some (config_row c dto) else old
asked known (drop_config c) d old = if c == d then none else old

abbrev pub all_asked :
    Bool → List ConfigRequest → ℕ → Option SurchargeConfig → Option SurchargeConfig
all_asked known [] d old = old
all_asked known (r ∷ rs) d old = all_asked known rs d (asked known r d old)

put_row-config :
    (c : ℕ) (dto : ConfigInput) (xs : List SurchargeConfig)
    → put_row (set_config dto) (config_row c dto) (find (is_config_of c) xs)
      ≡ some (config_row c dto)
put_row-config c dto [] = refl
put_row-config c dto (x ∷ xs) = elim (Bool-cases (is_config_of c x)) [
  | inl here ↦ rw (here, ==→eq x.customer_id c here) refl
  | inr other ↦ rw other (put_row-config c dto xs)
]

find-delete :
    (c d : ℕ) (xs : List SurchargeConfig)
    → find (is_config_of d) (delete (is_config_of c) xs)
      ≡ (if c == d then none else find (is_config_of d) xs)
find-delete c d [] = ground arith
find-delete c d (x ∷ xs) = ground (arith, find-delete c d xs)

-- The state with the settings of a customer.
abbrev with_config : ℕ → ConfigInput → Store → Store
with_config c dto s = record s {
  surcharge_configs =
      upsert (is_config_of c) (set_config dto) (config_row c dto) s.surcharge_configs;
}

with_config-get :
    (c : ℕ) (dto : ConfigInput) (s : Store) (d : ℕ)
    → get_config d (with_config c dto s)
      ≡ (if c == d then some (config_row c dto) else get_config d s)
with_config-get c dto s d = elim (Bool-cases (c == d)) [
  | inl same ↦
      rw (same, sym (==→eq c d same))
        (find-upsert (is_config_of c) (set_config dto) (config_row c dto) (ground arith) (λ x. refl)
            s.surcharge_configs
          ∙ put_row-config c dto s.surcharge_configs)
  | inr other ↦ rw other (
      find-upsert_other (is_config_of d) (is_config_of c) (set_config dto) (config_row c dto) other
        (λ x. refl) (λ x h. ground arith) s.surcharge_configs)
]

upsert_config-known :
    (c : ℕ) (dto : ConfigInput) (s : Store)
    → is_known c s ≡ true
    → upsert_config c dto s ≡ (ok (config_row c dto), with_config c dto s)
unfolding upsert_config
upsert_config-known c dto s h =
    let stored : (references_customer c >> modify (with_config c dto)) s
        ≡ (ok tt, with_config c dto s) =
      >>=-ok (references_customer c) (λ _. modify (with_config c dto)) s
        (ap (λ b. (if b then ok tt else err constraint_violated, s)) h) in
    >>=-ok (references_customer c >> modify (with_config c dto)) (λ _. pure (config_row c dto)) s
      stored

upsert_config-unknown :
    (c : ℕ) (dto : ConfigInput) (s : Store)
    → is_known c s ≡ false
    → upsert_config c dto s ≡ (err constraint_violated, s)
unfolding upsert_config
upsert_config-unknown c dto s h =
    let refused : (references_customer c >> modify (with_config c dto)) s
        ≡ (err constraint_violated, s) =
      >>=-err (references_customer c) (λ _. modify (with_config c dto)) s
        (ap (λ b. (if b then ok tt else err constraint_violated, s)) h) in
    >>=-err (references_customer c >> modify (with_config c dto)) (λ _. pure (config_row c dto)) s
      refused

upsert_config-get :
    (c : ℕ) (dto : ConfigInput) (s : Store) (d : ℕ)
    → get_config d (upsert_config c dto s).1
      ≡ asked (is_known d s) (put_config c dto) d (get_config d s)
upsert_config-get c dto s d = elim (Bool-cases (is_known c s)) [
  | inl known ↦
      ap (λ r. get_config d r.1) (upsert_config-known c dto s known)
      ∙ with_config-get c dto s d
      ∙ choose (λ same. subst (λ k. is_known k s ≡ true) (==→eq c d same) known)
  | inr unknown ↦
      ap (λ r. get_config d r.1) (upsert_config-unknown c dto s unknown)
      ∙ keep (λ same. subst (λ k. is_known k s ≡ false) (==→eq c d same) unknown)
]
  where
    choose :
        ((c == d) ≡ true → is_known d s ≡ true)
        → (if c == d then some (config_row c dto) else get_config d s)
          ≡ asked (is_known d s) (put_config c dto) d (get_config d s)
    choose h = elim (Bool-cases (c == d)) [
      | inl same ↦ rw (same, h same) refl
      | inr other ↦ rw other refl
    ]

    keep :
        ((c == d) ≡ true → is_known d s ≡ false)
        → get_config d s ≡ asked (is_known d s) (put_config c dto) d (get_config d s)
    keep h = elim (Bool-cases (c == d)) [
      | inl same ↦ rw (same, h same) refl
      | inr other ↦ rw other refl
    ]

after_request-get :
    (r : ConfigRequest) (s : Store) (d : ℕ)
    → get_config d (after_request r s) ≡ asked (is_known d s) r d (get_config d s)
unfolding delete_config
after_request-get (put_config c dto) s d = upsert_config-get c dto s d
after_request-get (drop_config c) s d = find-delete c d s.surcharge_configs

after_request-customers :
    (r : ConfigRequest) (s : Store) → (after_request r s).customers ≡ s.customers
unfolding delete_config
after_request-customers (put_config c dto) s = elim (Bool-cases (is_known c s)) [
  | inl known ↦ ap (λ r. r.1.customers) (upsert_config-known c dto s known)
  | inr unknown ↦ ap (λ r. r.1.customers) (upsert_config-unknown c dto s unknown)
]
after_request-customers (drop_config c) s = refl

-- After any sequence of settings that are stored and deleted, a known customer has the settings of the
-- last request for it: those that were stored, none where they were deleted and, without a request,
-- those of before. For a customer who is not known, nothing is stored.
pub after_requests-get :
    (rs : List ConfigRequest) (s : Store) (c : ℕ)
    → get_config c (after_requests rs s) ≡ all_asked (is_known c s) rs c (get_config c s)
after_requests-get [] s c = refl
after_requests-get (r ∷ rs) s c =
    after_requests-get rs (after_request r s) c
    ∙ ap (λ xs. all_asked (any (λ x. x.id == c) xs) rs c (get_config c (after_request r s)))
        (after_request-customers r s)
    ∙ ap (all_asked (is_known c s) rs c) (after_request-get r s c)
