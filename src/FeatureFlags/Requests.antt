-- ===== src/FeatureFlags/Requests.antt =====
-- The table of flags implements a function from customers and names to flags.
use edge_billing_service.Base.{
  any, if◌then◌else◌, ℕ, Bool, true, false, List, [], ◌∷◌, ◌==◌, ◌≡◌, refl, ap, ◌∙◌, arith,
  Bool-cases, inl, inr,
}
use edge_billing_service.Store.Rows.{FlagName, flag_eq}
use edge_billing_service.Store.Action.{
  Error, err, transaction-err, constraint_violated, modify, >>=-ok, >>=-err, Store, Action,
  transaction, transaction-ok, ok,
}
use edge_billing_service.Store.Moves.{Moves, transaction-Moves}
use edge_billing_service.Store.Constraints.{is_known, references_customer}
use edge_billing_service.Outbound.{is_enabled}
use edge_billing_service.FeatureFlags.Stored.{flags_of, with_flag, with_flag-flags, disable-flags}
use edge_billing_service.FeatureFlags.Asked.{
  are_known, set_flag, set_flags, set_flags-agrees, FlagRequest, enable_one, disable_one,
  enable_many, disable_many, asked, all_asked, all_asked-agrees,
}
use edge_billing_service.FeatureFlags.Service.{
  upsert_flag, disable, bulk_enable, bulk_disable, enable_flag, disable_flag, enable_flag_bulk,
  disable_flag_bulk,
}

abbrev pub after_request : FlagRequest → Store → Store
after_request (enable_one c n) s = (enable_flag c n s).1
after_request (disable_one c n) s = (disable_flag c n s).1
after_request (enable_many cs n) s = (enable_flag_bulk cs n s).1
after_request (disable_many cs n) s = (disable_flag_bulk cs n s).1

abbrev pub after_requests : List FlagRequest → Store → Store
after_requests [] s = s
after_requests (r ∷ rs) s = after_requests rs (after_request r s)

upsert_flag-known :
    (c : ℕ) (n : FlagName) (v : Bool) (s : Store)
    → is_known c s ≡ true
    → upsert_flag c n v s ≡ (ok tt, with_flag c n v s)
upsert_flag-known c n v s h =
    >>=-ok (references_customer c) (λ _. modify (with_flag c n v)) s
      (ap (λ b. (if b then ok tt else err constraint_violated, s)) h)

upsert_flag-unknown :
    (c : ℕ) (n : FlagName) (v : Bool) (s : Store)
    → is_known c s ≡ false
    → upsert_flag c n v s ≡ (err constraint_violated, s)
upsert_flag-unknown c n v s h =
    >>=-err (references_customer c) (λ _. modify (with_flag c n v)) s
      (ap (λ b. (if b then ok tt else err constraint_violated, s)) h)

-- The first customer of a bulk is known, and the others follow.
bulk_enable-next :
    (c : ℕ) (cs : List ℕ) (n : FlagName) (s : Store)
    → is_known c s ≡ true
    → bulk_enable (c ∷ cs) n s ≡ bulk_enable cs n (with_flag c n true s)
bulk_enable-next c cs n s h =
    >>=-ok (upsert_flag c n true) (λ _. bulk_enable cs n) s (upsert_flag-known c n true s h)

bulk_enable-stops :
    (c : ℕ) (cs : List ℕ) (n : FlagName) (s : Store)
    → is_known c s ≡ false
    → bulk_enable (c ∷ cs) n s ≡ (err constraint_violated, s)
bulk_enable-stops c cs n s h =
    >>=-err (upsert_flag c n true) (λ _. bulk_enable cs n) s (upsert_flag-unknown c n true s h)

bulk_enable-customers :
    (cs : List ℕ) (n : FlagName) → Moves (λ s t. t.customers ≡ s.customers) (bulk_enable cs n)
bulk_enable-customers [] n s = refl
bulk_enable-customers (c ∷ cs) n s = elim (Bool-cases (is_known c s)) [
  | inl known ↦
      ap (λ r. r.1.customers) (bulk_enable-next c cs n s known)
      ∙ bulk_enable-customers cs n (with_flag c n true s)
  | inr unknown ↦ ap (λ r. r.1.customers) (bulk_enable-stops c cs n s unknown)
]

bulk_disable-customers :
    (cs : List ℕ) (n : FlagName) → Moves (λ s t. t.customers ≡ s.customers) (bulk_disable cs n)
bulk_disable-customers [] n s = refl
bulk_disable-customers (c ∷ cs) n s = bulk_disable-customers cs n (disable c n s).1

-- The bulk of known customers is stored, and any other raises.
bulk_enable-known :
    (cs : List ℕ) (n : FlagName) (s : Store)
    → are_known (λ c. is_known c s) cs ≡ true
    → (t : Store) × (bulk_enable cs n s ≡ (ok tt, t))
      × ((d : ℕ) (m : FlagName) → flags_of t d m ≡ set_flags cs n true (flags_of s) d m)
bulk_enable-known [] n s h = (s, refl, λ d m. refl)
bulk_enable-known (c ∷ cs) n s h = elim (Bool-cases (is_known c s)) [
  | inr unknown ↦ absurd (ground (arith, h, unknown))
  | inl known ↦
      let u = with_flag c n true s in
      let (t, e, rest) = bulk_enable-known cs n u (ground (arith, known, h)) in
      (
        t,
        bulk_enable-next c cs n s known ∙ e,
        λ d m.
            rest d m
            ∙ set_flags-agrees cs n true (flags_of u) (set_flag c n true (flags_of s))
                (with_flag-flags c n true s) d m,
      )
]

bulk_enable-unknown :
    (cs : List ℕ) (n : FlagName) (s : Store)
    → are_known (λ c. is_known c s) cs ≡ false
    → (x : Error) × (t : Store) × (bulk_enable cs n s ≡ (err x, t))
bulk_enable-unknown [] n s h = cc
bulk_enable-unknown (c ∷ cs) n s h = elim (Bool-cases (is_known c s)) [
  | inr unknown ↦ (constraint_violated, s, bulk_enable-stops c cs n s unknown)
  | inl known ↦
      let (x, t, e) = bulk_enable-unknown cs n (with_flag c n true s) (ground (arith, known, h)) in
      (x, t, bulk_enable-next c cs n s known ∙ e)
]

bulk_disable-flags :
    (cs : List ℕ) (n : FlagName) (s : Store)
    → (((bulk_disable cs n s).0 ≡ ok tt)
        × ((d : ℕ) (m : FlagName)
            → flags_of (bulk_disable cs n s).1 d m ≡ set_flags cs n false (flags_of s) d m))
bulk_disable-flags [] n s = (refl, λ d m. refl)
bulk_disable-flags (c ∷ cs) n s =
    let (fine, rest) = bulk_disable-flags cs n (disable c n s).1 in
    (
      fine,
      λ d m.
          rest d m
          ∙ set_flags-agrees cs n false (flags_of (disable c n s).1)
              (set_flag c n false (flags_of s)) (disable-flags c n s) d m,
    )

committed : (m : Action (Unit {0})) (s : Store) → (m s).0 ≡ ok tt → (transaction m s).1 ≡ (m s).1
committed m s e = ap (λ x. x.1) (transaction-ok m s (ap (λ r. (r, (m s).1)) e))

-- The customers are as before.
after_request-known : (r : FlagRequest) (s : Store) → (after_request r s).customers ≡ s.customers
unfolding enable_flag disable_flag enable_flag_bulk disable_flag_bulk
after_request-known (enable_one c n) s = elim (Bool-cases (is_known c s)) [
  | inl known ↦ ap (λ r. r.1.customers) (upsert_flag-known c n true s known)
  | inr unknown ↦ ap (λ r. r.1.customers) (upsert_flag-unknown c n true s unknown)
]
after_request-known (disable_one c n) s = refl
after_request-known (enable_many cs n) s =
    transaction-Moves (λ s t. t.customers ≡ s.customers) (bulk_enable cs n) (λ s. refl)
      (bulk_enable-customers cs n) s
after_request-known (disable_many cs n) s =
    transaction-Moves (λ s t. t.customers ≡ s.customers) (bulk_disable cs n) (λ s. refl)
      (bulk_disable-customers cs n) s

after_request-flags :
    (r : FlagRequest) (s : Store) (d : ℕ) (m : FlagName)
    → flags_of (after_request r s) d m ≡ asked (λ c. is_known c s) r (flags_of s) d m
unfolding enable_flag disable_flag enable_flag_bulk disable_flag_bulk
after_request-flags (enable_one c n) s d m = elim (Bool-cases (is_known c s)) [
  | inl known ↦
      ap (λ r. flags_of r.1 d m) (upsert_flag-known c n true s known)
      ∙ rw known (with_flag-flags c n true s d m)
  | inr unknown ↦
      ap (λ r. flags_of r.1 d m) (upsert_flag-unknown c n true s unknown) ∙ rw unknown refl
]
after_request-flags (disable_one c n) s d m = disable-flags c n s d m
after_request-flags (enable_many cs n) s d m =
    elim (Bool-cases (are_known (λ c. is_known c s) cs)) [
      | inl known ↦
          let (t, e, rest) = bulk_enable-known cs n s known in
          rw known (ap (λ r. flags_of r.1 d m) (transaction-ok (bulk_enable cs n) s e) ∙ rest d m)
      | inr unknown ↦
          let (x, t, e) = bulk_enable-unknown cs n s unknown in
          rw unknown (ap (λ r. flags_of r.1 d m) (transaction-err (bulk_enable cs n) s e))
    ]
after_request-flags (disable_many cs n) s d m =
    let (fine, rest) = bulk_disable-flags cs n s in
    rw (committed (bulk_disable cs n) s fine) (rest d m)

-- After any sequence of requests that set flags, one by one or in bulk, a flag is on exactly when
-- the last request for it that was carried out turned it on or, without one, when it was on before.
-- Every request is carried out but those that turn on a flag and name a customer who is not known:
-- in bulk, such a request turns on nothing for the other customers either.
pub after_requests-flags :
    (rs : List FlagRequest) (s : Store) (c : ℕ) (n : FlagName)
    → is_enabled c n (after_requests rs s) ≡ all_asked (λ k. is_known k s) rs (flags_of s) c n
after_requests-flags [] s c n = refl
after_requests-flags (r ∷ rs) s c n =
    let same : (λ k. is_known k (after_request r s)) ≡ (λ k. is_known k s) =
      ap (λ xs k. any (λ x. x.id == k) xs) (after_request-known r s) in
    after_requests-flags rs (after_request r s) c n
    ∙ ap (λ known. all_asked known rs (flags_of (after_request r s)) c n) same
    ∙ all_asked-agrees (λ k. is_known k s) rs (flags_of (after_request r s))
        (asked (λ k. is_known k s) r (flags_of s)) (after_request-flags r s) c n
