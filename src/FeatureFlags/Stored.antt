-- ===== src/FeatureFlags/Stored.antt =====
-- What storing the row of a flag does to the flags of all customers.
use edge_billing_service.Base.{
  ℕ, Bool, true, false, ◌&&◌, Option, none, some, ◌==◌, ◌===◌, ◌≡◌, refl, sym, ap, ◌∙◌, ◌⊎◌, find,
  map_row, arith, Bool-cases, inl, inr, find-update, find-update_self,
}
use edge_billing_service.Base.Upsert.{upsert, put_row, find-upsert, find-upsert_other, find-changed}
use edge_billing_service.Store.Rows.{FlagName, FeatureFlag, flag_eq}
use edge_billing_service.Store.Action.{Store}
use edge_billing_service.Outbound.{is_enabled}
use edge_billing_service.FeatureFlags.Asked.{Flags, set_flag}
use edge_billing_service.FeatureFlags.Service.{is_flag, set_enabled, disable}

abbrev pub flags_of : Store → Flags
flags_of s customer_id name = is_enabled customer_id name s

abbrev is_on : Option FeatureFlag → Bool
is_on none = false
is_on (some f) = f.enabled

is_enabled-is_on :
    (c : ℕ) (n : FlagName) (s : Store)
    → is_enabled c n s ≡ is_on (find (is_flag c n) s.feature_flags)
is_enabled-is_on c n s = cases (find (is_flag c n) s.feature_flags)
  where
    cases : (o : Option FeatureFlag) → elim o [ none ↦ false | some f ↦ f.enabled ] ≡ is_on o
    cases none = refl
    cases (some f) = refl

-- Two pairs of a customer and a name are one pair or select different rows.
one_or_other :
    (c d : ℕ) (n m : FlagName)
    → (((c == d) && (n === m) ≡ true) × (c ≡ d) × (n ≡ m))
      ⊎ (((c == d) && (n === m) ≡ false)
          × ((f : FeatureFlag) → is_flag d m f ≡ true → is_flag c n f ≡ false))
one_or_other c d n m = elim (Bool-cases ((c == d) && (n === m))) [
  | inl one ↦ inl (one, ground arith, (flag_eq.same_iff n m).0 (ground arith))
  | inr other ↦ inr (other, λ f h. ground arith)
]

is_on-put :
    (c : ℕ) (n : FlagName) (v : Bool) (o : Option FeatureFlag)
    → is_on (put_row (set_enabled v) (record { customer_id = c; name = n; enabled = v }) o) ≡ v
is_on-put c n v none = refl
is_on-put c n v (some f) = refl

is_flag-new :
    (c : ℕ) (n : FlagName) (v : Bool)
    → is_flag c n (record { customer_id = c; name = n; enabled = v }) ≡ true
is_flag-new c n v = ground arith

is_on-disabled : (o : Option FeatureFlag) → is_on (map_row (set_enabled false) o) ≡ false
is_on-disabled none = refl
is_on-disabled (some f) = refl

-- The state with the row of a flag.
abbrev pub with_flag : ℕ → FlagName → Bool → Store → Store
with_flag c n v s = record s {
  feature_flags =
      upsert (is_flag c n) (set_enabled v) (record { customer_id = c; name = n; enabled = v })
        s.feature_flags;
}

pub with_flag-flags :
    (c : ℕ) (n : FlagName) (v : Bool) (s : Store) (d : ℕ) (m : FlagName)
    → flags_of (with_flag c n v s) d m ≡ set_flag c n v (flags_of s) d m
with_flag-flags c n v s d m =
    let new : FeatureFlag = record { customer_id = c; name = n; enabled = v } in
    let fs = s.feature_flags in
    is_enabled-is_on d m (with_flag c n v s) ∙ elim (one_or_other c d n m) [
      | inl (one, same, also) ↦
          rw (one, sym same, sym also)
            (ap is_on
                (find-upsert (is_flag c n) (set_enabled v) new (is_flag-new c n v) (λ x. refl) fs)
              ∙ is_on-put c n v (find (is_flag c n) fs))
      | inr (other, apart) ↦ rw other (
          ap is_on (
            find-upsert_other (is_flag d m) (is_flag c n) (set_enabled v) new
              (ground (arith, apart new, is_flag-new c n v)) (λ x. refl) apart fs)
          ∙ sym (is_enabled-is_on d m s))
    ]

pub disable-flags :
    (c : ℕ) (n : FlagName) (s : Store) (d : ℕ) (m : FlagName)
    → flags_of (disable c n s).1 d m ≡ set_flag c n false (flags_of s) d m
disable-flags c n s d m =
    let fs = s.feature_flags in
    is_enabled-is_on d m (disable c n s).1 ∙ elim (one_or_other c d n m) [
      | inl (one, same, also) ↦
          rw (one, sym same, sym also)
            (ap is_on (find-update_self (is_flag c n) (set_enabled false) (λ x. refl) fs)
              ∙ is_on-disabled (find (is_flag c n) fs))
      | inr (other, apart) ↦ rw other (
          ap is_on (
            find-update (is_flag d m) (is_flag c n) (set_enabled false) (λ x. refl) fs
            ∙ find-changed (is_flag d m) (is_flag c n) (set_enabled false) apart fs)
          ∙ sym (is_enabled-is_on d m s))
    ]
