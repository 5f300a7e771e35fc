-- ===== src/FeatureFlags/Asked.antt =====
-- What a sequence of requests asks of the flags, as a function from customers and names.
use edge_billing_service.Base.{
  ℕ, Bool-cases, inl, inr, Bool, true, false, ◌&&◌, List, [], ◌∷◌, ◌==◌, ◌===◌, ◌≡◌, refl,
  if◌then◌else◌,
}
use edge_billing_service.Store.Rows.{FlagName, flag_eq}

-- A flag for each customer and name.
abbrev pub Flags : Type 0
Flags = ℕ → FlagName → Bool

abbrev pub set_flag : ℕ → FlagName → Bool → Flags → Flags
set_flag c n v flags d m = if (c == d) && (n === m) then v else flags d m

abbrev pub set_flags : List ℕ → FlagName → Bool → Flags → Flags
set_flags [] n v flags = flags
set_flags (c ∷ cs) n v flags = set_flags cs n v (set_flag c n v flags)

pub data FlagRequest : Type 0 where
  enable_one disable_one : ℕ → FlagName → FlagRequest
  enable_many disable_many : List ℕ → FlagName → FlagRequest

abbrev pub are_known : (ℕ → Bool) → List ℕ → Bool
are_known known [] = true
are_known known (c ∷ cs) = if known c then are_known known cs else false

-- What a request comes to, by which customers are known: one that turns on a flag of an unknown
-- customer does nothing, not even for the others that it names.
abbrev pub asked : (ℕ → Bool) → FlagRequest → Flags → Flags
asked known (enable_one c n) flags = if known c then set_flag c n true flags else flags
asked known (disable_one c n) flags = set_flag c n false flags
asked known (enable_many cs n) flags =
    if are_known known cs then set_flags cs n true flags else flags
asked known (disable_many cs n) flags = set_flags cs n false flags

abbrev pub all_asked : (ℕ → Bool) → List FlagRequest → Flags → Flags
all_asked known [] flags = flags
all_asked known (r ∷ rs) flags = all_asked known rs (asked known r flags)

pub set_flag-agrees :
    (c : ℕ) (n : FlagName) (v : Bool) (flags more : Flags)
    → ((d : ℕ) (m : FlagName) → flags d m ≡ more d m)
    → (d : ℕ) (m : FlagName) → set_flag c n v flags d m ≡ set_flag c n v more d m
set_flag-agrees c n v flags more h d m = rw (h d m) refl

pub set_flags-agrees :
    (cs : List ℕ) (n : FlagName) (v : Bool) (flags more : Flags)
    → ((d : ℕ) (m : FlagName) → flags d m ≡ more d m)
    → (d : ℕ) (m : FlagName) → set_flags cs n v flags d m ≡ set_flags cs n v more d m
set_flags-agrees [] n v flags more h = h
set_flags-agrees (c ∷ cs) n v flags more h =
    set_flags-agrees cs n v (set_flag c n v flags) (set_flag c n v more)
      (set_flag-agrees c n v flags more h)

asked-agrees :
    (known : ℕ → Bool) (r : FlagRequest) (flags more : Flags)
    → ((d : ℕ) (m : FlagName) → flags d m ≡ more d m)
    → (d : ℕ) (m : FlagName) → asked known r flags d m ≡ asked known r more d m
asked-agrees known (enable_one c n) flags more h d m = elim (Bool-cases (known c)) [
  | inl here ↦ rw here (set_flag-agrees c n true flags more h d m)
  | inr gone ↦ rw gone (h d m)
]
asked-agrees known (disable_one c n) flags more h d m = set_flag-agrees c n false flags more h d m
asked-agrees known (enable_many cs n) flags more h d m = elim (Bool-cases (are_known known cs)) [
  | inl here ↦ rw here (set_flags-agrees cs n true flags more h d m)
  | inr gone ↦ rw gone (h d m)
]
asked-agrees known (disable_many cs n) flags more h d m =
    set_flags-agrees cs n false flags more h d m

pub all_asked-agrees :
    (known : ℕ → Bool) (rs : List FlagRequest) (flags more : Flags)
    → ((d : ℕ) (m : FlagName) → flags d m ≡ more d m)
    → (d : ℕ) (m : FlagName) → all_asked known rs flags d m ≡ all_asked known rs more d m
all_asked-agrees known [] flags more h = h
all_asked-agrees known (r ∷ rs) flags more h =
    all_asked-agrees known rs (asked known r flags) (asked known r more)
      (asked-agrees known r flags more h)
