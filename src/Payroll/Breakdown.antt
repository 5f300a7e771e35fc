-- ===== src/Payroll/Breakdown.antt =====
-- The bonus of a cycle is one of its month and the latest of them.
use edge_billing_service.Base.{
  subst, All, Has, ◌⊎◌, ◌<◌, ◌≤◌, Bool, true, false, Option, none, some, List, [], ◌∷◌, filter,
  if◌then◌else◌, ◌≡◌, refl, sym, arith, Bool-cases, inl, inr,
}
use edge_billing_service.Calendar.Date.{Date, stamp}
use edge_billing_service.Payroll.{
  Bonus, is_later, latest, first_sorted, in_bonus_window, pick_cycle_bonus,
}

-- The first bonus stands behind the second: its month is earlier or, in one month, it was created
-- no later.
abbrev pub ComesBehind : Bonus → Bonus → Type 0
ComesBehind x b =
    (stamp x.bonus_month < stamp b.bonus_month)
    ⊎ ((stamp x.bonus_month ≡ stamp b.bonus_month) × (stamp x.created_at ≤ stamp b.created_at))

-- The bonus that is picked is one of the list and of the window, and every bonus of the window comes
-- behind it.
abbrev pub Picks : Date → List Bonus → Option Bonus → Type 0
Picks cycle bonuses none = All (λ b. in_bonus_window cycle b ≡ true → ⊥) bonuses
Picks cycle bonuses (some b) =
    Has (λ x. x ≡ b) bonuses
    × (in_bonus_window cycle b ≡ true)
    × All (λ x. in_bonus_window cycle x ≡ true → ComesBehind x b) bonuses

later_behind : (a b : Bonus) → is_later a b ≡ true → ComesBehind a b
later_behind a b h = ground arith

earlier_behind : (a b : Bonus) → is_later a b ≡ false → ComesBehind b a
earlier_behind a b h = ground arith

ComesBehind-refl : (a : Bonus) → ComesBehind a a
ComesBehind-refl a = inr (refl, omega arith)

ComesBehind-trans : (a b c : Bonus) → ComesBehind a b → ComesBehind b c → ComesBehind a c
ComesBehind-trans a b c h k = ground arith

behind_of_two :
    (a b : Bonus)
    → ComesBehind a (if is_later a b then b else a) × ComesBehind b (if is_later a b then b else a)
behind_of_two a b = elim (Bool-cases (is_later a b)) [
  | inl later ↦ rw later (later_behind a b later, ComesBehind-refl b)
  | inr earlier ↦ rw earlier (ComesBehind-refl a, earlier_behind a b earlier)
]

latest_last :
    (best : Bonus) (rest : List Bonus)
    → ComesBehind best (latest best rest) × All (λ x. ComesBehind x (latest best rest)) rest
latest_last best [] = (ComesBehind-refl best, tt)
latest_last best (b ∷ rest) =
    let next = if is_later best b then b else best in
    let (first, others) = latest_last next rest in
    let (old, new) = behind_of_two best b in
    (
      ComesBehind-trans best next (latest next rest) old first,
      (ComesBehind-trans b next (latest next rest) new first, others),
    )

latest-All :
    (P : Bonus → Type 0) (best : Bonus) (rest : List Bonus)
    → P best
    → All P rest
    → P (latest best rest)
latest-All P best [] h tail = h
latest-All P best (b ∷ rest) h (k, tail) = elim (Bool-cases (is_later best b)) [
  | inl later ↦ rw later (latest-All P b rest k tail)
  | inr earlier ↦ rw earlier (latest-All P best rest h tail)
]

latest-Has :
    (y best : Bonus) (rest : List Bonus) → latest best rest ≡ y → Has (λ x. x ≡ y) (best ∷ rest)
latest-Has y best [] e = inl e
latest-Has y best (b ∷ rest) e = elim (Bool-cases (is_later best b)) [
  | inl later ↦
      inr (latest-Has y b rest (subst (λ c. latest (if c then b else best) rest ≡ y) later e))
  | inr earlier ↦
      elim (latest-Has y best rest
        (subst (λ c. latest (if c then b else best) rest ≡ y) earlier e)) [
          | inl here ↦ inl here
          | inr there ↦ inr (inr there)
        ]
]

module _ (p : Bonus → Bool) where
  Has-filter : (Q : Bonus → Type 0) (xs : List Bonus) → Has Q (filter p xs) → Has Q xs
  Has-filter Q [] h = h
  Has-filter Q (x ∷ xs) h = elim (Bool-cases (p x)) [
    | inl kept ↦ elim (subst (λ c. Has Q (if c then x ∷ filter p xs else filter p xs)) kept h) [
      | inl here ↦ inl here
      | inr there ↦ inr (Has-filter Q xs there)
    ]
    | inr left ↦
        inr
          (Has-filter Q xs (subst (λ c. Has Q (if c then x ∷ filter p xs else filter p xs)) left h))
  ]

  filter-All : (xs : List Bonus) → All (λ x. p x ≡ true) (filter p xs)
  filter-All [] = tt
  filter-All (x ∷ xs) = elim (Bool-cases (p x)) [
    | inl kept ↦ rw kept (kept, filter-All xs)
    | inr left ↦ rw left (filter-All xs)
  ]

  All-filter :
      (Q : Bonus → Type 0) (xs : List Bonus) → All Q (filter p xs) → All (λ x. p x ≡ true → Q x) xs
  All-filter Q [] h = tt
  All-filter Q (x ∷ xs) h = elim (Bool-cases (p x)) [
    | inl kept ↦
        let (q, rest) = subst (λ c. All Q (if c then x ∷ filter p xs else filter p xs)) kept h in
        (λ _. q, All-filter Q xs rest)
    | inr left ↦ (
      λ e. ground (arith, e, left),
      All-filter Q xs (subst (λ c. All Q (if c then x ∷ filter p xs else filter p xs)) left h),
    )
  ]

chosen_from :
    (bonuses : List Bonus) (cycle : Date) (found : List Bonus)
    → filter (in_bonus_window cycle) bonuses ≡ found
    → Picks cycle bonuses (first_sorted found)
chosen_from bonuses cycle [] e =
    All-filter (in_bonus_window cycle) (λ _. ⊥) bonuses (subst (All (λ _. ⊥)) (sym e) tt)
chosen_from bonuses cycle (b ∷ rest) e =
    let p = in_bonus_window cycle in
    let (inside, others) = subst (All (λ x. p x ≡ true)) e (filter-All p bonuses) in
    (
      Has-filter p (λ x. x ≡ latest b rest) bonuses
          (subst (Has (λ x. x ≡ latest b rest)) (sym e) (latest-Has (latest b rest) b rest refl)),
      latest-All (λ x. p x ≡ true) b rest inside others,
      All-filter p (λ x. ComesBehind x (latest b rest)) bonuses
          (subst (All (λ x. ComesBehind x (latest b rest))) (sym e) (latest_last b rest)),
    )

-- In every list and for every cycle: the bonus that is picked is one of the list, of the month before the
-- cycle, and every other bonus of that month is earlier or, for the same date, was created no later;
-- none is picked only when none is of that month.
pub pick_cycle_bonus-Picks :
    (bonuses : List Bonus) (cycle : Date) → Picks cycle bonuses (pick_cycle_bonus bonuses cycle)
unfolding pick_cycle_bonus
pick_cycle_bonus-Picks bonuses cycle =
    chosen_from bonuses cycle (filter (in_bonus_window cycle) bonuses) refl
