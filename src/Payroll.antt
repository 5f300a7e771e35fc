-- ===== src/Payroll.antt =====
-- The breakdown of a payroll into the costs of its employees:
-- src/payroll/payroll-breakdown.resolver.ts. Amounts are in cents; the source divides them by 100
-- and rounds back. The rounded share of a percentage is computed in floating point and is an
-- argument, in dollars.
pub mod Breakdown
use edge_billing_service.Base.Int.{◌+ℤ◌, ◌-ℤ◌, ◌*ℤ◌, ◌≤ℤ◌}
use edge_billing_service.Base.{
  ℕ, ◌+◌, ◌-◌, ◌≤◌, ◌<◌, ltb, leb, ℤ, pos, ltb_ℤ, Bool, true, false, not, ◌&&◌, ◌||◌, Option, none,
  some, List, [], ◌∷◌, ◌==◌, filter, if◌then◌else◌, ◌≡◌, refl, arith, int_laws, Bool-cases, inl,
  inr,
}
use edge_billing_service.Calendar.Date.{Date, utc, stamp, add_months}

-- `RawDiscountConfig`
pub record DiscountConfig : Type 0 where
  pub is_discounted_employee : Bool
  pub flat_rate_cents : ℤ
  pub percentage : ℤ
  pub start_date : Option Date
  pub duration_months : Option ℕ

-- `RawPayrollEmployeeBonus`
pub record Bonus : Type 0 where
  pub bonus_month : Date
  pub bonus_cents : ℤ
  pub increment_amount_cents : ℤ
  pub created_at : Date

-- `RawPayrollEmployee`, less the name.
pub record RawEmployee : Type 0 where
  pub employee_id : ℕ
  pub salary_cents : ℤ
  pub platform_fee_cents : ℤ
  pub discount_config : Option DiscountConfig
  pub bonuses : List Bonus

-- `ResolvedEmployeeLineItem`, less the name.
pub record ResolvedEmployee : Type 0 where
  pub employee_id : ℕ
  pub customer_cost : ℤ
  pub salary : ℤ
  pub platform_fee : ℤ
  pub bonus : ℤ
  pub raise : ℤ
  pub discount : ℤ

-- `setUTCHours(0, 0, 0, 0)`
abbrev pub midnight : Date → Date
midnight d = record d { millis = 0 }

-- `validateLimitedDiscount` once the start and the duration are known: the cycle starts in the
-- months from the start on.
unfoldable pub within_months : Date → Date → ℕ → Bool
unfolding add_months
within_months cycle start months =
    leb (stamp (midnight start)) (stamp (midnight cycle))
    && ltb (stamp (midnight cycle)) (stamp (add_months (midnight start) months))

-- `validateDiscount`, with the clock.
unfoldable pub validate_discount : Date → Date → Bool → Option Date → Option ℕ → Bool
unfolding within_months
validate_discount now cycle discounted none none = discounted
validate_discount now cycle discounted (some start) none =
    discounted && leb (stamp (midnight start)) (stamp (midnight now))
validate_discount now cycle discounted none (some months) = false
validate_discount now cycle discounted (some start) (some months) =
    discounted && within_months cycle start months

-- The bonuses of the month before the cycle: `[bonusMonthStart, bonusMonthEnd)`.
abbrev pub bonus_month_start : Date → Date
bonus_month_start cycle =
    if cycle.month == 0 then utc (cycle.year - 1) 11 1 else utc cycle.year (cycle.month - 1) 1

abbrev pub in_bonus_window : Date → Bonus → Bool
in_bonus_window cycle b =
    leb (stamp (bonus_month_start cycle)) (stamp b.bonus_month)
    && ltb (stamp b.bonus_month) (stamp (utc cycle.year cycle.month 1))

-- Whether the sort puts the first bonus behind the second.
abbrev pub is_later : Bonus → Bonus → Bool
is_later a b =
    if stamp a.bonus_month == stamp b.bonus_month
    then ltb (stamp a.created_at) (stamp b.created_at)
    else ltb (stamp a.bonus_month) (stamp b.bonus_month)

-- The first element of the sorted list: the latest, the first of those that tie.
abbrev pub latest : Bonus → List Bonus → Bonus
latest best [] = best
latest best (b ∷ rest) = latest (if is_later best b then b else best) rest

abbrev pub first_sorted : List Bonus → Option Bonus
first_sorted [] = none
first_sorted (b ∷ rest) = some (latest b rest)

unfoldable pub pick_cycle_bonus : List Bonus → Date → Option Bonus
pick_cycle_bonus bonuses cycle = first_sorted (filter (in_bonus_window cycle) bonuses)

abbrev pub bonus_of : Option Bonus → ℤ
bonus_of none = pos 0
bonus_of (some b) = b.bonus_cents

abbrev pub raise_of : Option Bonus → ℤ
raise_of none = pos 0
raise_of (some b) = b.increment_amount_cents

-- `Math.ceil((percentage / 100) * platformFee)` in dollars, of the percentage and the fee in cents.
module _ (ceil_share : ℤ → ℤ → ℤ) where
  unfoldable pub calculate_percentage_discount : ℤ → ℤ → ℤ
  calculate_percentage_discount fee percentage =
      if ltb_ℤ (pos 0) percentage then pos 100 *ℤ ceil_share percentage fee else pos 0

  -- What a valid discount takes off the fee.
  unfoldable pub discount_amount : ℤ → DiscountConfig → ℤ
  unfolding calculate_percentage_discount
  discount_amount fee config =
      if ltb_ℤ (pos 0) config.flat_rate_cents
      then config.flat_rate_cents
      else calculate_percentage_discount fee config.percentage

  unfoldable pub apply_discount_to_platform_fee : Date → Date → ℤ → Option DiscountConfig → ℤ
  unfolding validate_discount discount_amount
  apply_discount_to_platform_fee now cycle fee none = fee
  apply_discount_to_platform_fee now cycle fee (some config) =
      if validate_discount now cycle config.is_discounted_employee config.start_date
        config.duration_months
      then fee -ℤ discount_amount fee config
      else fee

  unfoldable pub resolve_employee : Date → Date → RawEmployee → ResolvedEmployee
  unfolding apply_discount_to_platform_fee pick_cycle_bonus
  resolve_employee now cycle raw =
      let picked = pick_cycle_bonus raw.bonuses cycle in
      let fee =
        apply_discount_to_platform_fee now cycle raw.platform_fee_cents raw.discount_config in
      let cost = raw.salary_cents +ℤ fee +ℤ bonus_of picked in
      record {
        employee_id = raw.employee_id;
        customer_cost = cost;
        salary = raw.salary_cents;
        platform_fee = raw.platform_fee_cents;
        bonus = bonus_of picked;
        raise = raise_of picked;
        discount = cost -ℤ (raw.salary_cents +ℤ raw.platform_fee_cents +ℤ bonus_of picked);
      }

  -- The loop of `resolve`, with the total so far.
  unfoldable pub resolve : Date → Date → List RawEmployee → ℤ → List ResolvedEmployee × ℤ
  unfolding resolve_employee
  resolve now cycle [] total = ([], total)
  resolve now cycle (raw ∷ rest) total =
      let employee = resolve_employee now cycle raw in
      let later = resolve now cycle rest (total +ℤ employee.customer_cost) in
      (employee ∷ later.0, later.1)
