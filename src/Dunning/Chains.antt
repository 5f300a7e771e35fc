-- ===== src/Dunning/Chains.antt =====
-- An invoice has at most one scheduled attempt, and scheduling again does nothing.
use edge_billing_service.Base.{
  ℕ, ◌≤◌, ◌==◌, ◌===◌, ◌&&◌, not, Bool, List, [], ◌∷◌, filter, insert, length, bit,
  length-filter-insert, ◌≡◌, ◌∙◌, refl, subst, inl, inr, arith, Bool-cases, ==→eq, ==_refl,
}
use edge_billing_service.StateMachine.Status.{scheduled, skipped, attempt_eq}
use edge_billing_service.Store.Rows.{DunningAttempt}
use edge_billing_service.Store.Action.{Store, ok}
use edge_billing_service.Store.Ensures.{Returns}
use edge_billing_service.Dunning.Schedule.{
  is_of_invoice, find_non_skipped, scheduled_attempt, schedule_attempt, schedule_dunning_attempt,
  add_days, day_at,
}

-- The scheduled attempts of an invoice.
abbrev pub scheduled_of : ℕ → List DunningAttempt → List DunningAttempt
scheduled_of invoice_id = filter (λ a. is_of_invoice invoice_id a && (a.status === scheduled))

-- A scheduled attempt is not skipped.
scheduled_le :
    (id : ℕ) (rows : List DunningAttempt)
    → length (scheduled_of id rows) ≤ length (find_non_skipped id rows)
scheduled_le id [] = omega arith
scheduled_le id (a ∷ rows) = ground (arith, scheduled_le id rows)

bit_le : (c : Bool) → bit c ≤ 1
bit_le c = ground arith

-- The rows with a new scheduled attempt of an invoice that had none but skipped ones.
module _ (a : DunningAttempt) (rows : List DunningAttempt) (is_scheduled : a.status ≡ scheduled)
    (none_left : length (find_non_skipped a.invoice_id rows) ≡ 0) where
  non_skipped-insert : length (find_non_skipped a.invoice_id (insert a rows)) ≡ 1
  non_skipped-insert =
      length-filter-insert (λ x. is_of_invoice a.invoice_id x && not (x.status === skipped)) a rows
      ∙ rw (none_left, is_scheduled, ==_refl a.invoice_id) refl

  scheduled-insert :
      (j : ℕ) → length (scheduled_of j rows) ≤ 1 → length (scheduled_of j (insert a rows)) ≤ 1
  scheduled-insert j h =
      let more = length-filter-insert (λ x. is_of_invoice j x && (x.status === scheduled)) a rows in
      elim (Bool-cases (a.invoice_id == j)) [
        | inl same ↦
            let empty : length (scheduled_of j rows) ≡ 0 =
              subst (λ n. length (scheduled_of n rows) ≡ 0) (==→eq a.invoice_id j same)
                (omega (arith, scheduled_le a.invoice_id rows, none_left)) in
            omega (arith, more, empty, bit_le (is_of_invoice j a && (a.status === scheduled)))
        | inr other ↦
            let no_more : bit (is_of_invoice j a && (a.status === scheduled)) ≡ 0 = rw other refl in
            omega (arith, more, no_more, h)
      ]

-- What scheduling has done: no invoice that had at most one scheduled attempt has more now, the
-- invoice has an attempt that is not skipped, and scheduling again does nothing.
abbrev pub Schedules : List ℕ → ℕ → Store → Store → Type 0
Schedules retry_schedule_days id s t =
    ((j : ℕ)
      → length (scheduled_of j s.dunning_attempts) ≤ 1
      → length (scheduled_of j t.dunning_attempts) ≤ 1)
    × (1 ≤ length (find_non_skipped id t.dunning_attempts))
    × (schedule_dunning_attempt retry_schedule_days id t ≡ (ok tt, t))

-- In every state scheduling returns; an invoice keeps at most one scheduled attempt, the given one has
-- an attempt that is not skipped, and scheduling it again changes nothing.
pub schedule_dunning-Schedules :
    (retry_schedule_days : List ℕ) (id : ℕ) (s : Store)
    → Returns
        (λ _ t. Schedules retry_schedule_days id s t)
        (schedule_dunning_attempt retry_schedule_days id s)
unfolding schedule_dunning_attempt schedule_attempt
schedule_dunning-Schedules retry_schedule_days id s =
    elim (Bool-cases (length (find_non_skipped id s.dunning_attempts) == 0)) [
      | inl none_left ↦ rw none_left (
          let a =
            scheduled_attempt s.next_id id 1 (add_days (day_at 0 retry_schedule_days) s.clock) in
          let empty = ==→eq (length (find_non_skipped id s.dunning_attempts)) 0 none_left in
          let one = non_skipped-insert a s.dunning_attempts refl empty in
          (scheduled-insert a s.dunning_attempts refl empty, omega (arith, one), rw one refl))
      | inr planned ↦ rw planned (λ j h. h, ground (arith, planned), rw planned refl)
    ]
