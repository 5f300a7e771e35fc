-- ===== src/Refunds/Limits.antt =====
-- Refunds and the charge: succeeded refunds stay within the amount of the charge.
use Prim.Native.String.{String}
use edge_billing_service.Base.Int.{◌≤ℤ◌}
use edge_billing_service.Base.{
  find-holds, ==→eq, ℕ, ℤ, pos, ◌+ℤ◌, ◌==◌, ◌===◌, ◌&&◌, ◌≡◌, sym, subst, ap, ◌∙◌, List, [], ◌∷◌,
  find, insert, int_laws, none, some, Bool-cases, inl, inr, if◌then◌else◌,
}
use edge_billing_service.StateMachine.Status.{RefundStatus, refund_eq, charge_eq}
use edge_billing_service.Store.Rows.{Charge, Refund}
use edge_billing_service.Store.Action.{Store, Error, Result}
use edge_billing_service.Refunds.Outcome.{refunded, IsFresh, create_refund-Refunds}
use edge_billing_service.Refunds.Service.{RefundInput, create_refund}

refunded-insert :
    (n : ℕ) (row : Refund) (rows : List Refund)
    → refunded n (insert row rows)
      ≡ refunded n rows
        +ℤ (if (row.charge_id == n) && (row.status === RefundStatus.succeeded)
            then row.amount_cents
            else pos 0)
refunded-insert n row [] = grind int_laws
refunded-insert n row (x ∷ rows) = grind (int_laws, refunded-insert n row rows)

-- One more row keeps a limit, if there is room for it where it counts.
insert-within :
    (n : ℕ) (row : Refund) (rows : List Refund) (limit : ℤ)
    → refunded n rows ≤ℤ limit
    → (row.charge_id ≡ n → refunded n rows +ℤ row.amount_cents ≤ℤ limit)
    → refunded n (insert row rows) ≤ℤ limit
insert-within n row rows limit h room = elim (Bool-cases (row.charge_id == n)) [
  | inl its ↦
      let more = room (==→eq row.charge_id n its) in
      grind (int_laws, refunded-insert n row rows, its, more, h)
  | inr not_its ↦ grind (int_laws, refunded-insert n row rows, not_its, h)
]

module _ (gateway : ℕ → ℤ → ℕ → Result ℕ) (message : Error → String) where
  -- Where the succeeded refunds of a charge are within its amount, and the next identifier is above
  -- those of the refunds, they are so after any call of `createRefund`, whatever its input and
  -- whatever the gateway answers.
  pub refunds_within_charge :
      (input : RefundInput) (key correlation : ℕ) (s : Store) (n : ℕ) (charge : Charge)
      → IsFresh s
      → find (λ c. c.id == n) s.charges ≡ some charge
      → refunded n s.refunds ≤ℤ charge.amount_cents
      → refunded n (create_refund gateway message input key correlation s).1.refunds
        ≤ℤ charge.amount_cents
  refunds_within_charge input key correlation s n charge fresh found within =
      elim (create_refund-Refunds gateway message input key correlation s fresh) [
        | inl (same, ledger) ↦ rw same within
        | inr (target, found_target, room, row, its_charge, its_amount, (rows, ended)) ↦
            let its_input : target.id ≡ input.charge_id =
              ==→eq target.id input.charge_id
                (find-holds (λ c. c.id == input.charge_id) s.charges found_target) in
            rw rows (
              insert-within n row s.refunds charge.amount_cents within (λ e.
                let at : n ≡ target.id = sym e ∙ its_charge in
                let both : some charge ≡ some target =
                  sym found
                  ∙ ap (λ z. find (λ c. c.id == z) s.charges) (at ∙ its_input)
                  ∙ found_target in
                let limit : charge.amount_cents ≡ target.amount_cents =
                  ap (λ o. elim o [ none ↦ pos 0 | some c ↦ c.amount_cents ]) both in
                subst (λ z. refunded n s.refunds +ℤ row.amount_cents ≤ℤ z) (sym limit)
                  (subst (λ z. refunded n s.refunds +ℤ z ≤ℤ target.amount_cents) (sym its_amount)
                    (subst (λ z. refunded z s.refunds +ℤ input.amount_cents ≤ℤ target.amount_cents)
                      (sym at) room))))
      ]
