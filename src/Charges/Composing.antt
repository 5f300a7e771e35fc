-- ===== src/Charges/Composing.antt =====
-- The relation of a payment composes with calls that leave the books as they are.
use edge_billing_service.Base.{ℕ, ◌==◌, ◌≡◌, subst, inl, inr, some, find}
use edge_billing_service.Store.Action.{Store, Action, ◌>>=◌}
use edge_billing_service.Store.Moves.{Moves, bind-Moves}
use edge_billing_service.Charges.Books.{SameBooks, SameBooks-trans}
use edge_billing_service.Charges.Settling.{paid_then_same, same_then_paid}
use edge_billing_service.Charges.Payment.{PaysOrKeeps}

-- The rules for the relation `PaysOrKeeps` of an invoice.
module _ (id : ℕ) where
  pub keeps_then_pays : (s t u : Store) → SameBooks s t → PaysOrKeeps id t u → PaysOrKeeps id s u
  keeps_then_pays s t u h (inl k) = inl (SameBooks-trans s t u h k)
  keeps_then_pays s t u h (inr (inv, found, p)) = inr (
    inv,
    subst (λ rows. find (λ r. r.id == id) rows ≡ some inv) h.0 found,
    same_then_paid id inv.status inv.total_amount_cents s t u h p,
  )

  pub pays_then_keeps : (s t u : Store) → PaysOrKeeps id s t → SameBooks t u → PaysOrKeeps id s u
  pays_then_keeps s t u (inl h) k = inl (SameBooks-trans s t u h k)
  pays_then_keeps s t u (inr (inv, found, p)) k =
      inr (inv, found, paid_then_same id inv.status inv.total_amount_cents s t u p k)

  pub after_same :
      {A B : Type 0} (m : Action A) (f : A → Action B)
      → Moves SameBooks m
      → ((a : A) → Moves (PaysOrKeeps id) (f a))
      → Moves (PaysOrKeeps id) (m >>= f)
  after_same =
      bind-Moves SameBooks (PaysOrKeeps id) (PaysOrKeeps id) (λ s t h. inl h) keeps_then_pays

  pub before_same :
      {A B : Type 0} (m : Action A) (f : A → Action B)
      → Moves (PaysOrKeeps id) m
      → ((a : A) → Moves SameBooks (f a))
      → Moves (PaysOrKeeps id) (m >>= f)
  before_same = bind-Moves (PaysOrKeeps id) SameBooks (PaysOrKeeps id) (λ s t h. h) pays_then_keeps
