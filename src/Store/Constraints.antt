-- ===== src/Store/Constraints.antt =====
-- The foreign keys to the customers, by which the database refuses a row.
use edge_billing_service.Base.{ℕ, Bool, ◌==◌, any, if◌then◌else◌}
use edge_billing_service.Store.Action.{Store, Action, ok, err, constraint_violated}

abbrev pub is_known : ℕ → Store → Bool
is_known customer_id s = any (λ c. c.id == customer_id) s.customers

-- `.references(() => customers.id)`
abbrev pub references_customer : ℕ → Action (Unit {0})
references_customer customer_id s =
    (if is_known customer_id s then ok tt else err constraint_violated, s)
