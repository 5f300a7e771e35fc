-- ===== src/Customers/Service.antt =====
-- `createFromEvent` and `updateFromEvent` of src/customers/customers.service.ts, with the queries of
-- src/customers/customers.repository.ts. The gateway is an argument. The metadata and the status of
-- a customer are left out, but for whether an event has metadata.
use Prim.Native.String.{String}
use edge_billing_service.Base.{
  ℕ, Bool, true, false, ◌||◌, Option, none, some, ◌==◌, find, insert, update,
}
use edge_billing_service.Store.Rows.{Customer}
use edge_billing_service.Store.Action.{
  Store, Action, Result, ok, err, pure, gets, or_raise, modify, when, call, generate_id,
  customer_not_found, row_expected, ◌>>=◌, ◌>>◌,
}

-- `CustomerCreatedPayload`
pub record CreatedPayload : Type 0 where
  pub monolith_id : ℕ
  pub name : String
  pub email : String
  pub charge_day : Option ℕ
  pub is_prepaid : Option Bool

-- `CustomerUpdatedPayload`
pub record UpdatedPayload : Type 0 where
  pub monolith_id : ℕ
  pub name : Option String
  pub email : Option String
  pub has_metadata : Bool

-- What the gateway answers: the identifier of a new customer there, by the email, the name and both
-- identifiers, or an error; and whether an update is taken.
pub record CustomerGateway : Type 0 where
  pub create_customer : String → String → ℕ → ℕ → Result ℕ
  pub update_customer : ℕ → Option String → Option String → Result (Unit {0})

-- `??`
abbrev pub or_else : {A : Type 0} → Option A → A → A
or_else none a = a
or_else (some b) a = b

-- `findByMonolithId`
abbrev pub find_by_monolith_id : ℕ → Store → Option Customer
find_by_monolith_id monolith_id s = find (λ c. c.monolith_id == monolith_id) s.customers

abbrev pub customer_row : ℕ → ℕ → CreatedPayload → Customer
customer_row id stripe_id p = record {
  id = id;
  monolith_id = p.monolith_id;
  name = p.name;
  email = p.email;
  stripe_customer_id = some stripe_id;
  charge_day = or_else p.charge_day 1;
  is_prepaid = or_else p.is_prepaid true;
}

-- The columns of an event that are there.
abbrev pub renamed : UpdatedPayload → Customer → Customer
renamed p c = record c { name = or_else p.name c.name; email = or_else p.email c.email }

-- `update`: raises when there is no such row; the row as it is after.
abbrev pub update_customer : ℕ → (Customer → Customer) → Action Customer
update_customer id f s = elim (find (λ c. c.id == id) s.customers) [
  | none ↦ (err row_expected, s)
  | some c ↦ (ok (f c), record s { customers = update (λ c. c.id == id) f s.customers })
]

abbrev pub is_given : {A : Type 0} → Option A → Bool
is_given none = false
is_given (some a) = true

module _ (gateway : CustomerGateway) where
  -- A new customer, at the gateway first.
  unfoldable pub create_new : CreatedPayload → Action Customer
  create_new p = do
    id ← generate_id
    stripe_id ← call (gateway.create_customer p.email p.name id p.monolith_id)
    modify (λ s. record s { customers = insert (customer_row id stripe_id p) s.customers })
    pure (customer_row id stripe_id p)

  unfoldable pub create_unless : CreatedPayload → Option Customer → Action Customer
  unfolding create_new
  create_unless p none = create_new p
  create_unless p (some existing) = pure existing

  -- `createFromEvent`
  unfoldable pub create_from_event : CreatedPayload → Action Customer
  unfolding create_unless
  create_from_event p s = create_unless p (find_by_monolith_id p.monolith_id s) s

  -- The gateway is told of a change that it stores, where it has the customer.
  abbrev pub tell_gateway : UpdatedPayload → Option ℕ → Action (Unit {0})
  tell_gateway p none = pure tt
  tell_gateway p (some stripe_id) =
      when (is_given p.name || is_given p.email || p.has_metadata)
        (call (gateway.update_customer stripe_id p.email p.name))

  -- `updateFromEvent`
  unfoldable pub update_from_event : UpdatedPayload → Action Customer
  update_from_event p = do
    found ← gets (find_by_monolith_id p.monolith_id)
    existing ← or_raise found (customer_not_found p.monolith_id)
    tell_gateway p existing.stripe_customer_id
    update_customer existing.id (renamed p)
