-- ===== src/Customers/Events.antt =====
-- Each customer of the monolith has one row, and keeps it, through the events of the monolith.
use edge_billing_service.Base.{
  ℕ, Option, none, some, List, [], ◌∷◌, ◌==◌, ◌≡◌, refl, sym, ap, ◌∙◌, subst, find, insert, inl,
  inr, find-insert, ==_refl, Bool-cases, ◌||◌,
}
use edge_billing_service.Store.Rows.{Customer}
use edge_billing_service.Store.Action.{
  Store, Action, Result, Error, ok, err, customer_not_found, outcome, >>=-ok, >>=-err, ◌>>=◌, ◌>>◌,
  or_raise,
}
use edge_billing_service.Customers.Service.{
  CreatedPayload, UpdatedPayload, CustomerGateway, find_by_monolith_id, customer_row, renamed,
  update_customer, create_new, create_unless, create_from_event, tell_gateway, update_from_event,
  is_given,
}
use edge_billing_service.Customers.Rows.{
  has_monolith_id, Keeps, same-Keeps, Keeps-trans, insert-AreDistinct, insert-StaysAs,
  update-AreDistinct, update-StaysAs,
}

-- What a creation leaves: on success the customer that it returns, which it has not changed if it
-- was there before and which a later creation for the same customer of the monolith returns again.
abbrev pub Creates : CreatedPayload → Store → Result Customer × Store → Type 0
Creates p s (ok c, t) =
    (find_by_monolith_id p.monolith_id t ≡ some c)
    × Keeps s t
    × ((before : Customer)
        → find_by_monolith_id p.monolith_id s ≡ some before
        → (c ≡ before) × (t ≡ s))
    × ((g : CustomerGateway) (q : CreatedPayload)
        → q.monolith_id ≡ p.monolith_id
        → create_from_event g q t ≡ (ok c, t))
Creates p s (err x, t) = t.customers ≡ s.customers

again :
    (p : CreatedPayload) (c : Customer) (t : Store) (g : CustomerGateway) (q : CreatedPayload)
    → find_by_monolith_id p.monolith_id t ≡ some c
    → q.monolith_id ≡ p.monolith_id
    → create_from_event g q t ≡ (ok c, t)
unfolding create_from_event create_unless
again p c t g q found same = rw (same, found) refl

or_raise-same : {A : Type 0} (o : Option A) (x : Error) (s : Store) → (or_raise o x s).1 ≡ s
or_raise-same none x s = refl
or_raise-same (some a) x s = refl

module _ (gateway : CustomerGateway) where
  create_new-Creates :
      (p : CreatedPayload) (s : Store) (r : Result ℕ)
      → gateway.create_customer p.email p.name s.next_id p.monolith_id ≡ r
      → find_by_monolith_id p.monolith_id s ≡ none
      → Creates p s (create_new gateway p s)
  unfolding create_new
  create_new-Creates p s (err x) e absent = rw e refl
  create_new-Creates p s (ok stripe_id) e absent =
      let c = customer_row s.next_id stripe_id p in
      let found : find (has_monolith_id p.monolith_id) (insert c s.customers) ≡ some c =
        find-insert (has_monolith_id p.monolith_id) c s.customers
        ∙ rw (absent, ==_refl p.monolith_id) refl in
      rw e (
        found,
        (record {
          distinct = insert-AreDistinct c s.customers absent;
          stays = insert-StaysAs c s.customers;
        }),
        (λ before known. cc),
        λ g q same. again p c _ g q found same,
      )

  create_unless-Creates :
      (p : CreatedPayload) (s : Store) (o : Option Customer)
      → find_by_monolith_id p.monolith_id s ≡ o
      → Creates p s (create_unless gateway p o s)
  unfolding create_unless
  create_unless-Creates p s none e =
      create_new-Creates p s (gateway.create_customer p.email p.name s.next_id p.monolith_id) refl e
  create_unless-Creates p s (some c) e =
      (e, same-Keeps s s refl, (λ before known. (cc, refl)), λ g q same. again p c s g q e same)

  -- A creation that returns has stored the customer that it returns, which it has not changed if
  -- the customer of the monolith was known; rows that were distinct stay so, and every customer
  -- that was known keeps its identifiers, its day of the charge and whether it is prepaid. A later
  -- creation for that customer, whatever else it says and whatever the gateway answers, returns
  -- the same row and changes nothing. A creation that raises has stored no customer.
  pub create_from_event-Creates :
      (p : CreatedPayload) (s : Store) → Creates p s (create_from_event gateway p s)
  unfolding create_from_event
  create_from_event-Creates p s =
      create_unless-Creates p s (find_by_monolith_id p.monolith_id s) refl

  Creates-Keeps :
      (p : CreatedPayload) (s : Store) (r : Result Customer × Store) → Creates p s r → Keeps s r.1
  Creates-Keeps p s (ok c, t) h = h.1
  Creates-Keeps p s (err x, t) h = same-Keeps s t h

  update_customer-Keeps :
      (id : ℕ) (p : UpdatedPayload) (s : Store) (o : Option Customer)
      → find (λ c. c.id == id) s.customers ≡ o
      → Keeps s (update_customer id (renamed p) s).1
  update_customer-Keeps id p s none e = rw (update_customer, e) (same-Keeps s s refl)
  update_customer-Keeps id p s (some c) e =
      rw (update_customer, e)
        (record {
          distinct = update-AreDistinct (λ c. c.id == id) p s.customers;
          stays = update-StaysAs (λ c. c.id == id) p s.customers;
        })

  tell_gateway-same :
      (p : UpdatedPayload) (o : Option ℕ) (s : Store) → (tell_gateway gateway p o s).1 ≡ s
  tell_gateway-same p none s = refl
  tell_gateway-same p (some k) s =
      elim (Bool-cases (is_given p.name || is_given p.email || p.has_metadata)) [
        | inl told ↦ rw (tell_gateway, told) refl
        | inr silent ↦ rw (tell_gateway, silent) refl
      ]

  then_Keeps :
      {A : Type 0} (m : Action A) (f : A → Action Customer) (s : Store)
      → (m s).1 ≡ s
      → ((a : A) → Keeps s (f a s).1)
      → Keeps s ((m >>= f) s).1
  then_Keeps m f s same h = elim (outcome (m s)) [
    | inl (a, t, e) ↦
        let stay : t ≡ s = sym (ap (λ r. r.1) e) ∙ same in
        subst (λ r. Keeps s r.1) (sym (>>=-ok m f s e))
          (subst (λ u. Keeps s (f a u).1) (sym stay) (h a))
    | inr (x, t, e) ↦
        let stay : t ≡ s = sym (ap (λ r. r.1) e) ∙ same in
        subst (λ r. Keeps s r.1) (sym (>>=-err m f s e))
          (same-Keeps s t (ap (λ u. u.customers) stay))
  ]

  update_from_event-Keeps :
      (p : UpdatedPayload) (s : Store) → Keeps s (update_from_event gateway p s).1
  unfolding update_from_event
  update_from_event-Keeps p s =
      then_Keeps (or_raise (find_by_monolith_id p.monolith_id s) (customer_not_found p.monolith_id))
        (λ c. tell_gateway gateway p c.stripe_customer_id >> update_customer c.id (renamed p)) s
        (or_raise-same (find_by_monolith_id p.monolith_id s) (customer_not_found p.monolith_id) s)
        (λ c.
          then_Keeps (tell_gateway gateway p c.stripe_customer_id)
            (λ _. update_customer c.id (renamed p)) s (tell_gateway-same p c.stripe_customer_id s)
            (λ _. update_customer-Keeps c.id p s (find (λ d. d.id == c.id) s.customers) refl))

-- An event of the monolith.
pub data CustomerEvent : Type 0 where
  created : CreatedPayload → CustomerEvent
  updated : UpdatedPayload → CustomerEvent

-- The state after an event, with what the gateway answers to it.
abbrev pub after_event : CustomerGateway × CustomerEvent → Store → Store
after_event (g, created p) s = (create_from_event g p s).1
after_event (g, updated p) s = (update_from_event g p s).1

abbrev pub after_events : List (CustomerGateway × CustomerEvent) → Store → Store
after_events [] s = s
after_events (e ∷ es) s = after_events es (after_event e s)

after_event-Keeps : (e : CustomerGateway × CustomerEvent) (s : Store) → Keeps s (after_event e s)
after_event-Keeps (g, created p) s =
    Creates-Keeps g p s (create_from_event g p s) (create_from_event-Creates g p s)
after_event-Keeps (g, updated p) s = update_from_event-Keeps g p s

-- Through any sequence of events, whatever the gateway answers to each and however each ends, no
-- customer of the monolith comes to have two rows if none had before, and every customer that was
-- known keeps its identifiers, its day of the charge and whether it is prepaid.
pub after_events-Keeps :
    (es : List (CustomerGateway × CustomerEvent)) (s : Store) → Keeps s (after_events es s)
after_events-Keeps [] s = same-Keeps s s refl
after_events-Keeps (e ∷ es) s =
    Keeps-trans s (after_event e s) (after_events es (after_event e s)) (after_event-Keeps e s)
      (after_events-Keeps es (after_event e s))
