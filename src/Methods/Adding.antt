-- ===== src/Methods/Adding.antt =====
-- `attach` and `confirmSetupAndAttach` leave each customer one default at most.
use edge_billing_service.Base.{
  ℕ, ◌+◌, if◌then◌else◌, insert, sym, ap, subst, Bool, true, false, not, ◌&&◌, Option, none, some,
  List, ◌==◌, ◌===◌, find, ◌≡◌, refl, inl, inr, Bool-cases, arith,
}
use edge_billing_service.Store.Rows.{PaymentMethod, Customer, GatewayProvider, stripe, provider_eq}
use edge_billing_service.Store.Action.{
  call, ok, err, constraint_violated, >>=-ok, >>=-err, Store, Action, or_raise, when, ◌>>=◌, ◌>>◌,
  raise_if, business_rule, pure, gets, generate_id,
}
use edge_billing_service.Store.Moves.{Moves, when-Moves, read_then}
use edge_billing_service.Charges.Books.{Reads, or_raise-Reads, resolve-Reads}
use edge_billing_service.Methods.{resolve_gateway_customer_id}
use edge_billing_service.Methods.Service.{
  is_missing, is_taken, create_method, resolve_customer_gateway, find_active_by_customer, confirmed,
  find_same, MethodGateway, GatewayMethod, SetupIntent, known_customer, add_method, attach,
  confirm_setup_and_attach, method_row, is_active_of,
}
use edge_billing_service.Methods.Counts.{is_default_of, count_defaults}
use edge_billing_service.Methods.Defaults.{insert-HaveOneDefault}
use edge_billing_service.Methods.Recalculated.{KeepsMethods, recalculate_keeps, bind_keeps}
use edge_billing_service.Invoices.Surcharge.{default_method}
use edge_billing_service.Invoices.Drafts.{recalculate_surcharge_on_open_invoice}
use edge_billing_service.Methods.Steps.{
  HasOneDefault, kept-HasOneDefault, known_customer-Reads, then_keeping, no_default, active_default,
}

module _ (gateway : MethodGateway) where
  add_method-HasOneDefault :
      (c : ℕ) (provider : GatewayProvider) (at : ℕ) (m : GatewayMethod) (fingerprint : Option ℕ)
      (first : Bool) (s : Store)
      → HasOneDefault s
      → (first ≡ true → count_defaults c s.payment_methods ≡ 0)
      → HasOneDefault (add_method gateway c provider at m fingerprint first s).1
  unfolding add_method
  add_method-HasOneDefault c provider at m fingerprint first s h empty =
      let told = when first (call (gateway.set_default_payment_method provider at m.id)) in
      let row : Unit {0} → Action PaymentMethod = λ _. generate_id >>= λ id.
      create_method (method_row id c provider m fingerprint first)
      >> pure (method_row id c provider m fingerprint first) in
      read_then HasOneDefault told row s (told-Reads first) h (λ a e.
        created (method_row s.next_id c provider m fingerprint first) (
          insert-HaveOneDefault s.next_id s.payment_methods h
            (method_row s.next_id c provider m fingerprint first) refl empty))
    where
      told-Reads :
          (b : Bool) → (when b (call (gateway.set_default_payment_method provider at m.id)) s).1 ≡ s
      told-Reads true = refl
      told-Reads false = refl

      -- The row is inserted, or refused with an identifier used up.
      created :
          (pm : PaymentMethod)
          → HasOneDefault
              (record s { next_id = s.next_id + 1; payment_methods = insert pm s.payment_methods })
          → HasOneDefault ((create_method pm >> pure pm) (record s { next_id = s.next_id + 1 })).1
      created pm inserted =
          let u : Store = record s { next_id = s.next_id + 1 } in
          let t : Store = record u { payment_methods = insert pm s.payment_methods } in
          elim (Bool-cases (is_taken pm.gateway_method_id s)) [
            | inl taken ↦
                let whole : (create_method pm >> pure pm) u ≡ (err constraint_violated, u) =
                  >>=-err (create_method pm) (λ _. pure pm) u
                    (ap (λ b. if b then (err constraint_violated, u) else (ok tt, t)) taken) in
                subst (λ r. HasOneDefault r.1) (sym whole)
                  (kept-HasOneDefault s u (refl, omega arith) h)
            | inr free ↦
                let whole : (create_method pm >> pure pm) u ≡ (ok pm, t) =
                  >>=-ok (create_method pm) (λ _. pure pm) u
                    (ap (λ b. if b then (err constraint_violated, u) else (ok tt, t)) free) in
                subst (λ r. HasOneDefault r.1) (sym whole) inserted
          ]

  missing_default :
      (p : PaymentMethod → Bool) (c : ℕ) (o : Option PaymentMethod) (xs : List PaymentMethod)
      → ((x : PaymentMethod) → is_default_of c x ≡ true → p x ≡ true)
      → find p xs ≡ o
      → is_missing o ≡ true
      → count_defaults c xs ≡ 0
  missing_default p c none xs implies e h = no_default p c xs implies e
  missing_default p c (some pm) xs implies e h = cc

  pub attach-HasOneDefault :
      (c id : ℕ) (s : Store) → HasOneDefault s → HasOneDefault (attach gateway c id s).1
  unfolding attach
  attach-HasOneDefault c id s h =
      let add : GatewayProvider → ℕ → GatewayMethod → Action PaymentMethod = λ provider at m.
        gets (find_active_by_customer c) >>= λ existing.
        add_method gateway c provider at m none (is_missing existing) in
      let checked : GatewayProvider → ℕ → GatewayMethod → Action PaymentMethod = λ provider at m.
        raise_if ((provider === stripe) && not m.is_card) business_rule >> add provider at m in
      let attached : GatewayProvider → ℕ → Action PaymentMethod = λ provider at.
        call (gateway.attach_payment_method provider id at) >>= checked provider at in
      let provider = resolve_customer_gateway c s in
      let resolved : Customer → Action PaymentMethod = λ customer.
        gets (resolve_customer_gateway c) >>= λ provider.
        resolve_gateway_customer_id c provider customer >>= attached provider in
      read_then HasOneDefault (known_customer c) resolved s (known_customer-Reads c s) h
        (λ customer _.
          read_then HasOneDefault (resolve_gateway_customer_id c provider customer)
            (attached provider) s (resolve-Reads c provider customer s) h
            (λ at _.
              read_then HasOneDefault (call (gateway.attach_payment_method provider id at))
                (checked provider at) s refl h
                (λ m _.
                  read_then HasOneDefault
                    (raise_if ((provider === stripe) && not m.is_card) business_rule)
                    (λ _. add provider at m) s refl h
                    (λ _ _. add_method-HasOneDefault c provider at m none _ s h (
                      missing_default (is_active_of c) c (find_active_by_customer c s)
                        s.payment_methods (active_default c) refl)))))

  confirmed-Reads : (intent_id : ℕ) (i : SetupIntent) → Moves Reads (confirmed gateway intent_id i)
  confirmed-Reads intent_id i s = elim (Bool-cases i.has_succeeded) [
    | inl done ↦ rw done refl
    | inr open_intent ↦ rw open_intent refl
  ]

  module _ (c : ℕ) where
    -- The steps after the duplicates have been looked for.
    abbrev added : ℕ → GatewayMethod → Action PaymentMethod
    added at m = gets (λ s. default_method c s.payment_methods) >>= λ default.
        add_method gateway c stripe at m m.fingerprint (is_missing default) >>= λ created.
        when (is_missing default) (recalculate_surcharge_on_open_invoice c) >> pure created

    abbrev unless_same : ℕ → ℕ → GatewayMethod → Action PaymentMethod
    unless_same at method_id m = gets (find_same m.fingerprint method_id c) >>= λ same.
        raise_if (not (is_missing same)) business_rule >> added at m

    recalculates :
        (first : Bool) (created : PaymentMethod)
        → Moves KeepsMethods (when first (recalculate_surcharge_on_open_invoice c) >> pure created)
    recalculates first created =
        bind_keeps (when first (recalculate_surcharge_on_open_invoice c)) (λ _. pure created)
          (when-Moves KeepsMethods first (recalculate_surcharge_on_open_invoice c)
            (λ t. (refl, omega arith)) (recalculate_keeps c))
          (λ _ t. (refl, omega arith))

    unless_same-HasOneDefault :
        (at method_id : ℕ) (m : GatewayMethod) (s : Store)
        → HasOneDefault s
        → HasOneDefault (unless_same at method_id m s).1
    unless_same-HasOneDefault at method_id m s h =
        let first = is_missing (default_method c s.payment_methods) in
        read_then HasOneDefault
          (raise_if (not (is_missing (find_same m.fingerprint method_id c s))) business_rule)
          (λ _. added at m) s refl h
          (λ _ _.
            then_keeping (add_method gateway c stripe at m m.fingerprint first)
              (λ created. when first (recalculate_surcharge_on_open_invoice c) >> pure created) s
              (add_method-HasOneDefault c stripe at m m.fingerprint first s h (
                missing_default (is_default_of c) c (default_method c s.payment_methods)
                  s.payment_methods (λ x e. e) refl))
              (recalculates first))

  pub confirm_setup-HasOneDefault :
      (c intent_id : ℕ) (s : Store)
      → HasOneDefault s
      → HasOneDefault (confirm_setup_and_attach gateway c intent_id s).1
  unfolding confirm_setup_and_attach
  confirm_setup-HasOneDefault c intent_id s h =
      let chosen : ℕ → ℕ → List GatewayMethod → Action PaymentMethod = λ at method_id listed.
        or_raise (find (λ m. m.id == method_id) listed) business_rule
        >>= unless_same c at method_id in
      let listing : ℕ → ℕ → Action PaymentMethod =
        λ at method_id. call (gateway.list_payment_methods stripe at) >>= chosen at method_id in
      let identified : ℕ → SetupIntent → Action PaymentMethod =
        λ at result. or_raise result.payment_method_id business_rule >>= listing at in
      let confirming : ℕ → SetupIntent → Action PaymentMethod =
        λ at i. confirmed gateway intent_id i >>= identified at in
      let retrieving : ℕ → Action PaymentMethod =
        λ at. call (gateway.retrieve_setup_intent intent_id) >>= confirming at in
      read_then HasOneDefault (known_customer c)
        (λ customer. resolve_gateway_customer_id c stripe customer >>= retrieving) s
        (known_customer-Reads c s) h
        λ customer _.
          read_then HasOneDefault (resolve_gateway_customer_id c stripe customer) retrieving s
            (resolve-Reads c stripe customer s) h
            λ at _.
              read_then HasOneDefault (call (gateway.retrieve_setup_intent intent_id))
                (confirming at) s refl h
                λ i _.
                  read_then HasOneDefault (confirmed gateway intent_id i) (identified at) s
                    (confirmed-Reads intent_id i s) h
                    λ result _.
                      read_then HasOneDefault (or_raise result.payment_method_id business_rule)
                        (listing at) s (or_raise-Reads result.payment_method_id business_rule s) h
                        λ method_id _.
                          read_then HasOneDefault (call (gateway.list_payment_methods stripe at))
                            (chosen at method_id) s refl h
                            λ listed _.
                              read_then HasOneDefault
                                (or_raise (find (λ m. m.id == method_id) listed) business_rule)
                                (unless_same c at method_id) s
                                (or_raise-Reads (find (λ m. m.id == method_id) listed) business_rule
                                  s)
                                h λ m _. unless_same-HasOneDefault c at method_id m s h
