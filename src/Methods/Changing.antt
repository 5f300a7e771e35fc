-- ===== src/Methods/Changing.antt =====
-- `detach`, `setDefault` and `updateFallbackOrder` leave each customer one default at most.
use edge_billing_service.Base.{
  ℕ, Bool, true, false, Option, none, some, find, find-holds, ◌≡◌, refl, update, ==_refl, arith,
}
use edge_billing_service.Store.Rows.{PaymentMethod, Customer, provider_eq}
use edge_billing_service.Store.Action.{call, Store, Action, when, ◌>>=◌, ◌>>◌, pure, gets}
use edge_billing_service.Store.Moves.{read_then}
use edge_billing_service.Charges.Books.{resolve-Reads}
use edge_billing_service.Methods.{get_active_payment_method, resolve_gateway_customer_id}
use edge_billing_service.Methods.Service.{
  find_next_default, MethodGateway, known_customer, detach, pass_default, pass_if_default,
  set_default, update_fallback_order, make_default, detached, update_method, clear_defaults,
  mark_detached,
}
use edge_billing_service.Methods.Counts.{has_id, is_default_of}
use edge_billing_service.Methods.Defaults.{
  HaveOneDefault, update-HaveOneDefault, detached-HaveOneDefault, pass-HaveOneDefault,
}
use edge_billing_service.Methods.Recalculated.{recalculate_keeps}
use edge_billing_service.Invoices.Drafts.{recalculate_surcharge_on_open_invoice}
use edge_billing_service.Methods.Steps.{
  HasOneDefault, known_customer-Reads, is_method, get_active-Reads, get_active-found, keeping,
  regrouped, then_update, regroup_last, default_set,
}

module _ (gateway : MethodGateway) where
  pub update_fallback_order-HasOneDefault :
      (c id : ℕ) (order : Option ℕ) (s : Store)
      → HasOneDefault s
      → HasOneDefault (update_fallback_order gateway c id order s).1
  unfolding update_fallback_order
  update_fallback_order-HasOneDefault c id order s h =
      let reorder : PaymentMethod → PaymentMethod = λ pm. record pm { fallback_order = order } in
      read_then HasOneDefault (get_active_payment_method c id) (λ _. update_method id reorder) s
        (get_active-Reads c id s) h
        (λ pm _. regroup_last id reorder s (
          then_update id reorder pure s h (λ row.
            update-HaveOneDefault s.next_id s.payment_methods h (has_id id) reorder (λ x. refl)
              (λ d x. omega arith))))

  module _ (c id : ℕ) (pm : PaymentMethod) (customer : Customer) (s : Store) (h : HasOneDefault s)
      (found : find (is_method c id) s.payment_methods ≡ some pm) where
    abbrev finish : Action (Unit {0})
    finish = mark_detached id >> recalculate_surcharge_on_open_invoice c

    finished :
        (t : Store)
        → HaveOneDefault t.next_id (update (has_id id) detached t.payment_methods)
        → HasOneDefault (finish t).1
    finished t k =
        keeping (recalculate_surcharge_on_open_invoice c)
          (record t { payment_methods = update (has_id id) detached t.payment_methods })
          (recalculate_keeps c) k

    not_passed : HasOneDefault (finish s).1
    not_passed = finished s (detached-HaveOneDefault s.next_id id s.payment_methods h)

    is_pm : is_method c id pm ≡ true
    is_pm = find-holds (is_method c id) s.payment_methods found

    pm_default : pm.is_default ≡ true → is_default_of pm.customer_id pm ≡ true
    pm_default e = rw (==_refl pm.customer_id, e) (ground (arith, is_pm))

    passed :
        (o : Option PaymentMethod)
        → find_next_default c pm.id s ≡ o
        → pm.is_default ≡ true
        → HasOneDefault ((pass_default gateway c pm customer o >> finish) s).1
    unfolding pass_default
    passed none e default = not_passed
    passed (some next) e default =
        let resolve = resolve_gateway_customer_id c pm.gateway_provider customer in
        let tell : ℕ → Action (Unit {0}) = λ at.
          call (gateway.set_default_payment_method pm.gateway_provider at next.gateway_method_id) in
        let change : Action (Unit {0}) = update_method next.id make_default >> pure tt in
        let is_next = find-holds _ s.payment_methods e in
        regrouped resolve (λ at. tell at >> change) (λ _. finish) s
          (read_then HasOneDefault resolve (λ at. tell at >> change >> finish) s
            (resolve-Reads c pm.gateway_provider customer s) h
            (λ at _.
              regrouped (tell at) (λ _. change) (λ _. finish) s
                (read_then HasOneDefault (tell at) (λ _. change >> finish) s refl h
                  (λ _ _.
                    regrouped (update_method next.id make_default) (λ _. pure tt) (λ _. finish) s
                      (then_update next.id make_default (λ _. pure tt >> finish) s h
                        (λ row. finished _ (
                          pass-HaveOneDefault s.next_id id s.payment_methods (is_method c id) _
                            {pm = pm} {next = next} h (λ x. refl) found (ground (arith, is_pm))
                            (pm_default default) e (ground (arith, is_pm, is_next))
                            (ground (arith, is_next)))))))))

    passing :
        (b : Bool)
        → pm.is_default ≡ b
        → HasOneDefault
            ((when b (gets (find_next_default c pm.id) >>= pass_default gateway c pm customer)
                >> finish)
              s).1
    passing false e = not_passed
    passing true e = passed (find_next_default c pm.id s) refl e

  pub detach-HasOneDefault :
      (c id : ℕ) (s : Store) → HasOneDefault s → HasOneDefault (detach gateway c id s).1
  unfolding detach pass_if_default
  detach-HasOneDefault c id s h =
      let finish = mark_detached id >> recalculate_surcharge_on_open_invoice c in
      let rest : Customer → PaymentMethod → Action (Unit {0}) =
        λ customer pm. pass_if_default gateway c pm customer >> finish in
      let detached : Customer → PaymentMethod → Action (Unit {0}) = λ customer pm.
        call (gateway.detach_payment_method pm.gateway_provider pm.gateway_method_id)
        >> rest customer pm in
      read_then HasOneDefault (known_customer c)
        (λ customer. get_active_payment_method c id >>= detached customer) s
        (known_customer-Reads c s) h
        (λ customer _.
          read_then HasOneDefault (get_active_payment_method c id) (detached customer) s
            (get_active-Reads c id s) h
            (λ pm e.
              read_then HasOneDefault
                (call (gateway.detach_payment_method pm.gateway_provider pm.gateway_method_id))
                (λ _. rest customer pm) s refl h
                (λ _ _.
                  passing c id pm customer s h (get_active-found c id s e) pm.is_default refl)))

  pub set_default-HasOneDefault :
      (c id : ℕ) (s : Store) → HasOneDefault s → HasOneDefault (set_default gateway c id s).1
  unfolding set_default
  set_default-HasOneDefault c id s h =
      let settled : PaymentMethod → Action PaymentMethod =
        λ updated. recalculate_surcharge_on_open_invoice c >> pure updated in
      let changed : Action PaymentMethod =
        clear_defaults c >> (update_method id make_default >>= settled) in
      let told : PaymentMethod → ℕ → Action PaymentMethod = λ pm at.
        call (gateway.set_default_payment_method pm.gateway_provider at pm.gateway_method_id)
        >> changed in
      let resolved : Customer → PaymentMethod → Action PaymentMethod =
        λ customer pm. resolve_gateway_customer_id c pm.gateway_provider customer >>= told pm in
      read_then HasOneDefault (known_customer c)
        (λ customer. get_active_payment_method c id >>= resolved customer) s
        (known_customer-Reads c s) h
        (λ customer _.
          read_then HasOneDefault (get_active_payment_method c id) (resolved customer) s
            (get_active-Reads c id s) h
            (λ pm e.
              read_then HasOneDefault (resolve_gateway_customer_id c pm.gateway_provider customer)
                (told pm) s (resolve-Reads c pm.gateway_provider customer s) h
                (λ at _.
                  read_then HasOneDefault
                    (call (
                      gateway.set_default_payment_method pm.gateway_provider at
                        pm.gateway_method_id))
                    (λ _. changed) s refl h
                    (λ _ _. default_set c id s h (get_active-found c id s e)))))
