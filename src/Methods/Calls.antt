-- ===== src/Methods/Calls.antt =====
-- A customer has one default payment method at most, whatever the calls and however they end.
use edge_billing_service.Base.{ℕ, Option, List, [], ◌∷◌}
use edge_billing_service.Store.Rows.{provider_eq}
use edge_billing_service.Store.Action.{Store}
use edge_billing_service.Methods.Service.{
  MethodGateway, attach, detach, set_default, update_fallback_order, confirm_setup_and_attach,
}
use edge_billing_service.Methods.Steps.{HasOneDefault}
use edge_billing_service.Methods.Adding.{attach-HasOneDefault, confirm_setup-HasOneDefault}
use edge_billing_service.Methods.Changing.{
  detach-HasOneDefault, set_default-HasOneDefault, update_fallback_order-HasOneDefault,
}

-- A request to change the methods of a customer.
pub data MethodRequest : Type 0 where
  attach_method detach_method set_default_method confirm_method : ℕ → ℕ → MethodRequest
  order_method : ℕ → ℕ → Option ℕ → MethodRequest

-- The state after a request, with what the gateways answer to it.
abbrev pub after_request : MethodGateway × MethodRequest → Store → Store
after_request (g, attach_method c id) s = (attach g c id s).1
after_request (g, detach_method c id) s = (detach g c id s).1
after_request (g, set_default_method c id) s = (set_default g c id s).1
after_request (g, confirm_method c id) s = (confirm_setup_and_attach g c id s).1
after_request (g, order_method c id order) s = (update_fallback_order g c id order s).1

abbrev pub after_requests : List (MethodGateway × MethodRequest) → Store → Store
after_requests [] s = s
after_requests (r ∷ rs) s = after_requests rs (after_request r s)

after_request-HasOneDefault :
    (r : MethodGateway × MethodRequest) (s : Store)
    → HasOneDefault s
    → HasOneDefault (after_request r s)
after_request-HasOneDefault (g, attach_method c id) s h = attach-HasOneDefault g c id s h
after_request-HasOneDefault (g, detach_method c id) s h = detach-HasOneDefault g c id s h
after_request-HasOneDefault (g, set_default_method c id) s h = set_default-HasOneDefault g c id s h
after_request-HasOneDefault (g, confirm_method c id) s h = confirm_setup-HasOneDefault g c id s h
after_request-HasOneDefault (g, order_method c id order) s h =
    update_fallback_order-HasOneDefault g c id order s h

-- Where the identifiers of the payment methods are distinct and below the next one and no customer
-- has two active defaults, this is so after any sequence of calls that attach, detach, order or
-- confirm methods or set a default, whatever the gateways answer to each and however each ends.
pub after_requests-HasOneDefault :
    (rs : List (MethodGateway × MethodRequest)) (s : Store)
    → HasOneDefault s
    → HasOneDefault (after_requests rs s)
after_requests-HasOneDefault [] s h = h
after_requests-HasOneDefault (r ∷ rs) s h =
    after_requests-HasOneDefault rs (after_request r s) (after_request-HasOneDefault r s h)
