-- ===== src/Methods.antt =====
-- Payment methods: the queries of src/payment-methods/payment-methods.repository.ts and
-- src/payment-methods/payment-methods.service.ts that charges and dunning use.
pub mod Service
pub mod Counts
pub mod Recalculated
pub mod Defaults
pub mod Steps
pub mod Adding
pub mod Changing
pub mod Calls
use edge_billing_service.Base.{
  ℕ, leb, Bool, true, false, ◌&&◌, Option, none, some, List, [], ◌∷◌, ◌==◌, ◌===◌, find, filter,
  if◌then◌else◌,
}
use edge_billing_service.Store.Rows.{
  Customer, PaymentMethod, GatewayProvider, stripe, adyen, provider_eq,
}
use edge_billing_service.Store.Action.{
  Store, Action, pure, gets, or_raise, payment_method_not_found, business_rule, no_payment_method,
  ◌>>=◌,
}
use edge_billing_service.Invoices.Surcharge.{default_method}

-- `getActivePaymentMethodById`
abbrev pub get_active_payment_method : ℕ → ℕ → Action PaymentMethod
get_active_payment_method customer_id id = do
  found ← gets (λ s.
      find (λ pm. (pm.id == id) && (pm.customer_id == customer_id) && pm.is_active)
        s.payment_methods)
  or_raise found (payment_method_not_found id)

-- The method of a charge: the given one, or the default.
abbrev pub select_method : ℕ → Option ℕ → Action PaymentMethod
select_method customer_id (some id) = get_active_payment_method customer_id id
select_method customer_id none = do
  found ← gets (λ s. default_method customer_id s.payment_methods)
  or_raise found (no_payment_method customer_id)

abbrev pub order_before : Option ℕ → Option ℕ → Bool
order_before none none = true
order_before none (some b) = false
order_before (some a) none = true
order_before (some a) (some b) = leb a b

-- `ORDER BY is_default DESC, fallback_order ASC`, where a missing order comes last: whether the
-- first method stands before the second, or ties with it.
abbrev pub stands_before : PaymentMethod → PaymentMethod → Bool
stands_before a b =
    if a.is_default
    then (if b.is_default then order_before a.fallback_order b.fallback_order else true)
    else (if b.is_default then false else order_before a.fallback_order b.fallback_order)

-- Insert a method before the first that it stands before.
abbrev pub place : PaymentMethod → List PaymentMethod → List PaymentMethod
place x [] = x ∷ []
place x (y ∷ ys) = let rest = place x ys in if stands_before x y then x ∷ y ∷ ys else y ∷ rest

abbrev pub sort_methods : List PaymentMethod → List PaymentMethod
sort_methods [] = []
sort_methods (x ∷ xs) = place x (sort_methods xs)

-- `getOrderedPaymentMethods`
abbrev pub get_ordered_payment_methods : ℕ → Store → List PaymentMethod
get_ordered_payment_methods customer_id s =
    sort_methods (filter (λ pm. (pm.customer_id == customer_id) && pm.is_active) s.payment_methods)

-- `resolveGatewayCustomerId`
abbrev pub resolve_gateway_customer_id : ℕ → GatewayProvider → Customer → Action ℕ
resolve_gateway_customer_id customer_id stripe customer =
    or_raise customer.stripe_customer_id business_rule
resolve_gateway_customer_id customer_id adyen customer = do
  found ← gets (λ s.
      find (λ a. (a.customer_id == customer_id) && (a.provider === adyen)) s.gateway_assignments)
  assignment ← or_raise found business_rule
  pure assignment.gateway_customer_id
