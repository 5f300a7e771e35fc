-- ===== src/Methods/Service.antt =====
-- Adding, removing and ordering the payment methods of a customer: `attach`, `detach`,
-- `setDefault`, `updateFallbackOrder` and `confirmSetupAndAttach` of
-- src/payment-methods/payment-methods.service.ts, with the queries of
-- src/payment-methods/payment-methods.repository.ts. The gateways are arguments. The metadata of a
-- method, with its mandate, and the columns that are only shown are left out.
use edge_billing_service.Base.{
  ℕ, any, Bool, true, false, not, ◌&&◌, Option, none, some, List, ◌==◌, ◌===◌, find, filter, insert,
  update, if◌then◌else◌,
}
use edge_billing_service.Store.Rows.{
  Customer, PaymentMethod, card, bank_account, GatewayProvider, stripe, GatewayAssignment,
  provider_eq,
}
use edge_billing_service.Store.Action.{
  Store, Action, Result, ok, err, pure, gets, or_raise, raise_if, modify, when, generate_id,
  customer_not_found, business_rule, row_expected, constraint_violated, ◌>>=◌, ◌>>◌, call,
}
use edge_billing_service.Credits.Service.{find_customer}
use edge_billing_service.Invoices.Repository.{last}
use edge_billing_service.Invoices.Surcharge.{default_method}
use edge_billing_service.Invoices.Drafts.{recalculate_surcharge_on_open_invoice}
use edge_billing_service.Methods.{get_active_payment_method, resolve_gateway_customer_id}

-- `PaymentMethodResult`: whether its type is "card", and what is stored of it.
pub record GatewayMethod : Type 0 where
  pub id : ℕ
  pub is_card : Bool
  pub fingerprint : Option ℕ

-- `SetupIntentResult`: whether its status is "succeeded", and its method.
pub record SetupIntent : Type 0 where
  pub has_succeeded : Bool
  pub payment_method_id : Option ℕ

-- What the adapters answer; an adapter that is not registered answers with an error.
pub record MethodGateway : Type 0 where
  pub attach_payment_method : GatewayProvider → ℕ → ℕ → Result GatewayMethod
  pub detach_payment_method : GatewayProvider → ℕ → Result GatewayMethod
  pub set_default_payment_method : GatewayProvider → ℕ → ℕ → Result (Unit {0})
  pub list_payment_methods : GatewayProvider → ℕ → Result (List GatewayMethod)
  pub retrieve_setup_intent : ℕ → Result SetupIntent
  pub confirm_setup : ℕ → Result SetupIntent

abbrev pub is_active_of : ℕ → PaymentMethod → Bool
is_active_of customer_id pm = (pm.customer_id == customer_id) && pm.is_active

-- `findActiveByCustomer`: the oldest.
abbrev pub find_active_by_customer : ℕ → Store → Option PaymentMethod
find_active_by_customer customer_id s = find (is_active_of customer_id) s.payment_methods

-- `findNextDefault`
abbrev pub find_next_default : ℕ → ℕ → Store → Option PaymentMethod
find_next_default customer_id exclude_id s =
    find (λ pm. is_active_of customer_id pm && not (pm.id == exclude_id)) s.payment_methods

abbrev is_fingerprint : ℕ → Option ℕ → Bool
is_fingerprint fingerprint none = false
is_fingerprint fingerprint (some f) = f == fingerprint

-- `findByFingerprintAndCustomer`, or `findByStripeIdAndCustomer` where there is no fingerprint.
abbrev pub find_same : Option ℕ → ℕ → ℕ → Store → Option PaymentMethod
find_same none method_id customer_id s =
    find (λ pm. is_active_of customer_id pm && (pm.gateway_method_id == method_id))
      s.payment_methods
find_same (some fingerprint) method_id customer_id s =
    find (λ pm. is_active_of customer_id pm && is_fingerprint fingerprint pm.fingerprint)
      s.payment_methods

-- `updateDefault` and `updateFallbackOrder`: raise when there is no such row; the row as it is after.
abbrev pub update_method : ℕ → (PaymentMethod → PaymentMethod) → Action PaymentMethod
update_method id f s = elim (find (λ pm. pm.id == id) s.payment_methods) [
  | none ↦ (err row_expected, s)
  | some pm ↦
      (ok (f pm), record s { payment_methods = update (λ pm. pm.id == id) f s.payment_methods })
]

abbrev pub make_default : PaymentMethod → PaymentMethod
make_default pm = record pm { is_default = true }

-- `updateStatus` to "detached"
abbrev pub detached : PaymentMethod → PaymentMethod
detached pm = record pm { is_active = false; is_default = false }

abbrev pub mark_detached : ℕ → Action (Unit {0})
mark_detached id =
    modify
      (λ s. record s { payment_methods = update (λ pm. pm.id == id) detached s.payment_methods })

-- `clearDefaults`
abbrev pub clear_defaults : ℕ → Action (Unit {0})
clear_defaults customer_id = modify (λ s. record s {
  payment_methods =
      update (λ pm. (pm.customer_id == customer_id) && pm.is_default)
        (λ pm. record pm { is_default = false }) s.payment_methods;
})

-- A row has the method of the gateway, whatever its customer and its status.
abbrev pub is_taken : ℕ → Store → Bool
is_taken gateway_method_id s =
    any (λ pm. pm.gateway_method_id == gateway_method_id) s.payment_methods

-- `create`: the unique index on the gateway's identifier refuses a second row.
abbrev pub create_method : PaymentMethod → Action (Unit {0})
create_method pm s =
    if is_taken pm.gateway_method_id s
    then (err constraint_violated, s)
    else (ok tt, record s { payment_methods = insert pm s.payment_methods })

abbrev pub provider_or_stripe : Option GatewayAssignment → GatewayProvider
provider_or_stripe none = stripe
provider_or_stripe (some a) = a.provider

-- `resolveCustomerGateway`: that of the newest assignment.
abbrev pub resolve_customer_gateway : ℕ → Store → GatewayProvider
resolve_customer_gateway customer_id s =
    provider_or_stripe (last (filter (λ a. a.customer_id == customer_id) s.gateway_assignments))

abbrev pub is_missing : Option PaymentMethod → Bool
is_missing none = true
is_missing (some pm) = false

abbrev pub known_customer : ℕ → Action Customer
known_customer customer_id = do
  found ← find_customer customer_id
  or_raise found (customer_not_found customer_id)

-- The row of a method that a gateway has.
abbrev pub method_row : ℕ → ℕ → GatewayProvider → GatewayMethod → Option ℕ → Bool → PaymentMethod
method_row id customer_id provider m fingerprint is_first = record {
  id = id;
  customer_id = customer_id;
  gateway_provider = provider;
  gateway_method_id = m.id;
  type = if m.is_card then card else bank_account;
  is_default = is_first;
  is_active = true;
  fallback_order = none;
  fingerprint = fingerprint;
}

module _ (gateway : MethodGateway) where
  -- The row is the default if it is the first; the gateway is told so before.
  unfoldable pub add_method :
      ℕ → GatewayProvider → ℕ → GatewayMethod → Option ℕ → Bool → Action PaymentMethod
  add_method customer_id provider gateway_customer m fingerprint is_first = do
    when is_first (call (gateway.set_default_payment_method provider gateway_customer m.id))
    id ← generate_id
    create_method (method_row id customer_id provider m fingerprint is_first)
    pure (method_row id customer_id provider m fingerprint is_first)

  -- `attach`
  unfoldable pub attach : ℕ → ℕ → Action PaymentMethod
  unfolding add_method
  attach customer_id method_id = do
    customer ← known_customer customer_id
    provider ← gets (resolve_customer_gateway customer_id)
    gateway_customer ← resolve_gateway_customer_id customer_id provider customer
    m ← call (gateway.attach_payment_method provider method_id gateway_customer)
    raise_if ((provider === stripe) && not m.is_card) business_rule
    existing ← gets (find_active_by_customer customer_id)
    add_method customer_id provider gateway_customer m none (is_missing existing)

  -- The default passes on to the oldest other method, at the gateway of the detached one.
  unfoldable pub pass_default :
      ℕ → PaymentMethod → Customer → Option PaymentMethod → Action (Unit {0})
  pass_default customer_id pm customer none = pure tt
  pass_default customer_id pm customer (some next) = do
    gateway_customer ← resolve_gateway_customer_id customer_id pm.gateway_provider customer
    call (
        gateway.set_default_payment_method pm.gateway_provider gateway_customer
          next.gateway_method_id)
    update_method next.id make_default >> pure tt

  unfoldable pub pass_if_default : ℕ → PaymentMethod → Customer → Action (Unit {0})
  unfolding pass_default
  pass_if_default customer_id pm customer =
      when pm.is_default
        (gets (find_next_default customer_id pm.id) >>= pass_default customer_id pm customer)

  -- `detach`
  unfoldable pub detach : ℕ → ℕ → Action (Unit {0})
  unfolding pass_if_default
  detach customer_id method_id = do
    customer ← known_customer customer_id
    pm ← get_active_payment_method customer_id method_id
    call (gateway.detach_payment_method pm.gateway_provider pm.gateway_method_id)
    pass_if_default customer_id pm customer
    mark_detached method_id
    recalculate_surcharge_on_open_invoice customer_id

  -- `setDefault`
  unfoldable pub set_default : ℕ → ℕ → Action PaymentMethod
  set_default customer_id method_id = do
    customer ← known_customer customer_id
    pm ← get_active_payment_method customer_id method_id
    gateway_customer ← resolve_gateway_customer_id customer_id pm.gateway_provider customer
    call (
        gateway.set_default_payment_method pm.gateway_provider gateway_customer
          pm.gateway_method_id)
    clear_defaults customer_id
    updated ← update_method method_id make_default
    recalculate_surcharge_on_open_invoice customer_id
    pure updated

  -- `updateFallbackOrder`
  unfoldable pub update_fallback_order : ℕ → ℕ → Option ℕ → Action PaymentMethod
  update_fallback_order customer_id method_id order =
      get_active_payment_method customer_id method_id
      >> update_method method_id (λ pm. record pm { fallback_order = order })

  -- The setup intent as it is, or after its confirmation.
  abbrev pub confirmed : ℕ → SetupIntent → Action SetupIntent
  confirmed intent_id i = if i.has_succeeded then pure i else call (gateway.confirm_setup intent_id)

  -- `confirmSetupAndAttach`
  unfoldable pub confirm_setup_and_attach : ℕ → ℕ → Action PaymentMethod
  unfolding add_method
  confirm_setup_and_attach customer_id intent_id = do
    customer ← known_customer customer_id
    gateway_customer ← resolve_gateway_customer_id customer_id stripe customer
    intent ← call (gateway.retrieve_setup_intent intent_id)
    result ← confirmed intent_id intent
    method_id ← or_raise result.payment_method_id business_rule
    listed ← call (gateway.list_payment_methods stripe gateway_customer)
    m ← or_raise (find (λ m. m.id == method_id) listed) business_rule
    same ← gets (find_same m.fingerprint method_id customer_id)
    raise_if (not (is_missing same)) business_rule
    default ← gets (λ s. default_method customer_id s.payment_methods)
    created ← add_method customer_id stripe gateway_customer m m.fingerprint (is_missing default)
    when (is_missing default) (recalculate_surcharge_on_open_invoice customer_id)
    pure created
