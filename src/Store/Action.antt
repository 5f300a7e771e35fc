-- ===== src/Store/Action.antt =====
-- The state that the services share and the actions on it: a call may raise an error, and what it
-- wrote before the error stays written unless a transaction rolls it back.
use Prim.Native.String.{String}
use edge_billing_service.Base.{
  inr, inl, ◌⊎◌, ℕ, ℤ, ◌+◌, Bool, Option, none, some, List, if◌then◌else◌, ◌≡◌, refl, ap,
}
use edge_billing_service.Calendar.Date.{Date}
use edge_billing_service.StateMachine.Tables.{AllowedTransitions, is_allowed}
use edge_billing_service.Base.Eq.{Eq}
use edge_billing_service.Store.Logged.{WebhookLog}
use edge_billing_service.Store.Rows.{
  Customer, PaymentMethod, SurchargeConfig, Subscription, Invoice, LineItem, CreditNote,
  GatewayProvider, CreditBalance, LedgerEntry, Charge, Refund, DunningAttempt, Account,
  GatewayAssignment, FeatureFlag,
}
use edge_billing_service.Store.Reconciled.{RunRow, DiscrepancyRow}

-- The messages that the services put on the outbound queue.
pub data Event : Type 0 where
  invoice_paid invoice_created : ℕ → ℤ → Event
  payment_succeeded payment_failed : ℕ → ℤ → Event
  refund_succeeded refund_failed : ℕ → ℤ → Event
  subscription_state_changed : ℕ → Event
  dunning_escalated : ℕ → ℕ → Event
  mandate_deactivated : ℕ → Event

-- The database, the service's map of ledger accounts, the clock and the supply of identifiers.
pub record Store : Type 0 where
  pub clock : Date
  pub next_id : ℕ
  pub account_ids : List (Account × ℕ)
  pub customers : List Customer
  pub payment_methods : List PaymentMethod
  pub surcharge_configs : List SurchargeConfig
  pub subscriptions : List Subscription
  pub invoices : List Invoice
  pub line_items : List LineItem
  pub credit_notes : List CreditNote
  pub credit_balances : List CreditBalance
  pub ledger_entries : List LedgerEntry
  pub charges : List Charge
  pub refunds : List Refund
  pub dunning_attempts : List DunningAttempt
  pub gateway_assignments : List GatewayAssignment
  pub feature_flags : List FeatureFlag
  pub failed_dual_writes : List (ℕ × Event)
  pub processed_events : List (ℕ × GatewayProvider)
  pub webhook_events : List WebhookLog
  pub reconciliation_runs : List RunRow
  pub reconciliation_discrepancies : List DiscrepancyRow
  pub outbox : List Event

pub data Error : Type 0 where
  customer_not_found invoice_not_found subscription_not_found : ℕ → Error
  payment_method_not_found no_payment_method charge_not_found attempt_not_found : ℕ → Error
  credit_exceeds_invoice : ℤ → ℤ → Error
  amount_not_positive : ℤ → Error
  account_not_found : Account → Error
  invalid_transition concurrent_modification business_rule row_expected : Error
  constraint_violated : Error
  invoice_already_paid invoice_not_finalized invoice_already_voided : ℕ → Error
  external : String → Error
  undelivered : Event → Error

pub data Result (A : Type 0) : Type 0 where
  ok : A → Result A
  err : Error → Result A

abbrev pub Action : Type 0 → Type 0
Action A = Store → Result A × Store

module _ {A : Type 0} where
  abbrev pub pure : A → Action A
  pure a s = (ok a, s)

  abbrev pub raise : Error → Action A
  raise e s = (err e, s)

  abbrev pub gets : (Store → A) → Action A
  gets f s = (ok (f s), s)

  abbrev pub or_raise : Option A → Error → Action A
  or_raise none e = raise e
  or_raise (some a) e = pure a

  -- `db.transaction`: an error inside restores the state in which the transaction began.
  abbrev pub transaction : Action A → Action A
  transaction m s = let (r, t) = m s in elim r [ ok a ↦ (ok a, t) | err e ↦ (err e, s) ]

  -- `try { m } catch (error) { … }`
  abbrev pub catch : Action A → (Error → Action A) → Action A
  catch m handler s = let (r, t) = m s in elim r [ ok a ↦ (ok a, t) | err e ↦ handler e t ]

infixl 5 ◌>>=◌ ◌>>◌
abbrev pub ◌>>=◌ : {A B : Type 0} → Action A → (A → Action B) → Action B
◌>>=◌ m f s = let (r, t) = m s in elim r [ ok a ↦ f a t | err e ↦ (err e, t) ]

abbrev pub ◌>>◌ : {A B : Type 0} → Action A → Action B → Action B
m >> k = m >>= λ _. k

abbrev pub modify : (Store → Store) → Action (Unit {0})
modify f s = (ok tt, f s)

-- A call of a gateway: its answer, or its error raised.
abbrev pub call : {A : Type 0} → Result A → Action A
call r s = (r, s)

abbrev pub raise_if : Bool → Error → Action (Unit {0})
raise_if c e s = (if c then err e else ok tt, s)

abbrev pub when : Bool → Action (Unit {0}) → Action (Unit {0})
when c m s = if c then m s else (ok tt, s)

-- `generateId`: an identifier that no row has. Identifiers that a rolled back transaction drew may
-- be drawn again; no row has them.
abbrev pub generate_id : Action ℕ
generate_id s = (ok s.next_id, record s { next_id = s.next_id + 1 })

-- `validateTransition`
abbrev pub validate_transition :
    {S : Type 0} ⦃e : Eq S⦄ → S → S → AllowedTransitions S → Action (Unit {0})
validate_transition current target allowed s =
    (if is_allowed current target allowed then ok tt else err invalid_transition, s)

-- A bind after a call that returns.
pub >>=-ok :
    {A B : Type 0} (m : Action A) (f : A → Action B) (s : Store) {a : A} {t : Store}
    → m s ≡ (ok a, t)
    → (m >>= f) s ≡ f a t
>>=-ok m f s e = ap (λ r. elim r.0 [ ok a ↦ f a r.1 | err x ↦ (err x, r.1) ]) e

-- A bind after a call that raises.
pub >>=-err :
    {A B : Type 0} (m : Action A) (f : A → Action B) (s : Store) {x : Error} {t : Store}
    → m s ≡ (err x, t)
    → (m >>= f) s ≡ (err x, t)
>>=-err m f s e = ap (λ r. elim r.0 [ ok a ↦ f a r.1 | err x ↦ (err x, r.1) ]) e

-- How a call has ended.
pub outcome :
    {A : Type 0} (r : Result A × Store)
    → ((a : A) × (t : Store) × (r ≡ (ok a, t))) ⊎ ((x : Error) × (t : Store) × (r ≡ (err x, t)))
outcome (ok a, t) = inl (a, t, refl)
outcome (err x, t) = inr (x, t, refl)

pub transaction-ok :
    {A : Type 0} (m : Action A) (s : Store) {a : A} {t : Store}
    → m s ≡ (ok a, t)
    → transaction m s ≡ (ok a, t)
transaction-ok m s e = ap (λ r. elim r.0 [ ok a ↦ (ok a, r.1) | err x ↦ (err x, s) ]) e

-- A transaction that raises has changed nothing.
pub transaction-err :
    {A : Type 0} (m : Action A) (s : Store) {x : Error} {t : Store}
    → m s ≡ (err x, t)
    → transaction m s ≡ (err x, s)
transaction-err m s e = ap (λ r. elim r.0 [ ok a ↦ (ok a, r.1) | err x ↦ (err x, s) ]) e
