-- ===== src/Store/Rows.antt =====
-- The rows of the database tables in src/database/schema. Identifiers are numbers and amounts are
-- integers of cents. The audit columns `createdAt` and `updatedAt` and the display columns that no
-- modelled operation reads are left out; rows stand in the order of their creation.
use Prim.Native.String.{String}
use edge_billing_service.Base.{ℕ, ℤ, Bool, false, ◌&&◌, Option, ◌≡◌, ◌↔◌, true, arith, ◌==◌}
use edge_billing_service.Base.Eq.{Eq}
use edge_billing_service.Calendar.Date.{Date}
use edge_billing_service.StateMachine.Status.{
  InvoiceStatus, SubscriptionStatus, RefundStatus, ChargeStatus, AttemptStatus,
}

pub data PaymentMethodType : Type 0 where
  card bank_account bank_transfer : PaymentMethodType

pub data SurchargeType : Type 0 where
  percentage flat_fee : SurchargeType

pub data InvoiceType : Type 0 where
  recurring onboarding one_time : InvoiceType

pub data LineItemType : Type 0 where
  base_fee employee_cost surcharge credit_applied onboarding one_time recurring one_time_charge
        onboarding_fee :
      LineItemType

pub data Account : Type 0 where
  accounts_receivable revenue cash credits refunds : Account

pub data ReferenceType : Type 0 where
  invoice invoice_void payment refund credit_note credit_application migration : ReferenceType

-- The texts that describe a ledger entry.
pub data LedgerText : Type 0 where
  invoice_finalized payment_succeeded credit_note_issued credit_note_reversed : LedgerText
  credit_applied_to_invoice invoice_voided refund_succeeded : LedgerText
  migration_from_charge migration_payment_from_charge migration_void_of_charge : ℕ → LedgerText
  migration_from_payroll migration_payment_from_payroll : ℕ → LedgerText
  rollback_of : LedgerText → LedgerText

-- The gateways that a payment method can belong to.
pub data GatewayProvider : Type 0 where
  stripe adyen : GatewayProvider

-- The idempotency key of a charge: `inv_<invoice>_att_<attempt>`, or the one that the caller of a
-- one-time charge supplies.
pub data ChargeKey : Type 0 where
  invoice_attempt : ℕ → ℕ → ChargeKey
  supplied : ℕ → ChargeKey

pub record Customer : Type 0 where
  pub id : ℕ
  pub monolith_id : ℕ
  pub name : String
  pub email : String
  pub stripe_customer_id : Option ℕ
  pub charge_day : ℕ
  pub is_prepaid : Bool

pub record PaymentMethod : Type 0 where
  pub id : ℕ
  pub customer_id : ℕ
  pub gateway_provider : GatewayProvider
  pub gateway_method_id : ℕ
  pub type : PaymentMethodType
  pub is_default : Bool
  pub is_active : Bool
  pub fallback_order : Option ℕ
  pub fingerprint : Option ℕ

pub record SurchargeConfig : Type 0 where
  pub customer_id : ℕ
  pub allow_credit_card : Bool
  pub surcharge_type : Option SurchargeType
  pub surcharge_value : Option ℤ

pub record Subscription : Type 0 where
  pub id : ℕ
  pub customer_id : ℕ
  pub status : SubscriptionStatus
  pub amount_cents : ℤ
  pub currency : String
  pub billing_period_start : Date
  pub billing_period_end : Date
  pub next_billing_date : Option Date

pub record Invoice : Type 0 where
  pub id : ℕ
  pub customer_id : ℕ
  pub subscription_id : Option ℕ
  pub type : InvoiceType
  pub status : InvoiceStatus
  pub total_amount_cents : ℤ
  pub currency : String
  pub billing_period_start : Date
  pub billing_period_end : Date
  pub due_date : Date
  pub paid_at : Option Date
  pub voided_at : Option Date
  pub credit_adjustment_cents : Option ℤ

pub record LineItem : Type 0 where
  pub id : ℕ
  pub invoice_id : ℕ
  pub type : LineItemType
  pub amount_cents : ℤ
  pub quantity : ℕ

pub record CreditNote : Type 0 where
  pub id : ℕ
  pub customer_id : ℕ
  pub invoice_id : Option ℕ
  pub amount_cents : ℤ
  pub currency : String

pub record CreditBalance : Type 0 where
  pub customer_id : ℕ
  pub balance_cents : ℤ
  pub currency : String

pub record LedgerEntry : Type 0 where
  pub id : ℕ
  pub debit_account_id : ℕ
  pub credit_account_id : ℕ
  pub amount_cents : ℤ
  pub currency : String
  pub reference_type : ReferenceType
  pub reference_id : ℕ
  pub description : LedgerText
  pub correlation_id : ℕ
  pub created_at : Date

pub record Charge : Type 0 where
  pub id : ℕ
  pub invoice_id : ℕ
  pub customer_id : ℕ
  pub payment_method_id : ℕ
  pub amount_cents : ℤ
  pub currency : String
  pub status : ChargeStatus
  pub payment_intent_id : Option ℕ
  pub idempotency_key : ChargeKey
  pub attempt_number : ℕ
  pub failure_reason : Option String

pub record Refund : Type 0 where
  pub id : ℕ
  pub charge_id : ℕ
  pub invoice_id : ℕ
  pub customer_id : ℕ
  pub amount_cents : ℤ
  pub currency : String
  pub status : RefundStatus
  pub idempotency_key : ℕ
  pub gateway_refund_id : Option ℕ
  pub failure_reason : Option String

pub record DunningAttempt : Type 0 where
  pub id : ℕ
  pub invoice_id : ℕ
  pub charge_id : Option ℕ
  pub payment_method_id : Option ℕ
  pub attempt_number : ℕ
  pub scheduled_date : Date
  pub executed_at : Option Date
  pub status : AttemptStatus
  pub failure_reason : Option String

-- The identifier of a customer at a gateway other than Stripe.
pub record GatewayAssignment : Type 0 where
  pub customer_id : ℕ
  pub provider : GatewayProvider
  pub gateway_customer_id : ℕ

pub data FlagName : Type 0 where
  billing_service_enabled dual_write_enabled : FlagName

pub record FeatureFlag : Type 0 where
  pub customer_id : ℕ
  pub name : FlagName
  pub enabled : Bool

abbrev pub same_charge_key : ChargeKey → ChargeKey → Bool
same_charge_key (invoice_attempt i n) (invoice_attempt j m) = (i == j) && (n == m)
same_charge_key (supplied k) (supplied l) = k == l
same_charge_key (invoice_attempt i n) (supplied l) = false
same_charge_key (supplied k) (invoice_attempt j m) = false

abbrev provider_code : GatewayProvider → ℕ
provider_code stripe = 0
provider_code adyen = 1

pub same_provider :
    (a b : GatewayProvider) → ((provider_code a == provider_code b) ≡ true) ↔ (a ≡ b)
same_provider a b = ground arith

instance abbrev pub provider_eq : Eq GatewayProvider
provider_eq = record { same = λ a b. provider_code a == provider_code b; same_iff = same_provider }

abbrev flag_code : FlagName → ℕ
flag_code billing_service_enabled = 0
flag_code dual_write_enabled = 1

pub same_flag : (a b : FlagName) → ((flag_code a == flag_code b) ≡ true) ↔ (a ≡ b)
same_flag a b = ground arith

instance abbrev pub flag_eq : Eq FlagName
flag_eq = record { same = λ a b. flag_code a == flag_code b; same_iff = same_flag }

abbrev account_code : Account → ℕ
account_code accounts_receivable = 0
account_code revenue = 1
account_code cash = 2
account_code credits = 3
account_code refunds = 4

pub same_account : (a b : Account) → ((account_code a == account_code b) ≡ true) ↔ (a ≡ b)
same_account a b = ground arith

instance abbrev pub account_eq : Eq Account
account_eq = record { same = λ a b. account_code a == account_code b; same_iff = same_account }

abbrev item_type_code : LineItemType → ℕ
item_type_code base_fee = 0
item_type_code employee_cost = 1
item_type_code surcharge = 2
item_type_code credit_applied = 3
item_type_code LineItemType.onboarding = 4
item_type_code LineItemType.one_time = 5
item_type_code LineItemType.recurring = 6
item_type_code one_time_charge = 7
item_type_code onboarding_fee = 8

pub same_item_type :
    (a b : LineItemType) → ((item_type_code a == item_type_code b) ≡ true) ↔ (a ≡ b)
same_item_type a b = ground arith

instance abbrev pub item_type_eq : Eq LineItemType
item_type_eq = record {
  same = λ a b. item_type_code a == item_type_code b;
  same_iff = same_item_type;
}

abbrev invoice_type_code : InvoiceType → ℕ
invoice_type_code InvoiceType.recurring = 0
invoice_type_code InvoiceType.onboarding = 1
invoice_type_code InvoiceType.one_time = 2

pub same_invoice_type :
    (a b : InvoiceType) → ((invoice_type_code a == invoice_type_code b) ≡ true) ↔ (a ≡ b)
same_invoice_type a b = ground arith

instance abbrev pub invoice_type_eq : Eq InvoiceType
invoice_type_eq = record {
  same = λ a b. invoice_type_code a == invoice_type_code b;
  same_iff = same_invoice_type;
}

abbrev method_type_code : PaymentMethodType → ℕ
method_type_code card = 0
method_type_code bank_account = 1
method_type_code bank_transfer = 2

pub same_method_type :
    (a b : PaymentMethodType) → ((method_type_code a == method_type_code b) ≡ true) ↔ (a ≡ b)
same_method_type a b = ground arith

instance abbrev pub method_type_eq : Eq PaymentMethodType
method_type_eq = record {
  same = λ a b. method_type_code a == method_type_code b;
  same_iff = same_method_type;
}
