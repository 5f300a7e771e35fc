-- ===== src/Tests/Sample.antt =====
-- A small database: a customer who pays by card with a surcharge, a finalized and a draft invoice,
-- a credit balance and a charge.
use edge_billing_service.Base.{ℕ, pos, List, [], ◌∷◌, none, some, true}
use edge_billing_service.Calendar.Date.{Date, utc}
use edge_billing_service.StateMachine.Status.{
  InvoiceStatus, draft, finalized, ChargeStatus, RefundStatus,
}
use edge_billing_service.Store.Rows.{
  stripe, invoice_attempt, Account, accounts_receivable, revenue, cash, credits, refunds, Invoice,
  InvoiceType, LineItem, LineItemType, CreditBalance, Charge, Refund, card, percentage,
}
use edge_billing_service.Store.Action.{Store}

abbrev pub today : Date
today = utc 2026 2 10

abbrev pub chart : List (Account × ℕ)
chart = (accounts_receivable, 1) ∷ (revenue, 2) ∷ (cash, 3) ∷ (credits, 4) ∷ (refunds, 5) ∷ []

-- An invoice of customer 7 for 10000 cents.
abbrev pub invoice_of : ℕ → InvoiceStatus → Invoice
invoice_of id status = record {
  id = id;
  customer_id = 7;
  subscription_id = none;
  type = InvoiceType.recurring;
  status = status;
  total_amount_cents = pos 10000;
  currency = "usd";
  billing_period_start = utc 2026 3 1;
  billing_period_end = utc 2026 4 1;
  due_date = utc 2026 2 28;
  paid_at = none;
  voided_at = none;
  credit_adjustment_cents = none;
}

abbrev pub base_item : LineItem
base_item = record {
  id = 20;
  invoice_id = 11;
  type = LineItemType.base_fee;
  amount_cents = pos 9700;
  quantity = 1;
}

abbrev pub surcharge_item : LineItem
surcharge_item = record {
  id = 21;
  invoice_id = 11;
  type = LineItemType.surcharge;
  amount_cents = pos 300;
  quantity = 1;
}

abbrev pub balance : CreditBalance
balance = record { customer_id = 7; balance_cents = pos 2500; currency = "usd" }

abbrev pub charge : Charge
charge = record {
  id = 30;
  invoice_id = 10;
  customer_id = 7;
  payment_method_id = 40;
  amount_cents = pos 10000;
  currency = "usd";
  status = ChargeStatus.succeeded;
  payment_intent_id = some 900;
  idempotency_key = invoice_attempt 10 1;
  attempt_number = 1;
  failure_reason = none;
}

abbrev pub old_refund : Refund
old_refund = record {
  id = 50;
  charge_id = 30;
  invoice_id = 10;
  customer_id = 7;
  amount_cents = pos 6000;
  currency = "usd";
  status = RefundStatus.succeeded;
  idempotency_key = 1;
  gateway_refund_id = some 901;
  failure_reason = none;
}

-- Invoice 10 is finalized and invoice 11 a draft.
abbrev pub sample : Store
sample = record {
  clock = today;
  next_id = 100;
  account_ids = chart;
  customers =
      record {
        id = 7;
        monolith_id = 700;
        name = "Ada";
        email = "ada@example.com";
        stripe_customer_id = some 77;
        charge_day = 31;
        is_prepaid = true;
      }
      ∷ [];
  payment_methods =
      record {
        id = 40;
        customer_id = 7;
        gateway_provider = stripe;
        gateway_method_id = 440;
        type = card;
        is_default = true;
        is_active = true;
        fallback_order = none;
        fingerprint = none;
      }
      ∷ [];
  surcharge_configs =
      record {
        customer_id = 7;
        allow_credit_card = true;
        surcharge_type = some percentage;
        surcharge_value = some (pos 3);
      }
      ∷ [];
  subscriptions = [];
  invoices = invoice_of 10 finalized ∷ invoice_of 11 draft ∷ [];
  line_items = base_item ∷ surcharge_item ∷ [];
  credit_notes = [];
  credit_balances = balance ∷ [];
  ledger_entries = [];
  charges = charge ∷ [];
  refunds = old_refund ∷ [];
  dunning_attempts = [];
  gateway_assignments = [];
  feature_flags = [];
  failed_dual_writes = [];
  processed_events = [];
  webhook_events = [];
  reconciliation_runs = [];
  reconciliation_discrepancies = [];
  outbox = [];
}
