-- ===== src/Tests/Payments.antt =====
-- Payments, dunning, webhooks, subscriptions and payrolls at concrete inputs.
use edge_billing_service.Base.Int.{◌-ℤ◌, ◌+ℤ◌}
use edge_billing_service.Base.{ℤ, pos, ◌≡◌, refl, none, some, true, [], ◌∷◌, arith}
use edge_billing_service.Calendar.Date.{Date, utc, IsValid, add_months, days_in_month}
use edge_billing_service.StateMachine.Status.{finalized, draft, active, scheduled, ChargeStatus}
use edge_billing_service.Store.Rows.{card, Charge, stripe}
use edge_billing_service.Store.Action.{Store, ok}
use edge_billing_service.Store.Ensures.{Ensures, Returns}
use edge_billing_service.Ledger.Service.{record_payment_succeeded, create_entry}
use edge_billing_service.Outbound.{World}
use edge_billing_service.Charges.Service.{execute_payment_for_invoice}
use edge_billing_service.Charges.Settling.{Pays}
use edge_billing_service.Charges.Liveness.{Cooperates, Chargeable, execute_payment-Returns}
use edge_billing_service.Calendar.Billing.{default_payroll_advance_days}
use edge_billing_service.Subscriptions.Seeding.{Sources}
use edge_billing_service.Generation.Service.{generate_invoices}
use edge_billing_service.Generation.Counts.{Counts, generate_invoices-Returns}
use edge_billing_service.Charges.Payment.{PaysOrKeeps, execute_payment-PaysOrKeeps}
use edge_billing_service.Charges.Idempotency.{Repeats, execute_payment_repeated}
use edge_billing_service.Charges.OneTime.{OnboardingInput, create_onboarding_charge}
use edge_billing_service.Charges.Onboarding.{IsNextPayroll, create_onboarding-IsNextPayroll}
use edge_billing_service.Dunning.Schedule.{schedule_dunning_attempt}
use edge_billing_service.Dunning.Service.{execute_dunning_attempt}
use edge_billing_service.Dunning.Payment.{Retries, execute_dunning-Retries}
use edge_billing_service.Dunning.Chains.{Schedules, schedule_dunning-Schedules}
use edge_billing_service.Subscriptions.Period.{calculate_billing_period_end, period_end-add_months}
use edge_billing_service.Subscriptions.Cycles.{nth_period, nth_period-add_months}
use edge_billing_service.Payroll.{Bonus, RawEmployee, resolve, pick_cycle_bonus}
use edge_billing_service.Payroll.Breakdown.{Picks, pick_cycle_bonus-Picks}
use edge_billing_service.Webhooks.Service.{webhook_payment_succeeded, process_webhook_event}
use edge_billing_service.Webhooks.Books.{Receives, process_webhook-Receives}
use edge_billing_service.Tests.Sample.{sample, today, charge, invoice_of}

-- A gateway that accepts every charge and a queue that takes every message.
abbrev test_world : World
test_world = record {
  create_charge =
      λ request. ok (record { id = 910; status = ChargeStatus.succeeded; failure_message = none });
  delivers = λ e. true;
  message = λ e. "failed";
}

-- The first charge of invoice 10 is pending at the gateway.
abbrev pending_first : Charge
pending_first = record charge { status = ChargeStatus.pending }

-- Subscription 5 bills invoice 10, whose second attempt is due.
abbrev billed : Store
billed = record sample {
  subscriptions =
      record {
        id = 5;
        customer_id = 7;
        status = active;
        amount_cents = pos 10000;
        currency = "usd";
        billing_period_start = utc 2026 2 1;
        billing_period_end = utc 2026 3 1;
        next_billing_date = some (utc 2026 2 28);
      }
      ∷ [];
  invoices =
      record (invoice_of 10 finalized) { subscription_id = some 5 } ∷ invoice_of 11 draft ∷ [];
  charges = pending_first ∷ [];
  dunning_attempts =
      record {
        id = 60;
        invoice_id = 10;
        charge_id = none;
        payment_method_id = none;
        attempt_number = 2;
        scheduled_date = today;
        executed_at = none;
        status = scheduled;
        failure_reason = none;
      }
      ∷ [];
}

-- The second attempt is charged and the invoice paid.
pays_second :
    (execute_payment_for_invoice test_world (1 ∷ 3 ∷ []) 10 1 2 none billed).0
    ≡ ok (record {
      charge_id = 100;
      status = ChargeStatus.succeeded;
      payment_intent_id = some 910;
      failure_reason = none;
    })
unfolding execute_payment_for_invoice record_payment_succeeded create_entry
pays_second = refl

execute_payment-PaysOrKeeps_example :
    PaysOrKeeps 10 billed (execute_payment_for_invoice test_world (1 ∷ 3 ∷ []) 10 1 2 none billed).1
execute_payment-PaysOrKeeps_example =
    execute_payment-PaysOrKeeps test_world (1 ∷ 3 ∷ []) 10 1 2 none billed

test_world-Cooperates : Cooperates test_world
test_world-Cooperates = record {
  answer = λ r. record { id = 910; status = ChargeStatus.succeeded; failure_message = none };
  accepts = λ r. refl;
  succeeds = λ r. refl;
  takes = λ e. refl;
}

billed-Chargeable : Chargeable 10 2 billed
billed-Chargeable = record {
  invoice = record (invoice_of 10 finalized) { subscription_id = some 5 };
  found = refl;
  is_finalized = refl;
  owed = omega arith;
  method = record {
    id = 40;
    customer_id = 7;
    gateway_provider = stripe;
    gateway_method_id = 440;
    type = card;
    is_default = true;
    is_active = true;
    fallback_order = none;
    fingerprint = none;
  };
  has_method = refl;
  at_stripe = refl;
  customer = record {
    id = 7;
    monolith_id = 700;
    name = "Ada";
    email = "ada@example.com";
    stripe_customer_id = some 77;
    charge_day = 31;
    is_prepaid = true;
  };
  has_customer = refl;
  gateway_customer = 77;
  is_known = refl;
  is_new = refl;
  cash_id = 3;
  receivable_id = 1;
  has_cash = refl;
  has_receivable = refl;
}

execute_payment-Returns_example :
    Returns
      (λ r t.
        (r.status ≡ ChargeStatus.succeeded)
        × Pays billed-Chargeable.invoice.id billed-Chargeable.invoice.status
            billed-Chargeable.invoice.total_amount_cents billed t)
      (execute_payment_for_invoice test_world (1 ∷ 3 ∷ []) 10 1 2 none billed)
execute_payment-Returns_example =
    execute_payment-Returns test_world test_world-Cooperates (1 ∷ 3 ∷ []) 10 1 2 billed
      billed-Chargeable

execute_payment_repeated_example :
    Repeats pending_first billed
      (execute_payment_for_invoice test_world (1 ∷ 3 ∷ []) 10 1 1 none billed)
execute_payment_repeated_example =
    execute_payment_repeated test_world (1 ∷ 3 ∷ []) 10 1 1 none pending_first billed refl

execute_dunning-Retries_example :
    Retries 60 billed (execute_dunning_attempt test_world (1 ∷ 3 ∷ []) 2 60 1 billed).1
execute_dunning-Retries_example = execute_dunning-Retries test_world (1 ∷ 3 ∷ []) 2 60 1 billed

schedule_dunning-Schedules_example :
    Returns
      (λ _ t. Schedules (1 ∷ 3 ∷ []) 10 sample t)
      (schedule_dunning_attempt (1 ∷ 3 ∷ []) 10 sample)
schedule_dunning-Schedules_example = schedule_dunning-Schedules (1 ∷ 3 ∷ []) 10 sample

process_webhook-Receives_example :
    Receives billed
      (process_webhook_event test_world 80 stripe (some (webhook_payment_succeeded 900)) 1 billed).1
process_webhook-Receives_example =
    process_webhook-Receives test_world 80 stripe (some (webhook_payment_succeeded 900)) 1 billed

abbrev last_of_january : Date
last_of_january = record (utc 2026 0 31) { millis = 3600000 }

last_of_january-IsValid : IsValid last_of_january
unfolding days_in_month
last_of_january-IsValid = record {
  month_lt = omega arith;
  day_pos = omega arith;
  day_le = ground arith;
  millis_lt = omega arith;
}

period_end-add_months_example :
    calculate_billing_period_end last_of_january
    ≡ record (add_months last_of_january 1) { millis = 3600000 }
period_end-add_months_example = period_end-add_months last_of_january last_of_january-IsValid

today-IsValid : IsValid today
unfolding days_in_month
today-IsValid = record {
  month_lt = omega arith;
  day_pos = omega arith;
  day_le = ground arith;
  millis_lt = omega arith;
}

nth_period-add_months_example : nth_period 3 today ≡ record (add_months today 3) { millis = 0 }
nth_period-add_months_example = nth_period-add_months 3 today today-IsValid (omega arith)

-- A bonus of February, for the cycle of March.
abbrev february_bonus : Bonus
february_bonus = record {
  bonus_month = utc 2026 1 1;
  bonus_cents = pos 50000;
  increment_amount_cents = pos 0;
  created_at = utc 2026 1 20;
}

abbrev engineer : RawEmployee
engineer = record {
  employee_id = 3;
  salary_cents = pos 400000;
  platform_fee_cents = pos 39900;
  discount_config = some (record {
    is_discounted_employee = true;
    flat_rate_cents = pos 9900;
    percentage = pos 0;
    start_date = none;
    duration_months = none;
  });
  bonuses = february_bonus ∷ [];
}

-- No percentage is charged in these examples.
abbrev no_share : ℤ → ℤ → ℤ
no_share percentage fee = pos 0

resolves_engineer : (resolve no_share today (utc 2026 2 1) (engineer ∷ []) (pos 0)).1 ≡ pos 480000
unfolding resolve ◌+ℤ◌ ◌-ℤ◌
resolves_engineer = refl

pick_cycle_bonus-Picks_example :
    Picks
      (utc 2026 2 1)
      (february_bonus ∷ [])
      (pick_cycle_bonus (february_bonus ∷ []) (utc 2026 2 1))
pick_cycle_bonus-Picks_example = pick_cycle_bonus-Picks (february_bonus ∷ []) (utc 2026 2 1)

abbrev onboarding : OnboardingInput
onboarding = record { customer_id = 7; amount_cents = pos 4900; scheduled_date = utc 2026 2 20 }

create_onboarding-IsNextPayroll_example :
    Ensures (λ _ t. IsNextPayroll onboarding sample t) (create_onboarding_charge onboarding sample)
create_onboarding-IsNextPayroll_example = create_onboarding-IsNextPayroll onboarding sample

-- The monolith does not answer, and no line item has a breakdown.
abbrev no_sources : Sources
no_sources = record {
  fetch_payroll = λ customer_id. none;
  recurring_cents = λ li. none;
  ceil_share = no_share;
}

generate_invoices-Returns_example :
    Returns
      (λ r t.
        Counts test_world
          (1 ∷ 3 ∷ [])
          default_payroll_advance_days
          no_sources
          (utc 2026 2 28)
          1
          billed
          r)
      (generate_invoices test_world
        (1 ∷ 3 ∷ [])
        default_payroll_advance_days
        no_sources
        (utc 2026 2 28)
        1
        billed)
generate_invoices-Returns_example =
    generate_invoices-Returns test_world (1 ∷ 3 ∷ []) default_payroll_advance_days no_sources
      (utc 2026 2 28) 1 billed
