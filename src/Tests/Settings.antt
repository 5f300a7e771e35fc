-- ===== src/Tests/Settings.antt =====
-- Reconciliation, payment methods and the calls of the gateways at concrete inputs.
use Prim.Native.String.{String}
use edge_billing_service.Base.{
  ℕ, zero, suc, pos, ◌-ℤ◌, true, none, some, Option, List, [], ◌∷◌, ◌≡◌, refl, sym, ◌==◌, ◌||◌,
  arith, if◌then◌else◌, ◌++◌,
}
use edge_billing_service.Calendar.Date.{Date, utc}
use edge_billing_service.Store.Action.{Error, business_rule, ok, err, Result}
use edge_billing_service.Store.Ensures.{Returns}
use edge_billing_service.Reconciliation.Compare.{InternalPayment, Transaction, compare_records}
use edge_billing_service.Reconciliation.Reports.{Reports, compare_records-Reports}
use edge_billing_service.Reconciliation.Totals.{compare_records-accounts, sum_differences}
use edge_billing_service.Reconciliation.Service.{run_daily_reconciliation}
use edge_billing_service.Reconciliation.Reruns.{Stores, Settles, run_daily-Returns}
use edge_billing_service.Methods.Service.{MethodGateway, GatewayMethod}
use edge_billing_service.Methods.Steps.{HasOneDefault}
use edge_billing_service.Methods.Calls.{
  MethodRequest, attach_method, set_default_method, detach_method, after_requests,
  after_requests-HasOneDefault,
}
use edge_billing_service.Gateways.Resilience.{
  Answer, returned, threw, timed_out_connection, with_retry, Retries, with_retry-Retries,
}
use edge_billing_service.Gateways.Paging.{Page, list_payment_methods}
use edge_billing_service.Gateways.Pages.{Serves, page_of}
use edge_billing_service.Gateways.Listing.{AreSingle, has_item, list_payment_methods-Lists}
use edge_billing_service.Tests.Sample.{sample, today}

-- Intent 900 differs in its amount and 901 is not known to the gateway.
abbrev our_payments : List InternalPayment
our_payments =
    record { charge_id = 30; intent = 900; amount_cents = pos 10000 }
    ∷ record { charge_id = 31; intent = 901; amount_cents = pos 500 }
    ∷ []

-- Transaction 3 is not known to the service.
abbrev their_transactions : List Transaction
their_transactions =
    record { id = 2; amount = pos 9000; is_charge = true; source = some 900 }
    ∷ record { id = 3; amount = pos 70; is_charge = true; source = some 902 }
    ∷ []

compare_records-Reports_example :
    Reports our_payments their_transactions
      (compare_records our_payments their_transactions).discrepancies
compare_records-Reports_example = compare_records-Reports our_payments their_transactions

compare_records-accounts_example :
    let c = compare_records our_payments their_transactions in
    sum_differences c.discrepancies ≡ c.total_internal_amount_cents -ℤ c.total_stripe_amount_cents
compare_records-accounts_example =
    compare_records-accounts our_payments their_transactions (refl, (refl, tt)) (refl, (refl, tt))
      (λ h. cc, (λ h. cc, tt))

abbrev balance_transactions : Date → Date → Result (List Transaction)
balance_transactions start end = ok their_transactions

abbrev message_of : Error → String
message_of x = "failed"

run_daily-Returns_example :
    Returns
      (λ r t.
        Stores today (utc 2026 2 11) sample r t × Settles message_of today (utc 2026 2 11) r t)
      (run_daily_reconciliation balance_transactions message_of today (utc 2026 2 11) 8 sample)
run_daily-Returns_example =
    run_daily-Returns balance_transactions message_of today (utc 2026 2 11) 8 sample

abbrev new_card : GatewayMethod
new_card = record { id = 441; is_card = true; fingerprint = some 5 }

-- A gateway that answers every call.
abbrev open_gateway : MethodGateway
open_gateway = record {
  attach_payment_method = λ p m c. ok new_card;
  detach_payment_method = λ p m. ok new_card;
  set_default_payment_method = λ p c m. ok tt;
  list_payment_methods = λ p c. ok (new_card ∷ []);
  retrieve_setup_intent = λ i. ok (record { has_succeeded = true; payment_method_id = some 441 });
  confirm_setup = λ i. err business_rule;
}

sample-HasOneDefault : HasOneDefault sample
sample-HasOneDefault = record {
  below = (omega arith, tt);
  distinct = (refl, tt);
  one = λ c. ground arith;
}

-- A second method is attached and becomes the default, and the first is detached.
abbrev requests : List (MethodGateway × MethodRequest)
requests =
    (open_gateway, attach_method 7 441)
    ∷ (open_gateway, set_default_method 7 100)
    ∷ (open_gateway, detach_method 7 40)
    ∷ []

after_requests-HasOneDefault_example : HasOneDefault (after_requests requests sample)
after_requests-HasOneDefault_example =
    after_requests-HasOneDefault requests sample sample-HasOneDefault

-- The first call loses its connection.
abbrev second_time_lucky : ℕ → Answer ℕ
second_time_lucky zero = threw timed_out_connection
second_time_lucky (suc n) = returned 900

with_retry-Retries_example : Retries second_time_lucky 2 0 (with_retry second_time_lucky)
with_retry-Retries_example = with_retry-Retries second_time_lucky

-- A list call with two items to a page.
abbrev fetch_ids : Option ℕ → Page ℕ
fetch_ids none = page_of 2 (5 ∷ 6 ∷ 7 ∷ [])
fetch_ids (some k) = page_of 2 (if k == 5 then 6 ∷ 7 ∷ [] else if k == 6 then 7 ∷ [] else [])

abbrev same_id : ℕ → ℕ
same_id k = k

after_item :
    (before : List ℕ) (y : ℕ) (later : List ℕ)
    → 5 ∷ 6 ∷ 7 ∷ [] ≡ before ++ y ∷ later
    → fetch_ids (some y) ≡ page_of 2 later
after_item [] y later h =
    let at : 5 ≡ y = cc in let rest : 6 ∷ 7 ∷ [] ≡ later = cc in rw (sym at, sym rest) refl
after_item (a ∷ []) y later h =
    let at : 6 ≡ y = cc in let rest : 7 ∷ [] ≡ later = cc in rw (sym at, sym rest) refl
after_item (a ∷ b ∷ []) y later h =
    let at : 7 ≡ y = cc in let rest : [] ≡ later = cc in rw (sym at, sym rest) refl
after_item (a ∷ b ∷ c ∷ []) y later h = cc
after_item (a ∷ b ∷ c ∷ d ∷ before) y later h = cc

ids-Serves : Serves same_id 1 fetch_ids (5 ∷ 6 ∷ 7 ∷ [])
ids-Serves = record { first = refl; next = after_item }

list_payment_methods-Lists_example :
    (r : List ℕ) × (list_payment_methods same_id fetch_ids fetch_ids 4 ≡ some r)
    × AreSingle same_id r
    × ((k : ℕ)
        → has_item same_id k r
          ≡ (has_item same_id k (5 ∷ 6 ∷ 7 ∷ []) || has_item same_id k (5 ∷ 6 ∷ 7 ∷ [])))
list_payment_methods-Lists_example =
    list_payment_methods-Lists same_id 1 1 fetch_ids fetch_ids (5 ∷ 6 ∷ 7 ∷ []) (5 ∷ 6 ∷ 7 ∷ []) 4
      ids-Serves ids-Serves (omega arith) (omega arith)
