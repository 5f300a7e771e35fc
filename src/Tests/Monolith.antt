-- ===== src/Tests/Monolith.antt =====
-- The events of customers and the settings of flags and surcharges at concrete inputs.
use edge_billing_service.Base.{pos, true, false, none, some, List, [], ◌∷◌, ◌≡◌}
use edge_billing_service.Store.Rows.{percentage, billing_service_enabled, dual_write_enabled}
use edge_billing_service.Store.Action.{ok, err, business_rule}
use edge_billing_service.Outbound.{is_enabled}
use edge_billing_service.FeatureFlags.Asked.{
  FlagRequest, enable_many, disable_many, enable_one, all_asked,
}
use edge_billing_service.FeatureFlags.Stored.{flags_of}
use edge_billing_service.FeatureFlags.Requests.{after_requests, after_requests-flags}
use edge_billing_service.Store.Constraints.{is_known}
use edge_billing_service.Surcharges.Service.{get_config}
use edge_billing_service.Surcharges.Requests as Settings
use edge_billing_service.Surcharges.Requests.{
  ConfigRequest, put_config, drop_config, after_requests-get,
}
use edge_billing_service.Customers.Service.{CreatedPayload, CustomerGateway, create_from_event}
use edge_billing_service.Customers.Rows.{Keeps}
use edge_billing_service.Customers.Events.{
  Creates, create_from_event-Creates, CustomerEvent, created, updated, after_events,
  after_events-Keeps,
}
use edge_billing_service.Tests.Sample.{sample}

-- Customer 8 is not known.
abbrev flag_requests : List FlagRequest
flag_requests =
    enable_many (7 ∷ []) billing_service_enabled
    ∷ enable_many (7 ∷ 8 ∷ []) dual_write_enabled
    ∷ disable_many (8 ∷ []) billing_service_enabled
    ∷ enable_one 7 dual_write_enabled
    ∷ []

after_requests-flags_example :
    is_enabled 7 billing_service_enabled (after_requests flag_requests sample)
    ≡ all_asked (λ k. is_known k sample) flag_requests (flags_of sample) 7 billing_service_enabled
after_requests-flags_example = after_requests-flags flag_requests sample 7 billing_service_enabled

abbrev config_requests : List ConfigRequest
config_requests =
    drop_config 7
    ∷ put_config 7 (record {
      allow_credit_card = true;
      surcharge_type = some percentage;
      surcharge_value = some (pos 4);
    })
    ∷ []

after_requests-get_example :
    get_config 7 (Settings.after_requests config_requests sample)
    ≡ Settings.all_asked (is_known 7 sample) config_requests 7 (get_config 7 sample)
after_requests-get_example = after_requests-get config_requests sample 7

-- A gateway that knows every customer.
abbrev ready_gateway : CustomerGateway
ready_gateway = record {
  create_customer = λ email name id monolith_id. ok 78;
  update_customer = λ id email name. err business_rule;
}

abbrev new_customer : CreatedPayload
new_customer = record {
  monolith_id = 701;
  name = "Grace";
  email = "grace@example.com";
  charge_day = none;
  is_prepaid = some false;
}

create_from_event-Creates_example :
    Creates new_customer sample (create_from_event ready_gateway new_customer sample)
create_from_event-Creates_example = create_from_event-Creates ready_gateway new_customer sample

abbrev events : List (CustomerGateway × CustomerEvent)
events =
    (ready_gateway, created new_customer)
    ∷ (
      ready_gateway,
      updated
          (record { monolith_id = 700; name = some "Ada L."; email = none; has_metadata = false }),
    )
    ∷ []

after_events-Keeps_example : Keeps sample (after_events events sample)
after_events-Keeps_example = after_events-Keeps events sample
