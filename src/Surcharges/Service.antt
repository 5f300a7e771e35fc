-- ===== src/Surcharges/Service.antt =====
-- `getConfig`, `upsertConfig` and `deleteConfig` of src/surcharges/surcharge-config.service.ts, with
-- src/surcharges/surcharge-config.repository.ts. The columns that are only shown are left out.
use edge_billing_service.Base.{ℕ, ℤ, Bool, Option, ◌==◌, find, delete}
use edge_billing_service.Base.Upsert.{upsert}
use edge_billing_service.Store.Rows.{SurchargeConfig, SurchargeType}
use edge_billing_service.Store.Constraints.{references_customer}
use edge_billing_service.Store.Action.{Store, Action, pure, modify, ◌>>◌}

-- `UpsertSurchargeConfigDto`
pub record ConfigInput : Type 0 where
  pub allow_credit_card : Bool
  pub surcharge_type : Option SurchargeType
  pub surcharge_value : Option ℤ

abbrev pub is_config_of : ℕ → SurchargeConfig → Bool
is_config_of customer_id c = c.customer_id == customer_id

-- The row that is inserted.
abbrev pub config_row : ℕ → ConfigInput → SurchargeConfig
config_row customer_id dto = record {
  customer_id = customer_id;
  allow_credit_card = dto.allow_credit_card;
  surcharge_type = dto.surcharge_type;
  surcharge_value = dto.surcharge_value;
}

-- The columns that are set where the customer has a row.
abbrev pub set_config : ConfigInput → SurchargeConfig → SurchargeConfig
set_config dto c = record c {
  allow_credit_card = dto.allow_credit_card;
  surcharge_type = dto.surcharge_type;
  surcharge_value = dto.surcharge_value;
}

-- `getConfig`
abbrev pub get_config : ℕ → Store → Option SurchargeConfig
get_config customer_id s = find (is_config_of customer_id) s.surcharge_configs

-- `upsertConfig`: the settings of an unknown customer are refused.
unfoldable pub upsert_config : ℕ → ConfigInput → Action SurchargeConfig
upsert_config customer_id dto =
    references_customer customer_id
    >> modify (λ s. record s {
      surcharge_configs =
          upsert (is_config_of customer_id) (set_config dto) (config_row customer_id dto)
            s.surcharge_configs;
    })
    >> pure (config_row customer_id dto)

-- `deleteConfig`
unfoldable pub delete_config : ℕ → Action (Unit {0})
delete_config customer_id =
    modify
      (λ s. record s { surcharge_configs = delete (is_config_of customer_id) s.surcharge_configs })
