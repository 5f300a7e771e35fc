-- ===== src/FeatureFlags/Service.antt =====
-- Setting flags: src/feature-flags/feature-flags.service.ts and
-- src/feature-flags/feature-flags.repository.ts. The metadata of a flag is left out.
use edge_billing_service.Base.{ℕ, Bool, true, false, ◌&&◌, List, [], ◌∷◌, ◌==◌, ◌===◌, update}
use edge_billing_service.Base.Upsert.{upsert}
use edge_billing_service.Store.Rows.{FlagName, FeatureFlag, flag_eq}
use edge_billing_service.Store.Constraints.{references_customer}
use edge_billing_service.Store.Action.{Action, pure, modify, transaction, ◌>>◌}

abbrev pub is_flag : ℕ → FlagName → FeatureFlag → Bool
is_flag customer_id name f = (f.customer_id == customer_id) && (f.name === name)

abbrev pub set_enabled : Bool → FeatureFlag → FeatureFlag
set_enabled enabled f = record f { enabled = enabled }

-- `upsert`: a flag of an unknown customer is refused. A row that conflicts has a customer, since
-- customers are never deleted.
abbrev pub upsert_flag : ℕ → FlagName → Bool → Action (Unit {0})
upsert_flag customer_id name enabled =
    references_customer customer_id
    >> modify (λ s. record s {
      feature_flags =
          upsert (is_flag customer_id name) (set_enabled enabled)
            (record { customer_id = customer_id; name = name; enabled = enabled }) s.feature_flags;
    })

-- `disable`
abbrev pub disable : ℕ → FlagName → Action (Unit {0})
disable customer_id name = modify (λ s. record s {
  feature_flags = update (is_flag customer_id name) (set_enabled false) s.feature_flags;
})

-- `enableFlag`
unfoldable pub enable_flag : ℕ → FlagName → Action (Unit {0})
enable_flag customer_id name = upsert_flag customer_id name true

-- `disableFlag`
unfoldable pub disable_flag : ℕ → FlagName → Action (Unit {0})
disable_flag customer_id name = disable customer_id name

-- `bulkEnableInTx`
abbrev pub bulk_enable : List ℕ → FlagName → Action (Unit {0})
bulk_enable [] name = pure tt
bulk_enable (c ∷ cs) name = upsert_flag c name true >> bulk_enable cs name

-- `bulkDisableInTx`
abbrev pub bulk_disable : List ℕ → FlagName → Action (Unit {0})
bulk_disable [] name = pure tt
bulk_disable (c ∷ cs) name = disable c name >> bulk_disable cs name

-- `enableFlagBulk`
unfoldable pub enable_flag_bulk : List ℕ → FlagName → Action (Unit {0})
enable_flag_bulk customer_ids name = transaction (bulk_enable customer_ids name)

-- `disableFlagBulk`
unfoldable pub disable_flag_bulk : List ℕ → FlagName → Action (Unit {0})
disable_flag_bulk customer_ids name = transaction (bulk_disable customer_ids name)
