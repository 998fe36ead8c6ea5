-- ===== src/Config/Validate.antt =====
-- Configuration validation: internal/outboxer/config_validate.go.
use outboxer.Prelude.{
  String, Bool, true, false, not, ◌&&◌, Option, none, some, List, [], ◌∷◌, if◌then◌else◌, ◌==◌,
  string_eq, nat_eq, is_empty, lookup, insert, length, ltb,
}
use outboxer.Prelude.Int.{pos, ltb_ℤ, nonpositive}
use outboxer.Config.{
  AppConfig, ProviderRoute, ProviderSpec, provider_specs, configured_provider_routes,
}

pub data ConfigValidationMode : Type 0 where
  relay init : ConfigValidationMode

-- The error that validation returns, one constructor for each message.
pub data ConfigError : Type 0 where
  no_event_table no_event_id no_event_payload no_pg_schema dlq_is_event_table : ConfigError
  same_column : String → String → String → ConfigError
  no_provider no_target_column : ConfigError
  no_destination owner_disabled : String → ConfigError
  batch_target_not_positive publish_timeout_not_positive : ConfigError
  max_event_age_negative max_event_age_without_timestamp : ConfigError
  unsupported_identity_provider no_role_arn no_identity_audience : ConfigError

abbrev pub orelse : Option ConfigError → Option ConfigError → Option ConfigError
orelse (some e) _ = some e
orelse none next = next

-- `if test { return problem }`
abbrev pub reject : Bool → ConfigError → Option ConfigError
reject true problem = some problem
reject false problem = none

abbrev pub labelled_columns : AppConfig → List (String × String)
labelled_columns cfg =
    (cfg.event_id, "EVENT_ID")
    ∷ (cfg.event_payload, "EVENT_PAYLOAD")
    ∷ (cfg.event_target, "EVENT_TARGET")
    ∷ (cfg.event_destination, "EVENT_DESTINATION")
    ∷ (cfg.event_timestamp, "EVENT_TIMESTAMP")
    ∷ (cfg.event_options, "EVENT_OPTIONS")
    ∷ []

-- The loop that looks for a column name given twice.
unfoldable pub repeated_column :
    List (String × String) → List (String × String) → Option ConfigError
unfolding lookup insert
repeated_column seen [] = none
repeated_column seen ((value, label) ∷ rest) =
    let fresh = repeated_column (insert value label seen) rest in
    let skipped = repeated_column seen rest in
    if is_empty value then skipped else elim (lookup value seen) [
      | some previous ↦ some (same_column previous label value)
      | none ↦ fresh
    ]

unfoldable pub validate_storage : AppConfig → Option ConfigError
unfolding repeated_column
validate_storage cfg =
    if is_empty cfg.event_table
    then some no_event_table
    else if is_empty cfg.event_id
    then some no_event_id
    else if is_empty cfg.event_payload
    then some no_event_payload
    else if is_empty cfg.pg_schema
    then some no_pg_schema
    else if not (is_empty cfg.dlq_table) && cfg.dlq_table == cfg.event_table
    then some dlq_is_event_table
    else repeated_column [] (labelled_columns cfg)

unfoldable pub missing_destination : AppConfig → List ProviderRoute → Option ConfigError
missing_destination cfg [] = none
missing_destination cfg (route ∷ routes) =
    let rest = missing_destination cfg routes in
    if is_empty route.default_destination && is_empty cfg.event_destination
    then some (no_destination route.target)
    else rest

unfoldable pub disabled_owner : AppConfig → List ProviderSpec → Option ConfigError
disabled_owner cfg [] = none
disabled_owner cfg (spec ∷ specs) =
    let rest = disabled_owner cfg specs in
    if not (spec.enabled cfg) && ltb 0 (length (spec.route cfg).owned_destinations)
    then some (owner_disabled (spec.route cfg).target)
    else rest

-- The checks of the web identity settings, which apply once a provider is named.
unfoldable pub validate_web_identity : AppConfig → Option ConfigError
validate_web_identity cfg =
    if is_empty cfg.aws_web_identity_provider
    then none
    else if not (cfg.aws_web_identity_provider == "google")
    then some unsupported_identity_provider
    else if is_empty cfg.aws_role_arn
    then some no_role_arn
    else if is_empty cfg.aws_web_identity_audience
    then some no_identity_audience
    else none

unfoldable pub validate_limits : AppConfig → Option ConfigError
unfolding validate_web_identity
validate_limits cfg =
    if nonpositive cfg.collect_batch_target
    then some batch_target_not_positive
    else if nonpositive cfg.publish_timeout
    then some publish_timeout_not_positive
    else if ltb_ℤ cfg.max_event_age (pos 0)
    then some max_event_age_negative
    else if ltb_ℤ (pos 0) cfg.max_event_age && is_empty cfg.event_timestamp
    then some max_event_age_without_timestamp
    else validate_web_identity cfg

unfoldable pub validate_runtime : AppConfig → Option ConfigError
unfolding configured_provider_routes missing_destination disabled_owner validate_limits
validate_runtime cfg =
    let routes = configured_provider_routes cfg in
    if length routes == 0
    then some no_provider
    else if ltb 1 (length routes) && is_empty cfg.event_target
    then some no_target_column
    else orelse (missing_destination cfg routes)
        (orelse (disabled_owner cfg provider_specs) (validate_limits cfg))

abbrev runtime_of : ConfigValidationMode → AppConfig → Option ConfigError
unfolding validate_runtime
runtime_of relay cfg = validate_runtime cfg
runtime_of init cfg = none

unfoldable pub validate : ConfigValidationMode → AppConfig → Option ConfigError
unfolding validate_storage validate_runtime runtime_of
validate mode cfg = orelse (validate_storage cfg) (runtime_of mode cfg)
