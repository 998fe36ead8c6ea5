-- ===== src/Config/Options.antt =====
-- The relay's options and how they make up the configuration: bindConfigFlags and the parser of
-- internal/outboxer/config_flags.go, with loadConfig of config.go.
use outboxer.Prelude.{
  ℕ, ◌+◌, ◌-◌, ◌*◌, ◌/◌, ◌%◌, ◌^◌, String, Bool, false, Option, none, some, List, [], ◌∷◌,
  if◌then◌else◌, nat_beq, ltb, lookup, format, string_eq,
}
use outboxer.Prelude.Int.{ℤ, pos, negsuc}
use outboxer.Value.{Result, ok, err, ◌>>=◌}
use outboxer.Config.{AppConfig, default_config, derive_config}
use outboxer.Config.Lists.{parse_string_list, join_strings}
use outboxer.Config.Flags.{
  Setting, text, integer, switch, port, FlagKind, non_empty, disableable, secret, int_flag,
  bool_flag, uint16_flag, CliOption, Cells, Parsed, apply_env, retired_env_vars, reject_retired_env,
}
use outboxer.Config.Arguments.{parse_args}

abbrev pub option : FlagKind → String → Setting → String → CliOption
option kind name default env = record {
  name = name;
  kind = kind;
  default = default;
  env_vars = env ∷ [];
}

-- `time.Duration(ms) * time.Millisecond`, in 64 bits
abbrev pub wrapped : ℕ → ℤ
wrapped low = if ltb low (2 ^ 63) then pos low else negsuc (2 ^ 64 - 1 - low)

unfoldable pub milliseconds : ℤ → ℤ
milliseconds (pos n) = wrapped (n * 1000000 % 2 ^ 64)
milliseconds (negsuc n) = wrapped ((2 ^ 64 - (n + 1) * 1000000 % 2 ^ 64) % 2 ^ 64)

-- `int(d / time.Millisecond)`
abbrev pub in_milliseconds : ℤ → ℤ
in_milliseconds (pos n) = pos (n / 1000000)
in_milliseconds (negsuc n) =
    if nat_beq ((n + 1) / 1000000) 0 then pos 0 else negsuc ((n + 1) / 1000000 - 1)

-- The options that bindConfigFlags registers, with the configuration's values as defaults.
unfoldable pub config_options : AppConfig → List CliOption
unfolding join_strings
config_options cfg =
    option non_empty "event-table" (text cfg.event_table) "EVENT_TABLE"
    ∷ option non_empty "event-id" (text cfg.event_id) "EVENT_ID"
    ∷ option disableable "event-timestamp" (text cfg.event_timestamp) "EVENT_TIMESTAMP"
    ∷ option non_empty "event-payload" (text cfg.event_payload) "EVENT_PAYLOAD"
    ∷ option disableable "event-target" (text cfg.event_target) "EVENT_TARGET"
    ∷ option disableable "event-destination" (text cfg.event_destination) "EVENT_DESTINATION"
    ∷ option disableable "event-options" (text cfg.event_options) "EVENT_OPTIONS"
    ∷ option int_flag "collect-batch-target" (integer cfg.collect_batch_target)
        "COLLECT_BATCH_TARGET"
    ∷ option disableable "dlq-table" (text cfg.dlq_table) "DLQ_TABLE"
    ∷ option int_flag "publish-timeout-ms" (integer (in_milliseconds cfg.publish_timeout))
        "PUBLISH_TIMEOUT_MS"
    ∷ option int_flag "max-event-age-ms" (integer (in_milliseconds cfg.max_event_age))
        "MAX_EVENT_AGE_MS"
    ∷ record {
      name = "health-port";
      kind = int_flag;
      default = integer cfg.health_port;
      env_vars = "HEALTH_PORT" ∷ "PORT" ∷ [];
    }
    ∷ option non_empty "log-level" (text cfg.log_level) "LOG_LEVEL"
    ∷ option non_empty "log-format" (text cfg.log_format) "LOG_FORMAT"
    ∷ option non_empty "pg-host" (text cfg.pg_host) "PG_HOST"
    ∷ option uint16_flag "pg-port" (port cfg.pg_port) "PG_PORT"
    ∷ option non_empty "pg-user" (text cfg.pg_user) "PG_USER"
    ∷ option secret "pg-password" (text cfg.pg_password) "PG_PASSWORD"
    ∷ option non_empty "pg-database" (text cfg.pg_database) "PG_DATABASE"
    ∷ option non_empty "pg-schema" (text cfg.pg_schema) "PG_SCHEMA"
    ∷ option bool_flag "pg-ssl" (switch cfg.pg_ssl) "PG_SSL"
    ∷ option bool_flag "pg-ssl-reject-unauthorized" (switch cfg.pg_ssl_reject_unauthorized)
        "PG_SSL_REJECT_UNAUTHORIZED"
    ∷ option non_empty "pg-ssl-root-cert" (text cfg.pg_ssl_root_cert) "PG_SSL_ROOT_CERT"
    ∷ option int_flag "pg-query-timeout-ms" (integer (in_milliseconds cfg.pg_query_timeout))
        "PG_QUERY_TIMEOUT_MS"
    ∷ option bool_flag "pubsub-enabled" (switch cfg.pubsub_enabled) "PUBSUB_ENABLED"
    ∷ option disableable "default-pubsub-topic" (text cfg.default_pubsub_topic)
        "DEFAULT_PUBSUB_TOPIC"
    ∷ option non_empty "pubsub-destinations" (text (join_strings cfg.pubsub_destinations))
        "PUBSUB_DESTINATIONS"
    ∷ option non_empty "pubsub-project-id" (text cfg.pubsub_project_id) "PUBSUB_PROJECT_ID"
    ∷ option non_empty "pubsub-api-endpoint" (text cfg.pubsub_api_endpoint) "PUBSUB_API_ENDPOINT"
    ∷ option bool_flag "sqs-enabled" (switch cfg.sqs_enabled) "SQS_ENABLED"
    ∷ option disableable "default-sqs-queue-url" (text cfg.default_sqs_queue_url)
        "DEFAULT_SQS_QUEUE_URL"
    ∷ option non_empty "sqs-destinations" (text (join_strings cfg.sqs_destinations))
        "SQS_DESTINATIONS"
    ∷ option non_empty "sqs-api-endpoint" (text cfg.sqs_api_endpoint) "SQS_API_ENDPOINT"
    ∷ option non_empty "aws-region" (text cfg.aws_region) "AWS_REGION"
    ∷ option non_empty "aws-role-arn" (text cfg.aws_role_arn) "AWS_ROLE_ARN"
    ∷ option non_empty "aws-role-session-name" (text cfg.aws_role_session_name)
        "AWS_ROLE_SESSION_NAME"
    ∷ option disableable "aws-web-identity-provider" (text cfg.aws_web_identity_provider)
        "AWS_WEB_IDENTITY_PROVIDER"
    ∷ option non_empty "aws-web-identity-audience" (text cfg.aws_web_identity_audience)
        "AWS_WEB_IDENTITY_AUDIENCE"
    ∷ []

abbrev pub text_at : String → Cells → String
text_at name cells = elim (lookup name cells) [
  | some v ↦ (elim v [ text s ↦ s | _ ↦ "" ])
  | none ↦ ""
]

abbrev integer_at : String → Cells → ℤ
integer_at name cells = elim (lookup name cells) [
  | some v ↦ (elim v [ integer n ↦ n | _ ↦ pos 0 ])
  | none ↦ pos 0
]

abbrev pub switch_at : String → Cells → Bool
switch_at name cells = elim (lookup name cells) [
  | some v ↦ (elim v [ switch b ↦ b | _ ↦ false ])
  | none ↦ false
]

abbrev port_at : String → Cells → ℕ
port_at name cells = elim (lookup name cells) [
  | some v ↦ (elim v [ port n ↦ n | _ ↦ 0 ])
  | none ↦ 0
]

-- The variables that the flags are bound to, with the conversions of bindConfigFlags' finalizer.
unfoldable pub finalize : Cells → AppConfig → AppConfig
unfolding lookup milliseconds parse_string_list
finalize cells cfg = record cfg {
  event_table = text_at "event-table" cells;
  event_id = text_at "event-id" cells;
  event_timestamp = text_at "event-timestamp" cells;
  event_payload = text_at "event-payload" cells;
  event_target = text_at "event-target" cells;
  event_destination = text_at "event-destination" cells;
  event_options = text_at "event-options" cells;
  collect_batch_target = integer_at "collect-batch-target" cells;
  dlq_table = text_at "dlq-table" cells;
  publish_timeout = milliseconds (integer_at "publish-timeout-ms" cells);
  max_event_age = milliseconds (integer_at "max-event-age-ms" cells);
  health_port = integer_at "health-port" cells;
  log_level = text_at "log-level" cells;
  log_format = text_at "log-format" cells;
  pg_host = text_at "pg-host" cells;
  pg_port = port_at "pg-port" cells;
  pg_user = text_at "pg-user" cells;
  pg_password = text_at "pg-password" cells;
  pg_database = text_at "pg-database" cells;
  pg_schema = text_at "pg-schema" cells;
  pg_ssl = switch_at "pg-ssl" cells;
  pg_ssl_reject_unauthorized = switch_at "pg-ssl-reject-unauthorized" cells;
  pg_ssl_root_cert = text_at "pg-ssl-root-cert" cells;
  pg_query_timeout = milliseconds (integer_at "pg-query-timeout-ms" cells);
  pubsub_enabled = switch_at "pubsub-enabled" cells;
  default_pubsub_topic = text_at "default-pubsub-topic" cells;
  pubsub_destinations = parse_string_list (text_at "pubsub-destinations" cells);
  pubsub_project_id = text_at "pubsub-project-id" cells;
  pubsub_api_endpoint = text_at "pubsub-api-endpoint" cells;
  sqs_enabled = switch_at "sqs-enabled" cells;
  default_sqs_queue_url = text_at "default-sqs-queue-url" cells;
  sqs_destinations = parse_string_list (text_at "sqs-destinations" cells);
  sqs_api_endpoint = text_at "sqs-api-endpoint" cells;
  aws_region = text_at "aws-region" cells;
  aws_role_arn = text_at "aws-role-arn" cells;
  aws_role_session_name = text_at "aws-role-session-name" cells;
  aws_web_identity_provider = text_at "aws-web-identity-provider" cells;
  aws_web_identity_audience = text_at "aws-web-identity-audience" cells;
}

abbrev pub default_cells : List CliOption → Cells
default_cells [] = []
default_cells (o ∷ options) = (o.name, o.default) ∷ default_cells options

-- The settings that the environment and the command line leave: what configParser.parse does
-- before it finalizes, for any list of options.
module _ (parse_int : String → Option ℤ) where
  unfoldable pub parse_settings :
      List CliOption → List (String × String) → List String → Result Parsed
  unfolding reject_retired_env apply_env parse_args
  parse_settings options env args = elim (reject_retired_env env retired_env_vars) [
    | some problem ↦ err problem
    | none ↦ do
      cells ← apply_env parse_int options env options (default_cells options)
      parse_args parse_int options cells args
  ]

  abbrev pub finished : Parsed → Result AppConfig
  finished (cells, []) = ok (derive_config (finalize cells default_config))
  finished (cells, a ∷ rest) = err (format ("unexpected argument: " ∷ a ∷ []))

  -- loadConfig
  unfoldable pub load_config : List (String × String) → List String → Result AppConfig
  unfolding parse_settings config_options default_config derive_config finalize
  load_config env args = do
    parsed ← parse_settings (config_options default_config) env args
    finished parsed
