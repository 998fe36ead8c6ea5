-- ===== src/Config.antt =====
-- The configuration (internal/outboxer/config.go) and the provider registry
-- (internal/outboxer/providers.go). Durations are in nanoseconds.
pub mod Validate
pub mod Channel
pub mod Runnable
pub mod Storable
pub mod Lists
pub mod Flags
pub mod Arguments
pub mod DotEnv
pub mod Options
pub mod InitOptions
pub mod Precedence
pub mod Bounds
use Prim.Native.String.{String}
use outboxer.Prelude.{
  ℕ, zero, suc, ◌*◌, Bool, true, false, List, [], ◌∷◌, ◌++◌, length, ltb, if◌then◌else◌,
}
use outboxer.Prelude.Int.{ℤ, pos}
use outboxer.Value.{to_bytes}

pub record AppConfig : Type 0 where
  pub event_table : String
  pub event_id : String
  pub event_timestamp : String
  pub event_payload : String
  pub event_target : String
  pub event_destination : String
  pub event_options : String
  pub collect_batch_target : ℤ
  pub backlog_count_limit : ℤ
  pub sqs_send_concurrency : ℤ
  pub dlq_table : String
  pub notify_channel : List ℕ
  pub log_level : String
  pub log_format : String
  pub watchdog_interval : ℤ
  pub health_port : ℤ
  pub health_stale_after : ℤ
  pub pubsub_enabled : Bool
  pub sqs_enabled : Bool
  pub default_pubsub_topic : String
  pub default_sqs_queue_url : String
  pub pubsub_destinations : List String
  pub sqs_destinations : List String
  pub pubsub_project_id : String
  pub pubsub_api_endpoint : String
  pub sqs_api_endpoint : String
  pub error_cooldown : ℤ
  pub publish_timeout : ℤ
  pub publish_result_grace : ℤ
  pub max_event_age : ℤ
  pub stats_interval : ℤ
  pub pg_host : String
  pub pg_port : ℕ
  pub pg_user : String
  pub pg_password : String
  pub pg_database : String
  pub pg_schema : String
  pub pg_ssl : Bool
  pub pg_ssl_reject_unauthorized : Bool
  pub pg_ssl_root_cert : String
  pub pg_connect_timeout : ℤ
  pub pg_query_timeout : ℤ
  pub pg_init_user : String
  pub pg_init_password : String
  pub pg_producer_roles : List String
  pub aws_region : String
  pub aws_role_arn : String
  pub aws_role_session_name : String
  pub aws_role_duration : ℤ
  pub aws_credential_refresh_window : ℤ
  pub aws_web_identity_provider : String
  pub aws_web_identity_audience : String

-- time.Second
abbrev pub seconds : ℕ → ℤ
seconds n = pos (n * 1000000000)

abbrev pub notify_channel_prefix : List ℕ
notify_channel_prefix = to_bytes "outboxer_"

abbrev pub notify_channel_max_bytes : ℕ
notify_channel_max_bytes = 63

-- `channel[:n]` of a slice that may be shorter
unfoldable pub take {ℓ} : {A : Type ℓ} → ℕ → List A → List A
take zero xs = []
take (suc n) [] = []
take (suc n) (x ∷ xs) = x ∷ take n xs

unfoldable pub derive_notify_channel : String → List ℕ
derive_notify_channel event_table =
    let channel = notify_channel_prefix ++ to_bytes event_table in
    if ltb notify_channel_max_bytes (length channel)
    then take notify_channel_max_bytes channel
    else channel

-- deriveConfig
unfoldable pub derive_config : AppConfig → AppConfig
derive_config cfg = record cfg { notify_channel = derive_notify_channel cfg.event_table }

unfoldable pub default_config : AppConfig
unfolding derive_notify_channel take to_bytes
default_config = record {
  event_table = "events";
  event_id = "id";
  event_timestamp = "timestamp";
  event_payload = "payload";
  event_target = "target";
  event_destination = "destination";
  event_options = "options";
  collect_batch_target = pos 10000;
  backlog_count_limit = pos 100000;
  sqs_send_concurrency = pos 128;
  dlq_table = "";
  notify_channel = derive_notify_channel "events";
  log_level = "info";
  log_format = "text";
  watchdog_interval = seconds 600;
  health_port = pos 0;
  health_stale_after = seconds 300;
  pubsub_enabled = false;
  sqs_enabled = false;
  default_pubsub_topic = "default";
  default_sqs_queue_url = "";
  pubsub_destinations = [];
  sqs_destinations = [];
  pubsub_project_id = "";
  pubsub_api_endpoint = "";
  sqs_api_endpoint = "";
  error_cooldown = seconds 5;
  publish_timeout = seconds 30;
  publish_result_grace = seconds 5;
  max_event_age = pos 0;
  stats_interval = seconds 10;
  pg_host = "localhost";
  pg_port = 5432;
  pg_user = "postgres";
  pg_password = "";
  pg_database = "postgres";
  pg_schema = "public";
  pg_ssl = false;
  pg_ssl_reject_unauthorized = true;
  pg_ssl_root_cert = "";
  pg_connect_timeout = seconds 10;
  pg_query_timeout = seconds 30;
  pg_init_user = "";
  pg_init_password = "";
  pg_producer_roles = [];
  aws_region = "";
  aws_role_arn = "";
  aws_role_session_name = "outboxer";
  aws_role_duration = seconds 3600;
  aws_credential_refresh_window = seconds 300;
  aws_web_identity_provider = "";
  aws_web_identity_audience = "";
}

abbrev pub event_target_pubsub : String
event_target_pubsub = "pubsub"

abbrev pub event_target_sqs : String
event_target_sqs = "sqs"

pub record ProviderRoute : Type 0 where
  pub target : String
  pub default_destination : String
  pub owned_destinations : List String

pub record ProviderSpec : Type 0 where
  pub target : String
  pub enabled : AppConfig → Bool
  pub route : AppConfig → ProviderRoute

unfoldable pub provider_specs : List ProviderSpec
provider_specs =
    record {
      target = event_target_pubsub;
      enabled = λ cfg. cfg.pubsub_enabled;
      route = λ cfg. record {
        target = event_target_pubsub;
        default_destination = cfg.default_pubsub_topic;
        owned_destinations = cfg.pubsub_destinations;
      };
    }
    ∷ record {
      target = event_target_sqs;
      enabled = λ cfg. cfg.sqs_enabled;
      route = λ cfg. record {
        target = event_target_sqs;
        default_destination = cfg.default_sqs_queue_url;
        owned_destinations = cfg.sqs_destinations;
      };
    }
    ∷ []

abbrev routes_of : AppConfig → List ProviderSpec → List ProviderRoute
routes_of cfg [] = []
routes_of cfg (spec ∷ specs) =
    let rest = routes_of cfg specs in if spec.enabled cfg then spec.route cfg ∷ rest else rest

unfoldable pub configured_provider_routes : AppConfig → List ProviderRoute
unfolding provider_specs
configured_provider_routes cfg = routes_of cfg provider_specs
