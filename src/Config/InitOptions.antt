-- ===== src/Config/InitOptions.antt =====
-- The options of the init command: loadInitConfig of internal/outboxer/config.go.
use outboxer.Prelude.{String, Bool, false, Option, List, [], ◌∷◌, ◌++◌, format, string_eq}
use outboxer.Prelude.Int.{ℤ}
use outboxer.Value.{Result, ok, err, ◌>>=◌}
use outboxer.Config.{AppConfig, default_config, derive_config}
use outboxer.Config.Lists.{parse_string_list, join_strings}
use outboxer.Config.Flags.{text, switch, non_empty, secret, bool_flag, CliOption, Cells, Parsed}
use outboxer.Config.Options.{option, config_options, finalize, text_at, switch_at, parse_settings}

-- `apply` has no environment variable.
unfoldable pub init_options : AppConfig → List CliOption
unfolding config_options join_strings
init_options cfg =
    config_options cfg
    ++ (record { name = "apply"; kind = bool_flag; default = switch false; env_vars = [] }
        ∷ option non_empty "pg-init-user" (text cfg.pg_init_user) "PG_INIT_USER"
        ∷ option secret "pg-init-password" (text cfg.pg_init_password) "PG_INIT_PASSWORD"
        ∷ option non_empty "pg-producer-roles" (text (join_strings cfg.pg_producer_roles))
            "PG_PRODUCER_ROLES"
        ∷ [])

unfoldable pub finalize_init : Cells → AppConfig → AppConfig
unfolding finalize parse_string_list
finalize_init cells cfg = record (derive_config (finalize cells cfg)) {
  pg_init_user = text_at "pg-init-user" cells;
  pg_init_password = text_at "pg-init-password" cells;
  pg_producer_roles = parse_string_list (text_at "pg-producer-roles" cells);
}

abbrev pub finished_init : Parsed → Result (AppConfig × Bool)
finished_init (cells, []) = ok (finalize_init cells default_config, switch_at "apply" cells)
finished_init (cells, a ∷ rest) = err (format ("unexpected argument: " ∷ a ∷ []))

-- The configuration, and whether to apply it.
unfoldable pub load_init_config :
    (String → Option ℤ) → List (String × String) → List String → Result (AppConfig × Bool)
unfolding parse_settings init_options default_config derive_config finalize_init
load_init_config parse_int env args = do
  parsed ← parse_settings parse_int (init_options default_config) env args
  finished_init parsed
