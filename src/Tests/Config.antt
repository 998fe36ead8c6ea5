-- ===== src/Tests/Config.antt =====
-- Runs of the configuration's parsing, and the instances of its theorems.
use outboxer.Prelude.{
  String, true, lookup, format, ◌==◌, if◌then◌else◌, Option, none, some, List, [], ◌∷◌, ◌≡◌, refl,
  ◌↔◌, ◌≤◌, ◌*◌, codes, string_eq,
}
use outboxer.Prelude.Int.{ℤ, pos}
use outboxer.Value.{Result, ok, err}
use outboxer.Config.{AppConfig, default_config, derive_config}
use outboxer.Config.Lists.{parse_string_list, join_strings}
use outboxer.Config.Flags.{Cells, digits_after}
use outboxer.Config.Options.{finalize, milliseconds, load_config}
use outboxer.Config.DotEnv.{lines, load_dot_env, first_assigned, or_else, lookup-load_dot_env}
use outboxer.Config.Bounds.{milliseconds_iff}
use outboxer.Config.Precedence.Loaded.{AllAfter, load_config-AllAfter}

abbrev pub naturals : String → Option ℤ
naturals s = elim (digits_after 0 (codes s)) [ some n ↦ some (pos n) | none ↦ none ]

abbrev sample_env : List (String × String)
sample_env = ("PORT", "9000") ∷ ("PG_HOST", "db") ∷ ("SQS_ENABLED", "true") ∷ []

abbrev sample_args : List String
sample_args = "--pg-host" ∷ "other" ∷ "-sqs-destinations=a, b" ∷ "-pg-host=last" ∷ []

abbrev loaded : Result AppConfig → AppConfig
loaded (ok cfg) = cfg
loaded (err problem) = default_config

abbrev sample_config : AppConfig
sample_config = loaded (load_config naturals sample_env sample_args)

sample_loads : load_config naturals sample_env sample_args ≡ ok sample_config
unfolding load_config
sample_loads = refl

sample_fields :
    (sample_config.pg_host ≡ "last")
    × (sample_config.health_port ≡ pos 9000)
    × (sample_config.sqs_destinations ≡ "a" ∷ "b" ∷ [])
    × (sample_config.sqs_enabled ≡ true)
    × (sample_config.pg_port ≡ 5432)
unfolding load_config
sample_fields = (refl, refl, refl, refl, refl)

load_config-AllAfter_example :
    (cells : Cells) × (sample_config ≡ derive_config (finalize cells default_config))
    × AllAfter naturals sample_env sample_args cells
load_config-AllAfter_example =
    load_config-AllAfter naturals sample_env sample_args sample_config sample_loads

retired_run :
    load_config naturals (("NOTIFY_CHANNEL", "x") ∷ []) []
    ≡ err "NOTIFY_CHANNEL was removed; unset it"
unfolding load_config
retired_run = refl

wrapped_run : milliseconds (pos 18446744073710) ≡ pos 448384
unfolding milliseconds
wrapped_run = refl

milliseconds_iff_example : (milliseconds (pos 5000) ≡ pos (5000 * 1000000)) ↔ (5000 ≤ 9223372036854)
milliseconds_iff_example = milliseconds_iff 5000

list_run :
    parse_string_list (join_strings ("orders" ∷ "arn:aws:sqs" ∷ [])) ≡ "orders" ∷ "arn:aws:sqs" ∷ []
unfolding parse_string_list join_strings format
list_run = refl

trimmed_run : parse_string_list " a ,, b" ≡ "a" ∷ "b" ∷ []
unfolding parse_string_list
trimmed_run = refl

abbrev env_file : String
env_file = "# local\n export PG_HOST = \"db\" \nPG_HOST=other\nPORT=1\n=x\nplain"

abbrev port_env : List (String × String)
port_env = ("PORT", "") ∷ []

abbrev never_quoted : String → Option String
never_quoted value = if value == "\"db\"" then some "db" else none

env_file_run :
    load_dot_env never_quoted (λ key value. true) (some env_file) port_env
    ≡ ("PORT", "") ∷ ("PG_HOST", "db") ∷ []
unfolding load_dot_env
env_file_run = refl

lookup-load_dot_env_example :
    lookup "PG_HOST" (load_dot_env never_quoted (λ key value. true) (some env_file) port_env)
    ≡ or_else never_quoted
        (λ key value. true)
        (lookup "PG_HOST" port_env)
        (first_assigned never_quoted (λ key value. true) "PG_HOST" (lines env_file))
lookup-load_dot_env_example =
    lookup-load_dot_env never_quoted (λ key value. true) "PG_HOST" env_file port_env
