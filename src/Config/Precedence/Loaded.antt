-- ===== src/Config/Precedence/Loaded.antt =====
-- Where the loaded configuration comes from: loadConfig of internal/outboxer/config.go, with the
-- options of internal/outboxer/config_flags.go.
use outboxer.Prelude.{
  String, Bool, true, false, ◌&&◌, not, Option, some, List, [], ◌∷◌, ◌≡◌, refl, All, In-All, ◌==◌,
  string_eq, lookup, arith,
}
use outboxer.Prelude.Int.{ℤ}
use outboxer.Value.{Result, ok, err, ◌>>=◌}
use outboxer.Config.{AppConfig, default_config, derive_config}
use outboxer.Config.Flags.{CliOption, Cells, Parsed}
use outboxer.Config.Options.{config_options, finalize, parse_settings, finished, load_config}
use outboxer.Config.Precedence.{AreDistinct, After}
use outboxer.Config.Precedence.Settings.{value_given, parse_settings-After}

abbrev all_other : String → List CliOption → Bool
all_other name [] = true
all_other name (o ∷ options) = let rest = all_other name options in not (o.name == name) && rest

abbrev distinct_names : List CliOption → Bool
distinct_names [] = true
distinct_names (o ∷ options) = let rest = distinct_names options in all_other o.name options && rest

all_other-All :
    (name : String) (options : List CliOption)
    → all_other name options ≡ true
    → All (λ (p : CliOption). (p.name == name) ≡ false) options
all_other-All name [] h = tt
all_other-All name (o ∷ options) h = (ground arith, all_other-All name options (ground arith))

distinct_names-AreDistinct :
    (options : List CliOption) → distinct_names options ≡ true → AreDistinct options
distinct_names-AreDistinct [] h = tt
distinct_names-AreDistinct (o ∷ options) h =
    (all_other-All o.name options (ground arith), distinct_names-AreDistinct options (ground arith))

config_options-names : (cfg : AppConfig) → distinct_names (config_options cfg) ≡ true
unfolding config_options
config_options-names cfg = refl

config_options-AreDistinct : (cfg : AppConfig) → AreDistinct (config_options cfg)
config_options-AreDistinct cfg =
    distinct_names-AreDistinct (config_options cfg) (config_options-names cfg)

module _ (parse_int : String → Option ℤ) where
  -- What the variables of all of the relay's options hold, for a command line and an environment.
  abbrev pub AllAfter : List (String × String) → List String → Cells → Type 0
  AllAfter env args cells =
      All
        (λ (o : CliOption).
          After parse_int o.kind (value_given parse_int (config_options default_config) env args o)
            (some o.default) (lookup o.name cells))
        (config_options default_config)

  parsed-AllAfter :
      (env : List (String × String)) (args : List String) (cfg : AppConfig) (r : Result Parsed)
      → parse_settings parse_int (config_options default_config) env args ≡ r
      → (r >>= finished parse_int) ≡ ok cfg
      → (cells : Cells) × (cfg ≡ derive_config (finalize cells default_config))
        × AllAfter env args cells
  parsed-AllAfter env args cfg (err problem) e k = cc k
  parsed-AllAfter env args cfg (ok (cells, a ∷ rest)) e k = cc k
  parsed-AllAfter env args cfg (ok (cells, [])) e k = (
    cells,
    cc k,
    In-All
        (λ (o : CliOption).
          After parse_int o.kind (value_given parse_int (config_options default_config) env args o)
            (some o.default) (lookup o.name cells))
        (config_options default_config)
        (parse_settings-After parse_int (config_options default_config) env args [] cells
          (config_options-AreDistinct default_config) e),
  )

  pub load_config-AllAfter :
      (env : List (String × String)) (args : List String) (cfg : AppConfig)
      → load_config parse_int env args ≡ ok cfg
      → (cells : Cells) × (cfg ≡ derive_config (finalize cells default_config))
        × AllAfter env args cells
  unfolding load_config
  load_config-AllAfter env args cfg h =
      parsed-AllAfter env args cfg
        (parse_settings parse_int (config_options default_config) env args) refl h
