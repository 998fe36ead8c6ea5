-- ===== src/Init/Command.antt =====
-- The init command: runInit of internal/outboxer/init.go.
use outboxer.Prelude.{String, Bool, true, Option, none, some, List, if◌then◌else◌, ◌==◌, string_eq}
use outboxer.Prelude.Int.{ℤ}
use outboxer.Value.{Runtime, Result, ok, err}
use outboxer.Config.{AppConfig}
use outboxer.Config.Validate.{ConfigError, init, validate}
use outboxer.Config.InitOptions.{load_init_config}
use outboxer.Init.{build_init_statements, render_init_script}
use outboxer.Init.Apply.{InitAnswers, InitOutcome, apply_init}

pub data InitRun : Type 0 where
  helped : InitRun
  invalid_settings : String → InitRun
  invalid_config : ConfigError → InitRun
  printed : String → InitRun
  applied : InitOutcome → InitRun

module _ (answers : InitAnswers) (sanitize : List String → String) (rt : Runtime)
    (tag : String) where
  abbrev pub validated : AppConfig → Bool → Option ConfigError → InitRun
  validated cfg apply (some problem) = invalid_config problem
  validated cfg apply none =
      if apply
      then applied (apply_init answers sanitize rt tag cfg)
      else printed (render_init_script (build_init_statements sanitize rt tag cfg true))

  abbrev pub loaded : Result (AppConfig × Bool) → InitRun
  loaded (err problem) =
      if problem == "flag: help requested" then helped else invalid_settings problem
  loaded (ok (cfg, apply)) = validated cfg apply (validate init cfg)

  unfoldable pub run_init : (String → Option ℤ) → List (String × String) → List String → InitRun
  unfolding load_init_config validate apply_init render_init_script build_init_statements
  run_init parse_int env args = loaded (load_init_config parse_int env args)
