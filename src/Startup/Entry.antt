-- ===== src/Startup/Entry.antt =====
-- The entry of the process: Run of internal/outboxer/run.go.
use outboxer.Prelude.{String, Bool, Option, List, Eq}
use outboxer.Prelude.Int.{ℤ}
use outboxer.Value.{Runtime}
use outboxer.Provider.{EventId}
use outboxer.Config.DotEnv.{load_dot_env}
use outboxer.Init.Apply.{InitAnswers}
use outboxer.Init.Command.{InitRun, run_init}
use outboxer.Startup.{
  Answers, Ending, run_relay, Command, relay_command, init_command, unknown_command, command,
}

pub data Outcome : Type 0 where
  relayed : Ending → Outcome
  provisioned : InitRun → Outcome
  rejected : String → Outcome

module _ (rt : Runtime) ⦃e : Eq EventId⦄ (answers : Answers) (init_answers : InitAnswers)
    (sanitize : List String → String) (tag : String) (parse_int : String → Option ℤ) where
  abbrev pub dispatch : List (String × String) → Command → Outcome
  dispatch env (relay_command args) = relayed (run_relay rt answers parse_int env args)
  dispatch env (init_command args) =
      provisioned (run_init init_answers sanitize rt tag parse_int env args)
  dispatch env (unknown_command name) = rejected name

  -- The .env file goes into the environment first, for both commands.
  unfoldable pub run :
      (String → Option String)
      → (String → String → Bool)
      → Option String
      → List (String × String)
      → List String
      → Outcome
  unfolding load_dot_env command run_relay run_init
  run unquote settable file env args =
      dispatch (load_dot_env unquote settable file env) (command args)
