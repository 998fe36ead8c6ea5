-- ===== src/Startup.antt =====
-- The process from start to shutdown: Run and runRelay of internal/outboxer/run.go, with
-- buildProviderSenders of internal/outboxer/providers.go and serveHTTPRequests of http.go.
pub mod Brackets
pub mod Clients
pub mod Orderly
pub mod Entry
pub mod Fit
use Prim.Native.Char.{code}
use Prim.Native.String
use mathlib.Core.List.{reverse}
use outboxer.Prelude.{
  ℕ, String, Bool, true, false, not, Option, none, some, List, [], ◌∷◌, ◌++◌, map, leb, length,
  if◌then◌else◌, nat_beq, ◌==◌, string_eq, Eq,
}
use outboxer.Prelude.Int.{ℤ, pos, nonpositive}
use outboxer.Errors.{Error}
use outboxer.Value.{Runtime, Result, ok, err, Time, Fields}
use outboxer.Provider.{EventId}
use outboxer.FailureLogger.{failure_log_window, new_failure_logger}
use outboxer.Stats.{new_app_stats}
use outboxer.Config.{AppConfig, ProviderSpec, provider_specs, take}
use outboxer.Config.Validate.{ConfigValidationMode, relay, ConfigError, validate}
use outboxer.Config.Options.{load_config}
use outboxer.Database.{check_db_works}
use outboxer.Dlq.{DlqTableMetadata}
use outboxer.Dlq.Load.{DlqCheckError, check_dlq_works}
use outboxer.App.{App}
use outboxer.Processor.Batch.{Outbox}
use outboxer.Processor.Loop.{Turn, LoopState, Exit, running, graceful, fatal, process_events}

-- What is released by a deferred call.
pub data Resource : Type 0 where
  context watchdog database health_server : Resource
  provider_client : String → Resource

pub data Action : Type 0 where
  acquire release : Resource → Action
  check_db check_dlq start_stats_logger process log_stats exit_process : Action

pub data RunError : Type 0 where
  invalid_settings : String → RunError
  invalid_config : ConfigError → RunError
  open_failed : String → RunError
  provider_failed : String → String → RunError
  db_check_failed : String → RunError
  dlq_check_failed : DlqCheckError → RunError
  serve_failed : String → RunError
  process_failed : Error → RunError

-- What a run does, in order, and the error that it returns, unless os.Exit ends the process.
pub record Ending : Type 0 where
  pub actions : List Action
  pub error : Option RunError
  pub exited : Bool

-- What the outside answers at the start, and the turns of the loop. The tables are what the loop
-- finds, and the two checks read what the database says of them. `stall` is after how many actions
-- from its start the watchdog reports a stall, if it does.
pub record Answers : Type 0 where
  pub stall : Option ℕ
  pub opened : AppConfig → Option String
  pub built : String → AppConfig → Option String
  pub columns : Result (List String)
  pub metadata : Result DlqTableMetadata
  pub served : Option String
  pub started : Time
  pub outbox : Outbox
  pub turns : List Turn

abbrev pub failed : RunError → Ending
failed problem = record { actions = []; error = some problem; exited = false }

-- A deferred release runs when everything after it has ended, and not if the process exits.
abbrev pub scoped : Resource → Ending → Ending
scoped r rest = record {
  actions = acquire r ∷ rest.actions ++ (if rest.exited then [] else release r ∷ []);
  error = rest.error;
  exited = rest.exited;
}

abbrev pub before : Action → Ending → Ending
before action rest = record {
  actions = action ∷ rest.actions;
  error = rest.error;
  exited = rest.exited;
}

-- The handler of a stall calls os.Exit(1), if the run has not ended by then.
unfoldable pub stalled : Option ℕ → Ending → Ending
unfolding take
stalled none rest = rest
stalled (some n) rest =
    if leb n (length rest.actions)
    then record {
      actions = take n rest.actions ++ (exit_process ∷ []);
      error = none;
      exited = true;
    }
    else rest

-- What buildProviderSenders does, the list `cleanups` that it returns, and its error.
pub record Built : Type 0 where
  pub actions : List Action
  pub cleanups : List String
  pub error : Option RunError

-- `cleanup`: the loop over the clients from the last one to the first.
unfoldable pub cleanup : List String → List Action
cleanup cleanups = map release (map provider_client (reverse cleanups))

module _ (built : String → AppConfig → Option String) (cfg : AppConfig) where
  abbrev pub with_client : String → Option String → List String → Built → Built
  unfolding cleanup
  with_client target (some problem) cleanups rest = record {
    actions = cleanup cleanups;
    cleanups = [];
    error = some (provider_failed target problem);
  }
  with_client target none cleanups rest = record rest {
    actions = acquire (provider_client target) ∷ rest.actions;
  }

  -- buildProviderSenders: the loop over the specs that are left, with the clients made so far.
  unfoldable pub build_provider_senders : List ProviderSpec → List String → Built
  unfolding with_client
  build_provider_senders [] cleanups = record { actions = []; cleanups = cleanups; error = none }
  build_provider_senders (spec ∷ specs) cleanups =
      let made = build_provider_senders specs (cleanups ++ (spec.target ∷ [])) in
      let skipped = build_provider_senders specs cleanups in
      if spec.enabled cfg
      then with_client spec.target (built spec.target cfg) cleanups made
      else skipped

-- What follows it, with `closeProviders` deferred.
unfoldable pub with_providers : Built → Option RunError → Ending → Ending
unfolding cleanup
with_providers b (some problem) rest = record {
  actions = b.actions;
  error = some problem;
  exited = false;
}
with_providers b none rest = record {
  actions = b.actions ++ (rest.actions ++ (if rest.exited then [] else cleanup b.cleanups));
  error = rest.error;
  exited = rest.exited;
}

abbrev pub sender_targets : AppConfig → List ProviderSpec → List String
sender_targets cfg [] = []
sender_targets cfg (spec ∷ specs) =
    let rest = sender_targets cfg specs in if spec.enabled cfg then spec.target ∷ rest else rest

abbrev pub loop_error : Exit → Option RunError
loop_error running = none
loop_error graceful = none
loop_error (fatal problem) = some (process_failed problem)

abbrev pub new_app : Time → AppConfig → App
unfolding new_failure_logger new_app_stats provider_specs
new_app started cfg = record {
  cfg = cfg;
  senders = sender_targets cfg provider_specs;
  failure_logger = some (new_failure_logger (pos failure_log_window));
  stats = some (new_app_stats started);
  watchdog = some (record { progress = 0 });
  listening = false;
  last_backlog_probe = 0;
}

module _ (rt : Runtime) ⦃e : Eq EventId⦄ (answers : Answers) where
  -- The loop, and the flush of the last statistics.
  unfoldable pub loop : AppConfig → Ending
  unfolding process_events
  loop cfg =
      let end =
        process_events rt answers.turns
          (record { app = new_app answers.started cfg; outbox = answers.outbox; exit = running }) in
      record {
        actions = process ∷ (if nonpositive cfg.stats_interval then [] else log_stats ∷ []);
        error = loop_error end.exit;
        exited = false;
      }

  abbrev pub with_stats : AppConfig → Ending
  with_stats cfg =
      if nonpositive cfg.stats_interval then loop cfg else before start_stats_logger (loop cfg)

  abbrev pub with_server : Option String → Ending → Ending
  with_server (some problem) rest = failed (serve_failed problem)
  with_server none rest = scoped health_server rest

  abbrev pub served : AppConfig → Ending
  served cfg =
      if nonpositive cfg.health_port
      then with_stats cfg
      else with_server answers.served (with_stats cfg)

  abbrev pub dlq_checked : AppConfig → Option DlqCheckError → Ending
  dlq_checked cfg (some problem) = failed (dlq_check_failed problem)
  dlq_checked cfg none = served cfg

  abbrev pub db_checked : AppConfig → Option String → Ending
  db_checked cfg (some problem) = failed (db_check_failed problem)
  db_checked cfg none = before check_dlq (dlq_checked cfg (check_dlq_works cfg answers.metadata))

  abbrev pub db_opened : AppConfig → Option String → Ending
  db_opened cfg (some problem) = failed (open_failed problem)
  db_opened cfg none =
      let b = build_provider_senders answers.built cfg provider_specs [] in
      scoped database (
        with_providers b b.error
          (before check_db (db_checked cfg (check_db_works cfg answers.columns))))

  abbrev pub validated : AppConfig → Option ConfigError → Ending
  validated cfg (some problem) = failed (invalid_config problem)
  validated cfg none =
      scoped context (scoped watchdog (stalled answers.stall (db_opened cfg (answers.opened cfg))))

  abbrev pub loaded : Result AppConfig → Ending
  loaded (err problem) =
      if problem == "flag: help requested"
      then record { actions = []; error = none; exited = false }
      else failed (invalid_settings problem)
  loaded (ok cfg) = validated cfg (validate relay cfg)

  unfoldable pub run_relay : (String → Option ℤ) → List (String × String) → List String → Ending
  unfolding load_config validate check_db_works check_dlq_works build_provider_senders
      with_providers loop stalled provider_specs
  run_relay parse_int env args = loaded (load_config parse_int env args)

-- Run: what the first argument asks for.
pub data Command : Type 0 where
  relay_command init_command : List String → Command
  unknown_command : String → Command

abbrev is_flag : String → Bool
is_flag String.[] = false
is_flag (String.◌∷◌ c s) = nat_beq (code c) b'-'

unfoldable pub command : List String → Command
command [] = relay_command []
command (arg ∷ args) =
    if is_flag arg
    then relay_command (arg ∷ args)
    else if arg == "init"
    then init_command args
    else unknown_command arg
