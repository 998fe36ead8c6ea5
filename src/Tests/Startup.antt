-- ===== src/Tests/Startup.antt =====
-- A run of the relay's process, and the instance of its theorem.
use outboxer.Prelude.{
  ℕ, Option, String, Bool, ◌&&◌, true, false, none, some, List, [], ◌∷◌, ◌≡◌, refl, string_eq, ◌==◌,
  if◌then◌else◌,
}
use outboxer.Value.{ok, err}
use outboxer.Config.{default_config}
use outboxer.Startup.{
  context, watchdog, database, provider_client, acquire, release, check_db, check_dlq,
  start_stats_logger, process, log_stats, exit_process, Answers, run_relay, relay_command,
  init_command, unknown_command, command,
}
use outboxer.Startup.Orderly.{IsOrderly, run_relay-IsOrderly}
use outboxer.Tests.{id_eq, test_runtime}
use outboxer.Tests.Config.{naturals}

abbrev relay_env : List (String × String)
relay_env =
    ("SQS_ENABLED", "true")
    ∷ ("DEFAULT_SQS_QUEUE_URL", "https://sqs/queue")
    ∷ ("AWS_REGION", "eu-west-1")
    ∷ ("PUBSUB_ENABLED", "true")
    ∷ ("DEFAULT_PUBSUB_TOPIC", "orders")
    ∷ ("EVENT_TARGET", "target")
    ∷ ("DLQ_TABLE", "disabled")
    ∷ []

-- The SQS client cannot be made, or can; and the watchdog reports a stall, or not.
abbrev answers : Bool → Option ℕ → Answers
answers sqs_fails stall = record {
  stall = stall;
  opened = λ cfg. none;
  built = λ target cfg. if sqs_fails && target == "sqs" then some "no credentials" else none;
  columns = ok ("id" ∷ "timestamp" ∷ "payload" ∷ "target" ∷ []);
  metadata = err "no dead letter table";
  served = none;
  started = 62135596900000000000;
  outbox = record { rows = []; dead_letters = [] };
  turns = [];
}

relay_run :
    (run_relay test_runtime
      (answers false none)
      naturals
      relay_env
      ("--health-port" ∷ "0" ∷ [])).actions
    ≡ acquire context
      ∷ acquire watchdog
      ∷ acquire database
      ∷ acquire (provider_client "pubsub")
      ∷ acquire (provider_client "sqs")
      ∷ check_db
      ∷ check_dlq
      ∷ start_stats_logger
      ∷ process
      ∷ log_stats
      ∷ release (provider_client "sqs")
      ∷ release (provider_client "pubsub")
      ∷ release database
      ∷ release watchdog
      ∷ release context
      ∷ []
unfolding run_relay default_config
relay_run = refl

failed_run :
    (run_relay test_runtime (answers true none) naturals relay_env []).actions
    ≡ acquire context
      ∷ acquire watchdog
      ∷ acquire database
      ∷ acquire (provider_client "pubsub")
      ∷ release (provider_client "pubsub")
      ∷ release database
      ∷ release watchdog
      ∷ release context
      ∷ []
unfolding run_relay default_config
failed_run = refl

-- A stall in the processing loop.
stalled_run :
    (run_relay test_runtime
      (answers false (some 7))
      naturals
      relay_env
      ("--health-port" ∷ "0" ∷ [])).actions
    ≡ acquire context
      ∷ acquire watchdog
      ∷ acquire database
      ∷ acquire (provider_client "pubsub")
      ∷ acquire (provider_client "sqs")
      ∷ check_db
      ∷ check_dlq
      ∷ start_stats_logger
      ∷ process
      ∷ exit_process
      ∷ []
unfolding run_relay default_config
stalled_run = refl

run_relay-IsOrderly_example :
    IsOrderly test_runtime
      (answers false (some 7))
      naturals
      relay_env
      ("--health-port" ∷ "0" ∷ [])
      (run_relay test_runtime
        (answers false (some 7))
        naturals
        relay_env
        ("--health-port" ∷ "0" ∷ []))
run_relay-IsOrderly_example =
    run_relay-IsOrderly test_runtime (answers false (some 7)) naturals relay_env
      ("--health-port" ∷ "0" ∷ [])

command_runs :
    (command ("init" ∷ "--apply" ∷ []) ≡ init_command ("--apply" ∷ []))
    × (command ("--pg-port" ∷ "1" ∷ []) ≡ relay_command ("--pg-port" ∷ "1" ∷ []))
    × (command ("start" ∷ []) ≡ unknown_command "start")
unfolding command
command_runs = (refl, refl, refl)
