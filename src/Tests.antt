-- ===== src/Tests.antt =====
-- Concrete runs: the values that the tests share.
pub mod Config
pub mod Provision
pub mod Startup
pub mod Relay
pub mod Parts
pub mod Routes
pub mod SqsSend
pub mod PubsubSend
use outboxer.Prelude.{
  ℕ, String, ◌≡◌, ◌↔◌, string_eq, Bool-cases, inl, inr, Bool, true, false, Eq, ◌==◌, arith, Option,
  none, some, List, [], ◌∷◌, refl,
}
use outboxer.Prelude.Int.{ℤ-discrete}
use native.Mathlib.Decide.{ℕ_discrete}
use outboxer.Errors.{returned, leaf, canceled}
use outboxer.Value.{Value, Fields, Runtime, str, field, no_fields, err}
use outboxer.Provider.{add_confirmed_id, add_poison_id}
use outboxer.Config.{default_config, AppConfig}
use outboxer.Event.{Event}
use outboxer.Stats.{new_app_stats}
use outboxer.FailureLogger.{FailureLogger}
use outboxer.App.{App, Moment}
use outboxer.Processor.Publish.{Delivery, SenderResult}
use outboxer.Processor.Batch.{Outbox, BatchRun}
use outboxer.Processor.Transaction.{OneBatch, committed, answer_lost}
use outboxer.Processor.Loop.{Turn, LoopState, running}

abbrev decide_string : (a b : String) (t : Bool) → (a == b) ≡ t → Dec (a ≡ b)
decide_string a b true h = yes ((string_eq.beq_iff a b).0 h)
decide_string a b false h = no (λ e. ground (arith, string_eq.beq_iff a b, h, e))

unfoldable pub String-discrete : Discrete String
String-discrete a b = decide_string a b (a == b) refl

unfoldable pub Value-discrete : Discrete Value
Value-discrete = hlevel (ℕ_discrete, ℤ-discrete, String-discrete)

abbrev pub decided {ℓ} : {A : Type ℓ} → Dec A → Bool
decided (yes _) = true
decided (no _) = false

pub decided_iff {ℓ} : {A : Type ℓ} (d : Dec A) → (decided d ≡ true) ↔ A
decided_iff (yes a) = (λ _. a, λ _. refl)
decided_iff (no n) = (λ h. ground arith, λ a. absurd (n a))

-- The ids of PostgreSQL compared as values.
instance abbrev pub id_eq : Eq Value
id_eq = record {
  beq = λ a b. decided (Value-discrete a b);
  beq_iff = λ a b. decided_iff (Value-discrete a b);
}

abbrev pub text_of : Value → String
text_of (str s) = s
text_of _ = "?"

abbrev pub test_runtime : Runtime
test_runtime = record {
  type_name = λ v. "string";
  sprint = text_of;
  unmarshal = λ b. err "no JSON";
  from_bytes = λ b. "";
  format_time = λ t. "";
  parse_time = λ l s. none;
}

abbrev pub row : String → Fields
row id = field "id" (str id) (field "payload" (str "{}") no_fields)

abbrev pub test_event : String → Event
test_event id = record {
  columns = row id;
  route = record { target = "sqs"; destination = "queue" };
  options = record { values = no_fields };
}

abbrev pub two_events : List Event
two_events = test_event "1" ∷ test_event "2" ∷ []

abbrev pub test_moment : Moment
test_moment = record { now = 62135596900000000000; cancelled = false }

abbrev pub test_config : AppConfig
test_config = record default_config {
  dlq_table = "dead_letters";
  sqs_enabled = true;
  default_sqs_queue_url = "https://sqs/queue";
}

abbrev pub test_app : App
test_app = record {
  cfg = test_config;
  senders = "sqs" ∷ [];
  failure_logger = none;
  stats = some (new_app_stats 62135596900000000000);
  watchdog = some (record { progress = 0 });
  listening = false;
  last_backlog_probe = 0;
}

-- The first event is confirmed and the second is rejected.
abbrev pub test_schedule : List Delivery
test_schedule =
    record { target = "sqs"; moment = test_moment; report = add_confirmed_id (str "1") }
    ∷ record { target = "sqs"; moment = test_moment; report = add_poison_id (str "2") "too large" }
    ∷ []

abbrev pub test_run : BatchRun
test_run = record {
  select = returned two_events;
  triage_time = 62135596900000000000;
  lag_time = 62135596900000000000;
  schedule = test_schedule;
  send_error = λ t. none;
  arrange = λ results. results;
  letter_time = 62135596900000000000;
  marshal = λ l. none;
  insert_error = none;
  delete_error = none;
  select_duration = 1;
  publish_duration = 2;
  write_duration = 3;
}

abbrev pub test_batch : OneBatch
test_batch = record {
  begin_error = none;
  run = test_run;
  commit = committed;
  finished = test_moment;
}

abbrev pub test_outbox : Outbox
test_outbox = record { rows = row "1" ∷ row "2" ∷ row "3" ∷ []; dead_letters = [] }

abbrev pub test_turn : Turn
test_turn = record {
  cancelled = false;
  inserted = row "4" ∷ [];
  batch = test_batch;
  probed = test_moment;
  probe = none;
  start_fails = false;
  wait_fails = false;
  wait_cancelled = false;
}

abbrev pub test_state : LoopState
test_state = record { app = test_app; outbox = test_outbox; exit = running }
