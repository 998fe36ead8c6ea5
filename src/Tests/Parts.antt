-- ===== src/Tests/Parts.antt =====
-- The components' theorems on small inputs.
use outboxer.Prelude.{
  Bool-cases, inl, inr, if◌then◌else◌, ◌==◌, concat, Permᴰ, ℕ, zero, suc, ◌+◌, ◌≤◌, ◌≡◌, ◌↔◌, refl,
  Bool, true, false, Option, none, some, List, [], ◌∷◌, ◌++◌, All, length, members, total, Unique,
  String, string_eq, arith,
}
use outboxer.Prelude.Int.{pos}
use outboxer.Errors.{
  Error, Outcome, returned, failed, api, leaf, canceled, fatal_after_commit, is?,
  count_joined_errors, join_all,
}
use outboxer.Errors.Join.{join_all-perm}
use outboxer.Value.{str}
use outboxer.Provider.{add_confirmed_id, add_poison_id, mark_progress, log_failure}
use outboxer.Config.Validate.{relay, validate}
use outboxer.Config.Storable.{CanStore}
use outboxer.Config.Runnable.{CanPublish, validate-relay_iff}
use outboxer.Collector.{new_sender_collector, callback}
use outboxer.Collector.Once.{IsSettling, new-IsSettling, callback-IsSettling}
use outboxer.Dlq.{DlqTableMetadata, validate_dlq_table_metadata}
use outboxer.Dlq.Columns.{names}
use outboxer.Dlq.Table.{Accepts, validate-Accepts}
use outboxer.FailureLogger.{FailureLogger}
use outboxer.FailureLogger.Window.{
  Call, IsSpaced, due, lines, pending, calls_of, reported, after_calls, lines-IsSpaced,
  lines-conserve,
}
use outboxer.Processor.Publish.{collectors, publish, sender_results}
use outboxer.Processor.Publish.Settled.{IsBacked, settled_count, finished-IsBacked, total-finished}
use outboxer.Sqs.{PreparedEvent, BatchResponse, send_sqs_batch, chunk_sqs_standard_events}
use outboxer.Sqs.Isolation.{IsAnswer, IsBlamed, IsGuilty, send_sqs_batch-IsBlamed}
use outboxer.Sqs.Chunks.{IsChunk, chunk_sqs_standard_events-IsChunk}
use outboxer.Stats.{
  no_batch_stats, no_counts, new_app_stats, snapshot, sub, add_committed_batch, handle_healthz,
}
use outboxer.Stats.Intervals.{
  StatsOp, commit_batch, fail_batch, read_counters, log_interval, ticker, final_flush, at_start,
  apply_ops, logged, sum_deltas, logged-flush,
}
use outboxer.Stats.Health.{failing, handle_healthz-window}
use outboxer.Watchdog.{Watchdog, watch, watching, stalled}
use outboxer.Watchdog.Stalls.{ticks, IsIdle, watch-stalled_iff}
use outboxer.Tests.{test_runtime, test_config, test_schedule, two_events}

callback-IsSettling_example : IsSettling test_runtime test_config two_events (
    callback test_runtime
      (add_confirmed_id (str "1"))
      (new_sender_collector test_runtime test_config two_events))
callback-IsSettling_example =
    callback-IsSettling test_runtime test_config two_events (add_confirmed_id (str "1"))
      (new_sender_collector test_runtime test_config two_events)
      (new-IsSettling test_runtime test_config two_events)

finished-IsBacked_example : All (IsBacked test_runtime test_config test_schedule two_events) (
    sender_results
      (λ t. none)
      (publish test_runtime test_schedule
        (collectors test_runtime test_config (("sqs", two_events) ∷ []))))
finished-IsBacked_example =
    finished-IsBacked test_runtime test_config (λ t. none) test_schedule (("sqs", two_events) ∷ [])

total-finished_example :
    total settled_count (
      sender_results
        (λ t. none)
        (publish test_runtime test_schedule
          (collectors test_runtime test_config (("sqs", two_events) ∷ []))))
    ≤ 2
total-finished_example =
    total-finished test_runtime test_config (λ t. none) test_schedule (("sqs", two_events) ∷ [])

abbrev two_errors : List (Option Error)
two_errors = some (leaf canceled) ∷ some (leaf fatal_after_commit) ∷ []

abbrev errors_swapped : List (Option Error)
errors_swapped = some (leaf fatal_after_commit) ∷ some (leaf canceled) ∷ []

join_all-perm_example :
    (count_joined_errors (join_all none two_errors)
      ≡ count_joined_errors (join_all none errors_swapped))
    × (is? (join_all none two_errors) fatal_after_commit
        ≡ is? (join_all none errors_swapped) fatal_after_commit)
join_all-perm_example =
    join_all-perm two_errors errors_swapped fatal_after_commit (Permᴰ.swap refl refl)

abbrev dlq_table : DlqTableMetadata
dlq_table = record {
  relkind = "r";
  can_insert_table = true;
  columns =
      record {
        name = "id";
        type_name = "bigint";
        not_null = true;
        default_expr = none;
        identity = "a";
        generated = "";
        can_insert_column = true;
      }
      ∷ record {
        name = "event";
        type_name = "jsonb";
        not_null = true;
        default_expr = none;
        identity = "";
        generated = "";
        can_insert_column = true;
      }
      ∷ [];
}

dlq_table_names : Unique (names dlq_table.columns)
unfolding outboxer.Prelude.contains
dlq_table_names = (refl, (refl, tt))

validate-Accepts_example : (validate_dlq_table_metadata dlq_table ≡ none) ↔ Accepts dlq_table
validate-Accepts_example = validate-Accepts dlq_table dlq_table_names

validate-relay_iff_example :
    (validate relay test_config ≡ none) ↔ (CanStore test_config × CanPublish test_config)
validate-relay_iff_example = validate-relay_iff test_config

abbrev three_calls : List Call
three_calls = (0, "a") ∷ (10, "a") ∷ (60000000000, "a") ∷ []

abbrev logger : FailureLogger
logger = record { window = 60000000000; entries = [] }

lines-IsSpaced_example : IsSpaced 60000000000 (due "a" logger) (lines "a" logger three_calls)
lines-IsSpaced_example = lines-IsSpaced "a" logger three_calls

lines-conserve_example :
    pending "a" logger + calls_of "a" three_calls
    ≡ length (lines "a" logger three_calls)
      + reported (lines "a" logger three_calls)
      + pending "a" (after_calls logger three_calls)
lines-conserve_example = lines-conserve "a" logger three_calls

abbrev fresh : Watchdog
fresh = record { progress = 0 }

watch-stalled_iff_example :
    (watch (watching 0) (ticks (some fresh) (3 ∷ 0 ∷ [])) ≡ stalled) ↔ IsIdle (3 ∷ 0 ∷ [])
watch-stalled_iff_example = watch-stalled_iff fresh (3 ∷ 0 ∷ []) (omega arith)

abbrev some_ops : List StatsOp
some_ops =
    read_counters ticker ∷ commit_batch no_batch_stats 7 ∷ log_interval ticker ∷ fail_batch ∷ []

abbrev other_ops : List StatsOp
other_ops = read_counters ticker ∷ fail_batch ∷ []

logged-flush_example :
    sum_deltas (
      logged
        (some_ops ++ read_counters final_flush ∷ other_ops ++ log_interval final_flush ∷ [])
        (at_start 7))
    ≡ sub (snapshot (apply_ops some_ops (at_start 7)).stats) no_counts
logged-flush_example = logged-flush some_ops other_ops final_flush 7 (refl, (refl, tt))

-- The ticker's goroutine reads, a batch is committed, the flush reads and logs it, and the ticker's
-- goroutine logs last: the lines add up to no batch although one was committed.
abbrev race : List StatsOp
race =
    read_counters ticker
    ∷ commit_batch no_batch_stats 7
    ∷ read_counters final_flush
    ∷ log_interval final_flush
    ∷ log_interval ticker
    ∷ []

race_run :
    ((sum_deltas (logged race (at_start 7))).batches_processed ≡ pos 0)
    × ((snapshot (apply_ops race (at_start 7)).stats).batches_processed ≡ 1)
unfolding logged apply_ops sum_deltas snapshot new_app_stats outboxer.Prelude.Int.◌+ℤ◌
race_run = (refl, refl)

abbrev noon : ℕ
noon = 62135596900000000000

handle_healthz-window_example :
    (handle_healthz
          (record test_config { health_stale_after = pos 300000000000 })
          (failing 2 (add_committed_batch no_batch_stats noon (some (new_app_stats 0))))
          noon
        ≡ true
      → noon ≤ noon + 300000000000)
    × (noon + 1000000 ≤ noon + 300000000000
        → handle_healthz
            (record test_config { health_stale_after = pos 300000000000 })
            (failing 2 (add_committed_batch no_batch_stats noon (some (new_app_stats 0))))
            noon
          ≡ true)
handle_healthz-window_example =
    handle_healthz-window (record test_config { health_stale_after = pos 300000000000 })
      no_batch_stats (new_app_stats 0) 2 299999999999 noon noon (omega arith) refl (omega arith)

abbrev prepared : ℕ → PreparedEvent
prepared n = record {
  log_id = str "1";
  message_size = n;
  entry = record {
    id = "1";
    message_body = [];
    attributes = [];
    message_group_id = "";
    deduplication_id = "";
    delay_seconds = none;
    aws_xray_trace_header = "";
  };
}

-- The second event would take the first chunk over a mebibyte.
abbrev three_prepared : List PreparedEvent
three_prepared = prepared 1000000 ∷ prepared 100000 ∷ prepared 5 ∷ []

two_chunks : length (chunk_sqs_standard_events three_prepared) ≡ 2
unfolding chunk_sqs_standard_events
two_chunks = refl

chunk_sqs_standard_events-IsChunk_example :
    All IsChunk (chunk_sqs_standard_events three_prepared)
    × (concat (chunk_sqs_standard_events three_prepared) ≡ three_prepared)
chunk_sqs_standard_events-IsChunk_example = chunk_sqs_standard_events-IsChunk three_prepared

abbrev named : String → PreparedEvent
named id = record {
  log_id = str id;
  message_size = 5;
  entry = record {
    id = id;
    message_body = [];
    attributes = [];
    message_group_id = "";
    deduplication_id = "";
    delay_seconds = none;
    aws_xray_trace_header = "";
  };
}

abbrev too_long : Outcome BatchResponse
too_long = failed (leaf (api "BatchRequestTooLong" "too long"))

-- Alone, the first event is refused and the others are accepted.
abbrev alone : PreparedEvent → Outcome BatchResponse
alone evt =
    if evt.entry.id == "1"
    then too_long
    else returned (record { successful = evt.entry.id ∷ []; failures = [] })

alone-IsAnswer : (evt : PreparedEvent) → IsAnswer (evt ∷ []) (alone evt)
alone-IsAnswer evt = elim (Bool-cases (evt.entry.id == "1")) [
  | inl first ↦ rw first tt
  | inr other ↦ rw other tt
]

one_poison :
    (send_sqs_batch
      (λ e. "refused")
      (λ id. "")
      "queue"
      alone
      (named "1" ∷ named "2" ∷ [])
      too_long).callbacks
    ≡ add_poison_id (str "1") "refused"
      ∷ log_failure "Failed to send event" "sqs|queue|refused"
      ∷ mark_progress
      ∷ add_confirmed_id (str "2")
      ∷ mark_progress
      ∷ mark_progress
      ∷ []
unfolding send_sqs_batch outboxer.Prelude.format
one_poison = refl

send_sqs_batch-IsBlamed_example :
    All
      (IsBlamed (IsGuilty alone (named "1" ∷ named "2" ∷ []) too_long) (named "1" ∷ named "2" ∷ []))
      (send_sqs_batch
        (λ e. "refused")
        (λ id. "")
        "queue"
        alone
        (named "1" ∷ named "2" ∷ [])
        too_long).callbacks
send_sqs_batch-IsBlamed_example =
    send_sqs_batch-IsBlamed (λ e. "refused") (λ id. "") "queue" alone (named "1" ∷ named "2" ∷ [])
      too_long tt alone-IsAnswer
