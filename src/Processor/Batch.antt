-- ===== src/Processor/Batch.antt =====
-- One batch inside its transaction: processEventBatch.
pub mod Deleted
pub mod Accounted
pub mod Frame
pub mod Balance
use outboxer.Prelude.{
  ℕ, ◌+◌, ◌-◌, String, Bool, true, false, not, Option, none, some, List, [], ◌∷◌, ◌++◌, map,
  if◌then◌else◌, is_empty, length, Eq, contains, keep,
}
use outboxer.Errors.{
  Error, fatal_after_commit, Outcome, returned, failed, join, is?, count_joined_errors, join_all,
  fmt_db_error,
}
use outboxer.Value.{Fields, get, Time, Runtime}
use outboxer.Provider.{EventId}
use outboxer.Config.{AppConfig}
use outboxer.Event.{Event, event_value, oldest_event_age}
use outboxer.Stats.{BatchStats, no_batch_stats}
use outboxer.Backlog.{batch_drained}
use outboxer.Collector.{PoisonEvent, SenderOutput}
use outboxer.Dlq.{DeadLetter, dead_letter_payload, marshal_all}
use outboxer.App.{App, progress}
use outboxer.Processor.Triage.{BatchTriage, triage_events}
use outboxer.Processor.Publish.{
  Delivery, SenderResult, collectors, publish, publish_effects, sender_results,
}

-- The rows of the event table and of the dead letter table, as a transaction sees them.
pub record Outbox : Type 0 where
  pub rows : List Fields
  pub dead_letters : List DeadLetter

pub record BatchResult : Type 0 where
  pub selected : ℕ
  pub drained : Bool
  pub stats : BatchStats

abbrev pub no_result : BatchResult
no_result = record { selected = 0; drained = false; stats = no_batch_stats }

-- What the database, the senders and the clock do during one batch. `schedule` is the interleaving
-- of the callbacks, and `arrange` the order in which the results arrive.
pub record BatchRun : Type 0 where
  pub select : Outcome (List Event)
  pub triage_time : Time
  pub lag_time : Time
  pub schedule : List Delivery
  pub send_error : String → Option Error
  pub arrange : List SenderResult → List SenderResult
  pub letter_time : Time
  pub marshal : DeadLetter → Option Error
  pub insert_error : Option Error
  pub delete_error : Option Error
  pub select_duration : ℕ
  pub publish_duration : ℕ
  pub write_duration : ℕ

abbrev pub confirmed_events : List SenderResult → List Event
confirmed_events [] = []
confirmed_events (r ∷ rs) = r.output.confirmed ++ confirmed_events rs

abbrev pub rejected_events : List SenderResult → List PoisonEvent
rejected_events [] = []
rejected_events (r ∷ rs) = r.output.poison ++ rejected_events rs

-- The ids that a result adds, in the order of the loop over `results`.
abbrev pub result_ids : AppConfig → List SenderResult → List EventId
result_ids cfg [] = []
result_ids cfg (r ∷ rs) =
    map (λ evt. event_value evt cfg.event_id) r.output.confirmed
    ++ (map (λ (p : PoisonEvent). event_value p.evt cfg.event_id) r.output.poison
        ++ result_ids cfg rs)

abbrev errors_of : List SenderResult → List (Option Error)
errors_of = map (λ r. r.err)

unfoldable pub batch_stats :
    AppConfig → ℕ → ℕ → BatchTriage → List SenderResult → Option Error → ℕ → BatchStats
unfolding count_joined_errors is?
batch_stats cfg selected oldest triage results sender_err publish_duration =
    let sent = length (confirmed_events results) in
    let poison_count = length triage.poison + length (rejected_events results) in
    record {
      selected = selected;
      sent = sent;
      poison = if is_empty cfg.dlq_table then poison_count else 0;
      dlq = if is_empty cfg.dlq_table then 0 else poison_count;
      kept_for_retry = selected - sent - poison_count;
      sender_errors = count_joined_errors sender_err;
      fatal_after_commit_errors = if is? sender_err fatal_after_commit then 1 else 0;
      oldest_event_age = oldest;
      publish_duration = publish_duration;
      db_duration = 0;
    }

-- insertDeadLetters
unfoldable pub insert_dead_letters :
    Runtime → BatchRun → AppConfig → List PoisonEvent → Outbox → Outcome Outbox
unfolding dead_letter_payload marshal_all
insert_dead_letters rt run cfg [] tx = returned tx
insert_dead_letters rt run cfg (p ∷ ps) tx =
    let letters = map (dead_letter_payload rt cfg run.letter_time) (p ∷ ps) in
    if is_empty cfg.dlq_table then returned tx else elim (marshal_all run.marshal letters) [
      | some e ↦ failed e
      | none ↦ elim run.insert_error [
        | some e ↦ failed e
        | none ↦ returned (record tx { dead_letters = tx.dead_letters ++ letters })
      ]
    ]

-- The markProgress of insertDeadLetters, which runs once the statement has succeeded.
unfoldable pub insert_progress : List PoisonEvent → App → App
unfolding progress
insert_progress [] a = a
insert_progress (p ∷ ps) a = if is_empty a.cfg.dlq_table then a else progress a

-- deleteEvents: DELETE … WHERE id = ANY(ids). PostgreSQL compares the ids.
unfoldable pub delete_events :
    ⦃e : Eq EventId⦄ → BatchRun → AppConfig → List EventId → Outbox → Outcome Outbox
unfolding contains get
delete_events run cfg [] tx = returned tx
delete_events run cfg (id ∷ ids) tx = elim run.delete_error [
  | some e ↦ failed e
  | none ↦
      returned (record tx {
        rows = keep (λ row. not (contains (get row cfg.event_id) (id ∷ ids))) tx.rows;
      })
]

-- What processEventBatch leaves: the app, the transaction's view, the result and the error.
pub record BatchOutcome : Type 0 where
  pub app : App
  pub tx : Outbox
  pub result : BatchResult
  pub err : Option Error

abbrev join_db : Option Error → Error → Option Error
join_db sender_err e = elim sender_err [
  | none ↦ fmt_db_error e
  | some s ↦ join (some s) (fmt_db_error e)
]

-- What deleteEvents answers decides the return.
abbrev after_delete :
    BatchRun → App → BatchResult → Option Error → Outbox → Outcome Outbox → BatchOutcome
unfolding progress fmt_db_error join
after_delete run inserted result sender_err tx (failed e) = record {
  app = progress inserted;
  tx = tx;
  result = result;
  err = join_db sender_err e;
}
after_delete run inserted result sender_err tx (returned done) = record {
  app = progress (progress inserted);
  tx = done;
  result = record result {
    stats = record (result.stats) { db_duration = run.select_duration + run.write_duration };
  };
  err = sender_err;
}

-- The deletion and the return. `a` is the app before insertDeadLetters, `inserted` the one after it.
unfoldable pub finish :
    ⦃e : Eq EventId⦄
    → BatchRun
    → AppConfig
    → App
    → App
    → List EventId
    → BatchResult
    → Option Error
    → Outcome Outbox
    → Outbox
    → BatchOutcome
unfolding after_delete delete_events
finish run cfg a inserted ids result sender_err (failed e) tx = record {
  app = a;
  tx = tx;
  result = result;
  err = join_db sender_err e;
}
finish run cfg a inserted ids result sender_err (returned tx') tx =
    after_delete run inserted result sender_err tx' (delete_events run cfg ids tx')

module _ (rt : Runtime) ⦃e : Eq EventId⦄ (run : BatchRun) where
  -- The results in the order in which they arrive.
  unfoldable pub arrived : AppConfig → BatchTriage → List SenderResult
  unfolding collectors publish sender_results
  arrived cfg triage = run.arrange (
      sender_results run.send_error
        (publish rt run.schedule (collectors rt cfg triage.events_by_target)))

  unfoldable pub delete_ids : AppConfig → BatchTriage → List SenderResult → List EventId
  delete_ids cfg triage results =
      map (λ (p : PoisonEvent). event_value p.evt cfg.event_id) triage.poison
      ++ result_ids cfg results

  -- The errors of the senders, joined in the order of arrival.
  unfoldable pub sender_error : List SenderResult → Option Error
  unfolding join_all
  sender_error results = join_all none (errors_of results)

  -- The app after every callback, and the result with its statistics.
  unfoldable pub published : AppConfig → BatchTriage → App → App
  unfolding publish_effects
  published cfg triage a =
      publish_effects rt run.schedule (collectors rt cfg triage.events_by_target) a

  unfoldable pub counted_result : AppConfig → List Event → BatchResult → BatchTriage → BatchResult
  unfolding arrived sender_error batch_stats
  counted_result cfg events result triage = record result {
    stats =
        batch_stats cfg (length events) result.stats.oldest_event_age triage (arrived cfg triage)
          (sender_error (arrived cfg triage)) run.publish_duration;
  }

  abbrev all_poison : AppConfig → BatchTriage → List PoisonEvent
  all_poison cfg triage = triage.poison ++ rejected_events (arrived cfg triage)

  -- From the triage on.
  unfoldable pub dispatch_batch :
      AppConfig → List Event → BatchResult → BatchTriage → App → Outbox → BatchOutcome
  unfolding published counted_result delete_ids insert_dead_letters insert_progress finish
  dispatch_batch cfg events result triage a tx =
      finish run cfg (published cfg triage a)
        (insert_progress (all_poison cfg triage) (published cfg triage a))
        (delete_ids cfg triage (arrived cfg triage)) (counted_result cfg events result triage)
        (sender_error (arrived cfg triage))
        (insert_dead_letters rt run cfg (all_poison cfg triage) tx) tx

  abbrev selected_result : AppConfig → List Event → BatchResult
  selected_result cfg events = record {
    selected = length events;
    drained = batch_drained events cfg.collect_batch_target;
    stats = record no_batch_stats {
      selected = length events;
      oldest_event_age = oldest_event_age rt cfg run.lag_time events;
    };
  }

  abbrev after_triage : AppConfig → List Event → App × Outcome BatchTriage → Outbox → BatchOutcome
  unfolding dispatch_batch
  after_triage cfg events (a, failed e) tx = record {
    app = a;
    tx = tx;
    result = selected_result cfg events;
    err = fmt_db_error e;
  }
  after_triage cfg events (a, returned triage) tx =
      dispatch_batch cfg events (selected_result cfg events) triage a tx

  abbrev batch_of : App → Outbox → Outcome (List Event) → BatchOutcome
  unfolding after_triage triage_events progress fmt_db_error join
  batch_of a tx (failed e) = record {
    app = progress a;
    tx = tx;
    result = no_result;
    err = fmt_db_error e;
  }
  batch_of a tx (returned events) =
      after_triage a.cfg events (triage_events rt run.triage_time events (progress (progress a))) tx

  unfoldable pub process_event_batch : App → Outbox → BatchOutcome
  unfolding batch_of
  process_event_batch a tx = batch_of a tx run.select
