-- ===== src/Processor/Batch/Balance.antt =====
-- The statistics of a batch that commits add up: every selected event was sent, is poison or is
-- kept for a retry, and none is counted twice.
use outboxer.Prelude.{
  ℕ, ◌+◌, ◌≤◌, ◌≡◌, refl, true, Option, none, some, List, [], ◌∷◌, Eq, members, length,
  length-append, total, total-perm, inl, inr, ◌⊎◌, arith, Bool-cases, is_empty, Permᴰ,
}
use outboxer.Errors.{
  Error, Outcome, returned, failed, Holds, database_batch, join, is?, is, fmt_db_error,
}
use outboxer.Errors.Join.{is?-join}
use outboxer.Value.{Runtime}
use outboxer.Provider.{EventId}
use outboxer.Config.{AppConfig}
use outboxer.Event.{Event}
use outboxer.Collector.{PoisonEvent}
use outboxer.Stats.{BatchStats}
use outboxer.App.{App, progress}
use outboxer.Processor.Triage.{BatchTriage}
use outboxer.Processor.Triage.Partition.{IsPlan, Unfit, triage_events-IsPlan}
use outboxer.Processor.Publish.{SenderResult}
use outboxer.Processor.Publish.Settled.{settled_count, total-finished}
use outboxer.Processor.Batch.{
  Outbox, BatchRun, BatchResult, BatchOutcome, confirmed_events, rejected_events, batch_stats,
  delete_events, finish, join_db, arrived, dispatch_batch, process_event_batch, after_triage,
  after_delete, batch_of, published, counted_result, sender_error, all_poison, selected_result,
  insert_progress, delete_ids, insert_dead_letters,
}

abbrev pub Balanced : BatchStats → Type 0
Balanced s = s.selected ≡ s.sent + s.poison + s.dlq + s.kept_for_retry

settled-results :
    (results : List SenderResult)
    → length (confirmed_events results) + length (rejected_events results)
      ≡ total settled_count results
settled-results [] = omega arith
settled-results (r ∷ rs) = omega (
  arith,
  settled-results rs,
  length-append r.output.confirmed (confirmed_events rs),
  length-append r.output.poison (rejected_events rs),
)

batch_stats-Balanced :
    (cfg : AppConfig) (selected oldest : ℕ) (triage : BatchTriage) (results : List SenderResult)
    (sender_err : Option Error) (duration : ℕ)
    → length triage.poison + total settled_count results ≤ selected
    → Balanced (batch_stats cfg selected oldest triage results sender_err duration)
unfolding batch_stats
batch_stats-Balanced cfg selected oldest triage results sender_err duration h =
    elim (Bool-cases (is_empty cfg.dlq_table)) [
      | inl off ↦ rw off (omega (arith, settled-results results))
      | inr on ↦ rw on (omega (arith, settled-results results))
    ]

pub is?-fmt_db_error : (e : Error) → is? (fmt_db_error e) database_batch ≡ true
unfolding fmt_db_error is? is join
is?-fmt_db_error e = refl

is?-join_db :
    (sender_err : Option Error) (e : Error) → is? (join_db sender_err e) database_batch ≡ true
is?-join_db none e = is?-fmt_db_error e
is?-join_db (some s) e =
    ground (arith, is?-join (some s) (fmt_db_error e) database_batch, is?-fmt_db_error e)

-- What a batch leaves: balanced statistics, or an error that rolls it back.
pub record Balances (b : BatchOutcome) : Type 0 where
  pub either : Balanced b.result.stats ⊎ (is? b.err database_batch ≡ true)

module _ (rt : Runtime) ⦃e : Eq EventId⦄ (run : BatchRun) where
  after_delete-Balances :
      (inserted : App) (result : BatchResult) (sender_err : Option Error) (tx : Outbox)
      (o : Outcome Outbox)
      → Balanced result.stats
      → Balances (after_delete run inserted result sender_err tx o)
  unfolding after_delete
  after_delete-Balances inserted result sender_err tx (failed x) h = record {
    either = inr (is?-join_db sender_err x);
  }
  after_delete-Balances inserted result sender_err tx (returned y) h = record { either = inl h }

  finish-Balances :
      (cfg : AppConfig) (a inserted : App) (ids : List EventId) (result : BatchResult)
      (sender_err : Option Error) (o : Outcome Outbox) (tx : Outbox)
      → Balanced result.stats
      → Balances (finish run cfg a inserted ids result sender_err o tx)
  unfolding finish
  finish-Balances cfg a inserted ids result sender_err (failed x) tx h = record {
    either = inr (is?-join_db sender_err x);
  }
  finish-Balances cfg a inserted ids result sender_err (returned tx') tx h =
      after_delete-Balances inserted result sender_err tx' (delete_events run cfg ids tx') h

  -- The results that arrive settle no more events than were sent on.
  total-arrived :
      (cfg : AppConfig) (triage : BatchTriage)
      → ((results : List SenderResult) → Permᴰ (run.arrange results) results)
      → total settled_count (arrived rt run cfg triage) ≤ length (members triage.events_by_target)
  unfolding arrived
  total-arrived cfg triage perm = omega (
    arith,
    total-perm settled_count (perm _),
    total-finished rt cfg run.send_error run.schedule triage.events_by_target,
  )

  counted_result-Balanced :
      (cfg : AppConfig) (events : List Event) (result : BatchResult) (triage : BatchTriage)
      → length triage.poison + total settled_count (arrived rt run cfg triage) ≤ length events
      → Balanced (counted_result rt run cfg events result triage).stats
  unfolding counted_result
  counted_result-Balanced cfg events result triage h =
      batch_stats-Balanced cfg (length events) result.stats.oldest_event_age triage
        (arrived rt run cfg triage) (sender_error rt run (arrived rt run cfg triage))
        run.publish_duration h

  after_triage-Balances :
      ((results : List SenderResult) → Permᴰ (run.arrange results) results)
      → (cfg : AppConfig) (J : PoisonEvent → Type 0) (events : List Event)
        (x : App × Outcome BatchTriage) (tx : Outbox)
      → Holds (IsPlan J events events) x.1
      → Balances (after_triage rt run cfg events x tx)
  unfolding after_triage dispatch_batch
  after_triage-Balances perm cfg J events (a, failed err) tx p = record {
    either = inr (is?-fmt_db_error err);
  }
  after_triage-Balances perm cfg J events (a, returned triage) tx p =
      finish-Balances cfg (published rt run cfg triage a)
        (insert_progress (all_poison rt run cfg triage) (published rt run cfg triage a))
        (delete_ids rt run cfg triage (arrived rt run cfg triage))
        (counted_result rt run cfg events (selected_result rt run cfg events) triage)
        (sender_error rt run (arrived rt run cfg triage))
        (insert_dead_letters rt run cfg (all_poison rt run cfg triage) tx) tx
        (counted_result-Balanced cfg events (selected_result rt run cfg events) triage
          (omega (arith, p.counted, total-arrived cfg triage perm)))

  pub process_event_batch-Balances :
      (a : App) (tx : Outbox)
      → ((results : List SenderResult) → Permᴰ (run.arrange results) results)
      → Balances (process_event_batch rt run a tx)
  unfolding process_event_batch
  process_event_batch-Balances a tx perm = split run.select
    where
      split : (o : Outcome (List Event)) → Balances (batch_of rt run a tx o)
      split (failed err) = record { either = inr (is?-fmt_db_error err) }
      split (returned events) =
          after_triage-Balances perm a.cfg (Unfit rt run.triage_time (progress (progress a))) events
            _ tx (triage_events-IsPlan rt run.triage_time events (progress (progress a)))
