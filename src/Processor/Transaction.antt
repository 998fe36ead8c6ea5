-- ===== src/Processor/Transaction.antt =====
-- The transaction around a batch: processOneBatch.
pub mod Safety
pub mod Counters
pub mod Frame
use outboxer.Prelude.{String, Bool, true, false, not, ◌&&◌, Option, none, some, if◌then◌else◌, Eq}
use outboxer.Errors.{Error, database_batch, fatal_after_commit, join, is?, fmt_db_error}
use outboxer.Value.{Runtime}
use outboxer.Provider.{EventId}
use outboxer.Stats.{BatchStats, add_batch_error, add_committed_batch}
use outboxer.App.{App, Moment, progress, report_failure}
use outboxer.Processor.Batch.{
  Outbox, BatchResult, no_result, BatchRun, BatchOutcome, process_event_batch,
}

-- How a commit ends: applied; refused and not applied; or applied while its answer was lost.
pub data CommitOutcome : Type 0 where
  committed : CommitOutcome
  refused : Error → CommitOutcome
  answer_lost : Error → CommitOutcome

-- What happens around one batch.
pub record OneBatch : Type 0 where
  pub begin_error : Option Error
  pub run : BatchRun
  pub commit : CommitOutcome
  pub finished : Moment

pub record BatchAnswer : Type 0 where
  pub app : App
  pub outbox : Outbox
  pub result : BatchResult
  pub err : Option Error

unfoldable pub count_error : App → App
unfolding add_batch_error
count_error a = record a { stats = add_batch_error a.stats }

unfoldable pub count_batch : BatchStats → Moment → App → App
unfolding add_committed_batch
count_batch stats m a = record a { stats = add_committed_batch stats m.now a.stats }

-- The error that a failed commit is reported as: a fatal sender error is kept.
abbrev commit_error : Option Error → Error → Option Error
commit_error batch_err e =
    if is? batch_err fatal_after_commit then join batch_err (fmt_db_error e) else fmt_db_error e

abbrev summarise : Moment → Option Error → App → App
summarise m none a = a
summarise m (some e) a =
    if is? (some e) fatal_after_commit then a else report_failure m "batch-sender-errors" a

unfoldable pub conclude : CommitOutcome → Moment → Outbox → BatchOutcome → BatchAnswer
unfolding count_error count_batch progress report_failure is? join fmt_db_error
conclude (refused e) m before b = record {
  app = count_error b.app;
  outbox = before;
  result = b.result;
  err = commit_error b.err e;
}
conclude (answer_lost e) m before b = record {
  app = count_error b.app;
  outbox = b.tx;
  result = b.result;
  err = commit_error b.err e;
}
conclude committed m before b = record {
  app = summarise m b.err (count_batch b.result.stats m (progress b.app));
  outbox = b.tx;
  result = b.result;
  err = b.err;
}

-- A database error rolls the transaction back, whatever else went wrong.
unfoldable pub settle_batch : CommitOutcome → Moment → Outbox → BatchOutcome → BatchAnswer
unfolding conclude
settle_batch commit m before b =
    if is? b.err database_batch
    then record { app = count_error b.app; outbox = before; result = b.result; err = b.err }
    else conclude commit m before b

abbrev one_batch_of :
    Runtime → ⦃e : Eq EventId⦄ → OneBatch → App → Outbox → Option Error → BatchAnswer
unfolding settle_batch process_event_batch count_error fmt_db_error join
one_batch_of rt one a outbox (some e) = record {
  app = count_error a;
  outbox = outbox;
  result = no_result;
  err = fmt_db_error e;
}
one_batch_of rt one a outbox none =
    settle_batch one.commit one.finished outbox (process_event_batch rt one.run a outbox)

unfoldable pub process_one_batch :
    Runtime → ⦃e : Eq EventId⦄ → OneBatch → App → Outbox → BatchAnswer
unfolding one_batch_of
process_one_batch rt one a outbox = one_batch_of rt one a outbox one.begin_error
