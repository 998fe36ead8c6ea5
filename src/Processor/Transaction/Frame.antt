-- ===== src/Processor/Transaction/Frame.antt =====
-- What a transaction leaves alone: the configuration and the senders.
use outboxer.Prelude.{refl, Option, none, some, Eq, Bool-cases, inl, inr}
use outboxer.Errors.{Error, database_batch, fatal_after_commit, is?}
use outboxer.Value.{Runtime}
use outboxer.Provider.{EventId}
use outboxer.App.{App, Moment, progress, report_failure}
use outboxer.App.Frame.{IsSame, IsSame-trans}
use outboxer.Processor.Batch.{Outbox, BatchOutcome, process_event_batch}
use outboxer.Processor.Batch.Frame.{process_event_batch-IsFramed}
use outboxer.Processor.Transaction.{
  CommitOutcome, committed, refused, answer_lost, OneBatch, count_error, count_batch, summarise,
  conclude, settle_batch, one_batch_of, process_one_batch,
}

summarise-IsSame : (m : Moment) (err : Option Error) (a : App) → IsSame a (summarise m err a)
unfolding report_failure
summarise-IsSame m none a = record { cfg = refl; senders = refl }
summarise-IsSame m (some x) a = elim (Bool-cases (is? (some x) fatal_after_commit)) [
  | inl fatal' ↦ rw fatal' (record { cfg = refl; senders = refl })
  | inr plain ↦ rw plain (record { cfg = refl; senders = refl })
]

settle_batch-IsSame :
    (commit : CommitOutcome) (m : Moment) (before : Outbox) (b : BatchOutcome)
    → IsSame b.app (settle_batch commit m before b).app
unfolding settle_batch count_error count_batch progress
settle_batch-IsSame commit m before b = elim (Bool-cases (is? b.err database_batch)) [
  | inl rolled ↦ rw rolled (record { cfg = refl; senders = refl })
  | inr went ↦ rw went (ended commit)
]
  where
    ended : (c : CommitOutcome) → IsSame b.app (conclude c m before b).app
    ended committed =
        IsSame-trans (record { cfg = refl; senders = refl })
          (summarise-IsSame m b.err (count_batch b.result.stats m (progress b.app)))
    ended (refused x) = record { cfg = refl; senders = refl }
    ended (answer_lost x) = record { cfg = refl; senders = refl }

pub process_one_batch-IsSame :
    (rt : Runtime) ⦃e : Eq EventId⦄ (one : OneBatch) (a : App) (outbox : Outbox)
    → IsSame a (process_one_batch rt one a outbox).app
unfolding process_one_batch count_error
process_one_batch-IsSame rt one a outbox = begun one.begin_error
  where
    begun : (x : Option Error) → IsSame a (one_batch_of rt one a outbox x).app
    begun (some x) = record { cfg = refl; senders = refl }
    begun none =
        let f = process_event_batch-IsFramed rt one.run a outbox in
        IsSame-trans (record { cfg = f.cfg; senders = f.senders })
          (settle_batch-IsSame one.commit one.finished outbox
            (process_event_batch rt one.run a outbox))
