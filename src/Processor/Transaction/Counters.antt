-- ===== src/Processor/Transaction/Counters.antt =====
-- The counters across transactions: they stay balanced, and each transaction is counted once.
use mathlib.Core.Bool.{false≢true}
use outboxer.Prelude.{
  ◌+◌, ◌≡◌, refl, sym, ◌∙◌, subst, ap, true, false, Option, none, some, List, Eq, inl, inr, ◌⊎◌,
  arith, Bool-cases, Permᴰ,
}
use outboxer.Errors.{Error, database_batch, fatal_after_commit, is?, fmt_db_error}
use outboxer.Value.{Runtime}
use outboxer.Provider.{EventId}
use outboxer.Stats.{
  BatchStats, StatsSnapshot, AppStats, snapshot, add_batch_error, add_committed_batch,
}
use outboxer.App.{App, Moment, progress, report_failure}
use outboxer.Processor.Publish.{SenderResult}
use outboxer.Processor.Batch.{Outbox, BatchOutcome, process_event_batch}
use outboxer.Processor.Batch.Balance.{
  Balanced, Balances, process_event_batch-Balances, is?-fmt_db_error,
}
use outboxer.Processor.Transaction.Safety.{is?-commit_error}
use outboxer.Processor.Batch.Frame.{process_event_batch-IsFramed}
use outboxer.Processor.Transaction.{
  CommitOutcome, committed, refused, answer_lost, OneBatch, count_error, count_batch, summarise,
  conclude, settle_batch, process_one_batch, one_batch_of, commit_error,
}

-- Every event counted as selected is counted as sent, poison, dead-lettered or kept, once.
abbrev pub IsBalanced : StatsSnapshot → Type 0
IsBalanced c = c.selected ≡ c.sent + c.poison + c.dlq + c.kept_for_retry

-- A failed transaction counts as one batch error and changes no other counter; one that commits
-- counts as one committed batch and no batch error.
abbrev pub CountedOnce : Option Error → StatsSnapshot → StatsSnapshot → Type 0
CountedOnce err old new =
    ((is? err database_batch ≡ true) × (new ≡ record old { batch_errors = old.batch_errors + 1 }))
    ⊎ ((is? err database_batch ≡ false)
        × (new.batches_processed ≡ old.batches_processed + 1)
        × (new.batch_errors ≡ old.batch_errors))

-- One more transaction, with the counters still balanced if they were.
pub record Counts (err : Option Error) (old new : Option AppStats) : Type 0 where
  pub balanced : IsBalanced (snapshot old) → IsBalanced (snapshot new)
  pub counted : (s : AppStats) → old ≡ some s → CountedOnce err s.counters (snapshot new)

add_batch_error-Counts :
    (err : Option Error) (s : Option AppStats)
    → is? err database_batch ≡ true
    → Counts err s (add_batch_error s)
unfolding add_batch_error snapshot
add_batch_error-Counts err none failed = record {
  balanced = λ h. h;
  counted = λ s e. absurd (cc e);
}
add_batch_error-Counts err (some s) failed = record {
  balanced = λ h. h;
  counted = λ t e.
      (let same : s ≡ t = cc e in
        inl (
          failed,
          ap (λ (u : AppStats). record (u.counters) { batch_errors = u.counters.batch_errors + 1 })
              same,
        ));
}

add_committed_batch-Counts :
    (err : Option Error) (batch : BatchStats) (m : Moment) (s : Option AppStats)
    → is? err database_batch ≡ false
    → Balanced batch
    → Counts err s (add_committed_batch batch m.now s)
unfolding add_committed_batch snapshot
add_committed_batch-Counts err batch m none clean b = record {
  balanced = λ h. h;
  counted = λ s e. absurd (cc e);
}
add_committed_batch-Counts err batch m (some s) clean b = record {
  balanced = λ h. omega arith;
  counted = λ t e. inr (clean, ground arith, ground arith);
}

count_error-Counts :
    (err : Option Error) (a : App)
    → is? err database_batch ≡ true
    → Counts err a.stats (count_error a).stats
unfolding count_error
count_error-Counts err a failed = add_batch_error-Counts err a.stats failed

count_batch-Counts :
    (err : Option Error) (batch : BatchStats) (m : Moment) (a : App)
    → is? err database_batch ≡ false
    → Balanced batch
    → Counts err a.stats (count_batch batch m (progress a)).stats
unfolding count_batch progress
count_batch-Counts err batch m a clean b = add_committed_batch-Counts err batch m a.stats clean b

summarise_stats : (m : Moment) (err : Option Error) (a : App) → (summarise m err a).stats ≡ a.stats
unfolding report_failure
summarise_stats m none a = refl
summarise_stats m (some x) a = elim (Bool-cases (is? (some x) fatal_after_commit)) [
  | inl fatal ↦ rw fatal
  | inr plain ↦ rw plain
]

settle_batch-Counts :
    (commit : CommitOutcome) (m : Moment) (before : Outbox) (b : BatchOutcome)
    → Balances b
    → Counts
        (settle_batch commit m before b).err
        b.app.stats
        (settle_batch commit m before b).app.stats
unfolding settle_batch
settle_batch-Counts commit m before b h = elim (Bool-cases (is? b.err database_batch)) [
  | inl rolled ↦ rw rolled (count_error-Counts b.err b.app rolled)
  | inr went ↦ rw went (
      ended went commit (elim h.either [
        | inl balanced ↦ balanced
        | inr bad ↦ absurd (false≢true (sym went ∙ bad))
      ]))
]
  where
    ended :
        is? b.err database_batch ≡ false
        → (c : CommitOutcome) → Balanced b.result.stats
        → Counts (conclude c m before b).err b.app.stats (conclude c m before b).app.stats
    ended clean committed balanced =
        subst (Counts b.err b.app.stats)
          (sym (summarise_stats m b.err (count_batch b.result.stats m (progress b.app))))
          (count_batch-Counts b.err b.result.stats m b.app clean balanced)
    ended clean (refused x) balanced =
        count_error-Counts (commit_error b.err x) b.app (is?-commit_error b.err x)
    ended clean (answer_lost x) balanced =
        count_error-Counts (commit_error b.err x) b.app (is?-commit_error b.err x)

module _ (rt : Runtime) ⦃e : Eq EventId⦄ (one : OneBatch) where
  -- A transaction that reports a database error adds one to the batch errors and changes no other
  -- counter; any other one adds one to the committed batches and none to the batch errors. Either
  -- keeps the counters balanced: selected = sent + poison + dead-lettered + kept for retry.
  pub process_one_batch-Counts :
      (a : App) (outbox : Outbox)
      → ((results : List SenderResult) → Permᴰ (one.run.arrange results) results)
      → Counts
          (process_one_batch rt one a outbox).err
          a.stats
          (process_one_batch rt one a outbox).app.stats
  unfolding process_one_batch
  process_one_batch-Counts a outbox perm = begun one.begin_error
    where
      b : BatchOutcome
      b = process_event_batch rt one.run a outbox

      begun :
          (x : Option Error)
          → Counts
              (one_batch_of rt one a outbox x).err
              a.stats
              (one_batch_of rt one a outbox x).app.stats
      begun (some x) = count_error-Counts (fmt_db_error x) a (is?-fmt_db_error x)
      begun none =
          subst
            (λ s.
              Counts (settle_batch one.commit one.finished outbox b).err s
                (settle_batch one.commit one.finished outbox b).app.stats)
            (process_event_batch-IsFramed rt one.run a outbox).stats
            (settle_batch-Counts one.commit one.finished outbox b
              (process_event_batch-Balances rt one.run a outbox perm))
