-- ===== src/Processor/Transaction/Safety.antt =====
-- What one transaction does to the tables and to the counters, however it ends.
use outboxer.Prelude.{
  ◌≡◌, ◌≢◌, refl, sym, subst, Bool, true, false, Option, none, some, List, Eq, inl, inr, ◌⊎◌, arith,
  Bool-cases, Permᴰ,
}
use outboxer.Errors.{Error, database_batch, fatal_after_commit, is?, fmt_db_error}
use outboxer.Errors.Join.{is?-join}
use outboxer.Value.{Runtime}
use outboxer.Provider.{EventId}
use outboxer.App.{App, Moment, progress}
use outboxer.Processor.Triage.Partition.{Unfit}
use outboxer.Processor.Publish.{SenderResult}
use outboxer.Processor.Batch.{Outbox, BatchOutcome, process_event_batch}
use outboxer.Processor.Batch.Balance.{is?-fmt_db_error}
use outboxer.Processor.Batch.Accounted.{
  Accounted, Accounted-refl, selected_events, process_event_batch-Accounted,
}
use outboxer.Processor.Transaction.{
  CommitOutcome, committed, refused, answer_lost, OneBatch, BatchAnswer, conclude, settle_batch,
  process_one_batch, commit_error, one_batch_of,
}

-- What a transaction can leave: the tables of before, or those of its last statement.
abbrev OneOf : Outbox → Outbox → Outbox → Type 0
OneOf before tx after = (after ≡ before) ⊎ (after ≡ tx)

settle_batch-OneOf :
    (commit : CommitOutcome) (m : Moment) (before : Outbox) (b : BatchOutcome)
    → OneOf before b.tx (settle_batch commit m before b).outbox
unfolding settle_batch
settle_batch-OneOf commit m before b = elim (Bool-cases (is? b.err database_batch)) [
  | inl rolled ↦ rw rolled (inl refl)
  | inr went ↦ rw went (ended commit)
]
  where
    ended : (c : CommitOutcome) → OneOf before b.tx (conclude c m before b).outbox
    ended committed = inr refl
    ended (refused x) = inl refl
    ended (answer_lost x) = inr refl

pub is?-commit_error :
    (batch_err : Option Error) (x : Error) → is? (commit_error batch_err x) database_batch ≡ true
is?-commit_error batch_err x = elim (Bool-cases (is? batch_err fatal_after_commit)) [
  | inl fatal ↦
      rw fatal
        (ground (arith, is?-join batch_err (fmt_db_error x) database_batch, is?-fmt_db_error x))
  | inr plain ↦ rw plain (is?-fmt_db_error x)
]

module _ (rt : Runtime) ⦃e : Eq EventId⦄ (one : OneBatch) where
  -- No row is lost: after one transaction, however it ends, each row of before is still there, or
  -- its event was confirmed by a sender, or it was rejected and is among the dead letters.
  pub process_one_batch-Accounted :
      (a : App) (outbox : Outbox)
      → ((results : List SenderResult) → Permᴰ (one.run.arrange results) results)
      → Accounted rt one.run a.cfg
          (Unfit rt one.run.triage_time (progress (progress a)))
          (selected_events one.run.select)
          outbox
          (process_one_batch rt one a outbox).outbox
  unfolding process_one_batch
  process_one_batch-Accounted a outbox perm = begun one.begin_error
    where
      b : BatchOutcome
      b = process_event_batch rt one.run a outbox

      left :
          (after : Outbox)
          → OneOf outbox b.tx after
          → Accounted rt one.run a.cfg
              (Unfit rt one.run.triage_time (progress (progress a)))
              (selected_events one.run.select)
              outbox
              after
      left after (inl same) =
          subst
            (Accounted rt one.run a.cfg (Unfit rt one.run.triage_time (progress (progress a)))
              (selected_events one.run.select) outbox)
            (sym same)
            (Accounted-refl rt one.run a.cfg (Unfit rt one.run.triage_time (progress (progress a)))
              (selected_events one.run.select) outbox)
      left after (inr done) =
          subst
            (Accounted rt one.run a.cfg (Unfit rt one.run.triage_time (progress (progress a)))
              (selected_events one.run.select) outbox)
            (sym done) (process_event_batch-Accounted rt one.run a outbox perm)

      begun :
          (x : Option Error)
          → Accounted rt one.run a.cfg
              (Unfit rt one.run.triage_time (progress (progress a)))
              (selected_events one.run.select)
              outbox
              (one_batch_of rt one a outbox x).outbox
      begun (some x) =
          Accounted-refl rt one.run a.cfg (Unfit rt one.run.triage_time (progress (progress a)))
            (selected_events one.run.select) outbox
      begun none = left _ (settle_batch-OneOf one.commit one.finished outbox b)

  -- A database error leaves the tables as they were, unless the commit was applied and only its
  -- answer was lost. An error that is no database error means that the commit was applied.
  pub process_one_batch_atomic :
      (a : App) (outbox : Outbox)
      → ((is? (process_one_batch rt one a outbox).err database_batch ≡ true)
          × (((x : Error) → one.commit ≢ answer_lost x)
              → (process_one_batch rt one a outbox).outbox ≡ outbox))
        ⊎ ((one.commit ≡ committed)
            × (is? (process_one_batch rt one a outbox).err database_batch ≡ false)
            × ((process_one_batch rt one a outbox).outbox
                ≡ (process_event_batch rt one.run a outbox).tx))
  unfolding process_one_batch settle_batch
  process_one_batch_atomic a outbox = begun one.begin_error
    where
      b : BatchOutcome
      b = process_event_batch rt one.run a outbox

      Atomic : BatchAnswer → Type 0
      Atomic r =
          ((is? r.err database_batch ≡ true)
            × (((x : Error) → one.commit ≢ answer_lost x) → r.outbox ≡ outbox))
          ⊎ ((one.commit ≡ committed) × (is? r.err database_batch ≡ false) × (r.outbox ≡ b.tx))

      ended :
          (c : CommitOutcome)
          → one.commit ≡ c
          → is? b.err database_batch ≡ false
          → Atomic (conclude c one.finished outbox b)
      ended committed e' clean = inr (e', clean, refl)
      ended (refused x) e' clean = inl (is?-commit_error b.err x, λ h. refl)
      ended (answer_lost x) e' clean = inl (is?-commit_error b.err x, λ h. absurd (h x e'))

      settled :
          (v : Bool)
          → is? b.err database_batch ≡ v
          → Atomic (settle_batch one.commit one.finished outbox b)
      settled true e' = rw e' (inl (e', λ h. refl))
      settled false e' = rw e' (ended one.commit refl e')

      begun : (x : Option Error) → Atomic (one_batch_of rt one a outbox x)
      begun (some x) = inl (is?-fmt_db_error x, λ h. refl)
      begun none = settled (is? b.err database_batch) refl
