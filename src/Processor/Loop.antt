-- ===== src/Processor/Loop.antt =====
-- The processing loop: processEvents and waitForEvents.
pub mod Delivery
pub mod Frame
use outboxer.Prelude.{
  ℕ, String, Bool, true, false, Option, none, some, List, [], ◌∷◌, ◌++◌, if◌then◌else◌, Eq, ◌==◌,
  nat_eq,
}
use outboxer.Errors.{Error, database_batch, fatal_after_commit, is?}
use outboxer.Value.{Fields, Runtime}
use outboxer.Provider.{EventId}
use outboxer.Backlog.{Probe, update_backlog}
use outboxer.App.{App, Moment}
use outboxer.Processor.Batch.{Outbox}
use outboxer.Processor.Transaction.{OneBatch, BatchAnswer, process_one_batch}

-- One round of the loop: whether the context is cancelled at its start, the rows that producers
-- have committed since the last round, and what happens in the batch, the probe and the idle wait.
pub record Turn : Type 0 where
  pub cancelled : Bool
  pub inserted : List Fields
  pub batch : OneBatch
  pub probed : Moment
  pub probe : Probe
  pub start_fails : Bool
  pub wait_fails : Bool
  pub wait_cancelled : Bool

-- The state of the loop; `running` once the turns given are used up.
pub data Exit : Type 0 where
  running graceful : Exit
  fatal : Error → Exit

pub record LoopState : Type 0 where
  pub app : App
  pub outbox : Outbox
  pub exit : Exit

-- waitForEvents: whether the listener is set afterwards
unfoldable pub wait_for_events : Turn → App → App
wait_for_events t a =
    if a.listening
    then (if t.wait_fails then record a { listening = t.wait_cancelled } else a)
    else if t.start_fails
    then a
    else record a { listening = if t.wait_fails then t.wait_cancelled else true }

-- After a batch: leave, cool down, or go on.
abbrev pub next_round : Turn → BatchAnswer → LoopState
unfolding is? update_backlog wait_for_events
next_round t b =
    let noted =
      update_backlog t.probed b.result.drained b.result.stats.kept_for_retry t.probe b.app in
    if is? b.err fatal_after_commit
    then elim b.err [
      | none ↦ record { app = b.app; outbox = b.outbox; exit = running }
      | some e ↦ record {
        app = record (b.app) { listening = false };
        outbox = b.outbox;
        exit = fatal e;
      }
    ]
    else if is? b.err database_batch
    then record { app = b.app; outbox = b.outbox; exit = running }
    else record {
      app = if b.result.selected == 0 then wait_for_events t noted else noted;
      outbox = b.outbox;
      exit = running;
    }

module _ (rt : Runtime) ⦃e : Eq EventId⦄ where
  unfoldable pub round : Turn → LoopState → LoopState
  unfolding next_round process_one_batch
  round t s =
      if t.cancelled
      then record { app = record (s.app) { listening = false }; outbox = s.outbox; exit = graceful }
      else next_round t (
          process_one_batch rt t.batch s.app
            (record (s.outbox) { rows = s.outbox.rows ++ t.inserted }))

  unfoldable pub process_events : List Turn → LoopState → LoopState
  unfolding round
  process_events [] s = s
  process_events (t ∷ ts) s =
      let next = process_events ts (round t s) in
      elim s.exit [ running ↦ next | graceful ↦ s | fatal err ↦ s ]
