-- ===== src/Processor/Loop/Frame.antt =====
-- What a round does after its transaction: no table, configuration or sender changes.
use outboxer.Prelude.{
  ℕ, ◌≡◌, refl, Bool, true, false, Option, none, some, inl, inr, Bool-cases, ◌==◌, nat_eq, ltb,
  if◌then◌else◌,
}
use outboxer.Errors.{Error, database_batch, fatal_after_commit, is?}
use outboxer.Value.{elapsed}
use outboxer.Backlog.{Probe, record_probe, update_backlog, backlog_probe_interval}
use outboxer.App.{App, Moment, report_failure}
use outboxer.App.Frame.{IsSame, IsSame-trans}
use outboxer.Prelude.Int.{nonpositive}
use outboxer.Processor.Transaction.{BatchAnswer}
use outboxer.Processor.Loop.{Turn, running, fatal, LoopState, wait_for_events, next_round}

record_probe-IsSame : (m : Moment) (p : Probe) (a : App) → IsSame a (record_probe m p a)
unfolding record_probe report_failure
record_probe-IsSame m none a = record { cfg = refl; senders = refl }
record_probe-IsSame m (some x) a = record { cfg = refl; senders = refl }

if-IsSame : (b : Bool) (a x y : App) → IsSame a x → IsSame a y → IsSame a (if b then x else y)
if-IsSame true a x y h k = h
if-IsSame false a x y h k = k

update_backlog-IsSame :
    (m : Moment) (drained : Bool) (kept : ℕ) (p : Probe) (a : App)
    → IsSame a (update_backlog m drained kept p a)
unfolding update_backlog
update_backlog-IsSame m drained kept p a =
    if-IsSame drained a _ _ (record { cfg = refl; senders = refl })
      (if-IsSame (nonpositive a.cfg.backlog_count_limit) a _ _
        (record { cfg = refl; senders = refl })
        (if-IsSame (ltb (elapsed m.now a.last_backlog_probe) (backlog_probe_interval a.cfg)) a _ _
          (record { cfg = refl; senders = refl })
          (IsSame-trans (record { cfg = refl; senders = refl })
            (record_probe-IsSame m p (record a { last_backlog_probe = m.now })))))

wait_for_events-IsSame : (t : Turn) (a : App) → IsSame a (wait_for_events t a)
unfolding wait_for_events
wait_for_events-IsSame t a =
    if-IsSame a.listening a _ _
      (if-IsSame t.wait_fails a _ _ (record { cfg = refl; senders = refl })
        (record { cfg = refl; senders = refl }))
      (if-IsSame t.start_fails a _ _ (record { cfg = refl; senders = refl })
        (record { cfg = refl; senders = refl }))

-- What happens between the transaction and the next round touches no table.
pub next_round-IsSame :
    (t : Turn) (b : BatchAnswer)
    → IsSame b.app (next_round t b).app × ((next_round t b).outbox ≡ b.outbox)
unfolding next_round
next_round-IsSame t b = elim (Bool-cases (is? b.err fatal_after_commit)) [
  | inl stop ↦ rw stop (stopped b.err)
  | inr go ↦ rw go (elim (Bool-cases (is? b.err database_batch)) [
    | inl bad ↦ rw bad (record { cfg = refl; senders = refl }, refl)
    | inr good ↦ rw good (
      IsSame-trans noted (
          if-IsSame (b.result.selected == 0) _ _ _ (wait_for_events-IsSame t _)
            (record { cfg = refl; senders = refl })),
      refl,
    )
  ])
]
  where
    noted :
        IsSame b.app
          (update_backlog t.probed b.result.drained b.result.stats.kept_for_retry t.probe b.app)
    noted =
        update_backlog-IsSame t.probed b.result.drained b.result.stats.kept_for_retry t.probe b.app

    left : Option Error → LoopState
    left x = elim x [
      | none ↦ record { app = b.app; outbox = b.outbox; exit = running }
      | some err ↦ record {
        app = record (b.app) { listening = false };
        outbox = b.outbox;
        exit = fatal err;
      }
    ]

    stopped : (x : Option Error) → IsSame b.app (left x).app × ((left x).outbox ≡ b.outbox)
    stopped none = (record { cfg = refl; senders = refl }, refl)
    stopped (some err) = (record { cfg = refl; senders = refl }, refl)
