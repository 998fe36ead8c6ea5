-- ===== src/Processor/Loop/Delivery.antt =====
-- The fate of a row over any number of rounds of the loop.
use outboxer.Prelude.{
  ◌≡◌, refl, ◌∙◌, subst, String, Bool, true, false, List, [], ◌∷◌, ◌++◌, Eq, All, In,
  In-append_left, inl, inr, ◌⊎◌, Permᴰ, nat_eq, if◌then◌else◌,
}
use outboxer.Value.{Fields, Runtime}
use outboxer.Provider.{EventId}
use outboxer.Config.{AppConfig}
use outboxer.App.{App, progress}
use outboxer.App.Frame.{IsSame, IsSame-trans}
use outboxer.Collector.{PoisonEvent}
use outboxer.Dlq.{DeadLetter}
use outboxer.Processor.Triage.{triage_event, reject}
use outboxer.Processor.Publish.{SenderResult}
use outboxer.Processor.Batch.{Outbox}
use outboxer.Processor.Batch.Deleted.{WasSent, WasRejected}
use outboxer.Processor.Batch.Accounted.{Accounted, selected_events}
use outboxer.Processor.Transaction.{OneBatch, BatchAnswer, process_one_batch}
use outboxer.Processor.Transaction.Frame.{process_one_batch-IsSame}
use outboxer.Processor.Transaction.Safety.{process_one_batch-Accounted}
use outboxer.Processor.Loop.Frame.{next_round-IsSame}
use outboxer.Processor.Loop.{
  Turn, Exit, running, graceful, fatal, LoopState, next_round, round, process_events,
}

module _ (rt : Runtime) ⦃e : Eq EventId⦄ (cfg : AppConfig) (senders : List String) where
  -- Why the plan of a turn rejects an event.
  abbrev pub IsUnfitIn : OneBatch → PoisonEvent → Type 0
  IsUnfitIn one p = triage_event rt cfg senders one.run.triage_time p.evt ≡ reject p.error

  -- In the turn's batch, the row's event was confirmed by a sender, or was rejected and, where
  -- there is a dead letter table, stands there at the end.
  abbrev pub IsSettledIn : Outbox → Fields → Turn → Type 0
  IsSettledIn after row t =
      WasSent rt t.batch.run cfg (selected_events t.batch.run.select) row
      ⊎ WasRejected rt t.batch.run cfg (IsUnfitIn t.batch) (selected_events t.batch.run.select)
          after row

  pub record IsDelivered (ts : List Turn) (before after : Outbox) : Type 0 where
    pub rows :
        (row : Fields)
        → In row before.rows
        → In row after.rows ⊎ ((t : Turn) × In t ts × IsSettledIn after row t)
    pub letters_kept : (l : DeadLetter) → In l before.dead_letters → In l after.dead_letters

  IsSettledIn-later :
      (t : Turn) (row : Fields) (o o' : Outbox)
      → ((l : DeadLetter) → In l o.dead_letters → In l o'.dead_letters)
      → IsSettledIn o row t
      → IsSettledIn o' row t
  IsSettledIn-later t row o o' keep (inl sent) = inl sent
  IsSettledIn-later t row o o' keep (inr (p, i, st, why, inl off)) = inr (p, i, st, why, inl off)
  IsSettledIn-later t row o o' keep (inr (p, i, st, why, inr on)) =
      inr (p, i, st, why, inr (keep _ on))

  IsDelivered-refl : (ts : List Turn) (o : Outbox) → IsDelivered ts o o
  IsDelivered-refl ts o = record { rows = λ row i. inl i; letters_kept = λ l i. i }

  IsDelivered-step :
      (t : Turn) (ts : List Turn) (before mid after : Outbox)
      → Accounted rt t.batch.run cfg
          (IsUnfitIn t.batch)
          (selected_events t.batch.run.select)
          (record before { rows = before.rows ++ t.inserted })
          mid
      → IsDelivered ts mid after
      → IsDelivered (t ∷ ts) before after
  IsDelivered-step t ts before mid after h rest = record {
    rows = λ row i. elim (h.rows row (In-append_left row before.rows t.inserted i)) [
      | inl kept ↦ elim (rest.rows row kept) [
        | inl still ↦ inl still
        | inr (t', j, settled) ↦ inr (t', inr j, settled)
      ]
      | inr settled ↦ inr (t, inl refl, IsSettledIn-later t row mid after rest.letters_kept settled)
    ];
    letters_kept = λ l i. rest.letters_kept l (h.letters_kept l i);
  }

  abbrev Arranges : Turn → Type 0
  Arranges t = (results : List SenderResult) → Permᴰ (t.batch.run.arrange results) results

  process_one_batch-cfg :
      (one : OneBatch) (a : App) (outbox : Outbox)
      → a.cfg ≡ cfg
      → a.senders ≡ senders
      → ((results : List SenderResult) → Permᴰ (one.run.arrange results) results)
      → Accounted rt one.run cfg
          (IsUnfitIn one)
          (selected_events one.run.select)
          outbox
          (process_one_batch rt one a outbox).outbox
  unfolding progress
  process_one_batch-cfg one a outbox c w perm =
      subst
        (λ (x : AppConfig × List String).
          Accounted rt one.run x.0
            (λ (p : PoisonEvent).
              triage_event rt x.0 x.1 one.run.triage_time p.evt ≡ reject p.error)
            (selected_events one.run.select) outbox (process_one_batch rt one a outbox).outbox)
        both (process_one_batch-Accounted rt one a outbox perm)
    where
      both : Path (AppConfig × List String) (a.cfg, a.senders) (cfg, senders)
      both = cc

  -- One round keeps the configuration and the senders, and accounts for the rows.
  round-step :
      (t : Turn) (ts : List Turn) (s : LoopState) (after : Outbox)
      → s.app.cfg ≡ cfg
      → s.app.senders ≡ senders
      → Arranges t
      → IsDelivered ts (round rt t s).outbox after
      → IsDelivered (t ∷ ts) s.outbox after
  unfolding round
  round-step t ts s after c w perm rest = split t.cancelled rest
    where
      begun : Outbox
      begun = record (s.outbox) { rows = s.outbox.rows ++ t.inserted }

      one : BatchAnswer
      one = process_one_batch rt t.batch s.app begun

      split :
          (b : Bool)
          → IsDelivered ts
              (if b
                then record {
                  app = record (s.app) { listening = false };
                  outbox = s.outbox;
                  exit = graceful;
                }
                else next_round t one).outbox
              after
          → IsDelivered (t ∷ ts) s.outbox after
      split true h = record {
        rows = λ row i. elim (h.rows row i) [
          | inl still ↦ inl still
          | inr (t', j, settled) ↦ inr (t', inr j, settled)
        ];
        letters_kept = h.letters_kept;
      }
      split false h =
          IsDelivered-step t ts s.outbox one.outbox after
            (process_one_batch-cfg t.batch s.app begun c w perm)
            (subst (λ o. IsDelivered ts o after) (next_round-IsSame t one).1 h)

  round-IsSame : (t : Turn) (s : LoopState) → IsSame s.app (round rt t s).app
  unfolding round
  round-IsSame t s = split t.cancelled
    where
      one : BatchAnswer
      one =
          process_one_batch rt t.batch s.app
            (record (s.outbox) { rows = s.outbox.rows ++ t.inserted })

      split :
          (b : Bool)
          → IsSame s.app
              (if b
                then record {
                  app = record (s.app) { listening = false };
                  outbox = s.outbox;
                  exit = graceful;
                }
                else next_round t one).app
      split true = record { cfg = refl; senders = refl }
      split false =
          IsSame-trans (process_one_batch-IsSame rt t.batch s.app _) (next_round-IsSame t one).0

  -- However many rounds run and however they end: every row that was there is still there, or was
  -- settled in one of the rounds, and no dead letter is lost.
  pub process_events-IsDelivered :
      (ts : List Turn) (s : LoopState)
      → s.app.cfg ≡ cfg
      → s.app.senders ≡ senders
      → All Arranges ts
      → IsDelivered ts s.outbox (process_events rt ts s).outbox
  unfolding process_events
  process_events-IsDelivered [] s c w perms = IsDelivered-refl [] s.outbox
  process_events-IsDelivered (t ∷ ts) s c w perms = split s.exit (
      round-step t ts s (process_events rt ts (round rt t s)).outbox c w perms.0 (
        process_events-IsDelivered ts (round rt t s) ((round-IsSame t s).cfg ∙ c)
          ((round-IsSame t s).senders ∙ w) perms.1))
    where
      left : Exit → LoopState
      left x = elim x [
        | running ↦ process_events rt ts (round rt t s)
        | graceful ↦ s
        | fatal err ↦ s
      ]

      split :
          (x : Exit)
          → IsDelivered (t ∷ ts) s.outbox (process_events rt ts (round rt t s)).outbox
          → IsDelivered (t ∷ ts) s.outbox (left x).outbox
      split running h = h
      split graceful h = IsDelivered-refl (t ∷ ts) s.outbox
      split (fatal err) h = IsDelivered-refl (t ∷ ts) s.outbox
