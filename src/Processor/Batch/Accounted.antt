-- ===== src/Processor/Batch/Accounted.antt =====
-- The fate of the rows of a batch, whatever fails: kept, sent, or rejected and dead-lettered.
use outboxer.Prelude.{
  ◌≡◌, sym, ◌∙◌, subst, Option, List, [], ◌++◌, Eq, members, All-perm, In, In-append_right, In-map,
  inl, inr, ◌⊎◌, Permᴰ,
}
use outboxer.Errors.{Error, Outcome, returned, failed, Holds}
use outboxer.Value.{Fields, get, Runtime}
use outboxer.Provider.{EventId}
use outboxer.Config.{AppConfig}
use outboxer.Event.{Event}
use outboxer.App.{App, progress}
use outboxer.Collector.{PoisonEvent}
use outboxer.Dlq.{DeadLetter, dead_letter_payload}
use outboxer.Processor.Triage.{BatchTriage, triage_events}
use outboxer.Processor.Triage.Partition.{IsPlan, Unfit, triage_events-IsPlan}
use outboxer.Processor.Publish.{SenderResult}
use outboxer.Processor.Publish.Settled.{IsBacked, finished-IsBacked}
use outboxer.Processor.Batch.Deleted.{
  WasSent, WasRejected, IsDone, letters, Inserted, Deleted, insert_dead_letters-Inserted,
  delete_events-Deleted, delete_ids-IsDone,
}
use outboxer.Processor.Batch.{
  Outbox, BatchRun, BatchResult, rejected_events, insert_dead_letters, delete_events, finish,
  arrived, delete_ids, dispatch_batch, process_event_batch, after_triage, after_delete, batch_of,
  published, counted_result, sender_error, insert_progress, selected_result,
}

abbrev pub selected_events : Outcome (List Event) → List Event
selected_events (returned events) = events
selected_events (failed e) = []

module _ (rt : Runtime) (run : BatchRun) (cfg : AppConfig) where
  -- Each row of before is still there, or its event was sent or rejected; no dead letter is lost.
  pub record Accounted (J : PoisonEvent → Type 0) (events : List Event) (before after : Outbox)
      : Type 0 where
    pub rows :
        (row : Fields)
        → In row before.rows
        → In row after.rows
          ⊎ (WasSent rt run cfg events row ⊎ WasRejected rt run cfg J events after row)
    pub letters_kept : (l : DeadLetter) → In l before.dead_letters → In l after.dead_letters

  pub Accounted-refl :
      (J : PoisonEvent → Type 0) (events : List Event) (o : Outbox) → Accounted J events o o
  Accounted-refl J events o = record { rows = λ row i. inl i; letters_kept = λ l i. i }

  done_with :
      (J : PoisonEvent → Type 0) (events : List Event) (ps : List PoisonEvent)
      (tx tx' after : Outbox) (row : Fields)
      → Inserted rt run cfg ps tx tx'
      → after.dead_letters ≡ tx'.dead_letters
      → IsDone rt run cfg J events ps (get row cfg.event_id)
      → WasSent rt run cfg events row ⊎ WasRejected rt run cfg J events after row
  done_with J events ps tx tx' after row h same (inl sent) = inl sent
  done_with J events ps tx tx' after row h same (inr (p, e, s, why, i)) = inr (
    p,
    e,
    s,
    why,
    (elim h.added [
      | inl off ↦ inl off
      | inr on ↦ inr (
          subst (In (dead_letter_payload rt cfg run.letter_time p)) (sym (same ∙ on)) (
            In-append_right _ tx.dead_letters (letters rt run cfg ps)
              (In-map (dead_letter_payload rt cfg run.letter_time) p ps i)))
    ]),
  )

  module _ ⦃e : Eq EventId⦄ where
    after_delete-Accounted :
        (J : PoisonEvent → Type 0) (events : List Event) (ps : List PoisonEvent)
        (ids : List EventId) (inserted : App) (result : BatchResult) (sender_err : Option Error)
        (tx tx' : Outbox) (o : Outcome Outbox)
        → ((id : EventId) → In id ids → IsDone rt run cfg J events ps id)
        → Inserted rt run cfg ps tx tx'
        → Holds (Deleted rt run cfg ids tx') o
        → Accounted J events tx (after_delete run inserted result sender_err tx' o).tx
    unfolding after_delete
    after_delete-Accounted J events ps ids inserted result sender_err tx tx' (failed x) done h d =
        record { rows = λ row i. inl (subst (In row) (sym h.rows) i); letters_kept = h.kept }
    after_delete-Accounted J events ps ids inserted result sender_err tx tx' (returned y) done h d =
        record {
          rows = λ row i. elim (d.1 row (subst (In row) (sym h.rows) i)) [
            | inl kept ↦ inl kept
            | inr gone ↦
                inr (done_with J events ps tx tx' y row h d.0 (done (get row cfg.event_id) gone))
          ];
          letters_kept = λ l i. subst (In l) (sym d.0) (h.kept l i);
        }

    finish-Accounted :
        (J : PoisonEvent → Type 0) (events : List Event) (ps : List PoisonEvent)
        (ids : List EventId) (a inserted : App) (result : BatchResult) (sender_err : Option Error)
        (tx : Outbox) (o : Outcome Outbox)
        → ((id : EventId) → In id ids → IsDone rt run cfg J events ps id)
        → Holds (Inserted rt run cfg ps tx) o
        → Accounted J events tx (finish run cfg a inserted ids result sender_err o tx).tx
    unfolding finish
    finish-Accounted J events ps ids a inserted result sender_err tx (failed x) done h =
        Accounted-refl J events tx
    finish-Accounted J events ps ids a inserted result sender_err tx (returned tx') done h =
        after_delete-Accounted J events ps ids inserted result sender_err tx tx'
          (delete_events run cfg ids tx') done h (delete_events-Deleted rt run cfg ids tx')

    after_triage-Accounted :
        ((results : List SenderResult) → Permᴰ (run.arrange results) results)
        → (J : PoisonEvent → Type 0) (events : List Event) (x : App × Outcome BatchTriage)
          (tx : Outbox)
        → Holds (IsPlan J events events) x.1
        → Accounted J events tx (after_triage rt run cfg events x tx).tx
    unfolding after_triage dispatch_batch
    after_triage-Accounted perm J events (a, failed x) tx p = Accounted-refl J events tx
    after_triage-Accounted perm J events (a, returned triage) tx p =
        let results = arrived rt run cfg triage in
        let ps = triage.poison ++ rejected_events results in
        finish-Accounted J events ps (delete_ids rt run cfg triage results)
          (published rt run cfg triage a) (insert_progress ps (published rt run cfg triage a))
          (counted_result rt run cfg events (selected_result rt run cfg events) triage)
          (sender_error rt run results) tx (insert_dead_letters rt run cfg ps tx)
          (λ id i.
            delete_ids-IsDone rt run cfg J events triage results id p
              (All-perm (IsBacked rt cfg run.schedule (members triage.events_by_target)) (perm _)
                (finished-IsBacked rt cfg run.send_error run.schedule triage.events_by_target))
              i)
          (insert_dead_letters-Inserted rt run cfg ps tx)

module _ (rt : Runtime) ⦃e : Eq EventId⦄ (run : BatchRun) where
  pub process_event_batch-Accounted :
      (a : App) (tx : Outbox)
      → ((results : List SenderResult) → Permᴰ (run.arrange results) results)
      → Accounted rt run a.cfg
          (Unfit rt run.triage_time (progress (progress a)))
          (selected_events run.select)
          tx
          (process_event_batch rt run a tx).tx
  unfolding process_event_batch
  process_event_batch-Accounted a tx perm = split run.select
    where
      split :
          (o : Outcome (List Event))
          → Accounted rt run a.cfg
              (Unfit rt run.triage_time (progress (progress a)))
              (selected_events o)
              tx
              (batch_of rt run a tx o).tx
      split (failed x) =
          Accounted-refl rt run a.cfg (Unfit rt run.triage_time (progress (progress a))) [] tx
      split (returned events) =
          after_triage-Accounted rt run a.cfg perm
            (Unfit rt run.triage_time (progress (progress a))) events
            (triage_events rt run.triage_time events (progress (progress a))) tx
            (triage_events-IsPlan rt run.triage_time events (progress (progress a)))
