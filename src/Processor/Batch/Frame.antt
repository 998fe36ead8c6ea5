-- ===== src/Processor/Batch/Frame.antt =====
-- A batch touches the watchdog and the failure log of the app, and nothing else of it.
use outboxer.Prelude.{
  String, Option, none, some, List, [], ◌∷◌, Eq, lookup, is_empty, Bool-cases, inl, inr, string_eq,
  ◌==◌,
}
use outboxer.Errors.{Error, Outcome, returned, failed}
use outboxer.Value.{Runtime, Time}
use outboxer.Provider.{
  EventId, Callback, add_confirmed_id, add_poison_id, mark_progress, log_failure,
}
use outboxer.Config.{AppConfig}
use outboxer.Event.{Event, event_id_key}
use outboxer.App.{App, Moment, progress}
use outboxer.App.Frame.{
  IsFramed, IsFramed-refl, IsFramed-trans, progress-IsFramed, report_failure-IsFramed,
}
use outboxer.Collector.{PoisonEvent, SenderCollector, record_effects, callback_effects, log_outside}
use outboxer.Processor.Triage.{
  BatchTriage, no_triage, triage_event, plan, continue, triage_from, triage_events,
}
use outboxer.Processor.Publish.{Delivery, deliver, deliver_effects, publish_effects, collectors}
use outboxer.Processor.Batch.{
  Outbox, BatchRun, BatchResult, insert_progress, after_delete, finish, delete_events, published,
  dispatch_batch, after_triage, batch_of, process_event_batch,
}

module _ (rt : Runtime) where
  record_effects-IsFramed :
      (m : Moment) (id : EventId) (c : SenderCollector) (a : App)
      → IsFramed a (record_effects rt m id c a)
  unfolding record_effects
  record_effects-IsFramed m id c a =
      IsFramed-trans (progress-IsFramed a) (logged (lookup (event_id_key rt id) c.events_by_id))
    where
      logged :
          (found : Option Event)
          → IsFramed (progress a) (log_outside m (event_id_key rt id) found (progress a))
      logged none = report_failure-IsFramed m _ (progress a)
      logged (some evt) = IsFramed-refl (progress a)

  callback_effects-IsFramed :
      (m : Moment) (cb : Callback) (c : SenderCollector) (a : App)
      → IsFramed a (callback_effects rt m cb c a)
  unfolding callback_effects
  callback_effects-IsFramed m (add_confirmed_id id) c a = record_effects-IsFramed m id c a
  callback_effects-IsFramed m (add_poison_id id reason) c a = record_effects-IsFramed m id c a
  callback_effects-IsFramed m mark_progress c a = progress-IsFramed a
  callback_effects-IsFramed m (log_failure message signature) c a =
      report_failure-IsFramed m signature a

  deliver_effects-IsFramed :
      (d : Delivery) (cs : List (String × SenderCollector)) (a : App)
      → IsFramed a (deliver_effects rt d cs a)
  unfolding deliver_effects
  deliver_effects-IsFramed d [] a = IsFramed-refl a
  deliver_effects-IsFramed d ((target, c) ∷ cs) a = elim (Bool-cases (target == d.target)) [
    | inl hit ↦ rw hit (callback_effects-IsFramed d.moment d.report c a)
    | inr miss ↦ rw miss (deliver_effects-IsFramed d cs a)
  ]

  publish_effects-IsFramed :
      (ds : List Delivery) (cs : List (String × SenderCollector)) (a : App)
      → IsFramed a (publish_effects rt ds cs a)
  unfolding publish_effects
  publish_effects-IsFramed [] cs a = IsFramed-refl a
  publish_effects-IsFramed (d ∷ ds) cs a =
      IsFramed-trans (deliver_effects-IsFramed d cs a)
        (publish_effects-IsFramed ds (deliver rt d cs) (deliver_effects rt d cs a))

  triage_from-IsFramed :
      (now : Time) (triage : BatchTriage) (events : List Event) (a : App)
      → IsFramed a (triage_from rt now triage events a).0
  unfolding triage_from
  triage_from-IsFramed now triage [] a = IsFramed-refl a
  triage_from-IsFramed now triage (evt ∷ events) a = IsFramed-trans (progress-IsFramed a) (
      go (plan triage evt (triage_event rt a.cfg a.senders now evt))
        (λ next. triage_from-IsFramed now next events (progress a)))
    where
      go :
          (o : Outcome BatchTriage)
          → ((next : BatchTriage)
              → IsFramed (progress a) (triage_from rt now next events (progress a)).0)
          → IsFramed
              (progress a)
              (continue o (λ next. triage_from rt now next events (progress a)) (progress a)).0
      go (returned next) rec = rec next
      go (failed x) rec = IsFramed-refl (progress a)

  triage_events-IsFramed :
      (now : Time) (events : List Event) (a : App) → IsFramed a (triage_events rt now events a).0
  unfolding triage_events
  triage_events-IsFramed now events a = triage_from-IsFramed now no_triage events a

insert_progress-IsFramed : (ps : List PoisonEvent) (a : App) → IsFramed a (insert_progress ps a)
unfolding insert_progress
insert_progress-IsFramed [] a = IsFramed-refl a
insert_progress-IsFramed (p ∷ ps) a = elim (Bool-cases (is_empty a.cfg.dlq_table)) [
  | inl off ↦ rw off (IsFramed-refl a)
  | inr on ↦ rw on (progress-IsFramed a)
]

module _ (rt : Runtime) ⦃e : Eq EventId⦄ (run : BatchRun) where
  after_delete-IsFramed :
      (inserted : App) (result : BatchResult) (sender_err : Option Error) (tx : Outbox)
      (o : Outcome Outbox)
      → IsFramed inserted (after_delete run inserted result sender_err tx o).app
  unfolding after_delete
  after_delete-IsFramed inserted result sender_err tx (failed x) = progress-IsFramed inserted
  after_delete-IsFramed inserted result sender_err tx (returned y) =
      IsFramed-trans (progress-IsFramed inserted) (progress-IsFramed (progress inserted))

  finish-IsFramed :
      (cfg : AppConfig) (a inserted : App) (ids : List EventId) (result : BatchResult)
      (sender_err : Option Error) (o : Outcome Outbox) (tx : Outbox)
      → IsFramed a inserted
      → IsFramed a (finish run cfg a inserted ids result sender_err o tx).app
  unfolding finish
  finish-IsFramed cfg a inserted ids result sender_err (failed x) tx f = IsFramed-refl a
  finish-IsFramed cfg a inserted ids result sender_err (returned tx') tx f =
      IsFramed-trans f
        (after_delete-IsFramed inserted result sender_err tx' (delete_events run cfg ids tx'))

  published-IsFramed :
      (cfg : AppConfig) (triage : BatchTriage) (a : App)
      → IsFramed a (published rt run cfg triage a)
  unfolding published
  published-IsFramed cfg triage a =
      publish_effects-IsFramed rt run.schedule (collectors rt cfg triage.events_by_target) a

  after_triage-IsFramed :
      (cfg : AppConfig) (events : List Event) (x : App × Outcome BatchTriage) (tx : Outbox)
      → IsFramed x.0 (after_triage rt run cfg events x tx).app
  unfolding after_triage dispatch_batch
  after_triage-IsFramed cfg events (a, failed err) tx = IsFramed-refl a
  after_triage-IsFramed cfg events (a, returned triage) tx =
      IsFramed-trans (published-IsFramed cfg triage a) (
        finish-IsFramed cfg (published rt run cfg triage a) _ _ _ _ _ tx
          (insert_progress-IsFramed _ (published rt run cfg triage a)))

  pub process_event_batch-IsFramed :
      (a : App) (tx : Outbox) → IsFramed a (process_event_batch rt run a tx).app
  unfolding process_event_batch
  process_event_batch-IsFramed a tx = split run.select
    where
      marked : IsFramed a (progress (progress a))
      marked = IsFramed-trans (progress-IsFramed a) (progress-IsFramed (progress a))

      split : (o : Outcome (List Event)) → IsFramed a (batch_of rt run a tx o).app
      split (failed err) = progress-IsFramed a
      split (returned events) = IsFramed-trans marked (
          IsFramed-trans (triage_events-IsFramed rt run.triage_time events (progress (progress a)))
            (after_triage-IsFramed a.cfg events
              (triage_events rt run.triage_time events (progress (progress a))) tx))
