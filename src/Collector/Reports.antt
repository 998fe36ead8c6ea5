-- ===== src/Collector/Reports.antt =====
-- Whatever a collector settles, a callback reported: confirmed events were confirmed, and poison
-- events were rejected with the reason that is kept.
use outboxer.Prelude.{
  ◌≡◌, refl, String, Bool, true, false, Option, none, some, List, All, All-append, lookup, contains,
  string_eq, Bool-cases, inl, inr,
}
use outboxer.Value.{Runtime}
use outboxer.Provider.{
  EventId, Callback, add_confirmed_id, add_poison_id, mark_progress, log_failure,
}
use outboxer.Config.{AppConfig}
use outboxer.Event.{Event, event_id_key}
use outboxer.Collector.{
  PoisonEvent, SenderOutput, SenderCollector, add_output, settle, record_outcome, confirm, poison,
  callback,
}
use outboxer.Collector.Once.{id_key, IsSettling}

module _ (rt : Runtime) (cfg : AppConfig) (P : Event → Type 0) (Q : PoisonEvent → Type 0) where
  abbrev IsReported : SenderOutput → Type 0
  IsReported o = All P o.confirmed × All Q o.poison

  -- What a report about the event of `key` has to supply.
  abbrev Supplies : Bool → String → String → Type 0
  Supplies true key reason =
      (evt : Event) → id_key rt cfg evt ≡ key → Q (record { evt = evt; error = reason })
  Supplies false key reason = (evt : Event) → id_key rt cfg evt ≡ key → P evt

  add_output-IsReported :
      (poisoned : Bool) (key reason : String) (evt : Event) (o : SenderOutput)
      → Supplies poisoned key reason
      → id_key rt cfg evt ≡ key
      → IsReported o
      → IsReported (add_output poisoned reason evt o)
  add_output-IsReported true key reason evt o s e (p, q) =
      (p, All-append Q o.poison _ q (s evt e, tt))
  add_output-IsReported false key reason evt o s e (p, q) =
      (All-append P o.confirmed _ p (s evt e, tt), q)

  settle-IsReported :
      (poisoned : Bool) (key reason : String) (found : Option Event) (c : SenderCollector)
      → ((evt : Event) → found ≡ some evt → id_key rt cfg evt ≡ key)
      → Supplies poisoned key reason
      → IsReported c.output
      → IsReported (settle key reason poisoned found c).output
  unfolding settle
  settle-IsReported poisoned key reason none c own s h = h
  settle-IsReported poisoned key reason (some evt) c own s h =
      elim (Bool-cases (contains key c.seen)) [
        | inl old ↦ rw old h
        | inr fresh ↦
            rw fresh (add_output-IsReported poisoned key reason evt c.output s (own evt refl) h)
      ]

  record_outcome-IsReported :
      (events : List Event) (poisoned : Bool) (id : EventId) (reason : String) (c : SenderCollector)
      → IsSettling rt cfg events c
      → Supplies poisoned (event_id_key rt id) reason
      → IsReported c.output
      → IsReported (record_outcome rt id reason poisoned c).output
  unfolding record_outcome
  record_outcome-IsReported events poisoned id reason c v s h =
      settle-IsReported poisoned (event_id_key rt id) reason
        (lookup (event_id_key rt id) c.events_by_id) c
        (λ evt e. (v.index (event_id_key rt id) evt e).1) s h

  pub callback-IsReported :
      (events : List Event) (cb : Callback) (c : SenderCollector)
      → IsSettling rt cfg events c
      → ((id : EventId) (evt : Event)
          → cb ≡ add_confirmed_id id
          → id_key rt cfg evt ≡ event_id_key rt id
          → P evt)
      → ((id : EventId) (reason : String) (evt : Event)
          → cb ≡ add_poison_id id reason
          → id_key rt cfg evt ≡ event_id_key rt id
          → Q (record { evt = evt; error = reason }))
      → All P c.output.confirmed × All Q c.output.poison
      → All P (callback rt cb c).output.confirmed × All Q (callback rt cb c).output.poison
  unfolding callback confirm poison
  callback-IsReported events (add_confirmed_id id) c v p q h =
      record_outcome-IsReported events false id "" c v (λ evt e. p id evt refl e) h
  callback-IsReported events (add_poison_id id reason) c v p q h =
      record_outcome-IsReported events true id reason c v (λ evt e. q id reason evt refl e) h
  callback-IsReported events mark_progress c v p q h = h
  callback-IsReported events (log_failure message signature) c v p q h = h
