-- ===== src/Processor/Batch/Deleted.antt =====
-- Which rows a batch deletes: only rows whose event a sender confirmed, or that was rejected and,
-- where there is a dead letter table, written there first.
use outboxer.Prelude.{
  ◌≡◌, refl, sym, ap, String, not, Option, none, some, List, [], ◌∷◌, ◌++◌, map, append-nil, Eq,
  contains, keep, members, All, All-In, In, In-append_left, In-append_right, In-append_cases,
  In-map_inv, In-keep, In-of_contains, Grouped-In, inl, inr, ◌⊎◌, Bool-cases, is_empty, string_eq,
}
use outboxer.Errors.{Error, returned, failed, Holds}
use outboxer.Value.{Fields, get, Runtime}
use outboxer.Provider.{EventId}
use outboxer.Config.{AppConfig}
use outboxer.Event.{Event, event_value}
use outboxer.Collector.{PoisonEvent}
use outboxer.Dlq.{DeadLetter, dead_letter_payload, marshal_all}
use outboxer.Processor.Triage.{BatchTriage}
use outboxer.Processor.Triage.Partition.{IsPlan, Stands}
use outboxer.Processor.Publish.{SenderResult}
use outboxer.Processor.Publish.Settled.{Confirmed, Rejected, IsBacked}
use outboxer.Processor.Batch.{
  Outbox, BatchRun, rejected_events, result_ids, insert_dead_letters, delete_events, delete_ids,
}

module _ (rt : Runtime) (run : BatchRun) (cfg : AppConfig) where
  -- The row's event was selected, and the sender of some target confirmed it.
  abbrev pub WasSent : List Event → Fields → Type 0
  WasSent events row =
      (evt : Event) × (event_value evt cfg.event_id ≡ get row cfg.event_id)
      × Stands events evt
      × ((target : String) × Confirmed rt cfg run.schedule target evt)

  -- A sender reported the event as poison for this reason, or the plan rejected it for `J`.
  abbrev pub IsPoison : (PoisonEvent → Type 0) → PoisonEvent → Type 0
  IsPoison J p = J p ⊎ ((target : String) × Rejected rt cfg run.schedule target p)

  -- The row's event was selected and is poison, and it is among the dead letters where they are
  -- kept.
  abbrev pub WasRejected : (PoisonEvent → Type 0) → List Event → Outbox → Fields → Type 0
  WasRejected J events after row =
      (p : PoisonEvent) × (event_value p.evt cfg.event_id ≡ get row cfg.event_id)
      × Stands events p.evt
      × IsPoison J p
      × ((cfg.dlq_table ≡ "")
          ⊎ In (dead_letter_payload rt cfg run.letter_time p) after.dead_letters)

  abbrev pub letters : List PoisonEvent → List DeadLetter
  letters = map (dead_letter_payload rt cfg run.letter_time)

  -- What the insertion of the dead letters does to the tables.
  pub record Inserted (ps : List PoisonEvent) (tx tx' : Outbox) : Type 0 where
    pub rows : tx'.rows ≡ tx.rows
    pub kept : (l : DeadLetter) → In l tx.dead_letters → In l tx'.dead_letters
    pub added : (cfg.dlq_table ≡ "") ⊎ (tx'.dead_letters ≡ tx.dead_letters ++ letters ps)

  pub insert_dead_letters-Inserted :
      (ps : List PoisonEvent) (tx : Outbox)
      → Holds (Inserted ps tx) (insert_dead_letters rt run cfg ps tx)
  unfolding insert_dead_letters
  insert_dead_letters-Inserted [] tx = record {
    rows = refl;
    kept = λ l i. i;
    added = inr (sym (append-nil tx.dead_letters));
  }
  insert_dead_letters-Inserted (p ∷ ps) tx = elim (Bool-cases (is_empty cfg.dlq_table)) [
    | inl off ↦ rw off (record {
      rows = refl;
      kept = λ l i. i;
      added = inl ((string_eq.beq_iff cfg.dlq_table "").0 off);
    })
    | inr on ↦ rw on (marshalled (marshal_all run.marshal (letters (p ∷ ps))) run.insert_error)
  ]
    where
      marshalled :
          (m i : Option Error)
          → Holds (Inserted (p ∷ ps) tx) (elim m [
            | some e ↦ failed e
            | none ↦ elim i [
              | some e ↦ failed e
              | none ↦ returned (record tx { dead_letters = tx.dead_letters ++ letters (p ∷ ps) })
            ]
          ])
      marshalled (some e) i = tt
      marshalled none (some e) = tt
      marshalled none none = record {
        rows = refl;
        kept = λ l j. In-append_left l tx.dead_letters (letters (p ∷ ps)) j;
        added = inr refl;
      }

  -- An id that the deletion names belongs to an event that was sent or is poison.
  abbrev pub IsDone : (PoisonEvent → Type 0) → List Event → List PoisonEvent → EventId → Type 0
  IsDone J events ps id =
      ((evt : Event) × (event_value evt cfg.event_id ≡ id)
        × Stands events evt
        × ((target : String) × Confirmed rt cfg run.schedule target evt))
      ⊎ ((p : PoisonEvent) × (event_value p.evt cfg.event_id ≡ id)
          × Stands events p.evt
          × IsPoison J p
          × In p ps)

  module _ ⦃e : Eq EventId⦄ where
    abbrev pub Deleted : List EventId → Outbox → Outbox → Type 0
    Deleted ids tx done =
        (done.dead_letters ≡ tx.dead_letters)
        × ((row : Fields) → In row tx.rows → In row done.rows ⊎ In (get row cfg.event_id) ids)

    pub delete_events-Deleted :
        (ids : List EventId) (tx : Outbox) → Holds (Deleted ids tx) (delete_events run cfg ids tx)
    unfolding delete_events
    delete_events-Deleted [] tx = (refl, λ row i. inl i)
    delete_events-Deleted (id ∷ ids) tx = outcome run.delete_error
      where
        outcome :
            (x : Option Error)
            → Holds (Deleted (id ∷ ids) tx) (elim x [
              | some err ↦ failed err
              | none ↦ returned (record tx {
                rows = keep (λ row. not (contains (get row cfg.event_id) (id ∷ ids))) tx.rows;
              })
            ])
        outcome (some err) = tt
        outcome none = (
          refl,
          λ row i. elim (Bool-cases (contains (get row cfg.event_id) (id ∷ ids))) [
            | inl hit ↦ inr (In-of_contains (get row cfg.event_id) (id ∷ ids) hit)
            | inr miss ↦ inl (
                In-keep (λ r. not (contains (get r cfg.event_id) (id ∷ ids))) row tx.rows i
                  (ap not miss))
          ],
        )

  widen :
      (J : PoisonEvent → Type 0) (events : List Event) (ps qs : List PoisonEvent) (id : EventId)
      → ((p : PoisonEvent) → In p ps → In p qs)
      → IsDone J events ps id
      → IsDone J events qs id
  widen J events ps qs id sub (inl sent) = inl sent
  widen J events ps qs id sub (inr (p, e, s, why, i)) = inr (p, e, s, why, sub p i)

  result_ids-IsDone :
      (J : PoisonEvent → Type 0) (events sent_on : List Event)
      → ((evt : Event) → In evt sent_on → Stands events evt)
      → (results : List SenderResult) (id : EventId)
      → All (IsBacked rt cfg run.schedule sent_on) results
      → In id (result_ids cfg results)
      → IsDone J events (rejected_events results) id
  result_ids-IsDone J events sent_on stands [] id b i = absurd i
  result_ids-IsDone J events sent_on stands (r ∷ rs) id b i =
      elim (In-append_cases id (map (λ evt. event_value evt cfg.event_id) r.output.confirmed) _ i) [
        | inl sent ↦
            (let (evt, j, e) =
                In-map_inv (λ evt. event_value evt cfg.event_id) id r.output.confirmed sent in
              inl (
                evt,
                e,
                stands evt (All-In (λ x. In x sent_on) evt r.output.confirmed b.0.confirmed_in j),
                (
                  r.target,
                  All-In (Confirmed rt cfg run.schedule r.target) evt r.output.confirmed
                      b.0.confirmed_by j,
                ),
              ))
        | inr other ↦
            (elim (In-append_cases id
              (map (λ (p : PoisonEvent). event_value p.evt cfg.event_id) r.output.poison) _ other) [
                | inl bad ↦
                    (let (p, j, e) =
                        In-map_inv (λ (p : PoisonEvent). event_value p.evt cfg.event_id) id
                          r.output.poison bad in
                      inr (
                        p,
                        e,
                        stands p.evt (
                            All-In (λ (q : PoisonEvent). In q.evt sent_on) p r.output.poison
                              b.0.poison_in j),
                        inr (
                          r.target,
                          All-In (Rejected rt cfg run.schedule r.target) p r.output.poison
                              b.0.poison_by j,
                        ),
                        In-append_left p r.output.poison (rejected_events rs) j,
                      ))
                | inr later ↦
                    widen J events (rejected_events rs) (r.output.poison ++ rejected_events rs) id
                      (λ p. In-append_right p r.output.poison (rejected_events rs))
                      (result_ids-IsDone J events sent_on stands rs id b.1 later)
              ])
      ]

  module _ ⦃e : Eq EventId⦄ where
    pub delete_ids-IsDone :
        (J : PoisonEvent → Type 0) (events : List Event) (triage : BatchTriage)
        (results : List SenderResult) (id : EventId)
        → IsPlan J events events triage
        → All (IsBacked rt cfg run.schedule (members triage.events_by_target)) results
        → In id (delete_ids rt run cfg triage results)
        → IsDone J events (triage.poison ++ rejected_events results) id
    unfolding delete_ids
    delete_ids-IsDone J events triage results id plan b i =
        elim (In-append_cases id
          (map (λ (p : PoisonEvent). event_value p.evt cfg.event_id) triage.poison) _ i) [
            | inl bad ↦
                (let (p, j, e) =
                    In-map_inv (λ (p : PoisonEvent). event_value p.evt cfg.event_id) id
                      triage.poison bad in
                  let why =
                    All-In (λ (q : PoisonEvent). In q.evt events × J q) p triage.poison
                      plan.rejected j in
                  inr (
                    p,
                    e,
                    (p.evt, why.0, (refl, refl)),
                    inl why.1,
                    In-append_left p triage.poison (rejected_events results) j,
                  ))
            | inr later ↦
                widen J events (rejected_events results) (triage.poison ++ rejected_events results)
                  id (λ p. In-append_right p triage.poison (rejected_events results))
                  (result_ids-IsDone J events (members triage.events_by_target)
                    (λ evt k. (Grouped-In _ evt triage.events_by_target k plan.routed).1.0) results
                    id b later)
          ]
