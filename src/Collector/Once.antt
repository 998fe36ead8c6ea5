-- ===== src/Collector/Once.antt =====
-- The collector settles an event of its batch at most once, and nothing else.
use mathlib.Core.List.{map-append}
use outboxer.Prelude.{
  ℕ, suc, ◌+◌, ◌≤◌, ◌≡◌, refl, sym, ◌∙◌, ap, String, Bool, true, false, Option, none, some, List,
  [], ◌∷◌, ◌++◌, map, if◌then◌else◌, ◌==◌, string_eq, lookup, insert, contains, times, Unique, keys,
  length, length-append, All, All-append, In, inl, inr, arith, contains-keys, length-keys-insert,
  length-le_of_Unique, Bool-cases, subst, lookup-insert,
}
use outboxer.Value.{Runtime}
use outboxer.Provider.{
  EventId, Callback, add_confirmed_id, add_poison_id, mark_progress, log_failure,
}
use outboxer.Config.{AppConfig}
use outboxer.Event.{Event, event_value, event_id_key}
use outboxer.Collector.{
  PoisonEvent, SenderOutput, SenderCollector, add_output, settle, events_by_id_from,
  new_sender_collector, record_outcome, confirm, poison, callback,
}

times-append : (k : String) (xs ys : List String) → times k (xs ++ ys) ≡ times k xs + times k ys
unfolding times
times-append k [] ys = omega arith
times-append k (x ∷ xs) ys = ground (arith, times-append k xs ys)

module _ (rt : Runtime) (cfg : AppConfig) where
  abbrev pub id_key : Event → String
  id_key evt = event_id_key rt (event_value evt cfg.event_id)

  -- The keys of the events that an output settles.
  abbrev pub confirmed_keys : SenderOutput → List String
  confirmed_keys o = map id_key o.confirmed

  abbrev pub poison_keys : SenderOutput → List String
  poison_keys o = map (λ p. id_key p.evt) o.poison

  -- How often an output settles the event of a key.
  abbrev pub settled : String → SenderOutput → ℕ
  settled k o = times k (confirmed_keys o) + times k (poison_keys o)

  -- The map of a collector holds events of the batch under their own keys.
  abbrev IsIndex : List Event → List (String × Event) → Type 0
  IsIndex events m =
      (k : String) (evt : Event) → lookup k m ≡ some evt → In evt events × (id_key evt ≡ k)

  pub record IsSettling (events : List Event) (c : SenderCollector) : Type 0 where
    pub index : IsIndex events c.events_by_id
    pub room : length (keys c.events_by_id) ≤ length events
    pub unique : Unique c.seen
    pub known : All (λ k. contains k (keys c.events_by_id) ≡ true) c.seen
    pub once : (k : String) → settled k c.output ≡ (if contains k c.seen then 1 else 0)
    pub counted : length c.output.confirmed + length c.output.poison ≡ length c.seen
    pub confirmed_in : All (λ evt. In evt events) c.output.confirmed
    pub poison_in : All (λ p. In p.evt events) c.output.poison

  IsIndex-insert :
      (events : List Event) (m : List (String × Event)) (evt : Event)
      → IsIndex events m
      → In evt events
      → IsIndex events (insert (id_key evt) evt m)
  IsIndex-insert events m evt h i k found e =
      pick (id_key evt == k) refl (sym (lookup-insert (id_key evt) k evt m) ∙ e)
    where
      pick :
          (b : Bool)
          → (id_key evt == k) ≡ b
          → (if b then some evt else lookup k m) ≡ some found
          → In found events × (id_key found ≡ k)
      pick true t e' =
          let same : evt ≡ found = cc in
          (
            subst (λ x. In x events) same i,
            ap id_key (sym same) ∙ (string_eq.beq_iff (id_key evt) k).0 t,
          )
      pick false t e' = h k found e'

  -- The loop of newSenderCollector.
  events_by_id_from-IsIndex :
      (events : List Event) (m : List (String × Event)) (rest : List Event)
      → IsIndex events m
      → ((evt : Event) → In evt rest → In evt events)
      → IsIndex events (events_by_id_from rt cfg m rest)
  unfolding events_by_id_from
  events_by_id_from-IsIndex events m [] h sub = h
  events_by_id_from-IsIndex events m (evt ∷ rest) h sub =
      events_by_id_from-IsIndex events (insert (id_key evt) evt m) rest
        (IsIndex-insert events m evt h (sub evt (inl refl))) (λ x i. sub x (inr i))

  length-events_by_id_from :
      (m : List (String × Event)) (rest : List Event)
      → length (keys (events_by_id_from rt cfg m rest)) ≤ length (keys m) + length rest
  unfolding events_by_id_from
  length-events_by_id_from m [] = omega arith
  length-events_by_id_from m (evt ∷ rest) = omega (
    arith,
    length-events_by_id_from (insert (id_key evt) evt m) rest,
    length-keys-insert (id_key evt) evt m,
  )

  pub new-IsSettling :
      (events : List Event) → IsSettling events (new_sender_collector rt cfg events)
  unfolding new_sender_collector contains times lookup
  new-IsSettling events = record {
    index =
        events_by_id_from-IsIndex events [] events (λ k evt e. absurd (none_found k evt e))
          (λ x i. i);
    room = omega (arith, length-events_by_id_from [] events);
    unique = tt;
    known = tt;
    once = λ k. omega arith;
    counted = omega arith;
    confirmed_in = tt;
    poison_in = tt;
  }
    where
      none_found : (k : String) (evt : Event) → lookup {V = Event} k [] ≡ some evt → ⊥
      none_found k evt e = ground arith

  settled-add_output :
      (k reason : String) (poisoned : Bool) (evt : Event) (o : SenderOutput)
      → settled k (add_output poisoned reason evt o)
        ≡ settled k o + (if id_key evt == k then 1 else 0)
  unfolding times
  settled-add_output k reason true evt o =
      rw (map-append (λ p. id_key p.evt) o.poison _)
        (ground (arith, times-append k (poison_keys o) (id_key evt ∷ [])))
  settled-add_output k reason false evt o =
      rw (map-append id_key o.confirmed _)
        (ground (arith, times-append k (confirmed_keys o) (id_key evt ∷ [])))

  counted-add_output :
      (reason : String) (poisoned : Bool) (evt : Event) (o : SenderOutput)
      → length (add_output poisoned reason evt o).confirmed
          + length (add_output poisoned reason evt o).poison
        ≡ suc (length o.confirmed + length o.poison)
  counted-add_output reason true evt o =
      omega (arith, length-append o.poison (record { evt = evt; error = reason } ∷ []))
  counted-add_output reason false evt o = omega (arith, length-append o.confirmed (evt ∷ []))

  confirmed-In-add_output :
      (events : List Event) (reason : String) (poisoned : Bool) (evt : Event) (o : SenderOutput)
      → In evt events
      → All (λ x. In x events) o.confirmed
      → All (λ x. In x events) (add_output poisoned reason evt o).confirmed
  confirmed-In-add_output events reason true evt o i h = h
  confirmed-In-add_output events reason false evt o i h =
      All-append (λ x. In x events) o.confirmed (evt ∷ []) h (i, tt)

  poison-In-add_output :
      (events : List Event) (reason : String) (poisoned : Bool) (evt : Event) (o : SenderOutput)
      → In evt events
      → All (λ (p : PoisonEvent). In p.evt events) o.poison
      → All (λ (p : PoisonEvent). In p.evt events) (add_output poisoned reason evt o).poison
  poison-In-add_output events reason true evt o i h =
      All-append (λ (p : PoisonEvent). In p.evt events) o.poison _ h (i, tt)
  poison-In-add_output events reason false evt o i h = h

  add-IsSettling :
      (events : List Event) (c : SenderCollector) (reason : String) (poisoned : Bool) (evt : Event)
      → lookup (id_key evt) c.events_by_id ≡ some evt
      → contains (id_key evt) c.seen ≡ false
      → IsSettling events c
      → IsSettling events (record c {
        seen = id_key evt ∷ c.seen;
        output = add_output poisoned reason evt c.output;
      })
  unfolding contains
  add-IsSettling events c reason poisoned evt found fresh v =
      let i = (v.index (id_key evt) evt found).0 in
      record {
        index = v.index;
        room = v.room;
        unique = (fresh, v.unique);
        known = (contains-keys (id_key evt) evt c.events_by_id found, v.known);
        once = λ k. ground (
          arith,
          settled-add_output k reason poisoned evt c.output,
          v.once k,
          string_eq.beq_iff (id_key evt) k,
        );
        counted = omega (arith, counted-add_output reason poisoned evt c.output, v.counted);
        confirmed_in = confirmed-In-add_output events reason poisoned evt c.output i v.confirmed_in;
        poison_in = poison-In-add_output events reason poisoned evt c.output i v.poison_in;
      }

  settle-IsSettling :
      (events : List Event) (c : SenderCollector) (key reason : String) (poisoned : Bool)
      (found : Option Event)
      → lookup key c.events_by_id ≡ found
      → IsSettling events c
      → IsSettling events (settle key reason poisoned found c)
  unfolding settle
  settle-IsSettling events c key reason poisoned none e v = v
  settle-IsSettling events c key reason poisoned (some evt) e v =
      elim (Bool-cases (contains key c.seen)) [
        | inl old ↦ rw old v
        | inr fresh ↦
            let own : id_key evt ≡ key = (v.index key evt e).1 in
            rw (fresh) (
              subst
                (λ k. IsSettling events (record c {
                  seen = k ∷ c.seen;
                  output = add_output poisoned reason evt c.output;
                }))
                own
                (add-IsSettling events c reason poisoned evt
                  (subst (λ k. lookup k c.events_by_id ≡ some evt) (sym own) e)
                  (subst (λ k. contains k c.seen ≡ false) (sym own) fresh) v))
      ]

  record_outcome-IsSettling :
      (events : List Event) (id : EventId) (reason : String) (poisoned : Bool) (c : SenderCollector)
      → IsSettling events c
      → IsSettling events (record_outcome rt id reason poisoned c)
  unfolding record_outcome
  record_outcome-IsSettling events id reason poisoned c v =
      settle-IsSettling events c (event_id_key rt id) reason poisoned
        (lookup (event_id_key rt id) c.events_by_id) refl v

  -- Every callback keeps the collector's promise.
  pub callback-IsSettling :
      (events : List Event) (cb : Callback) (c : SenderCollector)
      → IsSettling events c
      → IsSettling events (callback rt cb c)
  unfolding callback confirm poison
  callback-IsSettling events (add_confirmed_id id) c v =
      record_outcome-IsSettling events id "" false c v
  callback-IsSettling events (add_poison_id id reason) c v =
      record_outcome-IsSettling events id reason true c v
  callback-IsSettling events mark_progress c v = v
  callback-IsSettling events (log_failure message signature) c v = v

  -- So an output has no more events than the batch, each of the batch, none twice.
  pub settled-le-one :
      (events : List Event) (c : SenderCollector) (k : String)
      → IsSettling events c
      → settled k c.output ≤ 1
  settled-le-one events c k v = ground (arith, v.once k)

  pub output-le-batch :
      (events : List Event) (c : SenderCollector)
      → IsSettling events c
      → length c.output.confirmed + length c.output.poison ≤ length events
  output-le-batch events c v =
      omega (
        arith,
        v.counted,
        v.room,
        length-le_of_Unique c.seen (keys c.events_by_id) v.unique v.known,
      )
