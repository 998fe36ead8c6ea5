-- ===== src/Processor/Triage/Partition.antt =====
-- The plan accounts for every selected event: each is sent on under its own target or rejected,
-- and no event is made up.
use outboxer.Prelude.{
  ◌+◌, ◌≡◌, refl, ap, String, Bool, true, false, List, [], ◌∷◌, ◌++◌, if◌then◌else◌, is_empty,
  string_eq, contains, append_at, members, length, length-append, All, All-append, In,
  In-append_left, In-append_right, Grouped, append_at-Grouped, length-members-append_at,
  In-append_at_new, In-append_at_old, inl, inr, ◌⊎◌, arith, All-map, reverse_onto, All-reverse_onto,
  length-reverse_onto,
}
use outboxer.Errors.{Error, Outcome, returned, failed, Holds}
use outboxer.Value.{Runtime, Time, Result, ok, err, get, ◌>>=◌}
use outboxer.Config.{AppConfig}
use outboxer.Provider.{Options}
use outboxer.Event.{Event, event_options, with_parsed_options, is_expired_event}
use outboxer.Collector.{PoisonEvent}
use outboxer.App.{App, progress}
use outboxer.Processor.Triage.{
  BatchTriage, no_triage, Verdict, dispatch, reject, refuse, parsed_verdict, triage_event, plan,
  continue, triage_from, triage_events,
}

-- A parsed event stands for a selected one: the same row on the same route.
abbrev pub SameRow : Event → Event → Type 0
SameRow parsed evt = (parsed.columns ≡ evt.columns) × (parsed.route ≡ evt.route)

abbrev pub Stands : List Event → Event → Type 0
Stands events parsed = (evt : Event) × In evt events × SameRow parsed evt

stored-SameRow :
    (r : Result Options) (evt parsed : Event)
    → (r >>= λ options. ok (record evt { options = options })) ≡ ok parsed
    → SameRow parsed evt
stored-SameRow (ok options) evt parsed h = ground arith
stored-SameRow (err problem) evt parsed h = ground arith

dispatch_inv :
    (expired unrouted known : Bool) (problem : String) (e e' : Error) (r : Result Event)
    (parsed : Event)
    → (if expired
        then reject problem
        else if unrouted
        then refuse e
        else if known
        then parsed_verdict r
        else refuse e')
      ≡ dispatch parsed
    → r ≡ ok parsed
dispatch_inv true unrouted known problem e e' r parsed h = ground arith
dispatch_inv false true known problem e e' r parsed h = ground arith
dispatch_inv false false false problem e e' r parsed h = ground arith
dispatch_inv false false true problem e e' (ok evt) parsed h = ground arith
dispatch_inv false false true problem e e' (err text) parsed h = ground arith

-- What the plan makes of an event: a rejection, or a parsed event under its target.
abbrev pub Handled : BatchTriage → Event → Type 0
Handled triage evt =
    ((p : PoisonEvent) × In p triage.poison × (p.evt ≡ evt))
    ⊎ ((parsed : Event) × In parsed (members triage.events_by_target) × SameRow parsed evt)

-- A plan for the events `done` out of `events`.
-- `J` is what justifies a rejection.
pub record IsPlan (J : PoisonEvent → Type 0) (events done : List Event) (triage : BatchTriage)
    : Type 0 where
  pub routed :
      Grouped
        (λ target parsed. Stands events parsed × (parsed.route.target ≡ target))
        triage.events_by_target
  pub rejected : All (λ (p : PoisonEvent). In p.evt events × J p) triage.poison
  pub handled : All (Handled triage) done
  pub counted : length triage.poison + length (members triage.events_by_target) ≡ length done

Handled-dispatch :
    (triage : BatchTriage) (target : String) (parsed evt : Event)
    → Handled triage evt
    → Handled
        (record triage { events_by_target = append_at target parsed triage.events_by_target })
        evt
Handled-dispatch triage target parsed evt (inl h) = inl h
Handled-dispatch triage target parsed evt (inr (x, i, same)) =
    inr (x, In-append_at_old target parsed x triage.events_by_target i, same)

Handled-reject :
    (triage : BatchTriage) (p : PoisonEvent) (evt : Event)
    → Handled triage evt
    → Handled (record triage { poison = triage.poison ++ p ∷ [] }) evt
Handled-reject triage p evt (inl (q, i, e)) = inl (q, In-append_left q triage.poison (p ∷ []) i, e)
Handled-reject triage p evt (inr h) = inr h

plan-IsPlan :
    (J : PoisonEvent → Type 0) (events done : List Event) (triage : BatchTriage) (evt : Event)
    (v : Verdict)
    → ((parsed : Event) → v ≡ dispatch parsed → SameRow parsed evt)
    → ((problem : String) → v ≡ reject problem → J (record { evt = evt; error = problem }))
    → In evt events
    → IsPlan J events done triage
    → Holds (IsPlan J events (evt ∷ done)) (plan triage evt v)
unfolding plan
plan-IsPlan J events done triage evt (dispatch parsed) same why i p =
    let row = same parsed refl in
    record {
      routed =
          append_at-Grouped (λ target x. Stands events x × (x.route.target ≡ target))
            evt.route.target parsed triage.events_by_target
            ((evt, i, row), ap (λ r. r.target) row.1) p.routed;
      rejected = p.rejected;
      handled = (
        inr (parsed, In-append_at_new evt.route.target parsed triage.events_by_target, row),
        All-map (Handled triage) _ done (λ x. Handled-dispatch triage evt.route.target parsed x)
            p.handled,
      );
      counted = omega (
        arith,
        length-members-append_at evt.route.target parsed triage.events_by_target,
        p.counted,
      );
    }
plan-IsPlan J events done triage evt (reject problem) same why i p =
    let q : PoisonEvent = record { evt = evt; error = problem } in
    record {
      routed = p.routed;
      rejected =
          All-append (λ (x : PoisonEvent). In x.evt events × J x) triage.poison _ p.rejected
            ((i, why problem refl), tt);
      handled = (
        inl (q, In-append_right q triage.poison (q ∷ []) (inl refl), refl),
        All-map (Handled triage) _ done (λ x. Handled-reject triage q x) p.handled,
      );
      counted = omega (arith, length-append triage.poison (q ∷ []), p.counted);
    }
plan-IsPlan J events done triage evt (refuse e) same why i p = tt

module _ (rt : Runtime) where
  with_parsed_options-SameRow :
      (cfg : AppConfig) (evt parsed : Event)
      → with_parsed_options rt cfg evt ≡ ok parsed
      → SameRow parsed evt
  unfolding with_parsed_options
  with_parsed_options-SameRow cfg evt parsed h =
      stored-SameRow (event_options rt (get evt.columns cfg.event_options) evt.route.target) evt
        parsed h

  -- An event that is sent on is the selected one with its options parsed.
  triage_event-SameRow :
      (cfg : AppConfig) (senders : List String) (now : Time) (evt parsed : Event)
      → triage_event rt cfg senders now evt ≡ dispatch parsed
      → SameRow parsed evt
  unfolding triage_event
  triage_event-SameRow cfg senders now evt parsed h = with_parsed_options-SameRow cfg evt parsed (
      dispatch_inv (is_expired_event rt cfg evt now) (is_empty evt.route.target)
        (contains evt.route.target senders) _ _ _ (with_parsed_options rt cfg evt) parsed h)

  -- Why the plan rejects an event: it has expired, or its options cannot be parsed.
  abbrev pub Unfit : Time → App → PoisonEvent → Type 0
  Unfit now a p = triage_event rt a.cfg a.senders now p.evt ≡ reject p.error

  triage_from-IsPlan :
      (events done : List Event) (now : Time) (triage : BatchTriage) (rest : List Event) (a : App)
      → ((evt : Event) → In evt rest → In evt events)
      → IsPlan (Unfit now a) events done triage
      → Holds
          (IsPlan (Unfit now a) events (reverse_onto rest done))
          (triage_from rt now triage rest a).1
  unfolding triage_from progress
  triage_from-IsPlan events done now triage [] a sub p = p
  triage_from-IsPlan events done now triage (evt ∷ rest) a sub p =
      go (plan triage evt (triage_event rt a.cfg a.senders now evt))
        (plan-IsPlan (Unfit now a) events done triage evt (triage_event rt a.cfg a.senders now evt)
          (λ parsed. triage_event-SameRow a.cfg a.senders now evt parsed) (λ problem e. e)
          (sub evt (inl refl)) p)
        (λ next.
          triage_from-IsPlan events (evt ∷ done) now next rest (progress a) (λ x i. sub x (inr i)))
    where
      go :
          (o : Outcome BatchTriage)
          → Holds (IsPlan (Unfit now a) events (evt ∷ done)) o
          → ((next : BatchTriage)
              → IsPlan (Unfit now a) events (evt ∷ done) next
              → Holds
                  (IsPlan (Unfit now a) events (reverse_onto rest (evt ∷ done)))
                  (triage_from rt now next rest (progress a)).1)
          → Holds
              (IsPlan (Unfit now a) events (reverse_onto rest (evt ∷ done)))
              (continue o (λ next. triage_from rt now next rest (progress a)) (progress a)).1
      go (returned next) h rec = rec next h
      go (failed e) h rec = tt

  -- A batch that is not refused is partitioned: every selected event is rejected or sent on under
  -- its own target, the plan holds nothing else, and the numbers add up.
  pub triage_events-IsPlan :
      (now : Time) (events : List Event) (a : App)
      → Holds (IsPlan (Unfit now a) events events) (triage_events rt now events a).1
  unfolding triage_events
  triage_events-IsPlan now events a = done (triage_events rt now events a).1 (
      triage_from-IsPlan events [] now no_triage events a (λ x i. i)
        (record { routed = tt; rejected = tt; handled = tt; counted = omega arith }))
    where
      done :
          (o : Outcome BatchTriage)
          → Holds (IsPlan (Unfit now a) events (reverse_onto events [])) o
          → Holds (IsPlan (Unfit now a) events events) o
      done (returned triage) p = record {
        routed = p.routed;
        rejected = p.rejected;
        handled = (All-reverse_onto (Handled triage) events [] p.handled).0;
        counted = omega (arith, p.counted, length-reverse_onto events []);
      }
      done (failed e) p = tt
