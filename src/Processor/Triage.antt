-- ===== src/Processor/Triage.antt =====
-- The dispatch plan of a batch: triageEvents.
pub mod Partition
use outboxer.Prelude.{
  String, Bool, true, false, Option, List, [], ◌∷◌, ◌++◌, if◌then◌else◌, is_empty, string_eq,
  contains, append_at, format,
}
use outboxer.Errors.{Error, Cause, leaf, message, Outcome, returned, failed}
use outboxer.Value.{Runtime, Time, Result, ok, err}
use outboxer.Config.{AppConfig}
use outboxer.Event.{Event, event_value, with_parsed_options, is_expired_event}
use outboxer.Collector.{PoisonEvent}
use outboxer.App.{App, progress}

pub record BatchTriage : Type 0 where
  pub events_by_target : List (String × List Event)
  pub poison : List PoisonEvent

abbrev pub no_triage : BatchTriage
no_triage = record { events_by_target = []; poison = [] }

-- What becomes of one event: sent on with its options parsed, rejected, or a reason to roll back.
pub data Verdict : Type 0 where
  dispatch : Event → Verdict
  reject : String → Verdict
  refuse : Error → Verdict

abbrev parsed_verdict : Result Event → Verdict
parsed_verdict (ok parsed) = dispatch parsed
parsed_verdict (err problem) = reject problem

unfoldable pub triage_event : Runtime → AppConfig → List String → Time → Event → Verdict
unfolding contains
triage_event rt cfg senders now evt =
    if is_expired_event rt cfg evt now
    then reject "Event expired by MAX_EVENT_AGE_MS"
    else if is_empty evt.route.target
    then refuse (
        leaf (
          message (
            format (
              "selected event "
              ∷ rt.sprint (event_value evt cfg.event_id)
              ∷ " has no resolved route"
              ∷ []))))
    else if contains evt.route.target senders
    then parsed_verdict (with_parsed_options rt cfg evt)
    else refuse (
        leaf (
          message (
            format
              ("selected event target " ∷ evt.route.target ∷ " has no configured sender" ∷ []))))

-- The plan with one more event, or the error that ends the loop.
unfoldable pub plan : BatchTriage → Event → Verdict → Outcome BatchTriage
unfolding append_at
plan triage evt (dispatch parsed) =
    returned (record triage {
      events_by_target = append_at evt.route.target parsed triage.events_by_target;
    })
plan triage evt (reject problem) =
    returned
      (record triage { poison = triage.poison ++ record { evt = evt; error = problem } ∷ [] })
plan triage evt (refuse e) = failed e

abbrev pub continue :
    Outcome BatchTriage
    → (BatchTriage → App × Outcome BatchTriage)
    → App
    → App × Outcome BatchTriage
continue (returned triage) rest a = rest triage
continue (failed e) rest a = (a, failed e)

unfoldable pub triage_from :
    Runtime → Time → BatchTriage → List Event → App → App × Outcome BatchTriage
unfolding triage_event plan progress
triage_from rt now triage [] a = (a, returned triage)
triage_from rt now triage (evt ∷ events) a =
    let marked = progress a in
    continue (plan triage evt (triage_event rt a.cfg a.senders now evt))
      (λ next. triage_from rt now next events marked) marked

unfoldable pub triage_events : Runtime → Time → List Event → App → App × Outcome BatchTriage
unfolding triage_from
triage_events rt now events a = triage_from rt now no_triage events a
