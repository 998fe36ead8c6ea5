-- ===== src/Processor/Publish.antt =====
-- The publish phase of processEventBatch: one goroutine for each target sends its events, the
-- goroutines' callbacks interleave, and their results arrive in any order.
pub mod Settled
use outboxer.Prelude.{
  String, Bool, true, false, Option, List, [], ◌∷◌, if◌then◌else◌, ◌==◌, string_eq, map,
}
use outboxer.Errors.{Error}
use outboxer.Value.{Runtime}
use outboxer.Provider.{Callback}
use outboxer.Config.{AppConfig}
use outboxer.Event.{Event}
use outboxer.Collector.{
  SenderOutput, SenderCollector, new_sender_collector, callback, callback_effects,
}
use outboxer.App.{App, Moment}

-- One callback of the sender of a target, where it stands in the interleaving.
pub record Delivery : Type 0 where
  pub target : String
  pub moment : Moment
  pub report : Callback

pub record SenderResult : Type 0 where
  pub target : String
  pub output : SenderOutput
  pub err : Option Error

module _ (rt : Runtime) where
  unfoldable pub collectors :
      AppConfig → List (String × List Event) → List (String × SenderCollector)
  unfolding new_sender_collector
  collectors cfg [] = []
  collectors cfg ((target, events) ∷ groups) =
      (target, new_sender_collector rt cfg events) ∷ collectors cfg groups

  -- A callback reaches the collector of its sender.
  unfoldable pub deliver :
      Delivery → List (String × SenderCollector) → List (String × SenderCollector)
  unfolding callback
  deliver d [] = []
  deliver d ((target, c) ∷ cs) =
      if target == d.target
      then (target, callback rt d.report c) ∷ cs
      else (target, c) ∷ deliver d cs

  unfoldable pub deliver_effects : Delivery → List (String × SenderCollector) → App → App
  unfolding callback_effects
  deliver_effects d [] a = a
  deliver_effects d ((target, c) ∷ cs) a =
      if target == d.target
      then callback_effects rt d.moment d.report c a
      else deliver_effects d cs a

  unfoldable pub publish :
      List Delivery → List (String × SenderCollector) → List (String × SenderCollector)
  unfolding deliver
  publish [] cs = cs
  publish (d ∷ ds) cs = publish ds (deliver d cs)

  unfoldable pub publish_effects : List Delivery → List (String × SenderCollector) → App → App
  unfolding deliver deliver_effects
  publish_effects [] cs a = a
  publish_effects (d ∷ ds) cs a = publish_effects ds (deliver d cs) (deliver_effects d cs a)

-- collector.snapshot() with the error that Send returned
unfoldable pub sender_results :
    (String → Option Error) → List (String × SenderCollector) → List SenderResult
sender_results send_error [] = []
sender_results send_error ((target, c) ∷ cs) =
    record { target = target; output = c.output; err = send_error target }
    ∷ sender_results send_error cs
