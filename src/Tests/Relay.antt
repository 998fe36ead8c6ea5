-- ===== src/Tests/Relay.antt =====
-- The relay's theorems on a batch of two events, one confirmed and one rejected.
use outboxer.Prelude.{
  Permᴰ, ℕ, ◌≡◌, ◌≢◌, refl, ◌⊎◌, Bool, true, false, List, [], ◌∷◌, All, length, ◌++◌, ◌+◌, ◌≤◌,
  members, total,
}
use mathlib.Core.List.Permᴰ
use outboxer.Errors.{Error, database_batch, is?, Holds}
use outboxer.App.{progress}
use outboxer.Processor.Triage.{triage_events}
use outboxer.Processor.Triage.Partition.{IsPlan, Unfit, triage_events-IsPlan}
use outboxer.Processor.Publish.{SenderResult}
use outboxer.Processor.Batch.{process_event_batch}
use outboxer.Processor.Batch.Balance.{Balances, process_event_batch-Balances}
use outboxer.Processor.Batch.Accounted.{Accounted}
use outboxer.Processor.Transaction.{answer_lost, committed, process_one_batch}
use outboxer.Processor.Transaction.Safety.{process_one_batch-Accounted, process_one_batch_atomic}
use outboxer.Processor.Transaction.Counters.{Counts, process_one_batch-Counts}
use outboxer.Processor.Loop.{process_events}
use outboxer.Processor.Loop.Delivery.{IsDelivered, process_events-IsDelivered}
use outboxer.Tests.{
  id_eq, test_runtime, test_app, test_config, test_run, test_batch, test_outbox, test_turn,
  test_state, two_events,
}

-- Both rows that the batch settles are gone, the new row and the third are kept.
two_left : length (process_events test_runtime (test_turn ∷ []) test_state).outbox.rows ≡ 2
unfolding process_events outboxer.Event.is_expired_event outboxer.Config.default_config
    outboxer.Event.with_parsed_options outboxer.Event.event_id_key outboxer.Prelude.format
    outboxer.Tests.Value-discrete outboxer.Tests.String-discrete
two_left = refl

same_order : (results : List SenderResult) → Permᴰ results results
same_order results = Permᴰ.refl results

process_events-IsDelivered_example :
    IsDelivered test_runtime test_config
      ("sqs" ∷ [])
      (test_turn ∷ test_turn ∷ [])
      test_outbox
      (process_events test_runtime (test_turn ∷ test_turn ∷ []) test_state).outbox
process_events-IsDelivered_example =
    process_events-IsDelivered test_runtime test_config ("sqs" ∷ []) (test_turn ∷ test_turn ∷ [])
      test_state refl refl (same_order, (same_order, tt))

process_one_batch-Accounted_example :
    Accounted test_runtime test_run test_config
      (Unfit test_runtime test_run.triage_time (progress (progress test_app)))
      two_events
      test_outbox
      (process_one_batch test_runtime test_batch test_app test_outbox).outbox
process_one_batch-Accounted_example =
    process_one_batch-Accounted test_runtime test_batch test_app test_outbox same_order

process_one_batch_atomic_example :
    ((is? (process_one_batch test_runtime test_batch test_app test_outbox).err database_batch
        ≡ true)
      × (((x : Error) → committed ≢ answer_lost x)
          → (process_one_batch test_runtime test_batch test_app test_outbox).outbox ≡ test_outbox))
    ⊎ ((committed ≡ committed)
        × (is? (process_one_batch test_runtime test_batch test_app test_outbox).err database_batch
            ≡ false)
        × ((process_one_batch test_runtime test_batch test_app test_outbox).outbox
            ≡ (process_event_batch test_runtime test_run test_app test_outbox).tx))
process_one_batch_atomic_example =
    process_one_batch_atomic test_runtime test_batch test_app test_outbox

process_one_batch-Counts_example :
    Counts
      (process_one_batch test_runtime test_batch test_app test_outbox).err
      test_app.stats
      (process_one_batch test_runtime test_batch test_app test_outbox).app.stats
process_one_batch-Counts_example =
    process_one_batch-Counts test_runtime test_batch test_app test_outbox same_order

process_event_batch-Balances_example :
    Balances (process_event_batch test_runtime test_run test_app test_outbox)
process_event_batch-Balances_example =
    process_event_batch-Balances test_runtime test_run test_app test_outbox same_order

triage_events-IsPlan_example :
    Holds
      (IsPlan (Unfit test_runtime 5 test_app) two_events two_events)
      (triage_events test_runtime 5 two_events test_app).1
triage_events-IsPlan_example = triage_events-IsPlan test_runtime 5 two_events test_app
