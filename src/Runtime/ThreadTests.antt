-- ===== src/Runtime/ThreadTests.antt =====
-- The threads of src/runtime.rs at concrete inputs.
use jkq.Prelude.{
  All, ok, ℕ, ◌+◌, ◌≤◌, ◌≡◌, refl, Bool, true, false, Option, none, some, List, [], ◌∷◌, map,
}
use jkq.Admission.Shared.{new as shared_budget}
use jkq.Cli.Config.{embeds_json}
use jkq.Cli.Tests.{raw, config, read_to_string, raw-resolves}
use jkq.Int.{pos}
use jkq.Kafka.InputTests.{grow, pauses, assigned, message}
use jkq.Runtime.Polling.Source.{Scripted, kafka_source}
use jkq.Records.{OwnedRecord, Buffer, RuntimeLimits}
use jkq.Runtime.Batches.{WorkItem, RecordBatch, evaluate, write, push, new as new_buffer}
use jkq.Runtime.Batches.Limits.{push-limits, IsPartial, IsFitting}
use jkq.Runtime.Evaluation.{worker_loop}
use jkq.Runtime.Evaluation.Accepted.{resolved_evaluation-IsAccepted, IsAccepted, new_worker}
use jkq.Runtime.Evaluation.Matching.{worker_loop-answers, answer_identity}
use jkq.Runtime.Polling.{Poller, Round, timed_out, poll_loop, start}
use jkq.Runtime.Polling.Ended.{poll_loop-dispatches, GoodState}
use jkq.Runtime.Signals.{
  one_handler_survives, survivors, Event, signal_arrives, handler_steps, begins, sigint, sigterm,
  run_events, started, as_number,
}
use jkq.Runtime.Stats.{new as new_stats}
use jkq.Transform.Tests.{small_engine}
use jkq.Transform.Worker.{Worker}

abbrev owned_record : ℕ → OwnedRecord
owned_record offset = record {
  partition = 3;
  offset = pos offset;
  timestamp = none;
  key = none;
  headers = [];
  payload = some (record { bytes = 0 ∷ (1 ∷ (2 ∷ (3 ∷ (4 ∷ (0 ∷ []))))); capacity = 6 });
  retained_bytes = 6;
}

abbrev round : Round
round = record {
  arrivals = [];
  signalled = false;
  others = λ shared. shared;
  connected = true;
  wait = timed_out;
}

-- The first record's release, then the second's.
abbrev rounds : List Round
rounds =
    round
    ∷ (round
        ∷ (round
            ∷ (record round {
              arrivals =
                  (record { partition = 0; retained_bytes = 3; payload = none }
                    ∷ (record { partition = 0; retained_bytes = 3; payload = none } ∷ []))
                  ∷ [];
            }
                ∷ [])))

abbrev limits : RuntimeLimits
limits = record {
  max_inflight_records = 4;
  max_inflight_bytes = 100;
  max_inflight_per_partition = 2;
}

-- Two records of partition 0, and then nothing more.
abbrev script : Scripted grow 48 pauses
script = (assigned, some (ok (message 0 2)) ∷ (some (ok (message 0 3)) ∷ []))

abbrev poll_start : Poller (kafka_source grow 48 pauses)
poll_start =
    start (kafka_source grow 48 pauses) script (0 ∷ (1 ∷ [])) 2 (shared_budget limits none) 0
      evaluate (new_stats true)

poll_loop-dispatches_example :
    (r : Poller (kafka_source grow 48 pauses) × Bool) × ((poll_loop
          (kafka_source grow 48 pauses)
          none
          rounds
          poll_start
        ≡ some r)
      × GoodState (kafka_source grow 48 pauses) r)
poll_loop-dispatches_example =
    poll_loop-dispatches (kafka_source grow 48 pauses) none rounds (0 ∷ (1 ∷ [])) script
      (shared_budget limits none) 0 2 evaluate (new_stats true)

abbrev work_item : ℕ → WorkItem
work_item sequence = record { sequence = sequence; owned = owned_record (sequence + 7) }

abbrev work : List (RecordBatch × Bool)
work = (record { consumer = 0; items = work_item 0 ∷ (work_item 1 ∷ []) }, true) ∷ []

abbrev never : Worker small_engine → Option Buffer → Option (Buffer × Option Buffer)
never w payload = none

worker_loop-answers_example :
    map answer_identity
      (worker_loop small_engine never config.errors work
        (new_worker small_engine read_to_string never config)
        (new_stats true)).1
    ≡ (0, ((((3, 0), pos 7), 6) ∷ ((((3, 1), pos 8), 6) ∷ []))) ∷ []
worker_loop-answers_example =
    worker_loop-answers small_engine never config.errors work
      (new_worker small_engine read_to_string never config) (new_stats true)

resolved_evaluation-IsAccepted_example :
    All
      (λ b. All (IsAccepted (embeds_json config.output)) b.items)
      (worker_loop small_engine never config.errors work
        (new_worker small_engine read_to_string never config)
        (new_stats true)).1
resolved_evaluation-IsAccepted_example =
    resolved_evaluation-IsAccepted small_engine read_to_string never raw config work
      (new_stats true) raw-resolves

push-limits_example :
    IsPartial (push true (new_buffer 0 (write false)) (owned_record 7) 0 (new_stats true)).buffer
    × All IsFitting
        (push true (new_buffer 0 (write false)) (owned_record 7) 0 (new_stats true)).batches
unfolding new_buffer
push-limits_example =
    push-limits true (new_buffer 0 (write false)) (owned_record 7) 0 (new_stats true) refl

-- Processing begins, and two signals overlap.
abbrev overlapping : List Event
overlapping =
    begins
    ∷ (signal_arrives sigint
        ∷ (signal_arrives sigterm
            ∷ (handler_steps 0 ∷ (handler_steps 1 ∷ (handler_steps 1 ∷ (handler_steps 0 ∷ []))))))

one_handler_survives_example :
    survivors (run_events overlapping started).handlers
    ≤ as_number (run_events overlapping started).processing
one_handler_survives_example = one_handler_survives overlapping
