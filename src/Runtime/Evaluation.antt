-- ===== src/Runtime/Evaluation.antt =====
-- `worker_loop` of src/runtime.rs, over any engine. `panics` says when a call of the transform panics, with what
-- is then left in the worker's output buffer and of the payload.
pub mod Matching
pub mod Accepted
use jkq.Prelude.{
  if◌then◌else◌, is_some, length, Result, ok, err, ℕ, Bool, not, Option, none, some, List, [], ◌∷◌,
  map_some,
}
use jkq.Records.{
  Buffer, Completion, CompletionOutcome, fatal, OwnedRecord, TransformError, worker_panicked,
  transform_failed,
}
use jkq.Runtime.Batches.{WorkItem, RecordBatch}
use jkq.Runtime.Stats.{Stats, count_transformed, count_failed}
use jkq.Runtime.Writing.{CompletionBatch}
use jkq.Transform.Engine.{Engine}
use jkq.Transform.Policies.{ErrorPolicies}
use jkq.Transform.Worker.{Worker, execute_report, Execution}

module _ (engine : Engine)
    (panics : Worker engine → Option Buffer → Option (Buffer × Option Buffer))
    (policies : ErrorPolicies) where
  unfoldable pub outcome_of : OwnedRecord → Result TransformError Execution → CompletionOutcome
  outcome_of owned (ok execution) = CompletionOutcome.action execution.action
  outcome_of owned (err e) = fatal (transform_failed owned.partition owned.offset e)

  unfoldable pub count_result : Bool → Result TransformError Execution → Stats → Stats
  unfolding count_transformed count_failed
  count_result source_tombstone (ok execution) stats =
      count_transformed stats execution.action execution.issue source_tombstone
  count_result source_tombstone (err e) stats = count_failed stats e

  -- With what is left of the payload.
  unfoldable pub completion_of : ℕ → WorkItem → Option Buffer → CompletionOutcome → Completion
  completion_of consumer item spare outcome =
      let owned = item.owned in
      record {
        consumer = consumer;
        partition = owned.partition;
        sequence = item.sequence;
        retained_bytes = owned.retained_bytes;
        spare_payload = spare;
        source = record {
          partition = owned.partition;
          offset = owned.offset;
          timestamp = owned.timestamp;
          key = owned.key;
          headers = owned.headers;
          payload_length = map_some (λ payload. length payload.bytes) owned.payload;
        };
        outcome = outcome;
      }

  unfoldable pub evaluate_item :
      ℕ → WorkItem → Worker engine → Stats → (Worker engine × Stats) × Completion
  unfolding execute_report outcome_of count_result completion_of
  evaluate_item consumer item w stats = elim (panics w item.owned.payload) [
    | some (output, rest) ↦ (
      (record w { output = output }, stats),
      completion_of consumer item rest
          (fatal (worker_panicked item.owned.partition item.owned.offset)),
    )
    | none ↦
        let (w', (rest, result)) = execute_report engine w item.owned.payload policies in
        (
          (w', count_result (not (is_some item.owned.payload)) result stats),
          completion_of consumer item rest (outcome_of item.owned result),
        )
  ]

  unfoldable pub evaluate_items :
      ℕ → List WorkItem → Worker engine → Stats → (Worker engine × Stats) × List Completion
  unfolding evaluate_item
  evaluate_items consumer [] w stats = ((w, stats), [])
  evaluate_items consumer (item ∷ items) w stats =
      let ((w', stats'), completion) = evaluate_item consumer item w stats in
      let (after, completions) = evaluate_items consumer items w' stats' in
      (after, completion ∷ completions)

  -- The batches that arrive, each with whether the writer still receives. What is sent is the result.
  unfoldable pub worker_loop :
      List (RecordBatch × Bool)
      → Worker engine
      → Stats
      → (Worker engine × Stats) × List CompletionBatch
  unfolding evaluate_items
  worker_loop [] w stats = ((w, stats), [])
  worker_loop ((batch, connected) ∷ batches) w stats =
      let ((w', stats'), completions) = evaluate_items batch.consumer batch.items w stats in
      let (after, sent) = worker_loop batches w' stats' in
      if connected
      then (after, record { consumer = batch.consumer; items = completions } ∷ sent)
      else ((w', stats'), [])
