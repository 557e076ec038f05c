-- ===== src/Runtime/Evaluation/Matching.antt =====
-- Completions answer the records of a batch one by one (src/runtime.rs).
use jkq.Prelude.{
  Option-cases, ℕ, ◌≡◌, refl, inl, inr, Bool, true, false, Option, List, [], ◌∷◌, map,
}
use jkq.Int.{ℤ}
use jkq.Records.{Buffer, Completion}
use jkq.Runtime.Batches.{WorkItem, RecordBatch}
use jkq.Runtime.Stats.{Stats}
use jkq.Runtime.Writing.{CompletionBatch}
use jkq.Runtime.Evaluation.{evaluate_item, evaluate_items, worker_loop, completion_of}
use jkq.Transform.Engine.{Engine}
use jkq.Transform.Policies.{ErrorPolicies}
use jkq.Transform.Worker.{Worker}

-- What identifies a record: partition, sequence number, offset and the bytes that its budget holds.
abbrev pub Identity : Type 0
Identity = ((ℕ × ℕ) × ℤ) × ℕ

abbrev pub item_identity : WorkItem → Identity
item_identity item =
    (((item.owned.partition, item.sequence), item.owned.offset), item.owned.retained_bytes)

abbrev pub completion_identity : Completion → Identity
completion_identity c = (((c.partition, c.sequence), c.source.offset), c.retained_bytes)

abbrev pub batch_identity : RecordBatch → ℕ × List Identity
batch_identity b = (b.consumer, map item_identity b.items)

abbrev pub answer_identity : CompletionBatch → ℕ × List Identity
answer_identity b = (b.consumer, map completion_identity b.items)

-- The batches before the writer stops receiving.
abbrev pub answered : List (RecordBatch × Bool) → List RecordBatch
answered [] = []
answered ((batch, true) ∷ batches) = batch ∷ answered batches
answered ((batch, false) ∷ batches) = []

module _ (engine : Engine)
    (panics : Worker engine → Option Buffer → Option (Buffer × Option Buffer))
    (policies : ErrorPolicies) where
  evaluate_item-identity :
      (consumer : ℕ) (item : WorkItem) (w : Worker engine) (stats : Stats)
      → completion_identity (evaluate_item engine panics policies consumer item w stats).1
        ≡ item_identity item
  unfolding evaluate_item completion_of
  evaluate_item-identity consumer item w stats = elim (Option-cases (panics w item.owned.payload)) [
    | inl f ↦ rw (f, evaluate_item) refl
    | inr (left_over, f) ↦ rw (f, evaluate_item) refl
  ]

  evaluate_items-identity :
      (consumer : ℕ) (items : List WorkItem) (w : Worker engine) (stats : Stats)
      → map completion_identity (evaluate_items engine panics policies consumer items w stats).1
        ≡ map item_identity items
  unfolding evaluate_items
  evaluate_items-identity consumer [] w stats = refl
  evaluate_items-identity consumer (item ∷ items) w stats =
      let first = evaluate_item-identity consumer item w stats in
      let after = (evaluate_item engine panics policies consumer item w stats).0 in
      let others = evaluate_items-identity consumer items after.0 after.1 in rw (first, others) refl

  -- For any engine and any panics, worker_loop sends, for each batch up to the first that the
  -- writer does not receive, one batch of the same consumer whose completions have, in order, the
  -- partition, sequence number, offset and retained bytes of the batch's records.
  pub worker_loop-answers :
      (batches : List (RecordBatch × Bool)) (w : Worker engine) (stats : Stats)
      → map answer_identity (worker_loop engine panics policies batches w stats).1
        ≡ map batch_identity (answered batches)
  unfolding worker_loop
  worker_loop-answers [] w stats = refl
  worker_loop-answers ((batch, true) ∷ batches) w stats =
      let first = evaluate_items-identity batch.consumer batch.items w stats in
      let after = (evaluate_items engine panics policies batch.consumer batch.items w stats).0 in
      let others = worker_loop-answers batches after.0 after.1 in rw (first, others) refl
  worker_loop-answers ((batch, false) ∷ batches) w stats = refl
