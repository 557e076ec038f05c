-- ===== src/Runtime/Evaluation/Accepted.antt =====
-- The writer of src/runtime.rs can write what the evaluators make under a configuration of src/cli.rs.
use jkq.Prelude.{
  Option-cases, Bytes, All, Result, ok, Result-cases, ℕ, min, ◌≡◌, refl, sym, ap, ◌∙◌, subst, ◌≢◌,
  inl, inr, Bool, true, false, Option, none, some, List, [], ◌∷◌, arith, is_ok,
}
use jkq.Cli.{RawCli}
use jkq.Cli.Config.{RuntimeConfig, embeds_json}
use jkq.Cli.Resolve.{resolve}
use jkq.Cli.Resolve.Consistent.{resolve-IsConsistent}
use jkq.Kafka.Buffers.{max_reusable_payload_capacity}
use jkq.Records.{Buffer, Completion, CompletionOutcome, fatal}
use jkq.Runtime.Action.{select_payload}
use jkq.Runtime.Action.Transformed.{execute_report-select_payload}
use jkq.Runtime.Batches.{WorkItem, RecordBatch}
use jkq.Runtime.Stats.{Stats}
use jkq.Runtime.Evaluation.{evaluate_item, evaluate_items, worker_loop, completion_of, outcome_of}
use jkq.Transform.Engine.{Engine}
use jkq.Transform.Policies.{ErrorPolicies, InvalidJsonPolicy}
use jkq.Transform.Worker.{
  new as fresh_worker, Worker, execute_report, follow_verdict, execute_output, deliver_output,
  TransformPlan,
}

abbrev is_accepted : Bool → CompletionOutcome → Bool
is_accepted embeds (CompletionOutcome.action a) = is_ok (select_payload embeds a)
is_accepted embeds (fatal message) = true

-- `write_action` takes none of its internal errors for the completion.
abbrev pub IsAccepted : Bool → Completion → Type 0
IsAccepted embeds c = is_accepted embeds c.outcome ≡ true

module _ (engine : Engine) where
  execute_report-same :
      (w : Worker engine) (source : Option Buffer) (policies : ErrorPolicies)
      → ((execute_report engine w source policies).0.plan ≡ w.plan)
        × ((execute_report engine w source policies).0.embeds_json ≡ w.embeds_json)
  unfolding execute_report follow_verdict execute_output deliver_output
  execute_report-same w none policies = (refl, refl)
  execute_report-same w (some payload) policies = ground arith

module _ (engine : Engine)
    (panics : Worker engine → Option Buffer → Option (Buffer × Option Buffer))
    (policies : ErrorPolicies) (plan : TransformPlan engine) (embeds : Bool)
    (parses : embeds ≡ true → plan.parses_json ≡ true)
    (policy : embeds ≡ true → policies.invalid_json ≢ InvalidJsonPolicy.pass) where
  -- A worker of the plan.
  abbrev Fits : Worker engine → Type 0
  Fits w = (w.plan ≡ plan) × (w.embeds_json ≡ embeds)

  evaluate_item-Accepted :
      (consumer : ℕ) (item : WorkItem) (w : Worker engine) (stats : Stats)
      → Fits w
      → Fits (evaluate_item engine panics policies consumer item w stats).0.0
        × IsAccepted embeds (evaluate_item engine panics policies consumer item w stats).1
  unfolding evaluate_item completion_of outcome_of
  evaluate_item-Accepted consumer item w stats (same, mode) =
      elim (Option-cases (panics w item.owned.payload)) [
        | inr (left_over, f) ↦ rw (f, evaluate_item) (((same, mode), refl))
        | inl f ↦
            let (keeps, keeps_mode) = execute_report-same engine w item.owned.payload policies in
            let fits : Fits (execute_report engine w item.owned.payload policies).0 =
              (keeps ∙ same, keeps_mode ∙ mode) in
            elim (Result-cases (execute_report engine w item.owned.payload policies).1.1) [
              | inl (e, g) ↦ rw (f, g, evaluate_item) ((fits, refl))
              | inr (execution, g) ↦
                  let selected =
                    execute_report-select_payload engine w item.owned.payload policies execution
                      (λ e. ap (λ p. p.parses_json) same ∙ parses (sym mode ∙ e))
                      (λ e. policy (sym mode ∙ e)) g in
                  rw (f, g, evaluate_item)
                    ((
                      fits,
                      subst (λ b. is_ok (select_payload b execution.action) ≡ true) mode selected,
                    ))
            ]
      ]

  evaluate_items-Accepted :
      (consumer : ℕ) (items : List WorkItem) (w : Worker engine) (stats : Stats)
      → Fits w
      → Fits (evaluate_items engine panics policies consumer items w stats).0.0
        × All (IsAccepted embeds) (evaluate_items engine panics policies consumer items w stats).1
  unfolding evaluate_items
  evaluate_items-Accepted consumer [] w stats fits = (fits, tt)
  evaluate_items-Accepted consumer (item ∷ items) w stats fits =
      let (fits', first) = evaluate_item-Accepted consumer item w stats fits in
      let after = (evaluate_item engine panics policies consumer item w stats).0 in
      let (fits'', others) = evaluate_items-Accepted consumer items after.0 after.1 fits' in
      (fits'', (first, others))

  worker_loop-Accepted :
      (batches : List (RecordBatch × Bool)) (w : Worker engine) (stats : Stats)
      → Fits w
      → All
          (λ b. All (IsAccepted embeds) b.items)
          (worker_loop engine panics policies batches w stats).1
  unfolding worker_loop
  worker_loop-Accepted [] w stats fits = tt
  worker_loop-Accepted ((batch, false) ∷ batches) w stats fits = tt
  worker_loop-Accepted ((batch, true) ∷ batches) w stats fits =
      let (fits', first) = evaluate_items-Accepted batch.consumer batch.items w stats fits in
      let after = (evaluate_items engine panics policies batch.consumer batch.items w stats).0 in
      (first, worker_loop-Accepted batches after.0 after.1 fits')

module _ (engine : Engine) (read_to_string : Bytes → Result Bytes Bytes)
    (panics : Worker engine → Option Buffer → Option (Buffer × Option Buffer)) where
  abbrev pub new_worker : RuntimeConfig engine → Worker engine
  new_worker config =
      fresh_worker engine config.transform (embeds_json config.output)
        (min config.limits.max_inflight_bytes max_reusable_payload_capacity)

  -- For any engine, any contents of files and any panics, if resolve returns a configuration, then
  -- whatever batches a worker of it evaluates, no completion that worker_loop sends makes
  -- write_action take one of its two internal errors for a payload of the wrong kind.
  pub resolved_evaluation-IsAccepted :
      (raw : RawCli) (config : RuntimeConfig engine) (batches : List (RecordBatch × Bool))
      (stats : Stats)
      → resolve engine read_to_string raw ≡ ok config
      → All
          (λ b. All (IsAccepted (embeds_json config.output)) b.items)
          (worker_loop engine panics config.errors batches (new_worker config) stats).1
  unfolding fresh_worker
  resolved_evaluation-IsAccepted raw config batches stats h =
      let consistent = resolve-IsConsistent engine read_to_string raw config h in
      let validates = consistent.validates in
      worker_loop-Accepted engine panics config.errors config.transform (embeds_json config.output)
        (λ e. ground arith) (λ e passed. absurd (ground arith)) batches (new_worker config) stats
        (refl, refl)
