-- ===== src/Transform/Worker/Capacity.antt =====
-- The worker of src/transform/jsonata.rs keeps no output buffer above its limit.
use jkq.Prelude.{
  Bool-cases, Result-cases, ℕ, ◌≤◌, ◌≡◌, refl, inl, inr, Bool, Option, none, some, List, [], ◌∷◌,
  arith,
}
use jkq.Records.{Buffer}
use jkq.Transform.Engine.{Engine}
use jkq.Transform.Policies.{ErrorPolicies, EvaluationPolicy}
use jkq.Transform.Worker.{
  Worker, execute_report, new, execute_output, next_output, deliver_output, failed_output,
  input_plan, TransformPlan,
}

module _ (engine : Engine) where
  open engine use {Input, prepare}

  abbrev pub IsBounded : ℕ → Worker engine → Type 0
  IsBounded limit w = (w.max_recycled_capacity ≡ limit) × (w.output.capacity ≤ limit)

  execute_output-IsBounded :
      (limit : ℕ) (w : Worker engine) (payload : Buffer) (input : Input) (policy : EvaluationPolicy)
      → IsBounded limit w
      → IsBounded limit (execute_output engine w payload input policy).0
  unfolding execute_output deliver_output failed_output next_output
  execute_output-IsBounded limit w payload input policy (m, h) = ground arith

  pub execute_report-IsBounded :
      (limit : ℕ) (w : Worker engine) (source : Option Buffer) (policies : ErrorPolicies)
      → IsBounded limit w
      → IsBounded limit (execute_report engine w source policies).0
  unfolding execute_report
  execute_report-IsBounded limit w none policies h = h
  execute_report-IsBounded limit w (some payload) policies (m, h) =
      elim (Bool-cases w.plan.parses_json) [
        | inl e ↦ rw e elim (Result-cases (prepare (input_plan engine w.plan) payload.bytes)) [
          | inl (e, f) ↦ rw f (m, h)
          | inr (input, f) ↦
              let output =
                execute_output-IsBounded limit w payload input policies.evaluation (m, h) in
              rw f ground arith
        ]
        | inr e ↦ rw e (m, h)
      ]

  -- The calls of a worker over its life, each with its source and policies.
  unfoldable pub run_worker : List (Option Buffer × ErrorPolicies) → Worker engine → Worker engine
  run_worker [] w = w
  run_worker ((source, policies) ∷ calls) w =
      run_worker calls (execute_report engine w source policies).0

  run_worker-IsBounded :
      (limit : ℕ) (calls : List (Option Buffer × ErrorPolicies)) (w : Worker engine)
      → IsBounded limit w
      → IsBounded limit (run_worker calls w)
  unfolding run_worker
  run_worker-IsBounded limit [] w h = h
  run_worker-IsBounded limit ((source, policies) ∷ calls) w h =
      run_worker-IsBounded limit calls (execute_report engine w source policies).0
        (execute_report-IsBounded limit w source policies h)

  -- However an engine grows the output, after any calls of execute_report on a new worker the
  -- output that it keeps has at most the capacity limit that the worker was made with.
  pub run_worker-new-IsBounded :
      (plan : TransformPlan engine) (embeds_json : Bool) (limit : ℕ)
      (calls : List (Option Buffer × ErrorPolicies))
      → (run_worker calls (new engine plan embeds_json limit)).output.capacity ≤ limit
  unfolding new
  run_worker-new-IsBounded plan embeds_json limit calls =
      (run_worker-IsBounded limit calls (new engine plan embeds_json limit) (refl, ground arith)).1
