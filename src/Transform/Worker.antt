-- ===== src/Transform/Worker.antt =====
-- `Worker` of src/transform/jsonata.rs over any engine. `source` is the payload that the caller
-- lends: what a call takes out of it is gone from the source that it returns.
pub mod Fate
pub mod Match
pub mod Recovery
pub mod Capacity
use jkq.Prelude.{
  ltb, leb, if◌then◌else◌, Bytes, length, drop, Result, ok, err, ◌>>=◌, ◌>>◌, ok_or, map_err, ℕ,
  zero, suc, ◌+◌, Bool, true, false, Option, none, some, List, [], ◌∷◌, ◌++◌,
}
use jkq.Records.{
  Buffer, empty_buffer, clear, Action, drop_record, tombstone, pass_through, project, exact, json,
  Category, drop_predicate, tombstone_predicate, TransformError, invalid_json, evaluation,
  envelope_payload, PassPayload, Message, no_results, not_a_boolean, engine_message,
}
use jkq.Records
use jkq.Transform.Engine.{Engine}
use jkq.Transform.Policies.{InvalidJsonPolicy, EvaluationPolicy, ErrorPolicies}

pub data ExecutionIssue : Type 0 where
  bad_json bad_evaluation : ExecutionIssue

pub record Execution : Type 0 where
  pub action : Action
  pub issue : Option ExecutionIssue

-- `format!("{category} #{}", index + 1)`: the number is one more than the index.
abbrev pub evaluation_error : Category → Option ℕ → Message → TransformError
evaluation_error category none message = evaluation category none message
evaluation_error category (some index) message = evaluation category (some (index + 1)) message

unfoldable pub evaluation_result :
    Result TransformError Action → EvaluationPolicy → Result TransformError Execution
evaluation_result (ok action) policy = ok (record { action = action; issue = none })
evaluation_result (err e) EvaluationPolicy.fail = err e
evaluation_result (err e) EvaluationPolicy.drop =
    ok (record { action = drop_record; issue = some bad_evaluation })
evaluation_result (err e) EvaluationPolicy.tombstone =
    ok (record { action = Action.tombstone; issue = some bad_evaluation })

-- What is left of the source, and the result.
abbrev pub Report : Type 0
Report = Option Buffer × Result TransformError Execution

unfoldable pub invalid_json_result : InvalidJsonPolicy → Buffer → Bytes → Report
invalid_json_result InvalidJsonPolicy.fail payload message =
    (some payload, err (TransformError.invalid_json message))
invalid_json_result InvalidJsonPolicy.drop payload message =
    (some payload, ok (record { action = drop_record; issue = some bad_json }))
invalid_json_result InvalidJsonPolicy.tombstone payload message =
    (some payload, ok (record { action = Action.tombstone; issue = some bad_json }))
invalid_json_result InvalidJsonPolicy.pass payload message =
    (none, ok (record { action = pass_through (exact payload); issue = some bad_json }))

abbrev pub option_list : {A : Type 0} → Option A → List A
option_list none = []
option_list (some a) = a ∷ []

module _ (engine : Engine) where
  open engine use {Expression, Input, Value, prepare, evaluate, as_bool, write_json, write_compact}

  pub record TransformPlan : Type 0 where
    pub drops : List Expression
    pub tombstones : List Expression
    pub drop_tombstones : Bool
    pub projection : Option Expression
    pub parses_json : Bool

  abbrev pub input_plan : TransformPlan → List Expression
  input_plan plan = plan.drops ++ (plan.tombstones ++ option_list plan.projection)

  pub record Worker : Type 0 where
    pub plan : TransformPlan
    pub embeds_json : Bool
    pub output : Buffer
    pub max_recycled_capacity : ℕ

  unfoldable pub new : TransformPlan → Bool → ℕ → Worker
  new plan embeds_json max_recycled_capacity = record {
    plan = plan;
    embeds_json = embeds_json;
    output = empty_buffer;
    max_recycled_capacity = max_recycled_capacity;
  }

  abbrev pub tombstone_action : TransformPlan → Action
  tombstone_action plan = if plan.drop_tombstones then drop_record else Action.tombstone

  as_verdict : Category → ℕ → Option Value → Result TransformError Bool
  as_verdict category index none = err (evaluation_error category (some index) not_a_boolean)
  as_verdict category index (some v) =
      ok_or (as_bool v) (evaluation_error category (some index) not_a_boolean)

  unfoldable pub predicate : Input → ℕ → Category → ℕ → Result TransformError Bool
  unfolding as_verdict
  predicate input expression_index category index = do
    value ←
        map_err (λ m. evaluation_error category (some index) (engine_message m))
          (evaluate input expression_index)
    as_verdict category index value

  -- One loop of `evaluate_predicates`: `left` predicates from `index` on.
  unfoldable pub scan :
      Input → ℕ → Category → Action → ℕ → ℕ → Result TransformError (Option Action)
  unfolding predicate
  scan input base category action zero index = ok none
  scan input base category action (suc left) index =
      elim (predicate input (base + index) category index) [
        | err e ↦ err e
        | ok true ↦ ok (some action)
        | ok false ↦ scan input base category action left (index + 1)
      ]

  unfoldable pub evaluate_predicates : TransformPlan → Input → Result TransformError (Option Action)
  unfolding scan
  evaluate_predicates plan input = do
    dropped ← scan input 0 drop_predicate drop_record (length plan.drops) 0
    elim dropped [
      | some action ↦ ok (some action)
      | none ↦
          scan input (length plan.drops) tombstone_predicate (tombstone_action plan)
            (length plan.tombstones) 0
    ]

  need_results : Result Bytes Bool → Result Message (Unit {0})
  need_results (err m) = err (engine_message m)
  need_results (ok true) = ok tt
  need_results (ok false) = err no_results

  -- What is written to the cleared output, if anything: the output and the result.
  unfoldable pub render : Worker → Input → Option (Category × (Buffer × Result Message (Unit {0})))
  unfolding need_results
  render w input = elim w.plan.projection [
    | some e ↦
        let (written, result) =
          write_json input (length w.plan.drops + length w.plan.tombstones) (clear w.output) in
        some (Category.projection, (written, need_results result))
    | none ↦
        if w.embeds_json
        then (let (written, result) = write_compact input (clear w.output) in
            some (envelope_payload, (written, map_err engine_message result)))
        else none
  ]

  unfoldable pub failed_output : ℕ → Buffer → Buffer
  failed_output limit written = if ltb limit written.capacity then empty_buffer else clear written

  unfoldable pub next_output : ℕ → Buffer → Buffer
  next_output limit payload = if leb payload.capacity limit then clear payload else empty_buffer

  unfoldable pub written_action : Option Expression → Buffer → ℕ → Action
  written_action (some e) bytes source_length = project bytes
  written_action none bytes source_length = pass_through (PassPayload.json bytes source_length)

  unfoldable pub deliver_output :
      Worker
      → Buffer
      → Category
      → Buffer × Result Message (Unit {0})
      → EvaluationPolicy
      → Worker × Report
  unfolding failed_output next_output written_action evaluation_result
  deliver_output w payload category (written, err message) policy = (
    record w { output = failed_output w.max_recycled_capacity written },
    (some payload, evaluation_result (err (evaluation_error category none message)) policy),
  )
  deliver_output w payload category (written, ok done) policy = (
    record w { output = next_output w.max_recycled_capacity payload },
    (
      none,
      evaluation_result (ok (written_action w.plan.projection written (length payload.bytes)))
          policy,
    ),
  )

  -- From the predicates' `Ok(None)` on.
  unfoldable pub execute_output : Worker → Buffer → Input → EvaluationPolicy → Worker × Report
  unfolding deliver_output render
  execute_output w payload input policy = elim (render w input) [
    | none ↦ (
      record w { output = clear w.output },
      (none, evaluation_result (ok (pass_through (exact payload))) policy),
    )
    | some (category, written) ↦ deliver_output w payload category written policy
  ]

  -- The match on what `evaluate_predicates` gives, and what follows it.
  unfoldable pub follow_verdict :
      Worker
      → Buffer
      → Input
      → EvaluationPolicy
      → Result TransformError (Option Action)
      → Worker × Report
  unfolding execute_output
  follow_verdict w payload input policy (ok none) = execute_output w payload input policy
  follow_verdict w payload input policy (ok (some action)) =
      (w, (some payload, evaluation_result (ok action) policy))
  follow_verdict w payload input policy (err e) =
      (w, (some payload, evaluation_result (err e) policy))

  unfoldable pub execute_report : Worker → Option Buffer → ErrorPolicies → Worker × Report
  unfolding evaluate_predicates follow_verdict invalid_json_result
  execute_report w none policies =
      (w, (none, evaluation_result (ok (tombstone_action w.plan)) policies.evaluation))
  execute_report w (some payload) policies =
      if w.plan.parses_json
      then elim (prepare (input_plan w.plan) payload.bytes) [
        | err message ↦ (w, invalid_json_result policies.invalid_json payload message)
        | ok input ↦
            follow_verdict w payload input policies.evaluation (evaluate_predicates w.plan input)
      ]
      else (w, (none, evaluation_result (ok (pass_through (exact payload))) policies.evaluation))
