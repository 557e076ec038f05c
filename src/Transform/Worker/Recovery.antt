-- ===== src/Transform/Worker/Recovery.antt =====
-- What the policies do to the errors of src/transform/jsonata.rs.
use jkq.Prelude.{
  length, Result, ok, err, Result-cases, ℕ, zero, suc, ◌+◌, ◌≡◌, refl, inl, inr, Option, none, some,
  arith,
}
use jkq.Transform.Worker.Match.{}
use jkq.Records.{
  Category, Buffer, TransformError, Action, drop_predicate, drop_record, tombstone_predicate,
  pass_through, exact,
}
use jkq.Transform.Engine.{Engine}
use jkq.Transform.Policies.{InvalidJsonPolicy, EvaluationPolicy, ErrorPolicies}
use jkq.Transform.Worker.{
  Worker, Report, execute_report, evaluate_predicates, evaluation_result, TransformPlan,
  invalid_json_result, execute_output, scan, deliver_output, predicate, input_plan,
  tombstone_action, bad_evaluation, bad_json,
}

abbrev pub strict : ErrorPolicies
strict = record { invalid_json = InvalidJsonPolicy.fail; evaluation = EvaluationPolicy.fail }

-- What the policies make of the report under policies that always fail: an error is kept, or
-- becomes a drop or a tombstone with its issue; invalid JSON may also pass the source on.
unfoldable pub recovered : ErrorPolicies → Report → Report
recovered policies (source, ok execution) = (source, ok execution)
recovered policies (none, err e) = (none, err e)
recovered policies (some payload, err (TransformError.invalid_json message)) =
    elim policies.invalid_json [
      | InvalidJsonPolicy.fail ↦ (some payload, err (TransformError.invalid_json message))
      | InvalidJsonPolicy.drop ↦
          (some payload, ok (record { action = drop_record; issue = some bad_json }))
      | InvalidJsonPolicy.tombstone ↦
          (some payload, ok (record { action = Action.tombstone; issue = some bad_json }))
      | InvalidJsonPolicy.pass ↦
          (none, ok (record { action = pass_through (exact payload); issue = some bad_json }))
    ]
recovered policies (some payload, err (TransformError.evaluation category index message)) =
    elim policies.evaluation [
      | EvaluationPolicy.fail ↦
          (some payload, err (TransformError.evaluation category index message))
      | EvaluationPolicy.drop ↦
          (some payload, ok (record { action = drop_record; issue = some bad_evaluation }))
      | EvaluationPolicy.tombstone ↦
          (some payload, ok (record { action = Action.tombstone; issue = some bad_evaluation }))
    ]

module _ (engine : Engine) where
  open engine use {Input, prepare}

  abbrev FailsByEvaluation : {A : Type 0} → Result TransformError A → Type 0
  FailsByEvaluation (ok a) = Unit
  FailsByEvaluation (err (TransformError.invalid_json m)) = ⊥
  FailsByEvaluation (err (TransformError.evaluation c i m)) = Unit

  predicate-FailsByEvaluation :
      (input : Input) (n : ℕ) (c : Category) (index : ℕ)
      → FailsByEvaluation (predicate engine input n c index)
  unfolding predicate
  predicate-FailsByEvaluation input n c index = ground arith

  scan-FailsByEvaluation :
      (input : Input) (base : ℕ) (c : Category) (a : Action) (count index : ℕ)
      → FailsByEvaluation (scan engine input base c a count index)
  unfolding scan
  scan-FailsByEvaluation input base c a zero index = tt
  scan-FailsByEvaluation input base c a (suc count) index =
      let verdict = predicate-FailsByEvaluation input (base + index) c index in
      let rest = scan-FailsByEvaluation input base c a count (index + 1) in ground arith

  evaluate_predicates-FailsByEvaluation :
      (plan : TransformPlan engine) (input : Input)
      → FailsByEvaluation (evaluate_predicates engine plan input)
  unfolding evaluate_predicates
  evaluate_predicates-FailsByEvaluation plan input =
      let drops = scan-FailsByEvaluation input 0 drop_predicate drop_record (length plan.drops) 0 in
      let tombstones =
        scan-FailsByEvaluation input (length plan.drops) tombstone_predicate
          (tombstone_action engine plan) (length plan.tombstones) 0 in
      ground arith

  execute_output-recovered :
      (w : Worker engine) (payload : Buffer) (input : Input) (policies : ErrorPolicies)
      → execute_output engine w payload input policies.evaluation ≡ (
          let (w', report) = execute_output engine w payload input EvaluationPolicy.fail in
          (w', recovered policies report))
  unfolding execute_output deliver_output recovered evaluation_result
  execute_output-recovered w payload input policies = ground arith

  -- For any engine, execute_report under given policies leaves the worker that it leaves under
  -- policies that always fail, and its report is that one's with an error replaced as the policy
  -- for its kind says: fail keeps it, drop and tombstone give that action with the issue of that
  -- kind and leave the source, and pass, for invalid JSON, passes the source on exactly with the
  -- issue.
  pub execute_report-recovered :
      (w : Worker engine) (source : Option Buffer) (policies : ErrorPolicies)
      → execute_report engine w source policies ≡ (
          let (w', report) = execute_report engine w source strict in
          (w', recovered policies report))
  unfolding execute_report recovered evaluation_result invalid_json_result
  execute_report-recovered w none policies = refl
  execute_report-recovered w (some payload) policies =
      elim (Result-cases (prepare (input_plan engine w.plan) payload.bytes)) [
        | inl (e, f) ↦ rw f ground arith
        | inr (input, f) ↦
            let verdicts = evaluate_predicates-FailsByEvaluation w.plan input in
            let output = execute_output-recovered w payload input policies in rw f ground arith
      ]
