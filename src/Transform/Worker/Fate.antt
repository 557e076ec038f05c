-- ===== src/Transform/Worker/Fate.antt =====
-- What becomes of the source payload that the worker of src/transform/jsonata.rs is lent, and
-- which payloads its actions carry.
use jkq.Prelude.{
  is_some, length, Result, ok, err, Result-cases, ℕ, zero, suc, ◌+◌, ◌≡◌, ◌⊎◌, inl, inr, true,
  false, Option, none, some, arith,
}
use jkq.Records.{
  Buffer, Action, drop_record, pass_through, project, PassPayload, exact, tombstone_predicate,
  drop_predicate, Category, TransformError,
}
use jkq.Transform.Engine.{Engine}
use jkq.Transform.Policies.{InvalidJsonPolicy, ErrorPolicies}
use jkq.Transform.Worker.{
  Worker, Report, execute_output, execute_report, written_action, invalid_json_result, bad_json,
  ExecutionIssue, deliver_output, input_plan, evaluation_result, evaluate_predicates,
  tombstone_action, TransformPlan, scan, follow_verdict,
}

module _ (engine : Engine) where
  open engine use {Input, prepare}

  abbrev pub source_length : Option Buffer → Option ℕ
  source_length none = none
  source_length (some payload) = some (length payload.bytes)

  -- When the source may leave as it is.
  abbrev pub PassesExactly : Worker engine → ErrorPolicies → Option ExecutionIssue → Type 0
  PassesExactly w policies issue =
      (w.plan.parses_json ≡ false)
      ⊎ (((w.embeds_json ≡ false) × (w.plan.projection ≡ none))
          ⊎ ((issue ≡ some bad_json) × (policies.invalid_json ≡ InvalidJsonPolicy.pass)))

  abbrev pub Settles :
      Worker engine
      → Option Buffer
      → ErrorPolicies
      → Option Buffer
      → Action
      → Option ExecutionIssue
      → Type 0
  Settles w source policies rest drop_record issue = rest ≡ source
  Settles w source policies rest Action.tombstone issue = rest ≡ source
  Settles w source policies rest (pass_through (exact b)) issue =
      (rest ≡ none) × ((source ≡ some b) × PassesExactly w policies issue)
  Settles w source policies rest (pass_through (PassPayload.json b n)) issue =
      (rest ≡ none)
      × ((source_length source ≡ some n) × ((w.embeds_json ≡ true) × (w.plan.projection ≡ none)))
  Settles w source policies rest (project b) issue =
      (rest ≡ none) × ((is_some source ≡ true) × (is_some w.plan.projection ≡ true))

  abbrev pub IsSettled : Worker engine → Option Buffer → ErrorPolicies → Report → Type 0
  IsSettled w source policies (rest, err e) = rest ≡ source
  IsSettled w source policies (rest, ok execution) =
      Settles w source policies rest execution.action execution.issue

  execute_output-IsSettled :
      (w : Worker engine) (payload : Buffer) (input : Input) (policies : ErrorPolicies)
      → IsSettled w
          (some payload)
          policies
          (execute_output engine w payload input policies.evaluation).1
  unfolding execute_output deliver_output written_action evaluation_result
  execute_output-IsSettled w payload input policies = ground arith

  -- No predicate passes the source on.
  abbrev IsTerminal : Option Action → Type 0
  IsTerminal none = Unit
  IsTerminal (some drop_record) = Unit
  IsTerminal (some Action.tombstone) = Unit
  IsTerminal (some (pass_through p)) = ⊥
  IsTerminal (some (project b)) = ⊥

  abbrev AllTerminal : Result TransformError (Option Action) → Type 0
  AllTerminal (ok o) = IsTerminal o
  AllTerminal (err e) = Unit

  scan-AllTerminal :
      (input : Input) (base : ℕ) (c : Category) (a : Action) (count index : ℕ)
      → IsTerminal (some a)
      → AllTerminal (scan engine input base c a count index)
  unfolding scan
  scan-AllTerminal input base c a zero index h = tt
  scan-AllTerminal input base c a (suc count) index h =
      let rest = scan-AllTerminal input base c a count (index + 1) h in ground arith

  evaluate_predicates-AllTerminal :
      (plan : TransformPlan engine) (input : Input)
      → AllTerminal (evaluate_predicates engine plan input)
  unfolding evaluate_predicates
  evaluate_predicates-AllTerminal plan input =
      let drops = scan-AllTerminal input 0 drop_predicate drop_record (length plan.drops) 0 tt in
      let tombstones =
        scan-AllTerminal input (length plan.drops) tombstone_predicate
          (tombstone_action engine plan) (length plan.tombstones) 0 (ground arith) in
      ground arith

  follow_verdict-IsSettled :
      (w : Worker engine) (payload : Buffer) (input : Input) (policies : ErrorPolicies)
      (v : Result TransformError (Option Action))
      → AllTerminal v
      → IsSettled w
          (some payload)
          policies
          (follow_verdict engine w payload input policies.evaluation v).1
  unfolding follow_verdict evaluation_result
  follow_verdict-IsSettled w payload input policies (ok none) h =
      execute_output-IsSettled w payload input policies
  follow_verdict-IsSettled w payload input policies (ok (some a)) h = ground arith
  follow_verdict-IsSettled w payload input policies (err e) h = ground arith

  -- For any engine, execute_report takes the source exactly when its action carries a payload: an
  -- error, a drop or a tombstone leaves it in place. An exact payload is the source, and then the
  -- plan parses no JSON, or nothing is projected or embedded, or the policy passes invalid JSON
  -- and the issue says so; a JSON payload needs an embedding worker without projection and carries
  -- the source's length; a projected one needs a source and a projection.
  pub execute_report-IsSettled :
      (w : Worker engine) (source : Option Buffer) (policies : ErrorPolicies)
      → IsSettled w source policies (execute_report engine w source policies).1
  unfolding execute_report evaluation_result invalid_json_result
  execute_report-IsSettled w none policies = ground arith
  execute_report-IsSettled w (some payload) policies =
      elim (Result-cases (prepare (input_plan engine w.plan) payload.bytes)) [
        | inl (e, f) ↦ rw f ground arith
        | inr (input, f) ↦
            let verdicts =
              follow_verdict-IsSettled w payload input policies
                (evaluate_predicates engine w.plan input)
                (evaluate_predicates-AllTerminal w.plan input) in
            rw f ground arith
      ]
