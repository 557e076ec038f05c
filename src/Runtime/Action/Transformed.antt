-- ===== src/Runtime/Action/Transformed.antt =====
-- The actions of the transform's worker (src/transform/jsonata.rs) are what `write_action` of
-- src/runtime.rs can write.
use jkq.Prelude.{Bool-cases, ok, ◌≡◌, refl, subst, ◌≢◌, inl, inr, true, Option, arith, is_ok}
use jkq.Records.{Action, PassPayload, Buffer}
use jkq.Transform.Engine.{Engine}
use jkq.Transform.Policies.{InvalidJsonPolicy, ErrorPolicies}
use jkq.Transform.Worker.{Worker, Execution, execute_report, ExecutionIssue}
use jkq.Transform.Worker.Fate.{execute_report-IsSettled, IsSettled, Settles}
use jkq.Runtime.Action.{select_payload}

module _ (engine : Engine) where
  settled_selects :
      (w : Worker engine) (source : Option Buffer) (policies : ErrorPolicies) (rest : Option Buffer)
      (a : Action) (issue : Option ExecutionIssue)
      → (w.embeds_json ≡ true → w.plan.parses_json ≡ true)
      → (w.embeds_json ≡ true → policies.invalid_json ≢ InvalidJsonPolicy.pass)
      → Settles engine w source policies rest a issue
      → is_ok (select_payload w.embeds_json a) ≡ true
  unfolding select_payload
  settled_selects w source policies rest Action.drop_record issue parses policy s = refl
  settled_selects w source policies rest Action.tombstone issue parses policy s = refl
  settled_selects w source policies rest (Action.pass_through (PassPayload.exact b)) issue parses
        policy (r, (l, reason)) =
      elim (Bool-cases w.embeds_json) [
        | inl e ↦
            let parsed = parses e in
            elim reason [
              | inl unparsed ↦ absurd (ground arith)
              | inr other ↦ elim other [
                | inl plain ↦ absurd (ground arith)
                | inr passed ↦ absurd (policy e passed.1)
              ]
            ]
        | inr e ↦ rw e refl
      ]
  settled_selects w source policies rest (Action.pass_through (PassPayload.json b n)) issue parses
        policy (r, (l, (e, p))) =
      rw e refl
  settled_selects w source policies rest (Action.project b) issue parses policy s =
      elim (Bool-cases w.embeds_json) [ inl e ↦ rw e refl | inr e ↦ rw e refl ]

  -- For any engine, if a worker that embeds JSON has a plan that parses JSON and the policy for
  -- invalid JSON is not to pass it, then no action that execute_report gives makes write_action
  -- take one of its two internal errors for a payload of the wrong kind.
  pub execute_report-select_payload :
      (w : Worker engine) (source : Option Buffer) (policies : ErrorPolicies)
      (execution : Execution)
      → (w.embeds_json ≡ true → w.plan.parses_json ≡ true)
      → (w.embeds_json ≡ true → policies.invalid_json ≢ InvalidJsonPolicy.pass)
      → (execute_report engine w source policies).1.1 ≡ ok execution
      → is_ok (select_payload w.embeds_json execution.action) ≡ true
  execute_report-select_payload w source policies execution parses policy h =
      settled_selects w source policies (execute_report engine w source policies).1.0
        execution.action execution.issue parses policy
        (subst
          (λ r.
            IsSettled engine w source policies ((execute_report engine w source policies).1.0, r))
          h (execute_report-IsSettled engine w source policies))
