-- ===== src/Transform/Tests.antt =====
-- The transform at a small engine: an expression is a number, a payload is parsed unless it is
-- empty, and an expression's value is the payload's byte at that number.
use jkq.Prelude.{
  ◌==◌, if◌then◌else◌, Bytes, length, get_elem?, Result, ok, err, ℕ, ◌≤◌, max, ◌≡◌, refl, Bool,
  true, false, Option, none, some, List, [], ◌∷◌,
}
use jkq.Output.Format.{}
use jkq.Transform.Plan.{build_plan, build_plan-IsPlanOf, IsPlanOf, AreVariables}
use jkq.Transform.Worker.Capacity.{run_worker-new-IsBounded, run_worker}
use jkq.Transform.Worker.Fate.{execute_report-IsSettled, IsSettled}
use jkq.Transform.Worker.Match.{evaluate_predicates-Decides, action_at, Decides, verdict}
use jkq.Transform.Worker.Recovery.{strict, execute_report-recovered, recovered}
use jkq.Records.{Buffer, exact, project, pass_through, empty_buffer}
use jkq.Transform.Engine.{Engine}
use jkq.Transform.Policies.{InvalidJsonPolicy, EvaluationPolicy, ErrorPolicies}
use jkq.Transform.Worker.{Worker, new, execute_report, TransformPlan, evaluate_predicates, bad_json}

abbrev parse : List ℕ → Bytes → Result Bytes (List ℕ × Bytes)
parse expressions [] = err (0 ∷ [])
parse expressions (b ∷ bs) = ok (expressions, b ∷ bs)

abbrev value_at : List ℕ × Bytes → ℕ → Result Bytes (Option ℕ)
value_at (expressions, bs) i = elim (get_elem? expressions i) [
  | none ↦ err (1 ∷ [])
  | some n ↦ ok (get_elem? bs n)
]

abbrev truth : ℕ → Option Bool
truth n = if n == 0 then some false else if n == 1 then some true else none

abbrev written : List ℕ × Bytes → Buffer → Buffer
written (expressions, bs) b = record { bytes = bs; capacity = max b.capacity (length bs) }

abbrev write_value : List ℕ × Bytes → ℕ → Buffer → Buffer × Result Bytes Bool
write_value input i b = elim (value_at input i) [
  | err m ↦ (b, err m)
  | ok none ↦ (b, ok false)
  | ok (some n) ↦ (record { bytes = (n ∷ []); capacity = max b.capacity 1 }, ok true)
]

abbrev pub small_engine : Engine
small_engine = record {
  Expression = ℕ;
  Input = List ℕ × Bytes;
  Value = ℕ;
  parse_variables = λ bs. elim bs [ [] ↦ err (0 ∷ []) | b ∷ rest ↦ ok b ];
  is_object = λ n. n == 2;
  compile = λ vars bs. elim bs [ [] ↦ err (0 ∷ []) | b ∷ rest ↦ ok b ];
  prepare = parse;
  evaluate = value_at;
  as_bool = truth;
  write_json = write_value;
  write_compact = λ input b. (written input b, ok tt);
}

abbrev small_plan : TransformPlan small_engine
small_plan = record {
  drops = (0 ∷ []);
  tombstones = (1 ∷ []);
  drop_tombstones = false;
  projection = some 2;
  parses_json = true;
}

abbrev policies : ErrorPolicies
policies = record { invalid_json = InvalidJsonPolicy.pass; evaluation = EvaluationPolicy.drop }

abbrev payload : Bytes → Buffer
payload bs = record { bytes = bs; capacity = length bs }

abbrev worker : Worker small_engine
worker = record {
  plan = small_plan;
  embeds_json = true;
  output = empty_buffer;
  max_recycled_capacity = 8;
}

abbrev payload_0_0_7 : Option Buffer
payload_0_0_7 = some (payload (0 ∷ (0 ∷ (7 ∷ []))))

projected : (execute_report small_engine worker payload_0_0_7 policies).1 ≡ (
  none,
  ok (record { action = project (record { bytes = 7 ∷ []; capacity = 1 }); issue = none }),
)
unfolding execute_report
projected = refl

unreadable_passes :
    (execute_report small_engine worker (some (payload [])) policies).1
    ≡ (none, ok (record { action = pass_through (exact (payload [])); issue = some bad_json }))
unfolding execute_report
unreadable_passes = refl

execute_report-IsSettled_example :
    IsSettled small_engine worker payload_0_0_7 policies
      (execute_report small_engine worker payload_0_0_7 policies).1
execute_report-IsSettled_example =
    execute_report-IsSettled small_engine worker payload_0_0_7 policies

evaluate_predicates-Decides_example :
    Decides small_engine
      (verdict small_engine small_plan ((0 ∷ (1 ∷ [])), (0 ∷ (1 ∷ []))))
      2
      (action_at small_engine small_plan)
      (evaluate_predicates small_engine small_plan ((0 ∷ (1 ∷ [])), (0 ∷ (1 ∷ []))))
evaluate_predicates-Decides_example =
    evaluate_predicates-Decides small_engine small_plan ((0 ∷ (1 ∷ [])), (0 ∷ (1 ∷ [])))

execute_report-recovered_example :
    execute_report small_engine worker (some (payload (5 ∷ []))) policies ≡ (
      let (w, report) = execute_report small_engine worker (some (payload (5 ∷ []))) strict in
      (w, recovered policies report))
execute_report-recovered_example =
    execute_report-recovered small_engine worker (some (payload (5 ∷ []))) policies

run_worker-new-IsBounded_example :
    (run_worker small_engine
      ((payload_0_0_7, policies) ∷ ((payload_0_0_7, strict) ∷ []))
      (new small_engine small_plan true 2)).output.capacity
    ≤ 2
run_worker-new-IsBounded_example =
    run_worker-new-IsBounded small_engine small_plan true 2
      ((payload_0_0_7, policies) ∷ ((payload_0_0_7, strict) ∷ []))

small_plan_built :
    build_plan small_engine
      ((0 ∷ []) ∷ [])
      ((1 ∷ []) ∷ [])
      false
      (some (2 ∷ []))
      (some (2 ∷ []))
      false
    ≡ ok small_plan
unfolding build_plan
small_plan_built = refl

build_plan-IsPlanOf_example :
    (value : Option ℕ) × (AreVariables small_engine (some (2 ∷ [])) value
      × IsPlanOf small_engine value ((0 ∷ []) ∷ ((1 ∷ []) ∷ ((2 ∷ []) ∷ []))) small_plan)
build_plan-IsPlanOf_example =
    build_plan-IsPlanOf small_engine ((0 ∷ []) ∷ []) ((1 ∷ []) ∷ []) false (some (2 ∷ []))
      (some (2 ∷ [])) false small_plan small_plan_built
