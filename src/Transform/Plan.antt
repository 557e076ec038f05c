-- ===== src/Transform/Plan.antt =====
-- `build_plan` of src/transform/mod.rs over any engine.
use jkq.Prelude.{
  if◌then◌else◌, Bool-cases, is_some, Bytes, is_empty, Result, ok, err, ◌>>=◌, map_err,
  Result-cases, ℕ, ◌+◌, ◌≡◌, refl, subst, inl, inr, Bool, true, false, not, ◌||◌, Option, none,
  some, List, [], ◌∷◌, ◌++◌, arith,
}
use jkq.Output.Format.{}
use jkq.Records.{Category, drop_predicate, tombstone_predicate}
use jkq.Transform.Engine.{Engine}
use jkq.Transform.Worker.{TransformPlan, option_list, input_plan}

-- The error texts, by what they show.
pub data PlanError : Type 0 where
  variables_not_json : Bytes → PlanError
  variables_not_object : PlanError
  compile_failed : Category → Option ℕ → Bytes → PlanError

module _ (engine : Engine) where
  open engine use {Expression, Value, parse_variables, is_object, compile}

  unfoldable pub checked_variables : Option Bytes → Result PlanError (Option Value)
  checked_variables none = ok none
  checked_variables (some source) = do
    value ← map_err variables_not_json (parse_variables source)
    if is_object value then ok (some value) else err variables_not_object

  unfoldable pub compile_expression :
      Option Value → Bytes → Category → Option ℕ → Result PlanError Expression
  compile_expression variables source category number =
      map_err (compile_failed category number) (compile variables source)

  -- The predicates from the one that is `number` in messages.
  unfoldable pub predicates :
      Option Value → List Bytes → Category → ℕ → Result PlanError (List Expression)
  unfolding compile_expression
  predicates variables [] category number = ok []
  predicates variables (source ∷ sources) category number = do
    expression ← compile_expression variables source category (some number)
    rest ← predicates variables sources category (number + 1)
    ok (expression ∷ rest)

  unfoldable pub compile_projection :
      Option Value → Option Bytes → Result PlanError (Option Expression)
  unfolding compile_expression
  compile_projection variables none = ok none
  compile_projection variables (some source) = do
    expression ← compile_expression variables source Category.projection none
    ok (some expression)

  unfoldable pub build_plan :
      List Bytes
      → List Bytes
      → Bool
      → Option Bytes
      → Option Bytes
      → Bool
      → Result PlanError (TransformPlan engine)
  unfolding checked_variables predicates compile_projection
  build_plan drops tombstones drop_tombstones projection variables force_json_validation = do
    value ← checked_variables variables
    compiled_drops ← predicates value drops drop_predicate 1
    compiled_tombstones ← predicates value tombstones tombstone_predicate 1
    compiled_projection ← compile_projection value projection
    ok (record {
      drops = compiled_drops;
      tombstones = compiled_tombstones;
      drop_tombstones = drop_tombstones;
      projection = compiled_projection;
      parses_json =
          force_json_validation
          || (not (is_empty drops) || (not (is_empty tombstones) || is_some projection));
    })

  -- Source by source, what the engine compiles.
  pub data Compiles (variables : Option Value) : List Bytes → List Expression → Type 0 where
    none_left : Compiles variables [] []
    one_more :
        {source : Bytes} {sources : List Bytes} {e : Expression} {es : List Expression}
        → compile variables source ≡ ok e
        → Compiles variables sources es
        → Compiles variables (source ∷ sources) (e ∷ es)

  Compiles-append :
      {variables : Option Value} {sources more : List Bytes} {es fs : List Expression}
      → Compiles variables sources es
      → Compiles variables more fs
      → Compiles variables (sources ++ more) (es ++ fs)
  Compiles-append none_left d = d
  Compiles-append (one_more h c) d = one_more h (Compiles-append c d)

  predicates-Compiles :
      (variables : Option Value) (sources : List Bytes) (category : Category) (number : ℕ)
      (es : List Expression)
      → predicates variables sources category number ≡ ok es
      → Compiles variables sources es
  unfolding predicates compile_expression
  predicates-Compiles variables [] category number es h =
      subst (Compiles variables []) (ground arith) none_left
  predicates-Compiles variables (source ∷ sources) category number es h =
      elim (Result-cases (compile variables source)) [
        | inl (e, f) ↦ absurd (ground arith)
        | inr (x, f) ↦ elim (Result-cases (predicates variables sources category (number + 1))) [
          | inl (e, g) ↦ absurd (ground arith)
          | inr (xs, g) ↦
              let rest = predicates-Compiles variables sources category (number + 1) xs g in
              subst (Compiles variables (source ∷ sources)) (ground arith) (one_more f rest)
        ]
      ]

  projection-Compiles :
      (variables : Option Value) (source : Option Bytes) (e : Option Expression)
      → compile_projection variables source ≡ ok e
      → Compiles variables (option_list source) (option_list e)
  unfolding compile_projection compile_expression
  projection-Compiles variables none e h =
      let same : none ≡ e = ground arith in
      subst (λ x. Compiles variables [] (option_list x)) same none_left
  projection-Compiles variables (some source) e h = elim (Result-cases (compile variables source)) [
    | inl (x, f) ↦ absurd (ground arith)
    | inr (x, f) ↦
        let same : some x ≡ e = ground arith in
        subst (λ o. Compiles variables (source ∷ []) (option_list o)) same (one_more f none_left)
  ]

  -- What a plan promises of the sources that it was built from, the predicates first.
  pub record IsPlanOf (value : Option Value) (sources : List Bytes) (plan : TransformPlan engine)
      : Type 0 where
    pub compiled : Compiles value sources (input_plan engine plan)
    -- A plan that parses no payload leaves no expression out.
    pub no_expression : plan.parses_json ≡ false → sources ≡ []

  -- Absent variables, or a JSON object as the engine parses it.
  abbrev pub AreVariables : Option Bytes → Option Value → Type 0
  AreVariables none none = Unit
  AreVariables none (some value) = ⊥
  AreVariables (some source) none = ⊥
  AreVariables (some source) (some value) =
      (parse_variables source ≡ ok value) × (is_object value ≡ true)

  checked_variables-AreVariables :
      (variables : Option Bytes) (value : Option Value)
      → checked_variables variables ≡ ok value
      → AreVariables variables value
  unfolding checked_variables
  checked_variables-AreVariables none value h =
      let same : none ≡ value = ground arith in subst (AreVariables none) same tt
  checked_variables-AreVariables (some source) value h =
      elim (Result-cases (parse_variables source)) [
        | inl (e, f) ↦ absurd (ground arith)
        | inr (parsed, f) ↦ elim (Bool-cases (is_object parsed)) [
          | inl g ↦
              let same : some parsed ≡ value = ground arith in
              subst (AreVariables (some source)) same (f, g)
          | inr g ↦ absurd (ground arith)
        ]
      ]

  nothing_compiled :
      (force : Bool) (drops tombstones : List Bytes) (projection : Option Bytes)
      → (force || (not (is_empty drops) || (not (is_empty tombstones) || is_some projection)))
        ≡ false
      → drops ++ (tombstones ++ option_list projection) ≡ []
  nothing_compiled true drops tombstones projection h = absurd (ground arith)
  nothing_compiled false [] [] none h = refl
  nothing_compiled false [] [] (some p) h = absurd (ground arith)
  nothing_compiled false [] (t ∷ ts) projection h = absurd (ground arith)
  nothing_compiled false (d ∷ ds) tombstones projection h = absurd (ground arith)

  -- If build_plan gives a plan, the variables were absent or are what the engine parses from their
  -- text, a JSON object; with them the expressions of the plan's input are in order what the
  -- engine compiles from the drop sources, the tombstone sources and the projection; and a plan
  -- that parses no JSON has no source to compile.
  pub build_plan-IsPlanOf :
      (drops tombstones : List Bytes) (drop_tombstones : Bool) (projection variables : Option Bytes)
      (force : Bool) (plan : TransformPlan engine)
      → build_plan drops tombstones drop_tombstones projection variables force ≡ ok plan
      → (value : Option Value) × (AreVariables variables value
          × IsPlanOf value (drops ++ (tombstones ++ option_list projection)) plan)
  unfolding build_plan
  build_plan-IsPlanOf drops tombstones drop_tombstones projection variables force plan h =
      elim (Result-cases (checked_variables variables)) [
        | inl (e, f) ↦ absurd (ground arith)
        | inr (value, f) ↦ elim (Result-cases (predicates value drops drop_predicate 1)) [
          | inl (e, g) ↦ absurd (ground arith)
          | inr (ds, g) ↦ elim (Result-cases (predicates value tombstones tombstone_predicate 1)) [
            | inl (e, i) ↦ absurd (ground arith)
            | inr (ts, i) ↦ elim (Result-cases (compile_projection value projection)) [
              | inl (e, j) ↦ absurd (ground arith)
              | inr (p, j) ↦
                  let built : TransformPlan engine = record {
                    drops = ds;
                    tombstones = ts;
                    drop_tombstones = drop_tombstones;
                    projection = p;
                    parses_json =
                        force
                        || (not (is_empty drops)
                            || (not (is_empty tombstones) || is_some projection));
                  } in
                  let same : built ≡ plan = ground arith in
                  let good : IsPlanOf value (drops ++ (tombstones ++ option_list projection))
                      built =
                    record {
                      compiled =
                          Compiles-append (predicates-Compiles value drops drop_predicate 1 ds g) (
                            Compiles-append
                              (predicates-Compiles value tombstones tombstone_predicate 1 ts i)
                              (projection-Compiles value projection p j));
                      no_expression = nothing_compiled force drops tombstones projection;
                    } in
                  (
                    value,
                    (
                      checked_variables-AreVariables variables value f,
                      subst (IsPlanOf value (drops ++ (tombstones ++ option_list projection))) same
                          good,
                    ),
                  )
            ]
          ]
        ]
      ]
