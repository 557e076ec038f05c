-- ===== src/Cli/Resolve/Consistent.antt =====
-- What a configuration that `resolve` of src/cli.rs returns can be relied on.
use jkq.Prelude.{
  ltb, leb, Bool-cases, is_some, Bytes, is_empty, Result, ok, ◌>>=◌, map_err, Result-cases, ℕ, ◌≡◌,
  refl, subst, inl, inr, Bool, true, false, not, ◌&&◌, ◌||◌, Option, none, some, List, arith,
  bind-ok, map_err-ok,
}
use jkq.App.{checked}
use jkq.Cli.Resolve.Managed.{AreProperties, check_properties-AreProperties}
use jkq.Cli.Offsets.{resolve_offsets}
use jkq.Output.Format.{compile}
use jkq.Records.{tombstone_predicate, drop_predicate}
use jkq.Cli.{
  RawCli, EndPosition, EnvelopePayload, max_consumers, RawInvalidJsonPolicy, StartPosition,
}
use jkq.Cli.Config.{OutputPlan, RuntimeConfig, embeds_json, formatted, envelope}
use jkq.Cli.Properties.{PropertyMap}
use jkq.Cli.Resolve.{
  resolve, check_limits, check_sharding, resolve_end, resolve_output, resolve_properties,
  resolve_plan, is_value, is_pass, is_zero, invalid_json_policy, parse_config_file, put_properties,
  bad_format, compile_payload_format, bad_plan, variables_source, check_properties,
  resolve_partitions, runtime_config,
}
use jkq.Transform.Engine.{Engine}
use jkq.Transform.Policies.{InvalidJsonPolicy}
use jkq.Transform.Worker.{TransformPlan}
use jkq.Transform.Plan.{build_plan, checked_variables, predicates, compile_projection}

abbrev pub implies : Bool → Bool → Bool
implies a b = not a || b

abbrev pub passes_invalid : InvalidJsonPolicy → Bool
passes_invalid InvalidJsonPolicy.pass = true
passes_invalid _ = false

pub record IsConsistent (engine : Engine) (config : RuntimeConfig engine) : Type 0 where
  pub topic : is_empty config.topic ≡ false
  pub counts : (is_zero config.count_limit || is_zero config.count_per_partition) ≡ false
  pub consumers : (leb 1 config.consumers && leb config.consumers max_consumers) ≡ true
  pub limits :
      (ltb 0 config.limits.max_inflight_bytes
        && (ltb 0 config.limits.max_inflight_per_partition
            && leb config.limits.max_inflight_per_partition config.limits.max_inflight_records))
      ≡ true
  pub sharding :
      implies config.range_sharding
        (config.unordered && (is_some config.end && not (is_some config.count_per_partition)))
      ≡ true
  pub ends : implies (is_some config.end) config.exit_at_end ≡ true
  pub validates :
      implies
        (embeds_json config.output)
        (config.transform.parses_json && not (passes_invalid config.errors.invalid_json))
      ≡ true
  pub properties : AreProperties config.kafka_properties

check_limits-ok :
    (raw : RawCli) (u : Unit {0})
    → check_limits raw ≡ ok u
    → (((is_zero raw.count || is_zero raw.count_per_partition) ≡ false)
        × ((leb 1 raw.consumers && leb raw.consumers max_consumers) ≡ true))
      × ((ltb 0 raw.max_inflight_bytes
            && (ltb 0 raw.max_inflight_per_partition
                && leb raw.max_inflight_per_partition raw.max_inflight_records))
          ≡ true)
unfolding check_limits
check_limits-ok raw u h = ground arith

embeds-is_value :
    (raw : RawCli) (output : OutputPlan)
    → resolve_output raw ≡ ok output
    → implies (embeds_json output) (is_value raw.envelope_payload) ≡ true
unfolding resolve_output embeds_json
embeds-is_value raw (formatted payload_format format) h = refl
embeds-is_value raw (envelope EnvelopePayload.string) h = refl
embeds-is_value raw (envelope EnvelopePayload.value) h = elim (Bool-cases raw.json_envelope) [
  | inl f ↦ ground arith
  | inr f ↦ elim (Result-cases (compile_payload_format raw.payload_format)) [
    | inl (e, g) ↦ absurd (ground arith)
    | inr (p, g) ↦ elim (Result-cases (map_err bad_format (compile raw.format))) [
      | inl (e, i) ↦ absurd (ground arith)
      | inr (t, i) ↦ absurd (ground arith)
    ]
  ]
]

-- A plan that is built under `force_json_validation` parses JSON.
build_plan-parses :
    (engine : Engine) (drops tombstones : List Bytes) (drop_tombstones : Bool)
    (projection variables : Option Bytes) (force : Bool) (plan : TransformPlan engine)
    → build_plan engine drops tombstones drop_tombstones projection variables force ≡ ok plan
    → implies force plan.parses_json ≡ true
unfolding build_plan
build_plan-parses engine drops tombstones drop_tombstones projection variables force plan h =
    elim (Result-cases (checked_variables engine variables)) [
      | inl (e, f) ↦ absurd (ground arith)
      | inr (value, f) ↦ elim (Result-cases (predicates engine value drops drop_predicate 1)) [
        | inl (e, g) ↦ absurd (ground arith)
        | inr (ds, g) ↦
            elim (Result-cases (predicates engine value tombstones tombstone_predicate 1)) [
              | inl (e, i) ↦ absurd (ground arith)
              | inr (ts, i) ↦ elim (Result-cases (compile_projection engine value projection)) [
                | inl (e, j) ↦ absurd (ground arith)
                | inr (p, j) ↦ ground arith
              ]
            ]
      ]
    ]

checked-invalid_json_policy :
    (policy : Option RawInvalidJsonPolicy)
    → passes_invalid (invalid_json_policy policy) ≡ is_pass policy
unfolding invalid_json_policy
checked-invalid_json_policy none = refl
checked-invalid_json_policy (some RawInvalidJsonPolicy.fail) = refl
checked-invalid_json_policy (some RawInvalidJsonPolicy.drop) = refl
checked-invalid_json_policy (some RawInvalidJsonPolicy.tombstone) = refl
checked-invalid_json_policy (some RawInvalidJsonPolicy.pass) = refl

module _ (engine : Engine) (read_to_string : Bytes → Result Bytes Bytes) where
  resolve_plan-parses :
      (raw : RawCli) (plan : TransformPlan engine)
      → resolve_plan engine read_to_string raw ≡ ok plan
      → implies (is_value raw.envelope_payload) plan.parses_json ≡ true
  unfolding resolve_plan
  resolve_plan-parses raw plan h =
      let (variables, (f, built)) =
        bind-ok (variables_source engine read_to_string raw)
          (λ variables. map_err bad_plan (
            build_plan engine raw.drop_if raw.tombstone_if raw.drop_tombstones raw.project variables
              (is_some raw.on_invalid_json || is_value raw.envelope_payload)))
          plan h in
      let parses =
        build_plan-parses engine raw.drop_if raw.tombstone_if raw.drop_tombstones raw.project
          variables (is_some raw.on_invalid_json || is_value raw.envelope_payload) plan
          (map_err-ok bad_plan
            (build_plan engine raw.drop_if raw.tombstone_if raw.drop_tombstones raw.project
              variables (is_some raw.on_invalid_json || is_value raw.envelope_payload))
            plan built) in
      ground arith

  resolve_properties-AreProperties :
      (raw : RawCli) (properties : PropertyMap)
      → resolve_properties engine read_to_string raw ≡ ok properties
      → AreProperties properties
  unfolding resolve_properties
  resolve_properties-AreProperties raw properties h =
      let (from_file, (f, parsed)) =
        bind-ok (parse_config_file engine read_to_string raw.config)
          (λ from_file. put_properties raw.properties from_file >>= check_properties raw.brokers)
          properties h in
      let (given, (g, checked)) =
        bind-ok (put_properties raw.properties from_file) (check_properties raw.brokers) properties
          parsed in
      check_properties-AreProperties raw.brokers given properties checked

  runtime_config-IsConsistent :
      (raw : RawCli) (partitions : Option (List ℕ)) (start : StartPosition)
      (end : Option EndPosition) (transform : TransformPlan engine) (output : OutputPlan)
      (properties : PropertyMap)
      → is_empty raw.topic ≡ false
      → check_limits raw ≡ ok tt
      → check_sharding raw end ≡ ok tt
      → (is_value raw.envelope_payload && is_pass raw.on_invalid_json) ≡ false
      → resolve_plan engine read_to_string raw ≡ ok transform
      → resolve_output raw ≡ ok output
      → resolve_properties engine read_to_string raw ≡ ok properties
      → IsConsistent engine (
          runtime_config engine read_to_string raw partitions start end transform output properties)
  unfolding runtime_config check_sharding
  runtime_config-IsConsistent raw partitions start end transform output properties topic limits
        sharding pass planned written known =
      let ((counts, consumers), budget) = check_limits-ok raw tt limits in
      let value = embeds-is_value raw output written in
      let parses = resolve_plan-parses raw transform planned in
      let policy = checked-invalid_json_policy raw.on_invalid_json in
      record {
        topic = topic;
        counts = counts;
        consumers = consumers;
        limits = budget;
        sharding = ground arith;
        ends = ground arith;
        validates = ground arith;
        properties = resolve_properties-AreProperties raw properties known;
      }

  -- If resolve returns a configuration, for any engine and any contents of files, then it has a
  -- topic, positive counts and limits with the partition limit within the global one, 1 to 128
  -- consumers, range sharding only unordered with an end and without a partition count, an exit at
  -- every end, JSON parsed and never passed on invalid where it is to be embedded, none of the
  -- keys that jkq manages, and a broker list without an empty entry.
  pub resolve-IsConsistent :
      (raw : RawCli) (config : RuntimeConfig engine)
      → resolve engine read_to_string raw ≡ ok config
      → IsConsistent engine config
  unfolding resolve
  resolve-IsConsistent raw config h = elim (Result-cases (resolve_partitions raw.partitions)) [
    | inl (e, f) ↦ absurd (ground arith)
    | inr (partitions, f) ↦ elim (Result-cases (check_limits raw)) [
      | inl (e, g) ↦ absurd (ground arith)
      | inr (tt, g) ↦ elim (Result-cases (resolve_offsets raw.offsets raw.end_offset)) [
        | inl (e, i) ↦ absurd (ground arith)
        | inr ((start, explicit_end), i) ↦ elim (Result-cases (resolve_end raw explicit_end)) [
          | inl (e, j) ↦ absurd (ground arith)
          | inr (end, j) ↦ elim (Result-cases (check_sharding raw end)) [
            | inl (e, k) ↦ absurd (ground arith)
            | inr (tt, k) ↦ elim (Result-cases (resolve_plan engine read_to_string raw)) [
              | inl (e, l) ↦ absurd (ground arith)
              | inr (transform, l) ↦ elim (Result-cases (resolve_output raw)) [
                | inl (e, m) ↦ absurd (ground arith)
                | inr (output, m) ↦
                    elim (Result-cases (resolve_properties engine read_to_string raw)) [
                      | inl (e, n) ↦ absurd (ground arith)
                      | inr (properties, n) ↦
                          let topic : is_empty raw.topic ≡ false = ground arith in
                          let pass : (is_value raw.envelope_payload && is_pass raw.on_invalid_json)
                              ≡ false =
                            ground arith in
                          let built : runtime_config engine read_to_string raw partitions start end
                                transform output properties
                              ≡ config =
                            ground arith in
                          subst (IsConsistent engine) built (
                            runtime_config-IsConsistent raw partitions start end transform output
                              properties topic g k pass l m n)
                    ]
              ]
            ]
          ]
        ]
      ]
    ]
  ]
