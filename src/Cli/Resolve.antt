-- ===== src/Cli/Resolve.antt =====
-- `RawCli::resolve` of src/cli.rs, part by part, over any engine and any reading of files. Its error texts are kept as the
-- facts that they show.
pub mod Brokers
pub mod Managed
pub mod Consistent
use jkq.Prelude.{
  ltb, ◌==◌, if◌then◌else◌, is_some, Bytes, any, drop, is_empty, Result, ok, ◌>>=◌, ◌>>◌, fail_if,
  ok_or, map_err, ℕ, max, Bool, true, false, not, ◌&&◌, ◌||◌, Option, none, some, List, [], ◌∷◌,
  codes,
}
use jkq.Map.{keys, values}
use jkq.Cli.{
  RawCli, EnvelopePayload, StartPosition, EndPosition, RawInvalidJsonPolicy, RawEvaluationPolicy,
  max_consumers,
}
use jkq.Cli.Config.{OutputPlan, formatted, envelope, RuntimeConfig}
use jkq.Cli.Offsets.{OffsetError, resolve_offsets}
use jkq.Cli.Partitions.{PartitionError, parse_partitions}
use jkq.Cli.Properties.{
  PropertyMap, ConfigError, PropertyError, parse_config, parse_property, contains_key, put, delete,
  lookup,
}
use jkq.Output.Tokens.{FormatToken, FormatError}
use jkq.Output.Format.{compile}
use jkq.Records.{evaluation, invalid_json}
use jkq.Transform.Engine.{Engine}
use jkq.Transform.Plan.{PlanError, build_plan}
use jkq.Transform.Policies.{InvalidJsonPolicy, EvaluationPolicy}
use jkq.Transform.Worker.{TransformPlan}
use jkq.Text.{split, trim}

pub data CliError : Type 0 where
  empty_topic zero_count zero_count_per_partition no_consumers too_many_consumers : CliError
  zero_limit partition_limit_too_large snapshot_with_end : CliError
  sharding_is_ordered sharding_without_end sharding_with_count : CliError
  envelope_value_with_pass : CliError
  both_fetch_sizes both_broker_lists no_brokers empty_broker : CliError
  bad_partitions : PartitionError → CliError
  bad_offsets : OffsetError → CliError
  unreadable_variables unreadable_config : Bytes → Bytes → CliError
  bad_plan : PlanError → CliError
  bad_payload_format bad_format : FormatError → CliError
  bad_config : Bytes → ConfigError → CliError
  bad_property : PropertyError → CliError
  managed_property : Bytes → CliError

unfoldable pub resolve_partitions : List Bytes → Result CliError (Option (List ℕ))
unfolding parse_partitions
resolve_partitions [] = ok none
resolve_partitions (value ∷ values) = do
  partitions ← map_err bad_partitions (parse_partitions (value ∷ values))
  ok (some partitions)

abbrev pub is_zero : Option ℕ → Bool
is_zero none = false
is_zero (some n) = n == 0

unfoldable pub check_limits : RawCli → Result CliError (Unit {0})
check_limits raw = do
  fail_if (is_zero raw.count) zero_count
  fail_if (is_zero raw.count_per_partition) zero_count_per_partition
  fail_if (raw.consumers == 0) no_consumers
  fail_if (ltb max_consumers raw.consumers) too_many_consumers
  fail_if
      (raw.max_inflight_records == 0
        || (raw.max_inflight_bytes == 0 || raw.max_inflight_per_partition == 0))
      zero_limit
  fail_if (ltb raw.max_inflight_records raw.max_inflight_per_partition) partition_limit_too_large

unfoldable pub resolve_end : RawCli → Option EndPosition → Result CliError (Option EndPosition)
resolve_end raw explicit_end = do
  fail_if (raw.takes_snapshot && is_some explicit_end) snapshot_with_end
  ok (if raw.takes_snapshot then some EndPosition.snapshot else explicit_end)

unfoldable pub check_sharding : RawCli → Option EndPosition → Result CliError (Unit {0})
check_sharding raw end = do
  fail_if (raw.range_sharding && not raw.unordered) sharding_is_ordered
  fail_if (raw.range_sharding && not (is_some end)) sharding_without_end
  fail_if (raw.range_sharding && is_some raw.count_per_partition) sharding_with_count

abbrev pub is_value : EnvelopePayload → Bool
is_value EnvelopePayload.string = false
is_value EnvelopePayload.value = true

abbrev pub is_pass : Option RawInvalidJsonPolicy → Bool
is_pass (some RawInvalidJsonPolicy.pass) = true
is_pass _ = false

unfoldable pub invalid_json_policy : Option RawInvalidJsonPolicy → InvalidJsonPolicy
invalid_json_policy none = InvalidJsonPolicy.fail
invalid_json_policy (some RawInvalidJsonPolicy.fail) = InvalidJsonPolicy.fail
invalid_json_policy (some RawInvalidJsonPolicy.drop) = InvalidJsonPolicy.drop
invalid_json_policy (some RawInvalidJsonPolicy.tombstone) = InvalidJsonPolicy.tombstone
invalid_json_policy (some RawInvalidJsonPolicy.pass) = InvalidJsonPolicy.pass

unfoldable pub evaluation_policy : RawEvaluationPolicy → EvaluationPolicy
evaluation_policy RawEvaluationPolicy.fail = EvaluationPolicy.fail
evaluation_policy RawEvaluationPolicy.drop = EvaluationPolicy.drop
evaluation_policy RawEvaluationPolicy.tombstone = EvaluationPolicy.tombstone

unfoldable pub compile_payload_format : Option Bytes → Result CliError (Option (List FormatToken))
unfolding compile
compile_payload_format none = ok none
compile_payload_format (some text) = do
  tokens ← map_err bad_payload_format (compile text)
  ok (some tokens)

unfoldable pub resolve_output : RawCli → Result CliError OutputPlan
unfolding compile_payload_format compile
resolve_output raw = if raw.json_envelope then ok (envelope raw.envelope_payload) else (do
  payload_format ← compile_payload_format raw.payload_format
  format ← map_err bad_format (compile raw.format)
  ok (formatted payload_format format))

unfoldable pub put_properties : List Bytes → PropertyMap → Result CliError PropertyMap
unfolding parse_property put
put_properties [] properties = ok properties
put_properties (text ∷ texts) properties = do
  (key, value) ← map_err bad_property (parse_property text)
  put_properties texts (put key value properties)

abbrev pub managed_keys : List Bytes
managed_keys =
    codes "auto.offset.reset"
    ∷ (codes "enable.auto.commit"
        ∷ (codes "enable.auto.offset.store" ∷ (codes "enable.partition.eof" ∷ [])))

unfoldable pub check_managed : List Bytes → PropertyMap → Result CliError (Unit {0})
unfolding lookup
check_managed [] properties = ok tt
check_managed (key ∷ keys) properties = do
  fail_if (contains_key key properties) (managed_property key)
  check_managed keys properties

abbrev pub bootstrap_servers : Bytes
bootstrap_servers = codes "bootstrap.servers"

abbrev pub broker_list : Bytes
broker_list = codes "metadata.broker.list"

-- The alias leaves the properties, and counts where -b is absent.
unfoldable pub replace_alias : Option Bytes → PropertyMap → Result CliError PropertyMap
unfolding lookup delete put
replace_alias brokers properties = elim (lookup broker_list properties) [
  | none ↦ ok (delete broker_list properties)
  | some listed ↦
      let rest : PropertyMap = delete broker_list properties in
      elim brokers [
        | some given ↦ ok rest
        | none ↦
            (fail_if (contains_key bootstrap_servers rest) both_broker_lists
              >> ok (put bootstrap_servers listed rest))
      ]
]

unfoldable pub override_brokers : Option Bytes → PropertyMap → PropertyMap
unfolding put
override_brokers none properties = properties
override_brokers (some brokers) properties = put bootstrap_servers brokers properties

abbrev pub has_empty_entry : Bytes → Bool
has_empty_entry brokers = any (λ entry. is_empty (trim entry)) (split b',' brokers)

unfoldable pub check_brokers : PropertyMap → Result CliError (Unit {0})
unfolding lookup split trim
check_brokers properties = do
  brokers ← ok_or (lookup bootstrap_servers properties) no_brokers
  fail_if (has_empty_entry brokers) empty_broker

-- From the properties that are given to those that the clients have.
unfoldable pub check_properties : Option Bytes → PropertyMap → Result CliError PropertyMap
unfolding check_managed replace_alias override_brokers check_brokers
check_properties brokers given = do
  check_managed managed_keys given
  fail_if
      (contains_key (codes "fetch.message.max.bytes") given
        && contains_key (codes "max.partition.fetch.bytes") given)
      both_fetch_sizes
  replaced ← replace_alias brokers given
  check_brokers (override_brokers brokers replaced)
  ok (override_brokers brokers replaced)

module _ (engine : Engine) (read_to_string : Bytes → Result Bytes Bytes) where
  unfoldable pub variables_source : RawCli → Result CliError (Option Bytes)
  variables_source raw = elim raw.vars_file [
    | none ↦ ok raw.vars
    | some path ↦
        (map_err (unreadable_variables path) (read_to_string path) >>= λ text. ok (some text))
  ]

  unfoldable pub resolve_plan : RawCli → Result CliError (TransformPlan engine)
  unfolding variables_source build_plan
  resolve_plan raw = do
    variables ← variables_source raw
    map_err bad_plan (
        build_plan engine raw.drop_if raw.tombstone_if raw.drop_tombstones raw.project variables
          (is_some raw.on_invalid_json || is_value raw.envelope_payload))

  unfoldable pub parse_config_file : Option Bytes → Result CliError PropertyMap
  unfolding parse_config
  parse_config_file none = ok []
  parse_config_file (some path) = do
    source ← map_err (unreadable_config path) (read_to_string path)
    map_err (bad_config path) (parse_config source)

  unfoldable pub resolve_properties : RawCli → Result CliError PropertyMap
  unfolding parse_config_file put_properties check_properties
  resolve_properties raw = do
    from_file ← parse_config_file raw.config
    given ← put_properties raw.properties from_file
    check_properties raw.brokers given

  unfoldable pub runtime_config :
      RawCli
      → Option (List ℕ)
      → StartPosition
      → Option EndPosition
      → TransformPlan engine
      → OutputPlan
      → PropertyMap
      → RuntimeConfig engine
  unfolding invalid_json_policy evaluation_policy
  runtime_config raw partitions start end transform output kafka_properties = record {
    topic = raw.topic;
    partitions = partitions;
    start = start;
    end = end;
    count_limit = raw.count;
    count_per_partition = raw.count_per_partition;
    exit_at_end = raw.exit_at_end || is_some end;
    consumers = raw.consumers;
    range_sharding = raw.range_sharding;
    unordered = raw.unordered;
    limits = record {
      max_inflight_records = raw.max_inflight_records;
      max_inflight_bytes = raw.max_inflight_bytes;
      max_inflight_per_partition = raw.max_inflight_per_partition;
    };
    transform = transform;
    output = output;
    errors = record {
      invalid_json = invalid_json_policy raw.on_invalid_json;
      evaluation = evaluation_policy raw.on_eval_error;
    };
    kafka_error = raw.on_kafka_error;
    kafka_properties = kafka_properties;
    unbuffered = raw.unbuffered;
    stats = raw.stats || is_some raw.stats_interval;
    stats_interval = raw.stats_interval;
    quiet = raw.quiet;
    check = raw.check;
  }

  unfoldable pub resolve : RawCli → Result CliError (RuntimeConfig engine)
  unfolding resolve_partitions check_limits resolve_offsets resolve_end check_sharding resolve_plan
      resolve_output resolve_properties runtime_config
  resolve raw = do
    fail_if (is_empty raw.topic) empty_topic
    partitions ← resolve_partitions raw.partitions
    check_limits raw
    (start, explicit_end) ← map_err bad_offsets (resolve_offsets raw.offsets raw.end_offset)
    end ← resolve_end raw explicit_end
    check_sharding raw end
    fail_if (is_value raw.envelope_payload && is_pass raw.on_invalid_json) envelope_value_with_pass
    transform ← resolve_plan raw
    output ← resolve_output raw
    kafka_properties ← resolve_properties raw
    ok (runtime_config raw partitions start end transform output kafka_properties)
