-- ===== src/Cli/Tests.antt =====
-- src/cli.rs at concrete options.
use jkq.Prelude.{
  Bytes, Result, ok, err, ◌≡◌, refl, ◌↔◌, true, false, none, some, List, [], ◌∷◌, codes,
}
use jkq.Records.{}
use jkq.Int.{pos}
use jkq.Cli.{
  RawCli, EnvelopePayload, StartPosition, EndPosition, KafkaErrorPolicy, RawEvaluationPolicy,
}
use jkq.Cli.Config.{RuntimeConfig, envelope}
use jkq.Cli.Offsets.{resolve_offsets}
use jkq.Cli.Offsets.Printed.{resolve_offsets-printed}
use jkq.Cli.Partitions.{parse_partitions, duplicate_partition}
use jkq.Cli.Partitions.Accepted.{parse_partitions-IsSelection, IsSelection}
use jkq.Cli.Properties.{parse_config, PropertyMap}
use jkq.Cli.Quantities.{parse_size}
use jkq.Cli.Quantities.Printed.{parse_size-printed, SizeUnit}
use jkq.Cli.Resolve.{resolve, runtime_config}
use jkq.Cli.Resolve.Consistent.{resolve-IsConsistent, IsConsistent}
use jkq.Output.Writer.{digits_loop, display}
use jkq.Transform.Tests.{small_engine}
use jkq.Transform.Worker.{TransformPlan}

abbrev ranges : List Bytes
ranges = codes "3, 0-1" ∷ (codes "7" ∷ [])

ranges_selected : parse_partitions ranges ≡ ok (3 ∷ (0 ∷ (1 ∷ (7 ∷ []))))
unfolding parse_partitions
ranges_selected = refl

overlap : parse_partitions (codes "0-2,1" ∷ []) ≡ err (duplicate_partition 1)
unfolding parse_partitions
overlap = refl

parse_partitions-IsSelection_example :
    (parse_partitions ranges ≡ ok (3 ∷ (0 ∷ (1 ∷ (7 ∷ [])))))
    ↔ IsSelection ranges (3 ∷ (0 ∷ (1 ∷ (7 ∷ []))))
parse_partitions-IsSelection_example =
    parse_partitions-IsSelection ranges (3 ∷ (0 ∷ (1 ∷ (7 ∷ []))))

resolve_offsets-printed_example :
    resolve_offsets (codes "e@20" ∷ (codes "-5" ∷ [])) none
    ≡ ok (StartPosition.relative_to_end 5, some (EndPosition.timestamp_millis (pos 20)))
unfolding display digits_loop
resolve_offsets-printed_example =
    resolve_offsets-printed true (StartPosition.relative_to_end 5)
      (some (EndPosition.timestamp_millis (pos 20))) refl refl

parse_size-printed_example : parse_size (codes "256MiB") ≡ ok 268435456
unfolding digits_loop
parse_size-printed_example = parse_size-printed 256 SizeUnit.mebibytes

commented :
    parse_config (codes "# brokers\n\nbootstrap.servers = a,b \n")
    ≡ ok ((codes "bootstrap.servers", codes "a,b") ∷ [])
unfolding parse_config
commented = refl

abbrev pub raw : RawCli
raw = record {
  brokers = some (codes "localhost");
  topic = codes "events";
  partitions = ranges;
  offsets = codes "-5" ∷ [];
  end_offset = some (pos 100);
  count = none;
  count_per_partition = none;
  exit_at_end = false;
  takes_snapshot = false;
  drop_if = (5 ∷ []) ∷ [];
  tombstone_if = [];
  drop_tombstones = false;
  project = none;
  vars = none;
  vars_file = none;
  payload_format = none;
  format = codes "%s\\n";
  json_envelope = true;
  envelope_payload = EnvelopePayload.value;
  unbuffered = false;
  stats = false;
  stats_interval = none;
  quiet = false;
  consumers = 2;
  range_sharding = true;
  unordered = true;
  max_inflight_records = 8192;
  max_inflight_bytes = 268435456;
  max_inflight_per_partition = 8192;
  on_invalid_json = none;
  on_eval_error = RawEvaluationPolicy.drop;
  on_kafka_error = KafkaErrorPolicy.fail;
  config = some (codes "jkq.conf");
  properties = codes "client.id=jkq" ∷ [];
  check = false;
}

-- Every file is empty.
abbrev pub read_to_string : Bytes → Result Bytes Bytes
read_to_string path = ok []

abbrev transform : TransformPlan small_engine
transform = record {
  drops = 5 ∷ [];
  tombstones = [];
  drop_tombstones = false;
  projection = none;
  parses_json = true;
}

abbrev kafka_properties : PropertyMap
kafka_properties =
    (codes "bootstrap.servers", codes "localhost") ∷ ((codes "client.id", codes "jkq") ∷ [])

abbrev pub config : RuntimeConfig small_engine
config =
    runtime_config small_engine read_to_string raw (some (3 ∷ (0 ∷ (1 ∷ (7 ∷ [])))))
      (StartPosition.relative_to_end 5) (some (EndPosition.exclusive_offset (pos 100))) transform
      (envelope EnvelopePayload.value) kafka_properties

pub raw-resolves : resolve small_engine read_to_string raw ≡ ok config
unfolding resolve
raw-resolves = refl

resolve-IsConsistent_example : IsConsistent small_engine config
resolve-IsConsistent_example =
    resolve-IsConsistent small_engine read_to_string raw config raw-resolves
