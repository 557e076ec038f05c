-- ===== src/Cli.antt =====
-- src/cli.rs: the values that the command line is resolved to. Its strings are their UTF-8 bytes.
pub mod Partitions
pub mod Offsets
pub mod Quantities
pub mod Properties
pub mod Config
pub mod Resolve
pub mod Tests
use jkq.Prelude.{Bytes, ℕ, Bool, Option, List}
use jkq.Int.{ℤ}

pub data EnvelopePayload : Type 0 where
  string value : EnvelopePayload

pub data StartPosition : Type 0 where
  beginning at_end : StartPosition
  absolute : ℤ → StartPosition
  relative_to_end : ℕ → StartPosition
  timestamp_millis : ℤ → StartPosition

pub data EndPosition : Type 0 where
  exclusive_offset : ℤ → EndPosition
  timestamp_millis : ℤ → EndPosition
  snapshot : EndPosition

pub data RawInvalidJsonPolicy : Type 0 where
  fail drop tombstone pass : RawInvalidJsonPolicy

pub data RawEvaluationPolicy : Type 0 where
  fail drop tombstone : RawEvaluationPolicy

pub data KafkaErrorPolicy : Type 0 where
  fail continue : KafkaErrorPolicy

-- The options as they are given, `vars_file` and `config` as paths.
pub record RawCli : Type 0 where
  pub brokers : Option Bytes
  pub topic : Bytes
  pub partitions : List Bytes
  pub offsets : List Bytes
  pub end_offset : Option ℤ
  pub count : Option ℕ
  pub count_per_partition : Option ℕ
  pub exit_at_end : Bool
  pub takes_snapshot : Bool
  pub drop_if : List Bytes
  pub tombstone_if : List Bytes
  pub drop_tombstones : Bool
  pub project : Option Bytes
  pub vars : Option Bytes
  pub vars_file : Option Bytes
  pub payload_format : Option Bytes
  pub format : Bytes
  pub json_envelope : Bool
  pub envelope_payload : EnvelopePayload
  pub unbuffered : Bool
  pub stats : Bool
  pub stats_interval : Option ℕ
  pub quiet : Bool
  pub consumers : ℕ
  pub range_sharding : Bool
  pub unordered : Bool
  pub max_inflight_records : ℕ
  pub max_inflight_bytes : ℕ
  pub max_inflight_per_partition : ℕ
  pub on_invalid_json : Option RawInvalidJsonPolicy
  pub on_eval_error : RawEvaluationPolicy
  pub on_kafka_error : KafkaErrorPolicy
  pub config : Option Bytes
  pub properties : List Bytes
  pub check : Bool

abbrev pub max_consumers : ℕ
max_consumers = 128

abbrev pub max_assigned_partitions : ℕ
max_assigned_partitions = 100000
