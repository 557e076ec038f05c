-- ===== src/Records.antt =====
-- The values that pass between the components: a Kafka record, its transform's action and its
-- completion (src/output.rs, src/kafka.rs, src/transform/jsonata.rs, src/runtime.rs,
-- src/runtime/state.rs). Texts are their bytes. A message is kept as the facts that its text shows.
use jkq.Prelude.{Bytes, ℕ, Option, List, []}
use jkq.Int.{ℤ}

-- A `Vec<u8>` whose allocation matters.
pub record Buffer : Type 0 where
  pub bytes : Bytes
  pub capacity : ℕ

-- `Vec::new()`.
abbrev pub empty_buffer : Buffer
empty_buffer = record { bytes = []; capacity = 0 }

-- `clear` keeps the allocation.
abbrev pub clear : Buffer → Buffer
clear b = record b { bytes = [] }

pub record Header : Type 0 where
  pub name : Bytes
  pub value : Option Bytes

pub data TimestampType : Type 0 where
  create_time log_append_time : TimestampType

pub record Timestamp : Type 0 where
  pub milliseconds : ℤ
  pub kind : TimestampType

pub record OwnedRecord : Type 0 where
  pub partition : ℕ
  pub offset : ℤ
  pub timestamp : Option Timestamp
  pub key : Option Bytes
  pub headers : List Header
  pub payload : Option Buffer
  pub retained_bytes : ℕ

pub data PassPayload : Type 0 where
  exact : Buffer → PassPayload
  json : Buffer → ℕ → PassPayload

pub data Action : Type 0 where
  drop_record : Action
  tombstone : Action
  pass_through : PassPayload → Action
  project : Buffer → Action

-- The prefix of an evaluation error.
pub data Category : Type 0 where
  drop_predicate tombstone_predicate projection envelope_payload : Category

-- The rest of its text: the engine's, or one of the transform's own.
pub data Message : Type 0 where
  engine_message : Bytes → Message
  not_a_boolean no_results : Message

pub data TransformError : Type 0 where
  invalid_json : Bytes → TransformError
  evaluation : Category → Option ℕ → Message → TransformError

pub record SourceRecord : Type 0 where
  pub partition : ℕ
  pub offset : ℤ
  pub timestamp : Option Timestamp
  pub key : Option Bytes
  pub headers : List Header
  pub payload_length : Option ℕ

-- The text of a fatal outcome.
pub data Fatality : Type 0 where
  transform_failed : ℕ → ℤ → TransformError → Fatality
  worker_panicked : ℕ → ℤ → Fatality

pub data CompletionOutcome : Type 0 where
  action : Action → CompletionOutcome
  fatal : Fatality → CompletionOutcome

pub record Completion : Type 0 where
  pub spare_payload : Option Buffer
  pub consumer : ℕ
  pub partition : ℕ
  pub sequence : ℕ
  pub retained_bytes : ℕ
  pub source : SourceRecord
  pub outcome : CompletionOutcome

pub record Release : Type 0 where
  pub partition : ℕ
  pub retained_bytes : ℕ
  pub payload : Option Buffer

pub record RuntimeLimits : Type 0 where
  pub max_inflight_records : ℕ
  pub max_inflight_bytes : ℕ
  pub max_inflight_per_partition : ℕ

pub data PollEvent : Type 0 where
  polled : OwnedRecord → PollEvent
  idle all_done : PollEvent
