-- ===== src/Kafka/Input.antt =====
-- `KafkaInput` of src/kafka.rs. What the native consumer gives to a poll and to the request to pause a
-- partition are arguments; so are how a vector grows and the size of a header's slot.
pub mod Counting
pub mod Polls
pub mod Drained
use jkq.Prelude.{
  ◌==◌, if◌then◌else◌, is_some, Bytes, length, sum_by, Result, ok, err, ◌>>=◌, ◌>>◌, fail_if, ok_or,
  map_err, checked_add, checked_mul, ℕ, ◌-◌, Bool, true, false, not, Option, none, some, List, [],
  ◌∷◌,
}
use jkq.Cli.{KafkaErrorPolicy}
use jkq.Int.{ℤ, ltb_ℤ, leb_ℤ}
use jkq.Kafka.Buffers.{PayloadBuffers, copy, new as new_buffers}
use jkq.Kafka.Ranges.{PartitionRange, ConsumerAssignment, Offset, offset}
use jkq.Map.{get, insert, update}
use jkq.Output.Render.{OutputRequirements}
use jkq.Records.{
  RuntimeLimits, OwnedRecord, Header, Timestamp, create_time, log_append_time, Buffer, PollEvent,
  polled, idle, all_done,
}

pub record PartitionState : Type 0 where
  pub range : PartitionRange
  pub done : Bool

pub data KafkaTimestamp : Type 0 where
  not_available : KafkaTimestamp
  create_time_at log_append_time_at : ℤ → KafkaTimestamp

pub record NativeMessage : Type 0 where
  pub is_eof : Bool
  pub partition : ℕ
  pub position : ℤ
  pub time : KafkaTimestamp
  pub key : Option Bytes
  pub headers : Option (List Header)
  pub payload : Option Bytes

-- rdkafka's errors, as the poll tells them apart.
pub data KafkaFailure : Type 0 where
  auto_offset_reset fatal_consumption other_failure : Bytes → KafkaFailure

pub data InputError : Type 0 where
  offset_error fatal_error record_error : Bytes → InputError
  unassigned_record unassigned_finish unassigned_pause : ℕ → InputError
  cannot_pause : ℕ → Bytes → InputError
  charge_overflow : InputError

pub record KafkaInput : Type 0 where
  pub payload_buffers : PayloadBuffers
  pub partitions : List (ℕ × PartitionState)
  pub remaining_partitions : ℕ
  pub max_inflight_per_partition : ℕ
  pub requirements : OutputRequirements
  pub exit_at_end : Bool
  pub error_policy : KafkaErrorPolicy

-- `timestamp`.
unfoldable pub record_timestamp : KafkaTimestamp → Option Timestamp
record_timestamp not_available = none
record_timestamp (create_time_at time) = some (record { milliseconds = time; kind = create_time })
record_timestamp (log_append_time_at time) =
    some (record { milliseconds = time; kind = log_append_time })

abbrev pub length_or_zero : Option Bytes → ℕ
length_or_zero none = 0
length_or_zero (some value) = length value

unfoldable pub charge_headers : List Header → ℕ → Option ℕ
charge_headers [] bytes = some bytes
charge_headers (h ∷ headers) bytes = elim (checked_add bytes (length h.name)) [
  | none ↦ none
  | some named ↦ elim (checked_add named (length_or_zero h.value)) [
    | none ↦ none
    | some valued ↦ charge_headers headers valued
  ]
]

-- `matches!` on the bounds of a range.
unfoldable pub is_empty_range : PartitionRange → Bool
is_empty_range range = elim range.start [
  | offset start ↦ elim range.end_exclusive [ none ↦ false | some end ↦ leb_ℤ end start ]
  | _ ↦ false
]

unfoldable pub collect_states :
    List PartitionRange → List (ℕ × PartitionState) → List (ℕ × PartitionState)
unfolding is_empty_range
collect_states [] states = states
collect_states (range ∷ ranges) states =
    collect_states ranges
      (insert range.partition (record { range = range; done = is_empty_range range }) states)

abbrev pub open_partition : PartitionState → ℕ
open_partition state = if state.done then 0 else 1

-- How many partitions are not done.
abbrev pub unfinished : List (ℕ × PartitionState) → ℕ
unfinished = sum_by (λ entry. open_partition entry.1)

abbrev pub ends_at : Option ℤ → ℤ → Bool
ends_at none position = false
ends_at (some end) position = leb_ℤ end position

-- `matches!` on a start above the message.
abbrev pub starts_above : Offset → ℤ → Bool
starts_above (offset start) position = ltb_ℤ position start
starts_above _ position = false

module _ (grow : ℕ → ℕ → ℕ) (header_size : ℕ) (pause_result : ℕ → Result Bytes (Unit {0})) where
  unfoldable pub charge_slots : Option (List Header) → ℕ → Option ℕ
  unfolding charge_headers
  charge_slots none bytes = some bytes
  charge_slots (some headers) bytes = elim (checked_mul (length headers) header_size) [
    | none ↦ none
    | some slots ↦ elim (checked_add bytes slots) [
      | none ↦ none
      | some total ↦ charge_headers headers total
    ]
  ]

  unfoldable pub retained_bytes : NativeMessage → OutputRequirements → Result InputError ℕ
  unfolding charge_slots
  retained_bytes message requirements = do
    keyed ←
        ok_or
          (if requirements.key
            then checked_add (length_or_zero message.payload) (length_or_zero message.key)
            else some (length_or_zero message.payload))
          charge_overflow
    ok_or (if requirements.headers then charge_slots message.headers keyed else some keyed)
        charge_overflow

  unfoldable pub pause : ℕ → KafkaInput → Result InputError (Unit {0})
  unfolding get
  pause partition input = do
    fail_if (not (is_some (get partition input.partitions))) (unassigned_pause partition)
    map_err (cannot_pause partition) (pause_result partition)

  unfoldable pub finish : ℕ → KafkaInput → KafkaInput × Result InputError (Unit {0})
  unfolding pause get update
  finish partition input = elim (get partition input.partitions) [
    | none ↦ (input, err (unassigned_finish partition))
    | some state ↦
        if state.done
        then (input, ok tt)
        else (let input' : KafkaInput = record input {
          remaining_partitions = input.remaining_partitions - 1;
          partitions = update partition (record state { done = true }) input.partitions;
        } in
            (input', pause partition input'))
  ]

  abbrev pub should_finish : KafkaInput → PartitionState → ℤ → Bool
  should_finish input state position = elim state.range.end_exclusive [
    | some end ↦ leb_ℤ end position
    | none ↦ input.exit_at_end
  ]

  unfoldable pub handle_eof : ℕ → ℤ → KafkaInput → KafkaInput × Result InputError (Unit {0})
  unfolding finish get
  handle_eof partition position input = elim (get partition input.partitions) [
    | none ↦ (input, ok tt)
    | some state ↦
        if should_finish input state position then finish partition input else (input, ok tt)
  ]

  -- After `?`, an idle poll.
  abbrev pub idle_after :
      KafkaInput × Result InputError (Unit {0}) → KafkaInput × Result InputError PollEvent
  idle_after (input, ok done) = (input, ok idle)
  idle_after (input, err e) = (input, err e)

  unfoldable pub poll_failed : KafkaErrorPolicy → KafkaFailure → Result InputError PollEvent
  poll_failed policy (auto_offset_reset text) = err (offset_error text)
  poll_failed policy (fatal_consumption text) = err (fatal_error text)
  poll_failed KafkaErrorPolicy.continue (other_failure text) = ok idle
  poll_failed KafkaErrorPolicy.fail (other_failure text) = err (record_error text)

  abbrev pub copied : Option Bytes → PayloadBuffers → PayloadBuffers × Option Buffer
  copied none buffers = (buffers, none)
  copied (some bytes) buffers =
      let (buffers', payload) = copy grow buffers bytes in (buffers', some payload)

  abbrev pub headers_or_empty : Option (List Header) → List Header
  headers_or_empty none = []
  headers_or_empty (some headers) = headers

  unfoldable pub own_message : NativeMessage → ℕ → KafkaInput → KafkaInput × OwnedRecord
  unfolding copy record_timestamp
  own_message message bytes input =
      let (buffers, payload) = copied message.payload input.payload_buffers in
      (
        record input { payload_buffers = buffers },
        record {
          partition = message.partition;
          offset = message.position;
          timestamp = if input.requirements.timestamp then record_timestamp message.time else none;
          key = if input.requirements.key then message.key else none;
          headers = if input.requirements.headers then headers_or_empty message.headers else [];
          payload = payload;
          retained_bytes = bytes;
        },
      )

  -- A message of a partition that is not done.
  unfoldable pub take_message :
      NativeMessage → PartitionState → KafkaInput → KafkaInput × Result InputError PollEvent
  unfolding finish retained_bytes own_message
  take_message message state input =
      if ends_at state.range.end_exclusive message.position
      then idle_after (finish message.partition input)
      else if starts_above state.range.start message.position
      then (input, ok idle)
      else elim (retained_bytes message input.requirements) [
        | err e ↦ (input, err e)
        | ok bytes ↦
            let (input', owned) = own_message message bytes input in (input', ok (polled owned))
      ]

  unfoldable pub poll_message :
      NativeMessage → KafkaInput → KafkaInput × Result InputError PollEvent
  unfolding handle_eof take_message get
  poll_message message input =
      if message.is_eof
      then idle_after (handle_eof message.partition message.position input)
      else elim (get message.partition input.partitions) [
        | none ↦ (input, err (unassigned_record message.partition))
        | some state ↦ if state.done then (input, ok idle) else take_message message state input
      ]

  -- The native consumer gives nothing in time, a failure or a message.
  unfoldable pub poll_consumer :
      Option (Result KafkaFailure NativeMessage)
      → KafkaInput
      → KafkaInput × Result InputError PollEvent
  unfolding poll_failed poll_message
  poll_consumer none input = (input, ok idle)
  poll_consumer (some (err failure)) input = (input, poll_failed input.error_policy failure)
  poll_consumer (some (ok message)) input = poll_message message input

  unfoldable pub poll_with_timeout :
      Option (Result KafkaFailure NativeMessage)
      → KafkaInput
      → KafkaInput × Result InputError PollEvent
  unfolding poll_consumer
  poll_with_timeout event input =
      if input.remaining_partitions == 0 then (input, ok all_done) else poll_consumer event input

  unfoldable pub pause_done : List (ℕ × PartitionState) → KafkaInput → Result InputError (Unit {0})
  unfolding pause
  pause_done [] input = ok tt
  pause_done ((partition, state) ∷ states) input =
      if state.done
      then (pause partition input >>= λ u. pause_done states input)
      else pause_done states input

  -- From where the native consumer has been made.
  unfoldable pub assign :
      RuntimeLimits
      → OutputRequirements
      → Bool
      → KafkaErrorPolicy
      → ConsumerAssignment
      → Result InputError KafkaInput
  unfolding collect_states pause_done new_buffers
  assign limits requirements exit_at_end error_policy assignment =
      let states : List (ℕ × PartitionState) = collect_states assignment.ranges [] in
      let input : KafkaInput = record {
        payload_buffers = new_buffers limits;
        partitions = states;
        remaining_partitions = unfinished states;
        max_inflight_per_partition = assignment.max_inflight_per_partition;
        requirements = requirements;
        exit_at_end = exit_at_end;
        error_policy = error_policy;
      } in
      pause_done states input >>= λ u. ok input
