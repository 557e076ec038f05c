-- ===== src/Kafka/InputTests.antt =====
-- `KafkaInput` of src/kafka.rs at a concrete assignment.
use jkq.Prelude.{
  ◌==◌, Bool-cases, Bytes, any, Result, ok, ℕ, max, ◌≡◌, refl, inl, inr, true, false, ◌||◌, Option,
  none, some, List, [], ◌∷◌, arith,
}
use jkq.Cli.{KafkaErrorPolicy}
use jkq.Int.{pos}
use jkq.Kafka.Buffers.{new as new_buffers}
use jkq.Kafka.Input.{
  KafkaInput, NativeMessage, KafkaFailure, not_available, assign, PartitionState, poll_with_timeout,
}
use jkq.Kafka.Input.Drained.{poll_all, poll_all-ends, tells_end}
use jkq.Kafka.Input.Polls.{assigned_polls-IsGoodPoll, IsGoodPoll, use_input, Use, assign-IsCounted}
use jkq.Kafka.Ranges.{ConsumerAssignment, Offset}
use jkq.Map.{get, insert}
use jkq.Output.Render.{OutputRequirements}
use jkq.Records.{RuntimeLimits, all_done}

abbrev limits : RuntimeLimits
limits = record {
  max_inflight_records = 4;
  max_inflight_bytes = 100;
  max_inflight_per_partition = 2;
}

abbrev all_required : OutputRequirements
all_required = record { key = true; headers = true; timestamp = true }

-- Partition 0 from 2 to 4 and partition 1 from its beginning.
abbrev two_ranges : ConsumerAssignment
two_ranges = record {
  ranges =
      record { partition = 0; start = Offset.offset (pos 2); end_exclusive = some (pos 4) }
      ∷ (record { partition = 1; start = Offset.beginning; end_exclusive = none } ∷ []);
  max_inflight_per_partition = 2;
}

abbrev pub message : ℕ → ℕ → NativeMessage
message partition position = record {
  is_eof = false;
  partition = partition;
  position = pos position;
  time = not_available;
  key = some (1 ∷ []);
  headers = none;
  payload = some (2 ∷ (3 ∷ []));
}

abbrev eof : ℕ → ℕ → NativeMessage
eof partition position = record (message partition position) { is_eof = true }

abbrev pub grow : ℕ → ℕ → ℕ
grow capacity needed = max capacity needed

abbrev pub pauses : ℕ → Result Bytes (Unit {0})
pauses partition = ok tt

abbrev pub assigned : KafkaInput
assigned = record {
  payload_buffers = new_buffers limits;
  partitions =
      (
        0,
        record {
          range = record {
            partition = 0;
            start = Offset.offset (pos 2);
            end_exclusive = some (pos 4);
          };
          done = false;
        },
      )
      ∷ ((
        1,
        record {
          range = record { partition = 1; start = Offset.beginning; end_exclusive = none };
          done = false;
        },
      )
          ∷ []);
  remaining_partitions = 2;
  max_inflight_per_partition = 2;
  requirements = all_required;
  exit_at_end = true;
  error_policy = KafkaErrorPolicy.fail;
}

assign-two_ranges :
    assign grow 48 pauses limits all_required true KafkaErrorPolicy.fail two_ranges ≡ ok assigned
unfolding assign insert
assign-two_ranges = refl

abbrev a_use : List (Use grow 48 pauses)
a_use = Use.polls (some (ok (message 0 3))) ∷ []

assigned_polls-IsGoodPoll_example : IsGoodPoll (use_input grow 48 pauses a_use assigned) (
    poll_with_timeout grow 48 pauses
      (some (ok (message 1 7)))
      (use_input grow 48 pauses a_use assigned))
assigned_polls-IsGoodPoll_example =
    assigned_polls-IsGoodPoll grow 48 pauses limits all_required true KafkaErrorPolicy.fail
      two_ranges assigned a_use (some (ok (message 1 7))) assign-two_ranges

-- A record behind the end of partition 0, and the end of file of partition 1.
abbrev endings : List (Option (Result KafkaFailure NativeMessage))
endings = some (ok (message 0 3)) ∷ (none ∷ (some (ok (message 0 4)) ∷ (some (ok (eof 1 9)) ∷ [])))

told :
    (k : ℕ) (s : PartitionState)
    → get k assigned.partitions ≡ some s
    → (s.done || any (tells_end assigned.exit_at_end k s.range) endings) ≡ true
unfolding get
told k s h = elim (Bool-cases (0 == k)) [
  | inl f ↦ ground arith
  | inr f ↦ elim (Bool-cases (1 == k)) [ inl g ↦ ground arith | inr g ↦ absurd (ground arith) ]
]

poll_all-ends_example :
    (poll_with_timeout grow 48 pauses none (poll_all grow 48 pauses endings assigned)).1
    ≡ ok all_done
poll_all-ends_example =
    poll_all-ends grow 48 pauses endings none assigned
      (assign-IsCounted grow 48 pauses limits all_required true KafkaErrorPolicy.fail two_ranges
        assigned assign-two_ranges)
      told
