-- ===== src/Kafka/BoundaryTests.antt =====
-- Runs of `prepare` (src/kafka.rs) over the answers of a small broker.
use jkq.Prelude.{
  ◌==◌, if◌then◌else◌, Bytes, Result, ok, err, ℕ, ◌+◌, ◌≡◌, refl, true, false, none, some, [], ◌∷◌,
  codes,
}
use jkq.Kafka.Boundaries.Expectations.{IsSafe}
use jkq.Kafka.Boundaries.Prepared.{prepare-IsSafe}
use jkq.Int.{ℤ, pos}
use jkq.Kafka.Ranges.{Offset}
use jkq.Kafka.Boundaries.{prepare, prepare_ranges, outside_watermarks, watermarks_failed}
use jkq.Cli.{StartPosition, EndPosition}

-- Partition 2 does not answer.
abbrev broker_watermarks : ℕ → Result Bytes (ℤ × ℤ)
broker_watermarks p = if p == 2 then err (codes "timed out") else ok (pos 3, pos (10 + p))

abbrev broker_times : ℤ → Result Bytes (ℕ → Result Bytes Offset)
broker_times time = ok (λ p. ok (if p == 0 then Offset.offset time else Offset.end))

starts_at_timestamp :
    prepare_ranges broker_watermarks broker_times
      (StartPosition.timestamp_millis (pos 5))
      (some EndPosition.snapshot)
      true
      (0 ∷ 1 ∷ [])
    ≡ ok (
        record { partition = 0; start = Offset.offset (pos 5); end_exclusive = some (pos 10) }
        ∷ record { partition = 1; start = Offset.offset (pos 11); end_exclusive = some (pos 11) }
        ∷ [])
unfolding prepare_ranges
starts_at_timestamp = refl

starts_before_end :
    prepare_ranges broker_watermarks broker_times
      (StartPosition.relative_to_end 4)
      none
      false
      (0 ∷ 1 ∷ [])
    ≡ ok (
        record { partition = 0; start = Offset.offset (pos 6); end_exclusive = none }
        ∷ record { partition = 1; start = Offset.offset (pos 7); end_exclusive = none }
        ∷ [])
unfolding prepare_ranges
starts_before_end = refl

ends_past_high :
    prepare broker_watermarks broker_times
      (StartPosition.absolute (pos 4))
      (some (EndPosition.exclusive_offset (pos 11)))
      true
      2
      4
      (0 ∷ 1 ∷ [])
    ≡ err (outside_watermarks 0)
unfolding prepare
ends_past_high = refl

has_no_watermarks :
    prepare broker_watermarks broker_times StartPosition.at_end none false 2 4 (0 ∷ 2 ∷ [])
    ≡ err (watermarks_failed 2 (codes "timed out"))
unfolding prepare
has_no_watermarks = refl

prepare-IsSafe_example : IsSafe (
    prepare broker_watermarks broker_times
      (StartPosition.timestamp_millis (pos 5))
      (some EndPosition.snapshot)
      true
      2
      4
      (0 ∷ 1 ∷ []))
prepare-IsSafe_example =
    prepare-IsSafe broker_watermarks broker_times (StartPosition.timestamp_millis (pos 5))
      (some EndPosition.snapshot) true 2 4 (0 ∷ 1 ∷ []) refl
