-- ===== src/Kafka/Tests.antt =====
-- Assignments and payload buffers of src/kafka.rs at concrete inputs.
use jkq.Prelude.{
  length, sum_by, All, ok, i64_max, ℕ, ◌*◌, ◌/◌, ◌≤◌, ◌<◌, max, ◌≡◌, refl, true, some, List, [],
  ◌∷◌, arith,
}
use jkq.Int.{pos, saturating_sub, ◌+ℤ◌, ◌-ℤ◌}
use jkq.Records.{RuntimeLimits}
use jkq.Kafka.Ranges.{offset, PartitionRange, ConsumerAssignment}
use jkq.Kafka.Shards.{consumer_assignments, shard_range}
use jkq.Kafka.Shards.Tiling.{IsResolved}
use jkq.Kafka.Shards.Coverage.{Covers, consumer_assignments-Covers}
use jkq.Kafka.Shards.Allowance.{IsShard, shard_range_even}
use jkq.Kafka.Buffers.{new}
use jkq.Kafka.Buffers.Budget.{IsWithinBudget, Use, copies, recycles, run, run-new-IsWithinBudget}

abbrev range : ℕ → ℕ → ℕ → PartitionRange
range p a b = record { partition = p; start = offset (pos a); end_exclusive = some (pos b) }

abbrev two_ranges : List PartitionRange
two_ranges = range 0 5 15 ∷ range 1 7 7 ∷ []

abbrev resolved : (p a b : ℕ) → b ≤ i64_max → IsResolved (range p a b)
resolved p a b h = record { from = a; until = b; start_is = refl; end_is = refl; until_fits = h }

two_ranges-IsResolved : All IsResolved two_ranges
two_ranges-IsResolved = (resolved 0 5 15 (omega arith), (resolved 1 7 7 (omega arith), tt))

-- Five consumers for two ranges: three shards of the ten offsets, one of the empty range.
divides :
    consumer_assignments two_ranges 5 true 8
    ≡ ok (
        record { ranges = range 0 5 9 ∷ []; max_inflight_per_partition = 2 }
        ∷ record { ranges = range 0 9 12 ∷ []; max_inflight_per_partition = 2 }
        ∷ record { ranges = range 0 12 15 ∷ []; max_inflight_per_partition = 2 }
        ∷ record { ranges = range 1 7 7 ∷ []; max_inflight_per_partition = 8 }
        ∷ [])
unfolding consumer_assignments ◌+ℤ◌ ◌-ℤ◌ saturating_sub
divides = refl

consumer_assignments-Covers_example : Covers two_ranges (consumer_assignments two_ranges 5 true 8)
consumer_assignments-Covers_example =
    consumer_assignments-Covers two_ranges 5 8 true (omega arith) (omega arith)
      (λ e. two_ranges-IsResolved)

shard_range_even_example :
    (shards : List ConsumerAssignment) × (shard_range 5 2 8 0 (range 0 5 15) ≡ ok shards)
    × (sum_by (λ a. a.max_inflight_per_partition) shards ≤ 8)
    × All (λ a. 0 < a.max_inflight_per_partition) shards
    × (1 ≤ 10 / length shards)
    × All (IsShard 0 (10 / length shards) (8 / length shards)) shards
shard_range_even_example =
    shard_range_even 5 2 8 0 (range 0 5 15) (omega arith) (omega arith) (omega arith)
      (resolved 0 5 15 (omega arith)) (omega arith)

abbrev doubling : ℕ → ℕ → ℕ
doubling capacity needed = max (2 * capacity) needed

abbrev limits : RuntimeLimits
limits = record {
  max_inflight_records = 4;
  max_inflight_bytes = 16;
  max_inflight_per_partition = 4;
}

abbrev uses : List Use
uses =
    copies (1 ∷ 2 ∷ [])
    ∷ recycles (record { bytes = 1 ∷ 2 ∷ []; capacity = 8 })
    ∷ copies (3 ∷ [])
    ∷ []

run-new-IsWithinBudget_example :
    IsWithinBudget (run doubling (new limits) uses).0
    × ((run doubling (new limits) uses).1 ≡ (1 ∷ 2 ∷ []) ∷ (3 ∷ []) ∷ [])
run-new-IsWithinBudget_example = run-new-IsWithinBudget doubling limits uses
