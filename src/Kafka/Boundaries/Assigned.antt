-- ===== src/Kafka/Boundaries/Assigned.antt =====
-- `consumer_assignments` (src/kafka.rs) of ranges with boundaries that are resolved.
use jkq.Prelude.{
  leb, Bool-cases, is_some, length, All, Result, ok, map_err, Result-cases, ℕ, ◌+◌, ◌≡◌, refl, inl,
  inr, Bool, true, false, ◌&&◌, Option, none, some, List, [], ◌∷◌, arith, bind-ok,
}
use jkq.Kafka.Boundaries.Resolution.{is_offset}
use jkq.Int.{ℤ}
use jkq.Kafka.Shards.{Error, shard_fixed, shard_range, shard_ranges, consumer_assignments}
use jkq.Kafka.Boundaries.{
  expect, check_bounds, check_shardable, check_all_shardable, assignment_failed, Watermarks,
}
use jkq.Kafka.Boundaries.Expectations.{IsSafe}
use jkq.Map.{get}
use jkq.Kafka.Ranges.{PartitionRange, Offset}

-- An offset to start at, and an end.
abbrev pub IsFixed : PartitionRange → Type 0
IsFixed r = (is_offset r.start && is_some r.end_exclusive) ≡ true

check_bounds-IsFixed :
    (p : ℕ) (bounds : ℤ × ℤ) (start : Offset) (end : Option ℤ) (u : Unit {0})
    → check_bounds p bounds start end ≡ ok u
    → (is_offset start && is_some end) ≡ true
unfolding check_bounds
check_bounds-IsFixed p (low, high) (Offset.offset start) (some end) u h = refl
check_bounds-IsFixed p (low, high) (Offset.offset start) none u h = absurd (ground arith)
check_bounds-IsFixed p bounds Offset.beginning end u h = absurd (ground arith)
check_bounds-IsFixed p bounds Offset.end end u h = absurd (ground arith)
check_bounds-IsFixed p bounds Offset.invalid end u h = absurd (ground arith)
check_bounds-IsFixed p bounds (Offset.other n) end u h = absurd (ground arith)

-- Ranges that pass the check have boundaries.
pub check_all_shardable-IsFixed :
    (watermarks : Option Watermarks) (ranges : List PartitionRange) (u : Unit {0})
    → check_all_shardable watermarks ranges ≡ ok u
    → All IsFixed ranges
unfolding check_all_shardable check_shardable
check_all_shardable-IsFixed watermarks [] u h = tt
check_all_shardable-IsFixed watermarks (r ∷ ranges) u h =
    let (passed, (first, others)) = bind-ok (check_shardable watermarks r) _ u h in
    let (known, (e, f)) = bind-ok (expect watermarks) _ passed first in
    let (bounds, (g, i)) = bind-ok (expect (get r.partition known)) _ passed f in
    (
      check_bounds-IsFixed r.partition bounds r.start r.end_exclusive passed i,
      check_all_shardable-IsFixed watermarks ranges u others,
    )

-- The assignment does not fail for boundaries.
abbrev HasBoundaries : {A : Type 0} → Result Error A → Type 0
HasBoundaries r = IsSafe (map_err assignment_failed r)

shard_range-HasBoundaries :
    (consumers ranges limit index : ℕ) (r : PartitionRange)
    → IsFixed r
    → HasBoundaries (shard_range consumers ranges limit index r)
unfolding shard_range shard_fixed
shard_range-HasBoundaries consumers ranges limit index r h = ground arith

shard_ranges-HasBoundaries :
    (consumers ranges limit index : ℕ) (rs : List PartitionRange)
    → All IsFixed rs
    → HasBoundaries (shard_ranges consumers ranges limit index rs)
unfolding shard_ranges
shard_ranges-HasBoundaries consumers ranges limit index [] h = refl
shard_ranges-HasBoundaries consumers ranges limit index (r ∷ rs) (h, hs) =
    let first = shard_range-HasBoundaries consumers ranges limit index r h in
    let others = shard_ranges-HasBoundaries consumers ranges limit (index + 1) rs hs in
    elim (Result-cases (shard_range consumers ranges limit index r)) [
      | inl (e, f) ↦ ground arith
      | inr (cs, f) ↦ elim (Result-cases (shard_ranges consumers ranges limit (index + 1) rs)) [
        | inl (e, g) ↦ ground arith
        | inr (rest, g) ↦ ground arith
      ]
    ]

-- Ranges have boundaries where they are sharded.
pub consumer_assignments-HasBoundaries :
    (ranges : List PartitionRange) (consumers limit : ℕ) (range_sharding : Bool)
    → (range_sharding ≡ true → All IsFixed ranges)
    → HasBoundaries (consumer_assignments ranges consumers range_sharding limit)
unfolding consumer_assignments
consumer_assignments-HasBoundaries ranges consumers limit false h = refl
consumer_assignments-HasBoundaries ranges consumers limit true h =
    let sharded = shard_ranges-HasBoundaries consumers (length ranges) limit 0 ranges (h refl) in
    elim (Bool-cases (leb consumers (length ranges))) [ inl f ↦ rw f refl | inr f ↦ rw f sharded ]
