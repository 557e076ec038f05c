-- ===== src/Kafka/Shards.antt =====
-- `consumer_assignments` of src/kafka.rs. A shard's end is `i64` addition, which stays below the
-- end of the range that it divides.
pub mod Tiling
pub mod Coverage
pub mod Allowance
use jkq.Prelude.{
  ltb, leb, ◌==◌, if◌then◌else◌, length, Result, ok, err, ◌>>=◌, ◌>>◌, fail_if, i64_max, ℕ, zero,
  suc, ◌+◌, ◌/◌, ◌%◌, min, max, Bool, not, ◌||◌, Option, none, some, List, [], ◌∷◌, ◌++◌,
}
use jkq.Int.{ℤ, pos, negsuc, ◌+ℤ◌, saturating_sub}
use jkq.Kafka.Ranges.{offset, PartitionRange, ConsumerAssignment}

pub data Error : Type 0 where
  unresolved_boundaries shard_count_exceeds_i64 : Error

abbrev pub empty_assignments : ℕ → ℕ → List ConsumerAssignment
empty_assignments limit zero = []
empty_assignments limit (suc n) =
    record { ranges = []; max_inflight_per_partition = limit } ∷ empty_assignments limit n

-- `assignments[i].ranges.push(r)`.
unfoldable pub push_range : ℕ → PartitionRange → List ConsumerAssignment → List ConsumerAssignment
push_range i r [] = []
push_range zero r (a ∷ cs) = record a { ranges = a.ranges ++ r ∷ [] } ∷ cs
push_range (suc i) r (a ∷ cs) = a ∷ push_range i r cs

unfoldable pub deal : ℕ → List PartitionRange → List ConsumerAssignment → List ConsumerAssignment
unfolding push_range
deal index [] cs = cs
deal index (r ∷ rs) cs = deal (index + 1) rs (push_range (index % length cs) r cs)

-- `end.saturating_sub(start).max(0)`.
unfoldable pub width_of : ℤ → ℤ → ℕ
width_of start end = elim (saturating_sub end start) [ pos w ↦ w | negsuc n ↦ 0 ]

-- The loop over the shards of one range, by the rounds that are left.
unfoldable pub shard_loop : ℕ → ℕ → ℕ → ℕ → ℤ → ℕ → ℕ → ℤ → List ConsumerAssignment
shard_loop zero partition width divisor end allowance shard next = []
shard_loop (suc rounds) partition width divisor end allowance shard next =
    let extra : ℕ = if ltb shard (width % divisor) then 1 else 0 in
    let shard_end = if width == 0 then end else next +ℤ pos (width / divisor + extra) in
    record {
      ranges =
          record { partition = partition; start = offset next; end_exclusive = some shard_end }
          ∷ [];
      max_inflight_per_partition = allowance;
    }
    ∷ shard_loop rounds partition width divisor end allowance (shard + 1) shard_end

unfoldable pub shard_count : ℕ → ℕ → ℕ → ℕ → ℕ → ℕ
shard_count consumers ranges limit width index =
    let requested = consumers / ranges + (if ltb index (consumers % ranges) then 1 else 0) in
    min (min requested (max width 1)) limit

unfoldable pub shard_fixed :
    ℕ → ℕ → ℕ → ℕ → ℕ → ℤ → Option ℤ → Result Error (List ConsumerAssignment)
unfolding width_of shard_count shard_loop
shard_fixed consumers ranges limit index partition start none = err unresolved_boundaries
shard_fixed consumers ranges limit index partition start (some end) = do
  let width = width_of start end
  let count = shard_count consumers ranges limit width index
  fail_if (ltb i64_max count) shard_count_exceeds_i64
  ok (shard_loop count partition width count end (limit / count) 0 start)

unfoldable pub shard_range : ℕ → ℕ → ℕ → ℕ → PartitionRange → Result Error (List ConsumerAssignment)
unfolding shard_fixed
shard_range consumers ranges limit index r = elim r.start [
  | offset start ↦ shard_fixed consumers ranges limit index r.partition start r.end_exclusive
  | _ ↦ err unresolved_boundaries
]

unfoldable pub shard_ranges :
    ℕ → ℕ → ℕ → ℕ → List PartitionRange → Result Error (List ConsumerAssignment)
unfolding shard_range
shard_ranges consumers ranges limit index [] = ok []
shard_ranges consumers ranges limit index (r ∷ rs) = do
  cs ← shard_range consumers ranges limit index r
  rest ← shard_ranges consumers ranges limit (index + 1) rs
  ok (cs ++ rest)

unfoldable pub consumer_assignments :
    List PartitionRange → ℕ → Bool → ℕ → Result Error (List ConsumerAssignment)
unfolding deal shard_ranges
consumer_assignments ranges consumers range_sharding limit =
    if not range_sharding || leb consumers (length ranges)
    then ok (deal 0 ranges (empty_assignments limit (min consumers (length ranges))))
    else shard_ranges consumers (length ranges) limit 0 ranges
