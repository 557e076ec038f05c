-- ===== src/Kafka/Shards/Allowance.antt =====
-- How `consumer_assignments` of src/kafka.rs divides the work of one range, and what may be in
-- flight: the shards are as long as one another to within one offset, none is empty unless the
-- range is, and their allowances stay within the partition's.
use jkq.Prelude.{
  ltb, ◌==◌, if◌then◌else◌, length, sum_by, All, ok, ℕ, zero, suc, ◌+◌, ◌-◌, ◌*◌, ◌/◌, ◌%◌, ◌≤◌,
  ◌<◌, ◌≡◌, refl, sym, ap, subst, some, List, [], ◌∷◌, arith,
}
use jkq.Int.{ℤ, pos, ◌+ℤ◌}
use jkq.Kafka.Ranges.{PartitionRange, ConsumerAssignment, offset}
use jkq.Kafka.Shards.{shard_loop, shard_count, shard_range}
use jkq.Kafka.Shards.Tiling.{IsResolved, shards_of, shard_count_bounds, one-le-div, shard_range_lem}

-- A single range of `partition` with `n` or one more offset.
pub record IsShard (partition n allowance : ℕ) (a : ConsumerAssignment) : Type 0 where
  pub from : ℕ
  pub size : ℕ
  pub ranges_are :
      a.ranges
      ≡ record {
        partition = partition;
        start = offset (pos from);
        end_exclusive = some (pos (from + size));
      }
        ∷ []
  pub at_least : n ≤ size
  pub at_most : size ≤ n + 1
  pub allowance_is : a.max_inflight_per_partition ≡ allowance

shard_end_lem :
    (w n x : ℕ) (end : ℤ) → 0 < w → (if w == 0 then end else pos n +ℤ pos x) ≡ pos (n + x)
unfolding ◌+ℤ◌
shard_end_lem w n x end h = ground arith

shard_loop-IsShard :
    (rounds partition w d allowance shard n : ℕ) (end : ℤ)
    → 0 < w
    → All
        (IsShard partition (w / d) allowance)
        (shard_loop rounds partition w d end allowance shard (pos n))
unfolding shard_loop
shard_loop-IsShard zero partition w d allowance shard n end h = tt
shard_loop-IsShard (suc rounds) partition w d allowance shard n end h =
    let extra : ℕ = if ltb shard (w % d) then 1 else 0 in
    let rest =
      shard_loop-IsShard rounds partition w d allowance (shard + 1) (n + (w / d + extra)) end h in
    rw (shard_end_lem w n (w / d + extra) end h) (
      record {
        from = n;
        size = w / d + extra;
        ranges_are = refl;
        at_least = omega arith;
        at_most = ground arith;
        allowance_is = refl;
      },
      rest,
    )

length-shard_loop :
    (rounds partition w d allowance shard : ℕ) (end next : ℤ)
    → length (shard_loop rounds partition w d end allowance shard next) ≡ rounds
unfolding shard_loop
length-shard_loop zero partition w d allowance shard end next = refl
length-shard_loop (suc rounds) partition w d allowance shard end next =
    ap suc (length-shard_loop rounds partition w d allowance (shard + 1) end _)

shard_loop-allowances :
    (rounds partition w d allowance shard : ℕ) (end next : ℤ)
    → sum_by
        (λ a. a.max_inflight_per_partition)
        (shard_loop rounds partition w d end allowance shard next)
      ≡ rounds * allowance
unfolding shard_loop
shard_loop-allowances zero partition w d allowance shard end next = omega arith
shard_loop-allowances (suc rounds) partition w d allowance shard end next =
    omega (arith, shard_loop-allowances rounds partition w d allowance (shard + 1) end _)

shard_loop_positive :
    (rounds partition w d allowance shard : ℕ) (end next : ℤ)
    → 0 < allowance
    → All
        (λ a. 0 < a.max_inflight_per_partition)
        (shard_loop rounds partition w d end allowance shard next)
unfolding shard_loop
shard_loop_positive zero partition w d allowance shard end next h = tt
shard_loop_positive (suc rounds) partition w d allowance shard end next h =
    (h, shard_loop_positive rounds partition w d allowance (shard + 1) end _ h)

mul-div-le : (n d : ℕ) → d * (n / d) ≤ n
mul-div-le n d = grind arith

shards_of-allowances :
    (consumers ranges limit index : ℕ) (r : PartitionRange) (v : IsResolved r)
    → 0 < ranges
    → ranges ≤ consumers
    → 0 < limit
    → (sum_by (λ a. a.max_inflight_per_partition) (shards_of consumers ranges limit index r v)
        ≤ limit)
      × All (λ a. 0 < a.max_inflight_per_partition) (shards_of consumers ranges limit index r v)
shards_of-allowances consumers ranges limit index r v z h l =
    let width = v.until - v.from in
    let count = shard_count consumers ranges limit width index in
    let bounds = shard_count_bounds consumers ranges limit width index z h l in
    (
      subst (λ n. n ≤ limit)
          (sym (
            shard_loop-allowances count r.partition width count (limit / count) 0 (pos v.until)
              (pos v.from)))
          (mul-div-le limit count),
      shard_loop_positive count r.partition width count (limit / count) 0 (pos v.until) (pos v.from)
          (one-le-div limit count bounds.0 bounds.2),
    )

shards_of_even :
    (consumers ranges limit index : ℕ) (r : PartitionRange) (v : IsResolved r)
    → 0 < ranges
    → ranges ≤ consumers
    → 0 < limit
    → v.from < v.until
    → let count = length (shards_of consumers ranges limit index r v) in
      (0 < count)
      × (1 ≤ (v.until - v.from) / count)
      × All
          (IsShard r.partition ((v.until - v.from) / count) (limit / count))
          (shards_of consumers ranges limit index r v)
shards_of_even consumers ranges limit index r v z h l some_offsets =
    let width = v.until - v.from in
    let count = shard_count consumers ranges limit width index in
    let bounds = shard_count_bounds consumers ranges limit width index z h l in
    rw
      (length-shard_loop count r.partition width count (limit / count) 0 (pos v.until) (pos v.from))
      (
        bounds.0,
        one-le-div width count bounds.0 (omega (arith, bounds.1)),
        shard_loop-IsShard count r.partition width count (limit / count) 0 v.from (pos v.until)
            (omega arith),
      )

-- A range with known boundaries and at least one offset, sharded among at least as many consumers
-- as ranges with a positive in-flight limit, gives shards whose limits are positive and sum to at
-- most the partition's; each shard is one range of that partition, from the quotient of the
-- offsets by the shards up to one more offset long, and so is not empty.
pub shard_range_even :
    (consumers ranges limit index : ℕ) (r : PartitionRange)
    → 0 < ranges
    → ranges ≤ consumers
    → 0 < limit
    → (v : IsResolved r) → v.from < v.until
    → (shards : List ConsumerAssignment) × (shard_range consumers ranges limit index r ≡ ok shards)
      × (sum_by (λ a. a.max_inflight_per_partition) shards ≤ limit)
      × All (λ a. 0 < a.max_inflight_per_partition) shards
      × (1 ≤ (v.until - v.from) / length shards)
      × All
          (IsShard r.partition ((v.until - v.from) / length shards) (limit / length shards))
          shards
shard_range_even consumers ranges limit index r z h l v some_offsets =
    let (within, positive) = shards_of-allowances consumers ranges limit index r v z h l in
    let (_, sizable, even) = shards_of_even consumers ranges limit index r v z h l some_offsets in
    (
      shards_of consumers ranges limit index r v,
      shard_range_lem consumers ranges limit z h l index r v,
      within,
      positive,
      sizable,
      even,
    )
