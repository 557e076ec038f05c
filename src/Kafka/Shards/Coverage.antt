-- ===== src/Kafka/Shards/Coverage.antt =====
-- Every record is read by as many consumers as ranges hold it (src/kafka.rs).
use jkq.Prelude.{
  leb, if◌then◌else◌, Bool-cases, length, sum_by, All, sum_by-append, Result, ok, ℕ, zero, suc, ◌+◌,
  ◌%◌, ◌≤◌, ◌<◌, min, ◌≡◌, refl, ap, inl, inr, Bool, true, not, ◌||◌, List, [], ◌∷◌, arith,
}
use jkq.Kafka.Shards.Tiling.{IsResolved, shard_all, shard_all-readers, shard_ranges_lem}
use native.Mathlib.Nat.{mod-lt}
use jkq.Int.{ℤ}
use jkq.Kafka.Ranges.{PartitionRange, ConsumerAssignment, contains, readers, all_readers}
use jkq.Kafka.Shards.{
  Error, empty_assignments, push_range, deal, shard_ranges, consumer_assignments,
}

length-push_range :
    (i : ℕ) (r : PartitionRange) (cs : List ConsumerAssignment)
    → length (push_range i r cs) ≡ length cs
unfolding push_range
length-push_range i r [] = refl
length-push_range zero r (a ∷ cs) = refl
length-push_range (suc i) r (a ∷ cs) = ap suc (length-push_range i r cs)

-- Dealt ranges keep any measure.
module _ (f : PartitionRange → ℕ) where
  abbrev held : ConsumerAssignment → ℕ
  held a = sum_by f a.ranges

  sum_by-push_range :
      (i : ℕ) (r : PartitionRange) (cs : List ConsumerAssignment)
      → i < length cs
      → sum_by held (push_range i r cs) ≡ sum_by held cs + f r
  unfolding push_range
  sum_by-push_range i r [] h = elim h [ ]
  sum_by-push_range zero r (a ∷ cs) h = omega (arith, sum_by-append f a.ranges (r ∷ []))
  sum_by-push_range (suc i) r (a ∷ cs) h = omega (arith, sum_by-push_range i r cs)

  sum_by-deal :
      (rs : List PartitionRange) (index : ℕ) (cs : List ConsumerAssignment)
      → 0 < length cs
      → sum_by held (deal index rs cs) ≡ sum_by held cs + sum_by f rs
  unfolding deal
  sum_by-deal [] index cs h = omega arith
  sum_by-deal (r ∷ rs) index cs h =
      let i = index % length cs in
      omega (
        arith,
        sum_by-deal rs (index + 1) (push_range i r cs) (rw (length-push_range i r cs) h),
        sum_by-push_range i r cs (mod-lt index h),
      )

  sum_by-empty : (limit n : ℕ) → sum_by held (empty_assignments limit n) ≡ 0
  sum_by-empty limit zero = refl
  sum_by-empty limit (suc n) = omega (arith, sum_by-empty limit n)

length-empty : (limit n : ℕ) → length (empty_assignments limit n) ≡ n
length-empty limit zero = refl
length-empty limit (suc n) = ap suc (length-empty limit n)

dealt-readers :
    (p : ℕ) (k : ℤ) (ranges : List PartitionRange) (consumers limit : ℕ)
    → 0 < consumers
    → all_readers p k (deal 0 ranges (empty_assignments limit (min consumers (length ranges))))
      ≡ readers p k ranges
unfolding deal
dealt-readers p k [] consumers limit c =
    sum_by-empty (λ r. if contains p k r then 1 else 0) limit (min consumers 0)
dealt-readers p k (r ∷ rs) consumers limit c =
    let f : PartitionRange → ℕ = λ r. if contains p k r then 1 else 0 in
    let n = min consumers (length (r ∷ rs)) in
    omega (
      arith,
      sum_by-deal f (r ∷ rs) 0 (empty_assignments limit n)
          (rw (length-empty limit n) (omega arith)),
      sum_by-empty f limit n,
    )

-- The outcome that is promised for the ranges.
abbrev pub Covers : List PartitionRange → Result Error (List ConsumerAssignment) → Type 0
Covers ranges result =
    (assignments : List ConsumerAssignment) × (result ≡ ok assignments)
    × ((p : ℕ) (k : ℤ) → all_readers p k assignments ≡ readers p k ranges)

sharded-Covers :
    (ranges : List PartitionRange) (consumers limit : ℕ)
    → length ranges ≤ consumers
    → 0 < limit
    → All IsResolved ranges
    → Covers ranges (shard_ranges consumers (length ranges) limit 0 ranges)
sharded-Covers [] consumers limit h l v = ([], unfold shard_ranges in refl, λ p k. refl)
sharded-Covers (r ∷ rs) consumers limit h l v =
    let n = length (r ∷ rs) in
    (
      shard_all consumers n limit (omega arith) h l (r ∷ rs) v 0,
      shard_ranges_lem consumers n limit (omega arith) h l (r ∷ rs) v 0,
      λ p k. shard_all-readers consumers n limit (omega arith) h l p k (r ∷ rs) v 0,
    )

-- With at least one consumer and a positive limit, and with known boundaries of every range where
-- ranges are sharded, the assignment succeeds, and every offset of every partition is held by as
-- many assigned ranges as original ranges: shards leave no gap and do not overlap.
pub consumer_assignments-Covers :
    (ranges : List PartitionRange) (consumers limit : ℕ) (range_sharding : Bool)
    → 0 < consumers
    → 0 < limit
    → (range_sharding ≡ true → All IsResolved ranges)
    → Covers ranges (consumer_assignments ranges consumers range_sharding limit)
unfolding consumer_assignments
consumer_assignments-Covers ranges consumers limit range_sharding c l v =
    elim (Bool-cases (not range_sharding || leb consumers (length ranges))) [
      | inl t ↦ rw t (
        deal 0 ranges (empty_assignments limit (min consumers (length ranges))),
        refl,
        λ p k. dealt-readers p k ranges consumers limit c,
      )
      | inr t ↦
          rw t (sharded-Covers ranges consumers limit (ground (arith, t)) l (v (ground (arith, t))))
    ]
