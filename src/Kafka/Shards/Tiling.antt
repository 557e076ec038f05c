-- ===== src/Kafka/Shards/Tiling.antt =====
-- The shards of a range hold each of its offsets once (src/kafka.rs).
use jkq.Prelude.{
  ltb, ◌==◌, if◌then◌else◌, Bool-cases, All, sum_by-append, ok, i64_max, ℕ, zero, suc, ◌+◌, ◌-◌,
  ◌*◌, ◌/◌, ◌%◌, ◌≤◌, ◌<◌, max, ◌≡◌, refl, ◌∙◌, inl, inr, Bool, ◌&&◌, some, List, [], ◌∷◌, ◌++◌,
  arith,
}
use native.Mathlib.Nat.{div-add-mod, mod-lt}
use jkq.Int.{ℤ, pos, ◌+ℤ◌, ◌-ℤ◌, saturating_sub, ltb_ℤ, leb_ℤ}
use jkq.Kafka.Ranges.{offset, PartitionRange, ConsumerAssignment, contains, readers, all_readers}
use jkq.Kafka.Shards.{width_of, shard_count, shard_loop, shard_ranges, shard_fixed, shard_range}

abbrev pub one_if : Bool → ℕ
one_if b = if b then 1 else 0

-- The shards from `next` on hold what lies between `next` and the once.
shard_loop-readers :
    (rounds p partition w d b allowance shard n : ℕ) (k : ℤ)
    → 0 < w
    → w % d ≤ shard + rounds
    → n + rounds * (w / d) + (w % d - shard) ≡ b
    → all_readers p k (shard_loop rounds partition w d (pos b) allowance shard (pos n))
      ≡ one_if (partition == p && leb_ℤ (pos n) k && ltb_ℤ k (pos b))
unfolding shard_loop ◌+ℤ◌
shard_loop-readers zero p partition w d b allowance shard n k h m e = ground arith
shard_loop-readers (suc rounds) p partition w d b allowance shard n k h m e =
    let extra : ℕ = if ltb shard (w % d) then 1 else 0 in
    ground (
      arith,
      shard_loop-readers rounds p partition w d b allowance (shard + 1) (n + (w / d + extra)) k h,
    )

-- Both ends are known offsets, which Kafka counts from zero.
pub record IsResolved (r : PartitionRange) : Type 0 where
  pub from : ℕ
  pub until : ℕ
  pub start_is : r.start ≡ offset (pos from)
  pub end_is : r.end_exclusive ≡ some (pos until)
  pub until_fits : until ≤ i64_max

width_of_lem : (a b : ℕ) → b ≤ i64_max → width_of (pos a) (pos b) ≡ b - a
unfolding width_of saturating_sub ◌-ℤ◌
width_of_lem a b h = ground arith

pub one-le-div : (c n : ℕ) → 0 < n → n ≤ c → 1 ≤ c / n
one-le-div c n p h = grind arith

-- There is at least one shard, and no more than offsets.
pub shard_count_bounds :
    (consumers ranges limit width index : ℕ)
    → 0 < ranges
    → ranges ≤ consumers
    → 0 < limit
    → (1 ≤ shard_count consumers ranges limit width index)
      × (shard_count consumers ranges limit width index ≤ max width 1)
      × (shard_count consumers ranges limit width index ≤ limit)
unfolding shard_count
shard_count_bounds consumers ranges limit width index p h l =
    ground (arith, one-le-div consumers ranges p h)

loop-readers :
    (p partition a b d allowance : ℕ) (k : ℤ)
    → 0 < d
    → d ≤ max (b - a) 1
    → all_readers p k (shard_loop d partition (b - a) d (pos b) allowance 0 (pos a))
      ≡ one_if (partition == p && leb_ℤ (pos a) k && ltb_ℤ k (pos b))
loop-readers p partition a b d allowance k h m = elim (Bool-cases (b - a == 0)) [
  | inl e ↦ let one : d ≡ 1 = ground arith in rw one (unfold shard_loop in ground (arith, e))
  | inr e ↦
      shard_loop-readers d p partition (b - a) d b allowance 0 a k (ground arith)
        (omega (arith, mod-lt (b - a) h))
        (let whole = div-add-mod (b - a) d in grind (arith, whole))
]

readers_one :
    (p : ℕ) (k : ℤ) (r : PartitionRange) (v : IsResolved r)
    → one_if (r.partition == p && leb_ℤ (pos v.from) k && ltb_ℤ k (pos v.until))
      ≡ one_if (contains p k r)
readers_one p k r v = rw (v.start_is, v.end_is) refl

-- The shards of a resolved range.
abbrev pub shards_of : ℕ → ℕ → ℕ → ℕ → (r : PartitionRange) → IsResolved r → List ConsumerAssignment
shards_of consumers ranges limit index r v =
    let width = v.until - v.from in
    let count = shard_count consumers ranges limit width index in
    shard_loop count r.partition width count (pos v.until) (limit / count) 0 (pos v.from)

module _ (consumers ranges limit : ℕ) (some_ranges : 0 < ranges) (enough : ranges ≤ consumers)
    (some_limit : 0 < limit) where
  pub shard_range_lem :
      (index : ℕ) (r : PartitionRange) (v : IsResolved r)
      → shard_range consumers ranges limit index r ≡ ok (shards_of consumers ranges limit index r v)
  unfolding shard_range shard_fixed
  shard_range_lem index r v = ground (
    arith,
    v.start_is,
    v.end_is,
    width_of_lem v.from v.until v.until_fits,
    shard_count_bounds consumers ranges limit (v.until - v.from) index some_ranges enough
        some_limit,
    v.until_fits,
  )

  shards_of-readers :
      (index p : ℕ) (k : ℤ) (r : PartitionRange) (v : IsResolved r)
      → all_readers p k (shards_of consumers ranges limit index r v) ≡ one_if (contains p k r)
  shards_of-readers index p k r v =
      let count = shard_count consumers ranges limit (v.until - v.from) index in
      let bounds =
        shard_count_bounds consumers ranges limit (v.until - v.from) index some_ranges enough
          some_limit in
      loop-readers p r.partition v.from v.until count (limit / count) k bounds.0 bounds.1
      ∙ readers_one p k r v

  -- The assignments of all ranges.
  pub shard_all : (rs : List PartitionRange) → All IsResolved rs → ℕ → List ConsumerAssignment
  shard_all [] v index = []
  shard_all (r ∷ rs) v index =
      shards_of consumers ranges limit index r v.0 ++ shard_all rs v.1 (index + 1)

  pub shard_ranges_lem :
      (rs : List PartitionRange) (v : All IsResolved rs) (index : ℕ)
      → shard_ranges consumers ranges limit index rs ≡ ok (shard_all rs v index)
  unfolding shard_ranges shard_all
  shard_ranges_lem [] v index = refl
  shard_ranges_lem (r ∷ rs) v index =
      rw (shard_range_lem index r v.0, shard_ranges_lem rs v.1 (index + 1))

  pub shard_all-readers :
      (p : ℕ) (k : ℤ) (rs : List PartitionRange) (v : All IsResolved rs) (index : ℕ)
      → all_readers p k (shard_all rs v index) ≡ readers p k rs
  unfolding shard_all
  shard_all-readers p k [] v index = refl
  shard_all-readers p k (r ∷ rs) v index = omega (
    arith,
    sum_by-append (λ a. readers p k a.ranges) (shards_of consumers ranges limit index r v.0)
        (shard_all rs v.1 (index + 1)),
    shards_of-readers index p k r v.0,
    shard_all-readers p k rs v.1 (index + 1),
  )
