-- ===== src/Kafka/Ranges.antt =====
-- `PartitionRange` and `ConsumerAssignment` of src/kafka.rs. Of rdkafka's `Offset` the source
-- names four variants; `other` stands for the rest.
use jkq.Prelude.{◌==◌, if◌then◌else◌, sum_by, ℕ, Bool, true, ◌&&◌, Option, none, some, List}
use jkq.Int.{ℤ, leb_ℤ, ltb_ℤ}

pub data Offset : Type 0 where
  beginning : Offset
  end : Offset
  invalid : Offset
  offset : ℤ → Offset
  other : ℕ → Offset

pub record PartitionRange : Type 0 where
  pub partition : ℕ
  pub start : Offset
  pub end_exclusive : Option ℤ

pub record ConsumerAssignment : Type 0 where
  pub ranges : List PartitionRange
  pub max_inflight_per_partition : ℕ

abbrev pub reached_start : Offset → ℤ → Bool
reached_start (offset s) k = leb_ℤ s k
reached_start _ k = true

abbrev pub before_end : Option ℤ → ℤ → Bool
before_end none k = true
before_end (some e) k = ltb_ℤ k e

-- The record at offset `k` of partition `p` lies in the range.
abbrev pub contains : ℕ → ℤ → PartitionRange → Bool
contains p k r = r.partition == p && reached_start r.start k && before_end r.end_exclusive k

abbrev pub readers : ℕ → ℤ → List PartitionRange → ℕ
readers p k = sum_by (λ r. if contains p k r then 1 else 0)

-- How many of the assigned ranges hold the record.
abbrev pub all_readers : ℕ → ℤ → List ConsumerAssignment → ℕ
all_readers p k = sum_by (λ a. readers p k a.ranges)
