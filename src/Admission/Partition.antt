-- ===== src/Admission/Partition.antt =====
-- `Admission` of src/runtime/state.rs: the records in flight of each partition, and the next
-- sequence number. `get_mut` is a read followed by a write to the same key.
pub mod Accounting
pub mod History
use jkq.Prelude.{
  ltb, ◌==◌, Result, ok, ◌>>=◌, ◌>>◌, fail_if, ok_or, checked_add, ℕ, ◌+◌, ◌-◌, Bool, false, not,
  ◌||◌, Option, none, some, List, [], ◌∷◌,
}
use jkq.Map.{get, update, insert}

pub record PartitionAdmission : Type 0 where
  pub next_sequence : ℕ
  pub in_flight : ℕ

pub record Admission : Type 0 where
  pub total_records : ℕ
  pub partitions : List (ℕ × PartitionAdmission)
  pub max_inflight_per_partition : ℕ

pub data Error : Type 0 where
  no_capacity : Error
  unknown_partition sequence_overflow unknown_release invalid_release : ℕ → Error

-- `collect` of the pairs into the map: a partition listed twice is written twice.
fresh : List ℕ → List (ℕ × PartitionAdmission) → List (ℕ × PartitionAdmission)
fresh [] m = m
fresh (p ∷ ps) m = fresh ps (insert p (record { next_sequence = 0; in_flight = 0 }) m)

unfoldable pub new : List ℕ → ℕ → Admission
unfolding fresh
new partitions limit = record {
  total_records = 0;
  partitions = fresh partitions [];
  max_inflight_per_partition = limit;
}

below_limit : ℕ → Option PartitionAdmission → Bool
below_limit limit none = false
below_limit limit (some state) = ltb state.in_flight limit

unfoldable pub can_reserve : Admission → ℕ → Bool
unfolding below_limit
can_reserve a p = below_limit a.max_inflight_per_partition (get p a.partitions)

unfoldable pub reserve : Admission → ℕ → Result Error (Admission × ℕ)
unfolding can_reserve
reserve a p = do
  fail_if (not (can_reserve a p)) no_capacity
  state ← ok_or (get p a.partitions) (unknown_partition p)
  next ← ok_or (checked_add state.next_sequence 1) (sequence_overflow p)
  let state' = record state { next_sequence = next; in_flight = state.in_flight + 1 }
  ok (
    record a { total_records = a.total_records + 1; partitions = update p state' a.partitions },
    state.next_sequence,
  )

unfoldable pub release : Admission → ℕ → Result Error Admission
release a p = do
  state ← ok_or (get p a.partitions) (unknown_release p)
  fail_if (state.in_flight == 0 || a.total_records == 0) (invalid_release p)
  ok (record a {
    total_records = a.total_records - 1;
    partitions = update p (record state { in_flight = state.in_flight - 1 }) a.partitions;
  })
