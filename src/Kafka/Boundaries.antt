-- ===== src/Kafka/Boundaries.antt =====
-- How `prepare` of src/kafka.rs resolves the ranges of the partitions, over what the broker answers. A failed
-- `expect` and an index without a key are the error `expectation_failed`.
pub mod Expectations
pub mod Resolution
pub mod Steps
pub mod Assigned
pub mod Prepared
use jkq.Prelude.{
  leb, if◌then◌else◌, is_some, Bytes, Result, ok, err, ◌>>=◌, ◌>>◌, fail_if, ok_or, map_err,
  i64_max, ℕ, Bool, true, false, ◌&&◌, ◌||◌, Option, none, some, List, [], ◌∷◌,
}
use jkq.App.{checked}
use jkq.Cli.Partitions.Accepted.{entries}
use jkq.Cli.{StartPosition, EndPosition}
use jkq.Int.{ℤ, pos, saturating_sub, max_ℤ, ltb_ℤ}
use jkq.Kafka.Shards
use jkq.Kafka.Shards.{consumer_assignments}
use jkq.Kafka.Ranges.{PartitionRange, ConsumerAssignment, Offset}
use jkq.Map.{get, insert}

pub data PrepareError : Type 0 where
  watermarks_failed : ℕ → Bytes → PrepareError
  times_failed : Bytes → PrepareError
  time_failed : ℕ → Bytes → PrepareError
  unexpected_offset : ℕ → PrepareError
  unresolved_boundaries : PrepareError
  outside_watermarks : ℕ → PrepareError
  assignment_failed : Shards.Error → PrepareError
  expectation_failed : PrepareError

abbrev pub Watermarks : Type 0
Watermarks = List (ℕ × (ℤ × ℤ))

abbrev pub expect : {A : Type 0} → Option A → Result PrepareError A
expect a = ok_or a expectation_failed

-- `collect` into a `BTreeMap`, up to the first error.
unfoldable pub collect_by :
    {V : Type 0}
    → (ℕ → Result PrepareError V)
    → List ℕ
    → List (ℕ × V)
    → Result PrepareError (List (ℕ × V))
unfolding insert
collect_by f [] entries = ok entries
collect_by f (p ∷ ps) entries = f p >>= λ v. collect_by f ps (insert p v entries)

unfoldable pub watermarks_required : StartPosition → Option EndPosition → Bool
watermarks_required StartPosition.beginning end = is_some end
watermarks_required StartPosition.at_end end = true
watermarks_required (StartPosition.relative_to_end distance) end = true
watermarks_required (StartPosition.timestamp_millis time) end = true
watermarks_required (StartPosition.absolute offset) none = false
watermarks_required (StartPosition.absolute offset) (some (EndPosition.exclusive_offset e)) = false
watermarks_required (StartPosition.absolute offset) (some (EndPosition.timestamp_millis t)) = true
watermarks_required (StartPosition.absolute offset) (some EndPosition.snapshot) = true

unfoldable pub timestamp_offset : Offset → ℤ → ℕ → Result PrepareError ℤ
timestamp_offset (Offset.offset o) high partition = ok o
timestamp_offset Offset.invalid high partition = ok high
timestamp_offset Offset.end high partition = ok high
timestamp_offset Offset.beginning high partition = err (unexpected_offset partition)
timestamp_offset (Offset.other n) high partition = err (unexpected_offset partition)

-- `i64::try_from` of a distance, or its largest value.
abbrev pub distance_i64 : ℕ → ℤ
distance_i64 n = pos (if leb n i64_max then n else i64_max)

unfoldable pub resolve_start :
    StartPosition → Option Watermarks → Option (List (ℕ × ℤ)) → ℕ → Result PrepareError Offset
unfolding get saturating_sub
resolve_start StartPosition.beginning none times p = ok Offset.beginning
resolve_start StartPosition.beginning (some watermarks) times p = do
  (low, high) ← expect (get p watermarks)
  ok (Offset.offset low)
resolve_start StartPosition.at_end watermarks times p = do
  known ← expect watermarks
  (low, high) ← expect (get p known)
  ok (Offset.offset high)
resolve_start (StartPosition.absolute o) watermarks times p = ok (Offset.offset o)
resolve_start (StartPosition.relative_to_end distance) watermarks times p = do
  known ← expect watermarks
  (low, high) ← expect (get p known)
  ok (Offset.offset (max_ℤ (saturating_sub high (distance_i64 distance)) low))
resolve_start (StartPosition.timestamp_millis time) watermarks times p = do
  known ← expect times
  o ← expect (get p known)
  ok (Offset.offset o)

unfoldable pub high_watermarks : Watermarks → List (ℕ × ℤ)
high_watermarks [] = []
high_watermarks ((p, (low, high)) ∷ watermarks) = (p, high) ∷ high_watermarks watermarks

-- A range's boundaries against its partition's watermarks.
unfoldable pub check_bounds : ℕ → ℤ × ℤ → Offset → Option ℤ → Result PrepareError (Unit {0})
check_bounds p (low, high) (Offset.offset start) (some end) =
    fail_if (ltb_ℤ high end || ltb_ℤ start end && (ltb_ℤ start low || ltb_ℤ high start))
      (outside_watermarks p)
check_bounds p bounds start end = err unresolved_boundaries

-- The check of a range before it is sharded.
unfoldable pub check_shardable : Option Watermarks → PartitionRange → Result PrepareError (Unit {0})
unfolding get check_bounds
check_shardable watermarks range = do
  known ← expect watermarks
  bounds ← expect (get range.partition known)
  check_bounds range.partition bounds range.start range.end_exclusive

unfoldable pub check_all_shardable :
    Option Watermarks → List PartitionRange → Result PrepareError (Unit {0})
unfolding check_shardable
check_all_shardable watermarks [] = ok tt
check_all_shardable watermarks (range ∷ ranges) =
    check_shardable watermarks range >>= λ u. check_all_shardable watermarks ranges

unfoldable pub make_ranges :
    List (ℕ × Offset) → Option (List (ℕ × ℤ)) → List ℕ → Result PrepareError (List PartitionRange)
unfolding get
make_ranges starts ends [] = ok []
make_ranges starts ends (p ∷ ps) = do
  start ← expect (get p starts)
  end ← elim ends [ none ↦ ok none | some known ↦ (expect (get p known) >>= λ e. ok (some e)) ]
  rest ← make_ranges starts ends ps
  ok (record { partition = p; start = start; end_exclusive = end } ∷ rest)

-- The broker's answers: the watermarks of a partition, and what `offsets_for_times` answers to a
-- request, which it stands for with the making of the request: it has an element for each partition
-- of the request.
module _ (fetch : ℕ → Result Bytes (ℤ × ℤ))
    (offsets_for_times : ℤ → Result Bytes (ℕ → Result Bytes Offset)) where
  unfoldable pub fetch_watermarks : List ℕ → Result PrepareError Watermarks
  unfolding collect_by
  fetch_watermarks ps = collect_by (λ p. map_err (watermarks_failed p) (fetch p)) ps []

  unfoldable pub offset_for_timestamp :
      (ℕ → Result Bytes Offset) → Watermarks → ℕ → Result PrepareError ℤ
  unfolding timestamp_offset get
  offset_for_timestamp resolved watermarks p = do
    found ← map_err (time_failed p) (resolved p)
    (low, high) ← expect (get p watermarks)
    timestamp_offset found high p

  unfoldable pub offsets_for_timestamp :
      List ℕ → ℤ → Option Watermarks → Result PrepareError (List (ℕ × ℤ))
  unfolding offset_for_timestamp collect_by
  offsets_for_timestamp ps time watermarks = do
    known ← expect watermarks
    resolved ← map_err times_failed (offsets_for_times time)
    collect_by (offset_for_timestamp resolved known) ps []

  unfoldable pub start_times :
      StartPosition → List ℕ → Option Watermarks → Result PrepareError (Option (List (ℕ × ℤ)))
  unfolding offsets_for_timestamp
  start_times (StartPosition.timestamp_millis time) ps watermarks =
      offsets_for_timestamp ps time watermarks >>= λ times. ok (some times)
  start_times _ ps watermarks = ok none

  unfoldable pub fixed_ends :
      Option EndPosition → List ℕ → Option Watermarks → Result PrepareError (Option (List (ℕ × ℤ)))
  unfolding offsets_for_timestamp collect_by high_watermarks
  fixed_ends none ps watermarks = ok none
  fixed_ends (some (EndPosition.exclusive_offset o)) ps watermarks =
      collect_by (λ p. ok o) ps [] >>= λ ends. ok (some ends)
  fixed_ends (some (EndPosition.timestamp_millis time)) ps watermarks =
      offsets_for_timestamp ps time watermarks >>= λ ends. ok (some ends)
  fixed_ends (some EndPosition.snapshot) ps watermarks =
      expect watermarks >>= λ known. ok (some (high_watermarks known))

  unfoldable pub known_watermarks : Bool → List ℕ → Result PrepareError (Option Watermarks)
  unfolding fetch_watermarks
  known_watermarks required ps =
      if required then (fetch_watermarks ps >>= λ watermarks. ok (some watermarks)) else ok none

  unfoldable pub prepare_ranges :
      StartPosition → Option EndPosition → Bool → List ℕ → Result PrepareError (List PartitionRange)
  unfolding watermarks_required known_watermarks start_times resolve_start fixed_ends make_ranges
      check_all_shardable
  prepare_ranges start end range_sharding ps = do
    watermarks ← known_watermarks (range_sharding || watermarks_required start end) ps
    times ← start_times start ps watermarks
    starts ← collect_by (resolve_start start watermarks times) ps []
    ends ← fixed_ends end ps watermarks
    ranges ← make_ranges starts ends ps
    checked ← (if range_sharding then check_all_shardable watermarks ranges else ok tt)
    ok ranges

  -- The assignments of the consumers.
  unfoldable pub prepare :
      StartPosition
      → Option EndPosition
      → Bool
      → ℕ
      → ℕ
      → List ℕ
      → Result PrepareError (List ConsumerAssignment)
  unfolding prepare_ranges
  prepare start end range_sharding consumers limit ps = do
    ranges ← prepare_ranges start end range_sharding ps
    map_err assignment_failed (consumer_assignments ranges consumers range_sharding limit)
