-- ===== src/Kafka/Boundaries/Prepared.antt =====
-- `prepare` of src/kafka.rs as a whole.
use jkq.Prelude.{
  if◌then◌else◌, is_some, Bytes, All, Result, ok, ℕ, ◌≡◌, refl, sym, ap, ◌∙◌, subst, Bool, true,
  false, not, ◌||◌, Option, none, some, List, [], arith, bind-ok,
}
use jkq.Kafka.Boundaries.Assigned.{
  IsFixed, consumer_assignments-HasBoundaries, check_all_shardable-IsFixed,
}
use jkq.Kafka.Boundaries.Expectations.{IsSafe, bind-IsSafe, collect_by-IsSafe, collect_by-values}
use jkq.Kafka.Boundaries.Resolution.{
  resolve_start-IsSafe, make_ranges-IsSafe, EndsBy, is_offset, check_all_shardable-IsSafe, KnownBy,
  make_ranges-IsResolvable, resolve_start-offset,
}
use jkq.Kafka.Boundaries.Steps.{
  fixed_ends-EndsBy, collect_all-Has, fixed_ends-IsSafe, start_times-TimesBy,
  known_watermarks-IsSafe, start_times-IsSafe, known_watermarks-KnownBy,
}
use jkq.Kafka.Ranges.{PartitionRange, Offset}
use jkq.Int.{ℤ}
use jkq.Kafka.Boundaries.{
  start_times, prepare_ranges, prepare, resolve_start, known_watermarks, fixed_ends, make_ranges,
  watermarks_required, collect_by, check_all_shardable, Watermarks, PrepareError,
}
use jkq.Map.{get}
use jkq.Cli.{StartPosition, EndPosition}

guarded-IsSafe :
    (b : Bool) (r : Result PrepareError (Unit {0}))
    → (b ≡ true → IsSafe r)
    → IsSafe (if b then r else ok tt)
guarded-IsSafe true r safe = safe refl
guarded-IsSafe false r safe = refl

module _ (fetch : ℕ → Result Bytes (ℤ × ℤ))
    (offsets_for_times : ℤ → Result Bytes (ℕ → Result Bytes Offset)) where
  -- The starts and ends of all partitions make ranges that can be sharded.
  ranges-IsResolvable :
      (start : StartPosition) (end : Option EndPosition) (ps : List ℕ)
      (watermarks : Option Watermarks) (times ends : Option (List (ℕ × ℤ)))
      (starts : List (ℕ × Offset)) (ranges : List PartitionRange)
      → is_some end ≡ true
      → KnownBy true ps watermarks
      → collect_by (resolve_start start watermarks times) ps [] ≡ ok starts
      → EndsBy end ps ends
      → make_ranges starts ends ps ≡ ok ranges
      → IsSafe (check_all_shardable watermarks ranges)
  unfolding get
  ranges-IsResolvable start end ps none times ends starts ranges finite known h bounded made =
      absurd (ground arith)
  ranges-IsResolvable start end ps (some w) times none starts ranges finite known h bounded made =
      absurd (ground arith)
  ranges-IsResolvable start end ps (some w) times (some ends) starts ranges finite known h bounded
        made =
      check_all_shardable-IsSafe ps w ranges known (
        make_ranges-IsResolvable ps ps starts ends ranges (λ k g. g)
          (collect_by-values is_offset (resolve_start start (some w) times) ps [] starts
            (λ k o e. resolve_start-offset start w times k o e) (λ k o e. absurd (ground arith)) h)
          made)

  prepare_ranges-IsSafe :
      (start : StartPosition) (end : Option EndPosition) (range_sharding : Bool) (ps : List ℕ)
      → (not range_sharding || is_some end) ≡ true
      → IsSafe (prepare_ranges fetch offsets_for_times start end range_sharding ps)
  unfolding prepare_ranges
  prepare_ranges-IsSafe start end range_sharding ps finite =
      let required = range_sharding || watermarks_required start end in
      let need : (not (watermarks_required start end) || required) ≡ true = ground arith in
      bind-IsSafe (known_watermarks fetch offsets_for_times required ps) _
        (known_watermarks-IsSafe fetch offsets_for_times required ps)
        (λ w e.
          let known = known_watermarks-KnownBy fetch offsets_for_times required ps w e in
          bind-IsSafe (start_times fetch offsets_for_times start ps w) _
            (start_times-IsSafe fetch offsets_for_times start end required ps w need known)
            (λ times f.
              let timed = start_times-TimesBy fetch offsets_for_times start ps w times f in
              bind-IsSafe (collect_by (resolve_start start w times) ps []) _
                (collect_by-IsSafe (resolve_start start w times) ps []
                  (λ k. resolve_start-IsSafe start required ps w times end k need known timed))
                (λ starts g.
                  bind-IsSafe (fixed_ends fetch offsets_for_times end ps w) _
                    (fixed_ends-IsSafe fetch offsets_for_times start end required ps w need known)
                    (λ ends i.
                      let bounded =
                        fixed_ends-EndsBy fetch offsets_for_times end required ps w ends known i in
                      bind-IsSafe (make_ranges starts ends ps) _
                        (make_ranges-IsSafe ps ps starts ends end (λ k j. j)
                          (collect_all-Has (resolve_start start w times) ps starts g) bounded)
                        (λ ranges j.
                          bind-IsSafe
                            (if range_sharding then check_all_shardable w ranges else ok tt) _
                            (guarded-IsSafe range_sharding (check_all_shardable w ranges) (λ on.
                              ranges-IsResolvable start end ps w times ends starts ranges
                                (ground arith)
                                (subst (λ b. KnownBy b ps w)
                                  (ap (λ b. b || watermarks_required start end) on) known)
                                g bounded j))
                            (λ u l. refl))))))

  -- Ranges that are to be sharded have boundaries.
  prepare_ranges-IsFixed :
      (start : StartPosition) (end : Option EndPosition) (ps : List ℕ)
      (ranges : List PartitionRange)
      → prepare_ranges fetch offsets_for_times start end true ps ≡ ok ranges
      → All IsFixed ranges
  unfolding prepare_ranges
  prepare_ranges-IsFixed start end ps ranges h =
      let (w, (e, a)) = bind-ok (known_watermarks fetch offsets_for_times true ps) _ ranges h in
      let (times, (f, b)) = bind-ok (start_times fetch offsets_for_times start ps w) _ ranges a in
      let (starts, (g, c)) = bind-ok (collect_by (resolve_start start w times) ps []) _ ranges b in
      let (ends, (i, d)) = bind-ok (fixed_ends fetch offsets_for_times end ps w) _ ranges c in
      let (made, (j, k)) = bind-ok (make_ranges starts ends ps) _ ranges d in
      let (u, (l, m)) = bind-ok (check_all_shardable w made) _ ranges k in
      let same : made ≡ ranges = ground arith in
      subst (All IsFixed) same (check_all_shardable-IsFixed w made u l)

  -- Let ranges be sharded only where there is an end, as the options require. If the broker
  -- answers a request for offsets at a timestamp, it does so for each partition of the request.
  -- Then whatever it answers for watermarks and timestamps, for every start, end and list of
  -- partitions, prepare fails no expect and no lookup of a partition, and neither its check of the
  -- watermarks nor the assignment reports boundaries that are not resolved: it yields assignments,
  -- or an error of the broker, an unexpected offset, a range outside the watermarks or a shard
  -- count above i64.
  pub prepare-IsSafe :
      (start : StartPosition) (end : Option EndPosition) (range_sharding : Bool)
      (consumers limit : ℕ) (ps : List ℕ)
      → (not range_sharding || is_some end) ≡ true
      → IsSafe (prepare fetch offsets_for_times start end range_sharding consumers limit ps)
  unfolding prepare
  prepare-IsSafe start end range_sharding consumers limit ps finite =
      bind-IsSafe (prepare_ranges fetch offsets_for_times start end range_sharding ps) _
        (prepare_ranges-IsSafe start end range_sharding ps finite)
        (λ ranges e. consumer_assignments-HasBoundaries ranges consumers limit range_sharding (λ on.
          prepare_ranges-IsFixed start end ps ranges
            (ap (λ b. prepare_ranges fetch offsets_for_times start end b ps) (sym on) ∙ e)))
