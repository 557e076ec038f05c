-- ===== src/Kafka/Boundaries/Steps.antt =====
-- The steps of `prepare` (src/kafka.rs) that ask the broker: no `expect` of them fails, and what they yield.
use jkq.Prelude.{
  Bytes, Result, ok, ◌>>=◌, map_err, ℕ, ◌≡◌, refl, ◌∙◌, subst, Bool, true, false, not, ◌||◌, Option,
  none, some, List, [], arith, bind-ok,
}
use jkq.Kafka.Boundaries.{
  start_times, times_failed, collect_by, fetch_watermarks, time_failed, known_watermarks,
  watermarks_failed, offset_for_timestamp, PrepareError, offsets_for_timestamp, timestamp_offset,
  Watermarks, expect, watermarks_required, high_watermarks, fixed_ends,
}
use jkq.Kafka.Boundaries.Expectations.{
  collect_by-IsSafe, map_err-IsSafe, Has, bind-IsSafe, expect-IsSafe, IsSafe, collect_by-Has,
}
use jkq.Kafka.Boundaries.Resolution.{KnownBy, TimesBy, get-high_watermarks, EndsBy}
use jkq.Kafka.Ranges.{Offset}
use jkq.Int.{ℤ}
use jkq.Map.{get}
use jkq.Cli.{StartPosition, EndPosition}

timestamp_offset-IsSafe : (o : Offset) (high : ℤ) (p : ℕ) → IsSafe (timestamp_offset o high p)
unfolding timestamp_offset
timestamp_offset-IsSafe (Offset.offset o) high p = refl
timestamp_offset-IsSafe Offset.invalid high p = refl
timestamp_offset-IsSafe Offset.end high p = refl
timestamp_offset-IsSafe Offset.beginning high p = refl
timestamp_offset-IsSafe (Offset.other n) high p = refl

module _ {V : Type 0} where
  -- What is collected into an empty map has a value for every partition.
  pub collect_all-Has :
      (f : ℕ → Result PrepareError V) (ps : List ℕ) (m : List (ℕ × V))
      → collect_by f ps [] ≡ ok m
      → Has ps m
  unfolding get
  collect_all-Has f ps m h k g = collect_by-Has f ps [] m k h (ground arith)

  -- A step whose result is wrapped.
  wrap-IsSafe : (r : Result PrepareError V) → IsSafe r → IsSafe (r >>= λ v. ok (some v))
  wrap-IsSafe r safe = bind-IsSafe r (λ v. ok (some v)) safe (λ v e. refl)

module _ (fetch : ℕ → Result Bytes (ℤ × ℤ))
    (offsets_for_times : ℤ → Result Bytes (ℕ → Result Bytes Offset)) where
  pub known_watermarks-IsSafe :
      (required : Bool) (ps : List ℕ)
      → IsSafe (known_watermarks fetch offsets_for_times required ps)
  unfolding known_watermarks fetch_watermarks
  known_watermarks-IsSafe true ps = wrap-IsSafe (fetch_watermarks fetch offsets_for_times ps) (
      collect_by-IsSafe (λ p. map_err (watermarks_failed p) (fetch p)) ps []
        (λ k g. map_err-IsSafe (watermarks_failed k) (fetch k) (λ e. refl)))
  known_watermarks-IsSafe false ps = refl

  pub known_watermarks-KnownBy :
      (required : Bool) (ps : List ℕ) (watermarks : Option Watermarks)
      → known_watermarks fetch offsets_for_times required ps ≡ ok watermarks
      → KnownBy required ps watermarks
  unfolding known_watermarks fetch_watermarks
  known_watermarks-KnownBy true ps watermarks h =
      let (w, (e, f)) = bind-ok (fetch_watermarks fetch offsets_for_times ps) _ watermarks h in
      let same : some w ≡ watermarks = ground arith in
      subst (KnownBy true ps) same
        (collect_all-Has (λ p. map_err (watermarks_failed p) (fetch p)) ps w e)
  known_watermarks-KnownBy false ps watermarks h =
      let same : none ≡ watermarks = ground arith in subst (KnownBy false ps) same refl

  offsets_for_timestamp-IsSafe :
      (ps : List ℕ) (time : ℤ) (w : Watermarks)
      → Has ps w
      → IsSafe (offsets_for_timestamp fetch offsets_for_times ps time (some w))
  unfolding offsets_for_timestamp offset_for_timestamp
  offsets_for_timestamp-IsSafe ps time w known =
      bind-IsSafe (map_err times_failed (offsets_for_times time)) _
        (map_err-IsSafe times_failed (offsets_for_times time) (λ e. refl))
        (λ resolved e.
          collect_by-IsSafe (offset_for_timestamp fetch offsets_for_times resolved w) ps [] (λ k g.
            bind-IsSafe (map_err (time_failed k) (resolved k)) _
              (map_err-IsSafe (time_failed k) (resolved k) (λ x. refl))
              (λ found f.
                bind-IsSafe (expect (get k w)) _ (expect-IsSafe (get k w) (known k g))
                  (λ bounds i. timestamp_offset-IsSafe found bounds.1 k))))

  offsets_for_timestamp-Has :
      (ps : List ℕ) (time : ℤ) (watermarks : Option Watermarks) (times : List (ℕ × ℤ))
      → offsets_for_timestamp fetch offsets_for_times ps time watermarks ≡ ok times
      → Has ps times
  unfolding offsets_for_timestamp
  offsets_for_timestamp-Has ps time watermarks times h =
      let (w, (e, f)) = bind-ok (expect watermarks) _ times h in
      let (resolved, (g, i)) = bind-ok (map_err times_failed (offsets_for_times time)) _ times f in
      collect_all-Has (offset_for_timestamp fetch offsets_for_times resolved w) ps times i

  pub start_times-IsSafe :
      (start : StartPosition) (end : Option EndPosition) (required : Bool) (ps : List ℕ)
      (watermarks : Option Watermarks)
      → (not (watermarks_required start end) || required) ≡ true
      → KnownBy required ps watermarks
      → IsSafe (start_times fetch offsets_for_times start ps watermarks)
  unfolding start_times watermarks_required
  start_times-IsSafe StartPosition.beginning end required ps w need known = refl
  start_times-IsSafe StartPosition.at_end end required ps w need known = refl
  start_times-IsSafe (StartPosition.absolute o) end required ps w need known = refl
  start_times-IsSafe (StartPosition.relative_to_end d) end required ps w need known = refl
  start_times-IsSafe (StartPosition.timestamp_millis t) end required ps none need known =
      absurd (ground arith)
  start_times-IsSafe (StartPosition.timestamp_millis t) end required ps (some w) need known =
      wrap-IsSafe (offsets_for_timestamp fetch offsets_for_times ps t (some w))
        (offsets_for_timestamp-IsSafe ps t w known)

  pub start_times-TimesBy :
      (start : StartPosition) (ps : List ℕ) (watermarks : Option Watermarks)
      (times : Option (List (ℕ × ℤ)))
      → start_times fetch offsets_for_times start ps watermarks ≡ ok times
      → TimesBy start ps times
  unfolding start_times
  start_times-TimesBy StartPosition.beginning ps w times h =
      let same : none ≡ times = ground arith in subst (TimesBy StartPosition.beginning ps) same tt
  start_times-TimesBy StartPosition.at_end ps w times h =
      let same : none ≡ times = ground arith in subst (TimesBy StartPosition.at_end ps) same tt
  start_times-TimesBy (StartPosition.absolute o) ps w times h =
      let same : none ≡ times = ground arith in
      subst (TimesBy (StartPosition.absolute o) ps) same tt
  start_times-TimesBy (StartPosition.relative_to_end d) ps w times h =
      let same : none ≡ times = ground arith in
      subst (TimesBy (StartPosition.relative_to_end d) ps) same tt
  start_times-TimesBy (StartPosition.timestamp_millis t) ps w times h =
      let (found, (e, f)) =
        bind-ok (offsets_for_timestamp fetch offsets_for_times ps t w) _ times h in
      let same : some found ≡ times = ground arith in
      subst (TimesBy (StartPosition.timestamp_millis t) ps) same
        (offsets_for_timestamp-Has ps t w found e)

  -- An end that is resolved requires watermarks.
  timestamp_end-required :
      (start : StartPosition) (t : ℤ)
      → watermarks_required start (some (EndPosition.timestamp_millis t)) ≡ true
  unfolding watermarks_required
  timestamp_end-required StartPosition.beginning t = refl
  timestamp_end-required StartPosition.at_end t = refl
  timestamp_end-required (StartPosition.absolute o) t = refl
  timestamp_end-required (StartPosition.relative_to_end d) t = refl
  timestamp_end-required (StartPosition.timestamp_millis u) t = refl

  snapshot-required :
      (start : StartPosition) → watermarks_required start (some EndPosition.snapshot) ≡ true
  unfolding watermarks_required
  snapshot-required StartPosition.beginning = refl
  snapshot-required StartPosition.at_end = refl
  snapshot-required (StartPosition.absolute o) = refl
  snapshot-required (StartPosition.relative_to_end d) = refl
  snapshot-required (StartPosition.timestamp_millis u) = refl

  pub fixed_ends-IsSafe :
      (start : StartPosition) (end : Option EndPosition) (required : Bool) (ps : List ℕ)
      (watermarks : Option Watermarks)
      → (not (watermarks_required start end) || required) ≡ true
      → KnownBy required ps watermarks
      → IsSafe (fixed_ends fetch offsets_for_times end ps watermarks)
  unfolding fixed_ends
  fixed_ends-IsSafe start none required ps w need known = refl
  fixed_ends-IsSafe start (some (EndPosition.exclusive_offset o)) required ps w need known =
      wrap-IsSafe (collect_by (λ p. ok o) ps []) (collect_by-IsSafe (λ p. ok o) ps [] (λ k g. refl))
  fixed_ends-IsSafe start (some (EndPosition.timestamp_millis t)) required ps none need known =
      absurd (ground (arith, timestamp_end-required start t))
  fixed_ends-IsSafe start (some (EndPosition.timestamp_millis t)) required ps (some w) need known =
      wrap-IsSafe (offsets_for_timestamp fetch offsets_for_times ps t (some w))
        (offsets_for_timestamp-IsSafe ps t w known)
  fixed_ends-IsSafe start (some EndPosition.snapshot) required ps none need known =
      absurd (ground (arith, snapshot-required start))
  fixed_ends-IsSafe start (some EndPosition.snapshot) required ps (some w) need known = refl

  pub fixed_ends-EndsBy :
      (end : Option EndPosition) (required : Bool) (ps : List ℕ) (watermarks : Option Watermarks)
      (ends : Option (List (ℕ × ℤ)))
      → KnownBy required ps watermarks
      → fixed_ends fetch offsets_for_times end ps watermarks ≡ ok ends
      → EndsBy end ps ends
  unfolding fixed_ends
  fixed_ends-EndsBy none required ps w ends known h =
      let same : none ≡ ends = ground arith in subst (EndsBy none ps) same refl
  fixed_ends-EndsBy (some (EndPosition.exclusive_offset o)) required ps w ends known h =
      let (found, (e, f)) = bind-ok (collect_by (λ p. ok o) ps []) _ ends h in
      let same : some found ≡ ends = ground arith in
      subst (EndsBy (some (EndPosition.exclusive_offset o)) ps) same
        (collect_all-Has (λ p. ok o) ps found e)
  fixed_ends-EndsBy (some (EndPosition.timestamp_millis t)) required ps w ends known h =
      let (found, (e, f)) =
        bind-ok (offsets_for_timestamp fetch offsets_for_times ps t w) _ ends h in
      let same : some found ≡ ends = ground arith in
      subst (EndsBy (some (EndPosition.timestamp_millis t)) ps) same
        (offsets_for_timestamp-Has ps t w found e)
  fixed_ends-EndsBy (some EndPosition.snapshot) required ps none ends known h =
      absurd (ground arith)
  fixed_ends-EndsBy (some EndPosition.snapshot) required ps (some w) ends known h =
      let same : some (high_watermarks w) ≡ ends = ground arith in
      subst (EndsBy (some EndPosition.snapshot) ps) same
        (λ k g. get-high_watermarks k w ∙ known k g)
