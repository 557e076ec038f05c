-- ===== src/Kafka/Boundaries/Resolution.antt =====
-- No `expect` of `prepare` (src/kafka.rs) fails.
use jkq.Prelude.{
  Option-cases, is_some, All, ok, ◌>>=◌, Result-cases, ℕ, ◌≡◌, refl, subst, inl, inr, Bool, true,
  false, not, ◌&&◌, ◌||◌, Option, none, some, List, [], ◌∷◌, arith, bind-ok,
}
use jkq.Cli.{StartPosition, EndPosition}
use jkq.Cli.Partitions.Distinct.{occurs}
use jkq.Int.{ℤ}
use jkq.Kafka.Boundaries.{
  expect, Watermarks, watermarks_required, resolve_start, high_watermarks, check_shardable,
  check_all_shardable, make_ranges, check_bounds,
}
use jkq.Kafka.Boundaries.Expectations.{IsSafe, Has, bind-IsSafe, expect-IsSafe}
use jkq.Kafka.Ranges.{PartitionRange, Offset}
use jkq.Map.{get}

-- Watermarks for every partition, or none where none are required.
abbrev pub KnownBy : Bool → List ℕ → Option Watermarks → Type 0
KnownBy required ps none = required ≡ false
KnownBy required ps (some watermarks) = Has ps watermarks

abbrev pub TimesBy : StartPosition → List ℕ → Option (List (ℕ × ℤ)) → Type 0
TimesBy (StartPosition.timestamp_millis time) ps none = ⊥
TimesBy start ps none = Unit
TimesBy start ps (some times) = Has ps times

abbrev pub EndsBy : Option EndPosition → List ℕ → Option (List (ℕ × ℤ)) → Type 0
EndsBy end ps none = is_some end ≡ false
EndsBy end ps (some ends) = Has ps ends

abbrev pub is_offset : Offset → Bool
is_offset (Offset.offset o) = true
is_offset _ = false

pub resolve_start-IsSafe :
    (start : StartPosition) (required : Bool) (ps : List ℕ) (watermarks : Option Watermarks)
    (times : Option (List (ℕ × ℤ))) (end : Option EndPosition) (p : ℕ)
    → (not (watermarks_required start end) || required) ≡ true
    → KnownBy required ps watermarks
    → TimesBy start ps times
    → occurs p ps ≡ true
    → IsSafe (resolve_start start watermarks times p)
unfolding resolve_start watermarks_required
resolve_start-IsSafe StartPosition.beginning required ps none times end p need known timed h = refl
resolve_start-IsSafe StartPosition.beginning required ps (some w) times end p need known timed h =
    bind-IsSafe (expect (get p w)) _ (expect-IsSafe (get p w) (known p h)) (λ a e. refl)
resolve_start-IsSafe StartPosition.at_end required ps none times end p need known timed h =
    absurd (ground arith)
resolve_start-IsSafe StartPosition.at_end required ps (some w) times end p need known timed h =
    bind-IsSafe (expect (get p w)) _ (expect-IsSafe (get p w) (known p h)) (λ a e. refl)
resolve_start-IsSafe (StartPosition.absolute o) required ps w times end p need known timed h = refl
resolve_start-IsSafe (StartPosition.relative_to_end d) required ps none times end p need known timed
      h =
    absurd (ground arith)
resolve_start-IsSafe (StartPosition.relative_to_end d) required ps (some w) times end p need known
      timed h =
    bind-IsSafe (expect (get p w)) _ (expect-IsSafe (get p w) (known p h)) (λ a e. refl)
resolve_start-IsSafe (StartPosition.timestamp_millis t) required ps w none end p need known timed
      h =
    elim timed [ ]
resolve_start-IsSafe (StartPosition.timestamp_millis t) required ps w (some times) end p need known
      timed h =
    bind-IsSafe (expect (get p times)) _ (expect-IsSafe (get p times) (timed p h)) (λ a e. refl)

-- With watermarks every start is an offset.
pub resolve_start-offset :
    (start : StartPosition) (watermarks : Watermarks) (times : Option (List (ℕ × ℤ))) (p : ℕ)
    (o : Offset)
    → resolve_start start (some watermarks) times p ≡ ok o
    → is_offset o ≡ true
unfolding resolve_start
resolve_start-offset StartPosition.beginning w times p o h =
    let (a, (e, f)) = bind-ok (expect (get p w)) _ o h in ground arith
resolve_start-offset StartPosition.at_end w times p o h =
    let (a, (e, f)) = bind-ok (expect (get p w)) _ o h in ground arith
resolve_start-offset (StartPosition.absolute offset) w times p o h = ground arith
resolve_start-offset (StartPosition.relative_to_end d) w times p o h =
    let (a, (e, f)) = bind-ok (expect (get p w)) _ o h in ground arith
resolve_start-offset (StartPosition.timestamp_millis t) w times p o h =
    let (known, (e, f)) = bind-ok (expect times) _ o h in
    let (a, (g, i)) = bind-ok (expect (get p known)) _ o f in ground arith

pub get-high_watermarks :
    (k : ℕ) (w : Watermarks) → is_some (get k (high_watermarks w)) ≡ is_some (get k w)
unfolding get high_watermarks
get-high_watermarks k [] = refl
get-high_watermarks k ((p, (low, high)) ∷ w) = ground (arith, get-high_watermarks k w)

-- A range that can be checked and sharded.
abbrev pub IsResolvable : List ℕ → PartitionRange → Type 0
IsResolvable ps r = (occurs r.partition ps && (is_offset r.start && is_some r.end_exclusive)) ≡ true

check_bounds-IsSafe :
    (p : ℕ) (bounds : ℤ × ℤ) (start : Offset) (end : Option ℤ)
    → (is_offset start && is_some end) ≡ true
    → IsSafe (check_bounds p bounds start end)
unfolding check_bounds
check_bounds-IsSafe p (low, high) (Offset.offset start) (some end) h = ground arith
check_bounds-IsSafe p (low, high) (Offset.offset start) none h = absurd (ground arith)
check_bounds-IsSafe p bounds Offset.beginning end h = absurd (ground arith)
check_bounds-IsSafe p bounds Offset.end end h = absurd (ground arith)
check_bounds-IsSafe p bounds Offset.invalid end h = absurd (ground arith)
check_bounds-IsSafe p bounds (Offset.other n) end h = absurd (ground arith)

check_shardable-IsSafe :
    (ps : List ℕ) (w : Watermarks) (r : PartitionRange)
    → Has ps w
    → IsResolvable ps r
    → IsSafe (check_shardable (some w) r)
unfolding check_shardable
check_shardable-IsSafe ps w r known resolvable =
    let held : is_some (get r.partition w) ≡ true = known r.partition (ground arith) in
    bind-IsSafe (expect (get r.partition w)) _ (expect-IsSafe (get r.partition w) held)
      (λ bounds e. check_bounds-IsSafe r.partition bounds r.start r.end_exclusive (ground arith))

pub check_all_shardable-IsSafe :
    (ps : List ℕ) (w : Watermarks) (ranges : List PartitionRange)
    → Has ps w
    → All (IsResolvable ps) ranges
    → IsSafe (check_all_shardable (some w) ranges)
unfolding check_all_shardable
check_all_shardable-IsSafe ps w [] known resolvable = refl
check_all_shardable-IsSafe ps w (r ∷ ranges) known (resolvable, others) =
    bind-IsSafe (check_shardable (some w) r) _ (check_shardable-IsSafe ps w r known resolvable)
      (λ u e. check_all_shardable-IsSafe ps w ranges known others)

pub make_ranges-IsSafe :
    (ps qs : List ℕ) (starts : List (ℕ × Offset)) (ends : Option (List (ℕ × ℤ)))
    (end : Option EndPosition)
    → ((k : ℕ) → occurs k qs ≡ true → occurs k ps ≡ true)
    → Has ps starts
    → EndsBy end ps ends
    → IsSafe (make_ranges starts ends qs)
unfolding make_ranges
make_ranges-IsSafe ps [] starts ends end within known has_ends = refl
make_ranges-IsSafe ps (q ∷ qs) starts none end within known has_ends =
    bind-IsSafe (expect (get q starts)) _
      (expect-IsSafe (get q starts) (known q (within q (ground arith))))
      (λ start e.
        bind-IsSafe (make_ranges starts none qs) _
          (make_ranges-IsSafe ps qs starts none end (λ k h. within k (ground arith)) known has_ends)
          (λ rest f. refl))
make_ranges-IsSafe ps (q ∷ qs) starts (some ends) end within known has_ends =
    bind-IsSafe (expect (get q starts)) _
      (expect-IsSafe (get q starts) (known q (within q (ground arith))))
      (λ start e.
        bind-IsSafe (expect (get q ends) >>= λ x. ok (some x)) _
          (bind-IsSafe (expect (get q ends)) _
            (expect-IsSafe (get q ends) (has_ends q (within q (ground arith)))) (λ x f. refl))
          (λ x f.
            bind-IsSafe (make_ranges starts (some ends) qs) _
              (make_ranges-IsSafe ps qs starts (some ends) end (λ k h. within k (ground arith))
                known has_ends)
              (λ rest g. refl)))

-- With offsets for starts, and ends, every range is resolvable.
pub make_ranges-IsResolvable :
    (ps qs : List ℕ) (starts : List (ℕ × Offset)) (ends : List (ℕ × ℤ))
    (ranges : List PartitionRange)
    → ((k : ℕ) → occurs k qs ≡ true → occurs k ps ≡ true)
    → ((k : ℕ) (o : Offset) → get k starts ≡ some o → is_offset o ≡ true)
    → make_ranges starts (some ends) qs ≡ ok ranges
    → All (IsResolvable ps) ranges
unfolding make_ranges
make_ranges-IsResolvable ps [] starts ends ranges within offsets h =
    let e : [] ≡ ranges = ground arith in subst (All (IsResolvable ps)) e tt
make_ranges-IsResolvable ps (q ∷ qs) starts ends ranges within offsets h =
    elim (Option-cases (get q starts)) [
      | inl f ↦ absurd (ground arith)
      | inr (o, f) ↦ elim (Option-cases (get q ends)) [
        | inl g ↦ absurd (ground arith)
        | inr (x, g) ↦ elim (Result-cases (make_ranges starts (some ends) qs)) [
          | inl (e, i) ↦ absurd (ground arith)
          | inr (rest, i) ↦
              let e : record { partition = q; start = o; end_exclusive = some x } ∷ rest ≡ ranges =
                ground arith in
              let first : IsResolvable ps
                  (record { partition = q; start = o; end_exclusive = some x }) =
                ground (arith, within q, offsets q o) in
              subst (All (IsResolvable ps)) e (
                (
                  first,
                  make_ranges-IsResolvable ps qs starts ends rest (λ k j. within k (ground arith))
                      offsets i,
                ))
        ]
      ]
    ]
