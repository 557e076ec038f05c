-- ===== src/Cli/Offsets/Printed.antt =====
-- Printed start positions and end boundaries, read back (src/cli.rs).
use jkq.Prelude.{
  ltb, leb, ◌==◌, if◌then◌else◌, Bytes, ok, i64_max, ℕ, ◌+◌, ◌-◌, ◌≡◌, refl, sym, ap, ◌∙◌, Bool,
  true, false, ◌&&◌, Option, none, some, List, [], ◌∷◌, ◌++◌, arith, codes,
}
use jkq.Int.{ℤ, pos, negsuc}
use jkq.Cli.{StartPosition, EndPosition}
use jkq.Cli.Offsets.{
  parse_nonnegative_i64, resolve_offsets, take_offset, take_offsets, start_position,
  start_timestamp, Label, end_timestamp,
}
use jkq.Output.Writer.{digits_loop, display}
use jkq.Text.{strip_prefix, same}
use jkq.Text.Integers.{parse_signed}
use jkq.Text.Integers.Printed.{decimal-digits, parse_signed-display}

-- `unsigned_abs` is at most 2 ^ 63; absolute offsets and timestamps are not negative.
abbrev pub start_fits : StartPosition → Bool
start_fits StartPosition.beginning = true
start_fits StartPosition.at_end = true
start_fits (StartPosition.absolute (pos n)) = leb n i64_max
start_fits (StartPosition.absolute (negsuc n)) = false
start_fits (StartPosition.relative_to_end n) = ltb 0 n && leb n (i64_max + 1)
start_fits (StartPosition.timestamp_millis (pos n)) = leb n i64_max
start_fits (StartPosition.timestamp_millis (negsuc n)) = false

abbrev pub start_text : StartPosition → Bytes
start_text StartPosition.beginning = codes "beginning"
start_text StartPosition.at_end = codes "end"
start_text (StartPosition.absolute offset) = display offset
start_text (StartPosition.relative_to_end n) = display (negsuc (n - 1))
start_text (StartPosition.timestamp_millis time) = codes "s@" ++ display time

parse_nonnegative_i64-display :
    (n : ℕ) (label : Label)
    → leb n i64_max ≡ true
    → parse_nonnegative_i64 (display (pos n)) label ≡ ok (pos n)
unfolding parse_nonnegative_i64
parse_nonnegative_i64-display n label h =
    let value = parse_signed-display i64_max (pos n) h (ground arith) in
    rw (value, parse_nonnegative_i64) (ground arith)

abbrev position_of : ℤ → StartPosition
position_of (pos n) = StartPosition.absolute (pos n)
position_of (negsuc n) = StartPosition.relative_to_end (n + 1)

-- A number's text has no prefix of the other positions.
start_position-number :
    (d : ℕ) (ds : Bytes) (value : ℤ)
    → leb d b'9' ≡ true
    → parse_signed i64_max (d ∷ ds) ≡ some value
    → start_position (d ∷ ds) ≡ ok (position_of value)
unfolding start_position same strip_prefix
start_position-number d ds (pos n) small h =
    let b : (d == b'b') ≡ false = ground arith in
    let e : (d == b'e') ≡ false = ground arith in
    let s : (b's' == d) ≡ false = ground arith in rw (b, e, s, h) refl
start_position-number d ds (negsuc n) small h =
    let b : (d == b'b') ≡ false = ground arith in
    let e : (d == b'e') ≡ false = ground arith in
    let s : (b's' == d) ≡ false = ground arith in rw (b, e, s, h) refl

start_position-start_text :
    (start : StartPosition) → start_fits start ≡ true → start_position (start_text start) ≡ ok start
unfolding display
start_position-start_text StartPosition.beginning h = unfold start_position same in refl
start_position-start_text StartPosition.at_end h = unfold start_position same in refl
start_position-start_text (StartPosition.absolute (pos n)) h =
    let (d, (ds, (e, (digit, g)))) = decimal-digits n in
    let value : parse_signed i64_max (d ∷ ds) ≡ some (pos n) =
      ap (parse_signed i64_max) (sym e) ∙ parse_signed-display i64_max (pos n) h (ground arith) in
    ap start_position e ∙ start_position-number d ds (pos n) (ground arith) value
start_position-start_text (StartPosition.absolute (negsuc n)) h = absurd (ground arith)
start_position-start_text (StartPosition.relative_to_end n) h =
    start_position-number b'-' (digits_loop (n - 1 + 1) (n - 1 + 1)) (negsuc (n - 1)) refl
      (parse_signed-display i64_max (negsuc (n - 1)) refl (ground arith))
    ∙ ap (λ m. ok (StartPosition.relative_to_end m)) (ground arith)
start_position-start_text (StartPosition.timestamp_millis (pos n)) h =
    let value = parse_nonnegative_i64-display n start_timestamp h in
    unfold start_position strip_prefix same in rw (value) refl
start_position-start_text (StartPosition.timestamp_millis (negsuc n)) h = absurd (ground arith)

-- No start position's text is taken for an end boundary.
start_text-is_start :
    (start : StartPosition)
    → start_fits start ≡ true
    → strip_prefix (codes "e@") (start_text start) ≡ none
unfolding strip_prefix display
start_text-is_start StartPosition.beginning h = refl
start_text-is_start StartPosition.at_end h = refl
start_text-is_start (StartPosition.absolute (pos n)) h =
    let (d, (ds, (e, (digit, g)))) = decimal-digits n in
    let plain : (b'e' == d) ≡ false = ground arith in
    ap (strip_prefix (codes "e@")) e ∙ rw (plain, strip_prefix) refl
start_text-is_start (StartPosition.absolute (negsuc n)) h = absurd (ground arith)
start_text-is_start (StartPosition.relative_to_end n) h = refl
start_text-is_start (StartPosition.timestamp_millis time) h = refl

-- The boundaries that resolve_offsets can give.
abbrev pub end_fits : Option EndPosition → Bool
end_fits none = true
end_fits (some (EndPosition.exclusive_offset (pos n))) = true
end_fits (some (EndPosition.timestamp_millis (pos n))) = leb n i64_max
end_fits (some _) = false

abbrev pub end_texts : Option EndPosition → List Bytes
end_texts (some (EndPosition.timestamp_millis time)) = (codes "e@" ++ display time) ∷ []
end_texts _ = []

abbrev pub end_argument : Option EndPosition → Option ℤ
end_argument (some (EndPosition.exclusive_offset offset)) = some offset
end_argument _ = none

abbrev pub either_order : Bool → Bytes → List Bytes → List Bytes
either_order end_first start ends = if end_first then ends ++ start ∷ [] else start ∷ ends

take_offset-start :
    (start : StartPosition) (end : Option EndPosition)
    → start_fits start ≡ true
    → take_offset (start_text start) (none, end) ≡ ok (some start, end)
unfolding take_offset
take_offset-start start end h =
    let apart = start_text-is_start start h in
    let read = start_position-start_text start h in rw (take_offset, apart, read) refl

take_offset-end :
    (start : Option StartPosition) (n : ℕ)
    → leb n i64_max ≡ true
    → take_offset (codes "e@" ++ display (pos n)) (start, none)
      ≡ ok (start, some (EndPosition.timestamp_millis (pos n)))
unfolding take_offset strip_prefix
take_offset-end start n h =
    let value = parse_nonnegative_i64-display n end_timestamp h in rw value refl

-- The option text of a start position that i64 can hold and the option of an end boundary, an
-- offset or a timestamp option before or after the start's, resolve to that position and that
-- boundary.
pub resolve_offsets-printed :
    (end_first : Bool) (start : StartPosition) (end : Option EndPosition)
    → start_fits start ≡ true
    → end_fits end ≡ true
    → resolve_offsets (either_order end_first (start_text start) (end_texts end)) (end_argument end)
      ≡ ok (start, end)
unfolding resolve_offsets take_offsets
resolve_offsets-printed true start none h g = let a = take_offset-start start none h in rw a refl
resolve_offsets-printed true start (some (EndPosition.exclusive_offset (pos n))) h g =
    let a = take_offset-start start (some (EndPosition.exclusive_offset (pos n))) h in
    rw a (ground arith)
resolve_offsets-printed false start none h g = let a = take_offset-start start none h in rw a refl
resolve_offsets-printed false start (some (EndPosition.exclusive_offset (pos n))) h g =
    let a = take_offset-start start (some (EndPosition.exclusive_offset (pos n))) h in
    rw a (ground arith)
resolve_offsets-printed true start (some (EndPosition.timestamp_millis (pos n))) h g =
    let a = take_offset-end none n g in
    let b = take_offset-start start (some (EndPosition.timestamp_millis (pos n))) h in
    rw (a, b) refl
resolve_offsets-printed false start (some (EndPosition.timestamp_millis (pos n))) h g =
    let a = take_offset-start start none h in
    let b = take_offset-end (some start) n g in rw (a, b) refl
resolve_offsets-printed end_first start (some (EndPosition.exclusive_offset (negsuc n))) h g =
    absurd (ground arith)
resolve_offsets-printed end_first start (some (EndPosition.timestamp_millis (negsuc n))) h g =
    absurd (ground arith)
resolve_offsets-printed end_first start (some EndPosition.snapshot) h g = absurd (ground arith)
