-- ===== src/Cli/Offsets.antt =====
-- `resolve_offsets` and `parse_nonnegative_i64` of src/cli.rs.
pub mod Printed
use jkq.Prelude.{
  if◌then◌else◌, is_some, Bytes, Result, ok, err, ◌>>=◌, ◌>>◌, fail_if, ok_or, i64_max, ◌+◌, Bool,
  false, Option, none, some, List, [], ◌∷◌, codes, map_some,
}
use jkq.Int.{ℤ, pos, negsuc, ltb_ℤ}
use jkq.Text.{same, strip_prefix}
use jkq.Text.Integers.{parse_signed}
use jkq.Cli.{StartPosition, EndPosition}

pub data Label : Type 0 where
  end_timestamp start_timestamp : Label

pub data OffsetError : Type 0 where
  negative_end_offset second_end second_start : OffsetError
  not_milliseconds negative_timestamp : Label → OffsetError
  unsupported_position : Bytes → OffsetError

unfoldable pub parse_nonnegative_i64 : Bytes → Label → Result OffsetError ℤ
unfolding parse_signed
parse_nonnegative_i64 text label = do
  value ← ok_or (parse_signed i64_max text) (not_milliseconds label)
  if ltb_ℤ value (pos 0) then err (negative_timestamp label) else ok value

-- A start position's text.
unfoldable pub start_position : Bytes → Result OffsetError StartPosition
unfolding parse_nonnegative_i64 same
start_position raw =
    if same raw (codes "beginning")
    then ok StartPosition.beginning
    else if same raw (codes "end")
    then ok StartPosition.at_end
    else elim (strip_prefix (codes "s@") raw) [
      | some text ↦
          (parse_nonnegative_i64 text start_timestamp >>= λ value.
          ok (StartPosition.timestamp_millis value))
      | none ↦ elim (parse_signed i64_max raw) [
        | none ↦ err (unsupported_position raw)
        | some (pos n) ↦ ok (StartPosition.absolute (pos n))
        -- `unsigned_abs`
        | some (negsuc n) ↦ ok (StartPosition.relative_to_end (n + 1))
      ]
    ]

abbrev pub Positions : Type 0
Positions = Option StartPosition × Option EndPosition

-- A round of the loop.
unfoldable pub take_offset : Bytes → Positions → Result OffsetError Positions
unfolding start_position strip_prefix
take_offset raw (start, end) = elim (strip_prefix (codes "e@") raw) [
  | some text ↦ (do
    fail_if (is_some end) second_end
    value ← parse_nonnegative_i64 text end_timestamp
    ok (start, some (EndPosition.timestamp_millis value)))
  | none ↦ (do
    fail_if (is_some start) second_start
    position ← start_position raw
    ok (some position, end))
]

unfoldable pub take_offsets : List Bytes → Positions → Result OffsetError Positions
unfolding take_offset
take_offsets [] positions = ok positions
take_offsets (raw ∷ raws) positions = take_offset raw positions >>= take_offsets raws

abbrev is_negative : Option ℤ → Bool
is_negative none = false
is_negative (some offset) = ltb_ℤ offset (pos 0)

abbrev or_beginning : Option StartPosition → StartPosition
or_beginning none = StartPosition.beginning
or_beginning (some start) = start

unfoldable pub resolve_offsets :
    List Bytes → Option ℤ → Result OffsetError (StartPosition × Option EndPosition)
unfolding take_offsets
resolve_offsets offsets end_offset = do
  fail_if (is_negative end_offset) negative_end_offset
  (start, end) ← take_offsets offsets (none, map_some EndPosition.exclusive_offset end_offset)
  ok (or_beginning start, end)
