-- ===== src/Cli/Quantities.antt =====
-- `parse_duration` and `parse_size` of src/cli.rs.
pub mod Printed
use jkq.Prelude.{
  ltb, if◌then◌else◌, Bytes, Result, ok, err, ◌>>=◌, ◌>>◌, ok_or, word_mod, checked_mul, ℕ, ◌-◌,
  ◌*◌, ◌^◌, Option, none, some, codes,
}
use jkq.Text.{strip_suffix}
use jkq.Text.Integers.{parse_unsigned}

pub data QuantityError : Type 0 where
  unknown_duration_unit duration_not_an_integer duration_not_representable : QuantityError
  size_not_an_integer size_too_large size_too_large_for_platform : QuantityError

-- The number's text and the milliseconds of its unit.
unfoldable pub duration_unit : Bytes → Result QuantityError (Bytes × ℕ)
unfolding strip_suffix
duration_unit value = elim (strip_suffix (codes "ms") value) [
  | some number ↦ ok (number, 1)
  | none ↦ elim (strip_suffix (codes "s") value) [
    | some number ↦ ok (number, 1_000)
    | none ↦ elim (strip_suffix (codes "m") value) [
      | some number ↦ ok (number, 60_000)
      | none ↦ err unknown_duration_unit
    ]
  ]
]

abbrev if_positive : Option ℕ → Option ℕ
if_positive none = none
if_positive (some n) = if ltb 0 n then some n else none

-- In milliseconds.
unfoldable pub parse_duration : Bytes → Result QuantityError ℕ
unfolding duration_unit parse_unsigned
parse_duration value = do
  (text, multiplier) ← duration_unit value
  number ← ok_or (parse_unsigned (word_mod - 1) text) duration_not_an_integer
  ok_or (if_positive (checked_mul number multiplier)) duration_not_representable

-- The number's text and the bytes of its unit.
unfoldable pub size_unit : Bytes → Bytes × ℕ
unfolding strip_suffix
size_unit value = elim (strip_suffix (codes "GiB") value) [
  | some number ↦ (number, 1024 ^ 3)
  | none ↦ elim (strip_suffix (codes "MiB") value) [
    | some number ↦ (number, 1024 ^ 2)
    | none ↦ elim (strip_suffix (codes "KiB") value) [
      | some number ↦ (number, 1024)
      | none ↦ (value, 1)
    ]
  ]
]

-- `u128::checked_mul`.
abbrev checked_mul_u128 : ℕ → ℕ → Option ℕ
checked_mul_u128 a b = if ltb (a * b) (2 ^ 128) then some (a * b) else none

unfoldable pub parse_size : Bytes → Result QuantityError ℕ
unfolding size_unit parse_unsigned
parse_size value =
    let (text, multiplier) = size_unit value in
    do
      number ← ok_or (parse_unsigned (2 ^ 128 - 1) text) size_not_an_integer
      bytes ← ok_or (checked_mul_u128 number multiplier) size_too_large
      if ltb bytes word_mod then ok bytes else err size_too_large_for_platform
