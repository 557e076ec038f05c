-- ===== src/Cli/Quantities/Printed.antt =====
-- Printed durations and sizes, read back (src/cli.rs).
use jkq.Prelude.{
  ltb, leb, if◌then◌else◌, Bytes, ok, err, word_mod, ℕ, ◌-◌, ◌*◌, ◌^◌, ◌≡◌, refl, ap, ◌∙◌, false,
  ◌&&◌, none, some, [], ◌∷◌, ◌++◌, append-nil, arith, codes,
}
use jkq.Cli.Quantities.{
  parse_duration, parse_size, duration_unit, size_unit, size_not_an_integer,
  duration_not_an_integer, size_too_large_for_platform, duration_not_representable, size_too_large,
}
use jkq.Output.Writer.{digits_loop}
use jkq.Text.{strip_suffix, same}
use jkq.Text.Suffixes.{strip_suffix-digits}
use jkq.Text.Integers.Printed.{digits_loop-IsDigit, parse_unsigned-decimal}

pub data DurationUnit : Type 0 where
  milliseconds seconds minutes : DurationUnit

abbrev pub duration_suffix : DurationUnit → Bytes
duration_suffix milliseconds = codes "ms"
duration_suffix seconds = codes "s"
duration_suffix minutes = codes "m"

abbrev pub unit_milliseconds : DurationUnit → ℕ
unit_milliseconds milliseconds = 1
unit_milliseconds seconds = 1_000
unit_milliseconds minutes = 60_000

-- The suffix that the number's text has.
found :
    (c : ℕ) (cs : Bytes) (n : ℕ)
    → (leb b'0' c && leb c b'9') ≡ false
    → strip_suffix (c ∷ cs) (c ∷ cs) ≡ some []
    → strip_suffix (c ∷ cs) (digits_loop n n ++ c ∷ cs) ≡ some (digits_loop n n)
found c cs n other h =
    strip_suffix-digits c cs (digits_loop n n) (c ∷ cs) other
      (digits_loop-IsDigit n n (omega arith))
    ∙ rw h (ap some (append-nil (digits_loop n n)))

-- One that it has not.
missing :
    (c : ℕ) (cs more : Bytes) (n : ℕ)
    → (leb b'0' c && leb c b'9') ≡ false
    → strip_suffix (c ∷ cs) more ≡ none
    → strip_suffix (c ∷ cs) (digits_loop n n ++ more) ≡ none
missing c cs more n other h =
    strip_suffix-digits c cs (digits_loop n n) more other (digits_loop-IsDigit n n (omega arith))
    ∙ rw h refl

duration_unit-printed :
    (n : ℕ) (unit : DurationUnit)
    → duration_unit (digits_loop n n ++ duration_suffix unit)
      ≡ ok (digits_loop n n, unit_milliseconds unit)
unfolding duration_unit strip_suffix same
duration_unit-printed n milliseconds =
    let a = found b'm' (codes "s") n refl refl in rw (duration_unit, a) refl
duration_unit-printed n seconds =
    let a = missing b'm' (codes "s") (codes "s") n refl refl in
    let b = found b's' [] n refl refl in rw (duration_unit, a, b) refl
duration_unit-printed n minutes =
    let a = missing b'm' (codes "s") (codes "m") n refl refl in
    let b = missing b's' [] (codes "m") n refl refl in
    let c = found b'm' [] n refl refl in rw (duration_unit, a, b, c) refl

positive : (n : ℕ) (unit : DurationUnit) → ltb 0 (n * unit_milliseconds unit) ≡ ltb 0 n
positive n milliseconds = ground arith
positive n seconds = ground arith
positive n minutes = ground arith

-- A number in decimal with the suffix ms, s or m is parsed to its milliseconds if the number and
-- the product fit u64 and are not zero, and is otherwise refused by the error for the case.
pub parse_duration-printed :
    (n : ℕ) (unit : DurationUnit)
    → parse_duration (digits_loop n n ++ duration_suffix unit) ≡ (
        if leb n (word_mod - 1)
        then (if ltb 0 n && ltb (n * unit_milliseconds unit) word_mod
            then ok (n * unit_milliseconds unit)
            else err duration_not_representable)
        else err duration_not_an_integer)
unfolding parse_duration
parse_duration-printed n unit =
    let a = duration_unit-printed n unit in
    let b = parse_unsigned-decimal (word_mod - 1) n in
    let c = positive n unit in rw (a, b, parse_duration) (ground arith)

pub data SizeUnit : Type 0 where
  bytes kibibytes mebibytes gibibytes : SizeUnit

abbrev pub size_suffix : SizeUnit → Bytes
size_suffix bytes = []
size_suffix kibibytes = codes "KiB"
size_suffix mebibytes = codes "MiB"
size_suffix gibibytes = codes "GiB"

abbrev pub unit_bytes : SizeUnit → ℕ
unit_bytes bytes = 1
unit_bytes kibibytes = 1024
unit_bytes mebibytes = 1024 ^ 2
unit_bytes gibibytes = 1024 ^ 3

size_unit-printed :
    (n : ℕ) (unit : SizeUnit)
    → size_unit (digits_loop n n ++ size_suffix unit) ≡ (digits_loop n n, unit_bytes unit)
unfolding size_unit strip_suffix same
size_unit-printed n bytes =
    let a = missing b'G' (codes "iB") [] n refl refl in
    let b = missing b'M' (codes "iB") [] n refl refl in
    let c = missing b'K' (codes "iB") [] n refl refl in
    rw (size_unit, a, b, c) (ap (λ s. (s, 1)) (append-nil (digits_loop n n)))
size_unit-printed n kibibytes =
    let a = missing b'G' (codes "iB") (codes "KiB") n refl refl in
    let b = missing b'M' (codes "iB") (codes "KiB") n refl refl in
    let c = found b'K' (codes "iB") n refl refl in rw (size_unit, a, b, c) refl
size_unit-printed n mebibytes =
    let a = missing b'G' (codes "iB") (codes "MiB") n refl refl in
    let b = found b'M' (codes "iB") n refl refl in rw (size_unit, a, b) refl
size_unit-printed n gibibytes =
    let a = found b'G' (codes "iB") n refl refl in rw (size_unit, a) refl

-- A number in decimal with the suffix of its unit is parsed to the product if that fits a 64-bit
-- word, and is otherwise refused by the error for a number above u128, a product above u128 or a
-- size above usize.
pub parse_size-printed :
    (n : ℕ) (unit : SizeUnit)
    → parse_size (digits_loop n n ++ size_suffix unit) ≡ (
        if ltb n (2 ^ 128)
        then (if ltb (n * unit_bytes unit) (2 ^ 128)
            then (if ltb (n * unit_bytes unit) word_mod
                then ok (n * unit_bytes unit)
                else err size_too_large_for_platform)
            else err size_too_large)
        else err size_not_an_integer)
unfolding parse_size
parse_size-printed n unit =
    let a = size_unit-printed n unit in
    let b = parse_unsigned-decimal (2 ^ 128 - 1) n in rw (a, b, parse_size) (ground arith)
