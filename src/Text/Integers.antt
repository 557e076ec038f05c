-- ===== src/Text/Integers.antt =====
-- `str::parse` of Rust's integer types, which src/cli.rs uses, and what it makes of printed numbers.
pub mod Printed
use jkq.Prelude.{
  leb, ◌==◌, if◌then◌else◌, Bytes, ℕ, zero, suc, ◌+◌, Option, none, some, [], ◌∷◌, map_some,
}
use jkq.Int.{ℤ, negsuc, pos}
use jkq.Output.Numbers.{read_digits}

abbrev pub up_to : ℕ → Option ℕ → Option ℕ
up_to largest none = none
up_to largest (some n) = if leb n largest then some n else none

-- At least one digit, and nothing else. A sum above the type's largest value overflows.
unfoldable pub parse_digits : ℕ → Bytes → Option ℕ
unfolding read_digits
parse_digits largest [] = none
parse_digits largest (d ∷ ds) = up_to largest (read_digits 0 (d ∷ ds))

-- `u64` and `u128`: a plus sign may stand in front.
unfoldable pub parse_unsigned : ℕ → Bytes → Option ℕ
unfolding parse_digits
parse_unsigned largest [] = none
parse_unsigned largest (b ∷ s) =
    if b == b'+' then parse_digits largest s else parse_digits largest (b ∷ s)

abbrev pub negated : Option ℕ → Option ℤ
negated none = none
negated (some zero) = some (pos 0)
negated (some (suc n)) = some (negsuc n)

-- `i32` and `i64`, with the largest value: the least is one below its negative.
unfoldable pub parse_signed : ℕ → Bytes → Option ℤ
unfolding parse_digits parse_unsigned
parse_signed largest [] = none
parse_signed largest (b ∷ s) =
    if b == b'-'
    then negated (parse_digits (largest + 1) s)
    else map_some pos (parse_unsigned largest (b ∷ s))
