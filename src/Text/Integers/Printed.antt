-- ===== src/Text/Integers/Printed.antt =====
-- Printed integers, read by Rust's `str::parse` (src/cli.rs).
use jkq.Prelude.{
  ltb, leb, ◌==◌, Bool-cases, Bytes, All, All-append, ℕ, zero, suc, ◌+◌, ◌/◌, ◌%◌, ◌≤◌, ◌≡◌, refl,
  sym, ap, ◌∙◌, subst, inl, inr, true, false, ◌&&◌, some, [], ◌∷◌, arith,
}
use jkq.Int.{ℤ, pos, negsuc, pos_part, neg_part}
use jkq.Output.Writer.{digits_loop, display}
use jkq.Output.Numbers.{read_digits, digits-read, digits_loop-head}
use jkq.Text.Integers.{parse_digits, parse_unsigned, parse_signed, up_to}

abbrev pub IsDigit : ℕ → Type 0
IsDigit b = (leb b'0' b && leb b b'9') ≡ true

pub digits_loop-IsDigit : (fuel n : ℕ) → n ≤ fuel → All IsDigit (digits_loop fuel n)
unfolding digits_loop
digits_loop-IsDigit zero n h = (ground arith, tt)
digits_loop-IsDigit (suc fuel) n h = elim (Bool-cases (ltb n 10)) [
  | inl f ↦ rw (f, digits_loop) ((ground arith, tt))
  | inr f ↦
      let front = digits_loop-IsDigit fuel (n / 10) (omega arith) in
      let last : IsDigit (48 + n % 10) = ground arith in
      rw (f, digits_loop)
        (All-append IsDigit (digits_loop fuel (n / 10)) ((48 + n % 10) ∷ []) front (last, tt))
]

-- The text of a number has digits only, and one at least.
pub decimal-digits :
    (n : ℕ) → (d : ℕ) × ((ds : Bytes) × ((digits_loop n n ≡ d ∷ ds) × (IsDigit d × All IsDigit ds)))
decimal-digits n =
    let (d, (ds, (e, g))) = digits_loop-head n n in
    (d, (ds, (e, subst (All IsDigit) e (digits_loop-IsDigit n n (omega arith)))))

pub parse_digits-decimal :
    (largest n : ℕ) → parse_digits largest (digits_loop n n) ≡ up_to largest (some n)
unfolding parse_digits
parse_digits-decimal largest n =
    let (d, (ds, (e, g))) = decimal-digits n in
    let value : read_digits 0 (d ∷ ds) ≡ some n = ap (read_digits 0) (sym e) ∙ digits-read n in
    ap (parse_digits largest) e ∙ ap (up_to largest) value

pub parse_unsigned-decimal :
    (largest n : ℕ) → parse_unsigned largest (digits_loop n n) ≡ up_to largest (some n)
unfolding parse_unsigned
parse_unsigned-decimal largest n =
    let (d, (ds, (e, (digit, g)))) = decimal-digits n in
    let value : parse_digits largest (d ∷ ds) ≡ up_to largest (some n) =
      ap (parse_digits largest) (sym e) ∙ parse_digits-decimal largest n in
    let plain : (d == b'+') ≡ false = ground arith in
    ap (parse_unsigned largest) e ∙ rw (parse_unsigned, plain) value

-- An integer of the type reads back as itself.
pub parse_signed-display :
    (largest : ℕ) (value : ℤ)
    → leb (pos_part value) largest ≡ true
    → leb (neg_part value) (largest + 1) ≡ true
    → parse_signed largest (display value) ≡ some value
unfolding parse_signed display
parse_signed-display largest (pos n) h g =
    let (d, (ds, (e, (digit, i)))) = decimal-digits n in
    let value : parse_unsigned largest (d ∷ ds) ≡ up_to largest (some n) =
      ap (parse_unsigned largest) (sym e) ∙ parse_unsigned-decimal largest n in
    let plain : (d == b'-') ≡ false = ground arith in
    ap (parse_signed largest) e ∙ rw (parse_signed, plain, value, h) refl
parse_signed-display largest (negsuc n) h g =
    let value : parse_digits (largest + 1) (digits_loop (n + 1) (n + 1)) ≡ some (n + 1) =
      parse_digits-decimal (largest + 1) (n + 1) ∙ ground arith in
    rw value (ground arith)
