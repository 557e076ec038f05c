-- ===== src/Output/Numbers.antt =====
-- The numbers that src/output.rs writes can be read back.
use jkq.Prelude.{
  ltb, leb, ◌==◌, if◌then◌else◌, leb→le, Bool-cases, Bytes, i32_max, ℕ, zero, suc, ◌+◌, ◌-◌, ◌*◌,
  ◌/◌, ◌%◌, ◌^◌, ◌≤◌, ◌<◌, ◌≡◌, refl, sym, ap, ◌∙◌, inl, inr, true, false, ◌&&◌, Option, none, some,
  [], ◌∷◌, ◌++◌, append-nil, append_assoc, arith,
}
use jkq.Int.{ℤ, pos, negsuc}
use jkq.Output.Writer.{digits_loop, display, length_be_bytes}

-- A big-endian 32-bit word in two's complement.
unfoldable pub read_be_i32 : Bytes → Option ℤ
read_be_i32 (a ∷ (b ∷ (c ∷ (d ∷ [])))) =
    let word : ℕ = ((a * 256 + b) * 256 + c) * 256 + d in
    some (if leb word i32_max then pos word else negsuc (2 ^ 32 - 1 - word))
read_be_i32 _ = none

abbrev pub or_zero : Option ℕ → ℕ
or_zero none = 0
or_zero (some n) = n

abbrev pub length_value : Option ℕ → ℤ
length_value none = negsuc 0
length_value (some n) = pos n

-- The four bytes of %R, read as a big-endian signed 32-bit number, are the payload's length if
-- that is within the 32-bit limit, and -1 for a tombstone.
pub read-length_be_bytes :
    (length : Option ℕ)
    → leb (or_zero length) i32_max ≡ true
    → read_be_i32 (length_be_bytes length) ≡ some (length_value length)
unfolding read_be_i32 length_be_bytes
read-length_be_bytes none h = refl
read-length_be_bytes (some n) h =
    let bound : n ≤ 2147483647 = leb→le n i32_max h in
    let word : ((n / 2 ^ 24 % 256 * 256 + n / 2 ^ 16 % 256) * 256 + n / 2 ^ 8 % 256) * 256 + n % 256
        ≡ n =
      omega (arith, bound) in
    let fits : leb n i32_max ≡ true = h in rw (word, fits) refl

-- Digits, the most significant first.
unfoldable pub read_digits : ℕ → Bytes → Option ℕ
read_digits value [] = some value
read_digits value (d ∷ ds) =
    if leb 48 d && leb d 57 then read_digits (value * 10 + (d - 48)) ds else none

unfoldable pub read_integer : Bytes → Option ℤ
unfolding read_digits
read_integer [] = none
read_integer (d ∷ ds) =
    if d == 45
    then (elim (read_digits 0 ds) [
      | none ↦ none
      | some zero ↦ none
      | some (suc n) ↦ some (negsuc n)
    ])
    else (elim (read_digits 0 (d ∷ ds)) [ none ↦ none | some n ↦ some (pos n) ])

pub read_digits-digit :
    (value x m : ℕ) (rest : Bytes)
    → x < 10
    → m ≡ value * 10 + x
    → read_digits value ((48 + x) ∷ rest) ≡ read_digits m rest
unfolding read_digits
read_digits-digit value x m rest h e =
    let low : leb 48 (48 + x) ≡ true = ground arith in
    let high : leb (48 + x) 57 ≡ true = ground arith in
    let digit : value * 10 + (48 + x - 48) ≡ m = ground arith in rw (low, high, digit) refl

pub digits_loop-read :
    (fuel n : ℕ) (rest : Bytes)
    → n ≤ fuel
    → read_digits 0 (digits_loop fuel n ++ rest) ≡ read_digits n rest
unfolding digits_loop
digits_loop-read zero n rest h = read_digits-digit 0 n n rest (ground arith) (omega arith)
digits_loop-read (suc fuel) n rest h =
    let shorter = digits_loop-read fuel (n / 10) ((48 + n % 10) ∷ rest) in
    elim (Bool-cases (ltb n 10)) [
      | inl f ↦ rw (f, digits_loop) (read_digits-digit 0 n n rest (ground arith) (omega arith))
      | inr f ↦
          rw (f, digits_loop, append_assoc (digits_loop fuel (n / 10)) ((48 + n % 10) ∷ []) rest)
            (shorter (ground arith)
              ∙ read_digits-digit (n / 10) (n % 10) n rest (omega arith) (omega arith))
    ]

pub digits_loop-head :
    (fuel n : ℕ) → (d : ℕ) × ((ds : Bytes) × ((digits_loop fuel n ≡ d ∷ ds) × ((d == 45) ≡ false)))
unfolding digits_loop
digits_loop-head zero n = (48 + n, ([], (refl, ground arith)))
digits_loop-head (suc fuel) n =
    let (d, (ds, (e, g))) = digits_loop-head fuel (n / 10) in
    elim (Bool-cases (ltb n 10)) [
      | inl f ↦ rw (f, digits_loop) (48 + n, ([], (refl, ground arith)))
      | inr f ↦ rw (f, digits_loop, e) (d, (ds ++ (48 + n % 10) ∷ [], (refl, g)))
    ]

pub digits-read : (n : ℕ) → read_digits 0 (digits_loop n n) ≡ some n
unfolding read_digits
digits-read n =
    ap (read_digits 0) (sym (append-nil (digits_loop n n))) ∙ digits_loop-read n n [] (ground arith)

-- The decimal text of an integer, with its sign if it is negative, reads back as that integer.
pub read-display : (value : ℤ) → read_integer (display value) ≡ some value
unfolding read_integer display
read-display (pos n) =
    let (d, (ds, (e, g))) = digits_loop-head n n in
    let value : read_digits 0 (d ∷ ds) ≡ some n = ap (read_digits 0) (sym e) ∙ digits-read n in
    rw (e, g, value) refl
read-display (negsuc n) =
    let value : read_digits 0 (digits_loop (n + 1) (n + 1)) ≡ some (suc n) =
      digits-read (n + 1) ∙ ap some (ground arith) in
    rw value refl
