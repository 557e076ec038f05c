-- ===== src/Output/Writer.antt =====
-- How src/output.rs writes and counts. A writer that fails is not used again, so what it has
-- written by then is not kept.
use jkq.Prelude.{
  ltb, Bytes, length, Result, ok, ◌>>=◌, ok_or, checked_add, ℕ, zero, suc, ◌+◌, ◌/◌, ◌%◌, ◌^◌, true,
  false, Option, none, some, [], ◌∷◌, ◌++◌,
}
use jkq.Int.{ℤ, pos, negsuc}

pub data WriteError : Type 0 where
  refused : Bytes → WriteError
  count_overflowed : WriteError
  payload_too_long : ℕ → WriteError
  -- The `expect` on the length that `write_to` validates before.
  not_prevalidated : WriteError

-- `impl Write`.
pub record Writer : Type 1 where
  pub State : Type 0
  pub write_all : Bytes → State → Result WriteError State

-- `Vec<u8>` as a writer.
abbrev pub vec_writer : Writer
vec_writer = record { State = Bytes; write_all = λ bytes output. ok (output ++ bytes) }

-- The digits of a number. Each round drops one, so the number itself is fuel enough.
unfoldable pub digits_loop : ℕ → ℕ → Bytes
digits_loop zero n = (48 + n) ∷ []
digits_loop (suc fuel) n = elim (ltb n 10) [
  | true ↦ (48 + n) ∷ []
  | false ↦ digits_loop fuel (n / 10) ++ (48 + n % 10) ∷ []
]

-- `Display` of an integer.
unfoldable pub display : ℤ → Bytes
unfolding digits_loop
display (pos n) = digits_loop n n
display (negsuc n) = 45 ∷ digits_loop (n + 1) (n + 1)

-- `i32::to_be_bytes` of a length, or of -1.
unfoldable pub length_be_bytes : Option ℕ → Bytes
length_be_bytes none = 255 ∷ (255 ∷ (255 ∷ (255 ∷ [])))
length_be_bytes (some n) =
    n / 2 ^ 24 % 256 ∷ (n / 2 ^ 16 % 256 ∷ (n / 2 ^ 8 % 256 ∷ (n % 256 ∷ [])))

module _ (w : Writer) where
  open w use {State, write_all}

  -- The writer and the count so far.
  abbrev pub Output : Type 0
  Output = State × ℕ

  unfoldable pub write_bytes : Bytes → Output → Result WriteError Output
  write_bytes bytes (output, written) = do
    total ← ok_or (checked_add written (length bytes)) count_overflowed
    output' ← write_all bytes output
    ok (output', total)

  -- Through `CountingWriter`, which counts what was written.
  unfoldable pub write_decimal : ℤ → Output → Result WriteError Output
  unfolding display
  write_decimal value (output, written) = do
    output' ← write_all (display value) output
    total ← ok_or (checked_add written (length (display value))) count_overflowed
    ok (output', total)

  unfoldable pub write_optional_length : Option Bytes → Output → Result WriteError Output
  unfolding write_decimal
  write_optional_length none o = write_decimal (negsuc 0) o
  write_optional_length (some value) o = write_decimal (pos (length value)) o
