-- ===== src/Output/Render/Vector.antt =====
-- `CompiledFormat::write_to` (src/output.rs) on a vector: every token, and so the record.
use jkq.Prelude.{
  leb, if◌then◌else◌, Option-cases, Bytes, length, err, i32_max, ℕ, ◌≡◌, refl, sym, inl, inr, Bool,
  true, false, ◌&&◌, Option, none, some, List, [], ◌∷◌, arith,
}
use jkq.Output.Render.Text.{
  write_decimal-Appends, number_text, append_text, headers-Appends, format_text, append_text-nil,
  Appends, token_text, write_bytes-Appends, Appends-then, length_of,
}
use jkq.Int.{pos, negsuc}
use jkq.Output.Render.{
  is_length_binary, OutputRecord, write_token, write_tokens, write_to, excess_length,
  payload_length, payload_bytes, or_empty, write_length_binary, timestamp_or_minus_one,
  write_payload, action_text, length_or_minus_one, any_token,
}
use jkq.Output.Tokens.{FormatToken}
use jkq.Output.Writer.{
  write_decimal, write_optional_length, length_be_bytes, payload_too_long, vec_writer,
}

-- A token that may be written of this record.
abbrev IsShort : OutputRecord → List FormatToken → Type 0
IsShort r tokens = excess_length tokens (payload_length r.payload) ≡ none

write_payload-Appends :
    (value : Option Bytes) → Appends (write_payload vec_writer value) (or_empty value)
unfolding write_payload
write_payload-Appends none o c = sym (append_text-nil o c)
write_payload-Appends (some v) o c = write_bytes-Appends v o c

write_length-Appends :
    (n : Option ℕ) → Appends (write_decimal vec_writer (length_or_minus_one n)) (number_text n)
write_length-Appends none o c = write_decimal-Appends (negsuc 0) o c
write_length-Appends (some n) o c = write_decimal-Appends (pos n) o c

write_optional_length-Appends :
    (value : Option Bytes)
    → Appends (write_optional_length vec_writer value) (number_text (length_of value))
unfolding write_optional_length
write_optional_length-Appends none o c = write_decimal-Appends (negsuc 0) o c
write_optional_length-Appends (some v) o c = write_decimal-Appends (pos (length v)) o c

write_length_binary-Appends :
    (n : Option ℕ) (tokens : List FormatToken)
    → excess_length (FormatToken.payload_length_binary ∷ tokens) n ≡ none
    → Appends (write_length_binary vec_writer n) (length_be_bytes n)
unfolding write_length_binary excess_length
write_length_binary-Appends none tokens h o c = write_bytes-Appends (length_be_bytes none) o c
write_length_binary-Appends (some n) tokens h o c =
    let fits : leb n i32_max ≡ true = ground arith in
    rw (fits, if◌then◌else◌) (write_bytes-Appends (length_be_bytes (some n)) o c)

write_token-Appends :
    (r : OutputRecord) (t : FormatToken) (tokens : List FormatToken)
    → IsShort r (t ∷ tokens)
    → Appends (write_token vec_writer r t) (token_text r t)
unfolding write_token
write_token-Appends r (FormatToken.literal text) tokens h = write_bytes-Appends text
write_token-Appends r FormatToken.offset tokens h = write_decimal-Appends r.offset
write_token-Appends r FormatToken.key tokens h = write_bytes-Appends (or_empty r.key)
write_token-Appends r FormatToken.key_length tokens h = write_optional_length-Appends r.key
write_token-Appends r FormatToken.payload tokens h = write_payload-Appends (payload_bytes r.payload)
write_token-Appends r FormatToken.payload_length tokens h =
    write_length-Appends (payload_length r.payload)
write_token-Appends r FormatToken.source_payload_length tokens h =
    write_length-Appends r.source_payload_length
write_token-Appends r FormatToken.payload_length_binary tokens h =
    write_length_binary-Appends (payload_length r.payload) tokens h
write_token-Appends r FormatToken.topic tokens h = write_bytes-Appends r.topic
write_token-Appends r FormatToken.partition tokens h = write_decimal-Appends r.partition
write_token-Appends r FormatToken.timestamp tokens h =
    write_decimal-Appends (timestamp_or_minus_one r.timestamp)
write_token-Appends r FormatToken.headers tokens h = headers-Appends r.headers
write_token-Appends r FormatToken.action tokens h = write_bytes-Appends (action_text r.action)

excess_length-tail :
    (t : FormatToken) (tokens : List FormatToken) (n : Option ℕ)
    → excess_length (t ∷ tokens) n ≡ none
    → excess_length tokens n ≡ none
unfolding excess_length
excess_length-tail t tokens none h = refl
excess_length-tail t tokens (some n) h = ground arith

write_tokens-Appends :
    (r : OutputRecord) (tokens : List FormatToken)
    → IsShort r tokens
    → Appends (write_tokens vec_writer r tokens) (format_text r tokens)
unfolding write_tokens
write_tokens-Appends r [] h o c = sym (append_text-nil o c)
write_tokens-Appends r (t ∷ tokens) h o c =
    Appends-then (write_token vec_writer r t) (write_tokens vec_writer r tokens) (token_text r t)
      (format_text r tokens) (write_token-Appends r t tokens h)
      (write_tokens-Appends r tokens (excess_length-tail t tokens (payload_length r.payload) h)) o c

-- Whether a format has a %R.
abbrev pub has_length_binary : List FormatToken → Bool
has_length_binary [] = false
has_length_binary (FormatToken.payload_length_binary ∷ tokens) = true
has_length_binary (_ ∷ tokens) = has_length_binary tokens

-- The length that %R cannot write in 32 bits with a sign.
abbrev pub length_beyond_binary : List FormatToken → Option ℕ → Option ℕ
length_beyond_binary tokens none = none
length_beyond_binary tokens (some n) =
    if has_length_binary tokens && leb 2147483648 n then some n else none

any_token-has_length_binary :
    (tokens : List FormatToken) → any_token is_length_binary tokens ≡ has_length_binary tokens
any_token-has_length_binary [] = refl
any_token-has_length_binary ((FormatToken.literal text) ∷ tokens) =
    any_token-has_length_binary tokens
any_token-has_length_binary (FormatToken.offset ∷ tokens) = any_token-has_length_binary tokens
any_token-has_length_binary (FormatToken.key ∷ tokens) = any_token-has_length_binary tokens
any_token-has_length_binary (FormatToken.key_length ∷ tokens) = any_token-has_length_binary tokens
any_token-has_length_binary (FormatToken.payload ∷ tokens) = any_token-has_length_binary tokens
any_token-has_length_binary (FormatToken.payload_length ∷ tokens) =
    any_token-has_length_binary tokens
any_token-has_length_binary (FormatToken.source_payload_length ∷ tokens) =
    any_token-has_length_binary tokens
any_token-has_length_binary (FormatToken.topic ∷ tokens) = any_token-has_length_binary tokens
any_token-has_length_binary (FormatToken.partition ∷ tokens) = any_token-has_length_binary tokens
any_token-has_length_binary (FormatToken.timestamp ∷ tokens) = any_token-has_length_binary tokens
any_token-has_length_binary (FormatToken.headers ∷ tokens) = any_token-has_length_binary tokens
any_token-has_length_binary (FormatToken.action ∷ tokens) = any_token-has_length_binary tokens
any_token-has_length_binary (FormatToken.payload_length_binary ∷ tokens) = refl

excess_length-length_beyond_binary :
    (tokens : List FormatToken) (n : Option ℕ)
    → excess_length tokens n ≡ length_beyond_binary tokens n
unfolding excess_length
excess_length-length_beyond_binary tokens none = refl
excess_length-length_beyond_binary tokens (some n) =
    ground (arith, any_token-has_length_binary tokens)

-- write_to on a vector fails with the payload's length if that is 2147483648 or more and the
-- format has a %R, and only then for its length. Otherwise it appends the texts of the tokens, one
-- after another, and returns the number of bytes that it appended, unless that leaves a machine
-- word, which is an error. The prevalidated conversion of %R never fails.
pub write_to-vec :
    (tokens : List FormatToken) (r : OutputRecord) (output : Bytes)
    → write_to vec_writer tokens r output
      ≡ (elim (length_beyond_binary tokens (payload_length r.payload)) [
        | some n ↦ err (payload_too_long n)
        | none ↦ append_text (format_text r tokens) (output, 0)
      ])
unfolding write_to
write_to-vec tokens r output =
    rw (sym (excess_length-length_beyond_binary tokens (payload_length r.payload)))
      (elim (Option-cases (excess_length tokens (payload_length r.payload))) [
        | inl f ↦ rw (f, write_to) (write_tokens-Appends r tokens f (output, 0) (ground arith))
        | inr (n, f) ↦ rw (f, write_to) refl
      ])
