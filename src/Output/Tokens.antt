-- ===== src/Output/Tokens.antt =====
-- The tokens and errors of `CompiledFormat` (src/output.rs).
use jkq.Prelude.{Bytes, ℕ}

pub data FormatToken : Type 0 where
  literal : Bytes → FormatToken
  offset key key_length payload payload_length source_payload_length : FormatToken
  payload_length_binary topic partition timestamp headers action : FormatToken

pub data FormatError : Type 0 where
  incomplete_placeholder incomplete_escape bad_hexadecimal : FormatError
  unsupported_placeholder unsupported_escape : ℕ → FormatError
  payload_too_long : ℕ → FormatError
