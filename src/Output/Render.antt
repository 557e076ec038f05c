-- ===== src/Output/Render.antt =====
-- `CompiledFormat::write_to` and `requirements` of src/output.rs.
pub mod Text
pub mod Vector
pub mod Requirements
use jkq.Prelude.{
  ltb, leb, ◌==◌, if◌then◌else◌, Bytes, length, Result, ok, err, ◌>>=◌, ◌>>◌, i32_max, ℕ, ◌+◌, Bool,
  true, false, ◌&&◌, ◌||◌, Option, none, some, List, [], ◌∷◌,
}
use jkq.Int.{ℤ, pos, negsuc}
use jkq.Records.{Header, Timestamp}
use jkq.Output.Tokens.{FormatToken}
use jkq.Output.Writer.{
  Writer, WriteError, Output, write_bytes, write_decimal, write_optional_length, length_be_bytes,
}

pub data Payload : Type 0 where
  tombstone : Payload
  bytes : Bytes → Payload
  json : Bytes → ℕ → Payload

abbrev pub payload_bytes : Payload → Option Bytes
payload_bytes Payload.tombstone = none
payload_bytes (Payload.bytes bs) = some bs
payload_bytes (Payload.json bs n) = some bs

abbrev pub payload_length : Payload → Option ℕ
payload_length Payload.tombstone = none
payload_length (Payload.bytes bs) = some (length bs)
payload_length (Payload.json bs n) = some n

pub data EmittedAction : Type 0 where
  tombstone pass_through project : EmittedAction

-- tombstone, pass, project
abbrev pub action_text : EmittedAction → Bytes
action_text EmittedAction.tombstone =
    116 ∷ (111 ∷ (109 ∷ (98 ∷ (115 ∷ (116 ∷ (111 ∷ (110 ∷ (101 ∷ []))))))))
action_text EmittedAction.pass_through = 112 ∷ (97 ∷ (115 ∷ (115 ∷ [])))
action_text EmittedAction.project = 112 ∷ (114 ∷ (111 ∷ (106 ∷ (101 ∷ (99 ∷ (116 ∷ []))))))

pub record OutputRecord : Type 0 where
  pub topic : Bytes
  pub partition : ℤ
  pub offset : ℤ
  pub timestamp : Option Timestamp
  pub key : Option Bytes
  pub headers : List Header
  pub source_payload_length : Option ℕ
  pub payload : Payload
  pub action : EmittedAction

abbrev pub is_length_binary : FormatToken → Bool
is_length_binary FormatToken.payload_length_binary = true
is_length_binary _ = false

abbrev pub any_token : (FormatToken → Bool) → List FormatToken → Bool
any_token test [] = false
any_token test (t ∷ tokens) = test t || any_token test tokens

abbrev pub length_or_minus_one : Option ℕ → ℤ
length_or_minus_one none = negsuc 0
length_or_minus_one (some n) = pos n

abbrev pub timestamp_or_minus_one : Option Timestamp → ℤ
timestamp_or_minus_one none = negsuc 0
timestamp_or_minus_one (some t) = t.milliseconds

abbrev pub or_empty : Option Bytes → Bytes
or_empty none = []
or_empty (some bs) = bs

-- `NULL`
abbrev pub null_text : Bytes
null_text = 78 ∷ (85 ∷ (76 ∷ (76 ∷ [])))

-- The payload's length, if it is too long for `%R` and the format has one.
unfoldable pub excess_length : List FormatToken → Option ℕ → Option ℕ
excess_length tokens none = none
excess_length tokens (some n) =
    if ltb i32_max n && any_token is_length_binary tokens then some n else none

pub record OutputRequirements : Type 0 where
  pub key : Bool
  pub headers : Bool
  pub timestamp : Bool

abbrev pub is_key : FormatToken → Bool
is_key FormatToken.key = true
is_key FormatToken.key_length = true
is_key _ = false

abbrev pub is_headers : FormatToken → Bool
is_headers FormatToken.headers = true
is_headers _ = false

abbrev pub is_timestamp : FormatToken → Bool
is_timestamp FormatToken.timestamp = true
is_timestamp _ = false

unfoldable pub requirements : List FormatToken → OutputRequirements
requirements tokens = record {
  key = any_token is_key tokens;
  headers = any_token is_headers tokens;
  timestamp = any_token is_timestamp tokens;
}

module _ (w : Writer) where
  unfoldable pub write_header_value : Option Bytes → Output w → Result WriteError (Output w)
  write_header_value none o = write_bytes w null_text o
  write_header_value (some value) o = write_bytes w value o

  -- The loop over the headers, with a comma before all but the first.
  unfoldable pub write_headers : ℕ → List Header → Output w → Result WriteError (Output w)
  unfolding write_header_value
  write_headers index [] o = ok o
  write_headers index (header ∷ rest) o = do
    o1 ← (if index == 0 then ok o else write_bytes w (44 ∷ []) o)
    o2 ← write_bytes w header.name o1
    o3 ← write_bytes w (61 ∷ []) o2
    o4 ← write_header_value header.value o3
    write_headers (index + 1) rest o4

  unfoldable pub write_payload : Option Bytes → Output w → Result WriteError (Output w)
  write_payload none o = ok o
  write_payload (some bs) o = write_bytes w bs o

  unfoldable pub write_length_binary : Option ℕ → Output w → Result WriteError (Output w)
  unfolding length_be_bytes
  write_length_binary none o = write_bytes w (length_be_bytes none) o
  write_length_binary (some n) o =
      if leb n i32_max
      then write_bytes w (length_be_bytes (some n)) o
      else err WriteError.not_prevalidated

  unfoldable pub write_token : OutputRecord → FormatToken → Output w → Result WriteError (Output w)
  unfolding write_headers write_payload write_length_binary
  write_token r (FormatToken.literal text) o = write_bytes w text o
  write_token r FormatToken.offset o = write_decimal w r.offset o
  write_token r FormatToken.key o = write_bytes w (or_empty r.key) o
  write_token r FormatToken.key_length o = write_optional_length w r.key o
  write_token r FormatToken.payload o = write_payload (payload_bytes r.payload) o
  write_token r FormatToken.payload_length o =
      write_decimal w (length_or_minus_one (payload_length r.payload)) o
  write_token r FormatToken.source_payload_length o =
      write_decimal w (length_or_minus_one r.source_payload_length) o
  write_token r FormatToken.payload_length_binary o =
      write_length_binary (payload_length r.payload) o
  write_token r FormatToken.topic o = write_bytes w r.topic o
  write_token r FormatToken.partition o = write_decimal w r.partition o
  write_token r FormatToken.timestamp o = write_decimal w (timestamp_or_minus_one r.timestamp) o
  write_token r FormatToken.headers o = write_headers 0 r.headers o
  write_token r FormatToken.action o = write_bytes w (action_text r.action) o

  unfoldable pub write_tokens :
      OutputRecord → List FormatToken → Output w → Result WriteError (Output w)
  unfolding write_token
  write_tokens r [] o = ok o
  write_tokens r (t ∷ tokens) o = do o' ← write_token r t o; write_tokens r tokens o'

  unfoldable pub write_to : List FormatToken → OutputRecord → w.State → Result WriteError (Output w)
  unfolding write_tokens excess_length
  write_to tokens r output = elim (excess_length tokens (payload_length r.payload)) [
    | some n ↦ err (WriteError.payload_too_long n)
    | none ↦ write_tokens r tokens (output, 0)
  ]
