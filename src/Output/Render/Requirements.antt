-- ===== src/Output/Render/Requirements.antt =====
-- What `CompiledFormat::requirements` (src/output.rs) leaves out, no writer sees.
use jkq.Prelude.{
  if◌then◌else◌, Option-cases, ◌≡◌, refl, inl, inr, true, none, List, [], ◌∷◌, arith, bind_cong,
}
use jkq.Output.Tokens.{FormatToken}
use jkq.Output.Writer.{Writer, Output}
use jkq.Output.Render.{
  OutputRecord, OutputRequirements, requirements, write_token, write_tokens, write_to,
  excess_length, payload_length, any_token, is_headers, is_key, is_timestamp,
}

-- A record with only the required of the three optional parts.
abbrev pub stripped : OutputRequirements → OutputRecord → OutputRecord
stripped required r = record r {
  key = if required.key then r.key else none;
  headers = if required.headers then r.headers else [];
  timestamp = if required.timestamp then r.timestamp else none;
}

record IsRequired (required : OutputRequirements) (tokens : List FormatToken) : Type 0 where
  key_required : any_token is_key tokens ≡ true → required.key ≡ true
  headers_required : any_token is_headers tokens ≡ true → required.headers ≡ true
  timestamp_required : any_token is_timestamp tokens ≡ true → required.timestamp ≡ true

module _ (w : Writer) where
  write_token-stripped :
      (required : OutputRequirements) (r : OutputRecord) (t : FormatToken) (o : Output w)
      → IsRequired required (t ∷ [])
      → write_token w (stripped required r) t o ≡ write_token w r t o
  unfolding write_token
  write_token-stripped required r FormatToken.key o h = rw (h.key_required refl) refl
  write_token-stripped required r FormatToken.key_length o h = rw (h.key_required refl) refl
  write_token-stripped required r FormatToken.headers o h = rw (h.headers_required refl) refl
  write_token-stripped required r FormatToken.timestamp o h = rw (h.timestamp_required refl) refl
  write_token-stripped required r (FormatToken.literal text) o h = refl
  write_token-stripped required r FormatToken.offset o h = refl
  write_token-stripped required r FormatToken.payload o h = refl
  write_token-stripped required r FormatToken.payload_length o h = refl
  write_token-stripped required r FormatToken.source_payload_length o h = refl
  write_token-stripped required r FormatToken.payload_length_binary o h = refl
  write_token-stripped required r FormatToken.topic o h = refl
  write_token-stripped required r FormatToken.partition o h = refl
  write_token-stripped required r FormatToken.action o h = refl

  write_tokens-stripped :
      (required : OutputRequirements) (r : OutputRecord) (tokens : List FormatToken) (o : Output w)
      → IsRequired required tokens
      → write_tokens w (stripped required r) tokens o ≡ write_tokens w r tokens o
  unfolding write_tokens
  write_tokens-stripped required r [] o h = refl
  write_tokens-stripped required r (t ∷ tokens) o h =
      let first : IsRequired required (t ∷ []) = record {
        key_required = λ e. h.key_required (ground arith);
        headers_required = λ e. h.headers_required (ground arith);
        timestamp_required = λ e. h.timestamp_required (ground arith);
      } in
      let rest : IsRequired required tokens = record {
        key_required = λ e. h.key_required (ground arith);
        headers_required = λ e. h.headers_required (ground arith);
        timestamp_required = λ e. h.timestamp_required (ground arith);
      } in
      rw (write_token-stripped required r t o first) (
        bind_cong (write_token w r t o) (write_tokens w (stripped required r) tokens)
          (write_tokens w r tokens) (λ o'. write_tokens-stripped required r tokens o' rest))

  -- For any writer, write_to gives the same for a record without its key, headers or timestamp
  -- wherever the format's requirements do not name them.
  pub write_to-stripped :
      (tokens : List FormatToken) (r : OutputRecord) (output : w.State)
      → write_to w tokens (stripped (requirements tokens) r) output ≡ write_to w tokens r output
  unfolding write_to requirements
  write_to-stripped tokens r output =
      let same =
        write_tokens-stripped (requirements tokens) r tokens (output, 0)
          (record {
            key_required = λ e. e;
            headers_required = λ e. e;
            timestamp_required = λ e. e;
          }) in
      elim (Option-cases (excess_length tokens (payload_length r.payload))) [
        | inl f ↦ rw (f, write_to) same
        | inr (n, f) ↦ rw (f, write_to) refl
      ]
