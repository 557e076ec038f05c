-- ===== src/Runtime/Action.antt =====
-- What `write_action` of src/runtime.rs makes of an action, before it writes: the payload and the
-- emitted action, nothing for a drop, or an internal error.
pub mod Transformed
use jkq.Prelude.{Bytes, length, Result, ok, err, Bool, true, false, Option, none, some}
use jkq.Cli.Config.{embeds_json}
use jkq.Records.{Action, PassPayload, SourceRecord}
use jkq.Int.{pos}
use jkq.Output.Render.{Payload, EmittedAction, OutputRecord}

pub data ActionError : Type 0 where
  not_json json_without_envelope : ActionError

unfoldable pub select_payload :
    Bool → Action → Result ActionError (Option (Payload × EmittedAction))
select_payload embeds_json Action.drop_record = ok none
select_payload embeds_json Action.tombstone = ok (some (Payload.tombstone, EmittedAction.tombstone))
select_payload true (Action.pass_through (PassPayload.exact b)) = err not_json
select_payload false (Action.pass_through (PassPayload.exact b)) =
    ok (some (Payload.bytes b.bytes, EmittedAction.pass_through))
select_payload true (Action.pass_through (PassPayload.json b n)) =
    ok (some (Payload.json b.bytes n, EmittedAction.pass_through))
select_payload false (Action.pass_through (PassPayload.json b n)) = err json_without_envelope
select_payload true (Action.project b) =
    ok (some (Payload.json b.bytes (length b.bytes), EmittedAction.project))
select_payload false (Action.project b) = ok (some (Payload.bytes b.bytes, EmittedAction.project))

unfoldable pub output_record : Bytes → SourceRecord → Payload → EmittedAction → OutputRecord
output_record topic source payload action = record {
  topic = topic;
  partition = pos source.partition;
  offset = source.offset;
  timestamp = source.timestamp;
  key = source.key;
  headers = source.headers;
  source_payload_length = source.payload_length;
  payload = payload;
  action = action;
}
