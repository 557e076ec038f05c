-- ===== src/Runtime/Polling/Source.antt =====
-- `KafkaInput` of src/kafka.rs as the input of the poller of src/runtime.rs: what the native consumer is
-- going to give is listed, and then nothing.
use jkq.Prelude.{Bytes, Result, ℕ, Option, none, List, [], ◌∷◌}
use jkq.Kafka.Buffers.{recycle}
use jkq.Kafka.Input.{KafkaInput, NativeMessage, KafkaFailure, InputError, poll_with_timeout, finish}
use jkq.Records.{PollEvent}
use jkq.Runtime.Polling.{PollInput}

module _ (grow : ℕ → ℕ → ℕ) (header_size : ℕ) (pause_result : ℕ → Result Bytes (Unit {0})) where
  abbrev pub Scripted : Type 0
  Scripted = KafkaInput × List (Option (Result KafkaFailure NativeMessage))

  unfoldable pub poll_script : Scripted → Scripted × Result InputError PollEvent
  unfolding poll_with_timeout
  poll_script (input, []) =
      let (input', result) = poll_with_timeout grow header_size pause_result none input in
      ((input', []), result)
  poll_script (input, event ∷ events) =
      let (input', result) = poll_with_timeout grow header_size pause_result event input in
      ((input', events), result)

  abbrev pub kafka_source : PollInput
  kafka_source = record {
    State = Scripted;
    Error = InputError;
    poll = λ without_wait source. poll_script source;
    finish = λ partition (input, events).
        let (input', result) = finish grow header_size pause_result partition input in
        ((input', events), result);
    recycle_payload = λ payload (input, events).
        (record input { payload_buffers = recycle input.payload_buffers payload }, events);
  }
