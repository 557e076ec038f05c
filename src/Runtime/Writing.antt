-- ===== src/Runtime/Writing.antt =====
-- `write_completions` of src/runtime.rs, over any sink. `write` stands for `write_action`, which
-- writes one action, and `flush` for the sink's. The receiving loop is a list of batches; what is
-- sent back to the pollers is the list of sends.
pub mod Leaving
pub mod Sends
pub mod Releases
pub mod Failure
pub mod Complete
pub mod Success
use jkq.Prelude.{
  ◌==◌, if◌then◌else◌, is_some, Bytes, is_empty, Result, ok, err, ℕ, zero, suc, ◌+◌, Bool, true,
  false, Option, none, some, List, [], ◌∷◌, ◌++◌, map,
}
use jkq.Records.{
  Release, Completion, SourceRecord, Action, CompletionOutcome, PassPayload, Fatality, Buffer,
}
use jkq.Orderer.{Orderer, Error, insert_completion, take_pending}
use jkq.Orderer

pub data RuntimeMessage : Type 0 where
  cannot_start : Bytes → RuntimeMessage
  refused_completion : Error → RuntimeMessage
  fatal_completion : Fatality → RuntimeMessage
  sequence_gap : RuntimeMessage

pub data PipelineError (E : Type 0) : Type 0 where
  runtime_error : RuntimeMessage → PipelineError E
  output_error : E → PipelineError E

unfoldable pub release_payload : CompletionOutcome → Option Buffer → Option Buffer
release_payload (CompletionOutcome.action (Action.pass_through (PassPayload.exact b))) spare =
    some b
release_payload (CompletionOutcome.action (Action.pass_through (PassPayload.json b n))) spare =
    some b
release_payload (CompletionOutcome.action (Action.project b)) spare = some b
release_payload _ spare = spare

unfoldable pub release_of : Completion → Release
unfolding release_payload
release_of c = record {
  partition = c.partition;
  retained_bytes = c.retained_bytes;
  payload = release_payload c.outcome c.spare_payload;
}

-- `OnceLock::set` and `Option::get_or_insert`.
abbrev pub set_once : {A : Type 0} → Option A → A → Option A
set_once none a = some a
set_once (some b) a = some b

pub record CompletionBatch : Type 0 where
  pub consumer : ℕ
  pub items : List Completion

abbrev pub Sends : Type 0
Sends = List (ℕ × List Release)

abbrev send : ℕ → List Release → Sends
send consumer [] = []
send consumer (r ∷ rs) = (consumer, r ∷ rs) ∷ []

abbrev pub of_consumer : ℕ → List Completion → List Completion
of_consumer consumer [] = []
of_consumer consumer (c ∷ cs) =
    if c.consumer == consumer then c ∷ of_consumer consumer cs else of_consumer consumer cs

-- The releases of the pending completions, by consumer from `consumer` on.
unfoldable pub release_pending : ℕ → ℕ → List Completion → Sends
unfolding release_of
release_pending zero consumer pending = []
release_pending (suc left_over) consumer pending =
    send consumer (map release_of (of_consumer consumer pending))
    ++ release_pending left_over (consumer + 1) pending

module _ (Sink E : Type 0) (write : SourceRecord → Action → Sink → Sink × Result E (Unit {0}))
    (flush : Sink → Sink × Result E (Unit {0})) where
  -- The loop's variables, the cell of the first failure and the shutdown flag.
  pub record Writing : Type 0 where
    pub orderer : Orderer
    pub failure : Option (PipelineError E)
    pub first_failure : Option (PipelineError E)
    pub shutdown : Bool
    pub sink : Sink

  unfoldable pub writer_failure : Writing → PipelineError E → Writing
  writer_failure w e = record w {
    first_failure = set_once w.first_failure e;
    failure = set_once w.failure e;
    shutdown = true;
  }

  unfoldable pub write_outcome : Writing → SourceRecord → CompletionOutcome → Writing
  unfolding writer_failure
  write_outcome w source (CompletionOutcome.fatal message) =
      writer_failure w (runtime_error (fatal_completion message))
  write_outcome w source (CompletionOutcome.action action) =
      let (sink, result) = write source action w.sink in
      elim result [
        | ok done ↦ record w { sink = sink }
        | err e ↦ writer_failure (record w { sink = sink }) (output_error e)
      ]

  -- Nothing is written after a failure.
  unfoldable pub write_one : Writing → Completion → Writing
  unfolding write_outcome
  write_one w c = elim w.failure [ none ↦ write_outcome w c.source c.outcome | some e ↦ w ]

  -- The inner loop, but for its releases.
  unfoldable pub write_ready : Writing → List Completion → Writing
  unfolding write_one
  write_ready w [] = w
  write_ready w (c ∷ cs) = write_ready (write_one w c) cs

  unfoldable pub write_completion : Bool → Writing → Completion → Writing × List Release
  unfolding write_ready writer_failure release_of
  write_completion false w c = (write_ready w (c ∷ []), release_of c ∷ [])
  write_completion true w c = elim (insert_completion w.orderer c []) [
    | ok (o, ready) ↦ (write_ready (record w { orderer = o }) ready, map release_of ready)
    | err (e, refused) ↦
        (writer_failure w (runtime_error (refused_completion e)), release_of refused ∷ [])
  ]

  unfoldable pub write_items : Bool → Writing → List Completion → Writing × List Release
  unfolding write_completion
  write_items ordered w [] = (w, [])
  write_items ordered w (c ∷ cs) =
      let (w', releases) = write_completion ordered w c in
      let (w'', rest) = write_items ordered w' cs in (w'', releases ++ rest)

  unfoldable pub write_batches : Bool → Writing → List CompletionBatch → Writing × Sends
  unfolding write_items
  write_batches ordered w [] = (w, [])
  write_batches ordered w (b ∷ batches) =
      let (w', releases) = write_items ordered w b.items in
      let (w'', rest) = write_batches ordered w' batches in (w'', send b.consumer releases ++ rest)

  -- After the loop: what is pending is released, and is a gap.
  unfoldable pub close_gap : ℕ → Writing → Writing × Sends
  unfolding writer_failure release_pending
  close_gap consumers w =
      let (o, pending) = take_pending w.orderer in
      if is_empty pending then (record w { orderer = o }, []) else (
        writer_failure (record w { orderer = o }) (runtime_error sequence_gap),
        release_pending consumers 0 pending,
      )

  unfoldable pub flush_once : Writing → Writing
  unfolding writer_failure
  flush_once w =
      let (sink, result) = flush w.sink in
      elim result [
        | ok done ↦ record w { sink = sink }
        | err e ↦ writer_failure (record w { sink = sink }) (output_error e)
      ]

  unfoldable pub last_flush : Writing → Writing
  unfolding flush_once
  last_flush w = elim w.failure [ some (output_error e) ↦ w | _ ↦ flush_once w ]

  startup_failure : Option Bytes → Option (PipelineError E)
  startup_failure none = none
  startup_failure (some message) = some (runtime_error (cannot_start message))

  -- `first_failure` is a startup failure if there is one before.
  unfoldable pub start : Option Bytes → Sink → Writing
  unfolding startup_failure
  start startup sink = record {
    orderer = jkq.Orderer.default;
    failure = startup_failure startup;
    first_failure = startup_failure startup;
    shutdown = is_some startup;
    sink = sink;
  }

  unfoldable pub write_completions :
      Bool → ℕ → Option Bytes → Sink → List CompletionBatch → Writing × Sends
  unfolding start write_batches close_gap last_flush
  write_completions ordered consumers startup sink batches =
      let (w, sends) = write_batches ordered (start startup sink) batches in
      let (w', last) = close_gap consumers w in (last_flush w', sends ++ last)
