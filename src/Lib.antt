-- ===== src/Lib.antt =====
-- jkq reads ranges of Kafka partitions, filters and reshapes the JSON values of their records with
-- JSONata expressions, and writes the outcome to standard output in the order of each partition.
-- This library models its Rust sources and proves what makes the parts correct.
--
-- How the parts work together. src/cli.rs resolves the options to a configuration. src/kafka.rs
-- resolves the ranges of the partitions from it and divides them among consumers. The poller of
-- each consumer copies a record's payload into a reused buffer, and admits the record when its own
-- partition budget and the budget that all consumers share have room. Evaluators apply the
-- transform. The writer puts completions in sequence per partition, writes them, and hands their
-- budget and their buffer back to the poller.
--
-- * Prelude, Int, Map, Records: shared. Prelude has Boolean tests, lists over the native numbers,
--   `Result` and the checked and saturating machine arithmetic (64-bit words); Int has the `i64`
--   values of offsets; Map is `BTreeMap` as a list in key order; Records are the records, actions
--   and completions that pass between the parts. An error message is kept as the facts that it
--   shows.
-- * Admission models two of the three parts of src/runtime/state.rs. Admission.Shared is
--   `SharedAdmission`: `try_reserve` is `try_reserve`, its atomic updates are `claim_record`,
--   `charge_bytes`, `count_admission`, `unclaim_record`, `discharge_bytes`, and those of `release`
--   are `return_records` and `return_bytes`. Interleaving runs the threads of the pollers one
--   atomic update at a time; a caller releases only what it has reserved, which the `Act` relation
--   says. Admission.Partition is `Admission`; History is any life of it.
-- * Orderer models the third, `Orderer`: `insert_completion` is `insert`, `arrive` its body for one
--   partition, `drain` its loop, whose fuel is the number of pending completions, as each round
--   removes one. Delivery is the loop of `write_completions` (src/runtime.rs) that calls it.
-- * Text models what src/cli.rs uses of Rust's `str` and of its integer parsing, on UTF-8 bytes.
-- * Cli models src/cli.rs behind clap: Partitions is `parse_partitions`, Offsets `resolve_offsets`,
--   Quantities `parse_duration` and `parse_size`, Properties `parse_property` and `parse_config`,
--   Config `OutputPlan` and `RuntimeConfig`, and Resolve is `RawCli::resolve` part by part. Its
--   parameters are the engine and `read_to_string`, the reading of a file.
-- * Kafka models src/kafka.rs. Boundaries is `prepare` without the making of the clients: it
--   resolves starts and ends over what the broker answers to `fetch_watermarks` and
--   `offsets_for_times`, which are parameters; an `expect` that fails is an error of its own.
--   Settings is `consumer_config`. Shards is `consumer_assignments`, where `shard_loop` counts the
--   shards down. Buffers is
--   `PayloadBuffers`; how a vector grows is a parameter, of which nothing is assumed. Input is
--   `KafkaInput`: `assign`, `poll_with_timeout`, `handle_eof`, `finish` and `pause`; what the native
--   consumer gives to each call is an argument.
-- * Transform models src/transform/mod.rs (Plan) and src/transform/jsonata.rs (Worker, Policies)
--   over `Engine`, a parameter that stands for the external `jx` crate and of which nothing is
--   assumed. The source payload is the caller's `Option`, which a call returns as it leaves it.
-- * Output models `CompiledFormat` of src/output.rs: `compile` is its loop over the bytes of the
--   format, with its length as fuel; `write_to` writes a record to any writer. Output.Base64 is
--   `write_base64`.
-- * Runtime models the threads of src/runtime.rs. Polling is `poll_loop` with `admit` and
--   `release_batch`, over an interface `PollInput` with the operations that it calls on its input,
--   which Polling.Source gives for `KafkaInput`; Batches is `PollerBuffer`. A round of the loop takes
--   from its surroundings the releases that arrived, the signal, what other pollers did to the
--   shared budget, and which channels are connected; the list of the rounds is the loop's fuel, and
--   the loop is followed as far as there are rounds. Evaluation is `worker_loop`; whether a call of
--   the transform panics is a parameter. Writing is `write_completions`, over any sink: its
--   parameters are `write_action` and the sink's flush. A channel is the list of the batches that
--   arrive before it is closed, and what is sent to other threads is the list of sends. The cell of
--   the first failure is kept as this thread sees it. Action is the match on the action in
--   `write_action`, with the output record. Signals is `SignalControl`, its handlers as interleaved
--   loads, swaps, stores and exchanges. Stats is `Stats` and `StatsSnapshot`.
-- * App models src/app.rs and src/main.rs: `run`, `consume` and `main` with the exit statuses, over
--   the parts that they call.
--
-- Counters that the source lets overflow are bounded by hypotheses that name the machine word.
-- Atomic updates are taken to be sequentially consistent: the source uses them on each counter
-- alone. In Output a writer that fails is not written to again, so its state is not kept.
--
-- Not modelled: the librdkafka bindings (src/kafka/fetch.rs) and in src/kafka.rs the making of
-- clients and the request for a topic's partitions, which are I/O; in
-- src/runtime.rs the start of the threads and the texts of reports; what write_action writes, and
-- the JSON envelope of src/output.rs, whose strings an external crate writes; clap's own parsing
-- and the help texts of src/cli.rs; the texts of messages.
pub mod Prelude
pub mod Int
pub mod Map
pub mod Text
pub mod Records
pub mod Admission
pub mod Orderer
pub mod Kafka
pub mod Transform
pub mod Output
pub mod Runtime
pub mod Cli
pub mod App
