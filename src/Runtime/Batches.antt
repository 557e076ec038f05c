-- ===== src/Runtime/Batches.antt =====
-- `PollerBuffer` of src/runtime.rs: what a poller has admitted and not yet sent to its destination,
-- the evaluators or, where nothing is to be evaluated, the writer.
pub mod Limits
use jkq.Prelude.{
  leb, if◌then◌else◌, is_some, length, word_mod, ℕ, ◌+◌, ◌*◌, ◌%◌, Bool, true, not, ◌||◌, Option,
  none, some, List, [], ◌∷◌, ◌++◌, map, map_some,
}
use jkq.Records.{Action, PassPayload, OwnedRecord, Buffer, Completion, CompletionOutcome}
use jkq.Runtime.Stats.{Stats, count_transformed}
use jkq.Runtime.Writing.{CompletionBatch}

abbrev pub batch_records : ℕ
batch_records = 64

abbrev pub batch_bytes : ℕ
batch_bytes = 1024 * 1024

pub record WorkItem : Type 0 where
  pub sequence : ℕ
  pub owned : OwnedRecord

pub record RecordBatch : Type 0 where
  pub consumer : ℕ
  pub items : List WorkItem

-- To write tombstones, or to drop them.
pub data Destination : Type 0 where
  evaluate : Destination
  write : Bool → Destination

-- What is sent.
pub data Batch : Type 0 where
  of_records : RecordBatch → Batch
  of_completions : CompletionBatch → Batch

pub record PollerBuffer : Type 0 where
  pub consumer : ℕ
  pub destination : Destination
  pub pending : List WorkItem
  pub retained_bytes : ℕ

unfoldable pub new : ℕ → Destination → PollerBuffer
new consumer destination = record {
  consumer = consumer;
  destination = destination;
  pending = [];
  retained_bytes = 0;
}

unfoldable pub passed_action : Bool → Option Buffer → Action
passed_action drop_tombstones (some bytes) = Action.pass_through (PassPayload.exact bytes)
passed_action drop_tombstones none =
    if drop_tombstones then Action.drop_record else Action.tombstone

unfoldable pub passed_completion : ℕ → Bool → WorkItem → Completion
unfolding passed_action
passed_completion consumer drop_tombstones item =
    let owned = item.owned in
    record {
      consumer = consumer;
      partition = owned.partition;
      sequence = item.sequence;
      retained_bytes = owned.retained_bytes;
      spare_payload = none;
      source = record {
        partition = owned.partition;
        offset = owned.offset;
        timestamp = owned.timestamp;
        key = owned.key;
        headers = owned.headers;
        payload_length = map_some (λ payload. length payload.bytes) owned.payload;
      };
      outcome = CompletionOutcome.action (passed_action drop_tombstones owned.payload);
    }

unfoldable pub count_passed : Bool → List WorkItem → Stats → Stats
unfolding passed_action count_transformed
count_passed drop_tombstones [] stats = stats
count_passed drop_tombstones (item ∷ items) stats = count_passed drop_tombstones items (
    count_transformed stats (passed_action drop_tombstones item.owned.payload) none
      (not (is_some item.owned.payload)))

unfoldable pub batch_of : ℕ → Destination → List WorkItem → Batch
unfolding passed_completion
batch_of consumer evaluate items = of_records (record { consumer = consumer; items = items })
batch_of consumer (write drop_tombstones) items =
    of_completions (record {
      consumer = consumer;
      items = map (passed_completion consumer drop_tombstones) items;
    })

unfoldable pub count_batch : Destination → List WorkItem → Stats → Stats
unfolding count_passed
count_batch evaluate items stats = stats
count_batch (write drop_tombstones) items stats = count_passed drop_tombstones items stats

-- After a call: the buffer, the statistics, the batch that was sent if there was one, and whether
-- the call succeeded. `connected` says whether the channel has a receiver; a batch that finds none is lost.
pub record Sent : Type 0 where
  pub buffer : PollerBuffer
  pub stats : Stats
  pub batches : List Batch
  pub succeeded : Bool

unfoldable pub flush : Bool → PollerBuffer → Stats → Sent
unfolding batch_of count_batch
flush connected b stats = elim b.pending [
  | [] ↦ record { buffer = b; stats = stats; batches = []; succeeded = true }
  | item ∷ items ↦ record {
    buffer = record b { pending = []; retained_bytes = 0 };
    stats = count_batch b.destination (item ∷ items) stats;
    batches = if connected then batch_of b.consumer b.destination (item ∷ items) ∷ [] else [];
    succeeded = connected;
  }
]

unfoldable pub push : Bool → PollerBuffer → OwnedRecord → ℕ → Stats → Sent
unfolding flush
push connected b owned sequence stats =
    let filled : PollerBuffer = record b {
      pending = b.pending ++ record { sequence = sequence; owned = owned } ∷ [];
      retained_bytes = (b.retained_bytes + owned.retained_bytes) % word_mod;
    } in
    if leb batch_records (length filled.pending) || leb batch_bytes filled.retained_bytes
    then flush connected filled stats
    else record { buffer = filled; stats = stats; batches = []; succeeded = true }
