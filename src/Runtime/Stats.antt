-- ===== src/Runtime/Stats.antt =====
-- `Stats` and `StatsSnapshot` of src/runtime.rs: counters that threads add to. As each addition is to one counter,
-- a call is the sum of its additions.
use jkq.Prelude.{if◌then◌else◌, length, word_mod, ℕ, ◌+◌, ◌-◌, ◌%◌, Bool, Option, none, some}
use jkq.Records.{Action, TransformError, OwnedRecord, Buffer}
use jkq.Transform.Worker.{ExecutionIssue}

pub record StatsSnapshot : Type 0 where
  pub admitted : ℕ
  pub input_tombstones : ℕ
  pub input_bytes : ℕ
  pub dropped : ℕ
  pub generated_tombstones : ℕ
  pub passed : ℕ
  pub projected : ℕ
  pub invalid_json : ℕ
  pub evaluation_failures : ℕ
  pub output_records : ℕ
  pub output_bytes : ℕ

-- `saturating_sub` stops at 0, as `-` does.
unfoldable pub since : StatsSnapshot → StatsSnapshot → StatsSnapshot
since now previous = record {
  admitted = now.admitted - previous.admitted;
  input_tombstones = now.input_tombstones - previous.input_tombstones;
  input_bytes = now.input_bytes - previous.input_bytes;
  dropped = now.dropped - previous.dropped;
  generated_tombstones = now.generated_tombstones - previous.generated_tombstones;
  passed = now.passed - previous.passed;
  projected = now.projected - previous.projected;
  invalid_json = now.invalid_json - previous.invalid_json;
  evaluation_failures = now.evaluation_failures - previous.evaluation_failures;
  output_records = now.output_records - previous.output_records;
  output_bytes = now.output_bytes - previous.output_bytes;
}

pub record Stats : Type 0 where
  pub enabled : Bool
  pub counters : StatsSnapshot

abbrev pub zeros : StatsSnapshot
zeros = record {
  admitted = 0;
  input_tombstones = 0;
  input_bytes = 0;
  dropped = 0;
  generated_tombstones = 0;
  passed = 0;
  projected = 0;
  invalid_json = 0;
  evaluation_failures = 0;
  output_records = 0;
  output_bytes = 0;
}

unfoldable pub new : Bool → Stats
new enabled = record { enabled = enabled; counters = zeros }

-- `fetch_add` wraps around.
unfoldable pub add : ℕ → ℕ → ℕ
add counter value = (counter + value) % word_mod

abbrev if_enabled : Stats → StatsSnapshot → Stats
if_enabled stats counters = if stats.enabled then record stats { counters = counters } else stats

abbrev pub payload_length : Option Buffer → ℕ
payload_length none = 0
payload_length (some payload) = length payload.bytes

unfoldable pub count_tombstone : Option Buffer → StatsSnapshot → StatsSnapshot
unfolding add
count_tombstone none c = record c { input_tombstones = add c.input_tombstones 1 }
count_tombstone (some payload) c = c

unfoldable pub count_admitted : Stats → OwnedRecord → Stats
unfolding add count_tombstone
count_admitted stats owned =
    let c = count_tombstone owned.payload stats.counters in
    if_enabled stats (record c {
      admitted = add c.admitted 1;
      input_bytes = add c.input_bytes (payload_length owned.payload);
    })

unfoldable pub count_issue : Option ExecutionIssue → StatsSnapshot → StatsSnapshot
unfolding add
count_issue (some ExecutionIssue.bad_json) c = record c { invalid_json = add c.invalid_json 1 }
count_issue (some ExecutionIssue.bad_evaluation) c = record c {
  evaluation_failures = add c.evaluation_failures 1;
}
count_issue none c = c

unfoldable pub count_action : Action → Bool → StatsSnapshot → StatsSnapshot
unfolding add
count_action Action.drop_record source_tombstone c = record c { dropped = add c.dropped 1 }
count_action Action.tombstone source_tombstone c =
    if source_tombstone then c else record c { generated_tombstones = add c.generated_tombstones 1 }
count_action (Action.pass_through payload) source_tombstone c = record c { passed = add c.passed 1 }
count_action (Action.project payload) source_tombstone c = record c {
  projected = add c.projected 1;
}

unfoldable pub count_transformed : Stats → Action → Option ExecutionIssue → Bool → Stats
unfolding count_action count_issue
count_transformed stats action issue source_tombstone =
    if_enabled stats (count_action action source_tombstone (count_issue issue stats.counters))

unfoldable pub count_failed : Stats → TransformError → Stats
unfolding count_issue
count_failed stats (TransformError.invalid_json message) =
    if_enabled stats (count_issue (some ExecutionIssue.bad_json) stats.counters)
count_failed stats (TransformError.evaluation category number message) =
    if_enabled stats (count_issue (some ExecutionIssue.bad_evaluation) stats.counters)

unfoldable pub count_emitted : Stats → ℕ → Stats
unfolding add
count_emitted stats size =
    let c = stats.counters in
    if_enabled stats
      (record c { output_records = add c.output_records 1; output_bytes = add c.output_bytes size })
