-- ===== src/Runtime/Tests.antt =====
-- The writer of src/runtime.rs at a sink that keeps offsets and refuses offset 9.
use jkq.Prelude.{
  Bytes, sum_by, Result, ok, ℕ, ◌≡◌, refl, ◌≢◌, true, false, Option, none, some, List, [], ◌∷◌,
  ◌++◌, arith, is_ok,
}
use jkq.Output.Format.{}
use jkq.Int.{pos, ℤ}
use jkq.Records.{
  Completion, SourceRecord, Action, CompletionOutcome, PassPayload, Buffer, empty_buffer,
}
use jkq.Transform.Engine.{Engine}
use jkq.Transform.Policies.{InvalidJsonPolicy}
use jkq.Transform.Worker.{Worker, Execution, execute_report}
use jkq.Transform.Worker.Recovery.{strict}
use jkq.Runtime.Action.{select_payload}
use jkq.Runtime.Action.Transformed.{execute_report-select_payload}
use jkq.Runtime.Writing.{CompletionBatch, write_completions}
use jkq.Runtime.Writing.Sends.{all_items, released, release_measure}
use jkq.Runtime.Writing.Releases.{write_completions-released}
use jkq.Runtime.Writing.Complete.{Written, emitted, turned_away, orderer_after}
use jkq.Runtime.Writing.Success.{write_completions-Written}
use jkq.Orderer.{default, all_pending, insert_completion, take_pending, arrive, successor}
use jkq.Map.{get, insert, remove}

abbrev write_offset : SourceRecord → Action → List ℤ → List ℤ × Result ℕ (Unit {0})
write_offset source action sink = (sink ++ source.offset ∷ [], ok tt)

abbrev flush_nothing : List ℤ → List ℤ × Result ℕ (Unit {0})
flush_nothing sink = (sink, ok tt)

abbrev numbered : ℕ → ℕ → Completion
numbered partition sequence = record {
  spare_payload = none;
  consumer = 0;
  partition = partition;
  sequence = sequence;
  retained_bytes = 3;
  source = record {
    partition = partition;
    offset = pos sequence;
    timestamp = none;
    key = none;
    headers = [];
    payload_length = none;
  };
  outcome = CompletionOutcome.action Action.tombstone;
}

abbrev two_batches : List CompletionBatch
two_batches =
    record { consumer = 0; items = numbered 4 1 ∷ [] }
    ∷ (record { consumer = 0; items = numbered 4 0 ∷ (numbered 4 2 ∷ []) } ∷ [])

in_order :
    (write_completions (List ℤ) ℕ write_offset flush_nothing true 1 none [] two_batches).0.sink
    ≡ pos 0 ∷ (pos 1 ∷ (pos 2 ∷ []))
unfolding write_completions insert_completion take_pending arrive get insert successor remove
in_order = refl

no_failure :
    (write_completions (List ℤ) ℕ write_offset flush_nothing true 1 none [] two_batches).0.failure
    ≡ none
unfolding write_completions insert_completion take_pending arrive get insert successor remove
no_failure = refl

write_completions-released_example :
    released
      (λ r. r.retained_bytes)
      (write_completions (List ℤ) ℕ write_offset flush_nothing true 1 none [] two_batches).1
    ≡ sum_by (release_measure (λ r. r.retained_bytes)) (all_items two_batches)
write_completions-released_example =
    write_completions-released (List ℤ) ℕ write_offset flush_nothing (λ r. r.retained_bytes) true 1
      none [] two_batches (ground arith, (ground arith, (ground arith, tt)))

abbrev the_none : Option Bytes
the_none = none

write_completions-Written_example :
    (the_none ≡ none)
    × ((turned_away true default (all_items two_batches) ≡ [])
        × ((all_pending (orderer_after true default (all_items two_batches)) ≡ [])
            × ((last : List ℤ) × (Written
                    (List ℤ)
                    ℕ
                    write_offset
                    flush_nothing
                    (emitted true default (all_items two_batches))
                    []
                    last
                  × (flush_nothing last ≡ (
                    (write_completions
                        (List ℤ)
                        ℕ
                        write_offset
                        flush_nothing
                        true
                        1
                        none
                        []
                        two_batches).0.sink,
                    ok tt,
                  ))))))
write_completions-Written_example =
    write_completions-Written (List ℤ) ℕ write_offset flush_nothing true 1 none [] two_batches
      no_failure

-- An engine whose only expression and value are the unit.
abbrev unit_engine : Engine
unit_engine = record {
  Expression = Unit {0};
  Input = Unit {0};
  Value = Unit {0};
  parse_variables = λ text. ok tt;
  is_object = λ value. true;
  compile = λ variables text. ok tt;
  prepare = λ expressions text. ok tt;
  evaluate = λ input index. ok none;
  as_bool = λ value. none;
  write_json = λ input index output. (output, ok true);
  write_compact = λ input output. (output, ok tt);
}

abbrev embedding_worker : Worker unit_engine
embedding_worker = record {
  plan = record {
    drops = [];
    tombstones = [];
    drop_tombstones = false;
    projection = none;
    parses_json = true;
  };
  embeds_json = true;
  output = empty_buffer;
  max_recycled_capacity = 0;
}

abbrev some_payload : Option Buffer
some_payload = some (record { bytes = 1 ∷ []; capacity = 4 })

abbrev embedded : Execution
embedded = record { action = Action.pass_through (PassPayload.json empty_buffer 1); issue = none }

embeds : (execute_report unit_engine embedding_worker some_payload strict).1.1 ≡ ok embedded
unfolding execute_report
embeds = refl

fail-not_pass : InvalidJsonPolicy.fail ≢ InvalidJsonPolicy.pass
fail-not_pass e = ground arith

execute_report-select_payload_example : is_ok (select_payload true embedded.action) ≡ true
execute_report-select_payload_example =
    execute_report-select_payload unit_engine embedding_worker some_payload strict embedded
      (λ e. refl) (λ e. fail-not_pass) embeds
