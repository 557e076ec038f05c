-- ===== src/Kafka/Input/Polls.antt =====
-- What the polls of `KafkaInput` (src/kafka.rs) give, at any time.
use jkq.Prelude.{
  ◌==◌, Bool-cases, Option-cases, Bytes, Result, ok, err, Result-cases, ℕ, ◌<◌, ◌≡◌, refl, subst,
  inl, inr, Bool, true, false, ◌&&◌, Option, none, some, List, [], ◌∷◌, arith, bind-ok,
}
use jkq.Int.{ℤ}
use jkq.Kafka.Ranges.{PartitionRange, ConsumerAssignment, reached_start, before_end}
use jkq.Map.{get}
use jkq.Map.Order.{IsAscending, insert-IsAscending}
use jkq.Cli.{KafkaErrorPolicy}
use jkq.Output.Render.{OutputRequirements, requirements}
use jkq.Records.{RuntimeLimits, OwnedRecord, PollEvent, polled, idle, all_done}
use jkq.Kafka.Input.{
  PartitionState, KafkaInput, NativeMessage, KafkaFailure, unfinished, finish, handle_eof,
  idle_after, poll_failed, take_message, poll_message, poll_with_timeout, collect_states, assign,
  pause_done, InputError, retained_bytes, own_message, should_finish, ends_at, starts_above,
  auto_offset_reset, fatal_consumption, other_failure, poll_consumer,
}
use jkq.Kafka.Input.Counting.{IsCounted, Advances, Advances-refl, finish-IsCounted, finish-Advances}

-- A record of an assigned partition that is not done, within its range.
abbrev pub IsWanted : KafkaInput → OwnedRecord → Type 0
IsWanted input owned =
    (state : PartitionState) × ((get owned.partition input.partitions ≡ some state)
      × ((state.done ≡ false)
          × ((before_end state.range.end_exclusive owned.offset
                && reached_start state.range.start owned.offset)
              ≡ true)))

-- The end is told exactly when every partition is done.
abbrev pub IsTrue : KafkaInput → Result InputError PollEvent → Type 0
IsTrue input (ok all_done) = unfinished input.partitions ≡ 0
IsTrue input (ok idle) = 0 < unfinished input.partitions
IsTrue input (ok (polled owned)) = (0 < unfinished input.partitions) × IsWanted input owned
IsTrue input (err e) = 0 < unfinished input.partitions

pub record IsGoodPoll (input : KafkaInput) (r : KafkaInput × Result InputError PollEvent)
    : Type 0 where
  pub counted : IsCounted r.0
  pub advances : Advances input r.0
  pub event : IsTrue input r.1

within_range :
    (state : PartitionState) (position : ℤ)
    → ends_at state.range.end_exclusive position ≡ false
    → starts_above state.range.start position ≡ false
    → (before_end state.range.end_exclusive position && reached_start state.range.start position)
      ≡ true
within_range state position ends starts = ground arith

module _ (grow : ℕ → ℕ → ℕ) (header_size : ℕ) (pause_result : ℕ → Result Bytes (Unit {0})) where
  idle_after-IsGoodPoll :
      (input : KafkaInput) (r : KafkaInput × Result InputError (Unit {0}))
      → IsCounted r.0
      → Advances input r.0
      → 0 < unfinished input.partitions
      → IsGoodPoll input (idle_after grow header_size pause_result r)
  idle_after-IsGoodPoll input (after, ok u) counted advances left_over = record {
    counted = counted;
    advances = advances;
    event = left_over;
  }
  idle_after-IsGoodPoll input (after, err e) counted advances left_over = record {
    counted = counted;
    advances = advances;
    event = left_over;
  }

  finish_idle-IsGoodPoll :
      (p : ℕ) (input : KafkaInput)
      → IsCounted input
      → 0 < unfinished input.partitions
      → IsGoodPoll input
          (idle_after grow header_size pause_result (finish grow header_size pause_result p input))
  finish_idle-IsGoodPoll p input counted left_over =
      idle_after-IsGoodPoll input (finish grow header_size pause_result p input)
        (finish-IsCounted grow header_size pause_result p input counted)
        (finish-Advances grow header_size pause_result p input) left_over

  take_message-IsGoodPoll :
      (message : NativeMessage) (state : PartitionState) (input : KafkaInput)
      → IsCounted input
      → 0 < unfinished input.partitions
      → get message.partition input.partitions ≡ some state
      → state.done ≡ false
      → IsGoodPoll input (take_message grow header_size pause_result message state input)
  unfolding take_message own_message
  take_message-IsGoodPoll message state input counted left_over found pending =
      elim (Bool-cases (ends_at state.range.end_exclusive message.position)) [
        | inl f ↦
            rw (f, take_message) (finish_idle-IsGoodPoll message.partition input counted left_over)
        | inr f ↦ elim (Bool-cases (starts_above state.range.start message.position)) [
          | inl g ↦
              rw (f, g, take_message)
                (record { counted = counted; advances = Advances-refl input; event = left_over })
          | inr g ↦
              elim (Result-cases
                (retained_bytes grow header_size pause_result message input.requirements)) [
                  | inl (e, h) ↦
                      rw (f, g, h, take_message)
                        (record {
                          counted = counted;
                          advances = Advances-refl input;
                          event = left_over;
                        })
                  | inr (bytes, h) ↦
                      rw (f, g, h, take_message)
                        (record {
                          counted = counted;
                          advances = record {
                            state = λ k s h. (s, (h, (refl, λ d. d)));
                            exit_at_end = refl;
                            assigned = λ k. refl;
                          };
                          event = (
                            left_over,
                            (state, (found, (pending, within_range state message.position f g))),
                          );
                        })
                ]
        ]
      ]

  poll_message-IsGoodPoll :
      (message : NativeMessage) (input : KafkaInput)
      → IsCounted input
      → 0 < unfinished input.partitions
      → IsGoodPoll input (poll_message grow header_size pause_result message input)
  unfolding poll_message handle_eof
  poll_message-IsGoodPoll message input counted left_over =
      let stays : IsGoodPoll input (input, ok idle) = record {
        counted = counted;
        advances = Advances-refl input;
        event = left_over;
      } in
      elim (Option-cases (get message.partition input.partitions)) [
        | inl f ↦ elim (Bool-cases message.is_eof) [
          | inl g ↦ rw (f, g, poll_message, handle_eof) stays
          | inr g ↦
              rw (f, g, poll_message)
                (record { counted = counted; advances = Advances-refl input; event = left_over })
        ]
        | inr (state, f) ↦ elim (Bool-cases message.is_eof) [
          | inl g ↦
              elim (Bool-cases
                (should_finish grow header_size pause_result input state message.position)) [
                  | inl h ↦
                      rw (f, g, h, poll_message, handle_eof)
                        (finish_idle-IsGoodPoll message.partition input counted left_over)
                  | inr h ↦ rw (f, g, h, poll_message, handle_eof) stays
                ]
          | inr g ↦ elim (Bool-cases state.done) [
            | inl h ↦ rw (f, g, h, poll_message) stays
            | inr h ↦
                rw (f, g, h, poll_message)
                  (take_message-IsGoodPoll message state input counted left_over f h)
          ]
        ]
      ]

  poll_failed-IsTrue :
      (policy : KafkaErrorPolicy) (failure : KafkaFailure) (input : KafkaInput)
      → 0 < unfinished input.partitions
      → IsTrue input (poll_failed grow header_size pause_result policy failure)
  unfolding poll_failed
  poll_failed-IsTrue policy (auto_offset_reset text) input left_over = left_over
  poll_failed-IsTrue policy (fatal_consumption text) input left_over = left_over
  poll_failed-IsTrue KafkaErrorPolicy.continue (other_failure text) input left_over = left_over
  poll_failed-IsTrue KafkaErrorPolicy.fail (other_failure text) input left_over = left_over

  poll_consumer-IsGoodPoll :
      (event : Option (Result KafkaFailure NativeMessage)) (input : KafkaInput)
      → IsCounted input
      → 0 < unfinished input.partitions
      → IsGoodPoll input (poll_consumer grow header_size pause_result event input)
  unfolding poll_consumer
  poll_consumer-IsGoodPoll none input counted left_over = record {
    counted = counted;
    advances = Advances-refl input;
    event = left_over;
  }
  poll_consumer-IsGoodPoll (some (err failure)) input counted left_over = record {
    counted = counted;
    advances = Advances-refl input;
    event = poll_failed-IsTrue input.error_policy failure input left_over;
  }
  poll_consumer-IsGoodPoll (some (ok message)) input counted left_over =
      poll_message-IsGoodPoll message input counted left_over

  pub poll-IsGoodPoll :
      (event : Option (Result KafkaFailure NativeMessage)) (input : KafkaInput)
      → IsCounted input
      → IsGoodPoll input (poll_with_timeout grow header_size pause_result event input)
  unfolding poll_with_timeout
  poll-IsGoodPoll event input counted = elim (Bool-cases (input.remaining_partitions == 0)) [
    | inl f ↦
        rw (f, poll_with_timeout)
          (record { counted = counted; advances = Advances-refl input; event = ground arith })
    | inr f ↦
        let left_over : 0 < unfinished input.partitions = ground arith in
        rw (f, poll_with_timeout) (poll_consumer-IsGoodPoll event input counted left_over)
  ]

  collect_states-IsAscending :
      (ranges : List PartitionRange) (states : List (ℕ × PartitionState))
      → IsAscending states
      → IsAscending (collect_states ranges states)
  unfolding collect_states
  collect_states-IsAscending [] states ascending = ascending
  collect_states-IsAscending (range ∷ ranges) states ascending =
      collect_states-IsAscending ranges _ (insert-IsAscending range.partition _ states ascending)

  pub assign-IsCounted :
      (limits : RuntimeLimits) (requirements : OutputRequirements) (exit_at_end : Bool)
      (policy : KafkaErrorPolicy) (assignment : ConsumerAssignment) (input : KafkaInput)
      → assign grow header_size pause_result limits requirements exit_at_end policy assignment
        ≡ ok input
      → IsCounted input
  unfolding assign
  assign-IsCounted limits requirements exit_at_end policy assignment input h =
      let (u, (paused, same)) =
        bind-ok (pause_done grow header_size pause_result (collect_states assignment.ranges []) _) _
          input h in
      let e : collect_states assignment.ranges [] ≡ input.partitions = ground arith in
      (ground arith, subst IsAscending e (collect_states-IsAscending assignment.ranges [] tt))

  -- Polls, and what the poller finishes because of a count.
  pub data Use : Type 0 where
    polls : Option (Result KafkaFailure NativeMessage) → Use
    finishes : ℕ → Use

  abbrev pub use_input : List Use → KafkaInput → KafkaInput
  use_input [] input = input
  use_input (polls event ∷ uses) input =
      use_input uses (poll_with_timeout grow header_size pause_result event input).0
  use_input (finishes p ∷ uses) input =
      use_input uses (finish grow header_size pause_result p input).0

  use_input-IsCounted :
      (uses : List Use) (input : KafkaInput) → IsCounted input → IsCounted (use_input uses input)
  use_input-IsCounted [] input counted = counted
  use_input-IsCounted (polls event ∷ uses) input counted =
      let good = poll-IsGoodPoll event input counted in
      use_input-IsCounted uses (poll_with_timeout grow header_size pause_result event input).0
        good.counted
  use_input-IsCounted (finishes p ∷ uses) input counted =
      use_input-IsCounted uses (finish grow header_size pause_result p input).0
        (finish-IsCounted grow header_size pause_result p input counted)

  -- From an assignment that succeeds, after any polls and finished partitions and whatever the
  -- native consumer gives: the count of the remaining partitions is the number of those that are
  -- not done, a poll tells the end exactly when there is none, a record that it hands on belongs
  -- to an assigned partition that is not done and lies from its start on and before its end, and
  -- no partition is lost, added, given another range or read again after it is done.
  pub assigned_polls-IsGoodPoll :
      (limits : RuntimeLimits) (requirements : OutputRequirements) (exit_at_end : Bool)
      (policy : KafkaErrorPolicy) (assignment : ConsumerAssignment) (input : KafkaInput)
      (uses : List Use) (event : Option (Result KafkaFailure NativeMessage))
      → assign grow header_size pause_result limits requirements exit_at_end policy assignment
        ≡ ok input
      → IsGoodPoll
          (use_input uses input)
          (poll_with_timeout grow header_size pause_result event (use_input uses input))
  assigned_polls-IsGoodPoll limits requirements exit_at_end policy assignment input uses event h =
      poll-IsGoodPoll event (use_input uses input) (
        use_input-IsCounted uses input
          (assign-IsCounted limits requirements exit_at_end policy assignment input h))
