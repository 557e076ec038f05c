-- ===== src/Kafka/Input/Drained.antt =====
-- `KafkaInput` of src/kafka.rs comes to its end once every partition has come to its own.
use jkq.Prelude.{
  ◌==◌, if◌then◌else◌, ==_iff, ==_refl, Bool-cases, Option-cases, Bytes, any, Result, ok, err, ℕ,
  ◌≡◌, refl, sym, ap, ◌∙◌, subst, inl, inr, Bool, true, false, ◌&&◌, ◌||◌, Option, none, some, List,
  [], ◌∷◌, arith,
}
use jkq.Int.{leb_ℤ}
use jkq.Kafka.Ranges.{PartitionRange}
use jkq.Map.{get, update, get-update}
use jkq.Map.Order.{IsAscending, get-Above}
use jkq.Records.{all_done}
use jkq.Kafka.Input.{
  PartitionState, KafkaInput, NativeMessage, KafkaFailure, unfinished, finish, handle_eof,
  idle_after, take_message, poll_message, poll_consumer, poll_with_timeout, InputError,
  should_finish, ends_at,
}
use jkq.Kafka.Input.Counting.{IsCounted, Advances, Advances-refl, Advances-trans}
use jkq.Kafka.Input.Polls.{poll-IsGoodPoll}

-- What the native consumer gives tells that the partition has come to its end: its end of file, where
-- that is the end, or a record at or behind the end.
abbrev message_ends : Bool → ℕ → PartitionRange → NativeMessage → Bool
message_ends exit_at_end k range message =
    message.partition == k
    && (if message.is_eof
        then (elim range.end_exclusive [
          | some end ↦ leb_ℤ end message.position
          | none ↦ exit_at_end
        ])
        else ends_at range.end_exclusive message.position)

abbrev pub tells_end : Bool → ℕ → PartitionRange → Option (Result KafkaFailure NativeMessage) → Bool
tells_end exit_at_end k range (some (ok message)) = message_ends exit_at_end k range message
tells_end exit_at_end k range _ = false

no_open_partition :
    (m : List (ℕ × PartitionState)) (k : ℕ) (s : PartitionState)
    → unfinished m ≡ 0
    → get k m ≡ some s
    → s.done ≡ true
unfolding get
no_open_partition [] k s h g = absurd (ground arith)
no_open_partition ((j, state) ∷ m) k s h g = ground (arith, no_open_partition m k s)

get-later :
    (j k : ℕ) (state s : PartitionState) (m : List (ℕ × PartitionState))
    → get j m ≡ none
    → get k m ≡ some s
    → get k ((j, state) ∷ m) ≡ some s
unfolding get
get-later j k state s m absent h = elim (Bool-cases (j == k)) [
  | inl f ↦
      let same : get k m ≡ none = ap (λ i. get i m) (sym ((==_iff j k).0 f)) ∙ absent in
      absurd (ground arith)
  | inr f ↦ rw (f, get) h
]

all_closed :
    (m : List (ℕ × PartitionState))
    → IsAscending m
    → ((k : ℕ) (s : PartitionState) → get k m ≡ some s → s.done ≡ true)
    → unfinished m ≡ 0
unfolding get
all_closed [] ascending h = refl
all_closed ((j, state) ∷ m) (above, ascending) h =
    let first : state.done ≡ true = h j state (ground arith) in
    let others = all_closed m ascending (λ k s g.
      let absent = get-Above j j m (omega arith) above in
      h k s (get-later j k state s m absent g)) in
    ground arith

-- The partition is done.
abbrev IsDone : ℕ → KafkaInput → Type 0
IsDone k input = (s : PartitionState) × ((get k input.partitions ≡ some s) × (s.done ≡ true))

module _ (grow : ℕ → ℕ → ℕ) (header_size : ℕ) (pause_result : ℕ → Result Bytes (Unit {0})) where
  finish-IsDone :
      (k : ℕ) (s : PartitionState) (input : KafkaInput)
      → get k input.partitions ≡ some s
      → IsDone k (finish grow header_size pause_result k input).0
  unfolding finish
  finish-IsDone k s input h = elim (Bool-cases s.done) [
    | inl f ↦ rw (h, f, finish) ((s, (h, f)))
    | inr f ↦
        let done : PartitionState = record s { done = true } in
        let written : get k (update k done input.partitions) ≡ some done =
          get-update k k done input.partitions ∙ rw (==_refl k, h) refl in
        rw (h, f, finish) ((done, (written, refl)))
  ]

  idle_after-same :
      (r : KafkaInput × Result InputError (Unit {0}))
      → (idle_after grow header_size pause_result r).0 ≡ r.0
  idle_after-same (input, ok u) = refl
  idle_after-same (input, err e) = refl

  poll_message-IsDone :
      (message : NativeMessage) (s : PartitionState) (input : KafkaInput)
      → get message.partition input.partitions ≡ some s
      → message_ends input.exit_at_end message.partition s.range message ≡ true
      → IsDone message.partition (poll_message grow header_size pause_result message input).0
  unfolding poll_message handle_eof take_message
  poll_message-IsDone message s input h ends =
      let finished = finish-IsDone message.partition s input h in
      let same = idle_after-same (finish grow header_size pause_result message.partition input) in
      elim (Bool-cases message.is_eof) [
        | inl f ↦
            let stops : should_finish grow header_size pause_result input s message.position
                ≡ true =
              ground arith in
            rw (h, f, stops, same, poll_message, handle_eof) finished
        | inr f ↦ elim (Bool-cases s.done) [
          | inl g ↦ rw (h, f, g, poll_message) ((s, (h, g)))
          | inr g ↦
              let stops : ends_at s.range.end_exclusive message.position ≡ true = ground arith in
              rw (h, f, g, stops, same, poll_message, take_message) finished
        ]
      ]

  -- A poll that tells the end of a partition leaves it done.
  poll-IsDone :
      (event : Option (Result KafkaFailure NativeMessage)) (k : ℕ) (s : PartitionState)
      (input : KafkaInput)
      → IsCounted input
      → get k input.partitions ≡ some s
      → tells_end input.exit_at_end k s.range event ≡ true
      → IsDone k (poll_with_timeout grow header_size pause_result event input).0
  unfolding poll_with_timeout poll_consumer
  poll-IsDone none k s input counted h ends = absurd (ground arith)
  poll-IsDone (some (err failure)) k s input counted h ends = absurd (ground arith)
  poll-IsDone (some (ok message)) k s input (counted, ascending) h ends =
      elim (Bool-cases (input.remaining_partitions == 0)) [
        | inl f ↦
            let none_open : unfinished input.partitions ≡ 0 = ground arith in
            rw (f, poll_with_timeout) ((s, (h, no_open_partition input.partitions k s none_open h)))
        | inr f ↦
            let e : message.partition ≡ k = ground arith in
            let here : get message.partition input.partitions ≡ some s =
              ap (λ j. get j input.partitions) e ∙ h in
            let ends' : message_ends input.exit_at_end message.partition s.range message ≡ true =
              ap (λ j. message_ends input.exit_at_end j s.range message) e ∙ ends in
            rw (f, poll_with_timeout)
              (subst (λ j. IsDone j (poll_message grow header_size pause_result message input).0) e
                (poll_message-IsDone message s input here ends'))
      ]

  unfoldable pub poll_all :
      List (Option (Result KafkaFailure NativeMessage)) → KafkaInput → KafkaInput
  poll_all [] input = input
  poll_all (event ∷ events) input =
      poll_all events (poll_with_timeout grow header_size pause_result event input).0

  poll_all-IsCounted :
      (events : List (Option (Result KafkaFailure NativeMessage))) (input : KafkaInput)
      → IsCounted input
      → IsCounted (poll_all events input) × Advances input (poll_all events input)
  unfolding poll_all
  poll_all-IsCounted [] input counted = (counted, Advances-refl input)
  poll_all-IsCounted (event ∷ events) input counted =
      let good = poll-IsGoodPoll grow header_size pause_result event input counted in
      let next : KafkaInput = (poll_with_timeout grow header_size pause_result event input).0 in
      let (counted', advances) = poll_all-IsCounted events next good.counted in
      (counted', Advances-trans input next (poll_all events next) good.advances advances)

  poll_all-IsDone :
      (events : List (Option (Result KafkaFailure NativeMessage))) (k : ℕ) (s : PartitionState)
      (input : KafkaInput)
      → IsCounted input
      → get k input.partitions ≡ some s
      → any (tells_end input.exit_at_end k s.range) events ≡ true
      → IsDone k (poll_all events input)
  unfolding poll_all
  poll_all-IsDone [] k s input counted h told = absurd (ground arith)
  poll_all-IsDone (event ∷ events) k s input counted h told =
      let good = poll-IsGoodPoll grow header_size pause_result event input counted in
      let next : KafkaInput = (poll_with_timeout grow header_size pause_result event input).0 in
      elim (Bool-cases (tells_end input.exit_at_end k s.range event)) [
        | inl f ↦
            let (s', (h', d)) = poll-IsDone event k s input counted h f in
            let (counted', advances) = poll_all-IsCounted events next good.counted in
            let (s'', (h'', (r, d'))) = advances.state k s' h' in (s'', (h'', d' d))
        | inr f ↦
            let (s', (h', (r, d))) = good.advances.state k s h in
            let later : any (tells_end input.exit_at_end k s.range) events ≡ true = ground arith in
            let told' : any (tells_end next.exit_at_end k s'.range) events ≡ true =
              rw (good.advances.exit_at_end, r) later in
            poll_all-IsDone events k s' next good.counted h' told'
      ]

  told_closed :
      (events : List (Option (Result KafkaFailure NativeMessage))) (input : KafkaInput)
      → IsCounted input
      → ((k : ℕ) (s : PartitionState)
          → get k input.partitions ≡ some s
          → (s.done || any (tells_end input.exit_at_end k s.range) events) ≡ true)
      → (k : ℕ) (s : PartitionState) → get k (poll_all events input).partitions ≡ some s
      → s.done ≡ true
  told_closed events input counted told k s h =
      let (counted', advances) = poll_all-IsCounted events input counted in
      elim (Option-cases (get k input.partitions)) [
        | inl f ↦ let assigned = advances.assigned k in absurd (ground arith)
        | inr (s0, f) ↦ elim (Bool-cases s0.done) [
          | inl d ↦
              let (s', (h', (r, d'))) = advances.state k s0 f in
              let e : s' ≡ s = ground arith in ap (λ x. x.done) (sym e) ∙ d' d
          | inr d ↦
              let due = told k s0 f in
              let ended : any (tells_end input.exit_at_end k s0.range) events ≡ true =
                ground arith in
              let (s', (h', d')) = poll_all-IsDone events k s0 input counted f ended in
              let e : s' ≡ s = ground arith in ap (λ x. x.done) (sym e) ∙ d'
        ]
      ]

  -- Let an input's count be right. If for each partition that is not done one of the polls tells
  -- its end, by the end of file where that is the end or by a record at or behind its end, then
  -- whatever else these polls give and whether or not partitions can be paused, the next poll
  -- tells the end of the input.
  pub poll_all-ends :
      (events : List (Option (Result KafkaFailure NativeMessage)))
      (event : Option (Result KafkaFailure NativeMessage)) (input : KafkaInput)
      → IsCounted input
      → ((k : ℕ) (s : PartitionState)
          → get k input.partitions ≡ some s
          → (s.done || any (tells_end input.exit_at_end k s.range) events) ≡ true)
      → (poll_with_timeout grow header_size pause_result event (poll_all events input)).1
        ≡ ok all_done
  unfolding poll_with_timeout
  poll_all-ends events event input counted told =
      let after : KafkaInput = poll_all events input in
      let ((remaining, ascending), advances) = poll_all-IsCounted events input counted in
      let closed : unfinished after.partitions ≡ 0 =
        all_closed after.partitions ascending (told_closed events input counted told) in
      let nothing : (after.remaining_partitions == 0) ≡ true = ground arith in
      rw (nothing, poll_with_timeout) refl
