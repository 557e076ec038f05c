-- ===== src/Runtime/Polling.antt =====
-- The poller of src/runtime.rs: `poll_loop` with `admit` and `release_batch`, over any input. A round
-- of its loop has from its surroundings the releases that arrived, the signal to stop, what other
-- pollers did to the shared budget, and whether the channels are connected.
pub mod Source
pub mod Numbered
pub mod Rounds
pub mod Ended
use jkq.Prelude.{
  leb, ◌==◌, if◌then◌else◌, length, is_empty, Result, ok, err, checked_add, ℕ, ◌+◌, Bool, true,
  false, not, ◌||◌, Option, none, some, List, [], ◌∷◌, ◌++◌, map_some,
}
use jkq.Admission.Partition
use jkq.Admission.Partition.{Admission, can_reserve, reserve}
use jkq.Admission.Shared
use jkq.Admission.Shared.{SharedAdmission, try_reserve, count_reached}
use jkq.Records.{OwnedRecord, Buffer, Release, PollEvent, polled, idle, all_done}
use jkq.Runtime.Batches
use jkq.Runtime.Batches.{Destination, PollerBuffer, Batch, push, flush}
use jkq.Runtime.Stats.{Stats, count_admitted}
use jkq.Runtime.Writing.{set_once}

-- `KafkaInput`, as far as the poller uses it.
pub record PollInput : Type 1 where
  pub State : Type 0
  pub Error : Type 0
  -- Without waiting, if the poller has something to send.
  pub poll : Bool → State → State × Result Error PollEvent
  pub finish : ℕ → State → State × Result Error (Unit {0})
  -- To its payload buffers.
  pub recycle_payload : Buffer → State → State

pub data Wait : Type 0 where
  arrived : List Release → Wait
  timed_out disconnected : Wait

pub record Round : Type 0 where
  pub arrivals : List (List Release)
  pub signalled : Bool
  pub others : SharedAdmission → SharedAdmission
  pub connected : Bool
  pub wait : Wait

pub data PollFailure (E : Type 0) : Type 0 where
  release_overflow : PollFailure E
  partition_error : Partition.Error → PollFailure E
  shared_error : Shared.Error → PollFailure E
  input_error : E → PollFailure E
  cannot_dispatch channel_closed : PollFailure E

-- `try_fold` with `checked_add`.
unfoldable pub total_bytes : ℕ → List Release → Option ℕ
total_bytes total [] = some total
total_bytes total (r ∷ releases) = elim (checked_add total r.retained_bytes) [
  | none ↦ none
  | some total' ↦ total_bytes total' releases
]

module _ (input : PollInput) where
  open input use {State, Error, poll, finish, recycle_payload}

  -- The loop's variables and what they share with other threads.
  pub record Poller : Type 0 where
    pub source : State
    pub admission : Admission
    pub shared : SharedAdmission
    pub buffer : Option PollerBuffer
    pub pending : Option OwnedRecord
    pub stopping : Bool
    pub stats : Stats
    pub shutdown : Bool
    pub first_failure : Option (PollFailure Error)
    -- All that was sent.
    pub sent : List Batch

  unfoldable pub runtime_failure : Poller → PollFailure Error → Poller
  runtime_failure p e = record p { first_failure = set_once p.first_failure e; shutdown = true }

  abbrev recycled : Option Buffer → State → State
  recycled none source = source
  recycled (some payload) source = recycle_payload payload source

  -- The loop of release_batch.
  unfoldable pub release_each :
      List Release → Admission → State → (Admission × State) × Result (PollFailure Error) (Unit {0})
  release_each [] admission source = ((admission, source), ok tt)
  release_each (r ∷ releases) admission source = elim (Partition.release admission r.partition) [
    | err e ↦ ((admission, source), err (partition_error e))
    | ok admission' ↦ release_each releases admission' (recycled r.payload source)
  ]

  unfoldable pub release_batch :
      List Release → Poller → Poller × Result (PollFailure Error) (Unit {0})
  unfolding release_each total_bytes
  release_batch releases p = elim (total_bytes 0 releases) [
    | none ↦ (p, err release_overflow)
    | some bytes ↦
        let ((admission, source), result) = release_each releases p.admission p.source in
        let p' : Poller = record p { admission = admission; source = source } in
        elim result [
          | err e ↦ (p', err e)
          | ok done ↦ elim (Shared.release p.shared (length releases) bytes) [
            | err e ↦ (p', err (shared_error e))
            | ok shared ↦ (record p' { shared = shared }, ok tt)
          ]
        ]
  ]

  unfoldable pub receive : List Release → Poller → Poller
  unfolding release_batch runtime_failure
  receive releases p =
      let (p', result) = release_batch releases p in
      elim result [ ok done ↦ p' | err e ↦ runtime_failure p' e ]

  unfoldable pub receive_all : List (List Release) → Poller → Poller
  unfolding receive
  receive_all [] p = p
  receive_all (releases ∷ more) p = receive_all more (receive releases p)

  -- A flush of the poller's buffer, which it keeps.
  unfoldable pub flush_buffer : Bool → PollerBuffer → Poller → Poller × Bool
  unfolding flush
  flush_buffer connected b p =
      let s = flush connected b p.stats in
      (
        record p { buffer = some s.buffer; stats = s.stats; sent = p.sent ++ s.batches },
        s.succeeded,
      )

  -- The sequence number.
  unfoldable pub admit :
      Bool → OwnedRecord → PollerBuffer → Poller → Poller × Result (PollFailure Error) ℕ
  unfolding push
  admit connected owned b p = elim (reserve p.admission owned.partition) [
    | err e ↦ elim (Shared.release p.shared 1 owned.retained_bytes) [
      | err f ↦ (p, err (shared_error f))
      | ok shared ↦ (record p { shared = shared }, err (partition_error e))
    ]
    | ok (admission, sequence) ↦
        let s = push connected b owned sequence (count_admitted p.stats owned) in
        let p' : Poller = record p {
          admission = admission;
          buffer = some s.buffer;
          stats = s.stats;
          sent = p.sent ++ s.batches;
        } in
        (p', if s.succeeded then ok sequence else err cannot_dispatch)
  ]

  -- What comes after the round's first part: the next round, the wait at the end of this one, or the
  -- end of the loop.
  pub data Next : Type 0 where
    continue wait_for_releases break : Next

  -- The buffer is taken and sent.
  unfoldable pub last_flush : Bool → Option PollerBuffer → Poller → Poller × Bool
  unfolding flush_buffer
  last_flush connected none p = (p, true)
  last_flush connected (some b) p =
      let (q, succeeded) = flush_buffer connected b p in (record q { buffer = none }, succeeded)

  -- A stopping poller.
  unfoldable pub stop_round : Bool → Poller → Poller × Next
  unfolding last_flush runtime_failure
  stop_round connected p =
      let (p', flushed) = last_flush connected p.buffer p in
      if not flushed then (runtime_failure p' cannot_dispatch, break) else (
        record p' { pending = none },
        if p'.admission.total_records == 0 then break else wait_for_releases,
      )

  abbrev pub reaches : Option ℕ → ℕ → Bool
  reaches none n = false
  reaches (some limit) n = leb limit n

  -- After a record is admitted.
  unfoldable pub finish_counted : Option ℕ → ℕ → ℕ → Poller → Poller
  unfolding runtime_failure
  finish_counted count_per_partition partition sequence p =
      if reaches count_per_partition (sequence + 1)
      then (let (source, result) = finish partition p.source in
          let p' : Poller = record p { source = source } in
          elim result [ ok done ↦ p' | err e ↦ runtime_failure p' (input_error e) ])
      else p

  -- With a record in hand.
  unfoldable pub offer_record :
      Option ℕ → Bool → OwnedRecord → PollerBuffer → Poller → Poller × Next
  unfolding admit finish_counted flush_buffer runtime_failure
  offer_record count_per_partition connected owned b p =
      let (shared, reserved) =
        if can_reserve p.admission owned.partition
        then try_reserve p.shared owned.retained_bytes
        else (p.shared, false) in
      let claimed : Poller = record p { shared = shared } in
      if reserved
      then (let (p', result) = admit connected owned b claimed in
          elim result [
            | ok sequence ↦
                (finish_counted count_per_partition owned.partition sequence p', continue)
            | err e ↦ (runtime_failure p' e, break)
          ])
      else (let (p', flushed) =
            flush_buffer connected b (record claimed { pending = some owned }) in
          if flushed then (p', wait_for_releases) else (runtime_failure p' cannot_dispatch, break))

  -- A poller that is not stopping.
  unfoldable pub running_round : Option ℕ → Bool → PollerBuffer → Poller → Poller × Next
  unfolding offer_record flush_buffer runtime_failure
  running_round count_per_partition connected b p = elim p.pending [
    | some owned ↦ offer_record count_per_partition connected owned b (record p { pending = none })
    | none ↦
        let (source, event) = poll (not (is_empty b.pending)) p.source in
        let p' : Poller = record p { source = source } in
        elim event [
          | ok (polled owned) ↦ offer_record count_per_partition connected owned b p'
          | ok idle ↦
              let (q, flushed) = flush_buffer connected b p' in
              (if flushed then (q, continue) else (runtime_failure q cannot_dispatch, break))
          | ok all_done ↦ (record p' { stopping = true }, continue)
          | err e ↦ (runtime_failure p' (input_error e), continue)
        ]
  ]

  unfoldable pub end_round : Wait → Poller → Poller × Bool
  unfolding receive runtime_failure
  end_round (arrived releases) p = (receive releases p, true)
  end_round timed_out p = (p, true)
  end_round disconnected p = (runtime_failure p channel_closed, false)

  abbrev pub goes_on : Wait → Poller × Next → Poller × Bool
  goes_on wait (p, continue) = (p, true)
  goes_on wait (p, wait_for_releases) = end_round wait p
  goes_on wait (p, break) = (p, false)

  -- The `expect` on a running poller's buffer would fail: the round gives nothing.
  unfoldable pub middle_round : Option ℕ → Bool → Poller → Option (Poller × Next)
  unfolding stop_round running_round
  middle_round count_per_partition connected p =
      if p.stopping
      then some (stop_round connected p)
      else map_some (λ b. running_round count_per_partition connected b p) p.buffer

  abbrev pub prepared : Round → Poller → Poller
  prepared round p =
      let q = receive_all round.arrivals (record p { shared = round.others p.shared }) in
      record q {
        shutdown = q.shutdown || round.signalled;
        stopping = q.stopping || ((q.shutdown || round.signalled) || count_reached q.shared);
      }

  -- Whether the loop goes on.
  unfoldable pub poll_round : Option ℕ → Round → Poller → Option (Poller × Bool)
  unfolding middle_round receive_all end_round
  poll_round count_per_partition round p =
      map_some (goes_on round.wait)
        (middle_round count_per_partition round.connected (prepared round p))

  unfoldable pub start : State → List ℕ → ℕ → SharedAdmission → ℕ → Destination → Stats → Poller
  unfolding Batches.new
  start source partitions max_inflight_per_partition shared consumer destination stats = record {
    source = source;
    admission = Partition.new partitions max_inflight_per_partition;
    shared = shared;
    buffer = some (Batches.new consumer destination);
    pending = none;
    stopping = false;
    stats = stats;
    shutdown = false;
    first_failure = none;
    sent = [];
  }

  -- As many rounds as their surroundings are given for. A loop that has ended stays.
  unfoldable pub poll_loop : Option ℕ → List Round → Poller → Option (Poller × Bool)
  poll_loop count_per_partition [] p = some (p, true)
  poll_loop count_per_partition (round ∷ rounds) p = elim (poll_round count_per_partition round p) [
    | none ↦ none
    | some (p', true) ↦ poll_loop count_per_partition rounds p'
    | some (p', false) ↦ some (p', false)
  ]
