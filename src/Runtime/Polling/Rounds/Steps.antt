-- ===== src/Runtime/Polling/Rounds/Steps.antt =====
-- What the two kinds of rounds of the poller (src/runtime.rs) keep.
use jkq.Prelude.{
  ◌==◌, if◌then◌else◌, Bool-cases, Option-cases, is_empty, Result, Result-cases, ℕ, ◌+◌, ◌≡◌, refl,
  ◌⊎◌, inl, inr, Bool, true, false, not, Option, none, some, arith,
}
use jkq.Runtime.Polling.Rounds.Sending.{flush_buffer-IsSound, admit-IsSound, last_flush-IsSound}
use jkq.Runtime.Polling.Rounds.{
  Keeps, IsSound, Keeps-refl, IsReady, slots_of, runtime_failure-Keeps, Keeps-trans, IsFailed,
  runtime_failure-IsFailed, IsSound-Keeps,
}
use jkq.Admission.Partition.{can_reserve, reserve}
use jkq.Admission.Shared
use jkq.Admission.Shared.{SharedAdmission, try_reserve}
use jkq.Records.{OwnedRecord, PollEvent, polled, idle, all_done}
use jkq.Runtime.Batches.{PollerBuffer}
use jkq.Runtime.Polling.{
  PollInput, Poller, flush_buffer, last_flush, admit, cannot_dispatch, finish_counted, offer_record,
  running_round, stop_round, Next, continue, wait_for_releases, break, reaches, input_error,
}
use jkq.Runtime.Polling.Numbered.{AreNumbered}

module _ (input : PollInput) where
  open input use {State, Error, finish, poll}

  -- A loop that ends without a failure has had back all that it admitted, and has sent it all.
  abbrev pub HasEnded : Poller input → Type 0
  HasEnded p =
      IsFailed input p
      ⊎ (AreNumbered p.admission (slots_of input p)
          × ((p.admission.total_records ≡ 0) × (p.buffer ≡ none)))

  abbrev pub GoodNext : Poller input × Next input → Type 0
  GoodNext (p, break) = HasEnded p
  GoodNext (p, continue) = IsSound input p × IsReady input p
  GoodNext (p, wait_for_releases) = IsSound input p × IsReady input p

  source-Keeps : (p : Poller input) (source : State) → Keeps input p (record p { source = source })
  source-Keeps p source = record {
    numbers = λ k. refl;
    sent = refl;
    buffer = refl;
    stopping = refl;
    failed = λ f. f;
  }

  finish_counted-Keeps :
      (limit : Option ℕ) (partition n : ℕ) (p : Poller input)
      → Keeps input p (finish_counted input limit partition n p)
  unfolding finish_counted
  finish_counted-Keeps limit partition n p = elim (Bool-cases (reaches input limit (n + 1))) [
    | inr f ↦ rw (f, finish_counted) (Keeps-refl input p)
    | inl f ↦
        let p' : Poller input = record p { source = (finish partition p.source).0 } in
        let kept = source-Keeps p (finish partition p.source).0 in
        elim (Result-cases (finish partition p.source).1) [
          | inr (u, g) ↦ rw (f, g, finish_counted) kept
          | inl (e, g) ↦
              rw (f, g, finish_counted)
                (Keeps-trans input p p' _ kept (runtime_failure-Keeps input p' (input_error e)))
        ]
  ]

  some-IsReady : (p : Poller input) (b : PollerBuffer) → p.buffer ≡ some b → IsReady input p
  some-IsReady p b h = ground arith

  pub Keeps-IsReady : (p q : Poller input) → Keeps input p q → IsReady input p → IsReady input q
  Keeps-IsReady p q h ready = rw (h.stopping, h.buffer) ready

  admit-IsReady :
      (connected : Bool) (owned : OwnedRecord) (b : PollerBuffer) (p : Poller input)
      → p.buffer ≡ some b
      → IsReady input (admit input connected owned b p).0
  unfolding admit
  admit-IsReady connected owned b p held =
      elim (Result-cases (reserve p.admission owned.partition)) [
        | inl (e, f) ↦ elim (Result-cases (Shared.release p.shared 1 owned.retained_bytes)) [
          | inl (x, g) ↦ rw (f, g, admit) (some-IsReady p b held)
          | inr (shared, g) ↦ rw (f, g, admit) (some-IsReady (record p { shared = shared }) b held)
        ]
        | inr ((a, m), f) ↦ rw (f, admit) (ground arith)
      ]

  flush_buffer-IsReady :
      (connected : Bool) (b : PollerBuffer) (p : Poller input)
      → IsReady input (flush_buffer input connected b p).0
  unfolding flush_buffer
  flush_buffer-IsReady connected b p = ground arith

  offer_record-Good :
      (limit : Option ℕ) (connected : Bool) (owned : OwnedRecord) (b : PollerBuffer)
      (p : Poller input)
      → p.buffer ≡ some b
      → IsSound input p
      → GoodNext (offer_record input limit connected owned b p)
  unfolding offer_record
  offer_record-Good limit connected owned b p held sound =
      let claim : SharedAdmission × Bool =
        if can_reserve p.admission owned.partition
        then try_reserve p.shared owned.retained_bytes
        else (p.shared, false) in
      let claimed : Poller input = record p { shared = claim.0 } in
      let waiting : Poller input = record claimed { pending = some owned } in
      elim (Bool-cases claim.1) [
        | inl f ↦ elim (Result-cases (admit input connected owned b claimed).1) [
          | inl (e, g) ↦
              rw (f, g, offer_record)
                (inl (runtime_failure-IsFailed input (admit input connected owned b claimed).0 e))
          | inr (n, g) ↦
              let admitted : Poller input = (admit input connected owned b claimed).0 in
              let kept = finish_counted-Keeps limit owned.partition n admitted in
              rw (f, g, offer_record)
                ((
                  IsSound-Keeps input admitted _ kept
                      (admit-IsSound input connected owned b claimed n held g sound),
                  Keeps-IsReady admitted _ kept (admit-IsReady connected owned b claimed held),
                ))
        ]
        | inr f ↦ elim (Bool-cases (flush_buffer input connected b waiting).1) [
          | inl g ↦
              rw (f, g, offer_record)
                ((
                  flush_buffer-IsSound input connected b waiting held g sound,
                  flush_buffer-IsReady connected b waiting,
                ))
          | inr g ↦
              rw (f, g, offer_record)
                (inl (
                  runtime_failure-IsFailed input (flush_buffer input connected b waiting).0
                    cannot_dispatch))
        ]
      ]

  pub running_round-Good :
      (limit : Option ℕ) (connected : Bool) (b : PollerBuffer) (p : Poller input)
      → p.buffer ≡ some b
      → IsSound input p
      → GoodNext (running_round input limit connected b p)
  unfolding running_round
  running_round-Good limit connected b p held sound = elim (Option-cases p.pending) [
    | inr (owned, f) ↦
        rw (f, running_round)
          (offer_record-Good limit connected owned b (record p { pending = none }) held sound)
    | inl f ↦
        let polled_pair : State × Result Error PollEvent =
          poll (not (is_empty b.pending)) p.source in
        let p' : Poller input = record p { source = polled_pair.0 } in
        elim (Result-cases polled_pair.1) [
          | inl (e, g) ↦
              rw (f, g, running_round)
                ((
                  inl (runtime_failure-IsFailed input p' (input_error e)),
                  Keeps-IsReady p' _ (runtime_failure-Keeps input p' (input_error e))
                      (some-IsReady p' b held),
                ))
          | inr (polled owned, g) ↦
              rw (f, g, running_round) (offer_record-Good limit connected owned b p' held sound)
          | inr (idle, g) ↦ elim (Bool-cases (flush_buffer input connected b p').1) [
            | inl h ↦
                rw (f, g, h, running_round)
                  ((
                    flush_buffer-IsSound input connected b p' held h sound,
                    flush_buffer-IsReady connected b p',
                  ))
            | inr h ↦
                rw (f, g, h, running_round)
                  (inl (
                    runtime_failure-IsFailed input (flush_buffer input connected b p').0
                      cannot_dispatch))
          ]
          | inr (all_done, g) ↦ rw (f, g, running_round) ((sound, refl))
        ]
  ]

  last_flush-gone :
      (connected : Bool) (buffer : Option PollerBuffer) (p : Poller input)
      → p.buffer ≡ buffer
      → ((last_flush input connected buffer p).0.stopping ≡ p.stopping)
        × ((last_flush input connected buffer p).0.buffer ≡ none)
  unfolding last_flush flush_buffer
  last_flush-gone connected none p h = (refl, h)
  last_flush-gone connected (some b) p h = (refl, refl)

  pub stop_round-Good :
      (connected : Bool) (p : Poller input)
      → p.stopping ≡ true
      → IsSound input p
      → GoodNext (stop_round input connected p)
  unfolding stop_round
  stop_round-Good connected p stops sound =
      let q : Poller input = (last_flush input connected p.buffer p).0 in
      elim (Bool-cases (last_flush input connected p.buffer p).1) [
        | inr f ↦ rw (f, stop_round) (inl (runtime_failure-IsFailed input q cannot_dispatch))
        | inl f ↦
            let gone = last_flush-gone connected p.buffer p refl in
            let flushed = last_flush-IsSound input connected p.buffer p refl f sound in
            elim (Bool-cases (q.admission.total_records == 0)) [
              | inl g ↦
                  let none_held : (record q { pending = none }).buffer ≡ none = gone.1 in
                  rw (f, g, stop_round)
                    (elim flushed [
                      | inl h ↦ inl h
                      | inr numbered ↦ inr (numbered, (ground arith, none_held))
                    ])
              | inr g ↦
                  let ready : IsReady input q = ground arith in
                  rw (f, g, stop_round) ((flushed, ready))
            ]
      ]
