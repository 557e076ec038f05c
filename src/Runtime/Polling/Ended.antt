-- ===== src/Runtime/Polling/Ended.antt =====
-- The loop of the poller (src/runtime.rs) as a whole.
use jkq.Prelude.{
  Bool-cases, Option-cases, ℕ, ◌≡◌, refl, ap, inl, inr, Bool, true, false, Option, some, List, [],
  ◌∷◌, arith, map_some,
}
use jkq.Runtime.Polling.Rounds.{
  Keeps, IsSound, IsReady, Keeps-trans, runtime_failure-IsFailed, IsSound-Keeps, receive-Keeps,
  receive_all-Keeps,
}
use jkq.Admission.Shared.{SharedAdmission}
use jkq.Runtime.Batches.{Destination}
use jkq.Runtime.Stats.{Stats}
use jkq.Runtime.Polling.{
  start, PollInput, Poller, running_round, stop_round, middle_round, poll_round, poll_loop, Next,
  continue, wait_for_releases, break, Round, Wait, end_round, goes_on, prepared, receive_all,
  channel_closed, timed_out, disconnected,
}
use jkq.Runtime.Polling.Numbered.{new-AreNumbered}
use jkq.Runtime.Polling.Rounds.Steps.{
  HasEnded, GoodNext, Keeps-IsReady, running_round-Good, stop_round-Good,
}

module _ (input : PollInput) where
  open input use {State, Error, finish, poll}

  prepared-Keeps :
      (round : Round) (p : Poller input)
      → IsSound input p
      → IsReady input p
      → IsSound input (prepared input round p) × IsReady input (prepared input round p)
  prepared-Keeps round p sound ready =
      let shared : Poller input = record p { shared = round.others p.shared } in
      let same : Keeps input p shared = record {
        numbers = λ k. refl;
        sent = refl;
        buffer = refl;
        stopping = refl;
        failed = λ f. f;
      } in
      let kept =
        Keeps-trans input p shared _ same (receive_all-Keeps input round.arrivals shared) in
      let q : Poller input = receive_all input round.arrivals shared in
      let ready' : IsReady input q = Keeps-IsReady input p q kept ready in
      (IsSound-Keeps input p q kept sound, ground arith)

  -- The state after a round, whether the loop goes on or has ended.
  abbrev pub GoodState : Poller input × Bool → Type 0
  GoodState (p, true) = IsSound input p × IsReady input p
  GoodState (p, false) = HasEnded input p

  middle_round-Good :
      (limit : Option ℕ) (connected : Bool) (p : Poller input)
      → IsSound input p
      → IsReady input p
      → (r : Poller input × Next input) × ((middle_round input limit connected p ≡ some r)
          × GoodNext input r)
  unfolding middle_round
  middle_round-Good limit connected p sound ready = elim (Bool-cases p.stopping) [
    | inl f ↦ (
      stop_round input connected p,
      (rw (f, middle_round) refl, stop_round-Good input connected p f sound),
    )
    | inr f ↦ elim (Option-cases p.buffer) [
      | inl g ↦ absurd (ground arith)
      | inr (b, g) ↦ (
        running_round input limit connected b p,
        (rw (f, g, middle_round) refl, running_round-Good input limit connected b p g sound),
      )
    ]
  ]

  end_round-Good :
      (wait : Wait) (p : Poller input)
      → IsSound input p
      → IsReady input p
      → GoodState (end_round input wait p)
  unfolding end_round
  end_round-Good (Wait.arrived releases) p sound ready =
      let kept = receive-Keeps input releases p in
      (IsSound-Keeps input p _ kept sound, Keeps-IsReady input p _ kept ready)
  end_round-Good timed_out p sound ready = (sound, ready)
  end_round-Good disconnected p sound ready = inl (runtime_failure-IsFailed input p channel_closed)

  goes_on-Good :
      (wait : Wait) (r : Poller input × Next input)
      → GoodNext input r
      → GoodState (goes_on input wait r)
  goes_on-Good wait (p, continue) good = good
  goes_on-Good wait (p, wait_for_releases) (sound, ready) = end_round-Good wait p sound ready
  goes_on-Good wait (p, break) good = good

  poll_round-Good :
      (limit : Option ℕ) (round : Round) (p : Poller input)
      → IsSound input p
      → IsReady input p
      → (r : Poller input × Bool) × ((poll_round input limit round p ≡ some r) × GoodState r)
  unfolding poll_round
  poll_round-Good limit round p sound ready =
      let (sound', ready') = prepared-Keeps round p sound ready in
      let (next, (e, good)) =
        middle_round-Good limit round.connected (prepared input round p) sound' ready' in
      (
        goes_on input round.wait next,
        (ap (map_some (goes_on input round.wait)) e, goes_on-Good round.wait next good),
      )

  follow :
      (limit : Option ℕ) (round : Round) (rounds : List Round) (p : Poller input)
      → ((q : Poller input)
          → IsSound input q
          → IsReady input q
          → (r : Poller input × Bool) × ((poll_loop input limit rounds q ≡ some r) × GoodState r))
      → (r : Poller input × Bool) → poll_round input limit round p ≡ some r
      → GoodState r
      → (r : Poller input × Bool) × ((poll_loop input limit (round ∷ rounds) p ≡ some r)
          × GoodState r)
  unfolding poll_loop
  follow limit round rounds p later (q, true) e (sound, ready) =
      let (r, (f, good)) = later q sound ready in (r, (rw (e, poll_loop) f, good))
  follow limit round rounds p later (q, false) e finished =
      ((q, false), (rw (e, poll_loop) refl, finished))

  -- From any state that is sound.
  poll_loop-Good :
      (limit : Option ℕ) (rounds : List Round) (p : Poller input)
      → IsSound input p
      → IsReady input p
      → (r : Poller input × Bool) × ((poll_loop input limit rounds p ≡ some r) × GoodState r)
  unfolding poll_loop
  poll_loop-Good limit [] p sound ready = ((p, true), (refl, (sound, ready)))
  poll_loop-Good limit (round ∷ rounds) p sound ready =
      let (r, (e, good)) = poll_round-Good limit round p sound ready in
      follow limit round rounds p (poll_loop-Good limit rounds) r e good

  -- For any input and any rounds, poll_loop from its start finds a buffer whenever it needs one.
  -- While no failure is recorded, what it has sent and what its buffer holds number the records of
  -- each partition 0, 1, 2, … in the order of their admission up to the partition's next number,
  -- and if the loop has then ended, no admitted record is still out and the buffer is gone, so
  -- that all were sent and all came back.
  pub poll_loop-dispatches :
      (limit : Option ℕ) (rounds : List Round) (partitions : List ℕ) (source : State)
      (shared : SharedAdmission) (consumer max_inflight : ℕ) (destination : Destination)
      (stats : Stats)
      → (r : Poller input × Bool) × ((poll_loop input limit rounds
              (start input source partitions max_inflight shared consumer destination stats)
            ≡ some r)
          × GoodState r)
  poll_loop-dispatches limit rounds partitions source shared consumer max_inflight destination
        stats =
      poll_loop-Good limit rounds
        (start input source partitions max_inflight shared consumer destination stats)
        (inr (unfold start in new-AreNumbered partitions max_inflight)) (unfold start in refl)
