-- ===== src/Runtime/Polling/Rounds.antt =====
-- What a round of the poller (src/runtime.rs) keeps.
pub mod Sending
pub mod Steps
use jkq.Prelude.{
  Option-cases, is_some, length, range_from, Result-cases, ℕ, ◌≡◌, refl, sym, ap, ◌∙◌, ◌⊎◌, inl,
  inr, true, ◌||◌, List, [], ◌∷◌, ◌++◌, arith,
}
use jkq.Admission.Partition
use jkq.Admission.Shared
use jkq.Admission.Partition.{Admission}
use jkq.Records.{Release}
use jkq.Runtime.Polling.{
  PollInput, Poller, runtime_failure, release_each, release_batch, receive, receive_all,
  total_bytes, PollFailure,
}
use jkq.Runtime.Polling.Numbered.{
  AreNumbered, Slot, sent_slots, buffer_slots, next_number, next_number-release, numbers,
}

module _ (input : PollInput) where
  open input use {State, Error}

  abbrev pub IsFailed : Poller input → Type 0
  IsFailed p = is_some p.first_failure ≡ true

  -- Sent, or about to be.
  abbrev pub slots_of : Poller input → List Slot
  slots_of p = sent_slots p.sent ++ buffer_slots p.buffer

  abbrev pub IsSound : Poller input → Type 0
  IsSound p = IsFailed p ⊎ AreNumbered p.admission (slots_of p)

  -- A running poller has a buffer.
  abbrev pub IsReady : Poller input → Type 0
  IsReady p = (p.stopping || is_some p.buffer) ≡ true

  -- What a step leaves as it was.
  pub record Keeps (p q : Poller input) : Type 0 where
    pub numbers : (k : ℕ) → next_number k q.admission ≡ next_number k p.admission
    pub sent : q.sent ≡ p.sent
    pub buffer : q.buffer ≡ p.buffer
    pub stopping : q.stopping ≡ p.stopping
    pub failed : IsFailed p → IsFailed q

  pub Keeps-refl : (p : Poller input) → Keeps p p
  Keeps-refl p = record {
    numbers = λ k. refl;
    sent = refl;
    buffer = refl;
    stopping = refl;
    failed = λ f. f;
  }

  pub Keeps-trans : (p q r : Poller input) → Keeps p q → Keeps q r → Keeps p r
  Keeps-trans p q r h g = record {
    numbers = λ k. g.numbers k ∙ h.numbers k;
    sent = g.sent ∙ h.sent;
    buffer = g.buffer ∙ h.buffer;
    stopping = g.stopping ∙ h.stopping;
    failed = λ f. g.failed (h.failed f);
  }

  pub IsSound-Keeps : (p q : Poller input) → Keeps p q → IsSound p → IsSound q
  IsSound-Keeps p q h (inl f) = inl (h.failed f)
  IsSound-Keeps p q h (inr numbered) =
      let same : slots_of q ≡ slots_of p = rw (h.sent, h.buffer) refl in
      inr (λ k. ap (numbers k) same ∙ (numbered k ∙ ap (range_from 0) (sym (h.numbers k))))

  pub runtime_failure-Keeps :
      (p : Poller input) (e : PollFailure Error) → Keeps p (runtime_failure input p e)
  unfolding runtime_failure
  runtime_failure-Keeps p e = record {
    numbers = λ k. refl;
    sent = refl;
    buffer = refl;
    stopping = refl;
    failed = λ f. ground arith;
  }

  pub runtime_failure-IsFailed :
      (p : Poller input) (e : PollFailure Error) → IsFailed (runtime_failure input p e)
  unfolding runtime_failure
  runtime_failure-IsFailed p e = ground arith

  release_each-numbers :
      (k : ℕ) (releases : List Release) (a : Admission) (source : State)
      → next_number k (release_each input releases a source).0.0 ≡ next_number k a
  unfolding release_each
  release_each-numbers k [] a source = refl
  release_each-numbers k (r ∷ releases) a source =
      elim (Result-cases (Partition.release a r.partition)) [
        | inl (e, f) ↦ rw (f, release_each) refl
        | inr (a', f) ↦
            rw (f, release_each)
              (release_each-numbers k releases a' _ ∙ next_number-release k r.partition a a' f)
      ]

  release_batch-Keeps :
      (releases : List Release) (p : Poller input) → Keeps p (release_batch input releases p).0
  unfolding release_batch
  release_batch-Keeps releases p =
      let kept : (k : ℕ)
          → next_number k (release_each input releases p.admission p.source).0.0
            ≡ next_number k p.admission =
        λ k. release_each-numbers k releases p.admission p.source in
      elim (Option-cases (total_bytes 0 releases)) [
        | inl f ↦ rw (f, release_batch) (Keeps-refl p)
        | inr (bytes, f) ↦
            elim (Result-cases (release_each input releases p.admission p.source).1) [
              | inl (e, g) ↦
                  rw (f, g, release_batch)
                    (record {
                      numbers = kept;
                      sent = refl;
                      buffer = refl;
                      stopping = refl;
                      failed = λ f. f;
                    })
              | inr (u, g) ↦ elim (Result-cases (Shared.release p.shared (length releases) bytes)) [
                | inl (e, h) ↦
                    rw (f, g, h, release_batch)
                      (record {
                        numbers = kept;
                        sent = refl;
                        buffer = refl;
                        stopping = refl;
                        failed = λ f. f;
                      })
                | inr (shared, h) ↦
                    rw (f, g, h, release_batch)
                      (record {
                        numbers = kept;
                        sent = refl;
                        buffer = refl;
                        stopping = refl;
                        failed = λ f. f;
                      })
              ]
            ]
      ]

  pub receive-Keeps :
      (releases : List Release) (p : Poller input) → Keeps p (receive input releases p)
  unfolding receive
  receive-Keeps releases p =
      let kept = release_batch-Keeps releases p in
      elim (Result-cases (release_batch input releases p).1) [
        | inl (e, f) ↦
            rw (f, receive)
              (Keeps-trans p _ _ kept (runtime_failure-Keeps (release_batch input releases p).0 e))
        | inr (u, f) ↦ rw (f, receive) kept
      ]

  pub receive_all-Keeps :
      (arrivals : List (List Release)) (p : Poller input) → Keeps p (receive_all input arrivals p)
  unfolding receive_all
  receive_all-Keeps [] p = Keeps-refl p
  receive_all-Keeps (releases ∷ more) p =
      Keeps-trans p _ _ (receive-Keeps releases p)
        (receive_all-Keeps more (receive input releases p))
