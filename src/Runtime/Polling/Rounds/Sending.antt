-- ===== src/Runtime/Polling/Rounds/Sending.antt =====
-- The poller of src/runtime.rs sends what it admits, in order.
use jkq.Prelude.{
  leb, Bool-cases, length, ok, err, Result-cases, word_mod, ℕ, ◌+◌, ◌%◌, ◌≡◌, refl, sym, ap, ◌∙◌,
  subst, inl, inr, Bool, true, ◌||◌, Option, none, some, [], ◌∷◌, ◌++◌, map, append-nil,
  append_assoc, map-append, arith, List-cases,
}
use jkq.Runtime.Polling.Rounds.{IsSound, slots_of}
use jkq.Admission.Partition.{Admission, reserve}
use jkq.Admission.Shared
use jkq.Records.{OwnedRecord}
use jkq.Runtime.Batches.{PollerBuffer, flush, push, Sent, batch_bytes, batch_records}
use jkq.Runtime.Stats.{Stats, count_admitted}
use jkq.Runtime.Polling.{
  PollInput, Poller, flush_buffer, last_flush, admit, cannot_dispatch, partition_error,
  shared_error,
}
use jkq.Runtime.Polling.Numbered.{
  AreNumbered-snoc, sent_slots, sent_slots-append, buffer_slots, numbers, item_slot, batch_of-slots,
}

-- A flush that succeeds sends what was pending.
flush-slots :
    (connected : Bool) (b : PollerBuffer) (stats : Stats)
    → (flush connected b stats).succeeded ≡ true
    → (sent_slots (flush connected b stats).batches
          ++ map item_slot (flush connected b stats).buffer.pending
        ≡ map item_slot b.pending)
      × ((flush connected b stats).buffer.pending ≡ [])
unfolding flush
flush-slots connected b stats h = elim (List-cases b.pending) [
  | inl f ↦ rw (f, flush) ((ap (map item_slot) f, f))
  | inr (item, (items, f)) ↦
      let e : connected ≡ true = subst (λ x. x ≡ true) (rw (f, flush) refl) h in
      let slots = batch_of-slots b.consumer b.destination (item ∷ items) in
      rw (f, e, flush) ((append-nil _ ∙ (append-nil _ ∙ slots), refl))
]

-- So does a push, with the record that it adds.
push-slots :
    (connected : Bool) (b : PollerBuffer) (owned : OwnedRecord) (n : ℕ) (stats : Stats)
    → (push connected b owned n stats).succeeded ≡ true
    → sent_slots (push connected b owned n stats).batches
        ++ map item_slot (push connected b owned n stats).buffer.pending
      ≡ map item_slot b.pending ++ (owned.partition, n) ∷ []
unfolding push
push-slots connected b owned n stats h =
    let filled : PollerBuffer = record b {
      pending = b.pending ++ record { sequence = n; owned = owned } ∷ [];
      retained_bytes = (b.retained_bytes + owned.retained_bytes) % word_mod;
    } in
    let added : map item_slot filled.pending
        ≡ map item_slot b.pending ++ (owned.partition, n) ∷ [] =
      map-append item_slot b.pending (record { sequence = n; owned = owned } ∷ []) in
    elim (Bool-cases
      (leb batch_records (length filled.pending) || leb batch_bytes filled.retained_bytes)) [
        | inl f ↦
            let succeeded : (flush connected filled stats).succeeded ≡ true =
              subst (λ x. x ≡ true) (rw (f, push) refl) h in
            rw (f, push) ((flush-slots connected filled stats succeeded).0 ∙ added)
        | inr f ↦ rw (f, push) added
      ]

module _ (input : PollInput) where
  open input use {State, Error, finish}

  -- A flush that succeeds changes no more than where the slots are.
  pub flush_buffer-IsSound :
      (connected : Bool) (b : PollerBuffer) (p : Poller input)
      → p.buffer ≡ some b
      → (flush_buffer input connected b p).1 ≡ true
      → IsSound input p
      → IsSound input (flush_buffer input connected b p).0
  unfolding flush_buffer
  flush_buffer-IsSound connected b p held h (inl f) = inl f
  flush_buffer-IsSound connected b p held h (inr numbered) =
      let (slots, none_left) = flush-slots connected b p.stats h in
      let s : Sent = flush connected b p.stats in
      let same : sent_slots (p.sent ++ s.batches) ++ map item_slot s.buffer.pending
          ≡ sent_slots p.sent ++ map item_slot b.pending =
        ap (λ x. x ++ map item_slot s.buffer.pending) (sent_slots-append p.sent s.batches)
        ∙ (append_assoc (sent_slots p.sent) (sent_slots s.batches) (map item_slot s.buffer.pending)
            ∙ ap (λ x. sent_slots p.sent ++ x) slots) in
      let before : slots_of input p ≡ sent_slots p.sent ++ map item_slot b.pending =
        ap (λ o. sent_slots p.sent ++ buffer_slots o) held in
      inr (λ k. ap (numbers k) (same ∙ sym before) ∙ numbered k)

  pub last_flush-IsSound :
      (connected : Bool) (buffer : Option PollerBuffer) (p : Poller input)
      → p.buffer ≡ buffer
      → (last_flush input connected buffer p).1 ≡ true
      → IsSound input p
      → IsSound input (last_flush input connected buffer p).0
  unfolding last_flush flush_buffer
  last_flush-IsSound connected none p held h sound = sound
  last_flush-IsSound connected (some b) p held h sound =
      elim (flush_buffer-IsSound connected b p held h sound) [
        | inl f ↦ inl f
        | inr numbered ↦
            let (slots, none_left) = flush-slots connected b p.stats h in
            inr (λ k.
              ap
                (λ pending. numbers k (
                  sent_slots (p.sent ++ (flush connected b p.stats).batches)
                  ++ map item_slot pending))
                (sym none_left)
              ∙ numbered k)
      ]

  pushed_IsSound :
      (a : Admission) (m : ℕ) (s : Sent) (p : Poller input) (b : PollerBuffer) (owned : OwnedRecord)
      → p.buffer ≡ some b
      → sent_slots s.batches ++ map item_slot s.buffer.pending
        ≡ map item_slot b.pending ++ (owned.partition, m) ∷ []
      → reserve p.admission owned.partition ≡ ok (a, m)
      → IsSound input p
      → IsSound input (record p {
        admission = a;
        buffer = some s.buffer;
        stats = s.stats;
        sent = p.sent ++ s.batches;
      })
  pushed_IsSound a m s p b owned held slots h (inl f) = inl f
  pushed_IsSound a m s p b owned held slots h (inr numbered) =
      let same : sent_slots (p.sent ++ s.batches) ++ map item_slot s.buffer.pending
          ≡ sent_slots p.sent ++ (map item_slot b.pending ++ (owned.partition, m) ∷ []) =
        ap (λ x. x ++ map item_slot s.buffer.pending) (sent_slots-append p.sent s.batches)
        ∙ (append_assoc (sent_slots p.sent) (sent_slots s.batches) (map item_slot s.buffer.pending)
            ∙ ap (λ x. sent_slots p.sent ++ x) slots) in
      let before : slots_of input p ++ (owned.partition, m) ∷ []
          ≡ sent_slots p.sent ++ (map item_slot b.pending ++ (owned.partition, m) ∷ []) =
        ap (λ o. (sent_slots p.sent ++ buffer_slots o) ++ (owned.partition, m) ∷ []) held
        ∙ append_assoc (sent_slots p.sent) (map item_slot b.pending) ((owned.partition, m) ∷ []) in
      let longer = AreNumbered-snoc p.admission a (slots_of input p) owned.partition m numbered h in
      inr (λ k. ap (numbers k) (same ∙ sym before) ∙ longer k)

  -- An admission that succeeds numbers the record.
  pub admit-IsSound :
      (connected : Bool) (owned : OwnedRecord) (b : PollerBuffer) (p : Poller input) (n : ℕ)
      → p.buffer ≡ some b
      → (admit input connected owned b p).1 ≡ ok n
      → IsSound input p
      → IsSound input (admit input connected owned b p).0
  unfolding admit
  admit-IsSound connected owned b p n held h sound =
      elim (Result-cases (reserve p.admission owned.partition)) [
        | inl (e, f) ↦ elim (Result-cases (Shared.release p.shared 1 owned.retained_bytes)) [
          | inl (x, g) ↦
              let failed : (admit input connected owned b p).1 ≡ err (shared_error x) =
                rw (f, g, admit) refl in
              absurd (ground arith)
          | inr (shared, g) ↦
              let failed : (admit input connected owned b p).1 ≡ err (partition_error e) =
                rw (f, g, admit) refl in
              absurd (ground arith)
        ]
        | inr ((a, m), f) ↦
            let s : Sent = push connected b owned m (count_admitted p.stats owned) in
            elim (Bool-cases s.succeeded) [
              | inr g ↦
                  let failed : (admit input connected owned b p).1 ≡ err cannot_dispatch =
                    rw (f, g, admit) refl in
                  absurd (ground arith)
              | inl g ↦
                  rw (f, admit)
                    (pushed_IsSound a m s p b owned held
                      (push-slots connected b owned m (count_admitted p.stats owned) g) f sound)
            ]
      ]
