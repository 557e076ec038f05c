-- ===== src/Runtime/Writing/Success.antt =====
-- What it means that `write_completions` of src/runtime.rs returns `Ok`: everything was written.
use jkq.Prelude.{
  Bool-cases, is_some, Bytes, is_empty, Result, ok, ℕ, ◌≡◌, refl, sym, ap, ◌∙◌, subst, inl, inr,
  Bool, true, Option, none, some, List, [], arith,
}
use jkq.Records.{SourceRecord, Action}
use jkq.Orderer.{take_pending, all_pending, default}
use jkq.Runtime.Writing.{
  Writing, CompletionBatch, write_completions, write_batches, write_items, writer_failure,
  close_gap, last_flush, flush_once, start,
}
use jkq.Runtime.Writing.Failure.{write_items-failed}
use jkq.Runtime.Writing.Sends.{all_items, is_empty-nil}
use jkq.Runtime.Writing.Complete.{
  Written, emitted, orderer_after, turned_away, unfailed, write_batches-items, write_items-Complete,
}

module _ (Sink E : Type 0) (write : SourceRecord → Action → Sink → Sink × Result E (Unit {0}))
    (flush : Sink → Sink × Result E (Unit {0})) where
  close_gap-failed :
      (consumers : ℕ) (w : Writing Sink E write flush)
      → is_some w.failure ≡ true
      → is_some (close_gap Sink E write flush consumers w).0.failure ≡ true
  unfolding close_gap writer_failure
  close_gap-failed consumers w h = ground arith

  last_flush-failed :
      (w : Writing Sink E write flush)
      → is_some w.failure ≡ true
      → is_some (last_flush Sink E write flush w).failure ≡ true
  unfolding last_flush flush_once writer_failure
  last_flush-failed w h = ground arith

  close_gap-whole :
      (consumers : ℕ) (w : Writing Sink E write flush)
      → (close_gap Sink E write flush consumers w).0.failure ≡ none
      → (all_pending w.orderer ≡ []) × ((close_gap Sink E write flush consumers w).0.sink ≡ w.sink)
  unfolding close_gap writer_failure take_pending
  close_gap-whole consumers w h = elim (Bool-cases (is_empty (all_pending w.orderer))) [
    | inl e ↦ (is_empty-nil (all_pending w.orderer) e, rw (e, close_gap) refl)
    | inr e ↦ absurd (ground arith)
  ]

  last_flush-whole :
      (w : Writing Sink E write flush)
      → w.failure ≡ none
      → (last_flush Sink E write flush w).failure ≡ none
      → flush w.sink ≡ ((last_flush Sink E write flush w).sink, ok tt)
  unfolding last_flush flush_once writer_failure
  last_flush-whole w f h = ground arith

  start-startup :
      (startup : Option Bytes) (sink : Sink)
      → (start Sink E write flush startup sink).failure ≡ none
      → startup ≡ none
  unfolding start
  start-startup none sink h = refl
  start-startup (some m) sink h = absurd (ground arith)

  -- If write_completions ends without a failure, then the threads had started, no completion was
  -- refused and none was left pending, every completion that should leave carried an action, all
  -- were written in turn with success (those of an ordered run as the orderer delivers them,
  -- otherwise as they arrived), and the final flush succeeded.
  pub write_completions-Written :
      (ordered : Bool) (consumers : ℕ) (startup : Option Bytes) (sink : Sink)
      (batches : List CompletionBatch)
      → (write_completions Sink E write flush ordered consumers startup sink batches).0.failure
        ≡ none
      → (startup ≡ none)
        × ((turned_away ordered default (all_items batches) ≡ [])
            × ((all_pending (orderer_after ordered default (all_items batches)) ≡ [])
                × ((last : Sink) × (Written Sink E write flush
                        (emitted ordered default (all_items batches))
                        sink
                        last
                      × (flush last ≡ (
                        (write_completions Sink E write flush ordered consumers startup sink
                            batches).0.sink,
                        ok tt,
                      ))))))
  unfolding write_completions start
  write_completions-Written ordered consumers startup sink batches h =
      let w0 = start Sink E write flush startup sink in
      let w1 = (write_batches Sink E write flush ordered w0 batches).0 in
      let w2 = (close_gap Sink E write flush consumers w1).0 in
      let w3 = last_flush Sink E write flush w2 in
      let items = all_items batches in
      let alive2 = unfailed Sink E write flush w2.failure w3.failure (last_flush-failed w2) h in
      let alive1 =
        unfailed Sink E write flush w1.failure w2.failure (close_gap-failed consumers w1) alive2 in
      let same = write_batches-items Sink E write flush ordered w0 batches in
      let alive_items = ap (λ v. v.failure) (sym same) ∙ alive1 in
      let complete = write_items-Complete Sink E write flush ordered w0 items alive_items in
      let alive0 =
        unfailed Sink E write flush w0.failure
          (write_items Sink E write flush ordered w0 items).0.failure
          (write_items-failed Sink E write flush ordered w0 items) alive_items in
      let (pending, sink_kept) = close_gap-whole consumers w1 alive2 in
      let written : Written Sink E write flush (emitted ordered default items) sink w2.sink =
        subst (Written Sink E write flush (emitted ordered default items) sink)
          (ap (λ v. v.sink) (sym same) ∙ sym sink_kept) complete.writes in
      let empty : all_pending (orderer_after ordered default items) ≡ [] =
        ap all_pending (sym (ap (λ v. v.orderer) same ∙ complete.orders)) ∙ pending in
      (
        start-startup startup sink alive0,
        (complete.accepts, (empty, (w2.sink, (written, last_flush-whole w2 alive2 h)))),
      )
