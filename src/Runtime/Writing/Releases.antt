-- ===== src/Runtime/Writing/Releases.antt =====
-- Every completion that reaches the writer of src/runtime.rs is released once.
use jkq.Prelude.{
  Bool-cases, Bytes, sum_by, is_empty, All, sum_by-append, Result, Result-cases, ℕ, ◌<◌, ◌≡◌, refl,
  sym, ap, ◌∙◌, subst, inl, inr, Bool, true, false, Option, List, [], ◌∷◌, map, map-append, arith,
}
use jkq.Runtime.Writing.Leaving.{leaving, all_leaving, all_leaving-append, all_leaving-Conserves}
use jkq.Records.{Release, Completion, SourceRecord, Action}
use jkq.Orderer.{take_pending, insert_completion, all_pending, default}
use jkq.Orderer.Conservation.{orderer_waits, sum_by-all_pending, default-orderer_waits}
use jkq.Runtime.Writing.{
  Writing, CompletionBatch, release_of, write_completions, write_batches, write_items,
  write_completion, write_ready, write_outcome, writer_failure, close_gap, start, send, write_one,
}
use jkq.Runtime.Writing.Sends.{
  all_items, released, release_measure, sum_by-release_of, released-send, release_pending-released,
  outside, outside-All, within-whole, is_empty-nil,
}

module _ (Sink E : Type 0) (write : SourceRecord → Action → Sink → Sink × Result E (Unit {0}))
    (flush : Sink → Sink × Result E (Unit {0})) where
  pub write_one-orderer :
      (w : Writing Sink E write flush) (c : Completion)
      → (write_one Sink E write flush w c).orderer ≡ w.orderer
  unfolding write_one write_outcome writer_failure
  write_one-orderer w c = ground arith

  pub write_ready-orderer :
      (w : Writing Sink E write flush) (cs : List Completion)
      → (write_ready Sink E write flush w cs).orderer ≡ w.orderer
  unfolding write_ready
  write_ready-orderer w [] = refl
  write_ready-orderer w (c ∷ cs) =
      write_ready-orderer (write_one Sink E write flush w c) cs ∙ write_one-orderer w c

  write_completion-leaving :
      (ordered : Bool) (w : Writing Sink E write flush) (c : Completion)
      → ((write_completion Sink E write flush ordered w c).1
          ≡ map release_of (leaving ordered w.orderer c).0)
        × ((write_completion Sink E write flush ordered w c).0.orderer
            ≡ (leaving ordered w.orderer c).1)
  unfolding write_completion writer_failure
  write_completion-leaving false w c = (refl, write_ready-orderer w (c ∷ []))
  write_completion-leaving true w c = elim (Result-cases (insert_completion w.orderer c [])) [
    | inl ((e, c'), f) ↦ rw (f, write_completion, leaving) (refl, refl)
    | inr ((o, ready), f) ↦
        rw (f, write_completion, leaving)
          (refl, write_ready-orderer (record w { orderer = o }) ready)
  ]

  write_items-leaving :
      (ordered : Bool) (w : Writing Sink E write flush) (cs : List Completion)
      → ((write_items Sink E write flush ordered w cs).1
          ≡ map release_of (all_leaving ordered w.orderer cs).0)
        × ((write_items Sink E write flush ordered w cs).0.orderer
            ≡ (all_leaving ordered w.orderer cs).1)
  unfolding write_items
  write_items-leaving ordered w [] = (refl, refl)
  write_items-leaving ordered w (c ∷ cs) =
      let w' = (write_completion Sink E write flush ordered w c).0 in
      let (now, o) = write_completion-leaving ordered w c in
      let (later, o') =
        subst
          (λ q.
            ((write_items Sink E write flush ordered w' cs).1
              ≡ map release_of (all_leaving ordered q cs).0)
            × ((write_items Sink E write flush ordered w' cs).0.orderer
                ≡ (all_leaving ordered q cs).1))
          o (write_items-leaving ordered w' cs) in
      (
        rw (now, later)
            (sym (
              map-append release_of (leaving ordered w.orderer c).0
                (all_leaving ordered (leaving ordered w.orderer c).1 cs).0)),
        o',
      )

  write_batches-released :
      (g : Release → ℕ) (ordered : Bool) (w : Writing Sink E write flush)
      (batches : List CompletionBatch)
      → (released g (write_batches Sink E write flush ordered w batches).1
          ≡ sum_by (release_measure g) (all_leaving ordered w.orderer (all_items batches)).0)
        × ((write_batches Sink E write flush ordered w batches).0.orderer
            ≡ (all_leaving ordered w.orderer (all_items batches)).1)
  unfolding write_batches
  write_batches-released g ordered w [] = (refl, refl)
  write_batches-released g ordered w (b ∷ batches) =
      let (w', releases') = write_items Sink E write flush ordered w b.items in
      let (now, o) = write_items-leaving ordered w b.items in
      let (later, o') =
        subst
          (λ q.
            (released g (write_batches Sink E write flush ordered w' batches).1
              ≡ sum_by (release_measure g) (all_leaving ordered q (all_items batches)).0)
            × ((write_batches Sink E write flush ordered w' batches).0.orderer
                ≡ (all_leaving ordered q (all_items batches)).1))
          o (write_batches-released g ordered w' batches) in
      let whole = all_leaving-append ordered w.orderer b.items (all_items batches) in
      (
        omega (
          arith,
          later,
          ap (λ q. sum_by (release_measure g) q.0) whole,
          ap (sum_by g) now,
          released-send g b.consumer releases',
          sum_by-release_of g (all_leaving ordered w.orderer b.items).0,
          sum_by-append (λ s. sum_by g s.1) (send b.consumer releases')
              (write_batches Sink E write flush ordered w' batches).1,
          sum_by-append (release_measure g) (all_leaving ordered w.orderer b.items).0
              (all_leaving ordered (all_leaving ordered w.orderer b.items).1 (all_items batches)).0,
        ),
        o' ∙ ap (λ q. q.1) (sym whole),
      )

  close_gap-released :
      (g : Release → ℕ) (consumers : ℕ) (w : Writing Sink E write flush)
      → orderer_waits (outside consumers) w.orderer ≡ 0
      → released g (close_gap Sink E write flush consumers w).1
        ≡ orderer_waits (release_measure g) w.orderer
  unfolding close_gap take_pending
  close_gap-released g consumers w h =
      let waiting = sum_by-all_pending (release_measure g) w.orderer in
      elim (Bool-cases (is_empty (all_pending w.orderer))) [
        | inl e ↦
            rw (e, close_gap)
              ((subst
                (λ l. sum_by (release_measure g) l ≡ orderer_waits (release_measure g) w.orderer)
                (is_empty-nil (all_pending w.orderer) e) waiting))
        | inr e ↦
            rw (e, close_gap)
              (release_pending-released g consumers 0 (all_pending w.orderer)
                ∙ within-whole g consumers (all_pending w.orderer)
                    (sum_by-all_pending (outside consumers) w.orderer ∙ h)
                ∙ waiting)
      ]

  -- Where every completion's consumer exists, then whatever the writes and the flush give,
  -- failures included, and for any measure of releases, what write_completions sends back to the
  -- pollers sums to the releases of all completions that reached it: each is released once.
  pub write_completions-released :
      (g : Release → ℕ) (ordered : Bool) (consumers : ℕ) (startup : Option Bytes) (sink : Sink)
      (batches : List CompletionBatch)
      → All (λ c. c.consumer < consumers) (all_items batches)
      → released g (write_completions Sink E write flush ordered consumers startup sink batches).1
        ≡ sum_by (release_measure g) (all_items batches)
  unfolding write_completions start
  write_completions-released g ordered consumers startup sink batches h =
      let begin = start Sink E write flush startup sink in
      let (w, sends) = write_batches Sink E write flush ordered begin batches in
      let (sent, o) = write_batches-released g ordered begin batches in
      let (h1, conserved) =
        all_leaving-Conserves (release_measure g) ordered default (all_items batches)
          (record { outer = tt; inner = tt }) in
      let (h2, inside) =
        all_leaving-Conserves (outside consumers) ordered default (all_items batches)
          (record { outer = tt; inner = tt }) in
      let from_default : w.orderer ≡ (all_leaving ordered default (all_items batches)).1 = o in
      let sent_sum : released g sends
          ≡ sum_by (release_measure g) (all_leaving ordered default (all_items batches)).0 =
        sent in
      let none_outside : orderer_waits (outside consumers) w.orderer ≡ 0 = omega (
        arith,
        ap (orderer_waits (outside consumers)) from_default,
        inside,
        outside-All consumers (all_items batches) h,
        default-orderer_waits (outside consumers),
      ) in
      sum_by-append (λ s. sum_by g s.1) sends (close_gap Sink E write flush consumers w).1
      ∙ omega (
        arith,
        sent_sum,
        conserved,
        ap (orderer_waits (release_measure g)) from_default,
        default-orderer_waits (release_measure g),
        close_gap-released g consumers w none_outside,
      )
