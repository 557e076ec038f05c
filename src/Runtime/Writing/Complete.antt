-- ===== src/Runtime/Writing/Complete.antt =====
-- What the loop of `write_completions` (src/runtime.rs) has done when no failure came up.
use jkq.Prelude.{
  is_some, Result, ok, err, Result-cases, ◌≡◌, refl, sym, ap, ◌∙◌, subst, inl, inr, Bool, true,
  false, Option, none, some, List, [], ◌∷◌, ◌++◌, arith,
}
use jkq.Records.{Completion, SourceRecord, Action, CompletionOutcome}
use jkq.Orderer.{Orderer, insert_completion, Error}
use jkq.Orderer.Delivery.{deliver}
use jkq.Orderer.Conservation.{refused}
use jkq.Runtime.Writing.{
  Writing, CompletionBatch, write_batches, write_items, write_completion, write_ready, write_one,
  write_outcome, writer_failure,
}
use jkq.Runtime.Writing.Failure.{write_one-failed, write_ready-failed, write_items-failed}
use jkq.Runtime.Writing.Sends.{all_items}
use jkq.Runtime.Writing.Releases.{write_ready-orderer, write_one-orderer}

-- What should leave the writer.
abbrev pub emitted : Bool → Orderer → List Completion → List Completion
emitted false o cs = cs
emitted true o cs = (deliver o cs).1

abbrev pub turned_away : Bool → Orderer → List Completion → List Completion
turned_away false o cs = []
turned_away true o cs = refused o cs

abbrev pub orderer_after : Bool → Orderer → List Completion → Orderer
orderer_after false o cs = o
orderer_after true o cs = (deliver o cs).0

module _ (Sink E : Type 0) (write : SourceRecord → Action → Sink → Sink × Result E (Unit {0}))
    (flush : Sink → Sink × Result E (Unit {0})) where
  -- The sink to which every completion is written in turn with success.
  pub data Written : List Completion → Sink → Sink → Type 0 where
    nothing : {sink : Sink} → Written [] sink sink
    one_more :
        {c : Completion} {cs : List Completion} {a : Action} {sink next_sink last : Sink}
        → c.outcome ≡ CompletionOutcome.action a
        → write c.source a sink ≡ (next_sink, ok tt)
        → Written cs next_sink last
        → Written (c ∷ cs) sink last

  Written-append :
      {cs ds : List Completion} {a b c : Sink}
      → Written cs a b
      → Written ds b c
      → Written (cs ++ ds) a c
  Written-append nothing d = d
  Written-append (one_more o w rest) d = one_more o w (Written-append rest d)

  write_items-append :
      (ordered : Bool) (w : Writing Sink E write flush) (cs ds : List Completion)
      → (write_items Sink E write flush ordered w (cs ++ ds)).0
        ≡ (write_items Sink E write flush ordered
            (write_items Sink E write flush ordered w cs).0
            ds).0
  unfolding write_items
  write_items-append ordered w [] ds = refl
  write_items-append ordered w (c ∷ cs) ds =
      write_items-append ordered (write_completion Sink E write flush ordered w c).0 cs ds

  pub write_batches-items :
      (ordered : Bool) (w : Writing Sink E write flush) (batches : List CompletionBatch)
      → (write_batches Sink E write flush ordered w batches).0
        ≡ (write_items Sink E write flush ordered w (all_items batches)).0
  unfolding write_batches
  write_batches-items ordered w [] = refl
  write_batches-items ordered w (b ∷ batches) =
      write_batches-items ordered (write_items Sink E write flush ordered w b.items).0 batches
      ∙ sym (write_items-append ordered w b.items (all_items batches))

  -- What has no failure after a step had none before.
  pub unfailed :
      {A : Type 0} (before after : Option A)
      → (is_some before ≡ true → is_some after ≡ true)
      → after ≡ none
      → before ≡ none
  unfailed none after h e = refl
  unfailed (some a) none h e = absurd (ground arith)
  unfailed (some a) (some b) h e = absurd (ground arith)

  write_outcome-Written :
      (w : Writing Sink E write flush) (c : Completion) (outcome : CompletionOutcome)
      → c.outcome ≡ outcome
      → w.failure ≡ none
      → (write_outcome Sink E write flush w c.source outcome).failure ≡ none
      → Written (c ∷ []) w.sink (write_outcome Sink E write flush w c.source outcome).sink
  unfolding write_outcome writer_failure
  write_outcome-Written w c (CompletionOutcome.fatal m) o f h = absurd (ground arith)
  write_outcome-Written w c (CompletionOutcome.action a) o f h =
      elim (Result-cases (write c.source a w.sink).1) [
        | inl (e, r) ↦ absurd (ground arith)
        | inr (done, r) ↦
            rw (r, write_outcome)
              (one_more o (ap (λ q. ((write c.source a w.sink).0, q)) r) nothing)
      ]

  -- One write without a failure.
  write_one-Written :
      (w : Writing Sink E write flush) (c : Completion)
      → (write_one Sink E write flush w c).failure ≡ none
      → Written (c ∷ []) w.sink (write_one Sink E write flush w c).sink
  unfolding write_one
  write_one-Written w c h =
      let before : w.failure ≡ none =
        unfailed w.failure (write_one Sink E write flush w c).failure
          (write_one-failed Sink E write flush w c) h in
      let same : write_one Sink E write flush w c
          ≡ write_outcome Sink E write flush w c.source c.outcome =
        ap
          (λ v. elim v as (λ x. Writing Sink E write flush) [
            | none ↦ write_outcome Sink E write flush w c.source c.outcome
            | some e ↦ w
          ])
          before in
      subst (λ v. Written (c ∷ []) w.sink v.sink) (sym same)
        (write_outcome-Written w c c.outcome refl before (ap (λ v. v.failure) (sym same) ∙ h))

  write_ready-Written :
      (w : Writing Sink E write flush) (cs : List Completion)
      → (write_ready Sink E write flush w cs).failure ≡ none
      → Written cs w.sink (write_ready Sink E write flush w cs).sink
  unfolding write_ready
  write_ready-Written w [] h = nothing
  write_ready-Written w (c ∷ cs) h =
      let w' = write_one Sink E write flush w c in
      let rest = write_ready-Written w' cs h in
      let now = write_one-Written w c (
        unfailed w'.failure (write_ready Sink E write flush w' cs).failure
          (write_ready-failed Sink E write flush w' cs) h) in
      Written-append now rest

  pub record Complete (ordered : Bool) (w : Writing Sink E write flush) (cs : List Completion)
      (w' : Writing Sink E write flush) : Type 0 where
    pub writes : Written (emitted ordered w.orderer cs) w.sink w'.sink
    pub accepts : turned_away ordered w.orderer cs ≡ []
    pub orders : w'.orderer ≡ orderer_after ordered w.orderer cs

  refused_fails :
      (w : Writing Sink E write flush) (c : Completion) (e : Error) (c' : Completion)
      → insert_completion w.orderer c [] ≡ err (e, c')
      → (write_completion Sink E write flush true w c).0.failure ≡ none
      → ⊥
  unfolding write_completion writer_failure
  refused_fails w c e c' f alive =
      let fails : is_some (write_completion Sink E write flush true w c).0.failure ≡ true =
        rw (f, write_completion) (ground arith) in
      ground arith

  pub write_items-Complete :
      (ordered : Bool) (w : Writing Sink E write flush) (cs : List Completion)
      → (write_items Sink E write flush ordered w cs).0.failure ≡ none
      → Complete ordered w cs (write_items Sink E write flush ordered w cs).0
  unfolding write_items write_completion deliver refused
  write_items-Complete false w [] h = record { writes = nothing; accepts = refl; orders = refl }
  write_items-Complete true w [] h = record { writes = nothing; accepts = refl; orders = refl }
  write_items-Complete false w (c ∷ cs) h =
      let w1 = write_one Sink E write flush w c in
      let w2 = (write_items Sink E write flush false w1 cs).0 in
      let rest = write_items-Complete false w1 cs h in
      let now =
        write_one-Written w c
          (unfailed w1.failure w2.failure (write_items-failed Sink E write flush false w1 cs) h) in
      record {
        writes = Written-append now rest.writes;
        accepts = refl;
        orders = rest.orders ∙ write_one-orderer Sink E write flush w c;
      }
  write_items-Complete true w (c ∷ cs) h =
      let w1 = (write_completion Sink E write flush true w c).0 in
      let w2 = (write_items Sink E write flush true w1 cs).0 in
      let rest = write_items-Complete true w1 cs h in
      let alive =
        unfailed w1.failure w2.failure (write_items-failed Sink E write flush true w1 cs) h in
      elim (Result-cases (insert_completion w.orderer c [])) [
        | inl ((e, c'), f) ↦ absurd (refused_fails w c e c' f alive)
        | inr ((o, ready), f) ↦
            let step : w1 ≡ write_ready Sink E write flush (record w { orderer = o }) ready =
              rw (f, write_completion) refl in
            let now =
              write_ready-Written (record w { orderer = o }) ready
                (ap (λ v. v.failure) (sym step) ∙ alive) in
            let next_orderer : w1.orderer ≡ o =
              ap (λ v. v.orderer) step
              ∙ write_ready-orderer Sink E write flush (record w { orderer = o }) ready in
            let delivered : deliver w.orderer (c ∷ cs)
                ≡ ((deliver o cs).0, ready ++ (deliver o cs).1) =
              rw (f, deliver) refl in
            record {
              writes =
                  subst (λ q. Written q.1 w.sink w2.sink) (sym delivered)
                    (Written-append (subst (λ v. Written ready w.sink v.sink) (sym step) now) (
                      subst (λ q. Written (deliver q cs).1 w1.sink w2.sink) next_orderer
                        rest.writes));
              accepts = rw (f, refused) (subst (λ q. refused q cs ≡ []) next_orderer rest.accepts);
              orders =
                  subst (λ q. w2.orderer ≡ (deliver q cs).0) next_orderer rest.orders
                  ∙ ap (λ q. q.0) (sym delivered);
            }
      ]
