-- ===== src/Runtime/Writing/Failure.antt =====
-- A failure of the writer of src/runtime.rs stays.
use jkq.Prelude.{
  is_some, Result, Result-cases, ◌≡◌, inl, inr, Bool, true, false, List, [], ◌∷◌, arith,
}
use jkq.Records.{Completion, SourceRecord, Action}
use jkq.Orderer.{insert_completion}
use jkq.Runtime.Writing.{
  Writing, write_items, write_completion, write_ready, write_one, writer_failure,
}

module _ (Sink E : Type 0) (write : SourceRecord → Action → Sink → Sink × Result E (Unit {0}))
    (flush : Sink → Sink × Result E (Unit {0})) where
  -- A failure stays.
  pub write_one-failed :
      (w : Writing Sink E write flush) (c : Completion)
      → (is_some w.failure) ≡ true
      → is_some (write_one Sink E write flush w c).failure ≡ true
  unfolding write_one
  write_one-failed w c h = ground arith

  pub write_ready-failed :
      (w : Writing Sink E write flush) (cs : List Completion)
      → is_some w.failure ≡ true
      → is_some (write_ready Sink E write flush w cs).failure ≡ true
  unfolding write_ready
  write_ready-failed w [] h = h
  write_ready-failed w (c ∷ cs) h =
      write_ready-failed (write_one Sink E write flush w c) cs (write_one-failed w c h)

  pub write_completion-failed :
      (ordered : Bool) (w : Writing Sink E write flush) (c : Completion)
      → is_some w.failure ≡ true
      → is_some (write_completion Sink E write flush ordered w c).0.failure ≡ true
  unfolding write_completion writer_failure
  write_completion-failed false w c h = write_ready-failed w (c ∷ []) h
  write_completion-failed true w c h = elim (Result-cases (insert_completion w.orderer c [])) [
    | inl ((e, c'), f) ↦ rw (f, write_completion) (ground arith)
    | inr ((o, ready), f) ↦
        rw (f, write_completion) (write_ready-failed (record w { orderer = o }) ready h)
  ]

  pub write_items-failed :
      (ordered : Bool) (w : Writing Sink E write flush) (cs : List Completion)
      → is_some w.failure ≡ true
      → is_some (write_items Sink E write flush ordered w cs).0.failure ≡ true
  unfolding write_items
  write_items-failed ordered w [] h = h
  write_items-failed ordered w (c ∷ cs) h =
      write_items-failed ordered (write_completion Sink E write flush ordered w c).0 cs
        (write_completion-failed ordered w c h)
