-- ===== src/Admission/Shared/Interleaving.antt =====
-- Threads that share one `SharedAdmission` (src/runtime/state.rs): each poller's atomic updates,
-- in any order among the threads.
use jkq.Prelude.{
  length, sum_by, Result, ok, err, ℕ, zero, suc, ◌+◌, ◌≡◌, Option, none, some, List, [], ◌∷◌, ◌++◌,
}
use jkq.Admission.Shared.{
  SharedAdmission, claim_record, charge_bytes, count_admission, unclaim_record, discharge_bytes,
  return_records, return_bytes, Error,
}

-- Where a poller stands: between calls, or between two atomic updates of a call.
pub data Phase : Type 0 where
  idle : Phase
  claiming claimed charged undoing : ℕ → Phase
  unclaiming : Phase
  returning : List ℕ → Phase
  failed : Error → Phase

-- `held` lists the sizes of the records that the thread has in flight; `successes` counts the
-- calls of `try_reserve` that returned true.
pub record Thread : Type 0 where
  pub phase : Phase
  pub held : List ℕ
  pub successes : ℕ

abbrev pub total : List ℕ → ℕ
total = sum_by (λ n. n)

module _ (s : SharedAdmission) (t : Thread) where
  abbrev pub after_claim : ℕ → Option SharedAdmission → SharedAdmission × Thread
  after_claim size none = (s, record t { phase = idle })
  after_claim size (some s') = (s', record t { phase = claimed size })

  abbrev pub after_charge : ℕ → Option SharedAdmission → SharedAdmission × Thread
  after_charge size none = (s, record t { phase = unclaiming })
  after_charge size (some s') = (s', record t { phase = charged size })

  abbrev pub after_count : ℕ → Option SharedAdmission → SharedAdmission × Thread
  after_count size none = (s, record t { phase = undoing size })
  after_count size (some s') =
      (s', record { phase = idle; held = size ∷ t.held; successes = t.successes + 1 })

  abbrev pub after_return : Result Error SharedAdmission → SharedAdmission × Thread
  after_return (err e) = (s, record t { phase = failed e })
  after_return (ok s') = (s', record t { phase = idle })

-- The next atomic update of a thread that is inside a call.
unfoldable pub advance : Phase → SharedAdmission → Thread → SharedAdmission × Thread
advance idle s t = (s, t)
advance (claiming size) s t = after_claim s t size (claim_record s)
advance (claimed size) s t = after_charge s t size (charge_bytes s size)
advance (charged size) s t = after_count s t size (count_admission s)
advance (undoing size) s t = (discharge_bytes s size, record t { phase = unclaiming })
advance unclaiming s t = (unclaim_record s, record t { phase = idle })
advance (returning sizes) s t = after_return s t (return_bytes s (total sizes))
advance (failed e) s t = (s, t)

-- `whole` is the entries of `back` and of `kept`, in order.
pub data Splits : List ℕ → List ℕ → List ℕ → Type 0 where
  nil : Splits [] [] []
  left :
      {n : ℕ} {whole back kept : List ℕ}
      → Splits whole back kept
      → Splits (n ∷ whole) (n ∷ back) kept
  right :
      {n : ℕ} {whole back kept : List ℕ}
      → Splits whole back kept
      → Splits (n ∷ whole) back (n ∷ kept)

abbrev pub after_records :
    SharedAdmission
    → Thread
    → List ℕ
    → List ℕ
    → Result Error SharedAdmission
    → SharedAdmission × Thread
after_records s t back kept (err e) = (s, record t { phase = failed e })
after_records s t back kept (ok s') = (s', record t { phase = returning back; held = kept })

-- One atomic update of one thread. A thread between calls starts a `try_reserve` of any size, or
-- a `release` of any of its records.
pub data Act (s : SharedAdmission) (t : Thread) : SharedAdmission × Thread → Type 0 where
  start : (size : ℕ) → t.phase ≡ idle → Act s t (advance (claiming size) s t)
  go : Act s t (advance t.phase s t)
  give_back :
      (back kept : List ℕ)
      → t.phase ≡ idle
      → Splits t.held back kept
      → Act s t (after_records s t back kept (return_records s (length back)))

pub record World : Type 0 where
  pub shared : SharedAdmission
  pub threads : List Thread

-- Any thread may act next.
pub data Step : World → World → Type 0 where
  step :
      (s : SharedAdmission) (before after : List Thread) (t : Thread) (r : SharedAdmission × Thread)
      → Act s t r
      → Step
          (record { shared = s; threads = before ++ t ∷ after })
          (record { shared = r.0; threads = before ++ r.1 ∷ after })

pub data Reach (w : World) : World → Type 0 where
  here : Reach w w
  next : {u v : World} → Reach w u → Step u v → Reach w v

-- A thread that is left alone finishes its call within four updates.
unfoldable pub finish_call : ℕ → SharedAdmission → Thread → SharedAdmission × Thread
unfolding advance
finish_call zero s t = (s, t)
finish_call (suc n) s t = let (s', t') = advance t.phase s t in finish_call n s' t'
