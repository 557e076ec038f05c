-- ===== src/Admission/Shared/Bounds.antt =====
-- What holds of the shared budget (src/runtime/state.rs) under every interleaving of its threads.
use jkq.Prelude.{
  ◌==◌, if◌then◌else◌, length, sum_by, word_mod, ℕ, ◌+◌, ◌-◌, ◌≤◌, ◌<◌, ◌≡◌, refl, subst, ◌⊎◌,
  Option, none, some, List, [], ◌∷◌, arith,
}
use jkq.Admission.Shared.{
  SharedAdmission, claim_record, charge_bytes, count_admission, count_admission_up_to,
  unclaim_record, discharge_bytes, return_records, return_bytes, wrapping_sub,
}
use jkq.Admission.Shared.Interleaving.{
  Phase, idle, claiming, claimed, charged, undoing, unclaiming, returning, failed, Thread, total,
  advance, Splits, nil, left, right, Act, start, go, give_back, after_records,
}

-- The entries that are not zero.
abbrev pub nonzeros : List ℕ → ℕ
nonzeros = sum_by (λ n. if n == 0 then 0 else 1)

-- The budget that a call holds between its updates.
abbrev pub phase_records : Phase → ℕ
phase_records (claimed size) = 1
phase_records (charged size) = 1
phase_records (undoing size) = 1
phase_records unclaiming = 1
phase_records _ = 0

abbrev pub phase_sizes : Phase → List ℕ
phase_sizes (charged size) = size ∷ []
phase_sizes (undoing size) = size ∷ []
phase_sizes (returning sizes) = sizes
phase_sizes _ = []

abbrev pub records_of : Thread → ℕ
records_of t = length t.held + phase_records t.phase

abbrev pub bytes_of : Thread → ℕ
bytes_of t = total t.held + total (phase_sizes t.phase)

abbrev pub nonzeros_of : Thread → ℕ
nonzeros_of t = nonzeros t.held + nonzeros (phase_sizes t.phase)

abbrev pub successes_of : Thread → ℕ
successes_of t = t.successes

-- The calls that returned true are counted, up to the limit, where there is one.
abbrev pub Counted : Option ℕ → ℕ → ℕ → Type 0
Counted none admitted successes = Unit {0}
Counted (some limit) admitted successes = (admitted ≡ successes) × (admitted ≤ limit)

abbrev pub Healthy : Phase → Type 0
Healthy (failed e) = ⊥
Healthy (claiming size) = ⊥
Healthy _ = Unit {0}

-- The counters are what the threads hold, and within the limits: the bytes are above theirs only
-- while a single record that has bytes is in flight.
pub record Accounts (s : SharedAdmission) (records bytes nonzero successes : ℕ) : Type 0 where
  pub record_count : s.records ≡ records
  pub byte_count : s.bytes ≡ bytes
  pub record_bound : s.records ≤ s.max_inflight_records
  pub byte_bound : (s.bytes ≤ s.max_inflight_bytes) ⊎ (nonzero ≤ 1)
  pub nonzero_le : nonzero ≤ bytes
  pub word_bytes : s.bytes < word_mod
  pub word_records : s.max_inflight_records < word_mod
  pub counted : Counted s.count_limit s.admitted successes

wrapping_sub_lem : (a b : ℕ) → b ≤ a → a < word_mod → wrapping_sub a b ≡ a - b
unfolding wrapping_sub
wrapping_sub_lem a b h k = omega arith

total-Splits : {xs ys zs : List ℕ} → Splits xs ys zs → total xs ≡ total ys + total zs
total-Splits nil = omega arith
total-Splits (left s) = omega (arith, total-Splits s)
total-Splits (right s) = omega (arith, total-Splits s)

length-Splits : {xs ys zs : List ℕ} → Splits xs ys zs → length xs ≡ length ys + length zs
length-Splits nil = omega arith
length-Splits (left s) = omega (arith, length-Splits s)
length-Splits (right s) = omega (arith, length-Splits s)

nonzeros-Splits : {xs ys zs : List ℕ} → Splits xs ys zs → nonzeros xs ≡ nonzeros ys + nonzeros zs
nonzeros-Splits nil = omega arith
nonzeros-Splits (left s) = omega (arith, nonzeros-Splits s)
nonzeros-Splits (right s) = omega (arith, nonzeros-Splits s)

pub nonzeros-le-total : (xs : List ℕ) → nonzeros xs ≤ total xs
nonzeros-le-total [] = omega arith
nonzeros-le-total (x ∷ xs) = ground (arith, nonzeros-le-total xs)

-- The other threads hold `rs`, `bs`, `ns` and have `ks` successes.
module _ (rs bs ns ks : ℕ) where
  abbrev pub Holds : SharedAdmission → Thread → Type 0
  Holds s t =
      Accounts s (rs + records_of t) (bs + bytes_of t) (ns + nonzeros_of t) (ks + successes_of t)
      × Healthy t.phase

  abbrev pub HoldsAfter : SharedAdmission × Thread → Type 0
  HoldsAfter r = Holds r.0 r.1

  start-Holds :
      (s : SharedAdmission) (t : Thread) (size : ℕ)
      → t.phase ≡ idle
      → Holds s t
      → HoldsAfter (advance (claiming size) s t)
  unfolding advance claim_record
  start-Holds s t size e h = ground arith

  charge-Holds :
      (s : SharedAdmission) (t : Thread) (size : ℕ)
      → t.phase ≡ claimed size
      → Holds s t
      → HoldsAfter (advance (claimed size) s t)
  unfolding advance charge_bytes
  charge-Holds s t size e h = ground arith

  count-Holds :
      (s : SharedAdmission) (t : Thread) (size : ℕ)
      → t.phase ≡ charged size
      → Holds s t
      → HoldsAfter (advance (charged size) s t)
  unfolding advance count_admission count_admission_up_to
  count-Holds s t size e h = ground arith

  undo-Holds :
      (s : SharedAdmission) (t : Thread) (size : ℕ)
      → t.phase ≡ undoing size
      → ns + nonzeros t.held ≤ bs + total t.held
      → Holds s t
      → HoldsAfter (advance (undoing size) s t)
  unfolding advance discharge_bytes
  undo-Holds s t size e k h = ground (arith, wrapping_sub_lem s.bytes size)

  unclaim-Holds :
      (s : SharedAdmission) (t : Thread)
      → t.phase ≡ unclaiming
      → Holds s t
      → HoldsAfter (advance unclaiming s t)
  unfolding advance unclaim_record
  unclaim-Holds s t e h = ground (arith, wrapping_sub_lem s.records 1)

  return-Holds :
      (s : SharedAdmission) (t : Thread) (sizes : List ℕ)
      → t.phase ≡ returning sizes
      → ns + nonzeros t.held ≤ bs + total t.held
      → Holds s t
      → HoldsAfter (advance (returning sizes) s t)
  unfolding advance return_bytes
  return-Holds s t sizes e k h = ground arith

  give_back-Holds :
      (s : SharedAdmission) (t : Thread) (back kept : List ℕ)
      → t.phase ≡ idle
      → Splits t.held back kept
      → Holds s t
      → HoldsAfter (after_records s t back kept (return_records s (length back)))
  unfolding return_records
  give_back-Holds s t back kept e sp h =
      ground (arith, length-Splits sp, total-Splits sp, nonzeros-Splits sp)

  go-Holds :
      (p : Phase) (s : SharedAdmission) (t : Thread)
      → ns ≤ bs
      → t.phase ≡ p
      → Holds s t
      → HoldsAfter (advance p s t)
  go-Holds idle s t k e h = unfold advance in h
  go-Holds (claiming size) s t k e h = absurd (subst Healthy e h.1)
  go-Holds (claimed size) s t k e h = charge-Holds s t size e h
  go-Holds (charged size) s t k e h = count-Holds s t size e h
  go-Holds (undoing size) s t k e h =
      undo-Holds s t size e (omega (arith, nonzeros-le-total t.held)) h
  go-Holds unclaiming s t k e h = unclaim-Holds s t e h
  go-Holds (returning sizes) s t k e h =
      return-Holds s t sizes e (omega (arith, nonzeros-le-total t.held)) h
  go-Holds (failed x) s t k e h = absurd (subst Healthy e h.1)

  pub Act-Holds :
      {s : SharedAdmission} {t : Thread} {r : SharedAdmission × Thread}
      → ns ≤ bs
      → Act s t r
      → Holds s t
      → HoldsAfter r
  Act-Holds {s} {t} k (start size e) h = start-Holds s t size e h
  Act-Holds {s} {t} k go h = go-Holds t.phase s t k refl h
  Act-Holds {s} {t} k (give_back back kept e sp) h = give_back-Holds s t back kept e sp h
