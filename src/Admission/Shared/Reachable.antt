-- ===== src/Admission/Shared/Reachable.antt =====
-- Every state that the shared budget (src/runtime/state.rs) can reach, whatever the threads do.
use jkq.Prelude.{
  sum_by, All, sum_by-append, word_mod, ℕ, zero, suc, ◌+◌, ◌≤◌, ◌<◌, ◌≡◌, refl, sym, ◌∙◌, subst,
  ◌⊎◌, Option, List, [], ◌∷◌, ◌++◌, arith,
}
use jkq.Records.{RuntimeLimits}
use jkq.Admission.Shared.{
  SharedAdmission, new, charge_bytes, return_bytes, unclaim_record, discharge_bytes, claim_record,
  count_admission, return_records,
}
use jkq.Admission.Shared.Interleaving.{
  idle, Thread, World, Step, step, Reach, here, next, claiming, Phase, advance, go, start, Act,
  give_back,
}
use jkq.Admission.Shared.Bounds.{
  Accounts, Healthy, Counted, records_of, bytes_of, nonzeros_of, successes_of, nonzeros-le-total,
  Act-Holds, phase_sizes,
}

-- The accounts of all threads together.
pub record Sound (w : World) : Type 0 where
  pub accounts :
      Accounts w.shared
        (sum_by records_of w.threads)
        (sum_by bytes_of w.threads)
        (sum_by nonzeros_of w.threads)
        (sum_by successes_of w.threads)
  pub healthy : All (λ t. Healthy t.phase) w.threads

Accounts-cong :
    (s : SharedAdmission) (r b n k r' b' n' k' : ℕ)
    → Accounts s r b n k
    → r ≡ r'
    → b ≡ b'
    → n ≡ n'
    → k ≡ k'
    → Accounts s r' b' n' k'
Accounts-cong s r b n k r' b' n' k' a e f g h = ground arith

-- One thread's share, apart from that of the others.
sum_by-split :
    (f : Thread → ℕ) (before after : List Thread) (t : Thread)
    → sum_by f (before ++ t ∷ after) ≡ sum_by f before + sum_by f after + f t
sum_by-split f before after t = omega (arith, sum_by-append f before (t ∷ after))

nonzeros-le : (ts : List Thread) → sum_by nonzeros_of ts ≤ sum_by bytes_of ts
nonzeros-le [] = omega arith
nonzeros-le (t ∷ ts) =
    omega (arith, nonzeros-le ts, nonzeros-le-total t.held, nonzeros-le-total (phase_sizes t.phase))

All-split {ℓ κ} :
    {A : Type ℓ} (P : A → Type κ) (before after : List A) (t : A)
    → All P (before ++ t ∷ after)
    → P t × ((u : A) → P u → All P (before ++ u ∷ after))
All-split P [] after t h = (h.0, λ u hu. (hu, h.1))
All-split P (b ∷ before) after t h =
    let (ht, put) = All-split P before after t h.1 in (ht, λ u hu. (h.0, put u hu))

Step-Sound : {v w : World} → Step v w → Sound v → Sound w
Step-Sound (step s before after t r act) h =
    let others = λ (f : Thread → ℕ). sum_by f before + sum_by f after in
    let (ok_phase, put) = All-split (λ t. Healthy t.phase) before after t h.healthy in
    let share = λ (f : Thread → ℕ) (u : Thread). sum_by-split f before after u in
    let held =
      Act-Holds (others records_of) (others bytes_of) (others nonzeros_of) (others successes_of)
        (omega (arith, nonzeros-le before, nonzeros-le after)) act
        (
          Accounts-cong s _ _ _ _ _ _ _ _ h.accounts (share records_of t) (share bytes_of t)
              (share nonzeros_of t) (share successes_of t),
          ok_phase,
        ) in
    record {
      accounts =
          Accounts-cong r.0 _ _ _ _ _ _ _ _ held.0 (sym (share records_of r.1))
            (sym (share bytes_of r.1)) (sym (share nonzeros_of r.1)) (sym (share successes_of r.1));
      healthy = put r.1 held.1;
    }

Reach-Sound : {v w : World} → Reach v w → Sound v → Sound w
Reach-Sound here h = h
Reach-Sound (next r st) h = Step-Sound st (Reach-Sound r h)

abbrev pub fresh_thread : Thread
fresh_thread = record { phase = idle; held = []; successes = 0 }

abbrev pub fresh_threads : ℕ → List Thread
fresh_threads zero = []
fresh_threads (suc n) = fresh_thread ∷ fresh_threads n

abbrev pub start_world : RuntimeLimits → Option ℕ → ℕ → World
start_world limits count_limit n = record {
  shared = new limits count_limit;
  threads = fresh_threads n;
}

fresh-zero : (f : Thread → ℕ) (n : ℕ) → f fresh_thread ≡ 0 → sum_by f (fresh_threads n) ≡ 0
fresh-zero f zero h = refl
fresh-zero f (suc n) h = omega (arith, fresh-zero f n h)

fresh-Healthy : (n : ℕ) → All (λ t. Healthy t.phase) (fresh_threads n)
fresh-Healthy zero = tt
fresh-Healthy (suc n) = (tt, fresh-Healthy n)

start-Sound :
    (limits : RuntimeLimits) (count_limit : Option ℕ) (n : ℕ)
    → limits.max_inflight_records < word_mod
    → Sound (start_world limits count_limit n)
unfolding new
start-Sound limits count_limit n h = record {
  accounts =
      Accounts-cong _ 0 0 0 0 _ _ _ _ (ground arith) (sym (fresh-zero records_of n refl))
        (sym (fresh-zero bytes_of n refl)) (sym (fresh-zero nonzeros_of n refl))
        (sym (fresh-zero successes_of n refl));
  healthy = fresh-Healthy n;
}

advance-limits :
    (p : Phase) (s : SharedAdmission) (t : Thread)
    → ((advance p s t).0.limits ≡ s.limits) × ((advance p s t).0.count_limit ≡ s.count_limit)
unfolding advance claim_record charge_bytes count_admission discharge_bytes unclaim_record
    return_bytes
advance-limits idle s t = ground arith
advance-limits _ s t = ground arith

Act-limits :
    {s : SharedAdmission} {t : Thread} {r : SharedAdmission × Thread}
    → Act s t r
    → (r.0.limits ≡ s.limits) × (r.0.count_limit ≡ s.count_limit)
unfolding return_records
Act-limits {s} {t} (start size e) = advance-limits (claiming size) s t
Act-limits {s} {t} go = advance-limits t.phase s t
Act-limits {s} {t} (give_back back kept e sp) = ground arith

Reach-limits :
    {v w : World}
    → Reach v w
    → (w.shared.limits ≡ v.shared.limits) × (w.shared.count_limit ≡ v.shared.count_limit)
Reach-limits here = (refl, refl)
Reach-limits (next r (step s before after t x act)) =
    let (a, b) = Act-limits act in let (c, d) = Reach-limits r in (a ∙ c, b ∙ d)

-- The budget's promise, over the limits that it was made with.
pub record WithinBudget (limits : RuntimeLimits) (count_limit : Option ℕ) (w : World) : Type 0 where
  pub records : w.shared.records ≡ sum_by records_of w.threads
  pub records_le : w.shared.records ≤ limits.max_inflight_records
  pub bytes : w.shared.bytes ≡ sum_by bytes_of w.threads
  pub bytes_le : (w.shared.bytes ≤ limits.max_inflight_bytes) ⊎ (sum_by nonzeros_of w.threads ≤ 1)
  pub admissions : Counted count_limit w.shared.admitted (sum_by successes_of w.threads)
  pub no_underflow : All (λ t. Healthy t.phase) w.threads

-- Let n threads start with a fresh shared budget whose record limit is a machine word, and run the
-- atomic updates of try_reserve and release in any interleaving. Then the counters are exactly
-- what the threads hold, the records stay within their limit, the bytes stay within theirs unless
-- at most one outstanding charge is not zero, with a count limit the successful calls are counted
-- and stay within it, and no release fails by underflow.
pub Reach-WithinBudget :
    (limits : RuntimeLimits) (count_limit : Option ℕ) (n : ℕ) {w : World}
    → limits.max_inflight_records < word_mod
    → Reach (start_world limits count_limit n) w
    → WithinBudget limits count_limit w
unfolding new
Reach-WithinBudget limits count_limit n {w} h r =
    let sound = Reach-Sound r (start-Sound limits count_limit n h) in
    let (same, same_count) = Reach-limits r in
    let a = sound.accounts in
    record {
      records = a.record_count;
      records_le = ground (arith, same);
      bytes = a.byte_count;
      bytes_le = ground (arith, same, a.byte_bound);
      admissions =
          subst (λ c. Counted c w.shared.admitted (sum_by successes_of w.threads)) same_count
            a.counted;
      no_underflow = sound.healthy;
    }
