-- ===== src/Admission/Tests.antt =====
-- The shared budget and a poller's admission (src/runtime/state.rs) at concrete limits.
use jkq.Prelude.{
  if◌then◌else◌, ok, err, ◌+◌, ◌≡◌, refl, true, false, not, ◌&&◌, some, [], ◌∷◌, arith,
}
use jkq.Map.{get, insert, update}
use jkq.Records.{RuntimeLimits}
use jkq.Admission.Shared.{
  SharedAdmission, new, claim_record, charge_bytes, count_admission, try_reserve, release,
  count_reached, byte_underflow,
}
use jkq.Admission.Shared.Interleaving.{
  claiming, World, Reach, here, next, step, start, advance, finish_call,
}
use jkq.Admission.Shared.Reachable.{start_world, WithinBudget, Reach-WithinBudget, fresh_thread}
use jkq.Admission.Shared.Sequential.{
  has_room, counted_once, try_reserve_lem, finish_call-has_room, release_lem, release-try_reserve,
}
use jkq.Admission.Partition.{Admission, reserve}
use jkq.Admission.Partition
use jkq.Admission.Partition.Accounting.{IsBalanced, release_accepts}
use jkq.Admission.Partition.History.{
  reserves, releases, run, run-new-IsBalanced, Consecutive, handed, handed-new,
}

abbrev small : RuntimeLimits
small = record { max_inflight_records = 2; max_inflight_bytes = 10; max_inflight_per_partition = 2 }

abbrev busy : SharedAdmission
busy = record { records = 1; bytes = 6; admitted = 1; limits = small; count_limit = some 3 }

-- Six bytes are charged of ten: five more do not fit, four do.
try_reserve_lem_example : try_reserve busy 5 ≡ (
    if has_room busy 5 && not (count_reached busy)
    then (counted_once (record busy { records = 2; bytes = 11 }), true)
    else (busy, false))
try_reserve_lem_example = try_reserve_lem busy 5 (omega arith)

refuses : (try_reserve busy 5).1 ≡ false
unfolding try_reserve claim_record charge_bytes count_admission
refuses = refl

accepts : (try_reserve busy 4).1 ≡ true
unfolding try_reserve claim_record charge_bytes count_admission
accepts = refl

release-try_reserve_example : release (try_reserve busy 4).0 1 4 ≡ ok (counted_once busy)
release-try_reserve_example = release-try_reserve busy 4 (omega arith) accepts

finish_call-has_room_example :
    let (s', t') = advance (claiming 4) busy fresh_thread in
    finish_call 4 s' t' ≡ (
      if has_room busy 4 && not (count_reached busy)
      then (
        counted_once (record busy { records = busy.records + 1; bytes = busy.bytes + 4 }),
        record fresh_thread {
          held = 4 ∷ fresh_thread.held;
          successes = fresh_thread.successes + 1;
        },
      )
      else (busy, fresh_thread))
finish_call-has_room_example = finish_call-has_room busy fresh_thread 4 (omega arith) refl

release_lem_example : release busy 1 7 ≡ err byte_underflow
release_lem_example = release_lem busy 1 7

-- Two pollers, the first of which is between its first two updates.
abbrev one_step : World
one_step = record {
  shared = (advance (claiming 4) (new small (some 3)) fresh_thread).0;
  threads = (advance (claiming 4) (new small (some 3)) fresh_thread).1 ∷ fresh_thread ∷ [];
}

reached : Reach (start_world small (some 3) 2) one_step
reached = next here (step (new small (some 3)) [] (fresh_thread ∷ []) fresh_thread _ (start 4 refl))

Reach-WithinBudget_example : WithinBudget small (some 3) one_step
Reach-WithinBudget_example = Reach-WithinBudget small (some 3) 2 (omega arith) reached

run-new-IsBalanced_example :
    IsBalanced
      (run (Partition.new (0 ∷ 7 ∷ []) 1) (reserves 7 ∷ reserves 7 ∷ releases 7 ∷ reserves 0 ∷ []))
run-new-IsBalanced_example =
    run-new-IsBalanced (0 ∷ 7 ∷ []) 1 (reserves 7 ∷ reserves 7 ∷ releases 7 ∷ reserves 0 ∷ [])

handed-new_example : Consecutive 0 (
    handed 7
      (Partition.new (0 ∷ 7 ∷ []) 2)
      (reserves 7 ∷ reserves 0 ∷ reserves 7 ∷ releases 7 ∷ reserves 7 ∷ []))
handed-new_example =
    handed-new (0 ∷ 7 ∷ []) 2 7
      (reserves 7 ∷ reserves 0 ∷ reserves 7 ∷ releases 7 ∷ reserves 7 ∷ [])

hands_three :
    handed 7
      (Partition.new (0 ∷ 7 ∷ []) 2)
      (reserves 7 ∷ reserves 0 ∷ reserves 7 ∷ releases 7 ∷ reserves 7 ∷ [])
    ≡ 0 ∷ 1 ∷ 2 ∷ []
unfolding handed reserve Partition.release Partition.new get insert update
hands_three = refl

abbrev one_held : Admission
one_held = record {
  total_records = 1;
  partitions = (7, record { next_sequence = 3; in_flight = 1 }) ∷ [];
  max_inflight_per_partition = 2;
}

one_held-IsBalanced : IsBalanced one_held
unfolding get
one_held-IsBalanced = record { total = refl; bounded = λ p s e. ground arith }

release_accepts_example : (b : Admission) × (Partition.release one_held 7 ≡ ok b)
unfolding get
release_accepts_example =
    release_accepts one_held 7 (record { next_sequence = 3; in_flight = 1 }) one_held-IsBalanced
      refl (omega arith)
