-- ===== src/Admission/Partition/History.antt =====
-- Histories of a poller's `Admission` (src/runtime/state.rs): every record that is admitted and
-- every release that comes back, in any order.
use jkq.Prelude.{
  ◌==◌, if◌then◌else◌, Bool-cases, Option-cases, length, sum_by, range_from, Result, ok, err,
  Result-cases, ℕ, ◌+◌, ◌-◌, ◌≡◌, refl, sym, ap, inl, inr, none, some, List, [], ◌∷◌, ◌++◌, arith,
}
use jkq.Map.{get, get-update, get-insert, insert}
use jkq.Admission.Partition.{PartitionAdmission, Admission, Error, fresh, new, reserve, release}
use jkq.Admission.Partition.Accounting.{
  IsBalanced, Reserved, in_flight_of, reserve-IsBalanced, release-IsBalanced, release-Released,
  reserve-Reserved,
}

pub data Op : Type 0 where
  reserves releases : ℕ → Op

abbrev after_reserve : Admission → Result Error (Admission × ℕ) → Admission
after_reserve a (ok (b, n)) = b
after_reserve a (err e) = a

abbrev after_release : Admission → Result Error Admission → Admission
after_release a (ok b) = b
after_release a (err e) = a

-- A refused call changes nothing.
unfoldable pub step : Admission → Op → Admission
step a (reserves p) = after_reserve a (reserve a p)
step a (releases p) = after_release a (release a p)

unfoldable pub run : Admission → List Op → Admission
run a [] = a
run a (o ∷ os) = run (step a o) os

abbrev handed_by : ℕ → ℕ → Result Error (Admission × ℕ) → List ℕ
handed_by p q (ok (b, n)) = if q == p then n ∷ [] else []
handed_by p q (err e) = []

-- The sequence numbers that partition `p` is given, oldest first.
unfoldable pub handed : ℕ → Admission → List Op → List ℕ
unfolding step
handed p a [] = []
handed p a (reserves q ∷ os) = handed_by p q (reserve a q) ++ handed p (step a (reserves q)) os
handed p a (releases q ∷ os) = handed p (step a (releases q)) os

abbrev zero_state : PartitionAdmission
zero_state = record { next_sequence = 0; in_flight = 0 }

sum_by-insert_zero :
    (q : ℕ) (m : List (ℕ × PartitionAdmission))
    → sum_by in_flight_of m ≡ 0
    → sum_by in_flight_of (insert q zero_state m) ≡ 0
unfolding insert
sum_by-insert_zero q [] t = omega arith
sum_by-insert_zero q ((i, s) ∷ m) t = ground (arith, sum_by-insert_zero q m)

-- All counts are zero at the start.
fresh-zero :
    (ps : List ℕ) (m : List (ℕ × PartitionAdmission))
    → sum_by in_flight_of m ≡ 0
    → ((p : ℕ) (s : PartitionAdmission) → get p m ≡ some s → s ≡ zero_state)
    → (sum_by in_flight_of (fresh ps m) ≡ 0)
      × ((p : ℕ) (s : PartitionAdmission) → get p (fresh ps m) ≡ some s → s ≡ zero_state)
unfolding fresh
fresh-zero [] m t h = (t, h)
fresh-zero (q ∷ ps) m t h =
    fresh-zero ps _ (sum_by-insert_zero q m t)
      (λ p s e. ground (arith, get-insert p q zero_state m, h p s))

new-IsBalanced : (ps : List ℕ) (limit : ℕ) → IsBalanced (new ps limit)
unfolding new get
new-IsBalanced ps limit =
    let (t, h) = fresh-zero ps [] refl (λ p s e. cc) in
    record { total = sym t; bounded = λ p s e. ground (arith, h p s e) }

pub new-next_sequence :
    (ps : List ℕ) (limit p : ℕ) (s : PartitionAdmission)
    → get p (new ps limit).partitions ≡ some s
    → s.next_sequence ≡ 0
unfolding new get
new-next_sequence ps limit p s e =
    let (t, h) = fresh-zero ps [] refl (λ p s e. cc) in ap (λ z. z.next_sequence) (h p s e)

step-IsBalanced : (a : Admission) (o : Op) → IsBalanced a → IsBalanced (step a o)
unfolding step
step-IsBalanced a (reserves p) v = elim (Result-cases (reserve a p)) [
  | inl (e, r) ↦ rw r v
  | inr (bn, r) ↦ rw r (reserve-IsBalanced a p v r)
]
step-IsBalanced a (releases p) v = elim (Result-cases (release a p)) [
  | inl (e, r) ↦ rw r v
  | inr (b, r) ↦ rw r (release-IsBalanced a p v r)
]

run-IsBalanced : (a : Admission) (os : List Op) → IsBalanced a → IsBalanced (run a os)
unfolding run
run-IsBalanced a [] v = v
run-IsBalanced a (o ∷ os) v = run-IsBalanced (step a o) os (step-IsBalanced a o v)

-- After any reserves and releases on a fresh admission the total is the sum of the partitions'
-- records in flight, and no partition is above its limit.
pub run-new-IsBalanced :
    (partitions : List ℕ) (limit : ℕ) (os : List Op) → IsBalanced (run (new partitions limit) os)
run-new-IsBalanced ps limit os = run-IsBalanced _ os (new-IsBalanced ps limit)

-- A release does not touch the sequence numbers.
release-next :
    (a : Admission) (p q : ℕ) (s : PartitionAdmission)
    → get p a.partitions ≡ some s
    → (t : PartitionAdmission) × (get p (step a (releases q)).partitions ≡ some t)
      × (t.next_sequence ≡ s.next_sequence)
unfolding step
release-next a p q s e = elim (Result-cases (release a q)) [
  | inl (x, r) ↦ rw r (s, e, refl)
  | inr (b, r) ↦
      let done = release-Released a q r in
      let s' : PartitionAdmission = record done.before { in_flight = done.before.in_flight - 1 } in
      rw r (
        if q == p then s' else s,
        ground (arith, done.after, done.known, get-update p q s' a.partitions),
        ground (arith, done.known),
      )
]

-- What a successful `reserve` leaves at each partition.
get-reserve :
    (a b : Admission) (p q n : ℕ)
    → (r : Reserved a q b n)
    → get p b.partitions ≡ (
        if q == p
        then some (record { next_sequence = n + 1; in_flight = r.before.in_flight + 1 })
        else get p a.partitions)
get-reserve a b p q n r = ground (
  arith,
  r.after,
  r.known,
  get-update p q (record { next_sequence = n + 1; in_flight = r.before.in_flight + 1 })
      a.partitions,
)

abbrev pub Consecutive : ℕ → List ℕ → Type 0
Consecutive n ns = ns ≡ range_from n (length ns)

handed-Consecutive :
    (p : ℕ) (a : Admission) (os : List Op) (s : PartitionAdmission)
    → get p a.partitions ≡ some s
    → Consecutive s.next_sequence (handed p a os)
unfolding handed
handed-Consecutive p a [] s e = refl
handed-Consecutive p a (releases q ∷ os) s e =
    let (t, e', n) = release-next a p q s e in
    rw (← n) (handed-Consecutive p (step a (releases q)) os t e')
handed-Consecutive p a (reserves q ∷ os) s e = elim (Result-cases (reserve a q)) [
  | inl (x, r) ↦ rw r (handed-Consecutive p a os s e)
  | inr ((b, n), r) ↦
      let done = reserve-Reserved a q r in
      elim (Bool-cases (q == p)) [
        | inl same ↦
            rw (r, same)
              (let rest =
                  handed-Consecutive p b os
                    (record { next_sequence = n + 1; in_flight = done.before.in_flight + 1 })
                    (ground (arith, get-reserve a b p q n done)) in
                ground (arith, done.sequence, done.known, rest))
        | inr other ↦
            rw (r, other) (handed-Consecutive p b os s (ground (arith, get-reserve a b p q n done)))
      ]
]

-- A partition that is not assigned is never given a number.
handed_unknown :
    (p : ℕ) (a : Admission) (os : List Op) → get p a.partitions ≡ none → handed p a os ≡ []
unfolding handed
handed_unknown p a [] e = refl
handed_unknown p a (releases q ∷ os) e = elim (Result-cases (release a q)) [
  | inl (x, r) ↦ rw (r, step) (handed_unknown p a os e)
  | inr (b, r) ↦
      let done = release-Released a q r in
      let s' : PartitionAdmission = record done.before { in_flight = done.before.in_flight - 1 } in
      rw (r, step)
        (handed_unknown p b os
          (ground (arith, done.after, done.known, e, get-update p q s' a.partitions)))
]
handed_unknown p a (reserves q ∷ os) e = elim (Result-cases (reserve a q)) [
  | inl (x, r) ↦ rw (r, step) (handed_unknown p a os e)
  | inr ((b, n), r) ↦
      let done = reserve-Reserved a q r in
      elim (Bool-cases (q == p)) [
        | inl same ↦ absurd (ground (arith, done.known, e))
        | inr other ↦
            rw (r, other, step) (handed_unknown p b os (ground (arith, get-reserve a b p q n done)))
      ]
]

-- Whatever reserves and releases a poller makes on a fresh admission, the sequence numbers that a
-- partition is given are 0, 1, 2 and so on.
pub handed-new :
    (partitions : List ℕ) (limit p : ℕ) (os : List Op)
    → Consecutive 0 (handed p (new partitions limit) os)
handed-new ps limit p os = elim (Option-cases (get p (new ps limit).partitions)) [
  | inl e ↦ rw (handed_unknown p (new ps limit) os e) refl
  | inr (s, e) ↦
      let zero_first : s ≡ zero_state =
        unfold new get in (fresh-zero ps [] refl (λ p s e. cc)).1 p s e in
      rw zero_first at (handed-Consecutive p (new ps limit) os s e)
]
