-- ===== src/Admission/Partition/Accounting.antt =====
-- What `reserve` and `release` keep of a poller's `Admission` (src/runtime/state.rs).
use jkq.Prelude.{
  Option-cases, sum_by, ok, word_mod, ℕ, ◌+◌, ◌-◌, ◌≤◌, ◌<◌, ◌≡◌, refl, sym, subst, inl, inr, some,
  List, [], ◌∷◌, arith,
}
use jkq.Map.{get, update, sum_by-update, get-update}
use jkq.Admission.Partition.{release, reserve, PartitionAdmission, Admission, reserve}

abbrev pub in_flight_of : ℕ × PartitionAdmission → ℕ
in_flight_of e = e.1.in_flight

-- The total is the sum over the partitions, and no partition is above its limit.
pub record IsBalanced (a : Admission) : Type 0 where
  pub total : a.total_records ≡ sum_by in_flight_of a.partitions
  pub bounded :
      (p : ℕ) (s : PartitionAdmission)
      → get p a.partitions ≡ some s
      → s.in_flight ≤ a.max_inflight_per_partition

-- What `reserve` has done where it succeeds.
pub record Reserved (a : Admission) (p : ℕ) (b : Admission) (n : ℕ) : Type 0 where
  pub before : PartitionAdmission
  pub known : get p a.partitions ≡ some before
  pub room : before.in_flight < a.max_inflight_per_partition
  pub sequence : n ≡ before.next_sequence
  pub fits : n + 1 < word_mod
  pub after : b ≡ record a {
    total_records = a.total_records + 1;
    partitions =
        update p (record { next_sequence = n + 1; in_flight = before.in_flight + 1 }) a.partitions;
  }

pub reserve-Reserved :
    (a : Admission) (p : ℕ) {b : Admission} {n : ℕ} → reserve a p ≡ ok (b, n) → Reserved a p b n
unfolding reserve
reserve-Reserved a p h = elim (Option-cases (get p a.partitions)) [
  | inl e ↦ ground arith
  | inr (s, e) ↦ record {
    before = s;
    known = e;
    room = ground arith;
    sequence = ground arith;
    fits = ground arith;
    after = ground arith;
  }
]

-- What `release` has done where it succeeds.
pub record Released (a : Admission) (p : ℕ) (b : Admission) : Type 0 where
  pub before : PartitionAdmission
  pub known : get p a.partitions ≡ some before
  pub held : 0 < before.in_flight
  pub after : b ≡ record a {
    total_records = a.total_records - 1;
    partitions = update p (record before { in_flight = before.in_flight - 1 }) a.partitions;
  }

pub release-Released : (a : Admission) (p : ℕ) {b : Admission} → release a p ≡ ok b → Released a p b
unfolding release
release-Released a p h = elim (Option-cases (get p a.partitions)) [
  | inl e ↦ ground arith
  | inr (s, e) ↦ record { before = s; known = e; held = ground arith; after = ground arith }
]

-- One partition's count changes, and the total with it.
IsBalanced-update :
    (a : Admission) (p total : ℕ) (s s' : PartitionAdmission)
    → IsBalanced a
    → get p a.partitions ≡ some s
    → s'.in_flight ≤ a.max_inflight_per_partition
    → total + s.in_flight ≡ a.total_records + s'.in_flight
    → IsBalanced (record a { total_records = total; partitions = update p s' a.partitions })
IsBalanced-update a p total s s' v e fits t = record {
  total = omega (
    arith,
    v.total,
    sum_by-update in_flight_of (λ x. x.in_flight) p s' a.partitions (λ e. refl) e,
  );
  bounded = λ q x h. ground (arith, get-update q p s' a.partitions, v.bounded q x);
}

pub reserve-IsBalanced :
    (a : Admission) (p : ℕ) {b : Admission} {n : ℕ}
    → IsBalanced a
    → reserve a p ≡ ok (b, n)
    → IsBalanced b
reserve-IsBalanced a p {n = n} v h =
    let r = reserve-Reserved a p h in
    subst IsBalanced (sym r.after) (
      IsBalanced-update a p (a.total_records + 1) r.before
        (record { next_sequence = n + 1; in_flight = r.before.in_flight + 1 }) v r.known
        (omega (arith, r.room)) (omega arith))

-- A partition's count is part of the total.
in_flight-le-total :
    (p : ℕ) (s : PartitionAdmission) (m : List (ℕ × PartitionAdmission))
    → get p m ≡ some s
    → s.in_flight ≤ sum_by in_flight_of m
unfolding get
in_flight-le-total p s [] h = ground arith
in_flight-le-total p s (e ∷ m) h = ground (arith, in_flight-le-total p s m)

pub release-IsBalanced :
    (a : Admission) (p : ℕ) {b : Admission} → IsBalanced a → release a p ≡ ok b → IsBalanced b
release-IsBalanced a p v h =
    let r = release-Released a p h in
    subst IsBalanced (sym r.after) (
      IsBalanced-update a p (a.total_records - 1) r.before
        (record r.before { in_flight = r.before.in_flight - 1 }) v r.known
        (omega (arith, v.bounded p r.before r.known))
        (omega (arith, v.total, r.held, in_flight-le-total p r.before a.partitions r.known)))

-- With balanced books a release for a known partition with a record in flight is accepted: the
-- check of the total never refuses it.
pub release_accepts :
    (a : Admission) (p : ℕ) (s : PartitionAdmission)
    → IsBalanced a
    → get p a.partitions ≡ some s
    → 0 < s.in_flight
    → (b : Admission) × (release a p ≡ ok b)
unfolding release
release_accepts a p s v e h = (
  record a {
    total_records = a.total_records - 1;
    partitions = update p (record s { in_flight = s.in_flight - 1 }) a.partitions;
  },
  ground (arith, v.total, in_flight-le-total p s a.partitions e),
)
