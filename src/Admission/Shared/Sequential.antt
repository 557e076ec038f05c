-- ===== src/Admission/Shared/Sequential.antt =====
-- `try_reserve` and `release` of src/runtime/state.rs, called by one thread with no other between.
use jkq.Prelude.{
  ltb, leb, ◌==◌, if◌then◌else◌, Bool-cases, Option-cases, ok, err, word_mod, ℕ, ◌+◌, ◌-◌, ◌<◌, min,
  ◌≡◌, refl, ap, ◌∙◌, inl, inr, Bool, true, false, not, ◌&&◌, ◌||◌, none, some, ◌∷◌, arith,
}
use jkq.Admission.Shared.{
  SharedAdmission, claim_record, charge_bytes, count_admission, unclaim_record, discharge_bytes,
  try_reserve, return_records, return_bytes, release, wrapping_sub, count_reached, byte_underflow,
  record_underflow,
}
use jkq.Admission.Shared.Interleaving.{idle, claiming, Thread, advance, finish_call}

-- There is room for one more record of `size` bytes.
abbrev pub has_room : SharedAdmission → ℕ → Bool
has_room s size =
    ltb s.records s.max_inflight_records
    && (leb (s.bytes + size) (min s.max_inflight_bytes (word_mod - 1))
        || (s.bytes == 0 && ltb s.max_inflight_bytes size && ltb size word_mod))

abbrev pub counted_once : SharedAdmission → SharedAdmission
counted_once s = elim s.count_limit [
  | none ↦ s
  | some limit ↦ record s { admitted = s.admitted + 1 }
]

-- Where the record limit is a machine word, try_reserve returns true exactly when a record slot is
-- free, the bytes fit the budget (or the record is larger than the whole budget and nothing is
-- charged) and the count limit is not reached; it then charges one record, its bytes and, under a
-- count limit, one admission. Otherwise it returns false and leaves every counter as it was.
pub try_reserve_lem :
    (s : SharedAdmission) (size : ℕ)
    → s.max_inflight_records < word_mod
    → try_reserve s size ≡ (
        if has_room s size && not (count_reached s)
        then (counted_once (record s { records = s.records + 1; bytes = s.bytes + size }), true)
        else (s, false))
unfolding try_reserve claim_record charge_bytes count_admission unclaim_record discharge_bytes
    wrapping_sub count_reached
try_reserve_lem s size h = ground arith

abbrev reserved_by : Thread → ℕ → Bool → Thread
reserved_by t size true = record t { held = size ∷ t.held; successes = t.successes + 1 }
reserved_by t size false = t

-- The four updates that a thread may need, one after another, are try_reserve.
finish_call-try_reserve :
    (s : SharedAdmission) (t : Thread) (size : ℕ)
    → t.phase ≡ idle
    → let (s', t') = advance (claiming size) s t in
      finish_call 4 s' t' ≡ ((try_reserve s size).0, reserved_by t size (try_reserve s size).1)
unfolding finish_call try_reserve
finish_call-try_reserve s t size e = elim (Option-cases (claim_record s)) [
  | inl a ↦ ground arith
  | inr (s', a) ↦ elim (Option-cases (charge_bytes s' size)) [
    | inl b ↦ ground arith
    | inr (s'', b) ↦ elim (Option-cases (count_admission s'')) [
      | inl c ↦ ground arith
      | inr (s''', c) ↦ ground arith
    ]
  ]
]

-- Where the record limit is a machine word: a thread between calls that starts a try_reserve and
-- is left alone returns within four more atomic updates. If a record slot is free, the bytes fit
-- the budget (or the record is larger than the whole budget and nothing is charged) and the count
-- limit is not reached, one record, its bytes and, under a count limit, one admission are charged,
-- and the thread holds the record and counts a success; otherwise every shared counter and the
-- thread are as before.
pub finish_call-has_room :
    (s : SharedAdmission) (t : Thread) (size : ℕ)
    → s.max_inflight_records < word_mod
    → t.phase ≡ idle
    → let (s', t') = advance (claiming size) s t in
      finish_call 4 s' t' ≡ (
        if has_room s size && not (count_reached s)
        then (
          counted_once (record s { records = s.records + 1; bytes = s.bytes + size }),
          record t { held = size ∷ t.held; successes = t.successes + 1 },
        )
        else (s, t))
finish_call-has_room s t size h e = elim (Bool-cases (has_room s size && not (count_reached s))) [
  | inl f ↦
      let reserved : try_reserve s size
          ≡ (counted_once (record s { records = s.records + 1; bytes = s.bytes + size }), true) =
        try_reserve_lem s size h ∙ rw f refl in
      finish_call-try_reserve s t size e
      ∙ (ap (λ r. (r.0, reserved_by t size r.1)) reserved ∙ rw f refl)
  | inr f ↦
      let refused : try_reserve s size ≡ (s, false) = try_reserve_lem s size h ∙ rw f refl in
      finish_call-try_reserve s t size e
      ∙ (ap (λ r. (r.0, reserved_by t size r.1)) refused ∙ rw f refl)
]

-- A release takes back what it is given, or fails before a counter would go below zero; a failure
-- on the bytes comes after the records were returned.
pub release_lem :
    (s : SharedAdmission) (n size : ℕ)
    → release s n size ≡ (
        if leb n s.records
        then (if leb size s.bytes
            then ok (record s { records = s.records - n; bytes = s.bytes - size })
            else err byte_underflow)
        else err record_underflow)
unfolding release return_records return_bytes
release_lem s n size = ground arith

-- Where the record limit is a machine word, a successful try_reserve followed by the release of
-- one record of that size succeeds and restores the counters, but for the admission that it
-- counted.
pub release-try_reserve :
    (s : SharedAdmission) (size : ℕ)
    → s.max_inflight_records < word_mod
    → (try_reserve s size).1 ≡ true
    → release (try_reserve s size).0 1 size ≡ ok (counted_once s)
unfolding count_reached
release-try_reserve s size h e =
    ground (arith, try_reserve_lem s size h, release_lem (try_reserve s size).0 1 size)
