-- ===== src/Admission/Shared.antt =====
-- `SharedAdmission` of src/runtime/state.rs: the record, byte and count budget that all consumers
-- share. Each `try_update` of an atomic is a function of its own; `try_reserve` and `release` are
-- their composition by one thread. `Interleaving` lets other threads run between them.
pub mod Interleaving
pub mod Bounds
pub mod Reachable
pub mod Sequential
use jkq.Prelude.{
  ltb, leb, ◌==◌, if◌then◌else◌, Result, ok, ◌>>=◌, ◌>>◌, ok_or, word_mod, checked_add, checked_sub,
  ℕ, ◌+◌, ◌-◌, ◌*◌, ◌%◌, Bool, true, false, ◌&&◌, ◌||◌, Option, none, some,
}
use jkq.Records.{RuntimeLimits}

pub record SharedAdmission : Type 0 where
  pub records : ℕ
  pub bytes : ℕ
  pub admitted : ℕ
  pub limits : RuntimeLimits
  pub open limits use *
  pub count_limit : Option ℕ

pub data Error : Type 0 where
  record_underflow byte_underflow : Error

unfoldable pub new : RuntimeLimits → Option ℕ → SharedAdmission
new limits count_limit = record {
  records = 0;
  bytes = 0;
  admitted = 0;
  limits = limits;
  count_limit = count_limit;
}

-- `fetch_sub` of an atomic word.
unfoldable pub wrapping_sub : ℕ → ℕ → ℕ
wrapping_sub a b = (a + word_mod - b) % word_mod

unfoldable pub claim_record : SharedAdmission → Option SharedAdmission
claim_record s =
    if ltb s.records s.max_inflight_records
    then some (record s { records = s.records + 1 })
    else none

-- A record above the whole budget is let in when nothing else is charged.
unfoldable pub charge_bytes : SharedAdmission → ℕ → Option SharedAdmission
charge_bytes s size = elim (checked_add s.bytes size) [
  | none ↦ none
  | some total ↦
      if leb total s.max_inflight_bytes || (s.bytes == 0 && ltb s.max_inflight_bytes size)
      then some (record s { bytes = total })
      else none
]

count_admission_up_to : Option ℕ → SharedAdmission → Option SharedAdmission
count_admission_up_to none s = some s
count_admission_up_to (some limit) s =
    if ltb s.admitted limit then some (record s { admitted = s.admitted + 1 }) else none

unfoldable pub count_admission : SharedAdmission → Option SharedAdmission
unfolding count_admission_up_to
count_admission s = count_admission_up_to s.count_limit s

unfoldable pub unclaim_record : SharedAdmission → SharedAdmission
unclaim_record s = record s { records = wrapping_sub s.records 1 }

unfoldable pub discharge_bytes : SharedAdmission → ℕ → SharedAdmission
discharge_bytes s size = record s { bytes = wrapping_sub s.bytes size }

unfoldable pub try_reserve : SharedAdmission → ℕ → SharedAdmission × Bool
try_reserve s size = elim (claim_record s) [
  | none ↦ (s, false)
  | some claimed ↦ elim (charge_bytes claimed size) [
    | none ↦ (unclaim_record claimed, false)
    | some charged ↦ elim (count_admission charged) [
      | none ↦ (unclaim_record (discharge_bytes charged size), false)
      | some counted ↦ (counted, true)
    ]
  ]
]

unfoldable pub return_records : SharedAdmission → ℕ → Result Error SharedAdmission
return_records s n = do
  left ← ok_or (checked_sub s.records n) record_underflow
  ok (record s { records = left })

unfoldable pub return_bytes : SharedAdmission → ℕ → Result Error SharedAdmission
return_bytes s size = do
  left ← ok_or (checked_sub s.bytes size) byte_underflow
  ok (record s { bytes = left })

unfoldable pub release : SharedAdmission → ℕ → ℕ → Result Error SharedAdmission
release s n size = do s' ← return_records s n; return_bytes s' size

reached : Option ℕ → ℕ → Bool
reached none admitted = false
reached (some limit) admitted = leb limit admitted

unfoldable pub count_reached : SharedAdmission → Bool
unfolding reached
count_reached s = reached s.count_limit s.admitted
