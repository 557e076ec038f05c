-- ===== src/Kafka/Buffers/Budget.antt =====
-- What `PayloadBuffers` of src/kafka.rs keeps: a budget, and buffers that hold what was copied.
use jkq.Prelude.{
  ltb, ◌==◌, Bool-cases, Bytes, length, sum_by, All, ℕ, ◌-◌, ◌≤◌, ◌<◌, ◌≡◌, refl, subst, inl, inr,
  ◌||◌, List, [], ◌∷◌, arith,
}
use jkq.Records.{Buffer, RuntimeLimits}
use jkq.Kafka.Buffers.{PayloadBuffers, new, pop, extend, copy, recycle}

-- The pool's account is exact, each spare is empty and of a reusable size, and the limits hold.
pub record IsWithinBudget (pool : PayloadBuffers) : Type 0 where
  pub account : pool.capacity ≡ sum_by (λ b. b.capacity) pool.free
  pub records_le : length pool.free ≤ pool.max_records
  pub bytes_le : pool.capacity ≤ pool.max_bytes
  pub spares :
      All
        (λ b. (b.bytes ≡ []) × (0 < b.capacity) × (b.capacity ≤ pool.max_buffer_capacity))
        pool.free

new-IsWithinBudget : (limits : RuntimeLimits) → IsWithinBudget (new limits)
unfolding new
new-IsWithinBudget limits = record {
  account = refl;
  records_le = omega arith;
  bytes_le = omega arith;
  spares = tt;
}

recycle-IsWithinBudget :
    (pool : PayloadBuffers) (buffer : Buffer)
    → IsWithinBudget pool
    → IsWithinBudget (recycle pool buffer)
unfolding recycle
recycle-IsWithinBudget pool buffer v =
    elim (Bool-cases (
      buffer.capacity == 0
      || ltb pool.max_buffer_capacity buffer.capacity
      || length pool.free == pool.max_records
      || ltb (pool.max_bytes - pool.capacity) buffer.capacity)) [
        | inl t ↦ rw t v
        | inr t ↦ rw t (record {
          account = omega (arith, v.account);
          records_le = ground (arith, t, v.records_le);
          bytes_le = ground (arith, t, v.bytes_le);
          spares = ((refl, ground (arith, t), ground (arith, t)), v.spares);
        })
      ]

module _ (grow : ℕ → ℕ → ℕ) where
  abbrev Copied : PayloadBuffers → Bytes → PayloadBuffers × Buffer → Type 0
  Copied pool source r = IsWithinBudget r.0 × (r.1.bytes ≡ source)

  reuse-Copied :
      (pool : PayloadBuffers) (free : List Buffer) (source : Bytes)
      → pool.free ≡ free
      → IsWithinBudget pool
      → Copied pool source (
          let (buffer, rest) = pop free in
          (
            record pool { free = rest; capacity = pool.capacity - buffer.capacity },
            extend grow buffer source,
          ))
  unfolding pop
  reuse-Copied pool [] source e v = (
    record {
      account = ground (arith, v.account);
      records_le = omega arith;
      bytes_le = omega (arith, v.bytes_le);
      spares = tt;
    },
    refl,
  )
  reuse-Copied pool (b ∷ bs) source e v =
      let spares =
        subst
          (All (λ b. (b.bytes ≡ []) × (0 < b.capacity) × (b.capacity ≤ pool.max_buffer_capacity))) e
          v.spares in
      (
        record {
          account = ground (arith, v.account);
          records_le = ground (arith, v.records_le);
          bytes_le = omega (arith, v.bytes_le);
          spares = spares.1;
        },
        rw spares.0.0,
      )

  copy-Copied :
      (pool : PayloadBuffers) (source : Bytes)
      → IsWithinBudget pool
      → Copied pool source (copy grow pool source)
  unfolding copy
  copy-Copied pool source v = elim (Bool-cases (ltb pool.max_buffer_capacity (length source))) [
    | inl t ↦ rw t (v, refl)
    | inr t ↦ rw t (reuse-Copied pool pool.free source refl v)
  ]

-- What a consumer does with its pool.
pub data Use : Type 0 where
  copies : Bytes → Use
  recycles : Buffer → Use

abbrev pub copied : List Use → List Bytes
copied [] = []
copied (copies source ∷ us) = source ∷ copied us
copied (recycles buffer ∷ us) = copied us

-- The pool after the uses, and the contents of the buffers that `copy` gave.
pub run : (ℕ → ℕ → ℕ) → PayloadBuffers → List Use → PayloadBuffers × List Bytes
run grow pool [] = (pool, [])
run grow pool (copies source ∷ us) =
    let (pool', buffer) = copy grow pool source in
    let (pool'', rest) = run grow pool' us in (pool'', buffer.bytes ∷ rest)
run grow pool (recycles buffer ∷ us) = run grow (recycle pool buffer) us

run-IsWithinBudget :
    (grow : ℕ → ℕ → ℕ) (pool : PayloadBuffers) (us : List Use)
    → IsWithinBudget pool
    → IsWithinBudget (run grow pool us).0 × ((run grow pool us).1 ≡ copied us)
unfolding run
run-IsWithinBudget grow pool [] v = (v, refl)
run-IsWithinBudget grow pool (copies source ∷ us) v =
    let (v', same) = copy-Copied grow pool source v in
    let (v'', rest) = run-IsWithinBudget grow (copy grow pool source).0 us v' in (v'', cc)
run-IsWithinBudget grow pool (recycles buffer ∷ us) v =
    run-IsWithinBudget grow (recycle pool buffer) us (recycle-IsWithinBudget pool buffer v)

-- However the allocator grows a buffer, after any copies and recycled buffers a fresh pool keeps
-- an exact account of its spare capacity, within its record and byte limits, holds only empty
-- spares of a reusable size, and every copy held exactly the bytes that were copied.
pub run-new-IsWithinBudget :
    (grow : ℕ → ℕ → ℕ) (limits : RuntimeLimits) (us : List Use)
    → IsWithinBudget (run grow (new limits) us).0 × ((run grow (new limits) us).1 ≡ copied us)
run-new-IsWithinBudget grow limits us = run-IsWithinBudget grow _ us (new-IsWithinBudget limits)
