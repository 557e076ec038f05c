-- ===== src/Runtime/Batches/Limits.antt =====
-- How much a `PollerBuffer` of src/runtime.rs holds back and sends at once.
use jkq.Prelude.{
  ltb, leb, Bool-cases, length, All, length-append, word_mod, ℕ, suc, ◌+◌, ◌%◌, ◌≡◌, refl, ap, inl,
  inr, Bool, true, ◌&&◌, ◌||◌, List, [], ◌∷◌, ◌++◌, map, arith, List-cases,
}
use jkq.Records.{OwnedRecord}
use jkq.Runtime.Batches.{
  PollerBuffer, Batch, of_records, of_completions, batch_of, flush, push, Destination, evaluate,
  write, batch_records, passed_completion, WorkItem, batch_bytes,
}
use jkq.Runtime.Stats.{Stats}

abbrev pub batch_size : Batch → ℕ
batch_size (of_records b) = length b.items
batch_size (of_completions b) = length b.items

-- Less than a full batch, in records and in bytes.
abbrev pub IsPartial : PollerBuffer → Type 0
IsPartial b = (ltb (length b.pending) batch_records && ltb b.retained_bytes batch_bytes) ≡ true

abbrev pub IsFitting : Batch → Type 0
IsFitting b = (leb 1 (batch_size b) && leb (batch_size b) batch_records) ≡ true

length-map : {A B : Type 0} (f : A → B) (xs : List A) → length (map f xs) ≡ length xs
length-map f [] = refl
length-map f (x ∷ xs) = ap suc (length-map f xs)

batch_of-size :
    (consumer : ℕ) (destination : Destination) (items : List WorkItem)
    → batch_size (batch_of consumer destination items) ≡ length items
unfolding batch_of
batch_of-size consumer evaluate items = refl
batch_of-size consumer (write drops) items = length-map (passed_completion consumer drops) items

flush-limits :
    (connected : Bool) (b : PollerBuffer) (stats : Stats)
    → leb (length b.pending) batch_records ≡ true
    → (b.pending ≡ [] → IsPartial b)
    → IsPartial (flush connected b stats).buffer × All IsFitting (flush connected b stats).batches
unfolding flush
flush-limits connected b stats few partial = elim (List-cases b.pending) [
  | inl f ↦ rw (f, flush) ((partial f, tt))
  | inr (item, (items, f)) ↦
      let size = batch_of-size b.consumer b.destination (item ∷ items) in
      elim (Bool-cases connected) [
        | inr g ↦ rw (f, g, flush) ((refl, tt))
        | inl g ↦
            let fits : IsFitting (batch_of b.consumer b.destination (item ∷ items)) =
              ground arith in
            rw (f, g, flush) ((refl, (fits, tt)))
      ]
]

-- If a buffer holds less than a full batch in records and in bytes, it does so after a push as
-- well, whether or not the batch can be sent, and each batch that the push sends has between 1 and
-- 64 records.
pub push-limits :
    (connected : Bool) (b : PollerBuffer) (owned : OwnedRecord) (n : ℕ) (stats : Stats)
    → IsPartial b
    → IsPartial (push connected b owned n stats).buffer
      × All IsFitting (push connected b owned n stats).batches
unfolding push
push-limits connected b owned n stats partial =
    let filled : PollerBuffer = record b {
      pending = b.pending ++ record { sequence = n; owned = owned } ∷ [];
      retained_bytes = (b.retained_bytes + owned.retained_bytes) % word_mod;
    } in
    let size : length filled.pending ≡ length b.pending + 1 =
      length-append b.pending (record { sequence = n; owned = owned } ∷ []) in
    elim (Bool-cases
      (leb batch_records (length filled.pending) || leb batch_bytes filled.retained_bytes)) [
        | inl f ↦
            rw (f, push)
              (flush-limits connected filled stats (ground arith) (λ e. absurd (ground arith)))
        | inr f ↦ rw (f, push) ((ground arith, tt))
      ]
