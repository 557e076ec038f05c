-- ===== src/Runtime/Polling/Numbered.antt =====
-- The sequence numbers that the poller of src/runtime.rs gives to the records of each partition.
use jkq.Prelude.{
  ◌==◌, if◌then◌else◌, Bool-cases, Option-cases, drop, range_from, ok, ℕ, zero, suc, ◌+◌, ◌-◌, ◌≡◌,
  refl, sym, ap, ◌∙◌, inl, inr, Option, none, some, List, [], ◌∷◌, ◌++◌, map, append-nil,
  append_assoc, arith,
}
use jkq.Admission.Partition.History.{new-next_sequence}
use jkq.Map.{get, get-update}
use jkq.Admission.Partition.{Admission, reserve, release, new, PartitionAdmission}
use jkq.Records.{Completion}
use jkq.Runtime.Batches.{
  WorkItem, Batch, PollerBuffer, of_records, of_completions, batch_of, passed_completion,
  Destination, evaluate, write,
}

-- A partition with a sequence number.
abbrev pub Slot : Type 0
Slot = ℕ × ℕ

abbrev pub item_slot : WorkItem → Slot
item_slot item = (item.owned.partition, item.sequence)

abbrev pub completion_slot : Completion → Slot
completion_slot c = (c.partition, c.sequence)

abbrev pub batch_slots : Batch → List Slot
batch_slots (of_records b) = map item_slot b.items
batch_slots (of_completions b) = map completion_slot b.items

-- Of all batches, in order.
abbrev pub sent_slots : List Batch → List Slot
sent_slots [] = []
sent_slots (b ∷ bs) = batch_slots b ++ sent_slots bs

abbrev pub buffer_slots : Option PollerBuffer → List Slot
buffer_slots none = []
buffer_slots (some b) = map item_slot b.pending

-- The sequence numbers of a partition, in order.
abbrev pub numbers : ℕ → List Slot → List ℕ
numbers k [] = []
numbers k ((p, n) ∷ slots) = if p == k then n ∷ numbers k slots else numbers k slots

abbrev next_of : Option PartitionAdmission → ℕ
next_of none = 0
next_of (some state) = state.next_sequence

-- The number that the next record of a partition is to have.
abbrev pub next_number : ℕ → Admission → ℕ
next_number k a = next_of (get k a.partitions)

-- 0, 1, 2, … for each partition, up to its next number.
abbrev pub AreNumbered : Admission → List Slot → Type 0
AreNumbered a slots = (k : ℕ) → numbers k slots ≡ range_from 0 (next_number k a)

pub sent_slots-append :
    (xs ys : List Batch) → sent_slots (xs ++ ys) ≡ sent_slots xs ++ sent_slots ys
sent_slots-append [] ys = refl
sent_slots-append (x ∷ xs) ys =
    ap (λ s. batch_slots x ++ s) (sent_slots-append xs ys)
    ∙ sym (append_assoc (batch_slots x) (sent_slots xs) (sent_slots ys))

numbers-append : (k : ℕ) (xs ys : List Slot) → numbers k (xs ++ ys) ≡ numbers k xs ++ numbers k ys
numbers-append k [] ys = refl
numbers-append k ((p, n) ∷ xs) ys = ground (arith, numbers-append k xs ys)

range_from-suc : (start n : ℕ) → range_from start (suc n) ≡ range_from start n ++ (start + n) ∷ []
range_from-suc start zero = ap (λ m. m ∷ []) (ground arith)
range_from-suc start (suc n) =
    ap (λ s. start ∷ s)
      (range_from-suc (start + 1) n ∙ ap (λ m. range_from (start + 1) n ++ m ∷ []) (ground arith))

-- A release keeps the next numbers.
pub next_number-release :
    (k p : ℕ) (a a' : Admission) → release a p ≡ ok a' → next_number k a' ≡ next_number k a
unfolding release
next_number-release k p a a' h = elim (Option-cases (get p a.partitions)) [
  | inl f ↦ absurd (ground arith)
  | inr (state, f) ↦
      ground (arith, get-update k p (record state { in_flight = state.in_flight - 1 }) a.partitions)
]

-- A reservation takes the partition's next number.
pub next_number-reserve :
    (k p n : ℕ) (a a' : Admission)
    → reserve a p ≡ ok (a', n)
    → (n ≡ next_number p a) × (next_number k a' ≡ (if p == k then n + 1 else next_number k a))
unfolding reserve
next_number-reserve k p n a a' h = elim (Option-cases (get p a.partitions)) [
  | inl f ↦ absurd (ground arith)
  | inr (state, f) ↦
      let written =
        get-update k p
          (record state {
            next_sequence = state.next_sequence + 1;
            in_flight = state.in_flight + 1;
          })
          a.partitions in
      ground arith
]

pub AreNumbered-snoc :
    (a a' : Admission) (slots : List Slot) (p n : ℕ)
    → AreNumbered a slots
    → reserve a p ≡ ok (a', n)
    → AreNumbered a' (slots ++ (p, n) ∷ [])
AreNumbered-snoc a a' slots p n numbered h k =
    let (same, later) = next_number-reserve k p n a a' h in
    let before = numbered k in
    let longer = numbers-append k slots ((p, n) ∷ []) in
    let one_more : n + 1 ≡ suc n = ground arith in
    let no_more : 0 + n ≡ n = ground arith in
    let step : range_from 0 (n + 1) ≡ range_from 0 n ++ n ∷ [] =
      ap (range_from 0) one_more
      ∙ (range_from-suc 0 n ∙ ap (λ m. range_from 0 n ++ m ∷ []) no_more) in
    elim (Bool-cases (p == k)) [
      | inl f ↦
          let e : next_number k a' ≡ n + 1 = ground arith in
          let same' : next_number k a ≡ n = ground arith in
          longer ∙ (rw (f, before, same') (sym step) ∙ ap (range_from 0) (sym e))
      | inr f ↦
          let e : next_number k a' ≡ next_number k a = ground arith in
          longer ∙ (rw f (append-nil (numbers k slots)) ∙ (before ∙ ap (range_from 0) (sym e)))
    ]

pub batch_of-slots :
    (consumer : ℕ) (destination : Destination) (items : List WorkItem)
    → batch_slots (batch_of consumer destination items) ≡ map item_slot items
unfolding batch_of
batch_of-slots consumer evaluate items = refl
batch_of-slots consumer (write drop) [] = refl
batch_of-slots consumer (write drop) (item ∷ items) =
    unfold passed_completion in
    ap (λ s. item_slot item ∷ s) (batch_of-slots consumer (write drop) items)

-- A new admission numbers from 0.
pub new-AreNumbered : (partitions : List ℕ) (limit : ℕ) → AreNumbered (new partitions limit) []
new-AreNumbered partitions limit k = elim (Option-cases (get k (new partitions limit).partitions)) [
  | inl f ↦ ap (λ o. range_from 0 (next_of o)) (sym f)
  | inr (state, f) ↦
      let e : next_number k (new partitions limit) ≡ 0 =
        ap next_of f ∙ new-next_sequence partitions limit k state f in
      ap (range_from 0) (sym e)
]
