-- ===== src/Orderer.antt =====
-- `Orderer` of src/runtime/state.rs: completions of one partition leave in sequence order. The
-- counter is a `u64`; `ready` is what a call pushes behind the entries that are there.
pub mod Frontier
pub mod Partitions
pub mod Delivery
pub mod Conservation
mod Tests
use jkq.Prelude.{
  ltb, ◌==◌, if◌then◌else◌, is_some, length, Result, ok, err, ◌>>=◌, ◌>>◌, word_mod, ℕ, zero, suc,
  ◌+◌, ◌%◌, ◌||◌, Option, none, some, List, [], ◌∷◌, ◌++◌,
}
use jkq.Map.{get, insert, remove, values}
use jkq.Records.{Completion}

pub record PartitionOrder : Type 0 where
  pub next_sequence : ℕ
  pub pending : List (ℕ × Completion)

abbrev pub Orderer : Type 0
Orderer = List (ℕ × PartitionOrder)

abbrev pub default : Orderer
default = []

abbrev pub fresh_order : PartitionOrder
fresh_order = record { next_sequence = 0; pending = [] }

pub data Error : Type 0 where
  duplicate : ℕ → ℕ → Error

-- `next_sequence += 1`.
unfoldable pub successor : ℕ → ℕ
successor n = (n + 1) % word_mod

-- The `while let` loop. Each round takes an entry out of `pending`, so its length is fuel enough.
unfoldable pub drain : ℕ → PartitionOrder → List Completion → PartitionOrder × List Completion
drain zero s ready = (s, ready)
drain (suc fuel) s ready = elim (get s.next_sequence s.pending) [
  | none ↦ (s, ready)
  | some c ↦
      drain fuel
        (record {
          next_sequence = successor s.next_sequence;
          pending = remove s.next_sequence s.pending;
        })
        (ready ++ c ∷ [])
]

-- The body of `insert`, on the state of the completion's partition.
unfoldable pub arrive :
    PartitionOrder
    → Completion
    → List Completion
    → Result (Error × Completion) (PartitionOrder × List Completion)
unfolding drain
arrive s c ready =
    if ltb c.sequence s.next_sequence || is_some (get c.sequence s.pending)
    then err (duplicate c.partition c.sequence, c)
    else if c.sequence == s.next_sequence
    then ok (
        drain (length s.pending) (record s { next_sequence = successor s.next_sequence })
          (ready ++ c ∷ []))
    else ok (record s { pending = insert c.sequence c s.pending }, ready)

abbrev pub or_fresh : Option PartitionOrder → PartitionOrder
or_fresh none = fresh_order
or_fresh (some s) = s

-- `entry` puts a fresh state in the map where there is none.
unfoldable pub insert_completion :
    Orderer → Completion → List Completion → Result (Error × Completion) (Orderer × List Completion)
insert_completion o c ready = do
  (s, ready') ← arrive (or_fresh (get c.partition o)) c ready
  ok (insert c.partition s o, ready')

abbrev emptied : Orderer → Orderer
emptied [] = []
emptied ((p, s) ∷ o) = (p, record s { pending = [] }) ∷ emptied o

abbrev pub all_pending : Orderer → List Completion
all_pending [] = []
all_pending ((p, s) ∷ o) = values s.pending ++ all_pending o

unfoldable pub take_pending : Orderer → Orderer × List Completion
take_pending o = (emptied o, all_pending o)
