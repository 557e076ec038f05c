-- ===== src/Cli/Partitions.antt =====
-- `parse_partitions` and `parse_partition` of src/cli.rs. An accepted partition is a number; `seen` is
-- a `BTreeSet`, as a map to nothing.
pub mod Distinct
pub mod Selects
pub mod Accepted
use jkq.Prelude.{
  ltb, ◌==◌, if◌then◌else◌, is_some, Bytes, length, range_from, Result, ok, err, ◌>>=◌, ◌>>◌,
  fail_if, i32_max, checked_add, ℕ, ◌+◌, ◌-◌, Bool, true, Option, none, some, List, [], ◌∷◌, ◌++◌,
}
use jkq.Text.{split, trim, split_once}
use jkq.Text.Integers.{parse_signed}
use jkq.Map.{get, insert, values}
use jkq.Int.{pos, negsuc}
use jkq.Cli.{max_assigned_partitions}

pub data PartitionError : Type 0 where
  empty_entry : PartitionError
  not_an_integer : Bytes → PartitionError
  negative_partition : ℕ → PartitionError
  descending_range : Bytes → PartitionError
  too_many_partitions : PartitionError
  duplicate_partition : ℕ → PartitionError

unfoldable pub parse_partition : Bytes → Result PartitionError ℕ
unfolding parse_signed
parse_partition value = elim (parse_signed i32_max value) [
  | none ↦ err (not_an_integer value)
  | some (pos n) ↦ ok n
  | some (negsuc n) ↦ err (negative_partition (n + 1))
]

-- The first and the last partition of a selection.
unfoldable pub parse_selection : Bytes → Result PartitionError (ℕ × ℕ)
unfolding parse_partition split_once
parse_selection [] = err empty_entry
parse_selection (b ∷ s) =
    if b == b'-'
    then (parse_partition (b ∷ s) >>= λ partition. ok (partition, partition))
    else elim (split_once b'-' (b ∷ s)) [
      | some (low, high) ↦ (do
        start ← parse_partition low
        end ← parse_partition high
        if ltb end start then err (descending_range (b ∷ s)) else ok (start, end))
      | none ↦ (parse_partition (b ∷ s) >>= λ partition. ok (partition, partition))
    ]

-- `partitions` and `seen`.
abbrev pub Selected : Type 0
Selected = List ℕ × List (ℕ × Unit {0})

unfoldable pub add_partitions : List ℕ → Selected → Result PartitionError Selected
unfolding get insert
add_partitions [] selected = ok selected
add_partitions (partition ∷ more) (partitions, seen) =
    let rest = add_partitions more (partitions ++ partition ∷ [], insert partition tt seen) in
    if is_some (get partition seen) then err (duplicate_partition partition) else rest

abbrev pub exceeds_limit : Option ℕ → Bool
exceeds_limit none = true
exceeds_limit (some total) = ltb max_assigned_partitions total

unfoldable pub add_selection : Bytes → Selected → Result PartitionError Selected
unfolding parse_selection add_partitions trim
add_selection text (partitions, seen) = do
  (start, end) ← parse_selection (trim text)
  let count : ℕ = end - start + 1
  fail_if (exceeds_limit (checked_add (length partitions) count)) too_many_partitions
  add_partitions (range_from start count) (partitions, seen)

unfoldable pub add_selections : List Bytes → Selected → Result PartitionError Selected
unfolding add_selection
add_selections [] selected = ok selected
add_selections (text ∷ texts) selected = add_selection text selected >>= add_selections texts

unfoldable pub add_values : List Bytes → Selected → Result PartitionError Selected
unfolding add_selections split
add_values [] selected = ok selected
add_values (value ∷ more) selected = add_selections (split b',' value) selected >>= add_values more

unfoldable pub parse_partitions : List Bytes → Result PartitionError (List ℕ)
unfolding add_values
parse_partitions values = add_values values ([], []) >>= λ (partitions, seen). ok partitions
