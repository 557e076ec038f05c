-- ===== src/Map/Order.antt =====
-- The keys of a `BTreeMap` ascend, so an entry is there once: sums over the values follow writes.
use jkq.Prelude.{
  ltb, ◌==◌, Bool-cases, sum_by, All, ℕ, ◌+◌, ◌≤◌, ◌<◌, ◌≡◌, refl, subst, inl, inr, Option, none,
  some, List, [], ◌∷◌, arith,
}
use jkq.Map.{update, get, insert, remove, values}

-- The measure of an entry that may be missing.
abbrev pub value_or_zero {κ} : {A : Type κ} → (A → ℕ) → Option A → ℕ
value_or_zero f none = 0
value_or_zero f (some v) = f v

module _ {ℓ} {V : Type ℓ} where
  abbrev pub Above : ℕ → List (ℕ × V) → Type 0
  Above k [] = Unit {0}
  Above k ((j, v) ∷ m) = (k < j) × Above k m

  abbrev pub IsAscending : List (ℕ × V) → Type 0
  IsAscending [] = Unit {0}
  IsAscending ((k, v) ∷ m) = Above k m × IsAscending m

  Above-mono : (j k : ℕ) (m : List (ℕ × V)) → j ≤ k → Above k m → Above j m
  Above-mono j k [] h a = tt
  Above-mono j k ((i, v) ∷ m) h a = (omega arith, Above-mono j k m h a.1)

  pub get-Above : (j k : ℕ) (m : List (ℕ × V)) → j ≤ k → Above k m → get j m ≡ none
  unfolding get
  get-Above j k [] h a = refl
  get-Above j k ((i, v) ∷ m) h a = ground (arith, get-Above j k m h a.1)

  Above-insert : (j k : ℕ) (v : V) (m : List (ℕ × V)) → j < k → Above j m → Above j (insert k v m)
  unfolding insert
  Above-insert j k v [] h a = (h, tt)
  Above-insert j k v ((i, w) ∷ m) h a = ground (arith, Above-insert j k v m h a.1)

  pub insert-IsAscending :
      (k : ℕ) (v : V) (m : List (ℕ × V)) → IsAscending m → IsAscending (insert k v m)
  unfolding insert
  insert-IsAscending k v [] a = (tt, tt)
  insert-IsAscending k v ((i, w) ∷ m) a =
      ground (arith, insert-IsAscending k v m a.1, Above-insert i k v m, Above-mono k i m)

  Above-remove : (j k : ℕ) (m : List (ℕ × V)) → Above j m → Above j (remove k m)
  unfolding remove
  Above-remove j k [] a = tt
  Above-remove j k ((i, w) ∷ m) a = ground (arith, Above-remove j k m a.1)

  pub remove-IsAscending : (k : ℕ) (m : List (ℕ × V)) → IsAscending m → IsAscending (remove k m)
  unfolding remove
  remove-IsAscending k [] a = tt
  remove-IsAscending k ((i, w) ∷ m) a =
      ground (arith, remove-IsAscending k m a.1, Above-remove i k m a.0)

  update-Above : (j k : ℕ) (v : V) (m : List (ℕ × V)) → Above j m → Above j (update k v m)
  unfolding update
  update-Above j k v [] a = tt
  update-Above j k v ((i, w) ∷ m) a = ground (arith, update-Above j k v m a.1)

  pub update-IsAscending :
      (k : ℕ) (v : V) (m : List (ℕ × V)) → IsAscending m → IsAscending (update k v m)
  unfolding update
  update-IsAscending k v [] a = tt
  update-IsAscending k v ((i, w) ∷ m) a =
      ground (arith, update-IsAscending k v m a.1, update-Above i k v m a.0)

  remove-Above : (k : ℕ) (m : List (ℕ × V)) → Above k m → remove k m ≡ m
  unfolding remove
  remove-Above k [] a = refl
  remove-Above k ((i, w) ∷ m) a = ground (arith, remove-Above k m a.1)

  pub sum_by-values-remove :
      (f : V → ℕ) (k : ℕ) (m : List (ℕ × V)) (v : V)
      → IsAscending m
      → get k m ≡ some v
      → sum_by f (values (remove k m)) + f v ≡ sum_by f (values m)
  unfolding get remove
  sum_by-values-remove f k [] v a e = ground arith
  sum_by-values-remove f k ((i, w) ∷ m) v a e = elim (Bool-cases (i == k)) [
    | inl hit ↦ rw hit (ground (arith, hit, remove-Above k m))
    | inr miss ↦ rw miss (ground (arith, miss, sum_by-values-remove f k m v a.1))
  ]

  -- A write replaces what was there, if anything was.
  pub sum_by-values-insert :
      (f : V → ℕ) (k : ℕ) (v : V) (m : List (ℕ × V))
      → IsAscending m
      → sum_by f (values (insert k v m)) + value_or_zero f (get k m) ≡ sum_by f (values m) + f v
  unfolding get insert
  sum_by-values-insert f k v [] a = omega arith
  sum_by-values-insert f k v ((i, w) ∷ m) a =
      ground (arith, sum_by-values-insert f k v m a.1, get-Above k i m)

  pub All-insert {κ} :
      (P : V → Type κ) (k : ℕ) (v : V) (m : List (ℕ × V))
      → P v
      → All P (values m)
      → All P (values (insert k v m))
  unfolding insert
  All-insert P k v [] h a = (h, tt)
  All-insert P k v ((i, w) ∷ m) h a = elim (Bool-cases (ltb k i)) [
    | inl e ↦ rw e (h, a)
    | inr e ↦ elim (Bool-cases (i == k)) [
      | inl x ↦ rw (e, x) (h, a.1)
      | inr x ↦ rw (e, x) (a.0, All-insert P k v m h a.1)
    ]
  ]

  pub All-get {κ} :
      (P : V → Type κ) (k : ℕ) (m : List (ℕ × V)) (v : V)
      → All P (values m)
      → get k m ≡ some v
      → P v
  unfolding get
  All-get P k [] v a e = cc
  All-get P k ((i, w) ∷ m) v a e = elim (Bool-cases (i == k)) [
    | inl x ↦ let same : w ≡ v = ground (arith, x) in subst P same a.0
    | inr x ↦ All-get P k m v a.1 (ground (arith, x))
  ]
