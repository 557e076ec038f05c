-- ===== src/Map.antt =====
-- `BTreeMap` with keys `i32` and `u64`, in key order (state.rs, kafka.rs). A partition number is
-- not negative, so both kinds of key are numbers.
pub mod Order
use jkq.Prelude.{
  ltb, ◌==◌, if◌then◌else◌, is_some, length, sum_by, ℕ, ◌+◌, ◌≤◌, ◌<◌, ◌≡◌, refl, Option, none,
  some, List, [], ◌∷◌, arith,
}

module _ {ℓ} {V : Type ℓ} where
  unfoldable pub get : ℕ → List (ℕ × V) → Option V
  get k [] = none
  get k ((j, v) ∷ m) = if j == k then some v else get k m

  unfoldable pub insert : ℕ → V → List (ℕ × V) → List (ℕ × V)
  insert k v [] = (k, v) ∷ []
  insert k v ((j, w) ∷ m) =
      if ltb k j then (k, v) ∷ (j, w) ∷ m else if j == k then (k, v) ∷ m else (j, w) ∷ insert k v m

  -- A write through `get_mut`: nothing happens where the key is missing.
  unfoldable pub update : ℕ → V → List (ℕ × V) → List (ℕ × V)
  update k v [] = []
  update k v ((j, w) ∷ m) = if j == k then (j, v) ∷ m else (j, w) ∷ update k v m

  unfoldable pub remove : ℕ → List (ℕ × V) → List (ℕ × V)
  remove k [] = []
  remove k ((j, v) ∷ m) = let rest = remove k m in if j == k then rest else (j, v) ∷ rest

  abbrev pub keys : List (ℕ × V) → List ℕ
  keys [] = []
  keys ((k, v) ∷ m) = k ∷ keys m

  abbrev pub values : List (ℕ × V) → List V
  values [] = []
  values ((k, v) ∷ m) = v ∷ values m

  pub get-insert :
      (j k : ℕ) (v : V) (m : List (ℕ × V))
      → get j (insert k v m) ≡ (if k == j then some v else get j m)
  unfolding get insert
  get-insert j k v [] = refl
  get-insert j k v ((i, w) ∷ m) = ground (arith, get-insert j k v m)

  pub get-remove :
      (j k : ℕ) (m : List (ℕ × V)) → get j (remove k m) ≡ (if k == j then none else get j m)
  unfolding get remove
  get-remove j k [] = ground arith
  get-remove j k ((i, w) ∷ m) = ground (arith, get-remove j k m)

  pub get-update :
      (j k : ℕ) (v : V) (m : List (ℕ × V))
      → get j (update k v m)
        ≡ (if k == j then (if is_some (get k m) then some v else none) else get j m)
  unfolding get update
  get-update j k v [] = ground arith
  get-update j k v ((i, w) ∷ m) = ground (arith, get-update j k v m)

  pub length-insert_new :
      (k : ℕ) (v : V) (m : List (ℕ × V)) → get k m ≡ none → length (insert k v m) ≡ length m + 1
  unfolding get insert
  length-insert_new k v [] h = omega arith
  length-insert_new k v ((i, w) ∷ m) h = ground (arith, length-insert_new k v m)

  pub length-remove-le : (k : ℕ) (m : List (ℕ × V)) → length (remove k m) ≤ length m
  unfolding remove
  length-remove-le k [] = omega arith
  length-remove-le k ((i, w) ∷ m) = ground (arith, length-remove-le k m)

  pub length-remove-lt :
      (k : ℕ) (m : List (ℕ × V)) {v : V} → get k m ≡ some v → length (remove k m) < length m
  unfolding get remove
  length-remove-lt k [] h = ground arith
  length-remove-lt k ((i, w) ∷ m) {v} h =
      ground (arith, length-remove-le k m, length-remove-lt k m {v = v})

  -- A write replaces one summand.
  pub sum_by-update :
      (f : ℕ × V → ℕ) (g : V → ℕ) (k : ℕ) (v : V) (m : List (ℕ × V)) {w : V}
      → ((e : ℕ × V) → f e ≡ g e.1)
      → get k m ≡ some w
      → sum_by f (update k v m) + g w ≡ sum_by f m + g v
  unfolding get update
  sum_by-update f g k v [] pt h = ground arith
  sum_by-update f g k v ((i, x) ∷ m) {w} pt h =
      ground (arith, sum_by-update f g k v m {w = w} pt, pt (i, x), pt (i, v))
