-- ===== src/Kafka/Boundaries/Expectations.antt =====
-- Steps of `prepare` (src/kafka.rs) of which no `expect` fails.
use jkq.Prelude.{
  is_some, Result, ok, err, ◌>>=◌, map_err, ℕ, ◌≡◌, refl, ap, ◌∙◌, Bool, true, false, ◌||◌, Option,
  none, some, List, [], ◌∷◌, arith, bind-ok,
}
use jkq.Cli.Partitions.Distinct.{occurs}
use jkq.Kafka.Boundaries.{
  expect, PrepareError, collect_by, expectation_failed, unresolved_boundaries, assignment_failed,
}
use jkq.Kafka.Shards
use jkq.Map.{get, insert, get-insert}

-- A failed expectation, or the error for boundaries that are not resolved, which the check of the
-- watermarks and the assignment both have.
abbrev pub is_internal : PrepareError → Bool
is_internal expectation_failed = true
is_internal unresolved_boundaries = true
is_internal (assignment_failed Shards.unresolved_boundaries) = true
is_internal _ = false

abbrev pub fails_inside : {A : Type 0} → Result PrepareError A → Bool
fails_inside (ok a) = false
fails_inside (err e) = is_internal e

abbrev pub IsSafe : {A : Type 0} → Result PrepareError A → Type 0
IsSafe r = fails_inside r ≡ false

module _ {A B : Type 0} where
  pub bind-IsSafe :
      (r : Result PrepareError A) (f : A → Result PrepareError B)
      → IsSafe r
      → ((a : A) → r ≡ ok a → IsSafe (f a))
      → IsSafe (r >>= f)
  bind-IsSafe (ok a) f safe next = next a refl
  bind-IsSafe (err e) f safe next = safe

module _ {A E : Type 0} where
  pub map_err-IsSafe :
      (g : E → PrepareError) (r : Result E A)
      → ((e : E) → is_internal (g e) ≡ false)
      → IsSafe (map_err g r)
  map_err-IsSafe g (ok a) h = refl
  map_err-IsSafe g (err e) h = h e

module _ {V : Type 0} where
  -- A value for every partition.
  abbrev pub Has : List ℕ → List (ℕ × V) → Type 0
  Has ps m = (k : ℕ) → occurs k ps ≡ true → is_some (get k m) ≡ true

  pub collect_by-IsSafe :
      (f : ℕ → Result PrepareError V) (ps : List ℕ) (m : List (ℕ × V))
      → ((k : ℕ) → occurs k ps ≡ true → IsSafe (f k))
      → IsSafe (collect_by f ps m)
  unfolding collect_by
  collect_by-IsSafe f [] m h = refl
  collect_by-IsSafe f (p ∷ ps) m h =
      bind-IsSafe (f p) (λ v. collect_by f ps (insert p v m)) (h p (ground arith))
        (λ v e. collect_by-IsSafe f ps (insert p v m) (λ k g. h k (ground arith)))

  pub collect_by-Has :
      (f : ℕ → Result PrepareError V) (ps : List ℕ) (m m' : List (ℕ × V)) (k : ℕ)
      → collect_by f ps m ≡ ok m'
      → (is_some (get k m) || occurs k ps) ≡ true
      → is_some (get k m') ≡ true
  unfolding collect_by
  collect_by-Has f [] m m' k h g = ground arith
  collect_by-Has f (p ∷ ps) m m' k h g =
      let (v, (e, later)) = bind-ok (f p) (λ v. collect_by f ps (insert p v m)) m' h in
      let written = get-insert k p v m in
      collect_by-Has f ps (insert p v m) m' k later (ground arith)

  -- What all collected values satisfy.
  pub collect_by-values :
      (P : V → Bool) (f : ℕ → Result PrepareError V) (ps : List ℕ) (m m' : List (ℕ × V))
      → ((k : ℕ) (v : V) → f k ≡ ok v → P v ≡ true)
      → ((k : ℕ) (v : V) → get k m ≡ some v → P v ≡ true)
      → collect_by f ps m ≡ ok m'
      → (k : ℕ) (v : V) → get k m' ≡ some v
      → P v ≡ true
  unfolding collect_by
  collect_by-values P f [] m m' made before h k v g =
      let same : m ≡ m' = ground arith in before k v (ap (get k) same ∙ g)
  collect_by-values P f (p ∷ ps) m m' made before h k v g =
      let (w, (e, later)) = bind-ok (f p) (λ v. collect_by f ps (insert p v m)) m' h in
      collect_by-values P f ps (insert p w m) m' made
        (λ j u i. ground (arith, get-insert j p w m, made p w, before j u)) later k v g

  pub expect-IsSafe : (o : Option V) → is_some o ≡ true → IsSafe (expect o)
  expect-IsSafe (some v) h = refl
  expect-IsSafe none h = absurd (ground arith)
