-- ===== src/Runtime/Writing/Sends.antt =====
-- The releases that the writer of src/runtime.rs sends, measured and told apart by consumer.
use jkq.Prelude.{
  ltb, leb, ◌==◌, if◌then◌else◌, sum_by, is_empty, All, sum_by-append, ℕ, zero, suc, ◌+◌, ◌<◌, ◌≡◌,
  refl, sym, true, ◌&&◌, List, [], ◌∷◌, ◌++◌, map, arith,
}
use jkq.Records.{Release, Completion}
use jkq.Runtime.Writing.{Sends, CompletionBatch, release_of, release_pending, of_consumer, send}

abbrev pub all_items : List CompletionBatch → List Completion
all_items [] = []
all_items (b ∷ batches) = b.items ++ all_items batches

module _ (g : Release → ℕ) where
  abbrev pub released : Sends → ℕ
  released sends = sum_by (λ s. sum_by g s.1) sends

  abbrev pub release_measure : Completion → ℕ
  release_measure c = g (release_of c)

  pub sum_by-release_of :
      (cs : List Completion) → sum_by g (map release_of cs) ≡ sum_by release_measure cs
  sum_by-release_of [] = refl
  sum_by-release_of (c ∷ cs) = omega (arith, sum_by-release_of cs)

  pub released-send : (k : ℕ) (rs : List Release) → released (send k rs) ≡ sum_by g rs
  released-send k [] = refl
  released-send k (r ∷ rs) = omega arith

  -- The completions of the consumers from `k` to before `k + n`.
  abbrev within : ℕ → ℕ → Completion → ℕ
  within k n c = if leb k c.consumer && ltb c.consumer (k + n) then release_measure c else 0

  abbrev of_one : ℕ → Completion → ℕ
  of_one k c = if c.consumer == k then release_measure c else 0

  of_consumer-sum :
      (k : ℕ) (cs : List Completion)
      → sum_by release_measure (of_consumer k cs) ≡ sum_by (of_one k) cs
  of_consumer-sum k [] = refl
  of_consumer-sum k (c ∷ cs) = let rest = of_consumer-sum k cs in ground arith

  within-step :
      (k n : ℕ) (cs : List Completion)
      → sum_by (within k (suc n)) cs ≡ sum_by (of_one k) cs + sum_by (within (k + 1) n) cs
  within-step k n [] = refl
  within-step k n (c ∷ cs) =
      let rest = within-step k n cs in
      let one : within k (suc n) c ≡ of_one k c + within (k + 1) n c = ground arith in
      omega (arith, rest, one)

  within-nil : (k : ℕ) (cs : List Completion) → sum_by (within k 0) cs ≡ 0
  within-nil k [] = refl
  within-nil k (c ∷ cs) =
      let rest = within-nil k cs in
      let one : within k 0 c ≡ 0 = ground arith in omega (arith, rest, one)

  pub release_pending-released :
      (n k : ℕ) (cs : List Completion) → released (release_pending n k cs) ≡ sum_by (within k n) cs
  unfolding release_pending
  release_pending-released zero k cs = sym (within-nil k cs)
  release_pending-released (suc n) k cs = omega (
    arith,
    release_pending-released n (k + 1) cs,
    within-step k n cs,
    of_consumer-sum k cs,
    sum_by-release_of (of_consumer k cs),
    released-send k (map release_of (of_consumer k cs)),
    sum_by-append (λ s. sum_by g s.1) (send k (map release_of (of_consumer k cs)))
        (release_pending n (k + 1) cs),
  )

-- One for a completion whose consumer is not below `n`.
abbrev pub outside : ℕ → Completion → ℕ
outside n c = if ltb c.consumer n then 0 else 1

pub outside-All :
    (n : ℕ) (cs : List Completion) → All (λ c. c.consumer < n) cs → sum_by (outside n) cs ≡ 0
outside-All n [] h = refl
outside-All n (c ∷ cs) (a, h) =
    let one : outside n c ≡ 0 = ground arith in omega (arith, one, outside-All n cs h)

pub within-whole :
    (g : Release → ℕ) (n : ℕ) (cs : List Completion)
    → sum_by (outside n) cs ≡ 0
    → sum_by (within g 0 n) cs ≡ sum_by (release_measure g) cs
within-whole g n [] h = refl
within-whole g n (c ∷ cs) h =
    let inside : outside n c ≡ 0 = omega (arith, h) in
    let one : within g 0 n c ≡ release_measure g c = ground arith in
    omega (arith, one, within-whole g n cs (omega (arith, h)))

pub is_empty-nil : {A : Type 0} (l : List A) → is_empty l ≡ true → l ≡ []
is_empty-nil [] h = refl
is_empty-nil (x ∷ xs) h = absurd (ground arith)
