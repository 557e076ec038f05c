-- ===== src/Orderer/Partitions.antt =====
-- The completions of one partition among those of all (src/runtime/state.rs).
use jkq.Prelude.{
  ◌==◌, if◌then◌else◌, Bool-cases, length, get_elem?, All, ℕ, zero, suc, ◌+◌, ◌<◌, ◌≡◌, refl, ap,
  ◌∙◌, ◌≢◌, inl, inr, some, List, [], ◌∷◌, ◌++◌, append-nil, arith,
}
use jkq.Orderer.Frontier.{first}
use native.Mathlib.Nat.{zero-add, suc-add}
use jkq.Records.{Completion}

-- The completions of partition `p`.
unfoldable pub of_partition : ℕ → List Completion → List Completion
of_partition p [] = []
of_partition p (c ∷ cs) =
    let rest = of_partition p cs in if c.partition == p then c ∷ rest else rest

pub of-append :
    (p : ℕ) (xs ys : List Completion)
    → of_partition p (xs ++ ys) ≡ of_partition p xs ++ of_partition p ys
unfolding of_partition
of-append p [] ys = refl
of-append p (x ∷ xs) ys = ground (arith, of-append p xs ys)

abbrev pub AllOf : ℕ → List Completion → Type 0
AllOf p = All (λ c. c.partition ≡ p)

pub of-AllOf : (p : ℕ) (cs : List Completion) → AllOf p (of_partition p cs)
unfolding of_partition
of-AllOf p [] = tt
of-AllOf p (c ∷ cs) = elim (Bool-cases (c.partition == p)) [
  | inl e ↦ rw e (ground arith, of-AllOf p cs)
  | inr e ↦ rw e (of-AllOf p cs)
]

pub of_same : (p : ℕ) (cs : List Completion) → AllOf p cs → of_partition p cs ≡ cs
unfolding of_partition
of_same p [] h = refl
of_same p (c ∷ cs) h = ground (arith, of_same p cs h.1)

pub of_other : (p q : ℕ) (cs : List Completion) → AllOf p cs → p ≢ q → of_partition q cs ≡ []
unfolding of_partition
of_other p q [] h ne = refl
of_other p q (c ∷ cs) h ne = ground (arith, of_other p q cs h.1)

pub All-of {κ} :
    (P : Completion → Type κ) (p : ℕ) (cs : List Completion) → All P cs → All P (of_partition p cs)
unfolding of_partition
All-of P p [] h = tt
All-of P p (c ∷ cs) h = elim (Bool-cases (c.partition == p)) [
  | inl e ↦ rw e (h.0, All-of P p cs h.1)
  | inr e ↦ rw e (All-of P p cs h.1)
]

pub first-AllOf :
    (p k : ℕ) (cs : List Completion) (c : Completion)
    → AllOf p cs
    → first k cs ≡ some c
    → c.partition ≡ p
first-AllOf p k [] c h e = cc
first-AllOf p k (x ∷ cs) c h e = ground (arith, first-AllOf p k cs c h.1)

pub AllOf-of_get :
    (p : ℕ) (cs : List Completion)
    → ((k : ℕ) (c : Completion) → get_elem? cs k ≡ some c → c.partition ≡ p)
    → AllOf p cs
AllOf-of_get p [] h = tt
AllOf-of_get p (c ∷ cs) h = (h 0 c refl, AllOf-of_get p cs (λ k. h (suc k)))

pub get_elem?-append_right {ℓ} :
    {A : Type ℓ} (xs ys : List A) (k : ℕ) → get_elem? (xs ++ ys) (length xs + k) ≡ get_elem? ys k
get_elem?-append_right [] ys k = rw zero-add refl
get_elem?-append_right (x ∷ xs) ys k = rw suc-add (get_elem?-append_right xs ys k)

pub get_elem?-lt {ℓ} :
    {A : Type ℓ} (xs : List A) (k : ℕ) (x : A) → get_elem? xs k ≡ some x → k < length xs
get_elem?-lt [] k x h = cc
get_elem?-lt (y ∷ xs) zero x h = omega arith
get_elem?-lt (y ∷ xs) (suc k) x h = omega (arith, get_elem?-lt xs k x h)

pub of-concat_same :
    (c : Completion) (log : List Completion)
    → of_partition c.partition (log ++ c ∷ []) ≡ of_partition c.partition log ++ c ∷ []
of-concat_same c log =
    of-append c.partition log (c ∷ [])
    ∙ ap (◌++◌ (of_partition c.partition log)) (of_same c.partition (c ∷ []) (refl, tt))

pub of-concat_other :
    (c : Completion) (q : ℕ) (log : List Completion)
    → c.partition ≢ q
    → of_partition q (log ++ c ∷ []) ≡ of_partition q log
of-concat_other c q log h =
    of-append q log (c ∷ [])
    ∙ ap (◌++◌ (of_partition q log)) (of_other c.partition q (c ∷ []) (refl, tt) h)
    ∙ append-nil (of_partition q log)
