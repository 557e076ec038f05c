-- ===== src/Cli/Partitions/Distinct.antt =====
-- Partitions that are all different, and the set of those that were seen (src/cli.rs).
use jkq.Prelude.{
  ◌==◌, Bool-cases, is_some, any, ok, ℕ, ◌≡◌, refl, sym, ap, ◌∙◌, subst, inl, inr, Bool, false,
  ◌||◌, List, [], ◌∷◌, ◌++◌, append-nil, append_assoc, arith,
}
use jkq.Map.{get, insert, get-insert}
use jkq.Cli.Partitions.{add_partitions, Selected}

abbrev pub occurs : ℕ → List ℕ → Bool
occurs k = any (λ y. y == k)

abbrev pub IsDistinct : List ℕ → Type 0
IsDistinct [] = Unit
IsDistinct (x ∷ xs) = (occurs x xs ≡ false) × IsDistinct xs

occurs-append : (k : ℕ) (xs ys : List ℕ) → occurs k (xs ++ ys) ≡ (occurs k xs || occurs k ys)
occurs-append k [] ys = refl
occurs-append k (x ∷ xs) ys = ground (arith, occurs-append k xs ys)

IsDistinct-snoc :
    (xs : List ℕ) (x : ℕ) → IsDistinct xs → occurs x xs ≡ false → IsDistinct (xs ++ x ∷ [])
IsDistinct-snoc [] x d h = (refl, tt)
IsDistinct-snoc (y ∷ ys) x (d, ds) h =
    let first : occurs y (ys ++ x ∷ []) ≡ false = ground (arith, occurs-append y ys (x ∷ [])) in
    let rest : occurs x ys ≡ false = ground arith in (first, IsDistinct-snoc ys x ds rest)

IsDistinct-middle :
    (xs : List ℕ) (x : ℕ) (ys : List ℕ) → IsDistinct (xs ++ x ∷ ys) → occurs x xs ≡ false
IsDistinct-middle [] x ys d = refl
IsDistinct-middle (z ∷ xs) x ys (d, ds) =
    ground (arith, occurs-append z xs (x ∷ ys), IsDistinct-middle xs x ys ds)

-- `seen` holds the partitions.
abbrev pub IsSeen : List ℕ → List (ℕ × Unit {0}) → Type 0
IsSeen partitions seen = (k : ℕ) → is_some (get k seen) ≡ occurs k partitions

IsSeen-insert :
    (partitions : List ℕ) (seen : List (ℕ × Unit {0})) (p : ℕ)
    → IsSeen partitions seen
    → IsSeen (partitions ++ p ∷ []) (insert p tt seen)
IsSeen-insert partitions seen p h k =
    ground (arith, get-insert k p tt seen, occurs-append k partitions (p ∷ []), h k)

-- Partitions that are added are new, and different from each other.
pub add_partitions_sound :
    (more partitions : List ℕ) (seen : List (ℕ × Unit {0})) (result : Selected)
    → IsSeen partitions seen
    → IsDistinct partitions
    → add_partitions more (partitions, seen) ≡ ok result
    → (result.0 ≡ partitions ++ more) × (IsDistinct result.0 × IsSeen result.0 result.1)
unfolding add_partitions
add_partitions_sound [] partitions seen result s d h =
    let same : (partitions, seen) ≡ result = ground arith in
    subst (λ r. (r.0 ≡ partitions ++ []) × (IsDistinct r.0 × IsSeen r.0 r.1)) same
      (sym (append-nil partitions), (d, s))
add_partitions_sound (p ∷ more) partitions seen result s d h =
    elim (Bool-cases (is_some (get p seen))) [
      | inl f ↦ absurd (ground arith)
      | inr f ↦
          let new : occurs p partitions ≡ false = sym (s p) ∙ f in
          let later : add_partitions more (partitions ++ p ∷ [], insert p tt seen) ≡ ok result =
            ground arith in
          let (e, rest) =
            add_partitions_sound more (partitions ++ p ∷ []) (insert p tt seen) result
              (IsSeen-insert partitions seen p s) (IsDistinct-snoc partitions p d new) later in
          (e ∙ append_assoc partitions (p ∷ []) more, rest)
    ]

pub add_partitions_complete :
    (more partitions : List ℕ) (seen : List (ℕ × Unit {0}))
    → IsSeen partitions seen
    → IsDistinct (partitions ++ more)
    → (seen' : List (ℕ × Unit {0})) × ((add_partitions more (partitions, seen)
          ≡ ok (partitions ++ more, seen'))
        × IsSeen (partitions ++ more) seen')
unfolding add_partitions
add_partitions_complete [] partitions seen s d = (
  seen,
  (
    ap (λ p. ok (p, seen)) (sym (append-nil partitions)),
    subst (λ p. IsSeen p seen) (sym (append-nil partitions)) s,
  ),
)
add_partitions_complete (p ∷ more) partitions seen s d =
    let new : is_some (get p seen) ≡ false = s p ∙ IsDistinct-middle partitions p more d in
    let (seen', (e, rest)) =
      add_partitions_complete more (partitions ++ p ∷ []) (insert p tt seen)
        (IsSeen-insert partitions seen p s)
        (subst IsDistinct (sym (append_assoc partitions (p ∷ []) more)) d) in
    (
      seen',
      (
        rw (new, add_partitions)
            (e ∙ ap (λ q. ok (q, seen')) (append_assoc partitions (p ∷ []) more)),
        subst (λ q. IsSeen q seen') (append_assoc partitions (p ∷ []) more) rest,
      ),
    )

pub IsDistinct-front : (xs ys : List ℕ) → IsDistinct (xs ++ ys) → IsDistinct xs
IsDistinct-front [] ys d = tt
IsDistinct-front (x ∷ xs) ys (d, ds) =
    (ground (arith, occurs-append x xs ys), IsDistinct-front xs ys ds)
