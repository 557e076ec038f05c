-- ===== src/Runtime/Writing/Leaving.antt =====
-- Which completions one arrival at the writer of src/runtime.rs releases.
use jkq.Prelude.{
  sum_by, sum_by-append, ok, err, Result-cases, ℕ, ◌+◌, ◌≡◌, refl, sym, ap, subst, inl, inr, Bool,
  true, false, List, [], ◌∷◌, ◌++◌, append_assoc, arith,
}
use jkq.Records.{Completion}
use jkq.Orderer.{Orderer, insert_completion}
use jkq.Orderer.Conservation.{IsOrdered, insert-Kept, orderer_waits, Kept}

-- The completions that one arrival releases, and the orderer after it.
abbrev pub leaving : Bool → Orderer → Completion → List Completion × Orderer
leaving false o c = (c ∷ [], o)
leaving true o c = elim (insert_completion o c []) [
  | ok (o', ready) ↦ (ready, o')
  | err (e, refused) ↦ (refused ∷ [], o)
]

abbrev pub all_leaving : Bool → Orderer → List Completion → List Completion × Orderer
all_leaving ordered o [] = ([], o)
all_leaving ordered o (c ∷ cs) =
    let (left_now, o') = leaving ordered o c in
    let (rest, o'') = all_leaving ordered o' cs in (left_now ++ rest, o'')

pub all_leaving-append :
    (ordered : Bool) (o : Orderer) (cs ds : List Completion)
    → all_leaving ordered o (cs ++ ds) ≡ (
        let (left_first, o') = all_leaving ordered o cs in
        let (left_second, o'') = all_leaving ordered o' ds in (left_first ++ left_second, o''))
all_leaving-append ordered o [] ds = refl
all_leaving-append ordered o (c ∷ cs) ds =
    let (now, o') = leaving ordered o c in
    let (later, o'') = all_leaving ordered o' cs in
    rw (all_leaving-append ordered o' cs ds) (
      ap (λ l. (l, (all_leaving ordered o'' ds).1))
        (sym (append_assoc now later (all_leaving ordered o'' ds).0)))

module _ (f : Completion → ℕ) where
  -- What a step keeps: the order, and the measure of what has left and what waits.
  abbrev pub Conserves : Orderer → ℕ → List Completion × Orderer → Type 0
  Conserves o arrived (left_now, o') =
      IsOrdered o' × (sum_by f left_now + orderer_waits f o' ≡ orderer_waits f o + arrived)

  leaving-Conserves :
      (ordered : Bool) (o : Orderer) (c : Completion)
      → IsOrdered o
      → Conserves o (f c) (leaving ordered o c)
  leaving-Conserves false o c h = (h, omega arith)
  leaving-Conserves true o c h = elim (Result-cases (insert_completion o c [])) [
    | inl ((e, c'), x) ↦
        let same = subst (Kept f o c) x (insert-Kept f o c h) in
        rw (x, leaving, Conserves) (h, omega (arith, ap f same))
    | inr ((o', ready), x) ↦
        let kept = subst (Kept f o c) x (insert-Kept f o c h) in rw (x, leaving, Conserves) kept
  ]

  pub all_leaving-Conserves :
      (ordered : Bool) (o : Orderer) (cs : List Completion)
      → IsOrdered o
      → Conserves o (sum_by f cs) (all_leaving ordered o cs)
  all_leaving-Conserves ordered o [] h = (h, omega arith)
  all_leaving-Conserves ordered o (c ∷ cs) h =
      let (left_now, o') = leaving ordered o c in
      let (h', now) = leaving-Conserves ordered o c h in
      let (h'', later) = all_leaving-Conserves ordered o' cs h' in
      (h'', omega (arith, now, later, sum_by-append f left_now (all_leaving ordered o' cs).0))
