-- ===== src/Transform/Worker/Match.antt =====
-- The predicates of src/transform/jsonata.rs decide by their first verdict that is not false.
use jkq.Prelude.{
  ltb, ◌==◌, if◌then◌else◌, Bool-cases, length, Result, ok, err, ◌>>=◌, ℕ, zero, suc, ◌+◌, ◌-◌, ◌<◌,
  ◌≡◌, refl, sym, ◌∙◌, subst, ◌⊎◌, inl, inr, Bool, true, false, Option, none, some, arith,
}
use jkq.Records.{drop_predicate, Category, TransformError, Action, drop_record, tombstone_predicate}
use jkq.Transform.Engine.{Engine}
use jkq.Transform.Worker.{predicate, scan, evaluate_predicates, TransformPlan, tombstone_action}

module _ (engine : Engine) where
  open engine use {Input}

  -- The verdict of the predicate at a place among all predicates, the drops first.
  abbrev pub verdict : TransformPlan engine → Input → ℕ → Result TransformError Bool
  verdict plan input n =
      if ltb n (length plan.drops)
      then predicate engine input n drop_predicate n
      else predicate engine input n tombstone_predicate (n - length plan.drops)

  -- At `n` stands the first verdict that is not false.
  abbrev pub IsFirst : (ℕ → Result TransformError Bool) → ℕ → Result TransformError Bool → Type 0
  IsFirst verdicts n v = ((k : ℕ) → k < n → verdicts k ≡ ok false) × (verdicts n ≡ v)

  -- What the verdicts of `count` predicates mean, with the action of each place.
  abbrev pub Decides :
      (ℕ → Result TransformError Bool)
      → ℕ
      → (ℕ → Action)
      → Result TransformError (Option Action)
      → Type 0
  Decides verdicts count actions (ok none) = (k : ℕ) → k < count → verdicts k ≡ ok false
  Decides verdicts count actions (ok (some a)) =
      (n : ℕ) × ((n < count) × (IsFirst verdicts n (ok true) × (a ≡ actions n)))
  Decides verdicts count actions (err e) = (n : ℕ) × ((n < count) × IsFirst verdicts n (err e))

  abbrev pub action_at : TransformPlan engine → ℕ → Action
  action_at plan n = if ltb n (length plan.drops) then drop_record else tombstone_action engine plan

  verdict-cases :
      (v : Result TransformError Bool)
      → ((e : TransformError) × (v ≡ err e)) ⊎ ((v ≡ ok true) ⊎ (v ≡ ok false))
  verdict-cases (err e) = inl (e, refl)
  verdict-cases (ok true) = inr (inl refl)
  verdict-cases (ok false) = inr (inr refl)

  -- One more verdict that is false.
  extend_before :
      (verdicts : ℕ → Result TransformError Bool) (n m : ℕ)
      → m ≡ n + 1
      → ((k : ℕ) → k < n → verdicts k ≡ ok false)
      → verdicts n ≡ ok false
      → (k : ℕ) → k < m
      → verdicts k ≡ ok false
  extend_before verdicts n m e before last k h = elim (Bool-cases (k == n)) [
    | inl f ↦ subst (λ x. verdicts x ≡ ok false) (sym (ground arith)) last
    | inr f ↦ before k (ground arith)
  ]

  scan-Decides :
      (input : Input) (base : ℕ) (c : Category) (a : Action)
      (verdicts : ℕ → Result TransformError Bool) (actions : ℕ → Action) (count index total : ℕ)
      → total ≡ base + (index + count)
      → ((k : ℕ) → k < base + index → verdicts k ≡ ok false)
      → ((k : ℕ) → k < index + count → verdicts (base + k) ≡ predicate engine input (base + k) c k)
      → ((k : ℕ) → k < index + count → actions (base + k) ≡ a)
      → Decides verdicts total actions (scan engine input base c a count index)
  unfolding scan
  scan-Decides input base c a verdicts actions zero index total e before same acts =
      λ k h. before k (ground arith)
  scan-Decides input base c a verdicts actions (suc count) index total e before same acts =
      let rest =
        scan-Decides input base c a verdicts actions count (index + 1) total (ground arith) in
      let verdict_here = same index (ground arith) in
      elim (verdict-cases (predicate engine input (base + index) c index)) [
        | inl (x, f) ↦ rw (f, Decides) (base + index, (ground arith, (before, verdict_here ∙ f)))
        | inr v ↦ elim v [
          | inl f ↦
              rw (f, Decides)
                (
                  base + index,
                  (ground arith, ((before, verdict_here ∙ f), sym (acts index (ground arith)))),
                )
          | inr f ↦
              rw (f, Decides)
                (rest
                  (extend_before verdicts (base + index) (base + (index + 1)) (ground arith) before
                    (verdict_here ∙ f))
                  (λ k h. same k (ground arith)) (λ k h. acts k (ground arith)))
        ]
      ]

  verdict-tombstone :
      (plan : TransformPlan engine) (input : Input) (k : ℕ)
      → verdict plan input (length plan.drops + k)
        ≡ predicate engine input (length plan.drops + k) tombstone_predicate k
  verdict-tombstone plan input k =
      let later : ltb (length plan.drops + k) (length plan.drops) ≡ false = ground arith in
      let place : length plan.drops + k - length plan.drops ≡ k = ground arith in
      rw (later, place) refl

  verdict-drop :
      (plan : TransformPlan engine) (input : Input) (k : ℕ)
      → k < length plan.drops
      → verdict plan input (0 + k) ≡ predicate engine input (0 + k) drop_predicate k
  verdict-drop plan input k h =
      let earlier : ltb (0 + k) (length plan.drops) ≡ true = ground arith in
      let place : 0 + k ≡ k = ground arith in rw earlier rw place refl

  -- The tombstone predicates, after what the drop predicates gave.
  then_tombstones :
      (plan : TransformPlan engine) (input : Input)
      (dropped : Result TransformError (Option Action))
      → Decides (verdict plan input) (length plan.drops) (action_at plan) dropped
      → Decides (verdict plan input) (length plan.drops + length plan.tombstones) (action_at plan) (
          dropped >>= (λ o. elim o [
            | some action ↦ ok (some action)
            | none ↦
                scan engine input
                  (length plan.drops)
                  tombstone_predicate
                  (tombstone_action engine plan)
                  (length plan.tombstones)
                  0
          ]))
  then_tombstones plan input (err e) (n, (h, f)) = (n, (ground arith, f))
  then_tombstones plan input (ok (some a)) (n, (h, f)) = (n, (ground arith, f))
  then_tombstones plan input (ok none) before =
      scan-Decides input (length plan.drops) tombstone_predicate (tombstone_action engine plan)
        (verdict plan input) (action_at plan) (length plan.tombstones) 0
        (length plan.drops + length plan.tombstones) (ground arith) (λ k h. before k (ground arith))
        (λ k h. verdict-tombstone plan input k) (λ k h. ground arith)

  -- Number the predicates from 0, the drop predicates first. evaluate_predicates gives none only
  -- if all verdicts are false; it gives an action only if the first verdict that is not false is
  -- true, and then Drop for a drop predicate and the plan's tombstone action for another; it fails
  -- only with the error of the first verdict that is not false.
  pub evaluate_predicates-Decides :
      (plan : TransformPlan engine) (input : Input)
      → Decides
          (verdict plan input)
          (length plan.drops + length plan.tombstones)
          (action_at plan)
          (evaluate_predicates engine plan input)
  unfolding evaluate_predicates
  evaluate_predicates-Decides plan input =
      then_tombstones plan input
        (scan engine input 0 drop_predicate drop_record (length plan.drops) 0)
        (scan-Decides input 0 drop_predicate drop_record (verdict plan input) (action_at plan)
          (length plan.drops) 0 (length plan.drops) (ground arith) (λ k h. absurd (ground arith))
          (λ k h. verdict-drop plan input k (ground arith)) (λ k h. ground arith))
