-- ===== src/Orderer/Conservation.antt =====
-- No completion is lost or doubled on its way through the orderer (src/runtime/state.rs): a list
-- is measured by any function of its entries, so equal measures mean the same entries, as often.
use jkq.Prelude.{
  ltb, ◌==◌, Bool-cases, Option-cases, is_some, length, sum_by, All, sum_by-append, Result, ok, err,
  ◌>>=◌, Result-cases, ℕ, zero, suc, ◌+◌, ◌≡◌, refl, ap, subst, inl, inr, ◌||◌, Option, none, some,
  List, [], ◌∷◌, ◌++◌, arith,
}
use jkq.Map.{get, insert, remove, values}
use jkq.Map.Order.{
  IsAscending, sum_by-values-remove, remove-IsAscending, value_or_zero, All-insert, All-get,
  insert-IsAscending, sum_by-values-insert,
}
use jkq.Records.{Completion}
use jkq.Orderer.{
  PartitionOrder, Orderer, default, Error, successor, drain, arrive, or_fresh, insert_completion,
  all_pending, take_pending,
}
use jkq.Orderer.Delivery.{deliver}

-- The completions that `insert` hands back.
unfoldable pub refused : Orderer → List Completion → List Completion
refused o [] = []
refused o (c ∷ cs) = elim (insert_completion o c []) [
  | ok (o', r) ↦ refused o' cs
  | err (e, c') ↦ c' ∷ refused o cs
]

-- Every map is in key order.
pub record IsOrdered (o : Orderer) : Type 0 where
  pub outer : IsAscending o
  pub inner : All (λ s. IsAscending s.pending) (values o)

module _ (f : Completion → ℕ) where
  unfoldable pub waits : PartitionOrder → ℕ
  waits s = sum_by f (values s.pending)

  drain-waits :
      (fuel : ℕ) (s : PartitionOrder) (ready : List Completion)
      → IsAscending s.pending
      → IsAscending (drain fuel s ready).0.pending
        × (sum_by f (drain fuel s ready).1 + waits (drain fuel s ready).0
            ≡ sum_by f ready + waits s)
  unfolding drain waits
  drain-waits zero s ready a = (a, refl)
  drain-waits (suc fuel) s ready a = elim (Option-cases (get s.next_sequence s.pending)) [
    | inl e ↦ rw (e, drain) (a, refl)
    | inr (c, e) ↦
        let next = record s {
          next_sequence = successor s.next_sequence;
          pending = remove s.next_sequence s.pending;
        } in
        let (a', rest) =
          drain-waits fuel next (ready ++ c ∷ [])
            (remove-IsAscending s.next_sequence s.pending a) in
        rw (e, drain)
          (
            a',
            omega (
              arith,
              rest,
              sum_by-append f ready (c ∷ []),
              sum_by-values-remove f s.next_sequence s.pending c a e,
            ),
          )
  ]

  abbrev pub Balanced :
      PartitionOrder
      → Completion
      → Result (Error × Completion) (PartitionOrder × List Completion)
      → Type 0
  Balanced s c (ok (s', r)) = IsAscending s'.pending × (sum_by f r + waits s' ≡ waits s + f c)
  Balanced s c (err (e, c')) = c' ≡ c

  arrive-Balanced :
      (s : PartitionOrder) (c : Completion) → IsAscending s.pending → Balanced s c (arrive s c [])
  unfolding arrive waits
  arrive-Balanced s c a =
      elim (Bool-cases (ltb c.sequence s.next_sequence || is_some (get c.sequence s.pending))) [
        | inl e ↦ rw e refl
        | inr e ↦ elim (Bool-cases (c.sequence == s.next_sequence)) [
          | inl now ↦
              let s' : PartitionOrder = record s { next_sequence = successor s.next_sequence } in
              let (a', sums) = drain-waits (length s.pending) s' (c ∷ []) a in
              rw (e, now) (a', omega (arith, sums))
          | inr later ↦
              rw (e, later)
                (
                  insert-IsAscending c.sequence c s.pending a,
                  ground (arith, sum_by-values-insert f c.sequence c s.pending a, e),
                )
        ]
      ]

  pub orderer_waits : Orderer → ℕ
  orderer_waits o = sum_by waits (values o)

  pub default-orderer_waits : orderer_waits default ≡ 0
  unfolding orderer_waits
  default-orderer_waits = refl

  pub sum_by-all_pending : (o : Orderer) → sum_by f (all_pending o) ≡ orderer_waits o
  unfolding orderer_waits waits
  sum_by-all_pending [] = refl
  sum_by-all_pending ((p, s) ∷ o) =
      omega (arith, sum_by-append f (values s.pending) (all_pending o), sum_by-all_pending o)

  abbrev pub Kept :
      Orderer → Completion → Result (Error × Completion) (Orderer × List Completion) → Type 0
  Kept o c (ok (o', r)) = IsOrdered o' × (sum_by f r + orderer_waits o' ≡ orderer_waits o + f c)
  Kept o c (err (e, c')) = c' ≡ c

  or_fresh-waits : (m : Option PartitionOrder) → waits (or_fresh m) ≡ value_or_zero waits m
  unfolding waits
  or_fresh-waits none = refl
  or_fresh-waits (some s) = refl

  or_fresh-IsAscending :
      (o : Orderer) (p : ℕ) → IsOrdered o → IsAscending (or_fresh (get p o)).pending
  or_fresh-IsAscending o p h = elim (Option-cases (get p o)) [
    | inl e ↦ rw e tt
    | inr (s, e) ↦ rw e (All-get (λ s. IsAscending s.pending) p o s h.inner e)
  ]

  pub insert-Kept :
      (o : Orderer) (c : Completion) → IsOrdered o → Kept o c (insert_completion o c [])
  unfolding insert_completion
  insert-Kept o c h = go (arrive s c []) (arrive-Balanced s c (or_fresh-IsAscending o p h))
    where
      p : ℕ
      p = c.partition

      s : PartitionOrder
      s = or_fresh (get p o)

      go :
          (r : Result (Error × Completion) (PartitionOrder × List Completion))
          → Balanced s c r
          → Kept o c (r >>= λ x. ok (insert p x.0 o, x.1))
      go (err e) b = b
      go (ok (s', r)) b = (
        record {
          outer = insert-IsAscending p s' o h.outer;
          inner = All-insert (λ s. IsAscending s.pending) p s' o b.0 h.inner;
        },
        unfold orderer_waits in
            omega (arith, b.1, sum_by-values-insert waits p s' o h.outer, or_fresh-waits (get p o)),
      )

  deliver_measures :
      (cs : List Completion) (o : Orderer)
      → IsOrdered o
      → sum_by f (deliver o cs).1 + orderer_waits (deliver o cs).0 + sum_by f (refused o cs)
        ≡ orderer_waits o + sum_by f cs
  unfolding deliver refused
  deliver_measures [] o h = omega arith
  deliver_measures (c ∷ cs) o h = elim (Result-cases (insert_completion o c [])) [
    | inl ((e, c'), x) ↦
        rw (x, deliver, refused)
          (let same = subst (Kept o c) x (insert-Kept o c h) in
            omega (arith, deliver_measures cs o h, ap f same))
    | inr ((o', r), x) ↦
        rw (x, deliver, refused)
          (let (h', sums) = subst (Kept o c) x (insert-Kept o c h) in
            omega (arith, deliver_measures cs o' h', sums, sum_by-append f r (deliver o' cs).1))
  ]

-- For any measure of completions, those that left, those that take_pending still finds and those
-- that insert handed back sum to the same as all arrivals at an empty orderer: none is lost and
-- none is doubled.
pub deliver_conserves :
    (f : Completion → ℕ) (cs : List Completion)
    → sum_by f (deliver default cs).1
        + sum_by f (take_pending (deliver default cs).0).1
        + sum_by f (refused default cs)
      ≡ sum_by f cs
unfolding take_pending orderer_waits
deliver_conserves f cs = omega (
  arith,
  deliver_measures f cs default (record { outer = tt; inner = tt }),
  sum_by-all_pending f (deliver default cs).0,
)
