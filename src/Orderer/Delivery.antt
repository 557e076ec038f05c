-- ===== src/Orderer/Delivery.antt =====
-- The completions of all partitions, delivered one by one: `insert` of src/runtime/state.rs as
-- `write_completions` of src/runtime.rs calls it, with `ready` empty.
use jkq.Prelude.{
  leb, ◌==◌, ==_iff, Bool-cases, is_some, length, get_elem?, All, length-append, All-append, Result,
  ok, err, ◌>>=◌, Result-cases, ℕ, ◌+◌, ◌≤◌, ◌<◌, ◌≡◌, refl, sym, ◌∙◌, subst, ◌≢◌, inl, inr, true,
  some, List, [], ◌∷◌, ◌++◌, append-nil, append_assoc, arith,
}
use jkq.Map.{get, insert, get-insert}
use jkq.Records.{Completion}
use jkq.Orderer.{
  PartitionOrder, Orderer, default, fresh_order, Error, arrive, or_fresh, insert_completion,
}
use jkq.Orderer.Frontier.{first, Fits, Frontier, Arrived, arrive-Arrived, first-sequence}
use jkq.Orderer.Partitions.{
  of_partition, AllOf-of_get, get_elem?-append_right, first-AllOf, AllOf, All-of, get_elem?-lt,
  of-append, of_same, of-concat_same, of_other, of-concat_other, of-AllOf,
}

-- What leaves, in order; a refused completion changes nothing.
unfoldable pub deliver : Orderer → List Completion → Orderer × List Completion
deliver o [] = (o, [])
deliver o (c ∷ cs) = elim (insert_completion o c []) [
  | ok (o', r) ↦ let (o'', rest) = deliver o' cs in (o'', r ++ rest)
  | err e ↦ deliver o cs
]

-- What leaves a partition is of that partition.
Frontier-AllOf :
    (p : ℕ) (s : PartitionOrder) (log out r : List Completion)
    → AllOf p log
    → Frontier s log (out ++ r)
    → AllOf p r
Frontier-AllOf p s log out r h f = AllOf-of_get p r λ k c e.
    first-AllOf p (length out + k) log c h (
      sym (
        f.left (length out + k) (omega (arith, f.count, length-append out r, get_elem?-lt r k c e)))
      ∙ get_elem?-append_right out r k
      ∙ e)

-- Each partition stands at its frontier.
abbrev pub Delivered : Orderer → List Completion → List Completion → Type 0
Delivered o log out =
    (p : ℕ) → Frontier (or_fresh (get p o)) (of_partition p log) (of_partition p out)

fresh-Frontier : Frontier fresh_order [] []
unfolding get
fresh-Frontier = record {
  count = refl;
  left = λ k h. refl;
  gone = λ k h. refl;
  waiting = λ k h. refl;
  blocked = refl;
}

default-Delivered : Delivered default [] []
unfolding get of_partition
default-Delivered p = fresh-Frontier

-- How one completion changes every partition's arrivals and departures.
abbrev Inserted :
    Orderer
    → List Completion
    → List Completion
    → Completion
    → Result (Error × Completion) (Orderer × List Completion)
    → Type 0
Inserted o log out c (ok (o', r)) = Delivered o' (log ++ c ∷ []) (out ++ r)
Inserted o log out c (err e) = Delivered o (log ++ c ∷ []) out

-- To show something of each partition, show it of the completion's own and of the others.
each_partition {ℓ} : (P : ℕ → Type ℓ) (p : ℕ) → P p → ((q : ℕ) → p ≢ q → P q) → (q : ℕ) → P q
each_partition P p own other q = elim (Bool-cases (p == q)) [
  | inl e ↦ subst P ((==_iff p q).0 e) own
  | inr e ↦ other q (λ h. ground (arith, h, e))
]

refused-Delivered :
    (o : Orderer) (log out : List Completion) (c : Completion)
    → Delivered o log out
    → Frontier
        (or_fresh (get c.partition o))
        (of_partition c.partition log ++ c ∷ [])
        (of_partition c.partition out)
    → Delivered o (log ++ c ∷ []) out
refused-Delivered o log out c d f =
    each_partition _ c.partition (rw (of-concat_same c log) f)
      λ q ne. rw (of-concat_other c q log ne) (d q)

get-insert_same : (o : Orderer) (p : ℕ) (s : PartitionOrder) → get p (insert p s o) ≡ some s
get-insert_same o p s = ground (arith, get-insert p p s o)

get-insert_other :
    (o : Orderer) (p q : ℕ) (s : PartitionOrder) → p ≢ q → get q (insert p s o) ≡ get q o
get-insert_other o p q s ne = ground (arith, get-insert q p s o)

accepted-Delivered :
    (o : Orderer) (log out r : List Completion) (c : Completion) (s : PartitionOrder)
    → Delivered o log out
    → Frontier s (of_partition c.partition log ++ c ∷ []) (of_partition c.partition out ++ r)
    → Delivered (insert c.partition s o) (log ++ c ∷ []) (out ++ r)
accepted-Delivered o log out r c s d f =
    each_partition _ p
      (rw (get-insert_same o p s, of-concat_same c log, of-append p out r, of_same p r all) f)
      λ q ne.
        rw
          (
            get-insert_other o p q s ne,
            of-concat_other c q log ne,
            of-append q out r,
            of_other p q r all ne,
            append-nil,
          )
          (d q)
  where
    p : ℕ
    p = c.partition

    all : AllOf p r
    all =
        Frontier-AllOf p s (of_partition p log ++ c ∷ []) (of_partition p out) r
          (All-append (λ x. x.partition ≡ p) (of_partition p log) (c ∷ []) (of-AllOf p log)
            (refl, tt))
          f

insert-Inserted :
    (o : Orderer) (log out : List Completion) (c : Completion)
    → All Fits log
    → Fits c
    → Delivered o log out
    → Inserted o log out c (insert_completion o c [])
unfolding insert_completion
insert-Inserted o log out c fs fit d =
    go (arrive s c []) (
      arrive-Arrived s (of_partition p log) (of_partition p out) c (All-of Fits p log fs) fit (d p))
  where
    p : ℕ
    p = c.partition

    s : PartitionOrder
    s = or_fresh (get p o)

    go :
        (r : Result (Error × Completion) (PartitionOrder × List Completion))
        → Arrived s (of_partition p log) (of_partition p out) c r
        → Inserted o log out c (r >>= λ x. ok (insert p x.0 o, x.1))
    go (err e) a = refused-Delivered o log out c d a.1
    go (ok (s', r)) a = accepted-Delivered o log out r c s' d a.1

deliver-Delivered :
    (cs : List Completion) (o : Orderer) (log out : List Completion)
    → All Fits log
    → All Fits cs
    → Delivered o log out
    → Delivered (deliver o cs).0 (log ++ cs) (out ++ (deliver o cs).1)
unfolding deliver
deliver-Delivered [] o log out fl fc d = rw (append-nil log, append-nil out) d
deliver-Delivered (c ∷ cs) o log out fl fc d = elim (Result-cases (insert_completion o c [])) [
  | inl (e, x) ↦
      rw (x, deliver, ← append_assoc log (c ∷ []) cs)
        (deliver-Delivered cs o (log ++ c ∷ []) out grown fc.1
          (subst (Inserted o log out c) x (insert-Inserted o log out c fl fc.0 d)))
  | inr ((o', r), x) ↦
      rw (x, deliver, ← append_assoc log (c ∷ []) cs, ← append_assoc out r (deliver o' cs).1)
        (deliver-Delivered cs o' (log ++ c ∷ []) (out ++ r) grown fc.1
          (subst (Inserted o log out c) x (insert-Inserted o log out c fl fc.0 d)))
]
  where
    grown : All Fits (log ++ c ∷ [])
    grown = All-append Fits log (c ∷ []) fl (fc.0, tt)

-- What leaves partition `p` when the completions arrive at an empty orderer.
abbrev pub emitted : ℕ → List Completion → List Completion
emitted p cs = of_partition p (deliver default cs).1

emitted-Frontier :
    (p : ℕ) (cs : List Completion)
    → All Fits cs
    → Frontier (or_fresh (get p (deliver default cs).0)) (of_partition p cs) (emitted p cs)
emitted-Frontier p cs f = deliver-Delivered cs default [] [] tt f default-Delivered p

-- When completions with countable sequence numbers arrive at an empty orderer in any order, the
-- k-th completion that leaves for a partition has sequence number k and is the first arrival of
-- that partition with that number: no number is skipped, repeated or overtaken.
pub emitted_in_order :
    (p k : ℕ) (cs : List Completion) {c : Completion}
    → All Fits cs
    → get_elem? (emitted p cs) k ≡ some c
    → (c.sequence ≡ k) × (first k (of_partition p cs) ≡ some c)
emitted_in_order p k cs {c} f e =
    let fr = emitted-Frontier p cs f in
    let found = sym (fr.left k (omega (arith, fr.count, get_elem?-lt (emitted p cs) k c e))) ∙ e in
    (first-sequence k (of_partition p cs) c found, found)

-- A number that is due and has arrived does not wait.
next-reaches :
    (s : PartitionOrder) (log out : List Completion) (n : ℕ)
    → ((k : ℕ) → k < n → is_some (first k log) ≡ true)
    → Frontier s log out
    → n ≤ s.next_sequence
next-reaches s log out n h f = elim (Bool-cases (leb n s.next_sequence)) [
  | inl e ↦ ground (arith, e)
  | inr e ↦ absurd (ground (arith, e, h s.next_sequence, f.waiting s.next_sequence, f.blocked))
]

-- Let completions of any partitions arrive at an empty orderer in any order, with repeats, each
-- with a sequence number that a u64 can count past. If all numbers below n have arrived for
-- partition p, then for every k below n the k-th completion that leaves for p is the first arrival
-- with number k, though later numbers may still be missing.
pub emitted_when_due :
    (p n k : ℕ) (cs : List Completion)
    → All Fits cs
    → ((j : ℕ) → j < n → is_some (first j (of_partition p cs)) ≡ true)
    → k < n
    → get_elem? (emitted p cs) k ≡ first k (of_partition p cs)
emitted_when_due p n k cs f h lt =
    let fr = emitted-Frontier p cs f in fr.left k (omega (arith, next-reaches _ _ _ n h fr))
