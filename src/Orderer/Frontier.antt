-- ===== src/Orderer/Frontier.antt =====
-- One partition's order (src/runtime/state.rs) against the completions that have arrived for it.
use jkq.Prelude.{
  ltb, ◌==◌, if◌then◌else◌, Bool-cases, Option-cases, is_some, length, get_elem?, All,
  length-append, All-append, Result, ok, err, word_mod, ℕ, zero, suc, ◌+◌, ◌≤◌, ◌<◌, ◌≡◌, refl, sym,
  ◌∙◌, inl, inr, true, ◌||◌, Option, none, some, List, [], ◌∷◌, ◌++◌, append-nil, append_assoc,
  arith,
}
use jkq.Map.{get, insert, remove, get-insert, get-remove, length-remove-lt}
use jkq.Records.{Completion}
use jkq.Orderer.{PartitionOrder, Error, successor, drain, arrive}

-- The first arrival with sequence number `k`.
abbrev pub first : ℕ → List Completion → Option Completion
first k [] = none
first k (c ∷ cs) = if c.sequence == k then some c else first k cs

-- Every number can be counted past: `Admission::reserve` hands out no other.
abbrev pub Fits : Completion → Type 0
Fits c = c.sequence + 1 < word_mod

-- After the arrivals `log` the entries `out` have left: entry `k` is the first arrival with
-- number `k`, those from `next_sequence` on wait, and the one that comes next has not arrived.
pub record Frontier (s : PartitionOrder) (log out : List Completion) : Type 0 where
  pub count : length out ≡ s.next_sequence
  pub left : (k : ℕ) → k < s.next_sequence → get_elem? out k ≡ first k log
  pub gone : (k : ℕ) → k < s.next_sequence → get k s.pending ≡ none
  pub waiting : (k : ℕ) → s.next_sequence ≤ k → get k s.pending ≡ first k log
  pub blocked : get s.next_sequence s.pending ≡ none

successor_lem : (n : ℕ) → n + 1 < word_mod → successor n ≡ n + 1
unfolding successor
successor_lem n h = omega arith

pub first-append :
    (k : ℕ) (log : List Completion) (c : Completion)
    → first k (log ++ c ∷ [])
      ≡ (if is_some (first k log) then first k log else if c.sequence == k then some c else none)
first-append k [] c = refl
first-append k (y ∷ log) c = ground (arith, first-append k log c)

pub first-sequence :
    (k : ℕ) (log : List Completion) (c : Completion) → first k log ≡ some c → c.sequence ≡ k
first-sequence k [] c h = cc
first-sequence k (y ∷ log) c h = ground (arith, first-sequence k log c)

first-Fits :
    (k : ℕ) (log : List Completion) (c : Completion)
    → All Fits log
    → first k log ≡ some c
    → k + 1 < word_mod
first-Fits k [] c f h = cc
first-Fits k (y ∷ log) c f h = ground (arith, first-Fits k log c f.1)

pub get_elem?-append_lt {ℓ} :
    {A : Type ℓ} (xs ys : List A) (k : ℕ) → k < length xs → get_elem? (xs ++ ys) k ≡ get_elem? xs k
get_elem?-append_lt [] ys k h = elim h [ ]
get_elem?-append_lt (x ∷ xs) ys zero h = refl
get_elem?-append_lt (x ∷ xs) ys (suc k) h = get_elem?-append_lt xs ys k (omega arith)

get_elem?-append_eq {ℓ} :
    {A : Type ℓ} (xs : List A) (y : A) (k : ℕ) → k ≡ length xs → get_elem? (xs ++ y ∷ []) k ≡ some y
get_elem?-append_eq [] y k h = rw h
get_elem?-append_eq (x ∷ xs) y zero h = absurd (omega arith)
get_elem?-append_eq (x ∷ xs) y (suc k) h = get_elem?-append_eq xs y k (omega arith)

-- The frontier without the promise that the next number is missing: the loop's invariant.
pub record Loose (s : PartitionOrder) (log out : List Completion) : Type 0 where
  pub count : length out ≡ s.next_sequence
  pub left : (k : ℕ) → k < s.next_sequence → get_elem? out k ≡ first k log
  pub gone : (k : ℕ) → k < s.next_sequence → get k s.pending ≡ none
  pub waiting : (k : ℕ) → s.next_sequence ≤ k → get k s.pending ≡ first k log

-- One round of the loop.
round-Loose :
    (s : PartitionOrder) (log out : List Completion) (c : Completion)
    → All Fits log
    → get s.next_sequence s.pending ≡ some c
    → Loose s log out
    → Loose
        (record {
          next_sequence = successor s.next_sequence;
          pending = remove s.next_sequence s.pending;
        })
        log
        (out ++ c ∷ [])
round-Loose s log out c f e l =
    let n = s.next_sequence in
    let here = l.waiting n (omega arith) in
    let up = successor_lem n (first-Fits n log c f (sym here ∙ e)) in
    rw up (record {
      count = omega (arith, length-append out (c ∷ []), l.count);
      left = λ k h. ground (
        arith,
        l.left k,
        l.count,
        get_elem?-append_lt out (c ∷ []) k,
        get_elem?-append_eq out c k,
        here,
      );
      gone = λ k h. ground (arith, get-remove k n s.pending, l.gone k);
      waiting = λ k h. ground (arith, get-remove k n s.pending, l.waiting k);
    })

get_empty : (k : ℕ) (m : List (ℕ × Completion)) → length m ≤ 0 → get k m ≡ none
unfolding get
get_empty k [] h = refl
get_empty k (e ∷ m) h = absurd (omega arith)

drain-Frontier :
    (fuel : ℕ) (s : PartitionOrder) (log out : List Completion)
    → length s.pending ≤ fuel
    → All Fits log
    → Loose s log out
    → Frontier (drain fuel s out).0 log (drain fuel s out).1
unfolding drain
drain-Frontier zero s log out h f l = record {
  count = l.count;
  left = l.left;
  gone = l.gone;
  waiting = l.waiting;
  blocked = get_empty s.next_sequence s.pending h;
}
drain-Frontier (suc fuel) s log out h f l = elim (Option-cases (get s.next_sequence s.pending)) [
  | inl e ↦
      rw (e, drain)
        (record { count = l.count; left = l.left; gone = l.gone; waiting = l.waiting; blocked = e })
  | inr (c, e) ↦
      rw (e, drain)
        (drain-Frontier fuel _ log (out ++ c ∷ [])
          (omega (arith, length-remove-lt s.next_sequence s.pending e)) f
          (round-Loose s log out c f e l))
]

-- The loop puts its entries behind those that are there.
drain_ready :
    (fuel : ℕ) (s : PartitionOrder) (ready out : List Completion)
    → (drain fuel s (out ++ ready)).1 ≡ out ++ (drain fuel s ready).1
unfolding drain
drain_ready zero s ready out = refl
drain_ready (suc fuel) s ready out = elim (Option-cases (get s.next_sequence s.pending)) [
  | inl e ↦ rw (e, drain) refl
  | inr (c, e) ↦ rw (e, drain, append_assoc) (drain_ready fuel _ (ready ++ c ∷ []) out)
]

drain_state :
    (fuel : ℕ) (s : PartitionOrder) (ready ready' : List Completion)
    → (drain fuel s ready).0 ≡ (drain fuel s ready').0
unfolding drain
drain_state zero s ready ready' = refl
drain_state (suc fuel) s ready ready' = elim (Option-cases (get s.next_sequence s.pending)) [
  | inl e ↦ rw (e, drain) refl
  | inr (c, e) ↦ rw (e, drain) (drain_state fuel _ (ready ++ c ∷ []) (ready' ++ c ∷ []))
]

-- A first arrival moves the frontier; a second one with the same number is handed back.
abbrev pub Arrived :
    PartitionOrder
    → List Completion
    → List Completion
    → Completion
    → Result (Error × Completion) (PartitionOrder × List Completion)
    → Type 0
Arrived s log out c (ok (s', r)) =
    (first c.sequence log ≡ none) × Frontier s' (log ++ c ∷ []) (out ++ r)
Arrived s log out c (err (e, c')) =
    (is_some (first c.sequence log) ≡ true) × Frontier s (log ++ c ∷ []) out × (c' ≡ c)

repeat-Frontier :
    (s : PartitionOrder) (log out : List Completion) (c : Completion)
    → is_some (first c.sequence log) ≡ true
    → Frontier s log out
    → Frontier s (log ++ c ∷ []) out
repeat-Frontier s log out c e f = record {
  count = f.count;
  left = λ k h. ground (arith, first-append k log c, f.left k);
  gone = f.gone;
  waiting = λ k h. ground (arith, first-append k log c, f.waiting k);
  blocked = f.blocked;
}

wait-Frontier :
    (s : PartitionOrder) (log out : List Completion) (c : Completion)
    → first c.sequence log ≡ none
    → s.next_sequence < c.sequence
    → Frontier s log out
    → Frontier (record s { pending = insert c.sequence c s.pending }) (log ++ c ∷ []) out
wait-Frontier s log out c e later f = record {
  count = f.count;
  left = λ k h. ground (arith, first-append k log c, f.left k);
  gone = λ k h. ground (arith, get-insert k c.sequence c s.pending, f.gone k);
  waiting =
      λ k h. ground (arith, get-insert k c.sequence c s.pending, first-append k log c, f.waiting k);
  blocked = ground (arith, get-insert s.next_sequence c.sequence c s.pending, f.blocked);
}

next-Loose :
    (s : PartitionOrder) (log out : List Completion) (c : Completion)
    → Fits c
    → c.sequence ≡ s.next_sequence
    → Frontier s log out
    → Loose (record s { next_sequence = successor s.next_sequence }) (log ++ c ∷ []) (out ++ c ∷ [])
next-Loose s log out c fits e f =
    let up = successor_lem s.next_sequence (omega arith) in
    let n = s.next_sequence in
    rw up (record {
      count = omega (arith, length-append out (c ∷ []), f.count);
      left = λ k h. ground (
        arith,
        f.left k,
        f.count,
        first-append k log c,
        f.waiting k,
        f.blocked,
        get_elem?-append_lt out (c ∷ []) k,
        get_elem?-append_eq out c k,
      );
      gone = λ k h. ground (arith, f.gone k, f.blocked);
      waiting = λ k h. ground (arith, first-append k log c, f.waiting k);
    })

get_elem?-is_some {ℓ} :
    {A : Type ℓ} (xs : List A) (k : ℕ) → k < length xs → is_some (get_elem? xs k) ≡ true
get_elem?-is_some [] k h = elim h [ ]
get_elem?-is_some (x ∷ xs) zero h = refl
get_elem?-is_some (x ∷ xs) (suc k) h = get_elem?-is_some xs k (omega arith)

-- The test for a duplicate finds just the numbers that have arrived.
seen_lem :
    (s : PartitionOrder) (log out : List Completion) (k : ℕ)
    → Frontier s log out
    → (ltb k s.next_sequence || is_some (get k s.pending)) ≡ is_some (first k log)
seen_lem s log out k f =
    ground (arith, f.left k, f.waiting k, f.gone k, get_elem?-is_some out k, f.count)

pub arrive-Arrived :
    (s : PartitionOrder) (log out : List Completion) (c : Completion)
    → All Fits log
    → Fits c
    → Frontier s log out
    → Arrived s log out c (arrive s c [])
unfolding arrive
arrive-Arrived s log out c fs fit f =
    rw (seen_lem s log out c.sequence f) (elim (Option-cases (first c.sequence log)) [
      | inr (x, e) ↦
          rw e (ground (arith, e), repeat-Frontier s log out c (ground (arith, e)) f, refl)
      | inl e ↦ rw e (elim (Bool-cases (c.sequence == s.next_sequence)) [
        | inl now ↦
            let n = s.next_sequence in
            let s' : PartitionOrder = record s { next_sequence = successor n } in
            let fuel = length s.pending in
            rw now (
              e,
              rw (← drain_ready fuel s' (c ∷ []) out, drain_state fuel s' (c ∷ []) (out ++ c ∷ []))
                  (drain-Frontier fuel s' (log ++ c ∷ []) (out ++ c ∷ []) (omega arith)
                    (All-append Fits log (c ∷ []) fs (fit, tt))
                    (next-Loose s log out c fit (ground arith) f)),
            )
        | inr later ↦ rw later (
          e,
          rw append-nil
              (wait-Frontier s log out c e (ground (arith, seen_lem s log out c.sequence f, e)) f),
        )
      ])
    ])
