-- ===== src/Kafka/Input/Counting.antt =====
-- The partitions that `KafkaInput` of src/kafka.rs still reads.
use jkq.Prelude.{
  ◌==◌, ==_iff, Bool-cases, Option-cases, is_some, Bytes, Result, ℕ, ◌-◌, ◌≡◌, refl, sym, ap, ◌∙◌,
  inl, inr, true, some, List, arith,
}
use jkq.Map.{get, update, get-update, sum_by-update}
use jkq.Map.Order.{IsAscending, update-IsAscending}
use jkq.Kafka.Input.{PartitionState, KafkaInput, unfinished, open_partition, finish}

abbrev pub IsCounted : KafkaInput → Type 0
IsCounted input =
    (input.remaining_partitions ≡ unfinished input.partitions) × IsAscending input.partitions

-- Every partition stays, with its range, and what is done stays done.
pub record Advances (before after : KafkaInput) : Type 0 where
  pub state :
      (k : ℕ) (s : PartitionState)
      → get k before.partitions ≡ some s
      → (s' : PartitionState) × ((get k after.partitions ≡ some s')
          × ((s'.range ≡ s.range) × (s.done ≡ true → s'.done ≡ true)))
  pub exit_at_end : after.exit_at_end ≡ before.exit_at_end
  -- No partition is added.
  pub assigned : (k : ℕ) → is_some (get k after.partitions) ≡ is_some (get k before.partitions)

pub Advances-refl : (input : KafkaInput) → Advances input input
Advances-refl input = record {
  state = λ k s h. (s, (h, (refl, λ d. d)));
  exit_at_end = refl;
  assigned = λ k. refl;
}

pub Advances-trans : (a b c : KafkaInput) → Advances a b → Advances b c → Advances a c
Advances-trans a b c f g = record {
  state = λ k s h.
      let (s', (h', (r, d))) = f.state k s h in
      let (s'', (h'', (r', d'))) = g.state k s' h' in (s'', (h'', (r' ∙ r, λ e. d' (d e))));
  exit_at_end = g.exit_at_end ∙ f.exit_at_end;
  assigned = λ k. g.assigned k ∙ f.assigned k;
}

-- After one partition is marked.
marked :
    (p k : ℕ) (state s : PartitionState) (m : List (ℕ × PartitionState))
    → get p m ≡ some state
    → get k m ≡ some s
    → (s' : PartitionState) × ((get k (update p (record state { done = true }) m) ≡ some s')
        × ((s'.range ≡ s.range) × (s.done ≡ true → s'.done ≡ true)))
marked p k state s m f h =
    let written = get-update k p (record state { done = true }) m in
    elim (Bool-cases (p == k)) [
      | inl e ↦
          let same : some state ≡ some s = sym f ∙ (ap (λ j. get j m) ((==_iff p k).0 e) ∙ h) in
          (record state { done = true }, (written ∙ rw (e, f) refl, (ground arith, λ d. refl)))
      | inr e ↦ (s, (written ∙ rw e h, (refl, λ d. d)))
    ]

marked_same :
    (p k : ℕ) (state : PartitionState) (m : List (ℕ × PartitionState))
    → get p m ≡ some state
    → is_some (get k (update p (record state { done = true }) m)) ≡ is_some (get k m)
marked_same p k state m f =
    let written = get-update k p (record state { done = true }) m in
    elim (Bool-cases (p == k)) [
      | inl e ↦
          let here : get k m ≡ some state = ap (λ j. get j m) (sym ((==_iff p k).0 e)) ∙ f in
          ap is_some written ∙ rw (e, f, here) refl
      | inr e ↦ ap is_some written ∙ rw e refl
    ]

module _ (grow : ℕ → ℕ → ℕ) (header_size : ℕ) (pause_result : ℕ → Result Bytes (Unit {0})) where
  pub finish-IsCounted :
      (p : ℕ) (input : KafkaInput)
      → IsCounted input
      → IsCounted (finish grow header_size pause_result p input).0
  unfolding finish
  finish-IsCounted p input (counted, ascending) = elim (Option-cases (get p input.partitions)) [
    | inl f ↦ rw (f, finish) ((counted, ascending))
    | inr (state, f) ↦ elim (Bool-cases state.done) [
      | inl g ↦ rw (f, g, finish) ((counted, ascending))
      | inr g ↦
          let less =
            sum_by-update (λ entry. open_partition entry.1) open_partition p
              (record state { done = true }) input.partitions {w = state} (λ e. refl) f in
          rw (f, g, finish)
            ((
              ground arith,
              update-IsAscending p (record state { done = true }) input.partitions ascending,
            ))
    ]
  ]

  pub finish-Advances :
      (p : ℕ) (input : KafkaInput) → Advances input (finish grow header_size pause_result p input).0
  unfolding finish
  finish-Advances p input = elim (Option-cases (get p input.partitions)) [
    | inl f ↦ rw (f, finish) (Advances-refl input)
    | inr (state, f) ↦ elim (Bool-cases state.done) [
      | inl g ↦ rw (f, g, finish) (Advances-refl input)
      | inr g ↦
          let done : PartitionState = record state { done = true } in
          let after : KafkaInput = record input {
            remaining_partitions = input.remaining_partitions - 1;
            partitions = update p done input.partitions;
          } in
          let advances : Advances input after = record {
            state = λ k s h. marked p k state s input.partitions f h;
            exit_at_end = refl;
            assigned = λ k. marked_same p k state input.partitions f;
          } in
          rw (f, g, finish) advances
    ]
  ]
