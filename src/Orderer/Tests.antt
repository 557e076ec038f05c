-- ===== src/Orderer/Tests.antt =====
-- The orderer (src/runtime/state.rs) at work on arrivals out of order, of two partitions, with one
-- number twice.
use jkq.Prelude.{
  is_some, get_elem?, sum_by, All, ℕ, zero, suc, ◌+◌, ◌<◌, ◌≡◌, refl, true, none, some, List, [],
  ◌∷◌, arith,
}
use jkq.Int.{pos}
use jkq.Map.{get, insert, remove}
use jkq.Records.{Completion, CompletionOutcome, drop_record}
use jkq.Orderer.{default, drain, arrive, insert_completion, successor, take_pending}
use jkq.Orderer.Frontier.{Fits, first}
use jkq.Orderer.Partitions.{of_partition}
use jkq.Orderer.Delivery.{deliver, emitted, emitted_in_order, emitted_when_due}
use jkq.Orderer.Conservation.{refused, deliver_conserves}

abbrev sample : ℕ → ℕ → Completion
sample p n = record {
  spare_payload = none;
  consumer = 0;
  partition = p;
  sequence = n;
  retained_bytes = 1;
  source = record {
    partition = p;
    offset = pos n;
    timestamp = none;
    key = none;
    headers = [];
    payload_length = none;
  };
  outcome = CompletionOutcome.action drop_record;
}

abbrev arrivals : List Completion
arrivals = sample 0 2 ∷ sample 1 0 ∷ sample 0 1 ∷ sample 0 2 ∷ sample 0 0 ∷ sample 0 4 ∷ []

arrivals-Fits : All Fits arrivals
arrivals-Fits = omega arith

emits : (deliver default arrivals).1 ≡ sample 1 0 ∷ sample 0 0 ∷ sample 0 1 ∷ sample 0 2 ∷ []
unfolding deliver insert_completion arrive drain get insert remove successor
emits = refl

hands_back : refused default arrivals ≡ sample 0 2 ∷ []
unfolding refused insert_completion arrive drain get insert remove successor
hands_back = refl

keeps : (take_pending (deliver default arrivals).0).1 ≡ sample 0 4 ∷ []
unfolding take_pending deliver insert_completion arrive drain get insert remove successor
keeps = refl

second : get_elem? (emitted 0 arrivals) 1 ≡ some (sample 0 1)
unfolding of_partition deliver insert_completion arrive drain get insert remove successor
second = refl

emitted_in_order_example :
    ((sample 0 1).sequence ≡ 1) × (first 1 (of_partition 0 arrivals) ≡ some (sample 0 1))
emitted_in_order_example = emitted_in_order 0 1 arrivals arrivals-Fits second

all_arrived : (j : ℕ) → j < 3 → is_some (first j (of_partition 0 arrivals)) ≡ true
unfolding of_partition
all_arrived zero h = refl
all_arrived (suc zero) h = refl
all_arrived (suc (suc zero)) h = refl
all_arrived (suc (suc (suc j))) h = absurd (omega arith)

emitted_when_due_example : get_elem? (emitted 0 arrivals) 2 ≡ first 2 (of_partition 0 arrivals)
emitted_when_due_example = emitted_when_due 0 3 2 arrivals arrivals-Fits all_arrived (omega arith)

deliver_conserves_example :
    sum_by (λ c. c.sequence) (deliver default arrivals).1
      + sum_by (λ c. c.sequence) (take_pending (deliver default arrivals).0).1
      + sum_by (λ c. c.sequence) (refused default arrivals)
    ≡ 9
deliver_conserves_example = deliver_conserves (λ c. c.sequence) arrivals
