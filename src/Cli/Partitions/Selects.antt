-- ===== src/Cli/Partitions/Selects.antt =====
-- What an entry of `--partitions` selects (src/cli.rs), and that `parse_selection` reads it so.
use jkq.Prelude.{
  ltb, leb, ◌==◌, if◌then◌else◌, Bool-cases, Option-cases, is_some, Bytes, Result, ok, err, ◌>>=◌,
  i32_max, ℕ, ◌+◌, ◌-◌, ◌*◌, ◌≡◌, refl, sym, ap, ◌∙◌, subst, ◌⊎◌, inl, inr, true, false, not, ◌||◌,
  none, some, [], ◌∷◌, ◌++◌, arith, bind-ok,
}
use jkq.Text.{split_once}
use jkq.Text.Integers.{parse_digits, parse_unsigned, parse_signed}
use jkq.Text.Splitting.{Lacks, split_once-join}
use jkq.Output.Numbers.{read_digits}
use jkq.Int.{pos}
use jkq.Cli.Partitions.{parse_partition, PartitionError, parse_selection, descending_range}

-- A number of an `i32` that is not negative.
abbrev pub IsPartition : Bytes → ℕ → Type 0
IsPartition text n = parse_signed i32_max text ≡ some (pos n)

-- Two partitions that a dash parts, the first not above the last.
pub record IsRange (text : Bytes) (start end : ℕ) : Type 0 where
  pub low : Bytes
  pub high : Bytes
  pub parted : text ≡ low ++ b'-' ∷ high
  pub first_dash : Lacks b'-' low
  pub first : IsPartition low start
  pub last : IsPartition high end
  pub ascends : leb start end ≡ true

-- One partition, or an ascending range.
abbrev pub Selects : Bytes → ℕ → ℕ → Type 0
Selects text start end = (IsPartition text start × (start ≡ end)) ⊎ IsRange text start end

split_once-some :
    (separator : ℕ) (s front back : Bytes)
    → split_once separator s ≡ some (front, back)
    → (s ≡ front ++ separator ∷ back) × Lacks separator front
unfolding split_once
split_once-some separator [] front back h = absurd (ground arith)
split_once-some separator (b ∷ s) front back h = elim (Bool-cases (b == separator)) [
  | inl f ↦
      let e : [] ≡ front = ground arith in
      let g : s ≡ back = ground arith in
      subst (λ x. (b ∷ s ≡ x ++ separator ∷ back) × Lacks separator x) e (ground arith, tt)
  | inr f ↦ elim (Option-cases (split_once separator s)) [
    | inl g ↦ absurd (ground arith)
    | inr ((x, y), g) ↦
        let (i, lacks) = split_once-some separator s x y g in
        let e : b ∷ x ≡ front = ground arith in
        let k : y ≡ back = ground arith in
        subst (λ z. (b ∷ s ≡ z ++ separator ∷ back) × Lacks separator z) e
          (ap (λ t. b ∷ t) (i ∙ ap (λ t. x ++ separator ∷ t) k), (f, lacks))
  ]
]

split_once-Lacks : (separator : ℕ) (s : Bytes) → Lacks separator s → split_once separator s ≡ none
unfolding split_once
split_once-Lacks separator [] h = refl
split_once-Lacks separator (b ∷ s) (h, hs) = ground (arith, split_once-Lacks separator s hs)

read_digits-Lacks : (n : ℕ) (s : Bytes) (m : ℕ) → read_digits n s ≡ some m → Lacks b'-' s
unfolding read_digits
read_digits-Lacks n [] m h = tt
read_digits-Lacks n (b ∷ s) m h =
    let rest = read_digits-Lacks (n * 10 + (b - 48)) s m in (ground arith, rest (ground arith))

parse_digits-Lacks :
    (largest : ℕ) (s : Bytes) (m : ℕ) → parse_digits largest s ≡ some m → Lacks b'-' s
unfolding parse_digits
parse_digits-Lacks largest [] m h = tt
parse_digits-Lacks largest (b ∷ s) m h = elim (Option-cases (read_digits 0 (b ∷ s))) [
  | inl f ↦ absurd (ground arith)
  | inr (n, f) ↦ read_digits-Lacks 0 (b ∷ s) n f
]

-- A number that is not negative has no dash behind its first byte.
IsPartition-Lacks : (b : ℕ) (s : Bytes) (n : ℕ) → IsPartition (b ∷ s) n → Lacks b'-' s
unfolding parse_signed parse_unsigned parse_digits
IsPartition-Lacks b s n h = elim (Bool-cases (b == b'-')) [
  | inl f ↦ elim (Option-cases (parse_digits (i32_max + 1) s)) [
    | inl g ↦ absurd (ground arith)
    | inr (m, g) ↦ parse_digits-Lacks (i32_max + 1) s m g
  ]
  | inr f ↦ elim (Bool-cases (b == b'+')) [
    | inl g ↦ elim (Option-cases (parse_digits i32_max s)) [
      | inl i ↦ absurd (ground arith)
      | inr (m, i) ↦ parse_digits-Lacks i32_max s m i
    ]
    | inr g ↦ elim (Option-cases (parse_digits i32_max (b ∷ s))) [
      | inl i ↦ absurd (ground arith)
      | inr (m, i) ↦ (parse_digits-Lacks i32_max (b ∷ s) m i).1
    ]
  ]
]

parse_partition-IsPartition :
    (text : Bytes) (n : ℕ) → parse_partition text ≡ ok n → IsPartition text n
unfolding parse_partition
parse_partition-IsPartition text n h = ground arith

IsPartition-parse_partition :
    (text : Bytes) (n : ℕ) → IsPartition text n → parse_partition text ≡ ok n
unfolding parse_partition
IsPartition-parse_partition text n h = ground arith

-- A text as one partition, and two texts as the ends of a range.
abbrev one_of : Bytes → Result PartitionError (ℕ × ℕ)
one_of text = parse_partition text >>= λ partition. ok (partition, partition)

abbrev two_of : Bytes → Bytes → Bytes → Result PartitionError (ℕ × ℕ)
two_of text low high = do
  start ← parse_partition low
  end ← parse_partition high
  if ltb end start then err (descending_range text) else ok (start, end)

-- A text that starts with a dash, or has none, is read as one partition.
reads_alone :
    (b : ℕ) (s : Bytes)
    → (b == b'-' || not (is_some (split_once b'-' (b ∷ s)))) ≡ true
    → parse_selection (b ∷ s) ≡ one_of (b ∷ s)
unfolding parse_selection
reads_alone b s h = ground arith

one_of-Selects :
    (text : Bytes) (start end : ℕ) → one_of text ≡ ok (start, end) → Selects text start end
one_of-Selects text start end h =
    let (p, (e, f)) = bind-ok (parse_partition text) (λ q. ok (q, q)) (start, end) h in
    let g : p ≡ start = ground arith in
    let i : start ≡ end = ground arith in
    inl (parse_partition-IsPartition text start (e ∙ ap ok g), i)

-- A text with a dash behind its first byte is read as a range.
reads_range :
    (b : ℕ) (s low high : Bytes)
    → (b == b'-') ≡ false
    → split_once b'-' (b ∷ s) ≡ some (low, high)
    → parse_selection (b ∷ s) ≡ two_of (b ∷ s) low high
unfolding parse_selection
reads_range b s low high h g = ground arith

two_of-IsRange :
    (b : ℕ) (s low high : Bytes) (start end : ℕ)
    → two_of (b ∷ s) low high ≡ ok (start, end)
    → split_once b'-' (b ∷ s) ≡ some (low, high)
    → IsRange (b ∷ s) start end
two_of-IsRange b s low high start end h split =
    let (p, (e, f)) = bind-ok (parse_partition low) _ (start, end) h in
    let (q, (g, i)) = bind-ok (parse_partition high) _ (start, end) f in
    let first : p ≡ start = ground arith in
    let last : q ≡ end = ground arith in
    let (parted, lacks) = split_once-some b'-' (b ∷ s) low high split in
    record {
      low = low;
      high = high;
      parted = parted;
      first_dash = lacks;
      first = parse_partition-IsPartition low start (e ∙ ap ok first);
      last = parse_partition-IsPartition high end (g ∙ ap ok last);
      ascends = ground arith;
    }

pub parse_selection_sound :
    (text : Bytes) (start end : ℕ) → parse_selection text ≡ ok (start, end) → Selects text start end
parse_selection_sound [] start end h = absurd (unfold parse_selection in ground arith)
parse_selection_sound (b ∷ s) start end h = elim (Bool-cases (b == b'-')) [
  | inl f ↦ one_of-Selects (b ∷ s) start end (sym (reads_alone b s (ground arith)) ∙ h)
  | inr f ↦ elim (Option-cases (split_once b'-' (b ∷ s))) [
    | inl g ↦ one_of-Selects (b ∷ s) start end (sym (reads_alone b s (ground arith)) ∙ h)
    | inr ((low, high), g) ↦
        inr (two_of-IsRange b s low high start end (sym (reads_range b s low high f g) ∙ h) g)
  ]
]

one_complete : (text : Bytes) (p : ℕ) → IsPartition text p → parse_selection text ≡ ok (p, p)
one_complete [] p h = absurd (unfold parse_signed in ground arith)
one_complete (b ∷ s) p h =
    let read = IsPartition-parse_partition (b ∷ s) p h in
    let behind = IsPartition-Lacks b s p h in
    elim (Bool-cases (b == b'-')) [
      | inl f ↦ reads_alone b s (ground arith) ∙ ap (λ r. r >>= λ q. ok (q, q)) read
      | inr f ↦
          let whole = split_once-Lacks b'-' (b ∷ s) (f, behind) in
          reads_alone b s (ground arith) ∙ ap (λ r. r >>= λ q. ok (q, q)) read
    ]

range_complete :
    (low high : Bytes) (start end : ℕ)
    → Lacks b'-' low
    → IsPartition low start
    → IsPartition high end
    → leb start end ≡ true
    → parse_selection (low ++ b'-' ∷ high) ≡ ok (start, end)
range_complete [] high start end lacks h g le = absurd (unfold parse_signed in ground arith)
range_complete (b ∷ low) high start end (other, lacks) h g le =
    let a = IsPartition-parse_partition (b ∷ low) start h in
    let c = IsPartition-parse_partition high end g in
    reads_range b (low ++ b'-' ∷ high) (b ∷ low) high other
      (split_once-join b'-' (b ∷ low) high (other, lacks))
    ∙ rw (a, c) (ground arith)

pub parse_selection_complete :
    (text : Bytes) (start end : ℕ) → Selects text start end → parse_selection text ≡ ok (start, end)
parse_selection_complete text start end (inl (h, e)) =
    one_complete text start h ∙ ap (λ k. ok (start, k)) e
parse_selection_complete text start end (inr r) =
    ap parse_selection r.parted
    ∙ range_complete r.low r.high start end r.first_dash r.first r.last r.ascends
