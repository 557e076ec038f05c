-- ===== src/Cli/Partitions/Accepted.antt =====
-- Which partition options src/cli.rs accepts.
use jkq.Prelude.{
  leb, Bytes, length, length-append, range_from, length-range_from, ok, ◌>>=◌, Result-cases,
  checked_add, ℕ, ◌+◌, ◌-◌, ◌≡◌, refl, sym, ap, ◌∙◌, subst, ◌↔◌, inl, inr, true, false, List, [],
  ◌∷◌, ◌++◌, append-nil, append_assoc, arith, bind_cong, bind-ok,
}
use jkq.Cli.Partitions.Selects.{parse_selection_sound, Selects, parse_selection_complete}
use jkq.Cli.{max_assigned_partitions}
use jkq.Text.{split, trim}
use jkq.Cli.Partitions.{
  parse_partitions, parse_selection, add_values, add_selections, add_selection, add_partitions,
  Selected, exceeds_limit,
}
use jkq.Cli.Partitions.Distinct.{
  IsDistinct, IsSeen, add_partitions_sound, IsDistinct-front, add_partitions_complete,
}
use jkq.Map.{get, values}

-- The entries of the options, which commas part.
abbrev pub entries : List Bytes → List Bytes
entries [] = []
entries (value ∷ more) = split b',' value ++ entries more

-- Entry by entry, the first and the last partition that it selects.
pub data Reads : List Bytes → List (ℕ × ℕ) → Type 0 where
  none_left : Reads [] []
  one_more :
      {text : Bytes} {texts : List Bytes} {start end : ℕ} {ranges : List (ℕ × ℕ)}
      → Selects (trim text) start end
      → Reads texts ranges
      → Reads (text ∷ texts) ((start, end) ∷ ranges)

abbrev pub expand : List (ℕ × ℕ) → List ℕ
expand [] = []
expand ((start, end) ∷ ranges) = range_from start (end - start + 1) ++ expand ranges

pub record IsSelection (values : List Bytes) (partitions : List ℕ) : Type 0 where
  pub ranges : List (ℕ × ℕ)
  pub read : Reads (entries values) ranges
  pub expanded : partitions ≡ expand ranges
  pub distinct : IsDistinct partitions
  pub few : leb (length partitions) max_assigned_partitions ≡ true

add_selections-append :
    (xs ys : List Bytes) (s : Selected)
    → add_selections (xs ++ ys) s ≡ (add_selections xs s >>= add_selections ys)
unfolding add_selections
add_selections-append [] ys s = refl
add_selections-append (x ∷ xs) ys s = elim (Result-cases (add_selection x s)) [
  | inl (e, f) ↦ rw f refl
  | inr (t, f) ↦ rw f (add_selections-append xs ys t)
]

add_values-entries :
    (values : List Bytes) (s : Selected) → add_values values s ≡ add_selections (entries values) s
unfolding add_values
add_values-entries [] s = unfold add_selections in refl
add_values-entries (value ∷ more) s =
    bind_cong (add_selections (split b',' value) s) (add_values more)
      (add_selections (entries more)) (add_values-entries more)
    ∙ sym (add_selections-append (split b',' value) (entries more) s)

within_limit :
    (n more : ℕ)
    → exceeds_limit (checked_add n more) ≡ false
    → leb (n + more) max_assigned_partitions ≡ true
within_limit n more h = ground arith

add_selection_sound :
    (text : Bytes) (partitions : List ℕ) (seen : List (ℕ × Unit {0})) (result : Selected)
    → IsSeen partitions seen
    → IsDistinct partitions
    → leb (length partitions) max_assigned_partitions ≡ true
    → add_selection text (partitions, seen) ≡ ok result
    → (start : ℕ) × ((end : ℕ) × ((parse_selection (trim text) ≡ ok (start, end))
          × ((result.0 ≡ partitions ++ range_from start (end - start + 1))
              × ((IsDistinct result.0 × IsSeen result.0 result.1)
                  × (leb (length result.0) max_assigned_partitions ≡ true)))))
unfolding add_selection
add_selection_sound text partitions seen result s d few h =
    elim (Result-cases (parse_selection (trim text))) [
      | inl (e, f) ↦ absurd (ground arith)
      | inr ((start, end), f) ↦
          let within : exceeds_limit (checked_add (length partitions) (end - start + 1)) ≡ false =
            ground arith in
          let added : add_partitions (range_from start (end - start + 1)) (partitions, seen)
              ≡ ok result =
            ground arith in
          let (e, (distinct, known)) =
            add_partitions_sound (range_from start (end - start + 1)) partitions seen result s d
              added in
          let total : length result.0 ≡ length partitions + (end - start + 1) =
            ap length e
            ∙ (length-append partitions (range_from start (end - start + 1))
                ∙ ap (λ n. length partitions + n) (length-range_from start (end - start + 1))) in
          let still : leb (length result.0) max_assigned_partitions ≡ true =
            ap (λ n. leb n max_assigned_partitions) total
            ∙ within_limit (length partitions) (end - start + 1) within in
          (start, (end, (f, (e, ((distinct, known), still)))))
    ]

add_selections_sound :
    (texts : List Bytes) (partitions : List ℕ) (seen : List (ℕ × Unit {0})) (result : Selected)
    → IsSeen partitions seen
    → IsDistinct partitions
    → leb (length partitions) max_assigned_partitions ≡ true
    → add_selections texts (partitions, seen) ≡ ok result
    → (ranges : List (ℕ × ℕ)) × (Reads texts ranges
        × ((result.0 ≡ partitions ++ expand ranges)
            × (IsDistinct result.0 × (leb (length result.0) max_assigned_partitions ≡ true))))
unfolding add_selections
add_selections_sound [] partitions seen result s d few h =
    let same : (partitions, seen) ≡ result = ground arith in
    let e : result.0 ≡ partitions = ap (λ r. r.0) (sym same) in
    (
      [],
      (
        none_left,
        (
          e ∙ sym (append-nil partitions),
          (
            subst IsDistinct (sym e) d,
            subst (λ p. leb (length p) max_assigned_partitions ≡ true) (sym e) few,
          ),
        ),
      ),
    )
add_selections_sound (text ∷ texts) partitions seen result s d few h =
    let ((between, seen'), (first, others)) =
      bind-ok (add_selection text (partitions, seen)) (add_selections texts) result h in
    let (start, (end, (f, (e, ((distinct, known), still))))) =
      add_selection_sound text partitions seen (between, seen') s d few first in
    let (ranges, (read, (expanded, rest))) =
      add_selections_sound texts between seen' result known distinct still others in
    (
      (start, end) ∷ ranges,
      (
        one_more (parse_selection_sound (trim text) start end f) read,
        (
          expanded
              ∙ (ap (λ p. p ++ expand ranges) e
                  ∙ append_assoc partitions (range_from start (end - start + 1)) (expand ranges)),
          rest,
        ),
      ),
    )

add_selection_complete :
    (text : Bytes) (partitions rest : List ℕ) (seen : List (ℕ × Unit {0})) (start end : ℕ)
    → IsSeen partitions seen
    → parse_selection (trim text) ≡ ok (start, end)
    → IsDistinct (partitions ++ (range_from start (end - start + 1) ++ rest))
    → leb
        (length (partitions ++ (range_from start (end - start + 1) ++ rest)))
        max_assigned_partitions
      ≡ true
    → (seen' : List (ℕ × Unit {0})) × ((add_selection text (partitions, seen)
          ≡ ok (partitions ++ range_from start (end - start + 1), seen'))
        × IsSeen (partitions ++ range_from start (end - start + 1)) seen')
unfolding add_selection
add_selection_complete text partitions rest seen start end s f d few =
    let more : List ℕ = range_from start (end - start + 1) in
    let distinct : IsDistinct (partitions ++ more) =
      IsDistinct-front (partitions ++ more) rest
        (subst IsDistinct (sym (append_assoc partitions more rest)) d) in
    let total : length (partitions ++ (more ++ rest))
        ≡ length partitions + ((end - start + 1) + length rest) =
      length-append partitions (more ++ rest)
      ∙ ap (λ n. length partitions + n)
          (length-append more rest
            ∙ ap (λ n. n + length rest) (length-range_from start (end - start + 1))) in
    let within : exceeds_limit (checked_add (length partitions) (end - start + 1)) ≡ false =
      ground arith in
    let (seen', (e, known)) = add_partitions_complete more partitions seen s distinct in
    (seen', (rw (f, within, add_selection) e, known))

add_selections_complete :
    (texts : List Bytes) (ranges : List (ℕ × ℕ)) (partitions : List ℕ) (seen : List (ℕ × Unit {0}))
    → IsSeen partitions seen
    → Reads texts ranges
    → IsDistinct (partitions ++ expand ranges)
    → leb (length (partitions ++ expand ranges)) max_assigned_partitions ≡ true
    → (seen' : List (ℕ × Unit {0})) × (add_selections texts (partitions, seen)
        ≡ ok (partitions ++ expand ranges, seen'))
unfolding add_selections
add_selections_complete [] (_ ∷ ranges) partitions seen s read d few = elim read [ ]
add_selections_complete (text ∷ texts) [] partitions seen s read d few = elim read [ ]
add_selections_complete [] [] partitions seen s none_left d few =
    (seen, ap (λ p. ok (p, seen)) (sym (append-nil partitions)))
add_selections_complete (text ∷ texts) ((start, end) ∷ ranges) partitions seen s (one_more f read) d
      few =
    let more : List ℕ = range_from start (end - start + 1) in
    let assoc = append_assoc partitions more (expand ranges) in
    let (between, (e, known)) =
      add_selection_complete text partitions (expand ranges) seen start end s
        (parse_selection_complete (trim text) start end f) d few in
    let (seen', later) =
      add_selections_complete texts ranges (partitions ++ more) between known read
        (subst IsDistinct (sym assoc) d)
        (subst (λ p. leb (length p) max_assigned_partitions ≡ true) (sym assoc) few) in
    (seen', rw e (later ∙ ap (λ p. ok (p, seen')) assoc))

-- parse_partitions gives a list of partitions exactly if every comma-separated entry of the
-- options is, trimmed, an i32 that is not negative, or two of them parted at the first dash of
-- which the first is not above the second; the list is those partitions and ranges written out in
-- order; no partition occurs twice in it; and it has at most 100000 partitions.
pub parse_partitions-IsSelection :
    (values : List Bytes) (partitions : List ℕ)
    → (parse_partitions values ≡ ok partitions) ↔ IsSelection values partitions
unfolding parse_partitions
parse_partitions-IsSelection values partitions = (
  λ h.
      let ((found, seen), (added, same)) =
        bind-ok (add_values values ([], [])) (λ (partitions, seen). ok partitions) partitions h in
      let (ranges, (read, (expanded, (distinct, few)))) =
        add_selections_sound (entries values) [] [] (found, seen) (λ k. unfold get in refl) tt refl
          (sym (add_values-entries values ([], [])) ∙ added) in
      let e : found ≡ partitions = ground arith in
      record {
        ranges = ranges;
        read = read;
        expanded = sym e ∙ expanded;
        distinct = subst IsDistinct e distinct;
        few = subst (λ p. leb (length p) max_assigned_partitions ≡ true) e few;
      },
  λ h.
      let (seen, e) =
        add_selections_complete (entries values) h.ranges [] [] (λ k. unfold get in refl) h.read
          (subst IsDistinct h.expanded h.distinct)
          (subst (λ p. leb (length p) max_assigned_partitions ≡ true) h.expanded h.few) in
      rw (add_values-entries values ([], []), e, parse_partitions) (ap ok (sym h.expanded)),
)
