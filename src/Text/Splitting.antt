-- ===== src/Text/Splitting.antt =====
-- Texts that are joined by a separator, taken apart again (src/cli.rs).
use jkq.Prelude.{
  leb, ◌==◌, Bytes, All, ℕ, ◌≡◌, refl, ap, ◌∙◌, true, false, ◌&&◌, some, [], ◌∷◌, ◌++◌, arith,
}
use jkq.Text.{split, split_once, trim, trim_end, trim_start, trim_start_from, white_length}

abbrev pub Lacks : ℕ → Bytes → Type 0
Lacks separator = All (λ b. (b == separator) ≡ false)

pub split-Lacks : (separator : ℕ) (s : Bytes) → Lacks separator s → split separator s ≡ s ∷ []
unfolding split
split-Lacks separator [] h = refl
split-Lacks separator (b ∷ s) (h, hs) = ground (arith, split-Lacks separator s hs)

pub split-join :
    (separator : ℕ) (s rest : Bytes)
    → Lacks separator s
    → split separator (s ++ separator ∷ rest) ≡ s ∷ split separator rest
unfolding split
split-join separator [] rest h = ground arith
split-join separator (b ∷ s) rest (h, hs) = ground (arith, split-join separator s rest hs)

pub split_once-join :
    (separator : ℕ) (s rest : Bytes)
    → Lacks separator s
    → split_once separator (s ++ separator ∷ rest) ≡ some (s, rest)
unfolding split_once
split_once-join separator [] rest h = ground arith
split_once-join separator (b ∷ s) rest (h, hs) = ground (arith, split_once-join separator s rest hs)

-- Printable ASCII other than the blank.
abbrev pub IsVisible : ℕ → Type 0
IsVisible b = (leb 33 b && leb b 126) ≡ true

white_length-visible : (b : ℕ) (s : Bytes) → IsVisible b → white_length (b ∷ s) ≡ 0
unfolding white_length
white_length-visible b [] h = ground arith
white_length-visible b (c ∷ []) h = ground arith
white_length-visible b (c ∷ (d ∷ s)) h = ground arith

trim_start-visible : (b : ℕ) (s : Bytes) → IsVisible b → trim_start (b ∷ s) ≡ b ∷ s
unfolding trim_start trim_start_from
trim_start-visible b s h = ground (arith, white_length-visible b s h)

trim_end-visible : (s : Bytes) → All IsVisible s → trim_end s ≡ s
unfolding trim_end
trim_end-visible [] h = refl
trim_end-visible (b ∷ s) (h, hs) =
    let first = trim_start-visible b s h in
    let others = trim_end-visible s hs in rw (first, others) refl

pub trim-visible : (s : Bytes) → All IsVisible s → trim s ≡ s
unfolding trim
trim-visible [] h = unfold trim_start trim_start_from trim_end in refl
trim-visible (b ∷ s) (h, hs) =
    ap trim_end (trim_start-visible b s h) ∙ trim_end-visible (b ∷ s) (h, hs)
