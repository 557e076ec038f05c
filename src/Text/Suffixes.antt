-- ===== src/Text/Suffixes.antt =====
-- Suffixes of a text that begins with digits (src/cli.rs).
use jkq.Prelude.{
  leb, Option-cases, Bytes, All, ℕ, ◌≡◌, refl, inl, inr, false, ◌&&◌, [], ◌∷◌, ◌++◌, arith,
  map_some,
}
use jkq.Text.{same, strip_suffix}
use jkq.Text.Integers.Printed.{IsDigit}

-- A suffix that begins with another byte is looked for behind the digits.
pub strip_suffix-digits :
    (c : ℕ) (cs digits more : Bytes)
    → (leb b'0' c && leb c b'9') ≡ false
    → All IsDigit digits
    → strip_suffix (c ∷ cs) (digits ++ more)
      ≡ map_some (λ front. digits ++ front) (strip_suffix (c ∷ cs) more)
unfolding strip_suffix
strip_suffix-digits c cs [] more other _ = elim (Option-cases (strip_suffix (c ∷ cs) more)) [
  | inl f ↦ rw (f, strip_suffix) refl
  | inr (rest, f) ↦ rw (f, strip_suffix) refl
]
strip_suffix-digits c cs (d ∷ ds) more other (digit, digits) =
    let later = strip_suffix-digits c cs ds more other digits in
    let apart : same (c ∷ cs) (d ∷ (ds ++ more)) ≡ false = unfold same in ground arith in
    elim (Option-cases (strip_suffix (c ∷ cs) more)) [
      | inl f ↦ ground arith
      | inr (rest, f) ↦ ground arith
    ]
