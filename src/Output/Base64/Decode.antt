-- ===== src/Output/Base64/Decode.antt =====
-- The characters of `write_base64` (src/output.rs) determine the bytes.
use jkq.Prelude.{
  leb, ◌==◌, if◌then◌else◌, Bytes, is_empty, All, ℕ, ◌+◌, ◌-◌, ◌*◌, ◌/◌, ◌%◌, ◌^◌, ◌<◌, ◌≡◌, refl,
  ap, ◌∙◌, false, ◌&&◌, Option, none, some, [], ◌∷◌, arith,
}
use jkq.Output.Base64.{table, encode_chunk}
use jkq.Output.Base64.Chunks.{base64}

-- The place of a character in `TABLE`.
unfoldable pub table_index : ℕ → Option ℕ
table_index x =
    if leb 65 x && leb x 90
    then some (x - 65)
    else if leb 97 x && leb x 122
    then some (x - 71)
    else if leb 48 x && leb x 57
    then some (x + 4)
    else if x == 43
    then some 62
    else if x == 47
    then some 63
    else none

table_index-table : (n : ℕ) → n < 64 → table_index (table n) ≡ some n
unfolding table table_index
table_index-table n h = ground arith

unfoldable pub decode : Bytes → Option Bytes
decode [] = some []
decode (x ∷ (y ∷ (z ∷ (u ∷ rest)))) = elim (table_index x) [
  | none ↦ none
  | some i ↦ elim (table_index y) [
    | none ↦ none
    | some j ↦
        if z == 61
        then (if u == 61 && is_empty rest then some ((i * 4 + j / 16) ∷ []) else none)
        else (elim (table_index z) [
          | none ↦ none
          | some k ↦
              if u == 61
              then (if is_empty rest
                  then some ((i * 4 + j / 16) ∷ ((j % 16 * 16 + k / 4) ∷ []))
                  else none)
              else (elim (table_index u) [
                | none ↦ none
                | some l ↦ elim (decode rest) [
                  | none ↦ none
                  | some more ↦
                      some ((i * 4 + j / 16) ∷ ((j % 16 * 16 + k / 4) ∷ ((k % 4 * 64 + l) ∷ more)))
                ]
              ])
        ])
  ]
]
decode _ = none

table-pad : (n : ℕ) → n < 64 → (table n == 61) ≡ false
unfolding table
table-pad n h = ground arith

decode-one :
    (i j : ℕ)
    → i < 64
    → j < 64
    → decode (table i ∷ (table j ∷ (61 ∷ (61 ∷ [])))) ≡ some ((i * 4 + j / 16) ∷ [])
unfolding decode
decode-one i j hi hj = rw (decode, table_index-table i hi, table_index-table j hj) refl

decode-two :
    (i j k : ℕ)
    → i < 64
    → j < 64
    → k < 64
    → decode (table i ∷ (table j ∷ (table k ∷ (61 ∷ []))))
      ≡ some ((i * 4 + j / 16) ∷ ((j % 16 * 16 + k / 4) ∷ []))
unfolding decode
decode-two i j k hi hj hk =
    rw
      (
        decode,
        table_index-table i hi,
        table_index-table j hj,
        table-pad k hk,
        table_index-table k hk,
      )
      refl

decode-three :
    (i j k l : ℕ) (rest more : Bytes)
    → i < 64
    → j < 64
    → k < 64
    → l < 64
    → decode rest ≡ some more
    → decode (table i ∷ (table j ∷ (table k ∷ (table l ∷ rest))))
      ≡ some ((i * 4 + j / 16) ∷ ((j % 16 * 16 + k / 4) ∷ ((k % 4 * 64 + l) ∷ more)))
unfolding decode
decode-three i j k l rest more hi hj hk hl e =
    rw
      (
        decode,
        table_index-table i hi,
        table_index-table j hj,
        table-pad k hk,
        table_index-table k hk,
        table-pad l hl,
        table_index-table l hl,
        e,
      )
      refl

decode-nil : decode [] ≡ some []
unfolding decode
decode-nil = refl

-- The three bytes of 24 bits, from its four digits.
bits-bytes :
    (a b c bits : ℕ)
    → a < 256
    → b < 256
    → c < 256
    → bits ≡ a * 2 ^ 16 + b * 2 ^ 8 + c
    → (bits / 2 ^ 18 % 64 * 4 + bits / 2 ^ 12 % 64 / 16 ≡ a)
      × ((bits / 2 ^ 12 % 64 % 16 * 16 + bits / 2 ^ 6 % 64 / 4 ≡ b)
          × (bits / 2 ^ 6 % 64 % 4 * 64 + bits % 64 ≡ c))
bits-bytes a b c bits ha hb hc e = (omega arith, (omega arith, omega arith))

-- The encodings of the chunks of any bytes, one after another, decode by the inverse of the table
-- to those bytes, padding included.
pub decode-base64 : (input : Bytes) → All (λ b. b < 256) input → decode (base64 input) ≡ some input
unfolding base64 encode_chunk
decode-base64 [] h = decode-nil
decode-base64 (a ∷ []) (ha, h) =
    let bits : ℕ = a * 2 ^ 16 + 0 * 2 ^ 8 + 0 in
    let (first, others) = bits-bytes a 0 0 bits ha (omega arith) (omega arith) refl in
    decode-one (bits / 2 ^ 18 % 64) (bits / 2 ^ 12 % 64) (omega arith) (omega arith)
    ∙ ap (λ x. some (x ∷ [])) first
decode-base64 (a ∷ (b ∷ [])) (ha, (hb, h)) =
    let bits : ℕ = a * 2 ^ 16 + b * 2 ^ 8 + 0 in
    let (first, (second, others)) = bits-bytes a b 0 bits ha hb (omega arith) refl in
    decode-two (bits / 2 ^ 18 % 64) (bits / 2 ^ 12 % 64) (bits / 2 ^ 6 % 64) (omega arith)
      (omega arith) (omega arith)
    ∙ rw (first, second) refl
decode-base64 (a ∷ (b ∷ (c ∷ rest))) (ha, (hb, (hc, h))) =
    let bits : ℕ = a * 2 ^ 16 + b * 2 ^ 8 + c in
    let (first, (second, third)) = bits-bytes a b c bits ha hb hc refl in
    decode-three (bits / 2 ^ 18 % 64) (bits / 2 ^ 12 % 64) (bits / 2 ^ 6 % 64) (bits % 64)
      (base64 rest) rest (omega arith) (omega arith) (omega arith) (omega arith)
      (decode-base64 rest h)
    ∙ rw (first, second, third) refl
