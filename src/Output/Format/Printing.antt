-- ===== src/Output/Format/Printing.antt =====
-- Every format can be written so that `CompiledFormat::compile` (src/output.rs) reads it back.
use jkq.Prelude.{
  ◌==◌, if◌then◌else◌, Bool-cases, Bytes, length, is_empty, Result, ok, ℕ, ◌≡◌, refl, sym, subst,
  inl, inr, Bool, true, false, not, some, List, [], ◌∷◌, ◌++◌, append-nil, append_assoc, arith,
}
use jkq.Map.{get}
use jkq.Output.Format.Reading.{Reads, pushed, made, ended, Reads-loop}
use jkq.Output.Tokens.{FormatToken, FormatError}
use jkq.Output.Format.{
  push, token, next_piece, compile, flush_literal, read_hexadecimal, read_placeholder, hex_digit,
  read_escape, placeholders,
}

-- A byte of a literal, with its two special values escaped: `\x25` and `\\`.
unfoldable pub print_byte : ℕ → Bytes
print_byte x =
    if x == 37 then 92 ∷ (120 ∷ (50 ∷ (53 ∷ []))) else if x == 92 then 92 ∷ (92 ∷ []) else x ∷ []

unfoldable pub print_text : Bytes → Bytes
unfolding print_byte
print_text [] = []
print_text (x ∷ text) = print_byte x ++ print_text text

-- The placeholder's letter.
unfoldable pub letter : FormatToken → ℕ
letter (FormatToken.literal text) = 37
letter FormatToken.offset = 111
letter FormatToken.key = 107
letter FormatToken.key_length = 75
letter FormatToken.payload = 115
letter FormatToken.payload_length = 83
letter FormatToken.source_payload_length = 76
letter FormatToken.payload_length_binary = 82
letter FormatToken.topic = 116
letter FormatToken.partition = 112
letter FormatToken.timestamp = 84
letter FormatToken.headers = 104
letter FormatToken.action = 97

unfoldable pub print_format : List FormatToken → Bytes
unfolding print_text letter
print_format [] = []
print_format (FormatToken.literal text ∷ tokens) = print_text text ++ print_format tokens
print_format (t ∷ tokens) = 37 ∷ (letter t ∷ print_format tokens)

-- No literal is empty or follows another.
unfoldable pub IsJoined : Bool → List FormatToken → Type 0
IsJoined after [] = Unit
IsJoined after (FormatToken.literal [] ∷ tokens) = ⊥
IsJoined after (FormatToken.literal (x ∷ text) ∷ tokens) = (after ≡ false) × IsJoined true tokens
IsJoined after (t ∷ tokens) = IsJoined false tokens

eq_of_test : (a b : ℕ) → (a == b) ≡ true → a ≡ b
eq_of_test a b h = ground arith

print_byte-Reads :
    (x : ℕ) (tokens : List FormatToken) (text bytes : Bytes)
    (r : Result FormatError (List FormatToken))
    → Reads tokens (text ++ x ∷ []) bytes r
    → Reads tokens text (print_byte x ++ bytes) r
unfolding print_byte next_piece read_escape read_hexadecimal hex_digit get
print_byte-Reads x tokens text bytes r d = elim (Bool-cases (x == 37)) [
  | inl f ↦
      subst
        (λ y. Reads tokens (text ++ y ∷ []) bytes r → Reads tokens text (print_byte y ++ bytes) r)
        (sym (eq_of_test x 37 f))
        (λ e. pushed tokens text 92 (120 ∷ (50 ∷ (53 ∷ bytes))) 37 bytes r refl e) d
  | inr f ↦ elim (Bool-cases (x == 92)) [
    | inl g ↦
        subst
          (λ y. Reads tokens (text ++ y ∷ []) bytes r → Reads tokens text (print_byte y ++ bytes) r)
          (sym (eq_of_test x 92 g)) (λ e. pushed tokens text 92 (92 ∷ bytes) 92 bytes r refl e) d
    | inr g ↦
        let plain : next_piece x bytes ≡ ok (push x, bytes) = rw (f, g) refl in
        rw (f, g) (pushed tokens text x bytes x bytes r plain d)
  ]
]

print_text-Reads :
    (more : Bytes) (tokens : List FormatToken) (text bytes : Bytes)
    (r : Result FormatError (List FormatToken))
    → Reads tokens (text ++ more) bytes r
    → Reads tokens text (print_text more ++ bytes) r
unfolding print_text
print_text-Reads [] tokens text bytes r d = subst (λ l. Reads tokens l bytes r) (append-nil text) d
print_text-Reads (x ∷ more) tokens text bytes r d =
    subst (λ l. Reads tokens text l r) (sym (append_assoc (print_byte x) (print_text more) bytes))
      (print_byte-Reads x tokens text (print_text more ++ bytes) r (
        print_text-Reads more tokens (text ++ x ∷ []) bytes r
          (subst (λ l. Reads tokens l bytes r) (sym (append_assoc text (x ∷ []) more)) d)))

letter_placeholder :
    (t : FormatToken) → (letter t == 37) ≡ false → get (letter t) placeholders ≡ some t
unfolding letter get
letter_placeholder t h = ground arith

-- One token further, with the rest read after it.
letter-Reads :
    (t : FormatToken) (ts tokens : List FormatToken) (text bytes : Bytes)
    → (letter t == 37) ≡ false
    → Reads
        (flush_literal tokens text ++ t ∷ [])
        []
        bytes
        (ok ((flush_literal tokens text ++ t ∷ []) ++ ts))
    → Reads tokens text (37 ∷ (letter t ∷ bytes)) (ok (flush_literal tokens text ++ t ∷ ts))
unfolding next_piece read_placeholder
letter-Reads t ts tokens text bytes h d =
    let found : next_piece 37 (letter t ∷ bytes) ≡ ok (token t, bytes) =
      rw (letter_placeholder t h) refl in
    made tokens text 37 (letter t ∷ bytes) t bytes (ok (flush_literal tokens text ++ t ∷ ts)) found
      (subst (λ l. Reads (flush_literal tokens text ++ t ∷ []) [] bytes (ok l))
        (append_assoc (flush_literal tokens text) (t ∷ []) ts) d)

print_format-Reads :
    (ts tokens : List FormatToken) (text : Bytes)
    → IsJoined (not (is_empty text)) ts
    → Reads tokens text (print_format ts) (ok (flush_literal tokens text ++ ts))
unfolding print_format IsJoined
print_format-Reads [] tokens text h =
    subst (λ l. Reads tokens text [] (ok l)) (sym (append-nil (flush_literal tokens text)))
      (ended tokens text)
print_format-Reads (FormatToken.literal [] ∷ ts) tokens text h = absurd h
print_format-Reads (FormatToken.literal (x ∷ more) ∷ ts) tokens [] (e, h) =
    print_text-Reads (x ∷ more) tokens [] (print_format ts)
      (ok (tokens ++ FormatToken.literal (x ∷ more) ∷ ts))
      (subst (λ l. Reads tokens (x ∷ more) (print_format ts) (ok l))
        (append_assoc tokens (FormatToken.literal (x ∷ more) ∷ []) ts)
        (print_format-Reads ts tokens (x ∷ more) h))
print_format-Reads (FormatToken.literal (x ∷ more) ∷ ts) tokens (y ∷ text) (e, h) =
    absurd (ground arith)
print_format-Reads (FormatToken.offset ∷ ts) tokens text h =
    letter-Reads FormatToken.offset ts tokens text (print_format ts) refl
      (print_format-Reads ts (flush_literal tokens text ++ FormatToken.offset ∷ []) [] h)
print_format-Reads (FormatToken.key ∷ ts) tokens text h =
    letter-Reads FormatToken.key ts tokens text (print_format ts) refl
      (print_format-Reads ts (flush_literal tokens text ++ FormatToken.key ∷ []) [] h)
print_format-Reads (FormatToken.key_length ∷ ts) tokens text h =
    letter-Reads FormatToken.key_length ts tokens text (print_format ts) refl
      (print_format-Reads ts (flush_literal tokens text ++ FormatToken.key_length ∷ []) [] h)
print_format-Reads (FormatToken.payload ∷ ts) tokens text h =
    letter-Reads FormatToken.payload ts tokens text (print_format ts) refl
      (print_format-Reads ts (flush_literal tokens text ++ FormatToken.payload ∷ []) [] h)
print_format-Reads (FormatToken.payload_length ∷ ts) tokens text h =
    letter-Reads FormatToken.payload_length ts tokens text (print_format ts) refl
      (print_format-Reads ts (flush_literal tokens text ++ FormatToken.payload_length ∷ []) [] h)
print_format-Reads (FormatToken.source_payload_length ∷ ts) tokens text h =
    letter-Reads FormatToken.source_payload_length ts tokens text (print_format ts) refl (
      print_format-Reads ts (flush_literal tokens text ++ FormatToken.source_payload_length ∷ []) []
        h)
print_format-Reads (FormatToken.payload_length_binary ∷ ts) tokens text h =
    letter-Reads FormatToken.payload_length_binary ts tokens text (print_format ts) refl (
      print_format-Reads ts (flush_literal tokens text ++ FormatToken.payload_length_binary ∷ []) []
        h)
print_format-Reads (FormatToken.topic ∷ ts) tokens text h =
    letter-Reads FormatToken.topic ts tokens text (print_format ts) refl
      (print_format-Reads ts (flush_literal tokens text ++ FormatToken.topic ∷ []) [] h)
print_format-Reads (FormatToken.partition ∷ ts) tokens text h =
    letter-Reads FormatToken.partition ts tokens text (print_format ts) refl
      (print_format-Reads ts (flush_literal tokens text ++ FormatToken.partition ∷ []) [] h)
print_format-Reads (FormatToken.timestamp ∷ ts) tokens text h =
    letter-Reads FormatToken.timestamp ts tokens text (print_format ts) refl
      (print_format-Reads ts (flush_literal tokens text ++ FormatToken.timestamp ∷ []) [] h)
print_format-Reads (FormatToken.headers ∷ ts) tokens text h =
    letter-Reads FormatToken.headers ts tokens text (print_format ts) refl
      (print_format-Reads ts (flush_literal tokens text ++ FormatToken.headers ∷ []) [] h)
print_format-Reads (FormatToken.action ∷ ts) tokens text h =
    letter-Reads FormatToken.action ts tokens text (print_format ts) refl
      (print_format-Reads ts (flush_literal tokens text ++ FormatToken.action ∷ []) [] h)

-- Every format whose literals are not empty and do not follow one another compiles from its
-- printed source, in which a literal's percent signs and backslashes are escaped and every other
-- token is its placeholder.
pub compile-print_format :
    (tokens : List FormatToken) → IsJoined false tokens → compile (print_format tokens) ≡ ok tokens
unfolding compile
compile-print_format tokens h =
    Reads-loop (length (print_format tokens)) [] [] (print_format tokens) (ok tokens) (ground arith)
      (print_format-Reads tokens [] [] h)
