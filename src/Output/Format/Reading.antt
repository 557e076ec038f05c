-- ===== src/Output/Format/Reading.antt =====
-- What the loop of `CompiledFormat::compile` (src/output.rs) reads, whatever fuel it is given.
use jkq.Prelude.{
  Bytes, length, Result, ok, err, Result-cases, ℕ, zero, suc, ◌≤◌, ◌≡◌, refl, inl, inr, List, [],
  ◌∷◌, ◌++◌, arith,
}
use jkq.Output.Tokens.{FormatToken, FormatError}
use jkq.Output.Format.{
  Piece, push, token, next_piece, compile_loop, compile, flush_literal, read_placeholder,
  read_hexadecimal, read_escape,
}

-- What the loop gives, without fuel.
pub data Reads
    : List FormatToken → Bytes → Bytes → Result FormatError (List FormatToken) → Type 0 where
  ended :
      (tokens : List FormatToken) (text : Bytes)
      → Reads tokens text [] (ok (flush_literal tokens text))
  failed :
      (tokens : List FormatToken) (text : Bytes) (b : ℕ) (rest : Bytes) (e : FormatError)
      → next_piece b rest ≡ err e
      → Reads tokens text (b ∷ rest) (err e)
  pushed :
      (tokens : List FormatToken) (text : Bytes) (b : ℕ) (rest : Bytes) (x : ℕ) (more : Bytes)
      (r : Result FormatError (List FormatToken))
      → next_piece b rest ≡ ok (push x, more)
      → Reads tokens (text ++ x ∷ []) more r
      → Reads tokens text (b ∷ rest) r
  made :
      (tokens : List FormatToken) (text : Bytes) (b : ℕ) (rest : Bytes) (t : FormatToken)
      (more : Bytes) (r : Result FormatError (List FormatToken))
      → next_piece b rest ≡ ok (token t, more)
      → Reads (flush_literal tokens text ++ t ∷ []) [] more r
      → Reads tokens text (b ∷ rest) r

next_piece_shortens :
    (b : ℕ) (rest : Bytes) (p : Piece) (more : Bytes)
    → next_piece b rest ≡ ok (p, more)
    → length more ≤ length rest
unfolding next_piece read_placeholder read_escape read_hexadecimal
next_piece_shortens b [] p more h = ground arith
next_piece_shortens b (c ∷ []) p more h = ground arith
next_piece_shortens b (c ∷ (d ∷ rest)) p more h = ground arith

pub Reads-loop :
    (fuel : ℕ) (tokens : List FormatToken) (text bytes : Bytes)
    (r : Result FormatError (List FormatToken))
    → length bytes ≤ fuel
    → Reads tokens text bytes r
    → compile_loop fuel tokens text bytes ≡ r
unfolding compile_loop
Reads-loop zero _ _ _ _ h (ended tokens text) = refl
Reads-loop (suc fuel) _ _ _ _ h (ended tokens text) = refl
Reads-loop zero _ _ _ _ h (failed tokens text b rest e f) = absurd (ground arith)
Reads-loop zero _ _ _ _ h (pushed tokens text b rest x more r f d) = absurd (ground arith)
Reads-loop zero _ _ _ _ h (made tokens text b rest t more r f d) = absurd (ground arith)
Reads-loop (suc fuel) _ _ _ _ h (failed tokens text b rest e f) = rw (f, compile_loop) refl
Reads-loop (suc fuel) _ _ _ _ h (pushed tokens text b rest x more r f d) =
    let shorter = next_piece_shortens b rest (push x) more f in
    rw (f, compile_loop) (Reads-loop fuel tokens (text ++ x ∷ []) more r (ground arith) d)
Reads-loop (suc fuel) _ _ _ _ h (made tokens text b rest t more r f d) =
    let shorter = next_piece_shortens b rest (token t) more f in
    rw (f, compile_loop)
      (Reads-loop fuel (flush_literal tokens text ++ t ∷ []) [] more r (ground arith) d)

piece-Reads :
    (fuel : ℕ) (tokens : List FormatToken) (text : Bytes) (b : ℕ) (rest : Bytes) (p : Piece)
    (more : Bytes)
    → next_piece b rest ≡ ok (p, more)
    → ((x : ℕ)
        → Reads tokens (text ++ x ∷ []) more (compile_loop fuel tokens (text ++ x ∷ []) more))
    → ((t : FormatToken)
        → Reads
            (flush_literal tokens text ++ t ∷ [])
            []
            more
            (compile_loop fuel (flush_literal tokens text ++ t ∷ []) [] more))
    → Reads tokens text (b ∷ rest) (compile_loop (suc fuel) tokens text (b ∷ rest))
unfolding compile_loop
piece-Reads fuel tokens text b rest (push x) more f pushes makes =
    rw (f, compile_loop)
      (pushed tokens text b rest x more (compile_loop fuel tokens (text ++ x ∷ []) more) f
        (pushes x))
piece-Reads fuel tokens text b rest (token t) more f pushes makes =
    rw (f, compile_loop)
      (made tokens text b rest t more
        (compile_loop fuel (flush_literal tokens text ++ t ∷ []) [] more) f (makes t))

loop-Reads :
    (fuel : ℕ) (tokens : List FormatToken) (text bytes : Bytes)
    → length bytes ≤ fuel
    → Reads tokens text bytes (compile_loop fuel tokens text bytes)
unfolding compile_loop
loop-Reads zero tokens text [] h = ended tokens text
loop-Reads zero tokens text (b ∷ rest) h = absurd (ground arith)
loop-Reads (suc fuel) tokens text [] h = ended tokens text
loop-Reads (suc fuel) tokens text (b ∷ rest) h = elim (Result-cases (next_piece b rest)) [
  | inl (e, f) ↦ rw (f, compile_loop) (failed tokens text b rest e f)
  | inr ((p, more), f) ↦
      let shorter = next_piece_shortens b rest p more f in
      piece-Reads fuel tokens text b rest p more f
        (λ x. loop-Reads fuel tokens (text ++ x ∷ []) more (ground arith))
        (λ t. loop-Reads fuel (flush_literal tokens text ++ t ∷ []) [] more (ground arith))
]

-- The loop of compile gives the same with any fuel from the length of the source on: it has read
-- the whole source, or failed, by then.
pub compile_fuel :
    (fuel : ℕ) (source : Bytes)
    → length source ≤ fuel
    → compile_loop fuel [] [] source ≡ compile source
unfolding compile
compile_fuel fuel source h =
    Reads-loop fuel [] [] source (compile source) h
      (loop-Reads (length source) [] [] source (ground arith))
