-- ===== src/Output/Format.antt =====
-- `CompiledFormat::compile` of src/output.rs. Characters are the numbers of their bytes.
pub mod Reading
pub mod Printing
use jkq.Prelude.{
  leb, ◌==◌, if◌then◌else◌, Bytes, length, Result, ok, err, ◌>>=◌, ◌>>◌, ok_or, ℕ, zero, suc, ◌+◌,
  ◌-◌, ◌*◌, ◌&&◌, Option, none, some, List, [], ◌∷◌, ◌++◌,
}
use jkq.Map.{get}
use jkq.Output.Tokens.{FormatToken, FormatError}

abbrev pub flush_literal : List FormatToken → Bytes → List FormatToken
flush_literal tokens [] = tokens
flush_literal tokens (b ∷ bs) = tokens ++ FormatToken.literal (b ∷ bs) ∷ []

-- After `%`: o k K s S L R t p T h a %.
abbrev pub placeholders : List (ℕ × FormatToken)
placeholders =
    (111, FormatToken.offset)
    ∷ ((107, FormatToken.key)
        ∷ ((75, FormatToken.key_length)
            ∷ ((115, FormatToken.payload)
                ∷ ((83, FormatToken.payload_length)
                    ∷ ((76, FormatToken.source_payload_length)
                        ∷ ((82, FormatToken.payload_length_binary)
                            ∷ ((116, FormatToken.topic)
                                ∷ ((112, FormatToken.partition)
                                    ∷ ((84, FormatToken.timestamp)
                                        ∷ ((104, FormatToken.headers)
                                            ∷ ((97, FormatToken.action)
                                                ∷ ((37, FormatToken.literal (37 ∷ []))
                                                    ∷ []))))))))))))

-- After `\`: n r t \; hexadecimal escapes are apart.
abbrev pub escapes : List (ℕ × ℕ)
escapes = (110, 10) ∷ ((114, 13) ∷ ((116, 9) ∷ ((92, 92) ∷ [])))

-- `is_ascii_hexdigit`, with the digit's value.
unfoldable pub hex_digit : ℕ → Option ℕ
hex_digit b =
    if leb 48 b && leb b 57
    then some (b - 48)
    else if leb 97 b && leb b 102
    then some (b - 87)
    else if leb 65 b && leb b 70
    then some (b - 55)
    else none

-- What a round of the loop reads: a byte of a literal, or a token.
pub data Piece : Type 0 where
  push : ℕ → Piece
  token : FormatToken → Piece

unfoldable pub read_placeholder : Bytes → Result FormatError (Piece × Bytes)
read_placeholder [] = err FormatError.incomplete_placeholder
read_placeholder (c ∷ more) = do
  made ← ok_or (get c placeholders) (FormatError.unsupported_placeholder c)
  ok (token made, more)

unfoldable pub read_hexadecimal : Bytes → Result FormatError (Piece × Bytes)
unfolding hex_digit
read_hexadecimal (c ∷ (d ∷ more)) = do
  high ← ok_or (hex_digit c) FormatError.bad_hexadecimal
  low ← ok_or (hex_digit d) FormatError.bad_hexadecimal
  ok (push (high * 16 + low), more)
read_hexadecimal _ = err FormatError.bad_hexadecimal

unfoldable pub read_escape : Bytes → Result FormatError (Piece × Bytes)
unfolding read_hexadecimal
read_escape [] = err FormatError.incomplete_escape
read_escape (c ∷ more) =
    if c == 120
    then read_hexadecimal more
    else (do b ← ok_or (get c escapes) (FormatError.unsupported_escape c); ok (push b, more))

unfoldable pub next_piece : ℕ → Bytes → Result FormatError (Piece × Bytes)
unfolding read_placeholder read_escape
next_piece b rest =
    if b == 37
    then read_placeholder rest
    else if b == 92
    then read_escape rest
    else ok (push b, rest)

-- The `while` loop, on the bytes from the cursor on. Each round reads at least one.
unfoldable pub compile_loop :
    ℕ → List FormatToken → Bytes → Bytes → Result FormatError (List FormatToken)
unfolding next_piece
compile_loop zero tokens text bytes = ok (flush_literal tokens text)
compile_loop (suc fuel) tokens text [] = ok (flush_literal tokens text)
compile_loop (suc fuel) tokens text (b ∷ rest) = elim (next_piece b rest) [
  | err e ↦ err e
  | ok (push x, more) ↦ compile_loop fuel tokens (text ++ x ∷ []) more
  | ok (token made, more) ↦ compile_loop fuel (flush_literal tokens text ++ made ∷ []) [] more
]

unfoldable pub compile : Bytes → Result FormatError (List FormatToken)
unfolding compile_loop
compile source = compile_loop (length source) [] [] source
