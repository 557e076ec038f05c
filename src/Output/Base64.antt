-- ===== src/Output/Base64.antt =====
-- `write_base64` of src/output.rs. The shifts and masks on bytes are written as division and
-- remainder.
pub mod Chunks
pub mod Decode
use jkq.Prelude.{
  ltb, ◌==◌, if◌then◌else◌, is_some, Bytes, length, Result, ok, ◌>>=◌, ◌>>◌, ℕ, ◌+◌, ◌-◌, ◌*◌, ◌/◌,
  ◌%◌, ◌^◌, Option, none, some, [], ◌∷◌, ◌++◌,
}
use jkq.Output.Writer.{Writer, WriteError, Output, write_bytes}

-- `TABLE`: A to Z, a to z, 0 to 9, + and /.
unfoldable pub table : ℕ → ℕ
table n =
    if ltb n 26
    then 65 + n
    else if ltb n 52
    then 71 + n
    else if ltb n 62
    then n - 4
    else if n == 62
    then 43
    else 47

abbrev byte_or_zero : Option ℕ → ℕ
byte_or_zero none = 0
byte_or_zero (some b) = b

-- The four characters of a chunk. A missing byte counts as 0, and its character is `=`.
unfoldable pub encode_chunk : ℕ → Option ℕ → Option ℕ → Bytes
unfolding table
encode_chunk a b c =
    let bits : ℕ = a * 2 ^ 16 + byte_or_zero b * 2 ^ 8 + byte_or_zero c in
    table (bits / 2 ^ 18 % 64)
    ∷ (table (bits / 2 ^ 12 % 64)
        ∷ ((if is_some b then table (bits / 2 ^ 6 % 64) else 61)
            ∷ ((if is_some c then table (bits % 64) else 61) ∷ [])))

-- Room for characters before they are written.
abbrev pub buffer_size : ℕ
buffer_size = 4096

module _ (w : Writer) where
  -- Before a chunk that the buffer has no room for.
  unfoldable pub make_room : Bytes → Output w → Result WriteError (Bytes × Output w)
  make_room encoded o =
      if ltb buffer_size (length encoded + 4)
      then (do o' ← write_bytes w encoded o; ok ([], o'))
      else ok (encoded, o)

  unfoldable pub base64_loop : Bytes → Bytes → Output w → Result WriteError (Output w)
  unfolding make_room encode_chunk
  base64_loop encoded [] o = write_bytes w encoded o
  base64_loop encoded (a ∷ []) o = do
    (room, o') ← make_room encoded o
    write_bytes w (room ++ encode_chunk a none none) o'
  base64_loop encoded (a ∷ (b ∷ [])) o = do
    (room, o') ← make_room encoded o
    write_bytes w (room ++ encode_chunk a (some b) none) o'
  base64_loop encoded (a ∷ (b ∷ (c ∷ rest))) o = do
    (room, o') ← make_room encoded o
    base64_loop (room ++ encode_chunk a (some b) (some c)) rest o'

  unfoldable pub write_base64 : Bytes → Output w → Result WriteError (Output w)
  unfolding base64_loop
  write_base64 input o = base64_loop [] input o
