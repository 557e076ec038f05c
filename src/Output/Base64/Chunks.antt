-- ===== src/Output/Base64/Chunks.antt =====
-- The buffer of `write_base64` (src/output.rs) does not show in what a vector receives.
use jkq.Prelude.{
  ltb, if◌then◌else◌, Bool-cases, Bytes, length, Result, ok, err, ◌>>=◌, ◌+◌, ◌≡◌, refl, sym, ◌∙◌,
  subst, inl, inr, none, some, [], ◌∷◌, ◌++◌, append-nil, append_assoc,
}
use jkq.Output.Writer.{WriteError, Output, write_bytes, vec_writer}
use jkq.Output.Base64.{encode_chunk, make_room, base64_loop, write_base64, buffer_size}
use jkq.Output.Render.Text.{append_text, Appends, Appends-then, IsCounted, write_bytes-Appends}

-- The text, chunk by chunk.
unfoldable pub base64 : Bytes → Bytes
unfolding encode_chunk
base64 [] = []
base64 (a ∷ []) = encode_chunk a none none
base64 (a ∷ (b ∷ [])) = encode_chunk a (some b) none
base64 (a ∷ (b ∷ (c ∷ rest))) = encode_chunk a (some b) (some c) ++ base64 rest

abbrev noted : Output vec_writer → Result WriteError (Bytes × Output vec_writer)
noted o = ok ([], o)

bind-keep :
    (r : Result WriteError (Output vec_writer))
    (f : Bytes → Output vec_writer → Result WriteError (Output vec_writer))
    → ((r >>= noted) >>= λ q. f q.0 q.1) ≡ (r >>= f [])
bind-keep (ok o) f = refl
bind-keep (err e) f = refl

-- What follows goes on from the emptied or the kept buffer alike.
make_room-then :
    (encoded later : Bytes) (f : Bytes → Output vec_writer → Result WriteError (Output vec_writer))
    → ((kept : Bytes) → Appends (f kept) (kept ++ later))
    → Appends (λ o. make_room vec_writer encoded o >>= λ q. f q.0 q.1) (encoded ++ later)
unfolding make_room
make_room-then encoded later f h o c = elim (Bool-cases (ltb buffer_size (length encoded + 4))) [
  | inl t ↦
      rw (t, if◌then◌else◌)
        (bind-keep (write_bytes vec_writer encoded o) f
          ∙ Appends-then (write_bytes vec_writer encoded) (f []) encoded later
              (write_bytes-Appends encoded) (h []) o c)
  | inr t ↦ rw (t, if◌then◌else◌) (h encoded o c)
]

base64_loop-Appends :
    (encoded input : Bytes)
    → Appends (base64_loop vec_writer encoded input) (encoded ++ base64 input)
unfolding base64_loop base64
base64_loop-Appends encoded [] =
    subst (Appends (write_bytes vec_writer encoded)) (sym (append-nil encoded))
      (write_bytes-Appends encoded)
base64_loop-Appends encoded (a ∷ []) =
    make_room-then encoded (encode_chunk a none none)
      (λ room. write_bytes vec_writer (room ++ encode_chunk a none none))
      (λ kept. write_bytes-Appends (kept ++ encode_chunk a none none))
base64_loop-Appends encoded (a ∷ (b ∷ [])) =
    make_room-then encoded (encode_chunk a (some b) none)
      (λ room. write_bytes vec_writer (room ++ encode_chunk a (some b) none))
      (λ kept. write_bytes-Appends (kept ++ encode_chunk a (some b) none))
base64_loop-Appends encoded (a ∷ (b ∷ (c ∷ rest))) =
    make_room-then encoded (encode_chunk a (some b) (some c) ++ base64 rest)
      (λ room. base64_loop vec_writer (room ++ encode_chunk a (some b) (some c)) rest)
      (λ kept.
        subst (Appends (base64_loop vec_writer (kept ++ encode_chunk a (some b) (some c)) rest))
          (append_assoc kept (encode_chunk a (some b) (some c)) (base64 rest))
          (base64_loop-Appends (kept ++ encode_chunk a (some b) (some c)) rest))

-- Where the count so far is a machine word, write_base64 appends to a vector the encodings of the
-- three-byte chunks of its input one after another, or fails where the count leaves a machine
-- word: its buffer of 4096 characters does not show.
pub write_base64-append_text :
    (input : Bytes) (o : Output vec_writer)
    → IsCounted o
    → write_base64 vec_writer input o ≡ append_text (base64 input) o
unfolding write_base64
write_base64-append_text input o c = base64_loop-Appends [] input o c
