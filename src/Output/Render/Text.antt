-- ===== src/Output/Render/Text.antt =====
-- What `CompiledFormat::write_to` (src/output.rs) puts into a vector, as one text.
use jkq.Prelude.{
  ltb, ◌==◌, if◌then◌else◌, ltb→lt, Bool-cases, Bytes, length, length-append, Result, ok, err,
  ◌>>=◌, word_mod, ℕ, ◌+◌, ◌<◌, ◌≡◌, refl, sym, ◌∙◌, subst, inl, inr, false, Option, none, some,
  List, [], ◌∷◌, ◌++◌, append-nil, append_assoc, arith,
}
use jkq.Int.{ℤ, pos, negsuc}
use jkq.Records.{Header}
use jkq.Output.Tokens.{FormatToken}
use jkq.Output.Writer.{
  WriteError, Output, write_bytes, write_decimal, length_be_bytes, count_overflowed, vec_writer,
  display,
}
use jkq.Output.Render.{
  payload_length, OutputRecord, action_text, timestamp_or_minus_one, or_empty, payload_bytes,
  null_text, write_header_value, write_headers,
}

abbrev value_text : Option Bytes → Bytes
value_text none = null_text
value_text (some value) = value

abbrev header_text : Header → Bytes
header_text header = header.name ++ (61 ∷ value_text header.value)

abbrev later_headers_text : List Header → Bytes
later_headers_text [] = []
later_headers_text (header ∷ rest) = (44 ∷ header_text header) ++ later_headers_text rest

-- Separated by commas.
abbrev pub headers_text : List Header → Bytes
headers_text [] = []
headers_text (header ∷ rest) = header_text header ++ later_headers_text rest

abbrev pub number_text : Option ℕ → Bytes
number_text none = display (negsuc 0)
number_text (some n) = display (pos n)

abbrev pub length_of : Option Bytes → Option ℕ
length_of none = none
length_of (some key) = some (length key)

abbrev pub token_text : OutputRecord → FormatToken → Bytes
token_text r (FormatToken.literal text) = text
token_text r FormatToken.offset = display r.offset
token_text r FormatToken.key = or_empty r.key
token_text r FormatToken.key_length = number_text (length_of r.key)
token_text r FormatToken.payload = or_empty (payload_bytes r.payload)
token_text r FormatToken.payload_length = number_text (payload_length r.payload)
token_text r FormatToken.source_payload_length = number_text r.source_payload_length
token_text r FormatToken.payload_length_binary = length_be_bytes (payload_length r.payload)
token_text r FormatToken.topic = r.topic
token_text r FormatToken.partition = display r.partition
token_text r FormatToken.timestamp = display (timestamp_or_minus_one r.timestamp)
token_text r FormatToken.headers = headers_text r.headers
token_text r FormatToken.action = action_text r.action

abbrev pub format_text : OutputRecord → List FormatToken → Bytes
format_text r [] = []
format_text r (t ∷ tokens) = token_text r t ++ format_text r tokens

-- A text is appended as a whole, unless the count leaves a machine word.
abbrev pub append_text : Bytes → Output vec_writer → Result WriteError (Output vec_writer)
append_text text (output, written) =
    if ltb (written + length text) word_mod
    then ok (output ++ text, written + length text)
    else err count_overflowed

write_bytes-append_text :
    (text : Bytes) (o : Output vec_writer) → write_bytes vec_writer text o ≡ append_text text o
unfolding write_bytes
write_bytes-append_text text (output, written) = ground arith

write_decimal-append_text :
    (value : ℤ) (o : Output vec_writer)
    → write_decimal vec_writer value o ≡ append_text (display value) o
unfolding write_decimal
write_decimal-append_text value (output, written) = ground arith

pub append_text-append :
    (a b : Bytes) (o : Output vec_writer)
    → (append_text a o >>= append_text b) ≡ append_text (a ++ b) o
append_text-append a b (output, written) =
    let lengths = length-append a b in let texts = append_assoc output a b in ground arith

pub append_text-nil : (o : Output vec_writer) → o.1 < word_mod → append_text [] o ≡ ok o
append_text-nil (output, written) h = let text = append-nil output in ground arith

abbrev pub IsCounted : Output vec_writer → Type 0
IsCounted (output, written) = written < word_mod

-- `writes` appends a text wherever the count is a machine word.
abbrev pub Appends : (Output vec_writer → Result WriteError (Output vec_writer)) → Bytes → Type 0
Appends writes text = (o : Output vec_writer) → IsCounted o → writes o ≡ append_text text o

pub append_text-cong :
    (a b : Bytes) (f : Output vec_writer → Result WriteError (Output vec_writer))
    (o : Output vec_writer)
    → Appends f b
    → (append_text a o >>= f) ≡ (append_text a o >>= append_text b)
append_text-cong a b f (output, written) g = elim (Bool-cases (ltb (written + length a) word_mod)) [
  | inl t ↦ rw t (g (output ++ a, written + length a) (ltb→lt (written + length a) word_mod t))
  | inr t ↦ rw t refl
]

-- One write after another.
pub Appends-then :
    (f g : Output vec_writer → Result WriteError (Output vec_writer)) (a b : Bytes)
    → Appends f a
    → Appends g b
    → Appends (λ o. f o >>= g) (a ++ b)
Appends-then f g a b hf hg o c =
    rw (hf o c) (append_text-cong a b g o hg ∙ append_text-append a b o)

write_header_value-Appends :
    (value : Option Bytes) → Appends (write_header_value vec_writer value) (value_text value)
unfolding write_header_value
write_header_value-Appends none o c = write_bytes-append_text null_text o
write_header_value-Appends (some v) o c = write_bytes-append_text v o

pub write_bytes-Appends : (text : Bytes) → Appends (write_bytes vec_writer text) text
write_bytes-Appends text o c = write_bytes-append_text text o

pub write_decimal-Appends : (value : ℤ) → Appends (write_decimal vec_writer value) (display value)
write_decimal-Appends value o c = write_decimal-append_text value o

-- A round of the loop over the headers, after its comma.
abbrev write_header :
    ℕ → Header → List Header → Output vec_writer → Result WriteError (Output vec_writer)
write_header index header rest o1 = do
  o2 ← write_bytes vec_writer header.name o1
  o3 ← write_bytes vec_writer (61 ∷ []) o2
  o4 ← write_header_value vec_writer header.value o3
  write_headers vec_writer (index + 1) rest o4

header-Appends :
    (index : ℕ) (header : Header) (rest : List Header) (tail : Bytes)
    → Appends (write_headers vec_writer (index + 1) rest) tail
    → Appends (write_header index header rest) (header_text header ++ tail)
header-Appends index header rest tail t =
    subst (Appends (write_header index header rest))
      (sym (append_assoc header.name (61 ∷ value_text header.value) tail))
      (Appends-then (write_bytes vec_writer header.name)
        (λ o2. do
          o3 ← write_bytes vec_writer (61 ∷ []) o2
          o4 ← write_header_value vec_writer header.value o3
          write_headers vec_writer (index + 1) rest o4)
        header.name (61 ∷ (value_text header.value ++ tail)) (write_bytes-Appends header.name)
        (Appends-then (write_bytes vec_writer (61 ∷ []))
          (λ o3. do
            o4 ← write_header_value vec_writer header.value o3
            write_headers vec_writer (index + 1) rest o4)
          (61 ∷ []) (value_text header.value ++ tail) (write_bytes-Appends (61 ∷ []))
          (Appends-then (write_header_value vec_writer header.value)
            (write_headers vec_writer (index + 1) rest) (value_text header.value) tail
            (write_header_value-Appends header.value) t)))

later_headers-Appends :
    (index : ℕ) (hs : List Header)
    → (index == 0) ≡ false
    → Appends (write_headers vec_writer index hs) (later_headers_text hs)
unfolding write_headers
later_headers-Appends index [] h o c = sym (append_text-nil o c)
later_headers-Appends index (header ∷ rest) h o c =
    let tail = later_headers-Appends (index + 1) rest (ground arith) in
    rw (h, if◌then◌else◌)
      (Appends-then (write_bytes vec_writer (44 ∷ [])) (write_header index header rest) (44 ∷ [])
        (header_text header ++ later_headers_text rest) (write_bytes-Appends (44 ∷ []))
        (header-Appends index header rest (later_headers_text rest) tail) o c)

pub headers-Appends : (hs : List Header) → Appends (write_headers vec_writer 0 hs) (headers_text hs)
unfolding write_headers
headers-Appends [] o c = sym (append_text-nil o c)
headers-Appends (header ∷ rest) o c =
    header-Appends 0 header rest (later_headers_text rest) (later_headers-Appends 1 rest refl) o c
