-- ===== src/Output/Tests.antt =====
-- src/output.rs at concrete formats and records.
use jkq.Prelude.{ok, err, ◌≡◌, refl, none, some, List, [], ◌∷◌, arith}
use jkq.Output.Base64.{write_base64}
use jkq.Output.Base64.Chunks.{base64, write_base64-append_text}
use jkq.Output.Base64.Decode.{decode, decode-base64}
use jkq.Output.Format.Reading.{compile_fuel}
use jkq.Output.Format.Printing.{IsJoined, compile-print_format, print_format}
use jkq.Output.Numbers.{read_be_i32, read-length_be_bytes}
use jkq.Output.Render.Text.{append_text, format_text}
use jkq.Output.Render.Vector.{write_to-vec, length_beyond_binary}
use jkq.Output.Tokens.{FormatToken}
use jkq.Int.{pos}
use jkq.Records.{Header}
use jkq.Output.Render.{Payload, EmittedAction, OutputRecord, write_to, requirements}
use jkq.Output.Render.Requirements.{stripped, write_to-stripped}
use jkq.Output.Writer.{payload_too_long, write_decimal, write_bytes, vec_writer, length_be_bytes}
use jkq.Map.{get}
use jkq.Output.Format.{compile, compile_loop}

-- `%p,\x41\n%%`
mixed :
    compile (37 ∷ (112 ∷ (44 ∷ (92 ∷ (120 ∷ (52 ∷ (49 ∷ (92 ∷ (110 ∷ (37 ∷ (37 ∷ [])))))))))))
    ≡ ok (
        FormatToken.partition
        ∷ (FormatToken.literal (44 ∷ (65 ∷ (10 ∷ []))) ∷ (FormatToken.literal (37 ∷ []) ∷ [])))
unfolding compile get
mixed = refl

abbrev tokens : List FormatToken
tokens =
    FormatToken.partition
    ∷ (FormatToken.literal (44 ∷ (37 ∷ []))
        ∷ (FormatToken.payload_length_binary ∷ (FormatToken.headers ∷ [])))

abbrev sample_header : Header
sample_header = record { name = 104 ∷ []; value = none }

abbrev sample : OutputRecord
sample = record {
  topic = 116 ∷ [];
  partition = pos 12;
  offset = pos 5;
  timestamp = none;
  key = some (1 ∷ []);
  headers = sample_header ∷ (sample_header ∷ []);
  source_payload_length = some 2;
  payload = Payload.bytes (7 ∷ (8 ∷ []));
  action = EmittedAction.project;
}

-- `12,%`, the length 2 in four bytes, `h=NULL,h=NULL`.
rendered :
    write_to vec_writer tokens sample []
    ≡ ok (
      (49
          ∷ (50
              ∷ (44
                  ∷ (37
                      ∷ (0
                          ∷ (0
                              ∷ (0
                                  ∷ (2
                                      ∷ (104
                                          ∷ (61
                                              ∷ (78
                                                  ∷ (85
                                                      ∷ (76
                                                          ∷ (76
                                                            ∷ (44
                                                            ∷ (104
                                                            ∷ (61
                                                            ∷ (78
                                                            ∷ (85
                                                            ∷ (76 ∷ (76 ∷ []))))))))))))))))))))),
      21,
    )
unfolding write_to write_bytes write_decimal
rendered = refl

compile-print_format_example : compile (print_format tokens) ≡ ok tokens
unfolding IsJoined
compile-print_format_example = compile-print_format tokens (refl, tt)

compile_fuel_example : compile_loop 9 [] [] (37 ∷ (112 ∷ [])) ≡ compile (37 ∷ (112 ∷ []))
compile_fuel_example = compile_fuel 9 (37 ∷ (112 ∷ [])) (ground arith)

write_to-vec_example :
    write_to vec_writer tokens sample (9 ∷ []) ≡ (elim (length_beyond_binary tokens (some 2)) [
      | some n ↦ err (payload_too_long n)
      | none ↦ append_text (format_text sample tokens) ((9 ∷ []), 0)
    ])
write_to-vec_example = write_to-vec tokens sample (9 ∷ [])

write_to-stripped_example :
    write_to vec_writer tokens (stripped (requirements tokens) sample) []
    ≡ write_to vec_writer tokens sample []
write_to-stripped_example = write_to-stripped vec_writer tokens sample []

read-length_be_bytes_example : read_be_i32 (length_be_bytes (some 70000)) ≡ some (pos 70000)
read-length_be_bytes_example = read-length_be_bytes (some 70000) refl

-- `AQI=` of the bytes 1 and 2.
encoded : write_base64 vec_writer (1 ∷ (2 ∷ [])) ([], 0) ≡ ok ((65 ∷ (81 ∷ (73 ∷ (61 ∷ [])))), 4)
unfolding write_base64 write_bytes
encoded = refl

write_base64-append_text_example :
    write_base64 vec_writer (1 ∷ (2 ∷ (3 ∷ (4 ∷ [])))) ((7 ∷ []), 1)
    ≡ append_text (base64 (1 ∷ (2 ∷ (3 ∷ (4 ∷ []))))) ((7 ∷ []), 1)
write_base64-append_text_example =
    write_base64-append_text (1 ∷ (2 ∷ (3 ∷ (4 ∷ [])))) ((7 ∷ []), 1) (ground arith)

decode-base64_example :
    decode (base64 (1 ∷ (2 ∷ (255 ∷ (4 ∷ []))))) ≡ some (1 ∷ (2 ∷ (255 ∷ (4 ∷ []))))
decode-base64_example =
    decode-base64 (1 ∷ (2 ∷ (255 ∷ (4 ∷ []))))
      (ground arith, (ground arith, (ground arith, (ground arith, tt))))
