-- ===== src/Wire/Compression/Transport.antt =====
-- Compressed messages: what is sent compressed is received as it was.
use mongodb_core.Errors.{Result, ok, ◌>>=◌}
use mongodb_core.Prelude.{
  ℕ, ◌+◌, ◌<◌, ◌≡◌, refl, ap, ◌∙◌, String, true, some, List, ◌∷◌, ◌++◌, arith, length, ==_iff,
}
use mongodb_core.Prelude.Int.{pos}
use mongodb_core.Wire.Bytes.{write_int32, read_int32, drop}
use mongodb_core.Wire.Bytes.RoundTrip.{word-pos}
use mongodb_core.Wire.Requests.{parse_header, message_header}
use mongodb_core.Wire.Requests.Headers.{request, parse_header-message_header}
use mongodb_core.Wire.Compression.{
  Compressor, snappy, zlib, compressor_id, can_compress, op_compressed, compressed_message,
  serialize_command, with_op_code, response, decompress_by, process_message,
}

module _ (total id op : ℕ) (rest : List ℕ) where
  body-message_header : drop 16 (message_header total id op rest) ≡ rest
  unfolding message_header write_int32
  body-message_header = refl

  op_code-message_header :
      op < 2147483648 → read_int32 12 (message_header total id op rest) ≡ some (pos op)
  unfolding message_header write_int32 read_int32
  op_code-message_header h = rw (word-pos op h) refl

-- A compressed message with the id of any compressor.
abbrev pub framed : ℕ → ℕ → ℕ → ℕ → List ℕ → List ℕ
framed id op size compressor z =
    message_header (25 + length z) id op_compressed
      (write_int32 (pos op) ++ (write_int32 (pos size) ++ (compressor ∷ z)))

module _ (id op size compressor : ℕ) (z : List ℕ) where
  details-op_code : op < 2147483648 → read_int32 16 (framed id op size compressor z) ≡ some (pos op)
  unfolding message_header write_int32 read_int32
  details-op_code h = rw (word-pos op h) refl

  details-size :
      size < 2147483648 → read_int32 20 (framed id op size compressor z) ≡ some (pos size)
  unfolding message_header write_int32 read_int32
  details-size h = rw (word-pos size h) refl

  details-rest : drop 24 (framed id op size compressor z) ≡ compressor ∷ z
  unfolding message_header write_int32
  details-rest = refl

  details-header :
      25 + length z < 2147483648
      → id < 2147483648
      → parse_header (framed id op size compressor z)
        ≡ some (request (25 + length z) id op_compressed)
  details-header h i =
      parse_header-message_header (25 + length z) id op_compressed _ h i (omega arith)

compressed_message-framed :
    (id op size : ℕ) (c : Compressor) (z : List ℕ)
    → compressed_message id c (pos op) size z ≡ framed id op size (compressor_id c) z
unfolding compressed_message
compressed_message-framed id op size c z = refl

-- The body of a framed message, when its compressor's id gives a body of the size that it says.
process_message-framed :
    (decompress : Compressor → List ℕ → Result (List ℕ)) (id op compressor : ℕ) (body z : List ℕ)
    → decompress_by decompress compressor z ≡ ok body
    → length body < 2147483648
    → 25 + length z < 2147483648
    → id < 2147483648
    → op < 2147483648
    → process_message decompress (framed id op (length body) compressor z)
      ≡ ok (response (request (length body) id op) body true)
unfolding process_message
process_message-framed decompress id op compressor body z decomp small short i o =
    rw
      (
        details-header id op (length body) compressor z short i,
        details-op_code id op (length body) compressor z o,
        details-size id op (length body) compressor z small,
        details-rest id op (length body) compressor z,
        decomp,
        (==_iff (length body) (length body)).1 refl,
      )
      refl

decompress_by-compressor_id :
    (decompress : Compressor → List ℕ → Result (List ℕ)) (c : Compressor) (z : List ℕ)
    → decompress_by decompress (compressor_id c) z ≡ decompress c z
unfolding decompress_by
decompress_by-compressor_id decompress snappy z = refl
decompress_by-compressor_id decompress zlib z = refl

serialize_command-compressed :
    (compress : Compressor → List ℕ → Result (List ℕ)) (c : Compressor) (name : String)
    (total id op : ℕ) (rest z : List ℕ)
    → can_compress name ≡ true
    → compress c rest ≡ ok z
    → op < 2147483648
    → serialize_command compress (some c) name id (message_header total id op rest)
      ≡ ok (compressed_message id c (pos op) (length rest) z)
unfolding serialize_command
serialize_command-compressed compress c name total id op rest z can comp o =
    let original = message_header total id op rest in
    rw can (
      ap (with_op_code compress id c original) (op_code-message_header total id op rest o)
      ∙ ap (λ b. compress c b >>= λ y. ok (compressed_message id c (pos op) (length b) y))
          (body-message_header total id op rest)
      ∙ ap (λ r. r >>= λ y. ok (compressed_message id c (pos op) (length rest) y)) comp)

-- A command that may be compressed, and whose compressed bytes decompress to what they were made of, is sent
-- as a message from which the receiver reads the op code, the request id and the body of the command, as
-- long as the numbers are signed 32-bit numbers.
pub process_message-serialize_command :
    (compress decompress : Compressor → List ℕ → Result (List ℕ)) (c : Compressor) (name : String)
    (total id op : ℕ) (rest z : List ℕ)
    → can_compress name ≡ true
    → compress c rest ≡ ok z
    → decompress c z ≡ ok rest
    → length rest < 2147483648
    → 25 + length z < 2147483648
    → id < 2147483648
    → op < 2147483648
    → (bytes : List ℕ) × (serialize_command compress
          (some c)
          name
          id
          (message_header total id op rest)
        ≡ ok bytes)
      × (process_message decompress bytes ≡ ok (response (request (length rest) id op) rest true))
process_message-serialize_command compress decompress c name total id op rest z can comp decomp
      small short i o =
    (
      compressed_message id c (pos op) (length rest) z,
      serialize_command-compressed compress c name total id op rest z can comp o,
      ap (process_message decompress) (compressed_message-framed id op (length rest) c z)
          ∙ process_message-framed decompress id op (compressor_id c) rest z
              (decompress_by-compressor_id decompress c z ∙ decomp) small short i o,
    )

taken :
    (decompress : Compressor → List ℕ → Result (List ℕ)) (compressor : ℕ) (z : List ℕ)
    → 2 < compressor
    → decompress_by decompress compressor z ≡ ok z
unfolding decompress_by
taken decompress compressor z h = ground arith

-- A message under an id of no known compressor is not refused: its body is taken as it came, if it has the
-- size that the details say.
process_message-unknown :
    (decompress : Compressor → List ℕ → Result (List ℕ)) (id op compressor : ℕ) (body : List ℕ)
    → 2 < compressor
    → id < 2147483648
    → op < 2147483648
    → 25 + length body < 2147483648
    → process_message decompress (framed id op (length body) compressor body)
      ≡ ok (response (request (length body) id op) body true)
process_message-unknown decompress id op compressor body unknown i o short =
    process_message-framed decompress id op compressor body body
      (taken decompress compressor body unknown) (omega arith) short i o
