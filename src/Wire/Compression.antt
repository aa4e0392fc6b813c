-- ===== src/Wire/Compression.antt =====
-- Compressed messages: serializeCommand of lib/connection/pool.js with lib/wireprotocol/compression.js, and
-- processMessage of lib/connection/connection.js. The compressors themselves are parameters, which call
-- their callbacks at once. Whether a response is parsed as OP_MSG or as OP_REPLY is up to its op code.
pub mod Transport
mod Tests
use mongodb_core.Errors.{Result, ok, throw, ◌>>=◌, plain_error, new_error}
use mongodb_core.Prelude.{
  ℕ, zero, suc, ◌+◌, String, Bool, true, false, Option, none, some, List, [], ◌∷◌, ◌++◌, contains,
  length, ◌==◌, if◌then◌else◌,
}
use mongodb_core.Prelude.Int.{ℤ, pos, negsuc}
use mongodb_core.Wire.Bytes.{write_int32, read_int32, drop}
use mongodb_core.Wire.Requests.{Header, parse_header, message_header}

pub data Compressor : Type 0 where
  snappy zlib : Compressor

-- `compressorIDs`
abbrev pub compressor_id : Compressor → ℕ
compressor_id snappy = 1
compressor_id zlib = 2

abbrev uncompressible_commands : List String
uncompressible_commands =
    "ismaster" ∷ "saslStart" ∷ "saslContinue" ∷ "getnonce" ∷ "authenticate" ∷ "createUser"
    ∷ "updateUser" ∷ "copydbSaslStart" ∷ "copydbgetnonce" ∷ "copydb" ∷ []

-- `canCompress(command)`, by the name of the command.
unfoldable pub can_compress : String → Bool
can_compress name = if contains uncompressible_commands name then false else true

abbrev message_header_size : ℕ
message_header_size = 16

abbrev compression_details_size : ℕ
compression_details_size = 9

abbrev pub op_compressed : ℕ
op_compressed = 2012

abbrev out_of_range : {A : Type 0} → Result A
out_of_range = throw (new_error plain_error "Index out of range")

-- `OP_COMPRESSED` with its details.
unfoldable pub compressed_message : ℕ → Compressor → ℤ → ℕ → List ℕ → List ℕ
unfolding message_header write_int32
compressed_message request_id c op_code size compressed =
    message_header (message_header_size + compression_details_size + length compressed) request_id
      op_compressed
      (write_int32 op_code ++ (write_int32 (pos size) ++ (compressor_id c ∷ compressed)))

abbrev pub with_op_code :
    (Compressor → List ℕ → Result (List ℕ)) → ℕ → Compressor → List ℕ → Option ℤ → Result (List ℕ)
with_op_code compress request_id c original none = out_of_range
with_op_code compress request_id c original (some op_code) = do
  compressed ← compress c (drop message_header_size original)
  ok (
      compressed_message request_id c op_code (length (drop message_header_size original))
        compressed)

-- `serializeCommand(self, command, callback)`: the compressor that was agreed on, if any, the command's name
-- and request id, and the buffers of the command, concatenated.
unfoldable pub serialize_command :
    (Compressor → List ℕ → Result (List ℕ))
    → Option Compressor
    → String
    → ℕ
    → List ℕ
    → Result (List ℕ)
unfolding can_compress compressed_message read_int32
serialize_command compress none name request_id original = ok original
serialize_command compress (some c) name request_id original =
    if can_compress name
    then with_op_code compress request_id c original (read_int32 12 original)
    else ok original

-- What the connection emits: a response with its header and body, or an error.
pub data Received : Type 0 where
  response : Header → List ℕ → Bool → Received
  not_decompressed corrupt : Received

-- `decompress`: the test for ids that are not supported reads `compressorIDs.length`, which there is none of,
-- so that no id fails it; a message with another id is taken as it is.
unfoldable pub decompress_by :
    (Compressor → List ℕ → Result (List ℕ)) → ℕ → List ℕ → Result (List ℕ)
decompress_by decompress id compressed =
    if id == 1
    then decompress snappy compressed
    else if id == 2
    then decompress zlib compressed
    else ok compressed

abbrev same_length : ℤ → ℕ → Bool
same_length (pos n) m = m == n
same_length (negsuc n) m = false

abbrev decompressed : Header → Result (List ℕ) → Received
decompressed h (throw e) = not_decompressed
decompressed h (ok body) =
    if same_length h.length (length body) then response h body true else corrupt

abbrev inner_header : Header → Option ℤ → Option ℤ → Option Header
inner_header h (some op_code) (some size) = some (record h { op_code = op_code; length = size })
inner_header h _ _ = none

-- The id of the compressor and the bytes after it.
abbrev open_details :
    (Compressor → List ℕ → Result (List ℕ)) → Option Header → List ℕ → Result Received
open_details decompress (some h) (id ∷ compressed) =
    ok (decompressed h (decompress_by decompress id compressed))
open_details decompress _ _ = out_of_range

abbrev is_compressed : Header → Bool
is_compressed h = same_length h.op_code op_compressed

abbrev by_header :
    (Compressor → List ℕ → Result (List ℕ)) → List ℕ → Option Header → Result Received
by_header decompress bytes none = out_of_range
by_header decompress bytes (some h) =
    if is_compressed h
    then open_details decompress (inner_header h (read_int32 16 bytes) (read_int32 20 bytes))
        (drop 24 bytes)
    else ok (response h (drop message_header_size bytes) false)

-- `processMessage(conn, message)`
unfoldable pub process_message : (Compressor → List ℕ → Result (List ℕ)) → List ℕ → Result Received
unfolding parse_header read_int32 decompress_by
process_message decompress bytes = by_header decompress bytes (parse_header bytes)
