-- ===== src/Wire/Compression/Tests.antt =====
-- Compressed messages: a compressor that turns the bytes around.
use mongodb_core.Errors.{Result, ok}
use mongodb_core.Prelude.{ℕ, ◌≡◌, refl, true, some, List, [], ◌∷◌, arith}
use mongodb_core.Wire.Requests.{message_header}
use mongodb_core.Wire.Requests.Headers.{request}
use mongodb_core.Wire.Compression.{
  Compressor, zlib, can_compress, serialize_command, process_message, response,
}
use mongodb_core.Wire.Compression.Transport.{process_message-serialize_command}

abbrev turned : List ℕ → List ℕ
turned (a ∷ b ∷ []) = b ∷ a ∷ []
turned bytes = bytes

abbrev turn : Compressor → List ℕ → Result (List ℕ)
turn c bytes = ok (turned bytes)

can_find : can_compress "find" ≡ true
unfolding can_compress
can_find = refl

process_message-serialize_command_example :
    (bytes : List ℕ) × (serialize_command turn
        (some zlib)
        "find"
        5
        (message_header 18 5 2013 (1 ∷ 2 ∷ []))
      ≡ ok bytes)
    × (process_message turn bytes ≡ ok (response (request 2 5 2013) (1 ∷ 2 ∷ []) true))
process_message-serialize_command_example =
    process_message-serialize_command turn turn zlib "find" 18 5 2013 (1 ∷ 2 ∷ []) (2 ∷ 1 ∷ [])
      can_find refl refl (omega arith) (omega arith) (omega arith) (omega arith)
