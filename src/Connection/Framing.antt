-- ===== src/Connection/Framing.antt =====
-- lib/connection/connection.js, dataHandler: chunks of bytes from the socket are cut into messages. A
-- buffer is the list of its bytes; `null` is the empty one, which the code treats alike. The events are
-- those that the handler emits, in order.
pub mod Bounds
pub mod Slices
pub mod Rounds
pub mod Chunks
pub mod Messages
pub mod Lost
mod Tests
use mongodb_core.Prelude.{
  ℕ, zero, suc, ◌+◌, ◌-◌, ◌*◌, Bool, true, false, ◌&&◌, ◌||◌, Option, none, some, List, [], ◌∷◌,
  ◌++◌, ltb, leb, ◌==◌, if◌then◌else◌, length,
}
use mongodb_core.Prelude.Int.{ℤ, pos, negsuc}
use mongodb_core.Wire.Bytes.{from_word, word_of, take, drop}

pub record Connection : Type 0 where
  pub max_bson_message_size : ℕ
  pub buffer : List ℕ
  pub bytes_read : ℕ
  pub size_of_message : ℕ
  pub stub_buffer : List ℕ

-- `message` has the bytes given to processMessage.
pub data Event : Type 0 where
  message : List ℕ → Event
  parse_error : List ℕ → ℤ → Event

-- One round of the loop: what is left of the chunk, or the early return.
pub data Round : Type 0 where
  next : Connection → List ℕ → List Event → Round
  return : Connection → List Event → Round

-- `Buffer.alloc(n)`
abbrev pub alloc : ℕ → List ℕ
alloc zero = []
alloc (suc n) = 0 ∷ alloc n

-- `data.copy(target, start)`: what does not fit is dropped.
abbrev pub copy : List ℕ → List ℕ → ℕ → List ℕ
copy [] target start = target
copy (x ∷ bytes) [] start = []
copy (x ∷ bytes) (y ∷ target) zero = x ∷ copy bytes target zero
copy (x ∷ bytes) (y ∷ target) (suc start) = y ∷ copy (x ∷ bytes) target start

-- The state without a message in work.
abbrev pub cleared : Connection → Connection
cleared c = record c { buffer = []; bytes_read = 0; size_of_message = 0; stub_buffer = [] }

abbrev pub nonempty : List ℕ → Bool
nonempty [] = false
nonempty (x ∷ bytes) = true

-- `data[0] | (data[1] << 8) | (data[2] << 16) | (data[3] << 24)`, a signed 32-bit number.
abbrev pub read_size : List ℕ → ℤ
read_size (a ∷ b ∷ c ∷ d ∷ bytes) = from_word (word_of a b c d)
read_size _ = pos 0

-- A message is in work, and so many of its bytes are missing.
abbrev rest_of_message : ℕ → Connection → List ℕ → Round
rest_of_message remaining c bytes =
    if ltb (length bytes) remaining
    then next
        (record c {
          buffer = copy bytes c.buffer c.bytes_read;
          bytes_read = c.bytes_read + length bytes;
        })
        [] []
    else next (cleared c) (drop remaining bytes)
        (message (copy (take remaining bytes) c.buffer c.bytes_read) ∷ [])

-- Bytes are kept back in `stubBuffer`. The longer stub that the other branch makes is not stored.
abbrev after_stub : Connection → List ℕ → Round
after_stub c bytes =
    if ltb 4 (length c.stub_buffer + length bytes)
    then next (cleared c) (c.stub_buffer ++ bytes) []
    else next c [] []

-- The branches on the size that a message claims.
unfoldable pub sized : Connection → ℤ → List ℕ → Round
sized c (negsuc n) bytes = return c (parse_error c.buffer (negsuc n) ∷ [])
sized c (pos n) bytes =
    if ltb c.max_bson_message_size n
    then return c (parse_error c.buffer (pos n) ∷ [])
    else if ltb 4 n && ltb n c.max_bson_message_size && ltb (length bytes) n
    then next
        (record c {
          buffer = copy bytes (alloc n) 0;
          bytes_read = length bytes;
          size_of_message = n;
          stub_buffer = [];
        })
        [] []
    else if ltb 4 n && ltb n c.max_bson_message_size && n == length bytes
    then next (cleared c) [] (message bytes ∷ [])
    else if leb n 4 || ltb c.max_bson_message_size n
    then next (cleared c) [] (parse_error bytes (pos n) ∷ [])
    else next (cleared c) (drop n bytes) (message (take n bytes) ∷ [])

-- A new message begins.
abbrev first_bytes : Connection → List ℕ → Round
first_bytes c bytes =
    if ltb 4 (length bytes)
    then sized c (read_size bytes) bytes
    else next (record c { stub_buffer = bytes }) [] []

unfoldable pub round : Connection → List ℕ → Round
unfolding sized
round c bytes =
    if ltb 0 c.bytes_read && ltb 0 c.size_of_message
    then rest_of_message (c.size_of_message - c.bytes_read) c bytes
    else if nonempty c.stub_buffer
    then after_stub c bytes
    else first_bytes c bytes

abbrev pub emitted :
    List Event → Option (Connection × List Event) → Option (Connection × List Event)
emitted es none = none
emitted es (some (c, more)) = some (c, es ++ more)

abbrev pub go_on :
    (Connection → List ℕ → Option (Connection × List Event))
    → Round
    → Option (Connection × List Event)
go_on again (next c bytes es) = emitted es (again c bytes)
go_on again (return c es) = some (c, es)

-- The loop on fuel; `none` means that the fuel ran out.
unfoldable pub rounds : ℕ → Connection → List ℕ → Option (Connection × List Event)
unfolding round
rounds fuel c [] = some (c, [])
rounds zero c (b ∷ bytes) = none
rounds (suc fuel) c (b ∷ bytes) = go_on (rounds fuel) (round c (b ∷ bytes))

-- Each round but the one that takes up the stub uses up a byte.
unfoldable pub data_handler : Connection → List ℕ → Option (Connection × List Event)
unfolding rounds
data_handler c bytes = rounds (suc (length c.stub_buffer + length bytes)) c bytes

abbrev and_then :
    (Connection → Option (Connection × List Event))
    → Option (Connection × List Event)
    → Option (Connection × List Event)
and_then again none = none
and_then again (some (c, es)) = emitted es (again c)

-- The chunks that a socket hands over, one after the other.
unfoldable pub receive : List (List ℕ) → Connection → Option (Connection × List Event)
unfolding data_handler
receive [] c = some (c, [])
receive (bytes ∷ chunks) c = and_then (receive chunks) (data_handler c bytes)

-- `new Connection(…)`
abbrev pub new_connection : ℕ → Connection
new_connection max = record {
  max_bson_message_size = max;
  buffer = [];
  bytes_read = 0;
  size_of_message = 0;
  stub_buffer = [];
}
