-- ===== src/Wire/Msg.antt =====
-- lib/connection/msg.js: messages with sections. A document is given by its bytes, which the BSON library
-- makes, and the result of a parse by the bytes of its documents, as with the option `raw`. A read
-- out of range throws. `writeInt32LE` throws for a number out of range; the encoding is of messages
-- whose numbers are in range.
pub mod Sections
mod Tests
use mongodb_core.Errors.{Result, ok, throw, ◌>>=◌, plain_error, new_error}
use mongodb_core.Prelude.{
  ℕ, zero, suc, ◌+◌, ◌*◌, ◌/◌, ◌%◌, Bool, true, false, Option, none, some, List, [], ◌∷◌, ◌++◌,
  length, ◌==◌, if◌then◌else◌,
}
use mongodb_core.Prelude.Int.{ℤ, pos}
use mongodb_core.Wire.Bytes.{write_int32, drop, take, read_uint32}
use mongodb_core.Wire.Requests.{message_header}

pub record Msg : Type 0 where
  pub request_id : ℕ
  pub command : List ℕ
  pub checksum_present : Bool
  pub more_to_come : Bool
  pub exhaust_allowed : Bool

abbrev pub op_msg : ℕ
op_msg = 2013

abbrev pub bit : Bool → ℕ → ℕ
bit b n = if b then n else 0

-- Different bits, so that `|` is the sum.
abbrev pub msg_flags : Msg → ℕ
msg_flags m = bit m.checksum_present 1 + bit m.more_to_come 2 + bit m.exhaust_allowed 65536

abbrev make_document_segment : List ℕ → List ℕ
make_document_segment document = 0 ∷ document

abbrev pub msg_length : Msg → ℕ
msg_length m = 4 * 4 + 4 + length (make_document_segment m.command)

-- `Msg.toBin()`, its buffers put together.
unfoldable pub msg_to_bin : Msg → List ℕ
unfolding message_header write_int32
msg_to_bin m =
    message_header (msg_length m) m.request_id op_msg
      (write_int32 (pos (msg_flags m)) ++ make_document_segment m.command)

pub record Flags : Type 0 where
  pub checksum_present : Bool
  pub more_to_come : Bool
  pub exhaust_allowed : Bool

-- `(flags & 2^k) !== 0`, for `d` = 2^k
abbrev has_bit : ℕ → ℕ → Bool
has_bit flags d = flags / d % 2 == 1

abbrev pub flags_of : Option ℕ → Option Flags
flags_of none = none
flags_of (some w) = some (record {
  checksum_present = has_bit w 1;
  more_to_come = has_bit w 2;
  exhaust_allowed = has_bit w 65536;
})

-- The flags that the constructor of `BinMsg` reads from the body of a message.
unfoldable pub read_flags : List ℕ → Option Flags
read_flags body = flags_of (read_uint32 body)

-- One document of `bsonSize` bytes, and what is left.
abbrev pub document_at : Option ℕ → List ℕ → Result (List ℕ × List ℕ)
document_at none bs = throw (new_error plain_error "Index out of range")
document_at (some size) bs = ok (take size bs, drop size bs)

abbrev pub prepend : List ℕ → Result (List (List ℕ)) → Result (List (List ℕ))
prepend d (ok ds) = ok (d ∷ ds)
prepend d (throw e) = throw e

-- The loop of `parse` over the bytes from the index on: a byte that is no payload type 0 is passed over.
-- There are as many rounds as fuel; each takes a byte at least.
abbrev pub after_document :
    (List ℕ → Result (List (List ℕ))) → Result (List ℕ × List ℕ) → Result (List (List ℕ))
after_document rest (throw e) = throw e
after_document rest (ok (d, bs)) = prepend d (rest bs)

unfoldable pub parse_step :
    Bool → (List ℕ → Result (List (List ℕ))) → List ℕ → Result (List (List ℕ))
parse_step true rest bs = after_document rest (document_at (read_uint32 bs) bs)
parse_step false rest bs = rest bs

unfoldable pub parse_sections : ℕ → List ℕ → Result (List (List ℕ))
unfolding parse_step
parse_sections fuel [] = ok []
parse_sections zero (b ∷ bs) = throw (new_error plain_error "out of fuel")
parse_sections (suc n) (b ∷ bs) = parse_step (b == 0) (parse_sections n) bs

-- `BinMsg.parse({ raw: true })` on the body of a message.
unfoldable pub parse_body : List ℕ → Result (List (List ℕ))
unfolding parse_sections
parse_body body = parse_sections (length body) (drop 4 body)
