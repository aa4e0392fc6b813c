-- ===== src/Wire/Requests.antt =====
-- lib/connection/commands.js, the requests, and parseHeader of lib/wireprotocol/shared.js. A namespace
-- and the documents are given by their bytes, as UTF-8 and the BSON library make them; a buffer is the
-- list of its bytes from front to back.
pub mod Headers
mod Tests
use mongodb_core.Prelude.{
  ℕ, ◌+◌, ◌*◌, Bool, true, false, Option, none, some, List, [], ◌∷◌, ◌++◌, length, if◌then◌else◌,
}
use mongodb_core.Prelude.Int.{ℤ, pos, negsuc}
use mongodb_core.Wire.Bytes.{write_int32, read_int32}

pub record Header : Type 0 where
  pub length : ℤ
  pub request_id : ℤ
  pub response_to : ℤ
  pub op_code : ℤ

abbrev header_of : Option ℤ → Option ℤ → Option ℤ → Option ℤ → Option Header
header_of (some l) (some q) (some p) (some o) =
    some (record { length = l; request_id = q; response_to = p; op_code = o })
header_of _ _ _ _ = none

-- `parseHeader(message)`
unfoldable pub parse_header : List ℕ → Option Header
unfolding read_int32
parse_header m = header_of (read_int32 0 m) (read_int32 4 m) (read_int32 8 m) (read_int32 12 m)

abbrev pub op_query : ℕ
op_query = 2004

abbrev pub op_getmore : ℕ
op_getmore = 2005

abbrev pub op_kill_cursors : ℕ
op_kill_cursors = 2007

-- The four numbers that each message begins with.
unfoldable pub message_header : ℕ → ℕ → ℕ → List ℕ → List ℕ
unfolding write_int32
message_header total request_id op_code rest =
    write_int32 (pos total)
    ++ (write_int32 (pos request_id)
        ++ (write_int32 (pos 0) ++ (write_int32 (pos op_code) ++ rest)))

pub record Query : Type 0 where
  pub ns : List ℕ
  pub query : List ℕ
  pub projection : Option (List ℕ)
  pub request_id : ℕ
  pub number_to_skip : ℤ
  pub batch_size : ℤ
  pub tailable : Bool
  pub slave_ok : Bool
  pub oplog_replay : Bool
  pub no_cursor_timeout : Bool
  pub await_data : Bool
  pub exhaust : Bool
  pub partial : Bool

abbrev bit : Bool → ℕ → ℕ
bit b n = if b then n else 0

-- The flags are different bits, so that their `|` is the sum.
abbrev query_flags : Query → ℕ
query_flags q =
    bit q.tailable 2
    + bit q.slave_ok 4
    + bit q.oplog_replay 8
    + bit q.no_cursor_timeout 16
    + bit q.await_data 32
    + bit q.exhaust 64
    + bit q.partial 128

-- The size for which the header buffer is allocated.
abbrev query_header_length : Query → ℕ
query_header_length q = 4 * 4 + 4 + length q.ns + 1 + 4 + 4

abbrev pub projection_bytes : Option (List ℕ) → List ℕ
projection_bytes none = []
projection_bytes (some p) = p

abbrev pub query_length : Query → ℕ
query_length q = query_header_length q + length q.query + length (projection_bytes q.projection)

abbrev query_header : Query → List ℕ
query_header q = message_header (query_length q) q.request_id op_query (
    write_int32 (pos (query_flags q))
    ++ (q.ns ++ (0 ∷ (write_int32 q.number_to_skip ++ write_int32 q.batch_size))))

abbrev pub projection_buffers : Option (List ℕ) → List (List ℕ)
projection_buffers none = []
projection_buffers (some p) = p ∷ []

-- `Query.toBin()`. The number to return is the batch size.
unfoldable pub query_to_bin : Query → List (List ℕ)
unfolding message_header
query_to_bin q = query_header q ∷ q.query ∷ projection_buffers q.projection

-- A cursor id by its two halves.
pub record Long : Type 0 where
  pub low_bits : ℤ
  pub high_bits : ℤ

pub record GetMore : Type 0 where
  pub ns : List ℕ
  pub request_id : ℕ
  pub number_to_return : ℤ
  pub cursor_id : Long

abbrev pub get_more_length : GetMore → ℕ
get_more_length g = 4 + length g.ns + 1 + 4 + 8 + 4 * 4

-- `GetMore.toBin()`
unfoldable pub get_more_to_bin : GetMore → List ℕ
unfolding message_header
get_more_to_bin g = message_header (get_more_length g) g.request_id op_getmore (
    write_int32 (pos 0)
    ++ (g.ns
        ++ (0
            ∷ (write_int32 g.number_to_return
                ++ (write_int32 g.cursor_id.low_bits ++ write_int32 g.cursor_id.high_bits)))))

pub record KillCursor : Type 0 where
  pub request_id : ℕ
  pub cursor_ids : List Long

abbrev pub kill_cursor_length : KillCursor → ℕ
kill_cursor_length k = 4 + 4 + 4 * 4 + length k.cursor_ids * 8

unfoldable pub write_cursor_ids : List Long → List ℕ
unfolding write_int32
write_cursor_ids [] = []
write_cursor_ids (c ∷ cs) =
    write_int32 c.low_bits ++ (write_int32 c.high_bits ++ write_cursor_ids cs)

-- `KillCursor.toBin()`
unfoldable pub kill_cursor_to_bin : KillCursor → List ℕ
unfolding message_header write_cursor_ids
kill_cursor_to_bin k = message_header (kill_cursor_length k) k.request_id op_kill_cursors (
    write_int32 (pos 0)
    ++ (write_int32 (pos (length k.cursor_ids)) ++ write_cursor_ids k.cursor_ids))
