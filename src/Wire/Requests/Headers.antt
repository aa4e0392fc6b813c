-- ===== src/Wire/Requests/Headers.antt =====
-- lib/connection/commands.js: the header of each request is read back, and its length is that of the bytes.
use mongodb_core.Prelude.{
  ℕ, ◌*◌, ◌<◌, ◌≡◌, refl, ◌∙◌, Option, none, some, List, [], ◌∷◌, ◌++◌, arith, length,
  length-append,
}
use mongodb_core.Prelude.Int.{pos}
use mongodb_core.Wire.Bytes.{write_int32, read_int32}
use mongodb_core.Wire.Bytes.RoundTrip.{word-pos}
use mongodb_core.Wire.Requests.{
  Header, parse_header, message_header, Query, query_length, query_to_bin, op_query,
  projection_bytes, projection_buffers, GetMore, get_more_length, get_more_to_bin, op_getmore,
  KillCursor, kill_cursor_length, kill_cursor_to_bin, op_kill_cursors, write_cursor_ids, Long,
}

-- `Buffer.concat`
abbrev pub concat : List (List ℕ) → List ℕ
concat [] = []
concat (b ∷ bs) = b ++ concat bs

-- The header of a request that is not longer than a signed number can tell.
abbrev pub request : ℕ → ℕ → ℕ → Header
request total request_id op_code = record {
  length = pos total;
  request_id = pos request_id;
  response_to = pos 0;
  op_code = pos op_code;
}

pub parse_header-message_header :
    (total id op : ℕ) (rest : List ℕ)
    → total < 2147483648
    → id < 2147483648
    → op < 2147483648
    → parse_header (message_header total id op rest) ≡ some (request total id op)
unfolding parse_header message_header read_int32 write_int32
parse_header-message_header total id op rest h i o =
    rw (word-pos total h, word-pos id i, word-pos op o) refl

length-projection_buffers :
    (o : Option (List ℕ)) → length (concat (projection_buffers o)) ≡ length (projection_bytes o)
length-projection_buffers none = refl
length-projection_buffers (some p) = length-append p [] ∙ omega arith

-- The header of a query is read back from its bytes, and the length in it is the number of bytes that all
-- its buffers have together, provided that this length and the id of the request are signed 32-bit
-- numbers.
parse_header-query_to_bin :
    (q : Query)
    → query_length q < 2147483648
    → q.request_id < 2147483648
    → (parse_header (concat (query_to_bin q))
        ≡ some (request (query_length q) q.request_id op_query))
      × (length (concat (query_to_bin q)) ≡ query_length q)
unfolding query_to_bin message_header write_int32
parse_header-query_to_bin q h i = (
  parse_header-message_header (query_length q) q.request_id op_query _ h i (omega arith),
  omega (
    arith,
    length-append (q.ns ++ (0 ∷ (write_int32 q.number_to_skip ++ write_int32 q.batch_size)))
        (q.query ++ concat (projection_buffers q.projection)),
    length-append q.ns (0 ∷ (write_int32 q.number_to_skip ++ write_int32 q.batch_size)),
    length-append q.query (concat (projection_buffers q.projection)),
    length-projection_buffers q.projection,
  ),
)

-- The same of a request for more documents of a cursor.
parse_header-get_more_to_bin :
    (g : GetMore)
    → get_more_length g < 2147483648
    → g.request_id < 2147483648
    → (parse_header (get_more_to_bin g)
        ≡ some (request (get_more_length g) g.request_id op_getmore))
      × (length (get_more_to_bin g) ≡ get_more_length g)
unfolding get_more_to_bin message_header write_int32
parse_header-get_more_to_bin g h i = (
  parse_header-message_header (get_more_length g) g.request_id op_getmore _ h i (omega arith),
  omega (
    arith,
    length-append g.ns (
        0
        ∷ (write_int32 g.number_to_return
            ++ (write_int32 g.cursor_id.low_bits ++ write_int32 g.cursor_id.high_bits))),
  ),
)

length-write_cursor_ids : (cs : List Long) → length (write_cursor_ids cs) ≡ length cs * 8
unfolding write_cursor_ids write_int32
length-write_cursor_ids [] = refl
length-write_cursor_ids (c ∷ cs) = omega (arith, length-write_cursor_ids cs)

-- The same of a request to kill cursors.
parse_header-kill_cursor_to_bin :
    (k : KillCursor)
    → kill_cursor_length k < 2147483648
    → k.request_id < 2147483648
    → (parse_header (kill_cursor_to_bin k)
        ≡ some (request (kill_cursor_length k) k.request_id op_kill_cursors))
      × (length (kill_cursor_to_bin k) ≡ kill_cursor_length k)
unfolding kill_cursor_to_bin message_header write_int32
parse_header-kill_cursor_to_bin k h i = (
  parse_header-message_header (kill_cursor_length k) k.request_id op_kill_cursors _ h i
      (omega arith),
  omega (arith, length-write_cursor_ids k.cursor_ids),
)
