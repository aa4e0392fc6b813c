-- ===== src/Wire/Requests/Tests.antt =====
-- lib/connection/commands.js: requests on the namespace `db.c`.
use mongodb_core.Prelude.{ℕ, ◌≡◌, refl, true, false, none, some, List, [], ◌∷◌, length}
use mongodb_core.Prelude.Int.{pos, negsuc}
use mongodb_core.Wire.Requests.{Query, GetMore, query_to_bin, get_more_to_bin, parse_header}
use mongodb_core.Wire.Requests.Headers.{concat, request}

abbrev namespace : List ℕ
namespace = 100 ∷ 98 ∷ 46 ∷ 99 ∷ []

abbrev find_one : Query
find_one = record {
  ns = namespace;
  query = 5 ∷ 0 ∷ 0 ∷ 0 ∷ 0 ∷ [];
  projection = none;
  request_id = 9;
  number_to_skip = pos 0;
  batch_size = negsuc 0;
  tailable = false;
  slave_ok = true;
  oplog_replay = false;
  no_cursor_timeout = false;
  await_data = false;
  exhaust = false;
  partial = false;
}

abbrev more : GetMore
more = record {
  ns = namespace;
  request_id = 10;
  number_to_return = pos 100;
  cursor_id = record { low_bits = negsuc 4; high_bits = pos 7 };
}

find_one_header : parse_header (concat (query_to_bin find_one)) ≡ some (request 38 9 2004)
unfolding query_to_bin parse_header
find_one_header = refl

more_length : length (get_more_to_bin more) ≡ 37
unfolding get_more_to_bin
more_length = refl
