-- ===== src/Connection/Framing/Rounds.antt =====
-- lib/connection/connection.js, dataHandler: one round of the loop in each state that holds some bytes of
-- a message.
use mongodb_core.Prelude.{
  ℕ, ◌+◌, ◌-◌, ◌≤◌, ◌<◌, ◌≡◌, List, [], ◌∷◌, ◌++◌, arith, length, length-append,
}
use mongodb_core.Prelude.Int.{pos}
use mongodb_core.Wire.Bytes.{take, drop}
use mongodb_core.Connection.Framing.{Connection, next, alloc, read_size, sized, round, message}
use mongodb_core.Connection.Framing.Slices.{
  copy_after, copy-alloc, filled, take_past, take-length, drop-length,
}

-- The two kinds of state that hold some bytes of a message.
abbrev pub idle : ℕ → List ℕ → Connection
idle max p = record {
  max_bson_message_size = max;
  buffer = [];
  bytes_read = 0;
  size_of_message = 0;
  stub_buffer = p;
}

abbrev pub in_work : ℕ → ℕ → List ℕ → Connection
in_work max n p = record {
  max_bson_message_size = max;
  buffer = p ++ alloc (n - length p);
  bytes_read = length p;
  size_of_message = n;
  stub_buffer = [];
}

module _ (max : ℕ) where
  pub round-more :
      (n : ℕ) (p bytes : List ℕ)
      → 4 < length p
      → length p + length bytes < n
      → round (in_work max n p) bytes ≡ next (in_work max n (p ++ bytes)) [] []
  unfolding round
  round-more n p bytes h l =
      ground (arith, copy_after p bytes (n - length p), length-append p bytes)

  pub round-rest :
      (n : ℕ) (p bytes : List ℕ)
      → 4 < length p
      → length p < n
      → n ≤ length p + length bytes
      → round (in_work max n p) bytes
        ≡ next (idle max []) (drop (n - length p) bytes) (message (take n (p ++ bytes)) ∷ [])
  unfolding round
  round-rest n p bytes h l m = ground (arith, filled p bytes (n - length p), take_past n p bytes)

  pub round-stub :
      (p bytes : List ℕ)
      → 0 < length p
      → 4 < length p + length bytes
      → round (idle max p) bytes ≡ next (idle max []) (p ++ bytes) []
  unfolding round
  round-stub [] bytes h l = absurd (omega arith)
  round-stub (a ∷ p) bytes h l = ground arith

  -- The bytes of this round are dropped.
  pub round-stuck :
      (p bytes : List ℕ)
      → 0 < length p
      → length p + length bytes ≤ 4
      → round (idle max p) bytes ≡ next (idle max p) [] []
  unfolding round
  round-stuck [] bytes h l = absurd (omega arith)
  round-stuck (a ∷ p) bytes h l = ground arith

  pub round-few :
      (bytes : List ℕ) → length bytes ≤ 4 → round (idle max []) bytes ≡ next (idle max bytes) [] []
  unfolding round
  round-few bytes h = ground arith

  pub round-begin :
      (n : ℕ) (bytes : List ℕ)
      → read_size bytes ≡ pos n
      → 4 < length bytes
      → length bytes < n
      → n < max
      → round (idle max []) bytes ≡ next (in_work max n bytes) [] []
  unfolding round sized
  round-begin n bytes e h l m = ground (arith, copy-alloc bytes n)

  pub round-whole :
      (n : ℕ) (bytes : List ℕ)
      → read_size bytes ≡ pos n
      → 4 < n
      → n ≤ length bytes
      → n < max
      → round (idle max []) bytes ≡ next (idle max []) (drop n bytes) (message (take n bytes) ∷ [])
  unfolding round sized
  round-whole n bytes e h l m = ground (arith, take-length bytes, drop-length bytes)
