-- ===== src/Connection/Framing/Lost.antt =====
-- lib/connection/connection.js, dataHandler: the bytes that it loses or cuts off.
use mongodb_core.Prelude.{
  ℕ, ap, zero, suc, ◌+◌, ◌≤◌, ◌<◌, ◌≡◌, refl, Option, none, some, List, [], ◌∷◌, arith, length,
}
use mongodb_core.Prelude.Int.{pos}
use mongodb_core.Wire.Bytes.{take, drop}
use mongodb_core.Connection.Framing.{
  Connection, Event, next, go_on, emitted, round, read_size, sized, rounds, data_handler, receive,
  new_connection, message,
}
use mongodb_core.Connection.Framing.Rounds.{idle, round-few, round-stuck}

kept_back :
    (max : ℕ) (p : List ℕ)
    → length p ≤ 4
    → data_handler (new_connection max) p ≡ some (idle max p, [])
unfolding data_handler rounds
kept_back max [] few = refl
kept_back max (a ∷ p) few = ap (go_on (rounds (0 + length (a ∷ p)))) (round-few max (a ∷ p) few)

dropped :
    (max : ℕ) (p q : List ℕ)
    → 0 < length p
    → length p + length q ≤ 4
    → data_handler (idle max p) q ≡ some (idle max p, [])
unfolding data_handler rounds
dropped max p [] kept few = refl
dropped max p (b ∷ q) kept few =
    ap (go_on (rounds (length p + length (b ∷ q)))) (round-stuck max p (b ∷ q) kept few)

-- The first bytes of a message are lost if they come in three chunks of four bytes at most in all: the
-- second chunk changes nothing, so that what follows is read as if it had never come.
pub receive-lost :
    (max : ℕ) (p q : List ℕ) (chunks : List (List ℕ))
    → 0 < length p
    → length p + length q ≤ 4
    → receive (p ∷ q ∷ chunks) (new_connection max) ≡ receive (p ∷ chunks) (new_connection max)
unfolding receive
receive-lost max p q chunks kept few =
    rw (kept_back max p (omega arith), dropped max p q kept few)
      (no_events (receive chunks (idle max p)))
  where
    no_events : (o : Option (Connection × List Event)) → emitted [] (emitted [] o) ≡ emitted [] o
    no_events none = refl
    no_events (some (c, es)) = refl

take_all : (n : ℕ) (x : List ℕ) → length x ≤ n → take n x ≡ x
take_all zero [] h = refl
take_all zero (a ∷ x) h = absurd (omega arith)
take_all (suc n) [] h = refl
take_all (suc n) (a ∷ x) h = ap (λ l. a ∷ l) (take_all n x (omega arith))

drop_all : (n : ℕ) (x : List ℕ) → length x ≤ n → drop n x ≡ []
drop_all zero [] h = refl
drop_all zero (a ∷ x) h = absurd (omega arith)
drop_all (suc n) [] h = refl
drop_all (suc n) (a ∷ x) h = drop_all n x (omega arith)

round-cut :
    (max : ℕ) (bytes : List ℕ)
    → read_size bytes ≡ pos max
    → 4 < length bytes
    → length bytes ≤ max
    → round (new_connection max) bytes ≡ next (new_connection max) [] (message bytes ∷ [])
unfolding round sized
round-cut max bytes size long short = ground (arith, take_all max bytes, drop_all max bytes)

-- A message of the greatest size that is allowed is not collected: its first chunk is delivered as if it
-- were the message, and nothing is kept.
pub data_handler-cut :
    (max : ℕ) (bytes : List ℕ)
    → read_size bytes ≡ pos max
    → 4 < length bytes
    → length bytes ≤ max
    → data_handler (new_connection max) bytes ≡ some (new_connection max, message bytes ∷ [])
unfolding data_handler rounds
data_handler-cut max [] size long short = absurd (omega arith)
data_handler-cut max (b ∷ bytes) size long short =
    ap (go_on (rounds (0 + length (b ∷ bytes)))) (round-cut max (b ∷ bytes) size long short)
