-- ===== src/Connection/Framing/Tests.antt =====
-- lib/connection/connection.js, dataHandler, on two short messages.
use mongodb_core.Prelude.{ℕ, ◌≡◌, refl, some, List, [], ◌∷◌, arith}
use mongodb_core.Connection.Framing.{
  Connection, Event, data_handler, receive, new_connection, message,
}
use mongodb_core.Connection.Framing.Bounds.{IsSound, receive-IsSound, new_connection-IsSound}
use mongodb_core.Connection.Framing.Slices.{messages}
use mongodb_core.Connection.Framing.Messages.{receive-messages}
use mongodb_core.Connection.Framing.Lost.{receive-lost, data_handler-cut}

abbrev first : List ℕ
first = 6 ∷ 0 ∷ 0 ∷ 0 ∷ 81 ∷ 82 ∷ []

abbrev second : List ℕ
second = 7 ∷ 0 ∷ 0 ∷ 0 ∷ 91 ∷ 92 ∷ 93 ∷ []

-- The two messages in three chunks.
abbrev chunks : List (List ℕ)
chunks = (6 ∷ 0 ∷ 0 ∷ 0 ∷ []) ∷ (81 ∷ 82 ∷ 7 ∷ 0 ∷ []) ∷ (0 ∷ 0 ∷ 91 ∷ 92 ∷ 93 ∷ []) ∷ []

receive_runs :
    receive chunks (new_connection 100)
    ≡ some (new_connection 100, message first ∷ message second ∷ [])
unfolding receive
receive_runs = refl

receive-IsSound_example :
    (c' : Connection) × (es : List Event) × (receive chunks (new_connection 100) ≡ some (c', es))
    × IsSound c'
receive-IsSound_example = receive-IsSound chunks (new_connection 100) (new_connection-IsSound 100)

receive-messages_example :
    receive chunks (new_connection 100) ≡ some (new_connection 100, messages (first ∷ second ∷ []))
receive-messages_example =
    receive-messages 100 chunks (first ∷ second ∷ []) (omega arith) refl
      ((refl, omega arith, omega arith), ((refl, omega arith, omega arith), tt))

receive-lost_example :
    receive ((6 ∷ []) ∷ (0 ∷ []) ∷ chunks) (new_connection 100)
    ≡ receive ((6 ∷ []) ∷ chunks) (new_connection 100)
receive-lost_example = receive-lost 100 (6 ∷ []) (0 ∷ []) chunks (omega arith) (omega arith)

data_handler-cut_example :
    data_handler (new_connection 7) (7 ∷ 0 ∷ 0 ∷ 0 ∷ 91 ∷ [])
    ≡ some (new_connection 7, message (7 ∷ 0 ∷ 0 ∷ 0 ∷ 91 ∷ []) ∷ [])
data_handler-cut_example =
    data_handler-cut 7 (7 ∷ 0 ∷ 0 ∷ 0 ∷ 91 ∷ []) refl (omega arith) (omega arith)
