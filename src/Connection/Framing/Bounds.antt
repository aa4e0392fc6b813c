-- ===== src/Connection/Framing/Bounds.antt =====
-- lib/connection/connection.js, dataHandler: the buffer of a message in work, and the end of the loop,
-- for all bytes that a socket can hand over.
use mongodb_core.Prelude.{
  ℕ, zero, suc, ◌+◌, ◌-◌, ◌≤◌, ◌<◌, ◌≡◌, refl, subst, ◌⊎◌, inl, inr, Option, none, some, List, [],
  ◌∷◌, ◌++◌, arith, length, length-append,
}
use mongodb_core.Prelude.Int.{ℤ, pos, negsuc}
use mongodb_core.Wire.Bytes.{drop}
use mongodb_core.Connection.Framing.{
  Connection, Event, Round, next, return, alloc, copy, read_size, sized, round, emitted, go_on,
  rounds, data_handler, receive, new_connection,
}

length-alloc : (n : ℕ) → length (alloc n) ≡ n
length-alloc zero = omega arith
length-alloc (suc n) = omega (arith, length-alloc n)

length-copy : (bytes target : List ℕ) (start : ℕ) → length (copy bytes target start) ≡ length target
length-copy [] target start = refl
length-copy (x ∷ bytes) [] start = refl
length-copy (x ∷ bytes) (y ∷ target) zero = omega (arith, length-copy bytes target 0)
length-copy (x ∷ bytes) (y ∷ target) (suc start) =
    omega (arith, length-copy (x ∷ bytes) target start)

pub length-drop : (n : ℕ) (bytes : List ℕ) → length (drop n bytes) ≡ length bytes - n
length-drop zero bytes = omega arith
length-drop (suc n) [] = omega arith
length-drop (suc n) (b ∷ bytes) = omega (arith, length-drop n bytes)

-- Either no message is in work, or its buffer has the size of the message, which is within the limit,
-- and more bytes are to come.
abbrev IsIdle : Connection → Type 0
IsIdle c = (c.bytes_read ≡ 0) × (c.size_of_message ≡ 0) × (length c.stub_buffer ≤ 4)

abbrev IsInWork : Connection → Type 0
IsInWork c =
    (4 < c.bytes_read)
    × (c.bytes_read < c.size_of_message)
    × (c.size_of_message < c.max_bson_message_size)
    × (length c.buffer ≡ c.size_of_message)
    × (length c.stub_buffer ≡ 0)

pub IsSound : Connection → Type 0
IsSound c = IsIdle c ⊎ IsInWork c

-- A round leaves a sound connection, and no more than so many rounds to go.
Leaves : ℕ → ℕ → Round → Type 0
Leaves max n (next c bytes es) =
    IsSound c
    × (c.max_bson_message_size ≡ max)
    × ((length bytes ≡ 0) ⊎ ((length c.stub_buffer ≡ 0) × (length bytes ≤ n)))
Leaves max n (return c es) = IsSound c × (c.max_bson_message_size ≡ max)

sized-Leaves :
    (n : ℕ) (c : Connection) (z : ℤ) (bytes : List ℕ)
    → IsIdle c
    → length c.stub_buffer ≡ 0
    → 4 < length bytes
    → length bytes ≤ suc n
    → Leaves c.max_bson_message_size n (sized c z bytes)
unfolding sized Leaves IsSound
sized-Leaves n c (negsuc k) bytes idle none_kept long few = (inl idle, refl)
sized-Leaves n c (pos k) bytes idle none_kept long few =
    ground (arith, length-copy bytes (alloc k) 0, length-alloc k, length-drop k bytes)

-- A round needs a byte, unless it takes up the bytes that were kept back.
round-Leaves :
    (n : ℕ) (c : Connection) (b : ℕ) (bytes : List ℕ)
    → IsSound c
    → ((length c.stub_buffer ≡ 0) × (suc (length bytes) ≤ suc n))
      ⊎ (length c.stub_buffer + suc (length bytes) ≤ n)
    → Leaves c.max_bson_message_size n (round c (b ∷ bytes))
unfolding round Leaves IsSound
round-Leaves n c b bytes (inr (a, l, m, e, k)) few = ground (
  arith,
  length-copy (b ∷ bytes) c.buffer c.bytes_read,
  length-drop (c.size_of_message - c.bytes_read) (b ∷ bytes),
)
round-Leaves n c b bytes (inl idle) few = ground (
  arith,
  length-append c.stub_buffer (b ∷ bytes),
  sized-Leaves n c (read_size (b ∷ bytes)) (b ∷ bytes) idle,
)

Ends : ℕ → Option (Connection × List Event) → Type 0
Ends max none = ⊥
Ends max (some (c, es)) = IsSound c × (c.max_bson_message_size ≡ max)

emitted-Ends :
    (max : ℕ) (es : List Event) (o : Option (Connection × List Event))
    → Ends max o
    → Ends max (emitted es o)
unfolding Ends
emitted-Ends max es none h = h
emitted-Ends max es (some (c, more)) h = h

-- So many rounds are to go.
abbrev IsEnough : ℕ → Connection → List ℕ → Type 0
IsEnough n c bytes =
    (length bytes ≡ 0)
    ⊎ (((length c.stub_buffer ≡ 0) × (length bytes ≤ n))
        ⊎ (length c.stub_buffer + length bytes < n))

go_on-Ends :
    (max n : ℕ) (again : Connection → List ℕ → Option (Connection × List Event)) (r : Round)
    → ((c : Connection) (bytes : List ℕ)
        → IsSound c
        → IsEnough n c bytes
        → Ends c.max_bson_message_size (again c bytes))
    → Leaves max n r
    → Ends max (go_on again r)
unfolding Ends Leaves
go_on-Ends max n again (next c bytes es) later (sound, e, few) =
    emitted-Ends max es (again c bytes)
      (subst (λ m. Ends m (again c bytes)) e (later c bytes sound (ground arith)))
go_on-Ends max n again (return c es) later h = h

rounds-Ends :
    (n : ℕ) (c : Connection) (bytes : List ℕ)
    → IsSound c
    → IsEnough n c bytes
    → Ends c.max_bson_message_size (rounds n c bytes)
unfolding rounds Ends
rounds-Ends n c [] sound few = (sound, refl)
rounds-Ends zero c (b ∷ bytes) sound few = absurd (ground arith)
rounds-Ends (suc n) c (b ∷ bytes) sound few =
    go_on-Ends c.max_bson_message_size n (rounds n) (round c (b ∷ bytes))
      (λ c' rest sound' few'. rounds-Ends n c' rest sound' few')
      (round-Leaves n c b bytes sound (ground arith))

pub data_handler-IsSound :
    (c : Connection) (bytes : List ℕ)
    → IsSound c
    → (c' : Connection) × (es : List Event) × (data_handler c bytes ≡ some (c', es)) × IsSound c'
unfolding data_handler Ends
data_handler-IsSound c bytes sound = reached (data_handler c bytes) refl (
    rounds-Ends (suc (length c.stub_buffer + length bytes)) c bytes sound (inr (inr (omega arith))))
  where
    reached :
        (o : Option (Connection × List Event))
        → data_handler c bytes ≡ o
        → Ends c.max_bson_message_size o
        → (c' : Connection) × (es : List Event) × (data_handler c bytes ≡ some (c', es))
          × IsSound c'
    reached none e h = absurd h
    reached (some (c', es)) e h = (c', es, e, h.0)

-- Whatever chunks of bytes come, the loop of the handler ends for each, and the connection that is left is
-- sound: a message in work has a buffer of its own size, which is below the limit, and lacks a byte at
-- least, and of a message whose size is not known four bytes at most are kept.
pub receive-IsSound :
    (chunks : List (List ℕ)) (c : Connection)
    → IsSound c
    → (c' : Connection) × (es : List Event) × (receive chunks c ≡ some (c', es)) × IsSound c'
unfolding receive
receive-IsSound [] c sound = (c, [], refl, sound)
receive-IsSound (bytes ∷ chunks) c sound =
    let (d, es, e, sound') = data_handler-IsSound c bytes sound in
    let (c', more, e', sound'') = receive-IsSound chunks d sound' in
    (c', es ++ more, rw (e, e') refl, sound'')

pub new_connection-IsSound : (max : ℕ) → IsSound (new_connection max)
unfolding IsSound
new_connection-IsSound max = inl (refl, refl, omega arith)
