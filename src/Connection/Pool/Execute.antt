-- ===== src/Connection/Pool/Execute.antt =====
-- lib/connection/pool.js, _execute: operations of the queue are written to available connections.
pub mod Rounds
pub mod Order
pub mod Chosen
pub mod Monitors
pub mod Sizes
mod Tests
use mongodb_core.Prelude.{
  ℕ, zero, suc, ◌+◌, ◌%◌, Bool, true, false, not, ◌&&◌, ◌||◌, Option, none, some, List, [], ◌∷◌,
  ◌++◌, ltb, if◌then◌else◌, length, select, is_some,
}
use mongodb_core.Prelude.Int.{ℤ, pos, negsuc, leb_ℤ}
use mongodb_core.Connection.Pool.{
  Pool, PoolState, WorkItem, Socket, Effect, called, written, execute_later, timeout_set, nothing,
  did, update, is_connected, total_connection_count, remove_connection, take_connection,
  flush_monitoring_operations, create_connection, destroyed, same_state,
}

-- A round of the loop goes on or breaks.
pub data Turn : Type 0 where
  again break : Pool → Turn

abbrev pub no_items : List WorkItem → Bool
no_items [] = true
no_items (w ∷ ws) = false

-- `conn.workItems.length === 0`
abbrev pub idle : Pool → ℕ → Bool
idle p c = no_items (p.store c).work_items

abbrev pub element : ℕ → ℕ → List ℕ → ℕ
element other i [] = other
element other zero (c ∷ cs) = c
element other (suc i) (c ∷ cs) = element c i cs

-- `list[index % list.length]`
abbrev pub in_turn : ℕ → ℕ → List ℕ → ℕ
in_turn other index cs = element other (index % length cs) cs

-- A connection without work if there is one, else any, in turn.
unfoldable pub choose : ℕ → List ℕ → Pool → ℕ
choose c cs p = elim (select (idle p) (c ∷ cs)) [
  | [] ↦ in_turn c p.connection_index (c ∷ cs)
  | d ∷ ds ↦ in_turn d p.connection_index (d ∷ ds)
]

-- The first connection that is connected and has no work.
unfoldable pub find_free : Pool → List ℕ → Option ℕ
find_free p [] = none
find_free p (c ∷ cs) = if is_connected (p.store c) && idle p c then some c else find_free p cs

abbrev pub below : ℤ → ℕ → Bool
below total size = not (leb_ℤ (pos size) total)

abbrev pub unshift : WorkItem → Pool → Pool
unshift w p = record p { queue = w ∷ p.queue }

abbrev pub push_item : ℕ → WorkItem → Pool → Pool
push_item c w p = record p {
  store = update p.store c (record (p.store c) { work_items = (p.store c).work_items ++ (w ∷ []) });
}

abbrev pub custom_timeout : ℕ → Option ℕ → Pool → Pool
custom_timeout c none p = p
custom_timeout c (some n) p = did (timeout_set c n) p

abbrev pub taken_for : ℕ → WorkItem → Pool → Pool
taken_for c w p = if w.monitoring then take_connection c p else p

abbrev pub tracked : ℕ → WorkItem → Pool → Pool
tracked c w p = if w.no_response then p else push_item c w p

abbrev pub timed : ℕ → WorkItem → Pool → Pool
timed c w p = if w.immediate_release then p else custom_timeout c w.socket_timeout p

-- The connection is taken, the operation is tracked, and the timeout is set.
unfoldable pub prepare : ℕ → WorkItem → Pool → Pool
unfolding take_connection
prepare c w p = timed c w (tracked c w (taken_for c w p))

abbrev pub called_at_once : WorkItem → Pool → Pool
called_at_once w p = if w.no_response && w.callback then did (called w nothing) p else p

-- `connection.write`, and what follows a failure; the socket is as before the call.
abbrev pub transmit : Bool → ℕ → WorkItem → Pool → Turn
transmit true c w p =
    break (flush_monitoring_operations (remove_connection c (unshift w (called_at_once w p))))
transmit false c w p = again (called_at_once w (did (written c w) p))

unfoldable pub send : ℤ → ℕ → WorkItem → Pool → Turn
unfolding prepare
send total c w p =
    if below total p.options.size && not (idle p c)
    then break (create_connection (unshift w p))
    else transmit (p.store c).socket_destroyed c w (prepare c w p)

abbrev pub wait_for_free : ℤ → WorkItem → Pool → Turn
wait_for_free total w p =
    let grown =
      if below total p.options.size then create_connection (unshift w p) else unshift w p in
    break (did execute_later grown)

abbrev pub monitor_on : Option ℕ → ℤ → WorkItem → Pool → Turn
monitor_on none total w p = wait_for_free total w p
monitor_on (some c) total w p = send total c w p

abbrev pub dispatch : Bool → ℕ → Option ℕ → ℤ → WorkItem → Pool → Turn
dispatch true chosen free total w p = monitor_on free total w p
dispatch false chosen free total w p = send total chosen w p

-- `connectionIndex++`
abbrev pub moved_on : Pool → Pool
moved_on p = record p { connection_index = p.connection_index + 1 }

-- Whether the connection that was chosen is connected.
abbrev pub turn_if : Bool → ℕ → Option ℕ → WorkItem → List WorkItem → Pool → Turn
turn_if false chosen free w queue p =
    break (flush_monitoring_operations (remove_connection chosen (moved_on p)))
turn_if true chosen free w queue p =
    dispatch w.monitoring chosen free (total_connection_count p) w
      (record (moved_on p) { queue = queue })

unfoldable pub turn_with : ℕ → List ℕ → WorkItem → List WorkItem → Pool → Turn
unfolding find_free send choose
turn_with c cs w queue p =
    turn_if (is_connected (p.store (choose c cs p))) (choose c cs p) (find_free p (c ∷ cs)) w queue
      p

abbrev pub turn_on : List ℕ → List WorkItem → Pool → Turn
turn_on [] queue p = break (flush_monitoring_operations p)
turn_on (c ∷ cs) [] p = break p
turn_on (c ∷ cs) (w ∷ queue) p = turn_with c cs w queue p

-- One round of the loop.
unfoldable pub turn : Pool → Turn
unfolding turn_with
turn p = turn_on p.available_connections p.queue p

abbrev pub go_on : (Pool → Pool) → Turn → Pool
go_on more (again p) = more p
go_on more (break p) = p

unfoldable pub turns : ℕ → Pool → Pool
unfolding turn
turns zero p = p
turns (suc fuel) p = go_on (turns fuel) (turn p)

abbrev pub is_positive : ℤ → Bool
is_positive (pos (suc n)) = true
is_positive _ = false

-- Each round that goes on takes an operation off the queue.
unfoldable pub execute : Pool → Pool
unfolding turns
execute p =
    if same_state destroyed p.state || p.executing || is_positive p.connecting_connections
    then p
    else record (turns (suc (length p.queue)) (record p { executing = true })) { executing = false }
