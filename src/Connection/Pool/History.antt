-- ===== src/Connection/Pool/History.antt =====
-- lib/connection/pool.js: what can happen to a pool, in any order.
pub mod Quiet
pub mod Keeping
pub mod Delivery
pub mod Connecting
pub mod Dead
pub mod Lifecycle
mod Tests
use mongodb_core.Errors.{Result, ok, throw}
use mongodb_core.Prelude.{ℕ, Bool, ◌&&◌, ◌==◌, if◌then◌else◌, List, [], ◌∷◌}
use mongodb_core.Connection.Pool.{
  Pool, destroying, same_state, PoolEvent, Purpose, WorkItem, Socket,
}
use mongodb_core.Connection.Pool.Execute.{execute}
use mongodb_core.Connection.Pool.Closing.{destroy, check_status, connection_ended}
use mongodb_core.Connection.Pool.Messages.{Message, message_handler}
use mongodb_core.Connection.Pool.Events.{
  connect_pool, write, serialized, connection_failure_handler, attempt_reconnection, attempt_failed,
  attempt_made,
}

-- Calls of users, and what sockets and timers bring.
pub data Happening : Type 0 where
  connects : Happening
  writes : WorkItem → Happening
  compression_ends : WorkItem → Happening
  destroys : Bool → Happening
  connection_fails : PoolEvent → ℕ → Happening
  message_arrives : Message → ℕ → Happening
  attempt_fails : Purpose → Happening
  attempt_succeeds : Purpose → ℕ → Socket → Happening
  reconnect_timer : Happening
  execute_timer : Happening
  check_timer : Happening
  connection_ends : ℕ → Happening

-- A throw to the caller leaves the pool as it is.
abbrev pub or_same : Pool → Result Pool → Pool
or_same p (ok q) = q
or_same p (throw e) = p

-- A check is set only while `destroy` waits for operations, and the end of a connection is awaited only
-- after that.
abbrev pub awaits_operations : Pool → Bool
awaits_operations p = same_state destroying p.state && p.closing == 0

unfoldable pub happen : Happening → Pool → Pool
unfolding connect_pool write serialized destroy connection_failure_handler message_handler
    attempt_failed attempt_made attempt_reconnection execute check_status connection_ended
happen connects p = or_same p (connect_pool p)
happen (writes w) p = or_same p (write w p)
happen (compression_ends w) p = serialized w p
happen (destroys force) p = destroy force p
happen (connection_fails e c) p = connection_failure_handler e c p
happen (message_arrives m c) p = message_handler m c p
happen (attempt_fails why) p = attempt_failed why p
happen (attempt_succeeds why c s) p = attempt_made why c s p
happen reconnect_timer p = attempt_reconnection p
happen execute_timer p = execute p
happen check_timer p = if awaits_operations p then check_status p else p
happen (connection_ends c) p = if p.closing == 0 then p else connection_ended c p

unfoldable pub run : List Happening → Pool → Pool
unfolding happen
run [] p = p
run (h ∷ hs) p = run hs (happen h p)
