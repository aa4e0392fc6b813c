-- ===== src/Connection/Pool/Events.antt =====
-- lib/connection/pool.js: the operations of users (`write`, `connect`), and the handlers of failures, of
-- attempts to connect, and of messages.
pub mod Failures
mod Tests
use mongodb_core.Errors.{Result, ok, throw, mongo_error, new_error}
use mongodb_core.Prelude.{
  ℕ, zero, suc, ◌+◌, Bool, true, false, not, ◌&&◌, ◌||◌, Option, none, some, List, [], ◌∷◌, ◌++◌,
  ltb, ◌==◌, if◌then◌else◌, is_some,
}
use mongodb_core.Prelude.Int.{ℤ, pos, negsuc, ◌-ℤ◌, leb_ℤ}
use mongodb_core.Connection.Pool.{
  Pool, PoolState, disconnected, connecting, connected, destroyed, WorkItem, Socket, Answer,
  pool_destroyed, unparsable, write_concern_failed, command_failed, connection_failed, result,
  PoolEvent, close, error, timeout, parse_error, connect, reconnect, attempt_reconnect,
  reconnect_failed, Purpose, first_connection, one_more, reconnection, Effect, called, emitted,
  execute_later, reconnect_later, compresses, session_updated, connection_destroyed, timeout_reset,
  did, update, dying, same_state, state_transition, socket_count, total_connection_count,
  pool_is_connected, remove_connection, give_back_connection, calls, with_callback, attempt,
  create_connection,
}
use mongodb_core.Connection.Pool.Execute.{execute, below}
use mongodb_core.Connection.Pool.Closing.{destroy}

-- A connection that failed is told to end, after which it is not writable; it leaves the pool, and its
-- operations get the error.
unfoldable pub drop_connection : ℕ → Pool → Pool
unfolding remove_connection
drop_connection c p =
    let items = (p.store c).work_items in
    let dead = record (p.store c) { writable = false; fail_handled = true; work_items = [] } in
    let removed = remove_connection c (did (connection_destroyed c false) p) in
    record removed {
      store = update p.store c dead;
      log = removed.log ++ calls (with_callback items) connection_failed;
    }

abbrev pub is_timeout : PoolEvent → Bool
is_timeout timeout = true
is_timeout _ = false

-- Errors are reported as closes.
abbrev pub reported : PoolEvent → PoolEvent
reported error = close
reported e = e

-- A pool without sockets is disconnected, unless it is destroyed.
unfoldable pub report_if_empty : PoolEvent → Pool → Pool
unfolding state_transition socket_count
report_if_empty e p =
    if socket_count p == 0
    then did (emitted (reported e)) (if dying p.state then p else state_transition disconnected p)
    else p

abbrev pub schedule_reconnect : Pool → Pool
schedule_reconnect p =
    if not p.reconnect_id && p.options.reconnect
    then did reconnect_later (record p { reconnect_id = true })
    else p

unfoldable pub keep_minimum : Pool → Pool
unfolding total_connection_count create_connection
keep_minimum p =
    if below (total_connection_count p) p.options.min_size then create_connection p else p

abbrev pub after_failure : PoolEvent → Pool → Pool
after_failure e p = keep_minimum (schedule_reconnect (report_if_empty e p))

-- `connectionFailureHandler(pool, event, err, conn)`
unfoldable pub connection_failure_handler : PoolEvent → ℕ → Pool → Pool
unfolding drop_connection report_if_empty keep_minimum
connection_failure_handler e c p =
    let dropped = drop_connection c p in
    let counted = record dropped { consecutive_timeouts = dropped.consecutive_timeouts + 1 } in
    if (p.store c).fail_handled
    then p
    else if is_timeout e
    then if ltb p.options.reconnect_tries (p.consecutive_timeouts + 1)
      then did (emitted close) (destroy true (record dropped { consecutive_timeouts = 0 }))
      else after_failure e counted
    else after_failure e dropped

-- `attemptReconnect(self)`, when its timer fires.
unfoldable pub attempt_reconnection : Pool → Pool
unfolding pool_is_connected
attempt_reconnection p =
    let told = did (emitted attempt_reconnect) p in
    if dying p.state
    then told
    else if pool_is_connected p
    then record told { reconnect_id = false }
    else attempt reconnection told

abbrev pub one_less : Pool → Pool
one_less p = record p { connecting_connections = p.connecting_connections -ℤ pos 1 }

-- The first connection cannot be made.
abbrev first_refused : Pool → Pool
first_refused p =
    if same_state connecting p.state then did (emitted error) (one_less p) else one_less p

-- A reconnection fails.
abbrev reconnection_failed : Pool → Pool
reconnection_failed p =
    let fewer = record (one_less p) { retries_left = p.retries_left -ℤ pos 1 } in
    if leb_ℤ fewer.retries_left (pos 0)
    then did (emitted reconnect_failed) (destroy false fewer)
    else did reconnect_later (record fewer { reconnect_id = true })

-- A connection more cannot be made.
abbrev creation_failed : Pool → Pool
creation_failed p = schedule_reconnect (one_less p)

-- The callbacks of `connect` for an error.
unfoldable pub attempt_failed : Purpose → Pool → Pool
unfolding destroy
attempt_failed first_connection p = first_refused p
attempt_failed one_more p = creation_failed p
attempt_failed reconnection p = reconnection_failed p

abbrev pub add_available : ℕ → Pool → Pool
add_available c p = record p { available_connections = p.available_connections ++ (c ∷ []) }

abbrev pub create_connections : ℕ → Pool → Pool
create_connections zero p = p
create_connections (suc n) p = create_connections n (create_connection p)

abbrev pub arrived : ℕ → Socket → Pool → Pool
arrived c s p = record (one_less p) { store = update p.store c s }

-- The first connection has been made.
abbrev first_made : ℕ → Socket → Pool → Pool
first_made c s p =
    let open_pool = add_available c (state_transition connected (arrived c s p)) in
    if dying p.state
    then destroy false (did (connection_destroyed c false) (arrived c s p))
    else did (emitted connect) (
        if p.options.in_topology
        then open_pool
        else create_connections p.options.min_size open_pool)

-- A connection more has been made.
abbrev connection_created : ℕ → Socket → Pool → Pool
connection_created c s p =
    if dying p.state
    then did (connection_destroyed c false) (remove_connection c (arrived c s p))
    else execute (add_available c (remove_connection c (arrived c s p)))

-- The pool has a connection again.
abbrev reconnected : ℕ → Socket → Pool → Pool
reconnected c s p =
    let back = record (arrived c s p) {
      reconnect_id = false;
      retries_left = pos p.options.reconnect_tries;
    } in
    if dying p.state
    then did (connection_destroyed c false) (arrived c s p)
    else execute (did (emitted reconnect) (add_available c back))

-- The callbacks of `connect` for a connection.
unfoldable pub attempt_made : Purpose → ℕ → Socket → Pool → Pool
unfolding destroy state_transition create_connection remove_connection execute
attempt_made first_connection c s p = first_made c s p
attempt_made one_more c s p = connection_created c s p
attempt_made reconnection c s p = reconnected c s p

-- `pool.connect()`
unfoldable pub connect_pool : Pool → Result Pool
unfolding state_transition
connect_pool p =
    if same_state disconnected p.state
    then ok (attempt first_connection (state_transition connecting p))
    else throw (new_error mongo_error "connection in unlawful state")

abbrev pub enqueue : WorkItem → Pool → Pool
enqueue w p = record p { queue = if w.monitoring then w ∷ p.queue else p.queue ++ (w ∷ []) }

abbrev pub execute_soon : Pool → Pool
execute_soon p = if p.executing then p else did execute_later p

-- The callback of `serializeCommand`. The state of the pool is not looked at again.
unfoldable pub serialized : WorkItem → Pool → Pool
serialized w p = execute_soon (enqueue w p)

-- `pool.write(command, options, cb)`; a command that is compressed joins the queue when that is done, any other
-- one at once.
unfoldable pub write : WorkItem → Pool → Result Pool
unfolding serialized
write w p =
    if not w.callback && not w.no_response
    then throw (new_error mongo_error "write method must provide a callback")
    else if dying p.state
    then ok (if w.callback then did (called w pool_destroyed) p else p)
    else ok (
        if p.options.agreed_compressor && w.compressible
        then did (compresses w) p
        else serialized w p)
