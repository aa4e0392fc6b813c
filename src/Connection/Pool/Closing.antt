-- ===== src/Connection/Pool/Closing.antt =====
-- lib/connection/pool.js, destroy: the end of a pool, forced or after its operations.
pub mod Ends
mod Tests
use mongodb_core.Prelude.{
  ℕ, zero, suc, ◌+◌, ◌-◌, Bool, true, false, Option, none, some, List, [], ◌∷◌, ◌++◌, ◌==◌,
  if◌then◌else◌, length,
}
use mongodb_core.Prelude.Int.{pos}
use mongodb_core.Connection.Pool.{
  Pool, PoolState, destroying, destroyed, WorkItem, Socket, Answer, force_destroyed, Effect, closed,
  check_later, connection_destroyed, did, update, dying, state_transition, all_connections, calls,
  with_callback, flush_monitoring_operations,
}
use mongodb_core.Connection.Pool.Execute.{execute, no_items}

-- The last connection has ended. `closed` is the call of the callback of `destroy`.
unfoldable pub all_destroyed : Pool → Pool
unfolding state_transition
all_destroyed p = did closed (
    state_transition destroyed (record p {
      in_use_connections = [];
      available_connections = [];
      connecting_connections = pos 0;
    }))

-- `connectionDestroyed()`
unfoldable pub connection_destroyed_one : Pool → Pool
unfolding all_destroyed
connection_destroyed_one p =
    let fewer = record p { closing = p.closing - 1 } in
    if fewer.closing == 0 then all_destroyed fewer else fewer

abbrev pub mark_destroyed : ℕ → Pool → Pool
mark_destroyed c p = record p {
  store = update p.store c (record (p.store c) { destroyed = true; socket_destroyed = true });
}

-- `connections.forEach(conn => conn.destroy(options, connectionDestroyed))`: with `force` the callback is
-- called at once, else when the socket has ended.
unfoldable pub destroy_each : Bool → List ℕ → Pool → Pool
unfolding connection_destroyed_one
destroy_each force [] p = p
destroy_each force (c ∷ cs) p =
    let asked = did (connection_destroyed c force) p in
    destroy_each force cs
      (if force then connection_destroyed_one (mark_destroyed c asked) else asked)

-- The function `destroy` of the module.
unfoldable pub destroy_connections : Bool → List ℕ → Pool → Pool
unfolding all_destroyed destroy_each
destroy_connections force [] p = all_destroyed p
destroy_connections force (c ∷ cs) p =
    destroy_each force (c ∷ cs) (record p { closing = length (c ∷ cs) })

abbrev pub in_flight : Pool → List ℕ → Bool
in_flight p [] = false
in_flight p (c ∷ cs) = if no_items (p.store c).work_items then in_flight p cs else true

abbrev pub nothing_queued : Pool → Bool
nothing_queued p = no_items p.queue

-- `checkStatus()`
unfoldable pub check_status : Pool → Pool
unfolding flush_monitoring_operations destroy_connections execute
check_status p =
    let flushed = flush_monitoring_operations p in
    if nothing_queued flushed
    then if in_flight flushed (all_connections flushed)
      then did check_later flushed
      else destroy_connections false (all_connections flushed) flushed
    else did check_later (execute flushed)

abbrev fail_queue : Pool → Pool
fail_queue p = record p { queue = []; log = p.log ++ calls (with_callback p.queue) force_destroyed }

-- `pool.destroy(force)`; no reconnection holds a connection of its own.
unfoldable pub destroy : Bool → Pool → Pool
unfolding state_transition destroy_connections check_status
destroy force p =
    if dying p.state
    then did closed p
    else let ending = state_transition destroying p in
      if force
      then destroy_connections true (all_connections ending) (fail_queue ending)
      else check_status ending

-- The socket of a connection that was asked to end has ended.
unfoldable pub connection_ended : ℕ → Pool → Pool
unfolding connection_destroyed_one
connection_ended c p = connection_destroyed_one (record p {
  store = update p.store c (record (p.store c) { destroyed = true; writable = false });
})
