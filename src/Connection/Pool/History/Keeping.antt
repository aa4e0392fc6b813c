-- ===== src/Connection/Pool/History/Keeping.antt =====
-- lib/connection/pool.js: what happens to a pool, calls of `write` left out, keeps the operations that are
-- written or wait, and their order.
use mongodb_core.Errors.{ok, throw, new_error, mongo_error}
use mongodb_core.Prelude.{
  ℕ, ◌≡◌, refl, ◌∙◌, Bool, true, false, not, ◌&&◌, [], ◌∷◌, if◌then◌else◌, ltb, ◌+◌, arith,
}
use mongodb_core.Prelude.Int.{pos, leb_ℤ, ◌-ℤ◌}
use mongodb_core.Connection.Pool.{
  Pool, disconnected, connecting, connected, destroying, Socket, PoolEvent, Purpose,
  first_connection, one_more, reconnection, Effect, emitted, connection_destroyed, close,
  reconnect_later, check_later, closed, error, connect, reconnect, reconnect_failed,
  connection_attempt, did, dying, same_state, state_transition, remove_connection,
  flush_monitoring_operations, all_connections, attempt,
}
use mongodb_core.Connection.Pool.Execute.{execute}
use mongodb_core.Connection.Pool.Execute.Order.{
  sent, progress, quiet-progress, progress-flush, execute-progress,
}
use mongodb_core.Connection.Pool.Events.{
  connect_pool, connection_failure_handler, attempt_failed, attempt_made, drop_connection,
  after_failure, is_timeout, schedule_reconnect, one_less, arrived, add_available,
  create_connections,
}
use mongodb_core.Connection.Pool.Closing.{
  destroy, check_status, nothing_queued, in_flight, destroy_connections,
}
use mongodb_core.Connection.Pool.History.{or_same}
use mongodb_core.Connection.Pool.History.Quiet.{
  did-IsQuiet, state_transition-IsQuiet, remove_connection-IsQuiet, create_connections-IsQuiet,
  drop_connection-IsQuiet, schedule_reconnect-IsQuiet, after_failure-IsQuiet,
  destroy_connections-IsQuiet,
}

pub progress_if :
    (b : Bool) (p q r : Pool)
    → progress q ≡ progress p
    → progress r ≡ progress p
    → progress (if b then q else r) ≡ progress p
progress_if true p q r a b = a
progress_if false p q r a b = b

pub did-progress : (e : Effect) (p : Pool) → sent (e ∷ []) ≡ [] → progress (did e p) ≡ progress p
did-progress e p h = quiet-progress p (did e p) (did-IsQuiet e p h)

pub check_status-progress : (p : Pool) → progress (check_status p) ≡ progress p
unfolding check_status sent
check_status-progress p =
    let flushed = flush_monitoring_operations p in
    progress_if (nothing_queued flushed) flushed
      (if in_flight flushed (all_connections flushed)
        then did check_later flushed
        else destroy_connections false (all_connections flushed) flushed)
      (did check_later (execute flushed))
      (progress_if (in_flight flushed (all_connections flushed)) flushed (did check_later flushed)
        (destroy_connections false (all_connections flushed) flushed)
        (did-progress check_later flushed refl)
        (quiet-progress flushed (destroy_connections false (all_connections flushed) flushed)
          (destroy_connections-IsQuiet false (all_connections flushed) flushed)))
      (did-progress check_later (execute flushed) refl ∙ execute-progress flushed)
    ∙ progress-flush p

-- The end that waits for the operations.
destroy-progress : (p : Pool) → progress (destroy false p) ≡ progress p
unfolding destroy sent
destroy-progress p =
    progress_if (dying p.state) p (did closed p) (check_status (state_transition destroying p))
      (did-progress closed p refl)
      (check_status-progress (state_transition destroying p)
        ∙ quiet-progress p (state_transition destroying p) (state_transition-IsQuiet destroying p))

-- Whether a failure makes the pool give up after timeouts in a row.
abbrev pub gives_up : PoolEvent → ℕ → Pool → Bool
gives_up e c p =
    not (p.store c).fail_handled
    && (is_timeout e && ltb p.options.reconnect_tries (p.consecutive_timeouts + 1))

pub failure-progress :
    (e : PoolEvent) (c : ℕ) (p : Pool)
    → gives_up e c p ≡ false
    → progress (connection_failure_handler e c p) ≡ progress p
unfolding connection_failure_handler
failure-progress e c p goes_on =
    by_tests (p.store c).fail_handled (is_timeout e)
      (ltb p.options.reconnect_tries (p.consecutive_timeouts + 1)) goes_on
  where
    dropped : Pool
    dropped = drop_connection c p

    counted : Pool
    counted = record dropped { consecutive_timeouts = dropped.consecutive_timeouts + 1 }

    after : (q : Pool) → progress q ≡ progress p → progress (after_failure e q) ≡ progress p
    after q same = quiet-progress q (after_failure e q) (after_failure-IsQuiet e q) ∙ same

    drops : progress dropped ≡ progress p
    drops = quiet-progress p dropped (drop_connection-IsQuiet c p)

    by_tests :
        (handled timed_out too_often : Bool)
        → (not handled && (timed_out && too_often)) ≡ false
        → progress (
            if handled
            then p
            else if timed_out
            then if too_often
              then did (emitted close) (destroy true (record dropped { consecutive_timeouts = 0 }))
              else after_failure e counted
            else after_failure e dropped)
          ≡ progress p
    by_tests true t o h = refl
    by_tests false true true h = cc
    by_tests false true false h = after counted drops
    by_tests false false o h = after dropped drops

pub forced-progress :
    (force : Bool) (p : Pool)
    → (force && not (dying p.state)) ≡ false
    → progress (destroy force p) ≡ progress p
unfolding destroy sent
forced-progress false p h = destroy-progress p
forced-progress true p h = rw (is_dying (dying p.state) h) (did-progress closed p refl)
  where
    is_dying : (b : Bool) → (true && not b) ≡ false → b ≡ true
    is_dying b h = ground arith

pub attempt_failed-progress :
    (why : Purpose) (p : Pool) → progress (attempt_failed why p) ≡ progress p
unfolding attempt_failed sent
attempt_failed-progress first_connection p =
    progress_if (same_state connecting p.state) p (did (emitted error) (one_less p)) (one_less p)
      (did-progress (emitted error) (one_less p) refl) refl
attempt_failed-progress one_more p =
    quiet-progress (one_less p) (schedule_reconnect (one_less p))
      (schedule_reconnect-IsQuiet (one_less p))
attempt_failed-progress reconnection p =
    let fewer = record (one_less p) { retries_left = p.retries_left -ℤ pos 1 } in
    progress_if (leb_ℤ fewer.retries_left (pos 0)) p
      (did (emitted reconnect_failed) (destroy false fewer))
      (did reconnect_later (record fewer { reconnect_id = true }))
      (did-progress (emitted reconnect_failed) (destroy false fewer) refl ∙ destroy-progress fewer)
      (did-progress reconnect_later (record fewer { reconnect_id = true }) refl)

pub attempt_made-progress :
    (why : Purpose) (c : ℕ) (s : Socket) (p : Pool) → progress (attempt_made why c s p) ≡ progress p
unfolding attempt_made sent
attempt_made-progress first_connection c s p =
    let came = arrived c s p in
    let open_pool = add_available c (state_transition connected came) in
    let opened = quiet-progress came open_pool (state_transition-IsQuiet connected came) in
    let grown =
      if p.options.in_topology
      then open_pool
      else create_connections p.options.min_size open_pool in
    progress_if (dying p.state) p (destroy false (did (connection_destroyed c false) came))
      (did (emitted connect) grown)
      (destroy-progress (did (connection_destroyed c false) came)
        ∙ did-progress (connection_destroyed c false) came refl)
      (did-progress (emitted connect) grown refl
        ∙ progress_if p.options.in_topology p open_pool
            (create_connections p.options.min_size open_pool) opened
            (quiet-progress open_pool (create_connections p.options.min_size open_pool)
                (create_connections-IsQuiet p.options.min_size open_pool)
              ∙ opened))
attempt_made-progress one_more c s p =
    let removed = remove_connection c (arrived c s p) in
    let quiet =
      quiet-progress (arrived c s p) removed (remove_connection-IsQuiet c (arrived c s p)) in
    progress_if (dying p.state) p (did (connection_destroyed c false) removed)
      (execute (add_available c removed))
      (did-progress (connection_destroyed c false) removed refl ∙ quiet)
      (execute-progress (add_available c removed) ∙ quiet)
attempt_made-progress reconnection c s p =
    let back = record (arrived c s p) {
      reconnect_id = false;
      retries_left = pos p.options.reconnect_tries;
    } in
    let told = did (emitted reconnect) (add_available c back) in
    progress_if (dying p.state) p (did (connection_destroyed c false) (arrived c s p))
      (execute told) (did-progress (connection_destroyed c false) (arrived c s p) refl)
      (execute-progress told ∙ did-progress (emitted reconnect) (add_available c back) refl)

pub connect-progress : (p : Pool) → progress (or_same p (connect_pool p)) ≡ progress p
unfolding connect_pool sent
connect-progress p = by_state (same_state disconnected p.state)
  where
    by_state :
        (b : Bool)
        → progress (
            or_same p (
              if b
              then ok (attempt first_connection (state_transition connecting p))
              else throw (new_error mongo_error "connection in unlawful state")))
          ≡ progress p
    by_state true =
        did-progress (connection_attempt first_connection) (state_transition connecting p) refl
        ∙ quiet-progress p (state_transition connecting p) (state_transition-IsQuiet connecting p)
    by_state false = refl
