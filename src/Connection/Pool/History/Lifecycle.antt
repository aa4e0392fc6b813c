-- ===== src/Connection/Pool/History/Lifecycle.antt =====
-- lib/connection/pool.js: a pool that is destroyed stays so, whatever still happens to it.
use mongodb_core.Errors.{ok, throw, new_error, mongo_error}
use mongodb_core.Prelude.{
  ℕ, ◌+◌, ◌≡◌, refl, Bool, true, false, not, ◌&&◌, Option, none, some, List, [], ◌∷◌, arith,
  if◌then◌else◌, ◌==◌, ltb,
}
use mongodb_core.Prelude.Int.{pos, leb_ℤ, ◌-ℤ◌}
use mongodb_core.Connection.Pool.{
  Pool, Socket, WorkItem, PoolEvent, Purpose, first_connection, one_more, reconnection, Effect,
  called, emitted, connection_destroyed, closed, give_back_connection, unparsable, result,
  session_updated, timeout_reset, execute_later, pool_destroyed, did, disconnected, connecting,
  error, close, reconnect_later, reconnect_failed, same_state, remove_connection,
}
use mongodb_core.Connection.Pool.Events.{
  connect_pool, write, serialized, enqueue, connection_failure_handler, attempt_reconnection,
  attempt_failed, attempt_made, drop_connection, after_failure, is_timeout, one_less, arrived,
}
use mongodb_core.Connection.Pool.Messages.{
  Message, Parsed, fails, empty, document, answer_of, respond, note_times, is_monitor, has_timeout,
  settle, with_items, locate, dispatch, message_handler,
}
use mongodb_core.Connection.Pool.Closing.{destroy, connection_ended}
use mongodb_core.Connection.Pool.History.{
  Happening, connects, writes, compression_ends, destroys, connection_fails, message_arrives,
  attempt_fails, attempt_succeeds, reconnect_timer, execute_timer, check_timer, connection_ends,
  happen, run, or_same, awaits_operations,
}
use mongodb_core.Connection.Pool.History.Dead.{
  IsDead, IsDead-did, IsDead-if, remove_connection-IsDead, is_dying, execute-IsDead, destroy-IsDead,
  connection_ended-IsDead, drop_connection-IsDead, schedule_reconnect-IsDead, after_failure-IsDead,
}

module _ (log : List Effect) where
  connection_failure_handler-IsDead :
      (e : PoolEvent) (c : ℕ) (p : Pool)
      → IsDead log p
      → IsDead log (connection_failure_handler e c p)
  unfolding connection_failure_handler IsDead
  connection_failure_handler-IsDead e c p h =
      let dropped = drop_connection c p in
      let counted = record dropped { consecutive_timeouts = dropped.consecutive_timeouts + 1 } in
      let reset = record dropped { consecutive_timeouts = 0 } in
      let forced = did (emitted close) (destroy true reset) in
      let dead : IsDead log dropped = drop_connection-IsDead log c p h in
      IsDead-if log (p.store c).fail_handled p
        (if is_timeout e
          then if ltb p.options.reconnect_tries (p.consecutive_timeouts + 1)
            then forced
            else after_failure e counted
          else after_failure e dropped)
        h
        (IsDead-if log (is_timeout e)
          (if ltb p.options.reconnect_tries (p.consecutive_timeouts + 1)
            then forced
            else after_failure e counted)
          (after_failure e dropped)
          (IsDead-if log (ltb p.options.reconnect_tries (p.consecutive_timeouts + 1)) forced
            (after_failure e counted)
            (IsDead-did log (emitted close) (destroy true reset) refl
              (destroy-IsDead log true reset dead))
            (after_failure-IsDead log e counted dead))
          (after_failure-IsDead log e dropped dead))

  attempt_reconnection-IsDead : (p : Pool) → IsDead log p → IsDead log (attempt_reconnection p)
  unfolding attempt_reconnection
  attempt_reconnection-IsDead p h =
      rw (is_dying log p h) (IsDead-did log (emitted PoolEvent.attempt_reconnect) p refl h)

  attempt_failed-IsDead :
      (why : Purpose) (p : Pool) → IsDead log p → IsDead log (attempt_failed why p)
  unfolding attempt_failed IsDead
  attempt_failed-IsDead first_connection p h =
      IsDead-if log (same_state connecting p.state) (did (emitted error) (one_less p)) (one_less p)
        (IsDead-did log (emitted error) (one_less p) refl h) h
  attempt_failed-IsDead one_more p h = schedule_reconnect-IsDead log (one_less p) h
  attempt_failed-IsDead reconnection p h =
      let fewer = record (one_less p) { retries_left = p.retries_left -ℤ pos 1 } in
      IsDead-if log (leb_ℤ fewer.retries_left (pos 0))
        (did (emitted reconnect_failed) (destroy false fewer))
        (did reconnect_later (record fewer { reconnect_id = true }))
        (IsDead-did log (emitted reconnect_failed) (destroy false fewer) refl
          (destroy-IsDead log false fewer h))
        (IsDead-did log reconnect_later (record fewer { reconnect_id = true }) refl h)

  attempt_made-IsDead :
      (why : Purpose) (c : ℕ) (s : Socket) (p : Pool)
      → IsDead log p
      → IsDead log (attempt_made why c s p)
  unfolding attempt_made IsDead
  attempt_made-IsDead first_connection c s p h = rw (is_dying log p h) (
      IsDead-did log closed (did (connection_destroyed c false) (arrived c s p)) refl
        (IsDead-did log (connection_destroyed c false) (arrived c s p) refl h))
  attempt_made-IsDead one_more c s p h = rw (is_dying log p h) (
      IsDead-did log (connection_destroyed c false) (remove_connection c (arrived c s p)) refl
        (remove_connection-IsDead log c (arrived c s p) h))
  attempt_made-IsDead reconnection c s p h =
      rw (is_dying log p h) (IsDead-did log (connection_destroyed c false) (arrived c s p) refl h)

  respond-IsDead :
      (w : WorkItem) (m : Parsed) (p : Pool) → IsDead log p → IsDead log (respond w m p)
  unfolding respond IsDead
  respond-IsDead w fails p h = IsDead-did log (called w unparsable) p refl h
  respond-IsDead w empty p h = IsDead-did log (called w result) p refl h
  respond-IsDead w (document d) p h =
      IsDead-did log (called w (answer_of w d)) (note_times w d p) refl (
        IsDead-if log w.session (did (session_updated w) p) p
          (IsDead-did log (session_updated w) p refl h) h)

  give_back_connection-IsDead :
      (c : ℕ) (p : Pool) → IsDead log p → IsDead log (give_back_connection c p)
  unfolding give_back_connection IsDead
  give_back_connection-IsDead c p (s, a, u, l) = ground arith

  settle-IsDead :
      (c : ℕ) (item : Option WorkItem) (p : Pool) → IsDead log p → IsDead log (settle c item p)
  unfolding settle IsDead
  settle-IsDead c item p h =
      let back = if is_monitor item then give_back_connection c p else p in
      let reset = record back { consecutive_timeouts = 0 } in
      let timed = if has_timeout item then did (timeout_reset c) reset else reset in
      let at_rest : IsDead log back =
        IsDead-if log (is_monitor item) (give_back_connection c p) p
          (give_back_connection-IsDead c p h) h in
      let at_time : IsDead log timed =
        IsDead-if log (has_timeout item) (did (timeout_reset c) reset) reset
          (IsDead-did log (timeout_reset c) reset refl at_rest) at_rest in
      IsDead-if log timed.executing timed (did execute_later timed) at_time
        (IsDead-did log execute_later timed refl at_time)

  message_handler-IsDead :
      (m : Message) (c : ℕ) (p : Pool) → IsDead log p → IsDead log (message_handler m c p)
  unfolding message_handler IsDead
  message_handler-IsDead m c p h =
      let found = locate m.response_to (p.store c).work_items in
      dispatched found.item (settle c found.item (with_items c found.left p))
        (settle-IsDead c found.item (with_items c found.left p) h)
    where
      dispatched :
          (o : Option WorkItem) (q : Pool) → IsDead log q → IsDead log (dispatch o m.parsed q)
      dispatched none q k = k
      dispatched (some w) q k =
          IsDead-if log w.immediate_release q (respond w m.parsed q) k
            (respond-IsDead w m.parsed q k)

  write-IsDead : (w : WorkItem) (p : Pool) → IsDead log p → IsDead log (or_same p (write w p))
  unfolding write
  write-IsDead w p h = rw (is_dying log p h) (by_callback w.callback w.no_response)
    where
      by_callback :
          (callback no_response : Bool)
          → IsDead log (
              or_same p (
                if not callback && not no_response
                then throw (new_error mongo_error "write method must provide a callback")
                else ok (if callback then did (called w pool_destroyed) p else p)))
      by_callback true r = IsDead-did log (called w pool_destroyed) p refl h
      by_callback false true = h
      by_callback false false = h

  -- A command whose compression ends late only joins the queue.
  serialized-IsDead : (w : WorkItem) (p : Pool) → IsDead log p → IsDead log (serialized w p)
  unfolding serialized IsDead
  serialized-IsDead w p h =
      IsDead-if log p.executing (enqueue w p) (did execute_later (enqueue w p)) (kept h)
        (IsDead-did log execute_later (enqueue w p) refl (kept h))
    where
      kept : IsDead log p → IsDead log (enqueue w p)
      kept (s, a, u, l) = (s, a, u, l)

  connect_pool-IsDead : (p : Pool) → IsDead log p → IsDead log (or_same p (connect_pool p))
  unfolding connect_pool IsDead
  connect_pool-IsDead p (s, a, u, l) =
      let unlawful : same_state disconnected p.state ≡ false = rw s refl in rw unlawful (s, a, u, l)

  dead_check : (p : Pool) → IsDead log p → awaits_operations p ≡ false
  unfolding IsDead
  dead_check p (s, a, u, l) = rw s refl

  happen-IsDead : (h : Happening) (p : Pool) → IsDead log p → IsDead log (happen h p)
  unfolding happen
  happen-IsDead connects p d = connect_pool-IsDead p d
  happen-IsDead (writes w) p d = write-IsDead w p d
  happen-IsDead (compression_ends w) p d = serialized-IsDead w p d
  happen-IsDead (destroys force) p d = destroy-IsDead log force p d
  happen-IsDead (connection_fails e c) p d = connection_failure_handler-IsDead e c p d
  happen-IsDead (message_arrives m c) p d = message_handler-IsDead m c p d
  happen-IsDead (attempt_fails why) p d = attempt_failed-IsDead why p d
  happen-IsDead (attempt_succeeds why c s) p d = attempt_made-IsDead why c s p d
  happen-IsDead reconnect_timer p d = attempt_reconnection-IsDead p d
  happen-IsDead execute_timer p d = execute-IsDead log p d
  happen-IsDead check_timer p d = rw (dead_check p d) d
  happen-IsDead (connection_ends c) p d =
      IsDead-if log (p.closing == 0) p (connection_ended c p) d (connection_ended-IsDead log c p d)

  -- A pool that is destroyed and has no connections stays destroyed and without connections, whatever
  -- happens to it and in whatever order, late replies and late attempts to connect included; it writes to
  -- no connection and makes no attempt to connect.
  pub run-IsDead : (hs : List Happening) (p : Pool) → IsDead log p → IsDead log (run hs p)
  unfolding run
  run-IsDead [] p d = d
  run-IsDead (h ∷ hs) p d = run-IsDead hs (happen h p) (happen-IsDead h p d)
