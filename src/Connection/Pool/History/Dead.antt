-- ===== src/Connection/Pool/History/Dead.antt =====
-- lib/connection/pool.js: a pool that is destroyed; what its connections and their failures do to it.
use mongodb_core.Prelude.{
  append-nil, ℕ, ◌-◌, ◌≡◌, refl, ap, ◌∙◌, Bool, true, false, not, ◌&&◌, ◌||◌, List, [], ◌∷◌, ◌++◌,
  arith, if◌then◌else◌, ◌==◌, any,
}
use mongodb_core.Connection.Pool.{
  Pool, destroyed, WorkItem, Answer, PoolEvent, Effect, written, emitted, connection_attempt,
  connection_destroyed, connection_failed, calls, with_callback, closed, did, update, state_changed,
  disconnected, reconnect_later, total_connection_count, socket_count, dying, same_state,
  remove_connection, create_connection, legal_states, state_transition,
}
use mongodb_core.Connection.Pool.Execute.{below, execute, is_positive}
use mongodb_core.Connection.Pool.Events.{
  drop_connection, after_failure, reported, report_if_empty, schedule_reconnect, keep_minimum,
}
use mongodb_core.Connection.Pool.Closing.{
  destroy, all_destroyed, connection_destroyed_one, connection_ended,
}

abbrev is_activity : Effect → Bool
is_activity (written c w) = true
is_activity (connection_attempt why) = true
is_activity _ = false

-- Writes to connections and attempts to connect.
unfoldable pub activity : List Effect → List Effect
activity [] = []
activity (e ∷ es) = if is_activity e then e ∷ activity es else activity es

activity-append : (x y : List Effect) → activity (x ++ y) ≡ activity x ++ activity y
unfolding activity
activity-append [] y = refl
activity-append (e ∷ x) y = ground (arith, activity-append x y)

idle_effect :
    (e : Effect) (log : List Effect)
    → is_activity e ≡ false
    → activity (log ++ (e ∷ [])) ≡ activity log
unfolding activity
idle_effect e log h = activity-append log (e ∷ []) ∙ rw h (append-nil (activity log))

idle_calls : (ws : List WorkItem) (a : Answer) → activity (calls ws a) ≡ []
unfolding activity
idle_calls [] a = refl
idle_calls (w ∷ ws) a = idle_calls ws a

-- Destroyed, without connections, and with nothing more done than `log` says.
unfoldable pub IsDead : List Effect → Pool → Type 0
IsDead log p =
    (p.state ≡ destroyed)
    × (p.available_connections ≡ [])
    × (p.in_use_connections ≡ [])
    × (activity p.log ≡ log)

module _ (log : List Effect) where
  pub IsDead-did :
      (e : Effect) (p : Pool) → is_activity e ≡ false → IsDead log p → IsDead log (did e p)
  unfolding IsDead
  IsDead-did e p h (s, a, u, l) = (s, a, u, idle_effect e p.log h ∙ l)

  pub IsDead-if :
      (b : Bool) (p q : Pool) → IsDead log p → IsDead log q → IsDead log (if b then p else q)
  IsDead-if true p q h k = h
  IsDead-if false p q h k = k

  pub remove_connection-IsDead :
      (c : ℕ) (p : Pool) → IsDead log p → IsDead log (remove_connection c p)
  unfolding remove_connection IsDead
  remove_connection-IsDead c p (s, a, u, l) = ground arith

  pub is_dying : (p : Pool) → IsDead log p → dying p.state ≡ true
  unfolding IsDead
  is_dying p (s, a, u, l) = rw s refl

  pub execute-IsDead : (p : Pool) → IsDead log p → IsDead log (execute p)
  unfolding execute IsDead
  execute-IsDead p (s, a, u, l) =
      let skips : (same_state destroyed p.state
            || p.executing
            || is_positive p.connecting_connections)
          ≡ true =
        rw s refl in
      rw skips (s, a, u, l)

  pub destroy-IsDead : (force : Bool) (p : Pool) → IsDead log p → IsDead log (destroy force p)
  unfolding destroy
  destroy-IsDead force p h = rw (is_dying p h) (IsDead-did closed p refl h)

  connection_destroyed_one-IsDead : (p : Pool) → IsDead log p → IsDead log (all_destroyed p)
  unfolding all_destroyed state_transition IsDead
  connection_destroyed_one-IsDead p (s, a, u, l) =
      let legal : any (same_state destroyed) (legal_states p.state) ≡ true = rw s refl in
      rw legal (
        refl,
        refl,
        refl,
        idle_effect closed (p.log ++ (state_changed p.state destroyed ∷ [])) refl
            ∙ idle_effect (state_changed p.state destroyed) p.log refl
            ∙ l,
      )

  pub connection_ended-IsDead :
      (c : ℕ) (p : Pool) → IsDead log p → IsDead log (connection_ended c p)
  unfolding connection_ended connection_destroyed_one IsDead
  connection_ended-IsDead c p h =
      let fewer = record p {
        store = update p.store c (record (p.store c) { destroyed = true; writable = false });
        closing = p.closing - 1;
      } in
      IsDead-if (fewer.closing == 0) (all_destroyed fewer) fewer
        (connection_destroyed_one-IsDead fewer h) h

  create_connection-IsDead : (p : Pool) → IsDead log p → IsDead log (create_connection p)
  unfolding create_connection
  create_connection-IsDead p h = rw (is_dying p h) h

  pub drop_connection-IsDead : (c : ℕ) (p : Pool) → IsDead log p → IsDead log (drop_connection c p)
  unfolding drop_connection IsDead
  drop_connection-IsDead c p h =
      let told = did (connection_destroyed c false) p in
      let (s, a, u, l) =
        remove_connection-IsDead c told (IsDead-did (connection_destroyed c false) p refl h) in
      (
        s,
        a,
        u,
        activity-append (remove_connection c told).log
              (calls (with_callback (p.store c).work_items) connection_failed)
            ∙ ap (λ l. activity (remove_connection c told).log ++ l)
                (idle_calls (with_callback (p.store c).work_items) connection_failed)
            ∙ append-nil (activity (remove_connection c told).log)
            ∙ l,
      )

  report_if_empty-IsDead :
      (e : PoolEvent) (p : Pool) → IsDead log p → IsDead log (report_if_empty e p)
  unfolding report_if_empty
  report_if_empty-IsDead e p h =
      let lost = if dying p.state then p else state_transition disconnected p in
      IsDead-if (socket_count p == 0) (did (emitted (reported e)) lost) p
        (IsDead-did (emitted (reported e)) lost refl (rw (is_dying p h) h)) h

  pub schedule_reconnect-IsDead : (p : Pool) → IsDead log p → IsDead log (schedule_reconnect p)
  unfolding IsDead
  schedule_reconnect-IsDead p h =
      IsDead-if (not p.reconnect_id && p.options.reconnect)
        (did reconnect_later (record p { reconnect_id = true })) p
        (IsDead-did reconnect_later (record p { reconnect_id = true }) refl h) h

  keep_minimum-IsDead : (p : Pool) → IsDead log p → IsDead log (keep_minimum p)
  unfolding keep_minimum
  keep_minimum-IsDead p h =
      IsDead-if (below (total_connection_count p) p.options.min_size) (create_connection p) p
        (create_connection-IsDead p h) h

  pub after_failure-IsDead :
      (e : PoolEvent) (p : Pool) → IsDead log p → IsDead log (after_failure e p)
  after_failure-IsDead e p h =
      keep_minimum-IsDead (schedule_reconnect (report_if_empty e p))
        (schedule_reconnect-IsDead (report_if_empty e p) (report_if_empty-IsDead e p h))
