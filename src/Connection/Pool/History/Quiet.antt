-- ===== src/Connection/Pool/History/Quiet.antt =====
-- lib/connection/pool.js: the operations that write nothing and leave the queue alone.
use mongodb_core.Prelude.{
  append-nil, ℕ, zero, suc, ◌-◌, ◌≡◌, refl, ap, ◌∙◌, Bool, true, false, not, ◌&&◌, Option, none,
  some, List, [], ◌∷◌, ◌++◌, arith, if◌then◌else◌, any, ◌==◌, length,
}
use mongodb_core.Prelude.Int.{pos}
use mongodb_core.Connection.Pool.{
  Pool, PoolState, disconnected, destroyed, WorkItem, PoolEvent, Purpose, one_more, reconnection,
  Effect, called, emitted, state_changed, illegal_transition, connection_attempt,
  connection_destroyed, execute_later, reconnect_later, closed, session_updated, timeout_reset,
  connection_failed, did, calls, with_callback, update, dying, same_state, legal_states,
  transition_if, state_transition, socket_count, total_connection_count, remove_connection,
  give_back_connection, attempt, create_connection, pool_is_connected,
}
use mongodb_core.Connection.Pool.Execute.Order.{
  sent, sent-append, sent-calls, quiet_effect, IsQuiet,
}
use mongodb_core.Connection.Pool.Execute.{below}
use mongodb_core.Connection.Pool.Events.{
  drop_connection, report_if_empty, reported, schedule_reconnect, keep_minimum, after_failure,
  attempt_reconnection, create_connections, execute_soon,
}
use mongodb_core.Connection.Pool.Messages.{
  Message, Parsed, fails, empty, document, respond, dispatch, settle, with_items, note_times,
  message_handler, is_monitor, has_timeout, locate, answer_of,
}
use mongodb_core.Connection.Pool.Closing.{
  all_destroyed, connection_destroyed_one, mark_destroyed, destroy_each, destroy_connections,
  connection_ended,
}

IsQuiet-trans : (p q r : Pool) → IsQuiet p q → IsQuiet q r → IsQuiet p r
IsQuiet-trans p q r a b = (b.0 ∙ a.0, b.1 ∙ a.1)

IsQuiet-if : (b : Bool) (p q r : Pool) → IsQuiet p q → IsQuiet p r → IsQuiet p (if b then q else r)
IsQuiet-if true p q r a b = a
IsQuiet-if false p q r a b = b

pub did-IsQuiet : (e : Effect) (p : Pool) → sent (e ∷ []) ≡ [] → IsQuiet p (did e p)
did-IsQuiet e p h = (quiet_effect e p.log h, refl)

did_after : (e : Effect) (p q : Pool) → sent (e ∷ []) ≡ [] → IsQuiet p q → IsQuiet p (did e q)
did_after e p q h k = IsQuiet-trans p q (did e q) k (did-IsQuiet e q h)

pub state_transition-IsQuiet : (s : PoolState) (p : Pool) → IsQuiet p (state_transition s p)
unfolding state_transition sent
state_transition-IsQuiet s p = by_table (any (same_state s) (legal_states p.state))
  where
    by_table : (b : Bool) → IsQuiet p (transition_if b s p)
    by_table true = did-IsQuiet (state_changed p.state s) p refl
    by_table false = did-IsQuiet (illegal_transition p.state s) p refl

pub remove_connection-IsQuiet : (c : ℕ) (p : Pool) → IsQuiet p (remove_connection c p)
unfolding remove_connection
remove_connection-IsQuiet c p = ground arith

give_back_connection-IsQuiet : (c : ℕ) (p : Pool) → IsQuiet p (give_back_connection c p)
unfolding give_back_connection
give_back_connection-IsQuiet c p = ground arith

attempt-IsQuiet : (why : Purpose) (p : Pool) → IsQuiet p (attempt why p)
unfolding sent
attempt-IsQuiet why p = (quiet_effect (connection_attempt why) p.log refl, refl)

create_connection-IsQuiet : (p : Pool) → IsQuiet p (create_connection p)
unfolding create_connection
create_connection-IsQuiet p =
    IsQuiet-if (dying p.state) p p (attempt one_more p) (refl, refl) (attempt-IsQuiet one_more p)

pub create_connections-IsQuiet : (n : ℕ) (p : Pool) → IsQuiet p (create_connections n p)
create_connections-IsQuiet zero p = (refl, refl)
create_connections-IsQuiet (suc n) p =
    IsQuiet-trans p (create_connection p) (create_connections n (create_connection p))
      (create_connection-IsQuiet p) (create_connections-IsQuiet n (create_connection p))

pub drop_connection-IsQuiet : (c : ℕ) (p : Pool) → IsQuiet p (drop_connection c p)
unfolding drop_connection sent
drop_connection-IsQuiet c p =
    let removed = remove_connection c (did (connection_destroyed c false) p) in
    let kept =
      IsQuiet-trans p (did (connection_destroyed c false) p) removed
        (did-IsQuiet (connection_destroyed c false) p refl)
        (remove_connection-IsQuiet c (did (connection_destroyed c false) p)) in
    (
      sent-append removed.log (calls (with_callback (p.store c).work_items) connection_failed)
          ∙ ap (λ l. sent removed.log ++ l)
              (sent-calls (with_callback (p.store c).work_items) connection_failed)
          ∙ append-nil (sent removed.log)
          ∙ kept.0,
      kept.1,
    )

report_if_empty-IsQuiet : (e : PoolEvent) (p : Pool) → IsQuiet p (report_if_empty e p)
unfolding report_if_empty sent
report_if_empty-IsQuiet e p =
    let lost = if dying p.state then p else state_transition disconnected p in
    IsQuiet-if (socket_count p == 0) p (did (emitted (reported e)) lost) p
      (did_after (emitted (reported e)) p lost refl (
        IsQuiet-if (dying p.state) p p (state_transition disconnected p) (refl, refl)
          (state_transition-IsQuiet disconnected p)))
      (refl, refl)

pub schedule_reconnect-IsQuiet : (p : Pool) → IsQuiet p (schedule_reconnect p)
unfolding sent
schedule_reconnect-IsQuiet p =
    IsQuiet-if (not p.reconnect_id && p.options.reconnect) p _ p
      (did-IsQuiet reconnect_later (record p { reconnect_id = true }) refl) (refl, refl)

keep_minimum-IsQuiet : (p : Pool) → IsQuiet p (keep_minimum p)
unfolding keep_minimum
keep_minimum-IsQuiet p =
    IsQuiet-if (below (total_connection_count p) p.options.min_size) p _ p
      (create_connection-IsQuiet p) (refl, refl)

pub after_failure-IsQuiet : (e : PoolEvent) (p : Pool) → IsQuiet p (after_failure e p)
after_failure-IsQuiet e p =
    let reported = report_if_empty e p in
    IsQuiet-trans p reported (after_failure e p) (report_if_empty-IsQuiet e p) (
      IsQuiet-trans reported (schedule_reconnect reported) (after_failure e p)
        (schedule_reconnect-IsQuiet reported) (keep_minimum-IsQuiet (schedule_reconnect reported)))

pub attempt_reconnection-IsQuiet : (p : Pool) → IsQuiet p (attempt_reconnection p)
unfolding attempt_reconnection sent
attempt_reconnection-IsQuiet p =
    let told = did (emitted PoolEvent.attempt_reconnect) p in
    let quiet = did-IsQuiet (emitted PoolEvent.attempt_reconnect) p refl in
    IsQuiet-if (dying p.state) p told _ quiet (
      IsQuiet-if (pool_is_connected p) p (record told { reconnect_id = false })
        (attempt reconnection told) quiet
        (IsQuiet-trans p told (attempt reconnection told) quiet
          (attempt-IsQuiet reconnection told)))

execute_soon-IsQuiet : (p : Pool) → IsQuiet p (execute_soon p)
unfolding sent
execute_soon-IsQuiet p =
    IsQuiet-if p.executing p p (did execute_later p) (refl, refl) (did-IsQuiet execute_later p refl)

respond-IsQuiet : (w : WorkItem) (m : Parsed) (p : Pool) → IsQuiet p (respond w m p)
unfolding respond sent
respond-IsQuiet w fails p = did-IsQuiet (called w _) p refl
respond-IsQuiet w empty p = did-IsQuiet (called w _) p refl
respond-IsQuiet w (document d) p =
    did_after (called w (answer_of w d)) p (note_times w d p) refl (noted w.session)
  where
    noted : (b : Bool) → IsQuiet p (if b then did (session_updated w) p else p)
    noted true = did-IsQuiet (session_updated w) p refl
    noted false = (refl, refl)

settle-IsQuiet : (c : ℕ) (item : Option WorkItem) (p : Pool) → IsQuiet p (settle c item p)
unfolding settle sent
settle-IsQuiet c item p =
    let back = if is_monitor item then give_back_connection c p else p in
    let reset = record back { consecutive_timeouts = 0 } in
    let timed = if has_timeout item then did (timeout_reset c) reset else reset in
    IsQuiet-trans p back (execute_soon timed)
      (IsQuiet-if (is_monitor item) p (give_back_connection c p) p
        (give_back_connection-IsQuiet c p) (refl, refl))
      (IsQuiet-trans reset timed (execute_soon timed)
        (IsQuiet-if (has_timeout item) reset (did (timeout_reset c) reset) reset
          (did-IsQuiet (timeout_reset c) reset refl) (refl, refl))
        (execute_soon-IsQuiet timed))

pub message_handler-IsQuiet : (m : Message) (c : ℕ) (p : Pool) → IsQuiet p (message_handler m c p)
unfolding message_handler
message_handler-IsQuiet m c p =
    let found = locate m.response_to (p.store c).work_items in
    let settled = settle c found.item (with_items c found.left p) in
    IsQuiet-trans p settled (dispatch found.item m.parsed settled)
      (settle-IsQuiet c found.item (with_items c found.left p)) (dispatched found.item settled)
  where
    dispatched : (o : Option WorkItem) (q : Pool) → IsQuiet q (dispatch o m.parsed q)
    dispatched none q = (refl, refl)
    dispatched (some w) q =
        IsQuiet-if w.immediate_release q q (respond w m.parsed q) (refl, refl)
          (respond-IsQuiet w m.parsed q)

all_destroyed-IsQuiet : (p : Pool) → IsQuiet p (all_destroyed p)
unfolding all_destroyed sent
all_destroyed-IsQuiet p =
    let emptied = record p {
      in_use_connections = [];
      available_connections = [];
      connecting_connections = pos 0;
    } in
    did_after closed p (state_transition destroyed emptied) refl
      (state_transition-IsQuiet destroyed emptied)

connection_destroyed_one-IsQuiet : (p : Pool) → IsQuiet p (connection_destroyed_one p)
unfolding connection_destroyed_one
connection_destroyed_one-IsQuiet p =
    let fewer = record p { closing = p.closing - 1 } in
    IsQuiet-if (fewer.closing == 0) p (all_destroyed fewer) fewer (all_destroyed-IsQuiet fewer)
      (refl, refl)

destroy_each-IsQuiet : (force : Bool) (cs : List ℕ) (p : Pool) → IsQuiet p (destroy_each force cs p)
unfolding destroy_each sent
destroy_each-IsQuiet force [] p = (refl, refl)
destroy_each-IsQuiet force (c ∷ cs) p =
    let asked = did (connection_destroyed c force) p in
    let gone = if force then connection_destroyed_one (mark_destroyed c asked) else asked in
    IsQuiet-trans p gone (destroy_each force cs gone)
      (IsQuiet-trans p asked gone (did-IsQuiet (connection_destroyed c force) p refl) (
        IsQuiet-if force asked (connection_destroyed_one (mark_destroyed c asked)) asked
          (connection_destroyed_one-IsQuiet (mark_destroyed c asked)) (refl, refl)))
      (destroy_each-IsQuiet force cs gone)

pub destroy_connections-IsQuiet :
    (force : Bool) (cs : List ℕ) (p : Pool) → IsQuiet p (destroy_connections force cs p)
unfolding destroy_connections
destroy_connections-IsQuiet force [] p = all_destroyed-IsQuiet p
destroy_connections-IsQuiet force (c ∷ cs) p =
    destroy_each-IsQuiet force (c ∷ cs) (record p { closing = length (c ∷ cs) })

pub connection_ended-IsQuiet : (c : ℕ) (p : Pool) → IsQuiet p (connection_ended c p)
unfolding connection_ended
connection_ended-IsQuiet c p = connection_destroyed_one-IsQuiet (record p {
  store = update p.store c (record (p.store c) { destroyed = true; writable = false });
})
