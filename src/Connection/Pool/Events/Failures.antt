-- ===== src/Connection/Pool/Events/Failures.antt =====
-- lib/connection/pool.js, connectionFailureHandler: what becomes of the operations of a connection that fails.
use mongodb_core.Prelude.{
  ℕ, ◌+◌, ◌≡◌, ◌≢◌, refl, ap, ◌∙◌, Bool, true, false, not, ◌&&◌, [], ◌++◌, arith, if◌then◌else◌,
  ◌==◌, ltb, any,
}
use mongodb_core.Connection.Pool.{
  Pool, PoolState, disconnected, Socket, connection_failed, PoolEvent, close, emitted,
  state_changed, illegal_transition, connection_attempt, one_more, connection_destroyed,
  reconnect_later, did, update, calls, with_callback, dying, same_state, legal_states,
  transition_if, state_transition, socket_count, total_connection_count, remove_connection, attempt,
  create_connection,
}
use mongodb_core.Connection.Pool.Execute.{below}
use mongodb_core.Connection.Pool.Closing.{destroy}
use mongodb_core.Connection.Pool.Closing.Ends.{
  answers, each_with, answers-append, answers-calls, answers-other, IsSilent, IsSilent-if,
  did-IsSilent, IsSilent-trans,
}
use mongodb_core.Connection.Pool.Events.{
  drop_connection, is_timeout, reported, report_if_empty, schedule_reconnect, keep_minimum,
  after_failure, connection_failure_handler,
}

state_transition-IsSilent : (s : PoolState) (p : Pool) → IsSilent p (state_transition s p)
unfolding state_transition answers
state_transition-IsSilent s p = by_table (any (same_state s) (legal_states p.state))
  where
    by_table : (b : Bool) → IsSilent p (transition_if b s p)
    by_table true = did-IsSilent (state_changed p.state s) p refl
    by_table false = did-IsSilent (illegal_transition p.state s) p refl

report_if_empty-IsSilent : (e : PoolEvent) (p : Pool) → IsSilent p (report_if_empty e p)
unfolding report_if_empty answers
report_if_empty-IsSilent e p =
    let lost = if dying p.state then p else state_transition disconnected p in
    IsSilent-if (socket_count p == 0) p (did (emitted (reported e)) lost) p
      (IsSilent-trans p lost (did (emitted (reported e)) lost)
        (IsSilent-if (dying p.state) p p (state_transition disconnected p) (refl, refl)
          (state_transition-IsSilent disconnected p))
        (did-IsSilent (emitted (reported e)) lost refl))
      (refl, refl)

schedule_reconnect-IsSilent : (p : Pool) → IsSilent p (schedule_reconnect p)
unfolding answers
schedule_reconnect-IsSilent p =
    IsSilent-if (not p.reconnect_id && p.options.reconnect) p
      (did reconnect_later (record p { reconnect_id = true })) p
      (did-IsSilent reconnect_later (record p { reconnect_id = true }) refl) (refl, refl)

keep_minimum-IsSilent : (p : Pool) → IsSilent p (keep_minimum p)
unfolding keep_minimum create_connection answers
keep_minimum-IsSilent p =
    IsSilent-if (below (total_connection_count p) p.options.min_size) p (create_connection p) p
      (IsSilent-if (dying p.state) p p (attempt one_more p) (refl, refl)
        (answers-other (connection_attempt one_more) p.log refl, refl))
      (refl, refl)

after_failure-IsSilent : (e : PoolEvent) (p : Pool) → IsSilent p (after_failure e p)
after_failure-IsSilent e p =
    let told = report_if_empty e p in
    IsSilent-trans p told (after_failure e p) (report_if_empty-IsSilent e p) (
      IsSilent-trans told (schedule_reconnect told) (after_failure e p)
        (schedule_reconnect-IsSilent told) (keep_minimum-IsSilent (schedule_reconnect told)))

remove_connection-IsSilent : (c : ℕ) (p : Pool) → IsSilent p (remove_connection c p)
unfolding remove_connection
remove_connection-IsSilent c p = ground arith

-- The operations in flight on the connection that failed have been answered with the error, in order, and
-- are in flight no more; every other connection is as before.
pub IsDropped : ℕ → Pool → Pool → Type 0
IsDropped c p q =
    (answers q.log
      ≡ answers p.log ++ each_with connection_failed (with_callback (p.store c).work_items))
    × ((q.store c).work_items ≡ [])
    × ((q.store c).fail_handled ≡ true)
    × ((d : ℕ) → d ≢ c → q.store d ≡ p.store d)

drop_connection-IsDropped : (c : ℕ) (p : Pool) → IsDropped c p (drop_connection c p)
unfolding drop_connection IsDropped answers
drop_connection-IsDropped c p =
    let told = did (connection_destroyed c false) p in
    let items = with_callback (p.store c).work_items in
    let dead = record (p.store c) { writable = false; fail_handled = true; work_items = [] } in
    (
      answers-append (remove_connection c told).log (calls items connection_failed)
          ∙ ap (λ l. answers (remove_connection c told).log ++ l)
              (answers-calls items connection_failed)
          ∙ ap (λ l. l ++ each_with connection_failed items)
              ((remove_connection-IsSilent c told).0
                ∙ answers-other (connection_destroyed c false) p.log refl),
      ap (λ s. s.work_items) (here dead),
      ap (λ s. s.fail_handled) (here dead),
      λ d other. elsewhere dead d other,
    )
  where
    here : (s : Socket) → update p.store c s c ≡ s
    here s = ground arith

    elsewhere : (s : Socket) (d : ℕ) → d ≢ c → update p.store c s d ≡ p.store d
    elsewhere s d other = ground arith

silent-IsDropped : (c : ℕ) (p q r : Pool) → IsDropped c p q → IsSilent q r → IsDropped c p r
unfolding IsDropped
silent-IsDropped c p q r (a, i, f, o) (b, s) = (
  b ∙ a,
  ap (λ s. (s c).work_items) s ∙ i,
  ap (λ s. (s c).fail_handled) s ∙ f,
  λ d other. ap (λ s. s d) s ∙ o d other,
)

-- Whether the pool is destroyed because of timeouts in a row.
abbrev gives_up : PoolEvent → Pool → Bool
gives_up e p = is_timeout e && ltb p.options.reconnect_tries (p.consecutive_timeouts + 1)

handled-IsDropped :
    (e : PoolEvent) (c : ℕ) (p : Pool)
    → (p.store c).fail_handled ≡ false
    → gives_up e p ≡ false
    → IsDropped c p (connection_failure_handler e c p)
unfolding connection_failure_handler
handled-IsDropped e c p first goes_on =
    by_tests (p.store c).fail_handled (is_timeout e)
      (ltb p.options.reconnect_tries (p.consecutive_timeouts + 1)) first goes_on
  where
    dropped : Pool
    dropped = drop_connection c p

    counted : Pool
    counted = record dropped { consecutive_timeouts = dropped.consecutive_timeouts + 1 }

    forced : Pool
    forced = did (emitted close) (destroy true (record dropped { consecutive_timeouts = 0 }))

    after : (q : Pool) → IsSilent dropped q → IsDropped c p (after_failure e q)
    after q same =
        silent-IsDropped c p dropped (after_failure e q) (drop_connection-IsDropped c p)
          (IsSilent-trans dropped q (after_failure e q) same (after_failure-IsSilent e q))

    by_tests :
        (handled timed_out too_often : Bool)
        → handled ≡ false
        → (timed_out && too_often) ≡ false
        → IsDropped c p (
            if handled
            then p
            else if timed_out
            then if too_often then forced else after_failure e counted
            else after_failure e dropped)
    by_tests true t o h k = cc
    by_tests false true true h k = cc
    by_tests false true false h k = after counted (refl, refl)
    by_tests false false o h k = after dropped (refl, refl)

handled_once :
    (e : PoolEvent) (c : ℕ) (p : Pool)
    → (p.store c).fail_handled ≡ true
    → connection_failure_handler e c p ≡ p
unfolding connection_failure_handler
handled_once e c p h = ground arith

-- When a connection fails for the first time, and the pool does not give up because of timeouts, each
-- operation in flight on it that has a callback is answered with an error, once and in order, and no other
-- operation is; none is in flight on it any more and no other connection changes. Any further report of a
-- failure of that connection then changes nothing.
pub connection_failure_handler-IsDropped :
    (e e' : PoolEvent) (c : ℕ) (p : Pool)
    → (p.store c).fail_handled ≡ false
    → gives_up e p ≡ false
    → let q = connection_failure_handler e c p in
      IsDropped c p q × (connection_failure_handler e' c q ≡ q)
unfolding IsDropped
connection_failure_handler-IsDropped e e' c p first goes_on =
    let dropped = handled-IsDropped e c p first goes_on in
    (dropped, handled_once e' c (connection_failure_handler e c p) dropped.2)
