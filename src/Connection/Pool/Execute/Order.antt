-- ===== src/Connection/Pool/Execute/Order.antt =====
-- lib/connection/pool.js, _execute: the order in which operations are written.
use mongodb_core.Prelude.{
  append-nil, append_assoc, ℕ, zero, suc, ◌≡◌, refl, sym, ap, ◌∙◌, inl, inr, Bool, true, false, not,
  Option, none, some, List, [], ◌∷◌, ◌++◌, arith, length, select, if◌then◌else◌, Bool-cases, ◌&&◌,
  ◌||◌,
}
use mathlib.Core.Path.{ap₂}
use mongodb_core.Prelude.Int.{ℤ}
use mongodb_core.Connection.Pool.{
  Pool, WorkItem, Effect, called, written, connection_attempt, Answer, did, calls, one_more,
  timeout_set, execute_later, nothing, flush, flush_monitoring_operations, remove_connection,
  take_connection, create_connection, same_state, destroyed, is_connected, total_connection_count,
}
use mongodb_core.Connection.Pool.Execute.{
  Turn, again, break, turn, turn_on, turn_with, turns, execute, send, prepare, transmit, monitor_on,
  choose, find_free, go_on, called_at_once, taken_for, tracked, timed, custom_timeout, below, idle,
  unshift, wait_for_free, moved_on, dispatch, turn_if, is_positive,
}

-- The operations that have been written, in order.
unfoldable pub sent : List Effect → List WorkItem
sent [] = []
sent (written c w ∷ es) = w ∷ sent es
sent (_ ∷ es) = sent es

abbrev pub ordinary : List WorkItem → List WorkItem
ordinary = select (λ w. not w.monitoring)

pub ordinary-append : (x y : List WorkItem) → ordinary (x ++ y) ≡ ordinary x ++ ordinary y
ordinary-append [] y = refl
ordinary-append (w ∷ x) y = ground (arith, ordinary-append x y)

pub sent-append : (x y : List Effect) → sent (x ++ y) ≡ sent x ++ sent y
unfolding sent
sent-append [] y = refl
sent-append (written c w ∷ x) y = ap (λ l. w ∷ l) (sent-append x y)
sent-append (_ ∷ x) y = sent-append x y

pub sent-calls : (ws : List WorkItem) (a : Answer) → sent (calls ws a) ≡ []
unfolding sent
sent-calls [] a = refl
sent-calls (w ∷ ws) a = sent-calls ws a

-- Only monitoring operations leave.
ordinary-flush : (queue : List WorkItem) → ordinary (flush queue).kept ≡ ordinary queue
unfolding flush
ordinary-flush [] = refl
ordinary-flush (w ∷ []) = ground arith
ordinary-flush (w ∷ v ∷ queue) = ground (arith, ordinary-flush queue, ordinary-flush (v ∷ queue))

-- The ordinary operations, those that have been written before those that wait.
abbrev pub progress : Pool → List WorkItem
progress p = ordinary (sent p.log) ++ ordinary p.queue

pub quiet_effect :
    (e : Effect) (log : List Effect) → sent (e ∷ []) ≡ [] → sent (log ++ (e ∷ [])) ≡ sent log
quiet_effect e log h = sent-append log (e ∷ []) ∙ ap (λ l. sent log ++ l) h ∙ append-nil (sent log)

pub progress-flush : (p : Pool) → progress (flush_monitoring_operations p) ≡ progress p
unfolding flush_monitoring_operations
progress-flush p = simp (sent-append, sent-calls, append-nil, ordinary-flush)

progress-remove_connection : (c : ℕ) (p : Pool) → progress (remove_connection c p) ≡ progress p
unfolding remove_connection
progress-remove_connection c p = ground arith

progress-create_connection : (p : Pool) → progress (create_connection p) ≡ progress p
unfolding create_connection sent
progress-create_connection p =
    ground (arith, sent-append p.log (connection_attempt one_more ∷ []), append-nil (sent p.log))

-- Neither what was written nor the queue changes.
abbrev pub IsQuiet : Pool → Pool → Type 0
IsQuiet p q = (sent q.log ≡ sent p.log) × (q.queue ≡ p.queue)

taken_for-IsQuiet : (c : ℕ) (w : WorkItem) (p : Pool) → IsQuiet p (taken_for c w p)
unfolding take_connection
taken_for-IsQuiet c w p = ground arith

timed-IsQuiet : (c : ℕ) (w : WorkItem) (p : Pool) → IsQuiet p (timed c w p)
unfolding sent
timed-IsQuiet c w p = by_timeout w.immediate_release w.socket_timeout
  where
    by_timeout : (b : Bool) (t : Option ℕ) → IsQuiet p (if b then p else custom_timeout c t p)
    by_timeout true t = (refl, refl)
    by_timeout false none = (refl, refl)
    by_timeout false (some n) = (quiet_effect (timeout_set c n) p.log refl, refl)

-- Preparing a write writes nothing.
pub prepare-IsQuiet : (c : ℕ) (w : WorkItem) (p : Pool) → IsQuiet p (prepare c w p)
unfolding prepare
prepare-IsQuiet c w p =
    let a = taken_for-IsQuiet c w p in
    let b = tracked-quiet c w (taken_for c w p) in
    let d = timed-IsQuiet c w (tracked c w (taken_for c w p)) in (d.0 ∙ b.0 ∙ a.0, d.1 ∙ b.1 ∙ a.1)
  where
    tracked-quiet : (c : ℕ) (w : WorkItem) (p : Pool) → IsQuiet p (tracked c w p)
    tracked-quiet c w p = ground arith

pub called_at_once-IsQuiet : (w : WorkItem) (p : Pool) → IsQuiet p (called_at_once w p)
unfolding sent
called_at_once-IsQuiet w p = elim (Bool-cases (w.no_response && w.callback)) [
  | inl now ↦ rw now (quiet_effect (called w nothing) p.log refl, refl)
  | inr later ↦ rw later (refl, refl)
]

pub quiet-progress : (p q : Pool) → IsQuiet p q → progress q ≡ progress p
quiet-progress p q h = ap₂ (λ s q. ordinary s ++ ordinary q) h.0 h.1

abbrev pub left_by : Turn → Pool
left_by (again p) = p
left_by (break p) = p

transmit-progress :
    (failed : Bool) (c : ℕ) (w : WorkItem) (p : Pool)
    → progress (left_by (transmit failed c w p)) ≡ ordinary (sent p.log) ++ ordinary (w ∷ p.queue)
unfolding sent
transmit-progress true c w p =
    progress-flush _
    ∙ progress-remove_connection c _
    ∙ ap₂ (λ s q. ordinary s ++ ordinary (w ∷ q)) (called_at_once-IsQuiet w p).0
        (called_at_once-IsQuiet w p).1
transmit-progress false c w p =
    quiet-progress (did (written c w) p) (called_at_once w (did (written c w) p))
      (called_at_once-IsQuiet w (did (written c w) p))
    ∙ ap (λ s. ordinary s ++ ordinary p.queue) (sent-append p.log (written c w ∷ []))
    ∙ ap (λ s. s ++ ordinary p.queue) (ordinary-append (sent p.log) (w ∷ []))
    ∙ append_assoc (ordinary (sent p.log)) (ordinary (w ∷ [])) (ordinary p.queue)
    ∙ ap (λ s. ordinary (sent p.log) ++ s) (sym (ordinary-append (w ∷ []) p.queue))

send-progress :
    (total : ℤ) (c : ℕ) (w : WorkItem) (p : Pool)
    → progress (left_by (send total c w p)) ≡ ordinary (sent p.log) ++ ordinary (w ∷ p.queue)
unfolding send
send-progress total c w p = elim (Bool-cases (below total p.options.size && not (idle p c))) [
  | inl grows ↦ rw grows (progress-create_connection (unshift w p))
  | inr goes ↦ rw goes (
      transmit-progress (p.store c).socket_destroyed c w (prepare c w p)
      ∙ ap₂ (λ s q. ordinary s ++ ordinary (w ∷ q)) (prepare-IsQuiet c w p).0
          (prepare-IsQuiet c w p).1)
]

wait_for_free-progress :
    (total : ℤ) (w : WorkItem) (p : Pool)
    → progress (left_by (wait_for_free total w p)) ≡ ordinary (sent p.log) ++ ordinary (w ∷ p.queue)
unfolding sent
wait_for_free-progress total w p = elim (Bool-cases (below total p.options.size)) [
  | inl grows ↦
      rw grows (later (create_connection (unshift w p)) ∙ progress-create_connection (unshift w p))
  | inr stays ↦ rw stays (later (unshift w p))
]
  where
    later : (q : Pool) → progress (did execute_later q) ≡ progress q
    later q = ap (λ s. ordinary s ++ ordinary q.queue) (quiet_effect execute_later q.log refl)

monitor_on-progress :
    (o : Option ℕ) (total : ℤ) (w : WorkItem) (p : Pool)
    → progress (left_by (monitor_on o total w p)) ≡ ordinary (sent p.log) ++ ordinary (w ∷ p.queue)
monitor_on-progress none total w p = wait_for_free-progress total w p
monitor_on-progress (some c) total w p = send-progress total c w p

turn_with-progress :
    (c : ℕ) (cs : List ℕ) (w : WorkItem) (queue : List WorkItem) (p : Pool)
    → p.queue ≡ w ∷ queue
    → progress (left_by (turn_with c cs w queue p)) ≡ progress p
unfolding turn_with
turn_with-progress c cs w queue p e =
    by_connection (is_connected (p.store (choose c cs p))) (choose c cs p) (find_free p (c ∷ cs))
  where
    taken : ordinary (sent p.log) ++ ordinary (w ∷ queue) ≡ progress p
    taken = ap (λ q. ordinary (sent p.log) ++ ordinary q) (sym e)

    shifted : Pool
    shifted = record (moved_on p) { queue = queue }

    by_kind :
        (monitoring : Bool) (chosen : ℕ) (free : Option ℕ)
        → progress (left_by (dispatch monitoring chosen free (total_connection_count p) w shifted))
          ≡ progress p
    by_kind true chosen free = monitor_on-progress free (total_connection_count p) w shifted ∙ taken
    by_kind false chosen free = send-progress (total_connection_count p) chosen w shifted ∙ taken

    by_connection :
        (there : Bool) (chosen : ℕ) (free : Option ℕ)
        → progress (left_by (turn_if there chosen free w queue p)) ≡ progress p
    by_connection false chosen free =
        progress-flush (remove_connection chosen (moved_on p))
        ∙ progress-remove_connection chosen (moved_on p)
    by_connection true chosen free = by_kind w.monitoring chosen free

turn-progress : (p : Pool) → progress (left_by (turn p)) ≡ progress p
unfolding turn
turn-progress p = by_lists p.available_connections p.queue refl
  where
    by_lists :
        (cs : List ℕ) (queue : List WorkItem)
        → p.queue ≡ queue
        → progress (left_by (turn_on cs queue p)) ≡ progress p
    by_lists [] queue e = progress-flush p
    by_lists (c ∷ cs) [] e = refl
    by_lists (c ∷ cs) (w ∷ queue) e = turn_with-progress c cs w queue p e

turns-progress : (n : ℕ) (p : Pool) → progress (turns n p) ≡ progress p
unfolding turns
turns-progress zero p = refl
turns-progress (suc n) p = after (turn p) (turns-progress n) (turn-progress p)
  where
    after :
        (t : Turn)
        → ((q : Pool) → progress (turns n q) ≡ progress q)
        → progress (left_by t) ≡ progress p
        → progress (go_on (turns n) t) ≡ progress p
    after (again q) later e = later q ∙ e
    after (break q) later e = e

-- Running the loop loses no ordinary operation, writes none twice and none out of turn: those that have been
-- written, followed by those that wait, are the same list before and after.
pub execute-progress : (p : Pool) → progress (execute p) ≡ progress p
unfolding execute
execute-progress p =
    elim (Bool-cases
      (same_state destroyed p.state || p.executing || is_positive p.connecting_connections)) [
        | inl skipped ↦ rw skipped refl
        | inr runs ↦ rw runs (turns-progress (suc (length p.queue)) (record p { executing = true }))
      ]
