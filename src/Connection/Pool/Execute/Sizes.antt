-- ===== src/Connection/Pool/Execute/Sizes.antt =====
-- lib/connection/pool.js: the number of connections.
use mongodb_core.Prelude.{
  ℕ, zero, suc, ◌+◌, ◌≤◌, ◌<◌, ◌≡◌, refl, subst, ◌∙◌, inl, inr, Bool, true, false, not, Option,
  none, some, List, [], ◌∷◌, arith, length, length-append, if◌then◌else◌, Bool-cases, ◌&&◌, ◌||◌,
}
use mongodb_core.Prelude.Int.{ℤ, pos, ◌+ℤ◌, ◌≤ℤ◌, +ℤ_parts, pos_part, neg_part}
use mongodb_core.Connection.Pool.{
  Pool, dying, attempt, one_more, execute_later, called, nothing, WorkItem, written, did,
  is_connected, has, without, total_connection_count, flush_monitoring_operations,
  remove_connection, take_connection, create_connection, same_state, destroyed,
}
use mongodb_core.Connection.Pool.Execute.{
  Turn, again, break, turn, turn_on, turn_with, turn_if, turns, execute, send, prepare, transmit,
  choose, find_free, go_on, called_at_once, below, idle, dispatch, moved_on, is_positive, unshift,
  custom_timeout, wait_for_free, taken_for, tracked, timed, push_item,
}
use mongodb_core.Connection.Pool.Execute.Order.{left_by}

-- The pool has not outgrown its size.
unfoldable pub IsWithinSize : Pool → Type 0
unfolding total_connection_count
IsWithinSize p = total_connection_count p ≤ℤ pos p.options.size

length-without : (c : ℕ) (cs : List ℕ) → has c cs ≡ true → suc (length (without c cs)) ≡ length cs
length-without c [] h = cc
length-without c (d ∷ cs) h = ground (arith, length-without c cs)

length-without-le : (c : ℕ) (cs : List ℕ) → length (without c cs) ≤ length cs
length-without-le c [] = omega arith
length-without-le c (d ∷ cs) = ground (arith, length-without-le c cs)

-- The same connections, or fewer.
abbrev Fewer : Pool → Pool → Type 0
Fewer p q =
    (length q.available_connections + length q.in_use_connections
      ≤ length p.available_connections + length p.in_use_connections)
    × (q.connecting_connections ≡ p.connecting_connections)
    × (q.options ≡ p.options)

remove_connection-Fewer : (c : ℕ) (p : Pool) → Fewer p (remove_connection c p)
unfolding remove_connection
remove_connection-Fewer c p =
    ground
      (arith, length-without-le c p.available_connections, length-without-le c p.in_use_connections)

flush-Fewer : (p : Pool) → Fewer p (flush_monitoring_operations p)
unfolding flush_monitoring_operations
flush-Fewer p = (omega arith, refl, refl)

taken_for-Fewer : (c : ℕ) (w : WorkItem) (p : Pool) → Fewer p (taken_for c w p)
unfolding take_connection
taken_for-Fewer c w p =
    ground
      (arith, length-without c p.available_connections, length-append p.in_use_connections (c ∷ []))

tracked-Fewer : (c : ℕ) (w : WorkItem) (p : Pool) → Fewer p (tracked c w p)
tracked-Fewer c w p = by_response w.no_response
  where
    by_response : (b : Bool) → Fewer p (if b then p else push_item c w p)
    by_response true = (omega arith, refl, refl)
    by_response false = (omega arith, refl, refl)

timed-Fewer : (c : ℕ) (w : WorkItem) (p : Pool) → Fewer p (timed c w p)
timed-Fewer c w p = by_timeout w.immediate_release w.socket_timeout
  where
    by_timeout : (b : Bool) (t : Option ℕ) → Fewer p (if b then p else custom_timeout c t p)
    by_timeout true t = (omega arith, refl, refl)
    by_timeout false none = (omega arith, refl, refl)
    by_timeout false (some n) = (omega arith, refl, refl)

trans : (p q r : Pool) → Fewer p q → Fewer q r → Fewer p r
trans p q r a b = (omega arith, b.1 ∙ a.1, b.2 ∙ a.2)

prepare-Fewer : (c : ℕ) (w : WorkItem) (p : Pool) → Fewer p (prepare c w p)
unfolding prepare
prepare-Fewer c w p =
    trans p (taken_for c w p) (timed c w (tracked c w (taken_for c w p))) (taken_for-Fewer c w p) (
      trans (taken_for c w p) (tracked c w (taken_for c w p))
        (timed c w (tracked c w (taken_for c w p))) (tracked-Fewer c w (taken_for c w p))
        (timed-Fewer c w (tracked c w (taken_for c w p))))

called_at_once-Fewer : (w : WorkItem) (p : Pool) → Fewer p (called_at_once w p)
called_at_once-Fewer w p = by_callback (w.no_response && w.callback)
  where
    by_callback : (b : Bool) → Fewer p (if b then did (called w nothing) p else p)
    by_callback true = (omega arith, refl, refl)
    by_callback false = (omega arith, refl, refl)

below→lt : (t : ℤ) (size : ℕ) → below t size ≡ true → pos_part t < size + neg_part t
below→lt t size h = ground arith

le_of_fewer : (a b size : ℕ) (z : ℤ) → b ≤ a → pos a +ℤ z ≤ℤ pos size → pos b +ℤ z ≤ℤ pos size
le_of_fewer a b size z h k = omega (arith, +ℤ_parts (pos a) z, +ℤ_parts (pos b) z)

le_of_room :
    (a b size : ℕ) (z : ℤ)
    → b ≤ a
    → below (pos a +ℤ z) size ≡ true
    → pos b +ℤ (z +ℤ pos 1) ≤ℤ pos size
le_of_room a b size z h k = omega (
  arith,
  below→lt (pos a +ℤ z) size k,
  +ℤ_parts (pos a) z,
  +ℤ_parts z (pos 1),
  +ℤ_parts (pos b) (z +ℤ pos 1),
)

Fewer-IsWithinSize : (p q : Pool) → Fewer p q → IsWithinSize p → IsWithinSize q
unfolding IsWithinSize total_connection_count
Fewer-IsWithinSize p q (fewer, connecting, same) within =
    rw (connecting, same)
      (le_of_fewer (length p.available_connections + length p.in_use_connections)
        (length q.available_connections + length q.in_use_connections) p.options.size
        p.connecting_connections fewer within)

create_connection-IsWithinSize :
    (p q : Pool)
    → Fewer p q
    → below (total_connection_count p) p.options.size ≡ true
    → IsWithinSize (create_connection q)
unfolding IsWithinSize total_connection_count create_connection
create_connection-IsWithinSize p q (fewer, connecting, same) room = by_state (dying q.state)
  where
    grown :
        pos (length q.available_connections + length q.in_use_connections)
          +ℤ (q.connecting_connections +ℤ pos 1)
        ≤ℤ pos q.options.size
    grown =
        rw (connecting, same)
          (le_of_room (length p.available_connections + length p.in_use_connections)
            (length q.available_connections + length q.in_use_connections) p.options.size
            p.connecting_connections fewer room)

    by_state : (b : Bool) → IsWithinSize (if b then q else attempt one_more q)
    by_state true = omega (
      arith,
      grown,
      +ℤ_parts q.connecting_connections (pos 1),
      +ℤ_parts (pos (length q.available_connections + length q.in_use_connections))
          (q.connecting_connections +ℤ pos 1),
      +ℤ_parts (pos (length q.available_connections + length q.in_use_connections))
          q.connecting_connections,
    )
    by_state false = grown

transmit-IsWithinSize :
    (failed : Bool) (c : ℕ) (w : WorkItem) (p : Pool)
    → IsWithinSize p
    → IsWithinSize (left_by (transmit failed c w p))
transmit-IsWithinSize true c w p within =
    let called = unshift w (called_at_once w p) in
    let removed = remove_connection c called in
    Fewer-IsWithinSize removed (flush_monitoring_operations removed) (flush-Fewer removed) (
      Fewer-IsWithinSize called removed (remove_connection-Fewer c called)
        (Fewer-IsWithinSize p called (called_at_once-Fewer w p) within))
transmit-IsWithinSize false c w p within =
    Fewer-IsWithinSize p (called_at_once w (did (written c w) p))
      (called_at_once-Fewer w (did (written c w) p)) within

-- `total` is what the round began with.
send-IsWithinSize :
    (p : Pool) (c : ℕ) (w : WorkItem) (q : Pool)
    → Fewer p q
    → IsWithinSize p
    → IsWithinSize (left_by (send (total_connection_count p) c w q))
unfolding send
send-IsWithinSize p c w q fewer within =
    elim (Bool-cases (below (total_connection_count p) q.options.size && not (idle q c))) [
      | inl grows ↦ rw grows (
          create_connection-IsWithinSize p (unshift w q) fewer (
            subst (λ o. below (total_connection_count p) o.size ≡ true) fewer.2
              (both (below (total_connection_count p) q.options.size) (not (idle q c)) grows)))
      | inr goes ↦ rw goes (
          transmit-IsWithinSize (q.store c).socket_destroyed c w (prepare c w q) (
            Fewer-IsWithinSize q (prepare c w q) (prepare-Fewer c w q)
              (Fewer-IsWithinSize p q fewer within)))
    ]
  where
    both : (a b : Bool) → (a && b) ≡ true → a ≡ true
    both true b h = refl
    both false b h = h

wait_for_free-IsWithinSize :
    (p : Pool) (w : WorkItem) (q : Pool)
    → Fewer p q
    → IsWithinSize p
    → IsWithinSize (left_by (wait_for_free (total_connection_count p) w q))
unfolding IsWithinSize total_connection_count
wait_for_free-IsWithinSize p w q fewer within =
    elim (Bool-cases (below (total_connection_count p) q.options.size)) [
      | inl grows ↦ rw grows (
          later (create_connection (unshift w q)) (
            create_connection-IsWithinSize p (unshift w q) fewer
              (subst (λ o. below (total_connection_count p) o.size ≡ true) fewer.2 grows)))
      | inr stays ↦ rw stays (later (unshift w q) (Fewer-IsWithinSize p (unshift w q) fewer within))
    ]
  where
    later : (r : Pool) → IsWithinSize r → IsWithinSize (did execute_later r)
    later r h = h

turn-IsWithinSize : (p : Pool) → IsWithinSize p → IsWithinSize (left_by (turn p))
unfolding turn turn_with
turn-IsWithinSize p within = by_lists p.available_connections p.queue
  where
    by_kind :
        (monitoring : Bool) (chosen : ℕ) (free : Option ℕ) (w : WorkItem) (q : Pool)
        → Fewer p q
        → IsWithinSize (left_by (dispatch monitoring chosen free (total_connection_count p) w q))
    by_kind true chosen none w q fewer = wait_for_free-IsWithinSize p w q fewer within
    by_kind true chosen (some c) w q fewer = send-IsWithinSize p c w q fewer within
    by_kind false chosen free w q fewer = send-IsWithinSize p chosen w q fewer within

    by_connection :
        (there : Bool) (chosen : ℕ) (free : Option ℕ) (w : WorkItem) (queue : List WorkItem)
        → IsWithinSize (left_by (turn_if there chosen free w queue p))
    by_connection false chosen free w queue =
        let removed = remove_connection chosen (moved_on p) in
        Fewer-IsWithinSize removed (flush_monitoring_operations removed) (flush-Fewer removed)
          (Fewer-IsWithinSize p removed (remove_connection-Fewer chosen (moved_on p)) within)
    by_connection true chosen free w queue =
        by_kind w.monitoring chosen free w (record (moved_on p) { queue = queue })
          (omega arith, refl, refl)

    by_lists : (cs : List ℕ) (queue : List WorkItem) → IsWithinSize (left_by (turn_on cs queue p))
    by_lists [] queue = Fewer-IsWithinSize p (flush_monitoring_operations p) (flush-Fewer p) within
    by_lists (c ∷ cs) [] = within
    by_lists (c ∷ cs) (w ∷ queue) =
        by_connection (is_connected (p.store (choose c cs p))) (choose c cs p)
          (find_free p (c ∷ cs)) w queue

turns-IsWithinSize : (n : ℕ) (p : Pool) → IsWithinSize p → IsWithinSize (turns n p)
unfolding turns
turns-IsWithinSize zero p within = within
turns-IsWithinSize (suc n) p within =
    after (turn p) (turns-IsWithinSize n) (turn-IsWithinSize p within)
  where
    after :
        (t : Turn)
        → ((q : Pool) → IsWithinSize q → IsWithinSize (turns n q))
        → IsWithinSize (left_by t)
        → IsWithinSize (go_on (turns n) t)
    after (again q) later h = later q h
    after (break q) later h = h

-- Running the loop never takes the pool over its size, attempts to connect counted.
pub execute-IsWithinSize : (p : Pool) → IsWithinSize p → IsWithinSize (execute p)
unfolding execute IsWithinSize total_connection_count
execute-IsWithinSize p within =
    elim (Bool-cases
      (same_state destroyed p.state || p.executing || is_positive p.connecting_connections)) [
        | inl skipped ↦ rw skipped within
        | inr runs ↦
            rw runs
              (turns-IsWithinSize (suc (length p.queue)) (record p { executing = true }) within)
      ]
