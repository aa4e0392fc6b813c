-- ===== src/Connection/Pool/Execute/Rounds.antt =====
-- lib/connection/pool.js, _execute: the loop ends.
use mongodb_core.Prelude.{
  subst, inl, inr, ℕ, zero, suc, ◌<◌, ◌≡◌, refl, ap, Bool, true, false, not, Option, none, some,
  List, [], ◌∷◌, arith, length, Bool-cases, ◌&&◌,
}
use mongodb_core.Prelude.Int.{ℤ}
use mongodb_core.Connection.Pool.{
  Pool, WorkItem, written, did, is_connected, total_connection_count,
}
use mongodb_core.Connection.Pool.Execute.{
  Turn, again, break, turn, turn_on, turn_with, turn_if, turns, send, prepare, transmit, choose,
  find_free, go_on, below, idle, dispatch, moved_on,
}
use mongodb_core.Connection.Pool.Execute.Order.{prepare-IsQuiet, called_at_once-IsQuiet}

-- A round that goes on leaves this queue.
abbrev pub Keeps : List WorkItem → Turn → Type 0
Keeps queue (again q) = q.queue ≡ queue
Keeps queue (break q) = Unit

transmit-Keeps :
    (failed : Bool) (c : ℕ) (w : WorkItem) (p : Pool) → Keeps p.queue (transmit failed c w p)
transmit-Keeps true c w p = tt
transmit-Keeps false c w p = (called_at_once-IsQuiet w (did (written c w) p)).1

send-Keeps : (total : ℤ) (c : ℕ) (w : WorkItem) (p : Pool) → Keeps p.queue (send total c w p)
unfolding send
send-Keeps total c w p = elim (Bool-cases (below total p.options.size && not (idle p c))) [
  | inl grows ↦ rw grows tt
  | inr goes ↦ rw goes (
      subst (λ q. Keeps q (transmit (p.store c).socket_destroyed c w (prepare c w p)))
        (prepare-IsQuiet c w p).1 (transmit-Keeps (p.store c).socket_destroyed c w (prepare c w p)))
]

pub turn_with-Keeps :
    (c : ℕ) (cs : List ℕ) (w : WorkItem) (queue : List WorkItem) (p : Pool)
    → Keeps queue (turn_with c cs w queue p)
unfolding turn_with
turn_with-Keeps c cs w queue p =
    by_connection (is_connected (p.store (choose c cs p))) (choose c cs p) (find_free p (c ∷ cs))
  where
    by_kind :
        (monitoring : Bool) (chosen : ℕ) (free : Option ℕ) (q : Pool)
        → Keeps q.queue (dispatch monitoring chosen free (total_connection_count p) w q)
    by_kind true chosen none q = tt
    by_kind true chosen (some d) q = send-Keeps (total_connection_count p) d w q
    by_kind false chosen free q = send-Keeps (total_connection_count p) chosen w q

    by_connection :
        (there : Bool) (chosen : ℕ) (free : Option ℕ)
        → Keeps queue (turn_if there chosen free w queue p)
    by_connection false chosen free = tt
    by_connection true chosen free =
        by_kind w.monitoring chosen free (record (moved_on p) { queue = queue })

-- It is shorter by one operation.
abbrev Shrinks : ℕ → Turn → Type 0
Shrinks n (again q) = suc (length q.queue) ≡ n
Shrinks n (break q) = Unit

turn-Shrinks : (p : Pool) → Shrinks (length p.queue) (turn p)
unfolding turn
turn-Shrinks p = by_lists p.available_connections p.queue
  where
    by_lists : (cs : List ℕ) (queue : List WorkItem) → Shrinks (length queue) (turn_on cs queue p)
    by_lists [] queue = tt
    by_lists (c ∷ cs) [] = tt
    by_lists (c ∷ cs) (w ∷ queue) =
        shorter (turn_with c cs w queue p) (turn_with-Keeps c cs w queue p)
      where
        shorter : (t : Turn) → Keeps queue t → Shrinks (length (w ∷ queue)) t
        shorter (again q) e = ap (λ l. suc (length l)) e
        shorter (break q) e = tt

-- The loop of a run ends by itself: with any number of rounds above the number of operations that wait it
-- does the same.
pub turns-enough :
    (m n : ℕ) (p : Pool) → length p.queue < m → length p.queue < n → turns m p ≡ turns n p
unfolding turns
turns-enough zero n p h k = absurd (omega arith)
turns-enough (suc m) zero p h k = absurd (omega arith)
turns-enough (suc m) (suc n) p h k = after (turn p) (turns-enough m n) (turn-Shrinks p)
  where
    after :
        (t : Turn)
        → ((q : Pool) → length q.queue < m → length q.queue < n → turns m q ≡ turns n q)
        → Shrinks (length p.queue) t
        → go_on (turns m) t ≡ go_on (turns n) t
    after (again q) same fewer = same q (omega arith) (omega arith)
    after (break q) same fewer = refl
