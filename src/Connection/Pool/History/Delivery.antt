-- ===== src/Connection/Pool/History/Delivery.antt =====
-- lib/connection/pool.js: operations are written in the order in which they join the queue.
use mongodb_core.Errors.{ok}
use mongodb_core.Prelude.{
  append-nil, append_assoc, ◌≡◌, refl, sym, ap, ◌∙◌, inl, inr, Bool, true, false, not, ◌&&◌, List,
  [], ◌∷◌, ◌++◌, if◌then◌else◌, Bool-cases, ◌==◌,
}
use mongodb_core.Connection.Pool.{
  Pool, WorkItem, called, execute_later, compresses, pool_destroyed, did, dying,
}
use mongodb_core.Connection.Pool.Execute.Order.{
  sent, ordinary, progress, quiet-progress, execute-progress, ordinary-append,
}
use mongodb_core.Connection.Pool.Events.{write, serialized, attempt_reconnection, enqueue}
use mongodb_core.Connection.Pool.Messages.{message_handler}
use mongodb_core.Connection.Pool.Closing.{check_status, connection_ended}
use mongodb_core.Connection.Pool.History.{
  Happening, connects, writes, compression_ends, destroys, connection_fails, message_arrives,
  attempt_fails, attempt_succeeds, reconnect_timer, execute_timer, check_timer, connection_ends,
  happen, run, or_same, awaits_operations,
}
use mongodb_core.Connection.Pool.History.Quiet.{
  attempt_reconnection-IsQuiet, message_handler-IsQuiet, connection_ended-IsQuiet,
}
use mongodb_core.Connection.Pool.History.Keeping.{
  progress_if, did-progress, check_status-progress, gives_up, failure-progress, forced-progress,
  attempt_failed-progress, attempt_made-progress, connect-progress,
}

-- Whether the command of an operation is compressed before it joins the queue.
abbrev is_compressed : WorkItem → Pool → Bool
is_compressed w p = p.options.agreed_compressor && w.compressible

-- The operation that joins the queue when this happens: at a call of `write` that does not throw, while the
-- pool is not destroyed, with an operation that is not compressed, or when its compression ends. Operations
-- that monitor are left out.
abbrev pub accepted : Happening → Pool → List WorkItem
accepted (writes w) p =
    if not w.callback && not w.no_response
    then []
    else if dying p.state
    then []
    else if is_compressed w p
    then []
    else ordinary (w ∷ [])
accepted (compression_ends w) p = ordinary (w ∷ [])
accepted _ p = []

enqueue-progress :
    (w : WorkItem) (p : Pool) → progress (enqueue w p) ≡ progress p ++ ordinary (w ∷ [])
enqueue-progress w p = by_kind w.monitoring refl
  where
    by_kind :
        (m : Bool)
        → w.monitoring ≡ m
        → ordinary (sent p.log) ++ ordinary (if m then w ∷ p.queue else p.queue ++ (w ∷ []))
          ≡ progress p ++ ordinary (w ∷ [])
    by_kind true e = rw e (sym (append-nil (progress p)))
    by_kind false e =
        ap (λ l. ordinary (sent p.log) ++ l) (ordinary-append p.queue (w ∷ []))
        ∙ sym (append_assoc (ordinary (sent p.log)) (ordinary p.queue) (ordinary (w ∷ [])))

serialized-progress :
    (w : WorkItem) (p : Pool) → progress (serialized w p) ≡ progress p ++ ordinary (w ∷ [])
unfolding serialized sent
serialized-progress w p =
    progress_if p.executing (enqueue w p) (enqueue w p) (did execute_later (enqueue w p)) refl
      (did-progress execute_later (enqueue w p) refl)
    ∙ enqueue-progress w p

write-progress :
    (w : WorkItem) (p : Pool)
    → progress (or_same p (write w p)) ≡ progress p ++ accepted (writes w) p
unfolding write sent
write-progress w p = elim (Bool-cases (not w.callback && not w.no_response)) [
  | inl throws ↦ rw throws (sym (append-nil (progress p)))
  | inr goes ↦ rw goes (by_state (dying p.state) w.callback (is_compressed w p))
]
  where
    by_state :
        (dead callback compressed : Bool)
        → progress (
            or_same p (
              if dead
              then ok (if callback then did (called w pool_destroyed) p else p)
              else ok (if compressed then did (compresses w) p else serialized w p)))
          ≡ progress p ++ (if dead then [] else if compressed then [] else ordinary (w ∷ []))
    by_state true true compressed =
        did-progress (called w pool_destroyed) p refl ∙ sym (append-nil (progress p))
    by_state true false compressed = sym (append-nil (progress p))
    by_state false callback true =
        did-progress (compresses w) p refl ∙ sym (append-nil (progress p))
    by_state false callback false = serialized-progress w p

-- The pool is destroyed by force: by a call, unless the pool is at its end already, or by a first failure of
-- a connection that is one timeout in a row too many.
abbrev is_forced : Happening → Pool → Bool
is_forced (destroys force) p = force && not (dying p.state)
is_forced (connection_fails e c) p = gives_up e c p
is_forced _ p = false

happen-progress :
    (h : Happening) (p : Pool)
    → is_forced h p ≡ false
    → progress (happen h p) ≡ progress p ++ accepted h p
unfolding happen
happen-progress (writes w) p g = write-progress w p
happen-progress (compression_ends w) p g = serialized-progress w p
happen-progress connects p g = connect-progress p ∙ sym (append-nil (progress p))
happen-progress (destroys force) p g = forced-progress force p g ∙ sym (append-nil (progress p))
happen-progress (connection_fails e c) p g =
    failure-progress e c p g ∙ sym (append-nil (progress p))
happen-progress (message_arrives m c) p g =
    quiet-progress p (message_handler m c p) (message_handler-IsQuiet m c p)
    ∙ sym (append-nil (progress p))
happen-progress (attempt_fails why) p g =
    attempt_failed-progress why p ∙ sym (append-nil (progress p))
happen-progress (attempt_succeeds why c s) p g =
    attempt_made-progress why c s p ∙ sym (append-nil (progress p))
happen-progress reconnect_timer p g =
    quiet-progress p (attempt_reconnection p) (attempt_reconnection-IsQuiet p)
    ∙ sym (append-nil (progress p))
happen-progress execute_timer p g = execute-progress p ∙ sym (append-nil (progress p))
happen-progress check_timer p g =
    progress_if (awaits_operations p) p (check_status p) p (check_status-progress p) refl
    ∙ sym (append-nil (progress p))
happen-progress (connection_ends c) p g =
    progress_if (p.closing == 0) p p (connection_ended c p) refl
      (quiet-progress p (connection_ended c p) (connection_ended-IsQuiet c p))
    ∙ sym (append-nil (progress p))

-- What the pool takes on in the course of events.
unfoldable pub all_accepted : List Happening → Pool → List WorkItem
all_accepted [] p = []
all_accepted (h ∷ hs) p = accepted h p ++ all_accepted hs (happen h p)

-- Nothing in the course of events destroys the pool by force.
abbrev pub IsGentle : List Happening → Pool → Type 0
IsGentle [] p = Unit
IsGentle (h ∷ hs) p = (is_forced h p ≡ false) × IsGentle hs (happen h p)

-- Whatever happens to a pool that is not destroyed by force, neither by a call nor because of more timeouts in
-- a row than it has tries, and in whatever order, the ordinary operations are written in the order in which
-- they join the queue, each once: those that have been written, followed by those that still wait, are those
-- of the beginning followed by those that have joined since. An operation joins at the call of `write`, or, if
-- its command is compressed, when the compression ends.
pub run-progress :
    (hs : List Happening) (p : Pool)
    → IsGentle hs p
    → progress (run hs p) ≡ progress p ++ all_accepted hs p
unfolding run all_accepted
run-progress [] p g = sym (append-nil (progress p))
run-progress (h ∷ hs) p g =
    run-progress hs (happen h p) g.1
    ∙ ap (λ l. l ++ all_accepted hs (happen h p)) (happen-progress h p g.0)
    ∙ append_assoc (progress p) (accepted h p) (all_accepted hs (happen h p))
