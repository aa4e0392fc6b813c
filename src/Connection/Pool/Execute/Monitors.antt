-- ===== src/Connection/Pool/Execute/Monitors.antt =====
-- lib/connection/pool.js, _execute: to which connection an operation is written.
use mongodb_core.Prelude.{
  ℕ, ◌≡◌, refl, sym, ap, subst, ◌∙◌, inl, inr, Bool, true, false, not, Option, none, some, List, [],
  ◌∷◌, ◌++◌, arith, if◌then◌else◌, Bool-cases, ◌&&◌,
}
use mongodb_core.Prelude.Int.{ℤ}
use mongodb_core.Connection.Pool.{
  Pool, WorkItem, written, called, nothing, did, has, without, is_connected, total_connection_count,
  take_connection,
}
use mongodb_core.Connection.Pool.Execute.{
  Turn, again, break, turn, turn_on, turn_with, turn_if, send, prepare, transmit, choose, find_free,
  called_at_once, below, idle, dispatch, moved_on, taken_for, tracked, timed, push_item,
  custom_timeout,
}
use mongodb_core.Connection.Pool.Execute.Order.{
  sent, sent-append, prepare-IsQuiet, called_at_once-IsQuiet,
}
use mongodb_core.Connection.Pool.Execute.Rounds.{Keeps, turn_with-Keeps}
use mongodb_core.Connection.Pool.Execute.Chosen.{choose-has, find_free-some}

-- The lists of the pool after an operation has been given to a connection: one that monitors has taken it.
abbrev IsTaken : Pool → WorkItem → ℕ → Pool → Type 0
IsTaken p w c q =
    (q.available_connections
      ≡ (if w.monitoring then without c p.available_connections else p.available_connections))
    × (q.in_use_connections
        ≡ (if w.monitoring then p.in_use_connections ++ (c ∷ []) else p.in_use_connections))
    × ((q.store c).work_items
        ≡ (if w.no_response then (p.store c).work_items else (p.store c).work_items ++ (w ∷ [])))

-- An operation has been written to a connection that was available and connected; one that monitors has a
-- connection without other work for itself.
pub IsSent : Pool → WorkItem → ℕ → Pool → Type 0
IsSent p w c q =
    (has c p.available_connections ≡ true)
    × (is_connected (p.store c) ≡ true)
    × (w.monitoring ≡ true → idle p c ≡ true)
    × IsTaken p w c q
    × (sent q.log ≡ sent p.log ++ (w ∷ []))

taken_for-lists :
    (c : ℕ) (w : WorkItem) (p : Pool)
    → has c p.available_connections ≡ true
    → ((taken_for c w p).available_connections
        ≡ (if w.monitoring then without c p.available_connections else p.available_connections))
      × ((taken_for c w p).in_use_connections
          ≡ (if w.monitoring then p.in_use_connections ++ (c ∷ []) else p.in_use_connections))
      × ((taken_for c w p).store c ≡ p.store c)
unfolding take_connection
taken_for-lists c w p h = ground arith

timed-IsTaken :
    (p : Pool) (w : WorkItem) (c : ℕ) (q : Pool) → IsTaken p w c q → IsTaken p w c (timed c w q)
timed-IsTaken p w c q h = by_timeout w.immediate_release w.socket_timeout
  where
    by_timeout : (b : Bool) (t : Option ℕ) → IsTaken p w c (if b then q else custom_timeout c t q)
    by_timeout true t = h
    by_timeout false none = h
    by_timeout false (some n) = h

prepare-IsTaken :
    (c : ℕ) (w : WorkItem) (p : Pool)
    → has c p.available_connections ≡ true
    → IsTaken p w c (prepare c w p)
unfolding prepare
prepare-IsTaken c w p h =
    timed-IsTaken p w c (tracked c w (taken_for c w p))
      (tracked-IsTaken (taken_for c w p) (taken_for-lists c w p h))
  where
    tracked-IsTaken :
        (q : Pool)
        → (q.available_connections
            ≡ (if w.monitoring then without c p.available_connections else p.available_connections))
          × (q.in_use_connections
              ≡ (if w.monitoring then p.in_use_connections ++ (c ∷ []) else p.in_use_connections))
          × (q.store c ≡ p.store c)
        → IsTaken p w c (tracked c w q)
    tracked-IsTaken q (a, b, e) = by_response w.no_response
      where
        by_response :
            (r : Bool)
            → (((if r then q else push_item c w q).available_connections ≡ (
                  if w.monitoring
                  then without c p.available_connections
                  else p.available_connections))
                × ((if r then q else push_item c w q).in_use_connections ≡ (
                    if w.monitoring
                    then p.in_use_connections ++ (c ∷ [])
                    else p.in_use_connections))
                × (((if r then q else push_item c w q).store c).work_items
                    ≡ (if r then (p.store c).work_items else (p.store c).work_items ++ (w ∷ []))))
        by_response true = (a, b, ap (λ s. s.work_items) e)
        by_response false = (a, b, ground arith)

called_at_once-IsTaken :
    (p : Pool) (w : WorkItem) (c : ℕ) (q : Pool)
    → IsTaken p w c q
    → IsTaken p w c (called_at_once w q)
called_at_once-IsTaken p w c q h = by_callback (w.no_response && w.callback)
  where
    by_callback : (b : Bool) → IsTaken p w c (if b then did (called w nothing) q else q)
    by_callback true = h
    by_callback false = h

Sends : Pool → WorkItem → Turn → Type 0
Sends p w (again q) = (c : ℕ) × IsSent p w c q
Sends p w (break q) = Unit

transmit-Sends :
    (p : Pool) (failed : Bool) (c : ℕ) (w : WorkItem) (q : Pool)
    → has c p.available_connections ≡ true
    → is_connected (p.store c) ≡ true
    → (w.monitoring ≡ true → idle p c ≡ true)
    → IsTaken p w c q
    → sent q.log ≡ sent p.log
    → Sends p w (transmit failed c w q)
unfolding Sends IsSent sent
transmit-Sends p true c w q there live alone taken e = tt
transmit-Sends p false c w q there live alone taken e = (
  c,
  (
    there,
    live,
    alone,
    called_at_once-IsTaken p w c (did (written c w) q) taken,
    (called_at_once-IsQuiet w (did (written c w) q)).0
        ∙ sent-append q.log (written c w ∷ [])
        ∙ ap (λ l. l ++ (w ∷ [])) e,
  ),
)

send-Sends :
    (total : ℤ) (c : ℕ) (w : WorkItem) (p : Pool)
    → has c p.available_connections ≡ true
    → is_connected (p.store c) ≡ true
    → (w.monitoring ≡ true → idle p c ≡ true)
    → Sends p w (send total c w p)
unfolding send Sends
send-Sends total c w p there live alone =
    elim (Bool-cases (below total p.options.size && not (idle p c))) [
      | inl grows ↦ rw grows tt
      | inr goes ↦ rw goes (
          transmit-Sends p (p.store c).socket_destroyed c w (prepare c w p) there live alone
            (prepare-IsTaken c w p there) (prepare-IsQuiet c w p).0)
    ]

turn_with-Sends :
    (p : Pool) (c : ℕ) (cs : List ℕ) (w : WorkItem) (queue : List WorkItem)
    → p.available_connections ≡ c ∷ cs
    → Sends p w (turn_with c cs w queue p)
unfolding turn_with Sends IsSent
turn_with-Sends p c cs w queue e =
    by_connection (is_connected (p.store (choose c cs p))) (choose c cs p) (find_free p (c ∷ cs))
      refl refl refl
  where
    shifted : Pool
    shifted = record (moved_on p) { queue = queue }

    listed : (d : ℕ) → has d (c ∷ cs) ≡ true → has d p.available_connections ≡ true
    listed d h = subst (λ l. has d l ≡ true) (sym e) h

    by_kind :
        (monitoring : Bool) (chosen : ℕ) (free : Option ℕ)
        → w.monitoring ≡ monitoring
        → chosen ≡ choose c cs p
        → find_free p (c ∷ cs) ≡ free
        → is_connected (p.store chosen) ≡ true
        → Sends p w (dispatch monitoring chosen free (total_connection_count p) w shifted)
    by_kind true chosen none m k f live = tt
    by_kind true chosen (some d) m k f live =
        let (there, live', alone) = find_free-some p (c ∷ cs) d f in
        send-Sends (total_connection_count p) d w shifted (listed d there) live' (λ h. alone)
    by_kind false chosen free m k f live =
        send-Sends (total_connection_count p) chosen w shifted
          (listed chosen (subst (λ d. has d (c ∷ cs) ≡ true) (sym k) (choose-has c cs p))) live
          (λ h. cc)

    by_connection :
        (there : Bool) (chosen : ℕ) (free : Option ℕ)
        → is_connected (p.store chosen) ≡ there
        → chosen ≡ choose c cs p
        → find_free p (c ∷ cs) ≡ free
        → Sends p w (turn_if there chosen free w queue p)
    by_connection false chosen free live k f = tt
    by_connection true chosen free live k f = by_kind w.monitoring chosen free refl k f live

-- A round that goes on has taken the first operation of the queue and written it, and nothing else, to a
-- connection that was available and connected; an operation that monitors has got a connection on which no
-- other was in flight, and that connection has moved from those that are available to those in use. The
-- operation is in flight there unless it has no response.
pub turn-IsSent :
    (p q : Pool)
    → turn p ≡ again q
    → (w : WorkItem) × (c : ℕ) × (p.queue ≡ w ∷ q.queue) × IsSent p w c q
unfolding turn Sends
turn-IsSent p q = by_lists p.available_connections p.queue refl refl
  where
    taken :
        (w : WorkItem) (queue : List WorkItem) (t : Turn)
        → p.queue ≡ w ∷ queue
        → Sends p w t
        → Keeps queue t
        → t ≡ again q
        → (w : WorkItem) × (c : ℕ) × (p.queue ≡ w ∷ q.queue) × IsSent p w c q
    taken w queue (again r) e (c, is_sent) kept same =
        let at_end : r ≡ q = again-inj r q same in
        (
          w,
          c,
          e ∙ ap (λ l. w ∷ l) (sym kept ∙ ap (λ r. r.queue) at_end),
          subst (IsSent p w c) at_end is_sent,
        )
      where
        again-inj : (a b : Pool) → again a ≡ again b → a ≡ b
        again-inj a b h = cc
    taken w queue (break r) e h kept same = cc

    by_lists :
        (cs : List ℕ) (queue : List WorkItem)
        → p.available_connections ≡ cs
        → p.queue ≡ queue
        → turn_on cs queue p ≡ again q
        → (w : WorkItem) × (c : ℕ) × (p.queue ≡ w ∷ q.queue) × IsSent p w c q
    by_lists [] queue a e same = cc
    by_lists (c ∷ cs) [] a e same = cc
    by_lists (c ∷ cs) (w ∷ queue) a e same =
        taken w queue (turn_with c cs w queue p) e (turn_with-Sends p c cs w queue a)
          (turn_with-Keeps c cs w queue p) same
