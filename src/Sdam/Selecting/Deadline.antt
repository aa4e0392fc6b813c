-- ===== src/Sdam/Selecting/Deadline.antt =====
-- lib/sdam/topology.js, selectServers: the selection comes to an end in time.
use mongodb_core.Errors.{Error, Result, ok, throw}
use mongodb_core.Prelude.{
  ℕ, ◌+◌, ◌-◌, ◌≤◌, ◌≡◌, refl, sym, inl, inr, subst, Bool, true, Option, none, some, List, [], ◌∷◌,
  arith, leb, Bool-cases, All, values,
}
use mongodb_core.Sdam.ServerDescription.{ServerDescription}
use mongodb_core.Sdam.Selecting.{
  Selector, View, Phase, answered, crashed, awaits_connect, awaits_change, Request, Selecting,
  Moment, topology_connected, description_changed, time_passes, fires, timed_out, by_descriptions,
  select_servers, description_changed_handler, step_from, step, run, start_selection,
}

unfoldable pub IsSettled : Phase → Type 0
IsSettled (answered r) = Unit
IsSettled (crashed e) = Unit
IsSettled (awaits_connect due) = ⊥
IsSettled (awaits_change start due) = ⊥

-- A selection that began at `start` waits for no connection, and not beyond `due`.
IsBounded : ℕ → ℕ → Phase → Type 0
IsBounded start end (answered r) = Unit
IsBounded start end (crashed e) = Unit
IsBounded start end (awaits_connect due) = ⊥
IsBounded start end (awaits_change begun due) = (begun ≡ start) × (due ≤ end)

-- A moment of a topology that stays connected, not before the start.
unfoldable pub IsLater : ℕ → Moment → Type 0
IsLater start (topology_connected v) = (v.connected ≡ true) × (start ≤ v.now)
IsLater start (description_changed v) = (v.connected ≡ true) × (start ≤ v.now)
IsLater start (time_passes now) = Unit

by_descriptions-IsBounded :
    (timeout start : ℕ) (v : View) (rs : List Request)
    (r : Result (Option (List ServerDescription)))
    → start ≤ v.now
    → (v.now - start) ≤ timeout
    → IsBounded start (start + timeout) (by_descriptions timeout start v rs r).phase
unfolding IsBounded
by_descriptions-IsBounded timeout start v rs (throw e) h k = tt
by_descriptions-IsBounded timeout start v rs (ok none) h k = tt
by_descriptions-IsBounded timeout start v rs (ok (some [])) h k = (refl, omega arith)
by_descriptions-IsBounded timeout start v rs (ok (some (s ∷ ss))) h k = tt

select_servers-IsBounded :
    (selector : Selector) (timeout start : ℕ) (v : View) (rs : List Request)
    → v.connected ≡ true
    → start ≤ v.now
    → IsBounded start (start + timeout) (select_servers selector timeout start v rs).phase
unfolding select_servers IsBounded
select_servers-IsBounded selector timeout start v rs c h =
    elim (Bool-cases (leb timeout (v.now - start))) [
      | inl over ↦ rw over tt
      | inr early ↦
          rw (early, c)
            (by_descriptions-IsBounded timeout start v rs
              (selector v.topology.description (values v.topology.description.servers)) h
              (ground arith))
    ]

handler-IsBounded :
    (selector : Selector) (timeout start : ℕ) (v : View) (rs : List Request) (e : Option Error)
    → v.connected ≡ true
    → start ≤ v.now
    → IsBounded start
        (start + timeout)
        (description_changed_handler selector timeout start v rs e).phase
unfolding description_changed_handler IsBounded
handler-IsBounded selector timeout start v rs (some e) c h = tt
handler-IsBounded selector timeout start v rs none c h =
    select_servers-IsBounded selector timeout start v rs c h

fires-IsBounded :
    (start end due now : ℕ)
    → due ≤ end
    → IsBounded start end (fires due now timed_out (awaits_change start due))
unfolding IsBounded
fires-IsBounded start end due now h = elim (Bool-cases (leb due now)) [
  | inl over ↦ rw over tt
  | inr early ↦ rw early (refl, h)
]

step_from-IsBounded :
    (selector : Selector) (timeout start : ℕ) (p : Phase) (rs : List Request) (m : Moment)
    → IsBounded start (start + timeout) p
    → IsLater start m
    → IsBounded start (start + timeout) (step_from selector timeout p rs m).phase
unfolding step_from IsBounded IsLater
step_from-IsBounded selector timeout start (answered r) rs (topology_connected v) b h = tt
step_from-IsBounded selector timeout start (answered r) rs (description_changed v) b h = tt
step_from-IsBounded selector timeout start (answered r) rs (time_passes now) b h = tt
step_from-IsBounded selector timeout start (crashed e) rs (topology_connected v) b h = tt
step_from-IsBounded selector timeout start (crashed e) rs (description_changed v) b h = tt
step_from-IsBounded selector timeout start (crashed e) rs (time_passes now) b h = tt
step_from-IsBounded selector timeout start (awaits_connect due) rs m b h = absurd b
step_from-IsBounded selector timeout start (awaits_change begun due) rs (topology_connected v) b h =
    b
step_from-IsBounded selector timeout start (awaits_change begun due) rs (description_changed v) b
      h =
    subst
      (λ x.
        IsBounded start (start + timeout)
          (description_changed_handler selector timeout x v rs v.topology.description.error).phase)
      (sym b.0) (handler-IsBounded selector timeout start v rs v.topology.description.error h.0 h.1)
step_from-IsBounded selector timeout start (awaits_change begun due) rs (time_passes now) b h =
    subst (λ x. IsBounded start (start + timeout) (fires due now timed_out (awaits_change x due)))
      (sym b.0) (fires-IsBounded start (start + timeout) due now b.1)

run-IsBounded :
    (selector : Selector) (timeout start : ℕ) (ms : List Moment) (s : Selecting)
    → IsBounded start (start + timeout) s.phase
    → All (IsLater start) ms
    → IsBounded start (start + timeout) (run selector timeout ms s).phase
unfolding run step
run-IsBounded selector timeout start [] s b h = b
run-IsBounded selector timeout start (m ∷ ms) s b h =
    run-IsBounded selector timeout start ms (step selector timeout s m)
      (step_from-IsBounded selector timeout start s.phase s.requests m b h.0) h.1

step_from-IsSettled :
    (selector : Selector) (timeout start end now : ℕ) (p : Phase) (rs : List Request)
    → IsBounded start end p
    → end ≤ now
    → IsSettled (step_from selector timeout p rs (time_passes now)).phase
unfolding step_from IsBounded IsSettled
step_from-IsSettled selector timeout start end now (answered r) rs b h = tt
step_from-IsSettled selector timeout start end now (crashed e) rs b h = tt
step_from-IsSettled selector timeout start end now (awaits_connect due) rs b h = absurd b
step_from-IsSettled selector timeout start end now (awaits_change begun due) rs b h =
    rw (by_time (leb due now) (ground (arith, b.1))) tt
  where
    by_time : (x : Bool) → x ≡ true → x ≡ true
    by_time x e = e

-- A selection on a topology that stays connected comes to an end: whatever happens in between, it no longer
-- waits once time has passed to its timeout after its start.
pub run-IsSettled :
    (selector : Selector) (timeout now : ℕ) (v : View) (ms : List Moment)
    → v.connected ≡ true
    → All (IsLater v.now) ms
    → v.now + timeout ≤ now
    → IsSettled
        (step selector timeout
          (run selector timeout ms (start_selection selector timeout v))
          (time_passes now)).phase
unfolding start_selection step
run-IsSettled selector timeout now v ms c later over =
    let last = run selector timeout ms (select_servers selector timeout v.now v []) in
    step_from-IsSettled selector timeout v.now (v.now + timeout) now last.phase last.requests
      (run-IsBounded selector timeout v.now ms (select_servers selector timeout v.now v [])
        (select_servers-IsBounded selector timeout v.now v [] c (omega arith)) later)
      over
