-- ===== src/Sdam/Selecting/First.antt =====
-- lib/sdam/topology.js, selectServers: what a selection that waits does when the description changes.
use mongodb_core.Errors.{Error, Result, ok, throw}
use mongodb_core.Prelude.{
  ℕ, ◌-◌, ◌<◌, ◌≡◌, refl, sym, ap, ◌∙◌, subst, Bool, true, false, Option, none, some, List, [], ◌∷◌,
  ◌++◌, arith, leb, All, values,
}
use mongodb_core.Sdam.ServerDescription.{ServerDescription}
use mongodb_core.Sdam.Topology.{Topology, server_update_handler}
use mongodb_core.Sdam.TopologyDescription.{has_server}
use mongodb_core.Sdam.Topology.Failures.{server_update_handler-error}
use mongodb_core.Sdam.Selecting.{
  Selector, View, answered, awaits_change, Request, Selecting, Moment, topology_connected,
  description_changed, time_passes, timer, instances, select_servers, description_changed_handler,
  step_from, step, run, start_selection,
}

-- A view in time, of a connected topology without an error, in which nothing fits.
pub record IsFruitless (selector : Selector) (timeout start : ℕ) (v : View) : Type 0 where
  pub connected : v.connected ≡ true
  pub in_time : (v.now - start) < timeout
  pub no_error : v.topology.description.error ≡ none
  pub nothing :
      selector v.topology.description (values v.topology.description.servers) ≡ ok (some [])

-- One in which something does.
pub record IsFruitful (selector : Selector) (timeout start : ℕ) (v : View) (s : ServerDescription)
    (ss : List ServerDescription) : Type 0 where
  pub connected : v.connected ≡ true
  pub in_time : (v.now - start) < timeout
  pub no_error : v.topology.description.error ≡ none
  pub found :
      selector v.topology.description (values v.topology.description.servers) ≡ ok (some (s ∷ ss))

abbrev pub changes : List View → List Moment
changes [] = []
changes (v ∷ vs) = description_changed v ∷ changes vs

-- The selection waits since `start`.
unfoldable pub Waits : ℕ → Selecting → Type 0
Waits start s = (due : ℕ) × (s.phase ≡ awaits_change start due)

early : (timeout d : ℕ) → d < timeout → leb timeout d ≡ false
early timeout d h = ground (arith, h)

select_servers-Waits :
    (selector : Selector) (timeout start : ℕ) (v : View) (rs : List Request)
    → IsFruitless selector timeout start v
    → Waits start (select_servers selector timeout start v rs)
unfolding select_servers Waits
select_servers-Waits selector timeout start v rs f =
    rw (early timeout (v.now - start) f.in_time, f.connected, f.nothing)
      (timer timeout start v.now, refl)

-- A change without an error is an attempt.
handler-attempts :
    (selector : Selector) (timeout start : ℕ) (v : View) (rs : List Request) (e : Option Error)
    → e ≡ none
    → description_changed_handler selector timeout start v rs e
      ≡ select_servers selector timeout start v rs
unfolding description_changed_handler
handler-attempts selector timeout start v rs none h = refl
handler-attempts selector timeout start v rs (some e) h = cc

-- A change reaches the selection that waits.
step-attempts :
    (selector : Selector) (timeout start : ℕ) (v : View) (s : Selecting)
    → v.topology.description.error ≡ none
    → Waits start s
    → step selector timeout s (description_changed v)
      ≡ select_servers selector timeout start v s.requests
unfolding step step_from Waits
step-attempts selector timeout start v s fine (due, e) =
    ap (λ p. step_from selector timeout p s.requests (description_changed v)) e
    ∙ handler-attempts selector timeout start v s.requests v.topology.description.error fine

step-Waits :
    (selector : Selector) (timeout start : ℕ) (v : View) (s : Selecting)
    → IsFruitless selector timeout start v
    → Waits start s
    → Waits start (step selector timeout s (description_changed v))
step-Waits selector timeout start v s f w =
    subst (Waits start) (sym (step-attempts selector timeout start v s f.no_error w))
      (select_servers-Waits selector timeout start v s.requests f)

select_servers-found :
    (selector : Selector) (timeout start : ℕ) (v : View) (rs : List Request) (d : ServerDescription)
    (ds : List ServerDescription)
    → IsFruitful selector timeout start v d ds
    → (select_servers selector timeout start v rs).phase
      ≡ answered (ok (instances v.topology.servers (d ∷ ds)))
unfolding select_servers
select_servers-found selector timeout start v rs d ds f =
    rw (early timeout (v.now - start) f.in_time, f.connected, f.found) refl

answers_now :
    (selector : Selector) (timeout start : ℕ) (v : View) (s : Selecting) (d : ServerDescription)
    (ds : List ServerDescription)
    → IsFruitful selector timeout start v d ds
    → Waits start s
    → (step selector timeout s (description_changed v)).phase
      ≡ answered (ok (instances v.topology.servers (d ∷ ds)))
answers_now selector timeout start v s d ds f w =
    ap (λ x. x.phase) (step-attempts selector timeout start v s f.no_error w)
    ∙ select_servers-found selector timeout start v s.requests d ds f

stays_answered :
    (selector : Selector) (timeout : ℕ) (ms : List Moment) (s : Selecting)
    (r : Result (List (Option ServerDescription)))
    → s.phase ≡ answered r
    → (run selector timeout ms s).phase ≡ answered r
unfolding run step step_from
stays_answered selector timeout [] s r e = e
stays_answered selector timeout (m ∷ ms) s r e =
    stays_answered selector timeout ms (step selector timeout s m) r (rw e (by_moment m))
  where
    by_moment :
        (m : Moment) → (step_from selector timeout (answered r) s.requests m).phase ≡ answered r
    by_moment (topology_connected v) = refl
    by_moment (description_changed v) = refl
    by_moment (time_passes now) = refl

run-Waits :
    (selector : Selector) (timeout start : ℕ) (vs : List View) (v : View) (rest : List Moment)
    (s : Selecting) (d : ServerDescription) (ds : List ServerDescription)
    → All (IsFruitless selector timeout start) vs
    → IsFruitful selector timeout start v d ds
    → Waits start s
    → (run selector timeout (changes vs ++ (description_changed v ∷ rest)) s).phase
      ≡ answered (ok (instances v.topology.servers (d ∷ ds)))
unfolding run
run-Waits selector timeout start [] v rest s d ds none_yet f w =
    stays_answered selector timeout rest (step selector timeout s (description_changed v)) _
      (answers_now selector timeout start v s d ds f w)
run-Waits selector timeout start (u ∷ vs) v rest s d ds none_yet f w =
    run-Waits selector timeout start vs v rest (step selector timeout s (description_changed u)) d
      ds none_yet.1 f (step-Waits selector timeout start u s none_yet.0 w)

-- A selection on a connected topology in which nothing fits at first is answered with the servers that the
-- selector returns the first time that it returns some before the timeout, unless a change before that came
-- with an error; what happens afterwards does not change the answer.
pub run-first :
    (selector : Selector) (timeout : ℕ) (u : View) (vs : List View) (v : View) (rest : List Moment)
    (d : ServerDescription) (ds : List ServerDescription)
    → All (IsFruitless selector timeout u.now) (u ∷ vs)
    → IsFruitful selector timeout u.now v d ds
    → (run selector timeout
        (changes vs ++ (description_changed v ∷ rest))
        (start_selection selector timeout u)).phase
      ≡ answered (ok (instances v.topology.servers (d ∷ ds)))
unfolding start_selection
run-first selector timeout u vs v rest d ds none_yet f =
    run-Waits selector timeout u.now vs v rest (select_servers selector timeout u.now u []) d ds
      none_yet.1 f (select_servers-Waits selector timeout u.now u [] none_yet.0)

failed_now :
    (selector : Selector) (timeout start : ℕ) (v : View) (rs : List Request) (o : Option Error)
    (e : Error)
    → o ≡ some e
    → (description_changed_handler selector timeout start v rs o).phase ≡ answered (throw e)
unfolding description_changed_handler
failed_now selector timeout start v rs none e h = cc
failed_now selector timeout start v rs (some x) e h = ap (λ y. answered (throw y)) (some-inj x e h)
  where
    some-inj : (x y : Error) → some x ≡ some y → x ≡ y
    some-inj x y q = cc

-- A failed check of any one server of the topology, once it is told, ends every selection that waits, with
-- the error of that check, whatever the selector asks for and whatever servers are left.
pub step-failed_check :
    (greater_than : ℕ → ℕ → Bool) (t t' : Topology) (s : ServerDescription) (now : ℕ) (e : Error)
    (selector : Selector) (timeout start : ℕ) (waiting : Selecting) (connected : Bool)
    → has_server t.description s.address ≡ true
    → s.error ≡ some e
    → server_update_handler greater_than t s now ≡ ok t'
    → Waits start waiting
    → (step selector timeout waiting
        (description_changed (record { topology = t'; connected = connected; now = now }))).phase
      ≡ answered (throw e)
unfolding step step_from Waits
step-failed_check greater_than t t' s now e selector timeout start waiting connected known failed
      handled w =
    let v : View = record { topology = t'; connected = connected; now = now } in
    ap (λ p. (step_from selector timeout p waiting.requests (description_changed v)).phase) w.1
    ∙ failed_now selector timeout start v waiting.requests t'.description.error e
        (server_update_handler-error greater_than t t' s now known handled ∙ failed)
