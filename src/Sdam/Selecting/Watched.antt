-- ===== src/Sdam/Selecting/Watched.antt =====
-- lib/sdam/topology.js, selectServers: every server that is handed out is one that the topology watches.
use mongodb_core.Errors.{Error, Result, ok, throw}
use mongodb_core.Prelude.{
  ℕ, ◌-◌, ◌<◌, ◌≡◌, refl, ◌∙◌, inl, inr, true, Option, none, some, List, [], ◌∷◌, arith, String,
  leb, Bool-cases, All, In, values, length, is_some, Dict, get, has, eq_refl,
}
use mongodb_core.ReadPreference.{ReadPreference}
use mongodb_core.Sdam.ServerDescription.{ServerDescription}
use mongodb_core.Sdam.Topology.Servers.{IsInStep}
use mongodb_core.Sdam.TopologyDescription.Count.{Addressed}
use mongodb_core.Sdam.Selecting.{
  Selector, View, Phase, answered, crashed, awaits_connect, awaits_change, Request, Selecting,
  Moment, topology_connected, description_changed, time_passes, fires, timed_out,
  timed_out_connecting, by_descriptions, instances, select_servers, description_changed_handler,
  step_from, step, run, start_selection, readable, writable,
}
use mongodb_core.Sdam.Selecting.Choices.{OnlyOf, IsChoice, readable-IsChoice, writable-IsChoice}

-- The servers watched are those of the description.
unfoldable pub IsWatching : View → Type 0
IsWatching v =
    Addressed v.topology.description.servers
    × ((j : String) → has j v.topology.servers ≡ has j v.topology.description.servers)

unfoldable pub IsSeen : Moment → Type 0
IsSeen (topology_connected v) = IsWatching v
IsSeen (description_changed v) = IsWatching v
IsSeen (time_passes now) = Unit

-- A topology that is in step and supported is as above.
in_step-IsWatching :
    (v : View)
    → IsInStep v.topology
    → v.topology.description.compatibility_error ≡ none
    → IsWatching v
unfolding IsWatching
in_step-IsWatching v h e = elim h.in_step [
  | inl refused ↦ absurd (unsupported v.topology.description.compatibility_error e refused)
  | inr same ↦ (h.consistent.map.addressed, same)
]
  where
    unsupported : {A : Type 0} → (o : Option A) → o ≡ none → is_some o ≡ true → ⊥
    unsupported none e h = cc
    unsupported (some x) e h = cc

has-of_In :
    (m : Dict ServerDescription) (s : ServerDescription)
    → Addressed m
    → In s (values m)
    → has s.address m ≡ true
unfolding get
has-of_In [] s a at = absurd at
has-of_In ((k, x) ∷ m) s a at = elim at [
  | inl same ↦ rw (same, a.0, eq_refl k) refl
  | inr further ↦ ground (arith, has-of_In m s a.1 further)
]

-- The server instance that the topology watches for one of the servers of its description.
unfoldable pub IsInstance : View → Option ServerDescription → Type 0
IsInstance v o =
    (s : ServerDescription) × In s (values v.topology.description.servers)
    × (o ≡ get s.address v.topology.servers)
    × (is_some o ≡ true)

-- Of the servers that are handed out there is one at least, and each is an instance that the topology watches
-- at one of the moments given.
pub AreInstances : List View → Phase → Type 0
AreInstances vs (answered (ok ss)) =
    (0 < length ss) × ((v : View) × In v vs × All (IsInstance v) ss)
AreInstances vs _ = Unit

instances-All :
    (v : View) (ss : List ServerDescription)
    → IsWatching v
    → ((s : ServerDescription) → In s ss → In s (values v.topology.description.servers))
    → All (IsInstance v) (instances v.topology.servers ss)
unfolding IsWatching IsInstance
instances-All v [] w h = tt
instances-All v (s ∷ ss) w h = (
  (
    s,
    h s (inl refl),
    refl,
    w.1 s.address ∙ has-of_In v.topology.description.servers s w.0 (h s (inl refl)),
  ),
  instances-All v ss w (λ x at. h x (inr at)),
)

by_descriptions-AreInstances :
    (vs : List View) (timeout start : ℕ) (v : View) (rs : List Request)
    (r : Result (Option (List ServerDescription)))
    → IsWatching v
    → In v vs
    → OnlyOf (values v.topology.description.servers) r
    → AreInstances vs (by_descriptions timeout start v rs r).phase
unfolding AreInstances OnlyOf
by_descriptions-AreInstances vs timeout start v rs (throw e) w i h = tt
by_descriptions-AreInstances vs timeout start v rs (ok none) w i h = tt
by_descriptions-AreInstances vs timeout start v rs (ok (some [])) w i h = tt
by_descriptions-AreInstances vs timeout start v rs (ok (some (s ∷ ss))) w i h =
    (omega arith, (v, i, instances-All v (s ∷ ss) w h))

-- The views that the moments show.
abbrev pub views : List Moment → List View
views [] = []
views (topology_connected v ∷ ms) = v ∷ views ms
views (description_changed v ∷ ms) = v ∷ views ms
views (time_passes now ∷ ms) = views ms

unfoldable IsSeenIn : List View → Moment → Type 0
IsSeenIn vs (topology_connected v) = IsWatching v × In v vs
IsSeenIn vs (description_changed v) = IsWatching v × In v vs
IsSeenIn vs (time_passes now) = Unit

seen_in :
    (vs : List View) (ms : List Moment)
    → ((u : View) → In u (views ms) → In u vs)
    → All IsSeen ms
    → All (IsSeenIn vs) ms
unfolding IsSeen IsSeenIn
seen_in vs [] h seen = tt
seen_in vs (topology_connected v ∷ ms) h seen =
    ((seen.0, h v (inl refl)), seen_in vs ms (λ u at. h u (inr at)) seen.1)
seen_in vs (description_changed v ∷ ms) h seen =
    ((seen.0, h v (inl refl)), seen_in vs ms (λ u at. h u (inr at)) seen.1)
seen_in vs (time_passes now ∷ ms) h seen = (tt, seen_in vs ms h seen.1)

select_servers-AreInstances :
    (vs : List View) (selector : Selector) (timeout start : ℕ) (v : View) (rs : List Request)
    → IsChoice selector
    → IsWatching v
    → In v vs
    → AreInstances vs (select_servers selector timeout start v rs).phase
unfolding select_servers AreInstances
select_servers-AreInstances vs selector timeout start v rs choice w i =
    elim (Bool-cases (leb timeout (v.now - start))) [
      | inl over ↦ rw over tt
      | inr early ↦ elim (Bool-cases v.connected) [
        | inl on ↦
            rw (early, on)
              (by_descriptions-AreInstances vs timeout start v rs
                (selector v.topology.description (values v.topology.description.servers)) w i
                (choice v.topology.description (values v.topology.description.servers)))
        | inr off ↦ rw (early, off) tt
      ]
    ]

handler-AreInstances :
    (vs : List View) (selector : Selector) (timeout start : ℕ) (v : View) (rs : List Request)
    (e : Option Error)
    → IsChoice selector
    → IsWatching v
    → In v vs
    → AreInstances vs (description_changed_handler selector timeout start v rs e).phase
unfolding description_changed_handler AreInstances
handler-AreInstances vs selector timeout start v rs (some e) choice w i = tt
handler-AreInstances vs selector timeout start v rs none choice w i =
    select_servers-AreInstances vs selector timeout start v rs choice w i

fires-AreInstances :
    (vs : List View) (due now : ℕ) (e : Error) (p : Phase)
    → AreInstances vs p
    → AreInstances vs (fires due now e p)
unfolding AreInstances
fires-AreInstances vs due now e p h = elim (Bool-cases (leb due now)) [
  | inl over ↦ rw over tt
  | inr early ↦ rw early h
]

step_from-AreInstances :
    (vs : List View) (selector : Selector) (timeout : ℕ) (p : Phase) (rs : List Request)
    (m : Moment)
    → IsChoice selector
    → IsSeenIn vs m
    → AreInstances vs p
    → AreInstances vs (step_from selector timeout p rs m).phase
unfolding step_from AreInstances IsSeenIn
step_from-AreInstances vs selector timeout (answered r) rs (topology_connected v) choice w h = h
step_from-AreInstances vs selector timeout (answered r) rs (description_changed v) choice w h = h
step_from-AreInstances vs selector timeout (answered r) rs (time_passes now) choice w h = h
step_from-AreInstances vs selector timeout (crashed e) rs (topology_connected v) choice w h = h
step_from-AreInstances vs selector timeout (crashed e) rs (description_changed v) choice w h = h
step_from-AreInstances vs selector timeout (crashed e) rs (time_passes now) choice w h = h
step_from-AreInstances vs selector timeout (awaits_connect due) rs (topology_connected v) choice w
      h =
    select_servers-AreInstances vs selector timeout v.now v rs choice w.0 w.1
step_from-AreInstances vs selector timeout (awaits_connect due) rs (description_changed v) choice w
      h =
    h
step_from-AreInstances vs selector timeout (awaits_connect due) rs (time_passes now) choice w h =
    fires-AreInstances vs due now timed_out_connecting (awaits_connect due) h
step_from-AreInstances vs selector timeout (awaits_change start due) rs (topology_connected v)
      choice w h =
    h
step_from-AreInstances vs selector timeout (awaits_change start due) rs (description_changed v)
      choice w h =
    handler-AreInstances vs selector timeout start v rs v.topology.description.error choice w.0 w.1
step_from-AreInstances vs selector timeout (awaits_change start due) rs (time_passes now) choice w
      h =
    fires-AreInstances vs due now timed_out (awaits_change start due) h

run_choice-AreInstances :
    (vs : List View) (selector : Selector) (timeout : ℕ) (ms : List Moment) (s : Selecting)
    → IsChoice selector
    → All (IsSeenIn vs) ms
    → AreInstances vs s.phase
    → AreInstances vs (run selector timeout ms s).phase
unfolding run step
run_choice-AreInstances vs selector timeout [] s choice w h = h
run_choice-AreInstances vs selector timeout (m ∷ ms) s choice w h =
    run_choice-AreInstances vs selector timeout ms (step selector timeout s m) choice w.1
      (step_from-AreInstances vs selector timeout s.phase s.requests m choice w.0 h)

-- Whatever happens while a read or a write waits for a server, as long as the topology watches the servers
-- of its description: when servers are handed out there is one at least, and each is what the topology's
-- map of watched servers has, at one and the same moment of the wait, under the address of a server of its
-- description; none is undefined.
pub run-AreInstances :
    (r : ReadPreference) (timeout : ℕ) (v : View) (ms : List Moment)
    → IsWatching v
    → All IsSeen ms
    → AreInstances
        (v ∷ views ms)
        (run (readable r) timeout ms (start_selection (readable r) timeout v)).phase
      × AreInstances
          (v ∷ views ms)
          (run writable timeout ms (start_selection writable timeout v)).phase
unfolding start_selection
run-AreInstances r timeout v ms w seen =
    (from (readable r) (readable-IsChoice r), from writable writable-IsChoice)
  where
    from :
        (selector : Selector)
        → IsChoice selector
        → AreInstances
            (v ∷ views ms)
            (run selector timeout ms (select_servers selector timeout v.now v [])).phase
    from selector choice =
        run_choice-AreInstances (v ∷ views ms) selector timeout ms
          (select_servers selector timeout v.now v []) choice
          (seen_in (v ∷ views ms) ms (λ u at. inr at) seen)
          (select_servers-AreInstances (v ∷ views ms) selector timeout v.now v [] choice w
            (inl refl))
