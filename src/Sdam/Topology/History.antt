-- ===== src/Sdam/Topology/History.antt =====
-- lib/sdam/topology.js: from the seed list on, through any sequence of checks of servers.
use mongodb_core.Errors.{◌>>=◌, Error}
use mongodb_core.Prelude.{
  ℕ, ◌≡◌, refl, ap, ◌∙◌, inr, String, Bool, true, false, ◌||◌, Option, none, some, List, [], ◌∷◌,
  ◌++◌, arith, if◌then◌else◌, contains, Dict, get, has, put, values, put-Every, Every, has-put,
}
use mongodb_core.Sdam.ServerDescription.{
  ServerDescription, IsMaster, server_description, blank_description, unknown,
}
use mongodb_core.Sdam.TopologyDescription.{
  single, replica_set_no_primary, unknown_topology, TopologyDescription, topology_description,
}
use mongodb_core.Sdam.TopologyDescription.Count.{
  primaries, IsServerMap, put-IsServerMap, blank-address, blank-unknown,
}
use mongodb_core.Sdam.TopologyDescription.Consistent.{Fits, IsConsistent, NamesSet, Returns}
use mongodb_core.Sdam.Topology.{
  Topology, Watch, Event, Seed, TopologyOptions, topology_type_from_seedlist, seed_servers,
  seed_address, initial_description, connect, connect_servers, Check, described, run_checks,
  server_opening,
}
use mongodb_core.Sdam.Topology.Servers.{
  addresses, contains-addresses, IsInStep, server_update_handler-IsInStep,
}

-- The constructor of a server description gives a primary only from a reply with a set name.
server_description-NamesSet :
    (address : String) (reply : Option IsMaster) (error : Option Error) (rtt now : ℕ)
    → NamesSet (server_description address reply error rtt now)
unfolding server_description
server_description-NamesSet address none error rtt now = ground arith
server_description-NamesSet address (some r) error rtt now = ground arith

abbrev AllUnknown : Dict ServerDescription → Type 0
AllUnknown = Every λ k s. s.type ≡ unknown

primaries_zero : (m : Dict ServerDescription) → AllUnknown m → primaries m ≡ 0
primaries_zero [] h = refl
primaries_zero ((k, s) ∷ m) h = ground (arith, primaries_zero m h.1)

seed_servers-unknown :
    (seeds : List Seed) (now : ℕ) (m : Dict ServerDescription)
    → IsServerMap m
    → AllUnknown m
    → IsServerMap (seed_servers seeds now m) × AllUnknown (seed_servers seeds now m)
unfolding seed_servers
seed_servers-unknown [] now m i h = (i, h)
seed_servers-unknown (seed ∷ seeds) now m i h =
    let a = seed_address seed in
    seed_servers-unknown seeds now (put a (blank_description a now) m)
      (put-IsServerMap a (blank_description a now) m (blank-address a now) i)
      (put-Every (λ k s. s.type ≡ unknown) a (blank_description a now) m (blank-unknown a now) h)

chosen-Fits :
    (m : Dict ServerDescription) (name : Option String) (one named : Bool)
    → AllUnknown m
    → Fits
        (if one then single else if named then replica_set_no_primary else unknown_topology)
        m
        name
chosen-Fits m name true named h = tt
chosen-Fits m name false true h = primaries_zero m h
chosen-Fits m name false false h = h

seed_type-Fits :
    (seeds : List Seed) (o : TopologyOptions) (m : Dict ServerDescription) (name : Option String)
    → AllUnknown m
    → Fits (topology_type_from_seedlist seeds o) m name
unfolding topology_type_from_seedlist
seed_type-Fits seeds o m name h = chosen-Fits m name _ _ h

-- The description that a topology starts with is consistent.
initial_description-IsConsistent :
    (seeds : List Seed) (o : TopologyOptions) (now : ℕ)
    → IsConsistent (initial_description seeds o now)
unfolding initial_description topology_description
initial_description-IsConsistent seeds o now =
    let (i, h) = seed_servers-unknown seeds now [] (record { distinct = tt; addressed = tt }) tt in
    record { map = i; fits = seed_type-Fits seeds o (seed_servers seeds now []) _ h }

has-connect_servers :
    (ss : List ServerDescription) (w : Watch) (j : String)
    → has j (connect_servers ss w).0 ≡ (contains (addresses ss) j || has j w.0)
unfolding connect_servers
has-connect_servers [] w j = refl
has-connect_servers (s ∷ ss) (m, es) j = ground (
  arith,
  has-connect_servers ss (put s.address s m, es ++ server_opening s.address ∷ []) j,
  has-put s.address j s m,
)

has-connect_servers_empty :
    (ss : List ServerDescription) (es : List Event) (j : String)
    → has j (connect_servers ss ([], es)).0 ≡ contains (addresses ss) j
unfolding get
has-connect_servers_empty ss es j = ground (arith, has-connect_servers ss ([], es) j)

-- Connecting watches the servers of the description.
pub connect-IsInStep : (d : TopologyDescription) → IsConsistent d → IsInStep (connect d)
unfolding connect get
connect-IsInStep d c = record {
  consistent = c;
  in_step = inr (λ j.
      has-connect_servers_empty (values d.servers) _ j
      ∙ contains-addresses d.servers j c.map.addressed);
}

run_checks-IsInStep :
    (greater_than : ℕ → ℕ → Bool) (t : Topology) (cs : List Check)
    → IsInStep t
    → Returns IsInStep (run_checks greater_than t cs)
unfolding run_checks
run_checks-IsInStep greater_than t [] h = (t, refl, h)
run_checks-IsInStep greater_than t (c ∷ cs) h =
    let (t', e, h') =
      server_update_handler-IsInStep greater_than t (described c) c.now h
        (server_description-NamesSet c.address c.reply c.error c.round_trip_time c.now) in
    let (u, e', k) = run_checks-IsInStep greater_than t' cs h' in
    (u, ap (λ m. m >>= λ x. run_checks greater_than x cs) e ∙ e', k)

-- Whatever servers answer, in whatever order, a topology that was connected to any seeds, and on which
-- someone listens to `error` events, never throws while it takes the answers in. Its description stays consistent, and it watches exactly the servers
-- of the description unless one was found that the driver does not support.
pub run_checks_total :
    (greater_than : ℕ → ℕ → Bool) (seeds : List Seed) (o : TopologyOptions) (now : ℕ)
    (cs : List Check)
    → Returns IsInStep (run_checks greater_than (connect (initial_description seeds o now)) cs)
run_checks_total greater_than seeds o now cs =
    run_checks-IsInStep greater_than (connect (initial_description seeds o now)) cs (
      connect-IsInStep (initial_description seeds o now)
        (initial_description-IsConsistent seeds o now))
