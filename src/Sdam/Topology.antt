-- ===== src/Sdam/Topology.antt =====
-- lib/sdam/topology.js: the topology, its description and the servers that it watches; the events that
-- it emits are a list, in order. A BSON timestamp is given by its number, and `greaterThan` of the BSON
-- library is an argument. Connections, pools and timers are not modelled. Someone listens to `error` events: without
-- a listener emitting one throws.
pub mod Servers
pub mod Failures
pub mod History
mod Tests
use Prim.Native.String
use mongodb_core.Errors.{Error, Result, ok, throw, ◌>>=◌}
use mongodb_core.Prelude.{
  ℕ, ◌≡◌, refl, String, Bool, true, false, not, ◌&&◌, Option, none, some, List, [], ◌∷◌, ◌++◌,
  length, ◌==◌, if◌then◌else◌, truthy, or_text, is_some, select, Dict, get, has, put, delete, keys,
  values,
}
use mongodb_core.Sdam.ServerDescription.{
  ServerDescription, IsMaster, server_description, blank_description, is_unknown,
}
use mongodb_core.Sdam.TopologyDescription.{
  TopologyType, single, replica_set_no_primary, unknown_topology, TopologyDescription,
  topology_description, Options, CompatibilityError, update, has_server,
}

-- A port as its text.
pub record Seed : Type 0 where
  pub host : String
  pub port : Option String
  pub domain_socket : Option String

-- The options that the constructor reads.
pub record TopologyOptions : Type 0 where
  pub replica_set : Option String
  pub set_name : Option String
  pub rs_name : Option String
  pub times : Options

pub topology_type_from_seedlist : List Seed → TopologyOptions → TopologyType
topology_type_from_seedlist seeds o =
    let named = truthy (or_text (or_text o.replica_set o.set_name) o.rs_name) in
    if length seeds == 1 && not named
    then single
    else if named
    then replica_set_no_primary
    else unknown_topology

-- `if (seed.domain_socket) seed.host = seed.domain_socket`
abbrev seed_host : Seed → String
seed_host seed = elim seed.domain_socket [
  | none ↦ seed.host
  | some socket ↦ if truthy (some socket) then socket else seed.host
]

abbrev seed_port : Option String → String
seed_port none = "27017"
seed_port (some port) = if truthy (some port) then port else "27017"

pub seed_address : Seed → String
seed_address seed = String.◌++◌ (seed_host seed) (String.◌++◌ ":" (seed_port seed.port))

pub seed_servers : List Seed → ℕ → Dict ServerDescription → Dict ServerDescription
unfolding seed_address
seed_servers [] now m = m
seed_servers (seed ∷ seeds) now m =
    seed_servers seeds now (put (seed_address seed) (blank_description (seed_address seed) now) m)

-- The description that the constructor starts with.
unfoldable pub initial_description : List Seed → TopologyOptions → ℕ → TopologyDescription
unfolding topology_type_from_seedlist seed_servers
initial_description seeds o now =
    topology_description (topology_type_from_seedlist seeds o) (seed_servers seeds now [])
      o.replica_set none none none o.times none

-- The monitoring events; those of a server carry its address.
pub data Event : Type 0 where
  topology_opening : Event
  error_event : CompatibilityError → Event
  server_opening server_closed : String → Event
  server_description_changed : String → Option ServerDescription → Option ServerDescription → Event
  topology_description_changed : TopologyDescription → TopologyDescription → Event

pub record Topology : Type 0 where
  pub description : TopologyDescription
  -- `s.servers`: a server instance by the description that it holds.
  pub servers : Dict ServerDescription
  pub cluster_time : Option ℕ
  pub events : List Event

-- `connectServers`, and the part of `connect` before the selection of a server.
pub connect_servers :
    List ServerDescription
    → Dict ServerDescription × List Event
    → Dict ServerDescription × List Event
connect_servers [] (m, es) = (m, es)
connect_servers (s ∷ ss) (m, es) =
    connect_servers ss (put s.address s m, es ++ server_opening s.address ∷ [])

-- `new TopologyDescription(TopologyType.Unknown)`
abbrev blank_topology : TopologyDescription
blank_topology =
    topology_description unknown_topology [] none none none none
      (record { heartbeat_frequency_ms = 0; local_threshold_ms = 0 }) none

unfoldable pub connect : TopologyDescription → Topology
unfolding connect_servers
connect d =
    let changed = topology_description_changed blank_topology d in
    let (m, es) = connect_servers (values d.servers) ([], topology_opening ∷ changed ∷ []) in
    record { description = d; servers = m; cluster_time = none; events = es }

unfoldable pub resolve_cluster_time : (ℕ → ℕ → Bool) → Option ℕ → ℕ → Option ℕ
resolve_cluster_time greater_than none incoming = some incoming
resolve_cluster_time greater_than (some seen) incoming =
    if greater_than incoming seen then some incoming else some seen

-- The map of servers and the events so far.
abbrev pub Watch : Type 0
Watch = Dict ServerDescription × List Event

-- One round of each of the last two loops of `updateServers`.
abbrev pub add_server : ServerDescription → Watch → Watch
add_server s (m, es) =
    if has s.address m then (m, es) else (put s.address s m, es ++ server_opening s.address ∷ [])

abbrev pub remove_server : TopologyDescription → String → Watch → Watch
remove_server d k (m, es) =
    if has_server d k then (m, es) else (delete k m, es ++ server_closed k ∷ [])

pub add_servers : List ServerDescription → Watch → Watch
add_servers [] w = w
add_servers (s ∷ ss) w = add_servers ss (add_server s w)

pub remove_servers : TopologyDescription → List String → Watch → Watch
remove_servers d [] w = w
remove_servers d (k ∷ ks) w = remove_servers d ks (remove_server d k w)

abbrev refresh_server : ServerDescription → Dict ServerDescription → Dict ServerDescription
refresh_server s m = if has s.address m then put s.address s m else m

pub update_servers : TopologyDescription → ServerDescription → Watch → Watch
unfolding add_servers remove_servers
update_servers d s w =
    let grown = add_servers (values d.servers) (refresh_server s w.0, w.1) in
    remove_servers d (keys grown.0) grown

-- `serverUpdateHandler`, after the update of the description.
pub publish : (ℕ → ℕ → Bool) → Topology → ServerDescription → TopologyDescription → Topology
unfolding update_servers resolve_cluster_time
publish greater_than t s d = elim d.compatibility_error [
  | some e ↦ record t { description = d; events = t.events ++ error_event e ∷ [] }
  | none ↦
      let changed =
        server_description_changed s.address (get s.address t.description.servers)
          (get s.address d.servers) in
      let (m, es) = update_servers d s (t.servers, t.events ++ changed ∷ []) in
      record {
        description = d;
        servers = m;
        cluster_time = elim s.cluster_time [
          | none ↦ t.cluster_time
          | some incoming ↦ resolve_cluster_time greater_than t.cluster_time incoming
        ];
        events = es ++ topology_description_changed t.description d ∷ [];
      }
]

unfoldable pub server_update_handler :
    (ℕ → ℕ → Bool) → Topology → ServerDescription → ℕ → Result Topology
unfolding publish
server_update_handler greater_than t s now =
    if has_server t.description s.address
    then (do d ← update t.description s now; ok (publish greater_than t s d))
    else ok t

-- One outcome of a check of a server, as the arguments of `new ServerDescription`.
pub record Check : Type 0 where
  pub address : String
  pub reply : Option IsMaster
  pub error : Option Error
  pub round_trip_time : ℕ
  pub now : ℕ

abbrev pub described : Check → ServerDescription
described c = server_description c.address c.reply c.error c.round_trip_time c.now

unfoldable pub run_checks : (ℕ → ℕ → Bool) → Topology → List Check → Result Topology
run_checks greater_than t [] = ok t
run_checks greater_than t (c ∷ cs) = do
  t' ← server_update_handler greater_than t (described c) c.now
  run_checks greater_than t' cs
