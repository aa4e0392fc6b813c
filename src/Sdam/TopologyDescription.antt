-- ===== src/Sdam/TopologyDescription.antt =====
-- lib/sdam/topology_description.js: the client's view of a deployment, and how it changes when a
-- new description of one server comes in. The blocks of `update` are functions on a `Draft`, the
-- variables that they may change; a `throw` is a `Result`.
pub mod Count
pub mod Rs
pub mod Invariant
pub mod Consistent
pub mod Primary
pub mod Elections
pub mod Derived
pub mod Members
pub mod Failures
mod Tests
use mongodb_core.Errors.{Error, Result, ok, throw, ◌>>=◌, type_error, new_error}
use mongodb_core.Prelude.{
  ℕ, ◌≡◌, refl, String, Bool, true, false, not, ◌&&◌, ◌||◌, Option, none, some, List, [], ◌∷◌,
  arith, min, ltb, leb, ◌==◌, if◌then◌else◌, str_eq, truthy, or_text, opt_eq, nonzero, is_some,
  contains, select, Dict, get, has, put, delete, keys, values,
}
use mongodb_core.Sdam.ServerDescription.{
  ServerType, standalone, mongos, rs_primary, rs_secondary, rs_arbiter, rs_other, unknown,
  ElectionId, ServerDescription, blank_description, all_hosts, is_primary, is_unknown, is_readable,
}

pub data TopologyType : Type 0 where
  single replica_set_no_primary replica_set_with_primary sharded unknown_topology : TopologyType

-- The texts of `compatibilityError`, by what they quote.
pub data CompatibilityError : Type 0 where
  requires_newer reports_older : String → ℕ → CompatibilityError

pub record Options : Type 0 where
  pub heartbeat_frequency_ms : ℕ
  pub local_threshold_ms : ℕ

pub record TopologyDescription : Type 0 where
  pub type : TopologyType
  pub set_name : Option String
  pub max_set_version : Option ℕ
  pub max_election_id : Option ElectionId
  pub servers : Dict ServerDescription
  pub compatible : Bool
  pub compatibility_error : Option CompatibilityError
  pub logical_session_timeout_minutes : Option ℕ
  pub options : Options
  pub open options use *
  pub error : Option Error
  pub common_wire_version : Option ℕ

abbrev pub min_supported_wire_version : ℕ
min_supported_wire_version = 2

abbrev pub max_supported_wire_version : ℕ
max_supported_wire_version = 8

abbrev too_new : ServerDescription → Bool
too_new s = ltb max_supported_wire_version s.min_wire_version

abbrev pub too_old : ServerDescription → Bool
too_old s = ltb s.max_wire_version min_supported_wire_version

abbrev pub note_newer : ServerDescription → Option CompatibilityError → Option CompatibilityError
note_newer s found =
    if is_unknown s.type
    then found
    else if too_new s
    then some (requires_newer s.address s.min_wire_version)
    else found

-- The loop of the constructor over the servers, with its `continue` and its `break`.
pub check_compatibility :
    List ServerDescription → Option CompatibilityError → Option CompatibilityError
check_compatibility [] found = found
check_compatibility (s ∷ ss) found = elim (not (is_unknown s.type) && too_old s) [
  | true ↦ some (reports_older s.address s.max_wire_version)
  | false ↦ check_compatibility ss (note_newer s found)
]

-- One round of the `reduce` for `logicalSessionTimeoutMinutes`.
abbrev pub merge_timeout : Option ℕ → Option ℕ → Option ℕ
merge_timeout result none = none
merge_timeout none (some t) = some t
merge_timeout (some r) (some t) = some (min r t)

pub session_timeout : List ServerDescription → Option ℕ → Option ℕ
session_timeout [] result = result
session_timeout (s ∷ ss) result =
    session_timeout ss (merge_timeout result s.logical_session_timeout_minutes)

-- `new TopologyDescription(…)`
unfoldable pub topology_description :
    TopologyType
    → Dict ServerDescription
    → Option String
    → Option ℕ
    → Option ElectionId
    → Option ℕ
    → Options
    → Option Error
    → TopologyDescription
unfolding check_compatibility session_timeout
topology_description type servers set_name max_set_version max_election_id wire options error =
    let found = check_compatibility (values servers) none in
    record {
      type = type;
      set_name = if truthy set_name then set_name else none;
      max_set_version = nonzero max_set_version;
      max_election_id = max_election_id;
      servers = servers;
      compatible = not (is_some found);
      compatibility_error = found;
      logical_session_timeout_minutes = session_timeout (select is_readable (values servers)) none;
      options = options;
      error = error;
      common_wire_version = nonzero wire;
    }

-- The variables that `update` may change.
pub record Draft : Type 0 where
  pub type : TopologyType
  pub set_name : Option String
  pub max_set_version : Option ℕ
  pub max_election_id : Option ElectionId
  pub servers : Dict ServerDescription

unfoldable pub has_primary : Dict ServerDescription → Bool
has_primary [] = false
has_primary ((k, s) ∷ m) = is_primary s.type || has_primary m

unfoldable pub check_has_primary : Dict ServerDescription → TopologyType
check_has_primary m = if has_primary m then replica_set_with_primary else replica_set_no_primary

abbrev pub oid_of : Option ElectionId → Option ℕ
oid_of none = none
oid_of (some e) = e.oid

-- The two values that a primary reports, when it reports both.
abbrev below_max : Option ℕ → Option ℕ → ℕ → ℕ → Bool
below_max (some v) (some o) set_version oid = ltb set_version v || ltb oid o
below_max _ none set_version oid = false
below_max none (some o) set_version oid = false

abbrev stale_by : Option ℕ → Option ℕ → Option ℕ → Option ℕ → Bool
stale_by v o (some set_version) (some oid) = below_max v o set_version oid
stale_by v o none oid = false
stale_by v o (some set_version) none = false

unfoldable pub is_stale : Option ℕ → Option ElectionId → ServerDescription → Bool
is_stale v e s = stale_by v (oid_of e) s.set_version (oid_of s.election_id)

abbrev pub next_election_id : Option ElectionId → ServerDescription → Option ElectionId
next_election_id e s =
    if is_some s.set_version && is_some (oid_of s.election_id) then s.election_id else e

abbrev pub next_set_version : Option ℕ → Option ℕ → Option ℕ
next_set_version v none = v
next_set_version none (some n) = some n
next_set_version (some v) (some n) = if ltb v n then some n else some v

-- "Reset old primary's type to Unknown", once.
pub reset_old_primary : String → ℕ → Dict ServerDescription → Dict ServerDescription
reset_old_primary address now [] = []
reset_old_primary address now ((k, s) ∷ m) =
    if is_primary s.type && not (str_eq s.address address)
    then (k, blank_description s.address now) ∷ m
    else (k, s) ∷ reset_old_primary address now m

unfoldable pub add_hosts : List String → ℕ → Dict ServerDescription → Dict ServerDescription
add_hosts [] now m = m
add_hosts (h ∷ hs) now m =
    add_hosts hs now (if has h m then m else put h (blank_description h now) m)

pub delete_all : List String → Dict ServerDescription → Dict ServerDescription
delete_all [] m = m
delete_all (k ∷ ks) m = delete_all ks (delete k m)

unfoldable pub remove_missing : List String → Dict ServerDescription → Dict ServerDescription
unfolding delete_all
remove_missing hosts m = delete_all (select (λ k. not (contains hosts k)) (keys m)) m

-- The map after the answer of a primary that is not stale.
pub adopt_primary : ServerDescription → ℕ → Dict ServerDescription → Dict ServerDescription
unfolding reset_old_primary add_hosts remove_missing
adopt_primary s now m =
    remove_missing (all_hosts s) (add_hosts (all_hosts s) now (reset_old_primary s.address now m))

abbrev pub with_servers : Draft → Option String → Dict ServerDescription → Draft
with_servers d name m = record d { type = check_has_primary m; set_name = name; servers = m }

unfoldable pub update_rs_from_primary : ServerDescription → ℕ → Draft → Draft
unfolding adopt_primary
update_rs_from_primary s now d =
    let name = or_text d.set_name s.set_name in
    if opt_eq name s.set_name
    then if is_stale d.max_set_version d.max_election_id s
      then with_servers d name (put s.address (blank_description s.address now) d.servers)
      else record {
        type = check_has_primary (adopt_primary s now d.servers);
        set_name = name;
        max_set_version = next_set_version d.max_set_version s.set_version;
        max_election_id = next_election_id d.max_election_id s;
        servers = adopt_primary s now d.servers;
      }
    else with_servers d name (delete s.address d.servers)

-- `serverDescription.me && serverDescription.address !== serverDescription.me`
abbrev wrong_me : ServerDescription → Bool
wrong_me s = truthy s.me && not (opt_eq (some s.address) s.me)

-- The map without a member that names another set or another address.
abbrev pub drop_member : ServerDescription → Draft → Dict ServerDescription
drop_member s d =
    if not (opt_eq d.set_name s.set_name) || wrong_me s
    then delete s.address d.servers
    else d.servers

pub update_rs_with_primary_from_member : ServerDescription → Draft → Result Draft
update_rs_with_primary_from_member s d =
    if is_some d.set_name
    then ok (with_servers d d.set_name (drop_member s d))
    else throw (new_error type_error "setName is required")

abbrev pub drop_wrong_me : ServerDescription → Dict ServerDescription → Dict ServerDescription
drop_wrong_me s m = if wrong_me s then delete s.address m else m

pub update_rs_no_primary_from_member : ServerDescription → ℕ → Draft → Draft
unfolding add_hosts
update_rs_no_primary_from_member s now d =
    let name = or_text d.set_name s.set_name in
    if opt_eq name s.set_name
    then record d {
      type = replica_set_no_primary;
      set_name = name;
      servers = drop_wrong_me s (add_hosts (all_hosts s) now d.servers);
    }
    else record d {
      type = replica_set_no_primary;
      set_name = name;
      servers = delete s.address d.servers;
    }

topology_type_for_server_type : ServerType → TopologyType
topology_type_for_server_type mongos = sharded
topology_type_for_server_type rs_primary = replica_set_with_primary
topology_type_for_server_type _ = replica_set_no_primary

-- The block for an unknown topology, by the server's type.
pub unknown_step : ServerDescription → ServerType → Draft → Draft
unfolding topology_type_for_server_type
unknown_step s standalone d = record d { servers = delete s.address d.servers }
unknown_step s other d = record d { type = topology_type_for_server_type other }

pub from_unknown : ServerDescription → Draft → Draft
unfolding unknown_step
from_unknown s d = elim d.type [ unknown_topology ↦ unknown_step s s.type d | _ ↦ d ]

-- `[Mongos, Unknown].indexOf(serverType) >= 0`
abbrev pub mongos_or_unknown : ServerType → Bool
mongos_or_unknown mongos = true
mongos_or_unknown unknown = true
mongos_or_unknown _ = false

pub from_sharded : ServerDescription → Draft → Draft
from_sharded s d = elim d.type [
  | sharded ↦
      if mongos_or_unknown s.type then d else record d { servers = delete s.address d.servers }
  | _ ↦ d
]

-- The block for a replica set with no primary, by the server's type.
pub no_primary_step : ServerDescription → ℕ → ServerType → Draft → Draft
unfolding update_rs_no_primary_from_member
no_primary_step s now mongos d = record d { servers = delete s.address d.servers }
no_primary_step s now unknown d = record d { servers = delete s.address d.servers }
no_primary_step s now rs_primary d = update_rs_from_primary s now d
no_primary_step s now rs_secondary d = update_rs_no_primary_from_member s now d
no_primary_step s now rs_arbiter d = update_rs_no_primary_from_member s now d
no_primary_step s now rs_other d = update_rs_no_primary_from_member s now d
no_primary_step s now _ d = d

pub from_no_primary : ServerDescription → ℕ → Draft → Draft
unfolding no_primary_step
from_no_primary s now d = elim d.type [
  | replica_set_no_primary ↦ no_primary_step s now s.type d
  | _ ↦ d
]

-- The block for a replica set with a primary, by the server's type.
pub with_primary_step : ServerDescription → ℕ → ServerType → Draft → Result Draft
unfolding update_rs_with_primary_from_member
with_primary_step s now standalone d = ok (with_servers d d.set_name (delete s.address d.servers))
with_primary_step s now mongos d = ok (with_servers d d.set_name (delete s.address d.servers))
with_primary_step s now rs_primary d = ok (update_rs_from_primary s now d)
with_primary_step s now rs_secondary d = update_rs_with_primary_from_member s d
with_primary_step s now rs_arbiter d = update_rs_with_primary_from_member s d
with_primary_step s now rs_other d = update_rs_with_primary_from_member s d
with_primary_step s now _ d = ok (record d { type = check_has_primary d.servers })

pub with_primary_block : ServerDescription → ℕ → TopologyType → Draft → Result Draft
unfolding with_primary_step
with_primary_block s now replica_set_with_primary d = with_primary_step s now s.type d
with_primary_block s now _ d = ok d

pub from_with_primary : ServerDescription → ℕ → Draft → Result Draft
unfolding with_primary_block
from_with_primary s now d = with_primary_block s now d.type d

pub next_wire_version : Option ℕ → ℕ → Option ℕ
next_wire_version common reported =
    if reported == 0
    then common
    else elim common [ none ↦ some reported | some w ↦ some (min w reported) ]

abbrev pub finish : TopologyDescription → ServerDescription → Draft → TopologyDescription
finish t s d =
    topology_description d.type d.servers d.set_name d.max_set_version d.max_election_id
      (next_wire_version t.common_wire_version s.max_wire_version) t.options s.error

-- The draft that `update` starts from: the new description is in the map.
abbrev pub initial_draft : TopologyType → TopologyDescription → ServerDescription → Draft
initial_draft type t s = record {
  type = type;
  set_name = t.set_name;
  max_set_version = t.max_set_version;
  max_election_id = t.max_election_id;
  servers = put s.address s t.servers;
}

-- The blocks of `update` after that for a single server.
pub update_draft : ServerDescription → ℕ → Draft → Result Draft
unfolding from_unknown from_sharded from_no_primary from_with_primary
update_draft s now d =
    from_with_primary s now (from_no_primary s now (from_sharded s (from_unknown s d)))

pub update_from :
    TopologyType → TopologyDescription → ServerDescription → ℕ → Result TopologyDescription
unfolding update_draft next_wire_version
update_from single t s now = ok (finish t s (initial_draft single t s))
update_from type t s now = do d ← update_draft s now (initial_draft type t s); ok (finish t s d)

unfoldable pub update : TopologyDescription → ServerDescription → ℕ → Result TopologyDescription
unfolding update_from
update t s now = update_from t.type t s now

unfoldable pub has_server : TopologyDescription → String → Bool
has_server t address = has address t.servers
