-- ===== src/Sdam/ServerDescription.antt =====
-- lib/sdam/server_description.js: the client's view of one server, made from the reply to an
-- `ismaster` command. A field that a reply lacks is `none`, a flag that it lacks is `false`. Times
-- are milliseconds; the clock is an argument. The fields of a reply that no module here reads
-- (size limits, compression, authentication mechanisms) are left out.
use Prim.Native.Char.{Char, code}
use Prim.Native.String.{char_at}
use mongodb_core.Errors.{Error}
use mongodb_core.Prelude.{
  ℕ, ◌-◌, String, Bool, true, false, ◌&&◌, ◌||◌, Option, none, some, List, [], ◌++◌, map, leb,
  if◌then◌else◌, str_eq, truthy, Dict,
}

pub data ServerType : Type 0 where
  standalone mongos possible_primary rs_primary rs_secondary rs_arbiter rs_other : ServerType
  rs_ghost unknown : ServerType

-- An ObjectId by its `$oid`, a text of 24 hexadecimal digits: the order of such texts is the order
-- of the numbers that they write. An object without that property has `none`.
pub record ElectionId : Type 0 where
  pub oid : Option ℕ

pub record LastWrite : Type 0 where
  pub last_write_date : ℕ
  pub op_time : ℕ

pub record IsMaster : Type 0 where
  pub ok : Bool
  pub isreplicaset : Bool
  pub hidden : Bool
  pub ismaster : Bool
  pub secondary : Bool
  pub arbiter_only : Bool
  pub msg : Option String
  pub set_name : Option String
  pub me : Option String
  pub primary : Option String
  pub min_wire_version : Option ℕ
  pub max_wire_version : Option ℕ
  pub set_version : Option ℕ
  pub logical_session_timeout_minutes : Option ℕ
  pub hosts : Option (List String)
  pub passives : Option (List String)
  pub arbiters : Option (List String)
  pub tags : Option (Dict String)
  pub election_id : Option ElectionId
  pub last_write : Option LastWrite
  pub cluster_time : Option ℕ

pub record ServerDescription : Type 0 where
  pub address : String
  pub error : Option Error
  pub round_trip_time : ℕ
  pub last_update_time : ℕ
  pub last_write_date : Option ℕ
  pub op_time : Option ℕ
  pub type : ServerType
  pub min_wire_version : ℕ
  pub max_wire_version : ℕ
  pub me : Option String
  pub set_name : Option String
  pub primary : Option String
  pub hosts : List String
  pub passives : List String
  pub arbiters : List String
  pub tags : Dict String
  pub set_version : Option ℕ
  pub logical_session_timeout_minutes : Option ℕ
  pub election_id : Option ElectionId
  pub cluster_time : Option ℕ

abbrev member_type : IsMaster → ServerType
member_type r =
    if r.hidden
    then rs_other
    else if r.ismaster
    then rs_primary
    else if r.secondary
    then rs_secondary
    else if r.arbiter_only
    then rs_arbiter
    else rs_other

abbrev is_dbgrid : Option String → Bool
is_dbgrid none = false
is_dbgrid (some m) = str_eq m "isdbgrid"

unfoldable pub parse_server_type : IsMaster → ServerType
parse_server_type r =
    if r.ok
    then if r.isreplicaset
      then rs_ghost
      else if is_dbgrid r.msg
      then mongos
      else if truthy r.set_name
      then member_type r
      else standalone
    else unknown

-- `toLowerCase` on ASCII.
lower_char : Char → Char
lower_char c =
    if leb 65 (code c) && leb (code c) 90
    then char_at "abcdefghijklmnopqrstuvwxyz" (code c - 65)
    else c

unfoldable pub to_lower : String → String
unfolding lower_char
to_lower String.[] = String.[]
to_lower (String.◌∷◌ c s) = String.◌∷◌ (lower_char c) (to_lower s)

abbrev or_default {ℓ} : {A : Type ℓ} → Option A → A → A
or_default none d = d
or_default (some a) d = a

-- `if (this.me) this.me = this.me.toLowerCase()`
abbrev lower_me : Option String → Option String
lower_me none = none
lower_me (some s) = if truthy (some s) then some (to_lower s) else some s

abbrev last_date : Option LastWrite → Option ℕ
last_date none = none
last_date (some w) = some w.last_write_date

abbrev last_op_time : Option LastWrite → Option ℕ
last_op_time none = none
last_op_time (some w) = some w.op_time

-- The second argument of `Object.assign`: the reply is absent after a failed check.
abbrev no_reply : IsMaster
no_reply = record {
  ok = false;
  isreplicaset = false;
  hidden = false;
  ismaster = false;
  secondary = false;
  arbiter_only = false;
  msg = none;
  set_name = none;
  me = none;
  primary = none;
  min_wire_version = none;
  max_wire_version = none;
  set_version = none;
  logical_session_timeout_minutes = none;
  hosts = none;
  passives = none;
  arbiters = none;
  tags = none;
  election_id = none;
  last_write = none;
  cluster_time = none;
}

-- `new ServerDescription(address, ismaster, options)` at a time.
unfoldable pub server_description :
    String → Option IsMaster → Option Error → ℕ → ℕ → ServerDescription
unfolding parse_server_type
server_description address reply error round_trip_time now =
    let r = or_default reply no_reply in
    record {
      address = address;
      error = error;
      round_trip_time = round_trip_time;
      last_update_time = now;
      last_write_date = last_date r.last_write;
      op_time = last_op_time r.last_write;
      type = parse_server_type r;
      min_wire_version = or_default r.min_wire_version 0;
      max_wire_version = or_default r.max_wire_version 0;
      me = lower_me r.me;
      set_name = r.set_name;
      primary = r.primary;
      hosts = map to_lower (or_default r.hosts []);
      passives = map to_lower (or_default r.passives []);
      arbiters = map to_lower (or_default r.arbiters []);
      tags = or_default r.tags [];
      set_version = r.set_version;
      logical_session_timeout_minutes = r.logical_session_timeout_minutes;
      election_id = r.election_id;
      cluster_time = r.cluster_time;
    }

-- `new ServerDescription(address)`
unfoldable pub blank_description : String → ℕ → ServerDescription
unfolding server_description
blank_description address now = server_description address none none 0 now

unfoldable pub all_hosts : ServerDescription → List String
all_hosts d = (d.hosts ++ d.arbiters) ++ d.passives

abbrev pub is_primary : ServerType → Bool
is_primary rs_primary = true
is_primary _ = false

abbrev pub is_secondary : ServerType → Bool
is_secondary rs_secondary = true
is_secondary _ = false

abbrev pub is_unknown : ServerType → Bool
is_unknown unknown = true
is_unknown _ = false

abbrev writable_type : ServerType → Bool
writable_type rs_primary = true
writable_type standalone = true
writable_type mongos = true
writable_type _ = false

unfoldable pub is_writable : ServerDescription → Bool
is_writable d = writable_type d.type

unfoldable pub is_readable : ServerDescription → Bool
unfolding is_writable
is_readable d = is_secondary d.type || is_writable d
