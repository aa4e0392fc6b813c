-- ===== src/Sdam/Examples.antt =====
-- lib/sdam: servers and topologies on which the tests of this folder run the code.
use mongodb_core.Prelude.{ℕ, String, Bool, true, false, Option, none, some, List, [], ◌∷◌, Dict}
use mongodb_core.Errors.{Result, ok, throw}
use mongodb_core.Sdam.ServerDescription.{
  ServerType, rs_primary, rs_secondary, unknown, ElectionId, IsMaster, ServerDescription,
}
use mongodb_core.Sdam.TopologyDescription.{
  TopologyType, replica_set_no_primary, replica_set_with_primary, TopologyDescription, Options,
}
use mongodb_core.Sdam.Topology.{Seed, TopologyOptions, Check}

abbrev pub times : Options
times = record { heartbeat_frequency_ms = 10000; local_threshold_ms = 15 }

-- A member of the set `rs` with two hosts.
abbrev pub member : String → ServerType → Option ℕ → Option ElectionId → ℕ → ServerDescription
member address type version election rtt = record {
  address = address;
  error = none;
  round_trip_time = rtt;
  last_update_time = 1000;
  last_write_date = some 900;
  op_time = none;
  type = type;
  min_wire_version = 2;
  max_wire_version = 7;
  me = none;
  set_name = some "rs";
  primary = some "a:1";
  hosts = "a:1" ∷ "b:1" ∷ [];
  passives = [];
  arbiters = [];
  tags = ("dc", "ny") ∷ [];
  set_version = version;
  logical_session_timeout_minutes = some 30;
  election_id = election;
  cluster_time = none;
}

abbrev pub election : ℕ → Option ElectionId
election n = some (record { oid = some n })

abbrev pub primary_a : ServerDescription
primary_a = member "a:1" rs_primary (some 1) (election 4) 10

abbrev pub primary_b : ServerDescription
primary_b = member "b:1" rs_primary (some 1) (election 3) 12

abbrev pub secondary_b : ServerDescription
secondary_b = member "b:1" rs_secondary none none 40

abbrev pub lost_b : ServerDescription
lost_b = record (secondary_b) { type = unknown; set_name = none }

abbrev described_by :
    TopologyType → Dict ServerDescription → Option ℕ → Option ElectionId → TopologyDescription
described_by type servers version election = record {
  type = type;
  set_name = some "rs";
  max_set_version = version;
  max_election_id = election;
  servers = servers;
  compatible = true;
  compatibility_error = none;
  logical_session_timeout_minutes = some 30;
  options = times;
  error = none;
  common_wire_version = some 7;
}

abbrev pub servers_ab : Dict ServerDescription
servers_ab = ("a:1", primary_a) ∷ ("b:1", secondary_b) ∷ []

abbrev pub with_a : TopologyDescription
with_a = described_by replica_set_with_primary servers_ab (some 1) (election 4)

abbrev pub searching : TopologyDescription
searching = described_by replica_set_no_primary (("b:1", secondary_b) ∷ []) none none

abbrev pub result_or : Result TopologyDescription → TopologyDescription
result_or (ok t) = t
result_or (throw e) = searching

abbrev pub seeds : List Seed
seeds =
    record { host = "a"; port = some "1"; domain_socket = none }
    ∷ record { host = "b"; port = some "1"; domain_socket = none }
    ∷ []

abbrev pub options : TopologyOptions
options = record { replica_set = some "rs"; set_name = none; rs_name = none; times = times }

abbrev pub reply : Bool → IsMaster
reply primary = record {
  ok = true;
  isreplicaset = false;
  hidden = false;
  ismaster = primary;
  secondary = true;
  arbiter_only = false;
  msg = none;
  set_name = some "rs";
  me = none;
  primary = some "a:1";
  min_wire_version = some 2;
  max_wire_version = some 7;
  set_version = some 1;
  logical_session_timeout_minutes = some 30;
  hosts = some ("a:1" ∷ "b:1" ∷ []);
  passives = none;
  arbiters = none;
  tags = none;
  election_id = election 4;
  last_write = none;
  cluster_time = some 77;
}

abbrev pub checks : List Check
checks =
    record {
      address = "b:1";
      reply = some (reply false);
      error = none;
      round_trip_time = 5;
      now = 10;
    }
    ∷ record {
      address = "a:1";
      reply = some (reply true);
      error = none;
      round_trip_time = 5;
      now = 20;
    }
    ∷ record { address = "b:1"; reply = none; error = none; round_trip_time = 5; now = 30 }
    ∷ []
