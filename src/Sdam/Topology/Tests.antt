-- ===== src/Sdam/Topology/Tests.antt =====
-- lib/sdam/topology.js: the code on examples.
use mongodb_core.Prelude.{ℕ, Bool, ltb}
use mongodb_core.Sdam.Examples.{seeds, options, checks}
use mongodb_core.Sdam.Topology.{Topology, initial_description, connect, run_checks}
use mongodb_core.Sdam.Topology.History.{run_checks_total}
use mongodb_core.Sdam.Topology.Servers.{IsInStep}
use mongodb_core.Sdam.TopologyDescription.Consistent.{Returns}

abbrev later : ℕ → ℕ → Bool
later a b = ltb b a

abbrev started : Topology
started = connect (initial_description seeds options 0)

run_checks_total_example : Returns IsInStep (run_checks later started checks)
run_checks_total_example = run_checks_total later seeds options 0 checks
