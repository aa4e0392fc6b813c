-- ===== src/Sdam/Selecting/Tests.antt =====
-- lib/sdam/topology.js, selectServers: the code on examples, with a timeout of half a second.
use mongodb_core.Errors.{Error, ok, throw, mongo_network_error, new_error}
use mongodb_core.Prelude.{ℕ, ◌≡◌, refl, true, Bool, some, [], ◌∷◌, ◌++◌, arith, inl, ltb, get, put}
use mongodb_core.ReadPreference.{primary}
use mongodb_core.Sdam.Examples.{primary_a, secondary_b, lost_b, with_a, searching}
use mongodb_core.Sdam.Selectors.Reads.{plain}
use mongodb_core.Sdam.Selecting.{
  View, answered, description_changed, time_passes, readable, writable, step, run, start_selection,
  select_servers, instances, choose_server, pinned_choice,
}
use mongodb_core.Sdam.Selecting.Deadline.{IsSettled, IsLater, run-IsSettled}
use mongodb_core.Sdam.Selecting.First.{
  changes, IsFruitless, IsFruitful, Waits, run-first, step-failed_check,
}
use mongodb_core.Sdam.Selecting.Watched.{AreInstances, IsSeen, IsWatching, run-AreInstances}
use mongodb_core.Sdam.ServerDescription.{ServerDescription, is_writable}
use mongodb_core.Sdam.Selectors.{writable_server_selector}
use mongodb_core.Sdam.Topology.History.{connect-IsInStep}
use mongodb_core.Sdam.Topology.Servers.{IsInStep, server_update_handler-IsInStep}
use mongodb_core.Sdam.TopologyDescription.Consistent.{IsConsistent, Returns}
use mongodb_core.Sdam.Topology.{connect, server_update_handler}
use mongodb_core.Sdam.TopologyDescription.{TopologyDescription, has_server}
use mongodb_core.Transactions.{Transaction, fresh_transaction, starting_transaction, pin_server}

abbrev seen_at : TopologyDescription → ℕ → View
seen_at d now = record { topology = connect d; connected = true; now = now }

-- No primary at first, then one.
abbrev lonely : View
lonely = seen_at searching 100

abbrev complete : View
complete = seen_at with_a 300

run-IsSettled_example :
    IsSettled
      (step writable 500
        (run writable 500
          (description_changed lonely ∷ time_passes 400 ∷ [])
          (start_selection writable 500 lonely))
        (time_passes 650)).phase
unfolding IsLater
run-IsSettled_example =
    run-IsSettled writable 500 650 lonely (description_changed lonely ∷ time_passes 400 ∷ []) refl
      ((refl, omega arith), (tt, tt)) (omega arith)

searching-IsWatching : IsWatching lonely
unfolding IsWatching connect put
searching-IsWatching = ((refl, tt), λ j. refl)

complete-IsWatching : IsWatching complete
unfolding IsWatching connect put
complete-IsWatching = ((refl, (refl, tt)), λ j. refl)

run-AreInstances_example :
    AreInstances
      (lonely ∷ complete ∷ [])
      (run
        (readable (plain primary))
        500
        (description_changed complete ∷ [])
        (start_selection (readable (plain primary)) 500 lonely)).phase
    × AreInstances
        (lonely ∷ complete ∷ [])
        (run writable 500
          (description_changed complete ∷ [])
          (start_selection writable 500 lonely)).phase
unfolding IsSeen IsWatching
run-AreInstances_example =
    run-AreInstances (plain primary) 500 lonely (description_changed complete ∷ [])
      searching-IsWatching (complete-IsWatching, tt)

lonely-IsFruitless : IsFruitless writable 500 100 lonely
unfolding connect writable_server_selector is_writable
lonely-IsFruitless = record {
  connected = refl;
  in_time = omega arith;
  no_error = refl;
  nothing = refl;
}

complete-IsFruitful : IsFruitful writable 500 100 complete primary_a []
unfolding connect writable_server_selector is_writable
complete-IsFruitful = record {
  connected = refl;
  in_time = omega arith;
  no_error = refl;
  found = refl;
}

run-first_example :
    (run writable 500
      (changes [] ++ (description_changed complete ∷ time_passes 900 ∷ []))
      (start_selection writable 500 lonely)).phase
    ≡ answered (ok (instances complete.topology.servers (primary_a ∷ [])))
run-first_example =
    run-first writable 500 lonely [] complete (time_passes 900 ∷ []) primary_a []
      (lonely-IsFruitless, tt) complete-IsFruitful

abbrev later : ℕ → ℕ → Bool
later a b = ltb b a

abbrev refused : Error
refused = new_error mongo_network_error "connection refused"

abbrev failed : ServerDescription
failed = record lost_b { error = some refused }

searching-IsConsistent : IsConsistent searching
unfolding get
searching-IsConsistent = record {
  map = record { distinct = (refl, tt); addressed = (refl, tt) };
  fits = refl;
}

abbrev handled : Returns IsInStep (server_update_handler later (connect searching) failed 250)
handled =
    server_update_handler-IsInStep later (connect searching) failed 250
      (connect-IsInStep searching searching-IsConsistent) (inl refl)

lonely-Waits : Waits 100 (start_selection writable 500 lonely)
unfolding Waits start_selection select_servers connect writable_server_selector is_writable
lonely-Waits = (600, refl)

step-failed_check_example :
    (step writable 500
      (start_selection writable 500 lonely)
      (description_changed (record { topology = handled.0; connected = true; now = 250 }))).phase
    ≡ answered (throw refused)
unfolding connect has_server get
step-failed_check_example =
    step-failed_check later (connect searching) handled.0 failed 250 refused writable 500 100
      (start_selection writable 500 lonely) true refl refl handled.1 lonely-Waits

abbrev starting : Transaction
starting = record fresh_transaction { state = starting_transaction }

chosen_runs :
    pinned_choice true
      (choose_server 7 true (some starting) (ok (some primary_a ∷ some secondary_b ∷ []))).1
    ≡ some "b:1"
unfolding choose_server pinned_choice pin_server
chosen_runs = refl
