-- ===== src/Sdam/Selectors/Reads.antt =====
-- lib/sdam/server_selectors.js: what a read on a replica set selects.
use mongodb_core.Errors.{mongo_error, type_error, new_error, Result, ok, throw, Error, ◌>>=◌}
use mongodb_core.Prelude.{
  ℕ, ◌≡◌, refl, sym, ap, subst, ◌∙◌, inl, inr, Bool, true, false, Option, none, some, List, [], ◌∷◌,
  arith, if◌then◌else◌, Bool-cases, In, In-select, select, ◌+◌, ◌<◌,
}
use mongodb_core.ReadPreference.{Mode, secondary, secondary_preferred, ReadPreference, is_valid}
use mongodb_core.Sdam.ServerDescription.{
  ServerDescription, is_primary, is_secondary, rs_primary, rs_secondary,
}
use mongodb_core.Sdam.TopologyDescription.{TopologyDescription}
use mongodb_core.Sdam.Selectors.{
  latency_window_reducer, max_staleness_reducer, staleness_bound, by_tags, tag_set_reducer,
  reduce_all, select_by_mode, or_primaries, primary_filter, secondary_filter, by_known,
  known_filter, wire_version_too_low, read_preference_server_selector,
}
use mongodb_core.Sdam.Selectors.Window.{In-latency_window_reducer, IsNear-at}
use mongodb_core.Sdam.Selectors.Modes.{Sound, Allows, of_secondary, select_by_mode-Sound}

past_guards :
    (a b c : Bool) (e d : Error) (y z : Result (Option (List ServerDescription)))
    (kept : List ServerDescription)
    → c ≡ false
    → (if a then if b then throw d else if c then y else z else throw e) ≡ ok (some kept)
    → z ≡ ok (some kept)
past_guards a b c e d y z kept off h = ground arith

-- What is left of the selector on a replica set once it returns.
selected :
    (r : ReadPreference) (t : TopologyDescription) (ss kept : List ServerDescription)
    → by_known t.type ≡ false
    → read_preference_server_selector r t ss ≡ ok (some kept)
    → select_by_mode r.mode r t ss ≡ ok (some kept)
unfolding read_preference_server_selector
selected r t ss kept in_set e =
    past_guards (is_valid r.mode) (wire_version_too_low t.common_wire_version r.min_wire_version)
      (by_known t.type) (new_error type_error "Invalid read preference specified")
      (new_error mongo_error "Minimum wire version required")
      (ok (some (latency_window_reducer t.local_threshold_ms (select known_filter ss))))
      (select_by_mode r.mode r t ss) kept in_set e

-- In a replica set, a read with mode `primary` goes to primaries alone, one with `secondary` to
-- secondaries alone, and one with any other mode to primaries and secondaries; each of them is a server
-- of the list.
pub read_preference_server_selector-Allows :
    (r : ReadPreference) (t : TopologyDescription) (ss kept : List ServerDescription)
    → by_known t.type ≡ false
    → read_preference_server_selector r t ss ≡ ok (some kept)
    → (s : ServerDescription) → In s kept
    → In s ss × Allows r.mode s.type
unfolding Sound
read_preference_server_selector-Allows r t ss kept in_set e =
    subst (Sound (Allows r.mode) ss) (selected r t ss kept in_set e)
      (select_by_mode-Sound r.mode r t ss)

some_primary :
    (ss ms : List ServerDescription) (p : ServerDescription)
    → In p ss
    → p.type ≡ rs_primary
    → (s : ServerDescription) × In s (or_primaries ss ms)
some_primary ss [] p at e = (p, In-select primary_filter p ss at (ap is_primary e))
some_primary ss (m ∷ ms) p at e = (m, inl refl)

SomeSelected : Result (Option (List ServerDescription)) → Type 0
SomeSelected (ok (some ks)) = (s : ServerDescription) × In s ks
SomeSelected _ = Unit

falls_back :
    (ss : List ServerDescription) (x : Result (List ServerDescription)) (p : ServerDescription)
    → In p ss
    → p.type ≡ rs_primary
    → SomeSelected (x >>= λ ks. ok (some (or_primaries ss (select secondary_filter ks))))
unfolding SomeSelected
falls_back ss (throw d) p at e = tt
falls_back ss (ok ks) p at e = some_primary ss (select secondary_filter ks) p at e

-- In a replica set, a read with mode `secondaryPreferred` that is not refused finds a server whenever the
-- list holds a primary.
read_preference_server_selector-falls_back :
    (r : ReadPreference) (t : TopologyDescription) (ss kept : List ServerDescription)
    (p : ServerDescription)
    → by_known t.type ≡ false
    → r.mode ≡ secondary_preferred
    → In p ss
    → p.type ≡ rs_primary
    → read_preference_server_selector r t ss ≡ ok (some kept)
    → (s : ServerDescription) × In s kept
unfolding SomeSelected select_by_mode
read_preference_server_selector-falls_back r t ss kept p in_set m at ty e =
    subst SomeSelected (sym (ap (λ k. select_by_mode k r t ss) m) ∙ selected r t ss kept in_set e)
      (falls_back ss (reduce_all r t ss) p at ty)

none_left :
    (test : ServerDescription → Bool) (ks : List ServerDescription)
    → ((s : ServerDescription) → In s ks → test s ≡ true → ⊥)
    → select test ks ≡ []
none_left test [] h = refl
none_left test (k ∷ ks) h = elim (Bool-cases (test k)) [
  | inl passes ↦ absurd (h k (inl refl) passes)
  | inr other ↦ rw other (none_left test ks (λ s at. h s (inr at)))
]

secondary_of : (s : ServerDescription) → s.type ≡ rs_secondary → secondary_filter s ≡ true
secondary_of s e = ap is_secondary e

too_low_none : (o : Option ℕ) → wire_version_too_low o none ≡ false
too_low_none none = refl
too_low_none (some c) = refl

-- A read preference with neither tags nor a bound on staleness.
abbrev pub plain : Mode → ReadPreference
plain m = record { mode = m; tags = none; max_staleness_seconds = none; min_wire_version = none }

-- The latency window is over the servers of every type: if some server of a replica set, the primary
-- say, answers faster than each secondary by more than the threshold, a read with mode `secondary` and
-- neither tags nor a staleness bound selects no server, though the set may have secondaries.
pub read_preference_server_selector_masked :
    (t : TopologyDescription) (ss : List ServerDescription) (fast : ServerDescription)
    → by_known t.type ≡ false
    → In fast ss
    → ((s : ServerDescription)
        → In s ss
        → s.type ≡ rs_secondary
        → fast.round_trip_time + t.local_threshold_ms < s.round_trip_time)
    → read_preference_server_selector (plain secondary) t ss ≡ ok (some [])
unfolding read_preference_server_selector select_by_mode reduce_all max_staleness_reducer
    staleness_bound tag_set_reducer by_tags is_valid
read_preference_server_selector_masked t ss fast in_set at slower =
    past (wire_version_too_low t.common_wire_version none) (by_known t.type)
      (throw (new_error mongo_error "Minimum wire version required"))
      (ok (some (latency_window_reducer t.local_threshold_ms (select known_filter ss))))
      (select_by_mode secondary (plain secondary) t ss) (too_low_none t.common_wire_version) in_set
    ∙ ap (λ ks. ok (some ks))
        (none_left secondary_filter (latency_window_reducer t.local_threshold_ms ss)
          (λ s kept passes.
            let (there, near) = (In-latency_window_reducer t.local_threshold_ms ss s).0 kept in
            let late = slower s there (of_secondary s.type passes) in
            omega (arith, late, IsNear-at t.local_threshold_ms ss s fast near at)))
  where
    past :
        (a b : Bool) (x y z : Result (Option (List ServerDescription)))
        → a ≡ false
        → b ≡ false
        → (if a then x else if b then y else z) ≡ z
    past a b x y z p q = ground arith
