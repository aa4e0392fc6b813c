-- ===== src/Sdam/Selecting/Choices.antt =====
-- lib/sdam/topology.js, selectServers: its selectors return servers of the list that they are given.
use mongodb_core.Errors.{Error, Result, ok, throw}
use mongodb_core.Prelude.{
  Bool, true, false, Option, none, some, List, if◌then◌else◌, In, In-of_In-select, select,
}
use mongodb_core.ReadPreference.{ReadPreference, is_valid}
use mongodb_core.Sdam.ServerDescription.{ServerDescription}
use mongodb_core.Sdam.Selectors.{
  read_preference_server_selector, select_by_mode, by_known, known_filter, wire_version_too_low,
}
use mongodb_core.Sdam.Selectors.Modes.{Sound, Allows, select_by_mode-Sound}
use mongodb_core.Sdam.Selectors.Window.{In-latency_window_reducer, In-writable_server_selector}
use mongodb_core.Sdam.TopologyDescription.{TopologyDescription}
use mongodb_core.Sdam.Selecting.{Selector, readable, writable}

-- A selector returns servers of the list that it is given.
unfoldable pub OnlyOf : List ServerDescription → Result (Option (List ServerDescription)) → Type 0
OnlyOf ss (ok (some ks)) = (s : ServerDescription) → In s ks → In s ss
OnlyOf ss _ = Unit

abbrev pub IsChoice : Selector → Type 0
IsChoice selector =
    (t : TopologyDescription) (ss : List ServerDescription) → OnlyOf ss (selector t ss)

guarded-OnlyOf :
    (a b c : Bool) (e d : Error) (y z : Result (Option (List ServerDescription)))
    (ss : List ServerDescription)
    → OnlyOf ss y
    → OnlyOf ss z
    → OnlyOf ss (if a then if b then throw d else if c then y else z else throw e)
unfolding OnlyOf
guarded-OnlyOf false b c e d y z ss h k = tt
guarded-OnlyOf true true c e d y z ss h k = tt
guarded-OnlyOf true false true e d y z ss h k = h
guarded-OnlyOf true false false e d y z ss h k = k

Sound-OnlyOf :
    (r : ReadPreference) (ss : List ServerDescription)
    (x : Result (Option (List ServerDescription)))
    → Sound (Allows r.mode) ss x
    → OnlyOf ss x
unfolding OnlyOf Sound
Sound-OnlyOf r ss (throw e) h = tt
Sound-OnlyOf r ss (ok none) h = tt
Sound-OnlyOf r ss (ok (some ks)) h = λ s at. (h s at).0

pub readable-IsChoice : (r : ReadPreference) → IsChoice (readable r)
unfolding OnlyOf read_preference_server_selector
readable-IsChoice r t ss =
    guarded-OnlyOf (is_valid r.mode) (wire_version_too_low t.common_wire_version r.min_wire_version)
      (by_known t.type) _ _ _ _ ss
      (λ s at.
        In-of_In-select known_filter s ss
          ((In-latency_window_reducer t.local_threshold_ms (select known_filter ss) s).0 at).0)
      (Sound-OnlyOf r ss (select_by_mode r.mode r t ss) (select_by_mode-Sound r.mode r t ss))

pub writable-IsChoice : IsChoice writable
unfolding OnlyOf
writable-IsChoice t ss = λ s at. ((In-writable_server_selector t ss s).0 at).0
