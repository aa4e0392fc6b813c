-- ===== src/Sdam/Selectors/Tests.antt =====
-- lib/sdam/server_selectors.js: the code on examples.
use mongodb_core.Errors.{ok}
use mongodb_core.Prelude.{
  ◌+◌, ◌*◌, ◌≤◌, ◌<◌, ◌≡◌, refl, sym, ap, subst, ◌↔◌, inl, inr, String, none, some, List, [], ◌∷◌,
  arith, Dict, In,
}
use mongodb_core.Prelude.Int.{pos}
use mongodb_core.ReadPreference.{ReadPreference, secondary}
use mongodb_core.Sdam.Examples.{primary_a, secondary_b, with_a, searching}
use mongodb_core.Sdam.ServerDescription.{ServerDescription, rs_primary, rs_secondary}
use mongodb_core.Sdam.Selectors.{
  date, latency_window_reducer, max_staleness_reducer, tag_sets_reduce,
  read_preference_server_selector,
}
use mongodb_core.Sdam.Selectors.Window.{IsNear, In-latency_window_reducer}
use mongodb_core.Sdam.Selectors.Filters.{Chosen, In-tag_sets_reduce}
use mongodb_core.Sdam.Selectors.Staleness.{
  IsFresh, IsLatest, max_staleness_reducer_with_primary, max_staleness_reducer_no_primary,
}
use mongodb_core.Sdam.Selectors.Modes.{Allows}
use mongodb_core.Sdam.Selectors.Reads.{
  plain, read_preference_server_selector-Allows, read_preference_server_selector_masked,
}

abbrev both : List ServerDescription
both = primary_a ∷ secondary_b ∷ []

In-latency_window_reducer_example :
    In secondary_b (latency_window_reducer 15 both)
    ↔ (In secondary_b both × IsNear 15 both secondary_b)
In-latency_window_reducer_example = In-latency_window_reducer 15 both secondary_b

abbrev tag_sets : List (Dict String)
tag_sets = (("dc", "sf") ∷ []) ∷ (("dc", "ny") ∷ []) ∷ []

In-tag_sets_reduce_example :
    In secondary_b (tag_sets_reduce tag_sets both) ↔ Chosen tag_sets both secondary_b
In-tag_sets_reduce_example = In-tag_sets_reduce tag_sets both secondary_b

abbrev bounded : ReadPreference
bounded = record {
  mode = secondary;
  tags = none;
  max_staleness_seconds = some (pos 90);
  min_wire_version = some 5;
}

max_staleness_reducer_with_primary_example :
    (kept : List ServerDescription) × (max_staleness_reducer bounded with_a both ≡ ok kept)
    × ((s : ServerDescription) → In s kept ↔ (In s both × IsFresh with_a primary_a 90000 s))
max_staleness_reducer_with_primary_example =
    max_staleness_reducer_with_primary bounded with_a both 90 primary_a refl (omega arith)
      (omega arith) refl refl

max_staleness_reducer_no_primary_example :
    (kept : List ServerDescription) × (max_staleness_reducer bounded searching (secondary_b ∷ [])
      ≡ ok kept)
    × ((best : ServerDescription) × IsLatest best (secondary_b ∷ [])
        × In best kept
        × ((s : ServerDescription)
            → In s kept ↔ (
                In s (secondary_b ∷ [])
                × (date best.last_write_date + 10000 ≤ 1000 * 90 + date s.last_write_date))))
max_staleness_reducer_no_primary_example =
    max_staleness_reducer_no_primary bounded searching secondary_b [] 90 refl (omega arith)
      (omega arith) refl

read_preference_server_selector-Allows_example :
    In secondary_b (secondary_b ∷ []) × Allows secondary rs_secondary
unfolding read_preference_server_selector
read_preference_server_selector-Allows_example =
    read_preference_server_selector-Allows (plain secondary) with_a (secondary_b ∷ [])
      (secondary_b ∷ []) refl refl secondary_b (inl refl)

both_slow : (s : ServerDescription) → In s both → s.type ≡ rs_secondary → 25 < s.round_trip_time
both_slow s (inl e) ty = let q : s.type ≡ rs_primary = ap (λ x. x.type) e in cc
both_slow s (inr (inl e)) ty = subst (λ x. 25 < x.round_trip_time) (sym e) (omega arith)
both_slow s (inr (inr e)) ty = absurd e

read_preference_server_selector_masked_example :
    read_preference_server_selector (plain secondary) with_a both ≡ ok (some [])
read_preference_server_selector_masked_example =
    read_preference_server_selector_masked with_a both primary_a refl (inl refl) both_slow
