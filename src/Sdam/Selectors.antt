-- ===== src/Sdam/Selectors.antt =====
-- lib/sdam/server_selectors.js: the choice of servers for writes and for a read preference. Round trip
-- times and the latency threshold are integers in one unit; other times are milliseconds.
pub mod Window
pub mod Filters
pub mod Staleness
pub mod Modes
pub mod Reads
mod Tests
use mongodb_core.Errors.{Error, Result, ok, throw, ◌>>=◌, mongo_error, type_error, new_error}
use mongodb_core.Prelude.{
  ℕ, ◌+◌, ◌*◌, ◌≡◌, refl, String, Bool, true, false, not, ◌&&◌, ◌||◌, Option, none, some, List, [],
  ◌∷◌, min, ltb, leb, ◌==◌, if◌then◌else◌, str_eq, is_some, select, Dict, get,
}
use mongodb_core.Prelude.Int.{ℤ, pos, negsuc, ◌+ℤ◌, ◌-ℤ◌, leb_ℤ}
use mongodb_core.ReadPreference.{
  Mode, primary, primary_preferred, secondary, secondary_preferred, nearest, ReadPreference,
  is_valid,
}
use mongodb_core.Sdam.ServerDescription.{
  ServerDescription, is_primary, is_secondary, is_unknown, is_writable,
}
use mongodb_core.Sdam.TopologyDescription.{
  TopologyType, single, sharded, replica_set_with_primary, replica_set_no_primary,
  TopologyDescription,
}

abbrev pub idle_write_period : ℕ
idle_write_period = 10000

abbrev pub smallest_max_staleness_seconds : ℕ
smallest_max_staleness_seconds = 90

-- `Math.min` over the round trip times; `none` is the -1 that the loop starts from.
unfoldable pub lowest : List ServerDescription → Option ℕ → Option ℕ
lowest [] low = low
lowest (s ∷ ss) none = lowest ss (some s.round_trip_time)
lowest (s ∷ ss) (some low) = lowest ss (some (min s.round_trip_time low))

abbrev pub within : ℕ → ℕ → ServerDescription → Bool
within low threshold s = leb s.round_trip_time (low + threshold) && leb low s.round_trip_time

unfoldable pub latency_window_reducer : ℕ → List ServerDescription → List ServerDescription
unfolding lowest
latency_window_reducer threshold ss = elim (lowest ss none) [
  | none ↦ []
  | some low ↦ select (within low threshold) ss
]

unfoldable pub writable_server_selector :
    TopologyDescription → List ServerDescription → List ServerDescription
unfolding latency_window_reducer
writable_server_selector t ss = latency_window_reducer t.local_threshold_ms (select is_writable ss)

-- A date in arithmetic: `null` counts as zero.
abbrev pub date : Option ℕ → ℕ
date none = 0
date (some d) = d

-- `lastUpdateTime - lastWriteDate`
abbrev lag : ServerDescription → ℤ
lag s = pos s.last_update_time -ℤ pos (date s.last_write_date)

unfoldable pub staleness_ms : TopologyDescription → ServerDescription → ServerDescription → ℤ
staleness_ms t p s = lag s -ℤ lag p +ℤ pos t.heartbeat_frequency_ms

unfoldable pub staleness_ms_no_primary : TopologyDescription → ℕ → ServerDescription → ℤ
staleness_ms_no_primary t latest s =
    pos latest -ℤ pos (date s.last_write_date) +ℤ pos t.heartbeat_frequency_ms

-- The date of the server that `reduce` picks as the most recently written one.
unfoldable pub latest_write : List ServerDescription → ℕ → ℕ
latest_write [] d = d
latest_write (s ∷ ss) d =
    latest_write ss (if ltb d (date s.last_write_date) then date s.last_write_date else d)

abbrev pub first : List ServerDescription → Option ServerDescription
first [] = none
first (s ∷ ss) = some s

-- With the first primary of the list, if any.
unfoldable pub stale_with_primary :
    Option ServerDescription
    → TopologyDescription
    → ℕ
    → List ServerDescription
    → Result (List ServerDescription)
unfolding staleness_ms
stale_with_primary none t seconds [] = ok []
stale_with_primary none t seconds (s ∷ ss) =
    throw (new_error type_error "Cannot read property of undefined")
stale_with_primary (some p) t seconds ss =
    ok (select (λ s. leb_ℤ (staleness_ms t p s) (pos (1000 * seconds))) ss)

-- The reduction by the type of the topology, for a bound of so many seconds.
unfoldable pub stale_step :
    TopologyType
    → TopologyDescription
    → ℕ
    → List ServerDescription
    → Result (List ServerDescription)
unfolding stale_with_primary staleness_ms_no_primary latest_write
stale_step replica_set_with_primary t seconds ss =
    stale_with_primary (first (select (λ s. is_primary s.type) ss)) t seconds ss
stale_step replica_set_no_primary t seconds [] =
    throw (new_error type_error "Reduce of empty array with no initial value")
stale_step replica_set_no_primary t seconds (s ∷ ss) = ok (
    select
      (λ x.
        leb_ℤ (staleness_ms_no_primary t (latest_write ss (date s.last_write_date)) x)
          (pos (1000 * seconds)))
      (s ∷ ss))
stale_step _ t seconds ss = ok ss

unfoldable pub staleness_bound :
    Option ℤ → TopologyDescription → List ServerDescription → Result (List ServerDescription)
unfolding stale_step
staleness_bound none t ss = ok ss
staleness_bound (some (negsuc n)) t ss = ok ss
staleness_bound (some (pos seconds)) t ss =
    if ltb (1000 * seconds) (t.heartbeat_frequency_ms + idle_write_period)
    then throw (new_error mongo_error "maxStalenessSeconds is below the heartbeat's variance")
    else if ltb seconds smallest_max_staleness_seconds
    then throw (new_error mongo_error "maxStalenessSeconds must be at least 90 seconds")
    else stale_step t.type t seconds ss

unfoldable pub max_staleness_reducer :
    ReadPreference → TopologyDescription → List ServerDescription → Result (List ServerDescription)
unfolding staleness_bound
max_staleness_reducer r t ss = staleness_bound r.max_staleness_seconds t ss

abbrev pub tag_is : Option String → String → Bool
tag_is none v = false
tag_is (some w) v = str_eq w v

unfoldable pub tag_set_match : Dict String → Dict String → Bool
tag_set_match [] server_tags = true
tag_set_match ((k, v) ∷ tags) server_tags =
    if tag_is (get k server_tags) v then tag_set_match tags server_tags else false

-- The first tag set that some server matches decides.
unfoldable pub tag_sets_reduce :
    List (Dict String) → List ServerDescription → List ServerDescription
unfolding tag_set_match
tag_sets_reduce [] ss = []
tag_sets_reduce (tags ∷ sets) ss = elim (select (λ s. tag_set_match tags s.tags) ss) [
  | [] ↦ tag_sets_reduce sets ss
  | m ∷ ms ↦ m ∷ ms
]

unfoldable pub by_tags :
    Option (List (Dict String)) → List ServerDescription → List ServerDescription
unfolding tag_sets_reduce
by_tags none ss = ss
by_tags (some []) ss = ss
by_tags (some (tags ∷ sets)) ss = tag_sets_reduce (tags ∷ sets) ss

unfoldable pub tag_set_reducer : ReadPreference → List ServerDescription → List ServerDescription
unfolding by_tags
tag_set_reducer r ss = by_tags r.tags ss

abbrev pub primary_filter : ServerDescription → Bool
primary_filter s = is_primary s.type

abbrev pub secondary_filter : ServerDescription → Bool
secondary_filter s = is_secondary s.type

abbrev pub nearest_filter : ServerDescription → Bool
nearest_filter s = is_secondary s.type || is_primary s.type

abbrev pub known_filter : ServerDescription → Bool
known_filter s = not (is_unknown s.type)

-- The three reducers, in the order in which each mode composes them.
unfoldable pub reduce_all :
    ReadPreference → TopologyDescription → List ServerDescription → Result (List ServerDescription)
unfolding max_staleness_reducer tag_set_reducer latency_window_reducer
reduce_all r t ss = do
  fresh ← max_staleness_reducer r t ss
  ok (latency_window_reducer t.local_threshold_ms (tag_set_reducer r fresh))

abbrev pub or_primaries : List ServerDescription → List ServerDescription → List ServerDescription
or_primaries ss [] = select primary_filter ss
or_primaries ss (m ∷ ms) = m ∷ ms

-- The first branch of `primaryPreferred`, for the primaries that it found.
unfoldable pub primaries_or :
    List ServerDescription
    → ReadPreference
    → TopologyDescription
    → List ServerDescription
    → Result (Option (List ServerDescription))
unfolding reduce_all
primaries_or (m ∷ ms) r t ss = ok (some (m ∷ ms))
primaries_or [] r t ss = do reduced ← reduce_all r t ss; ok (some (select secondary_filter reduced))

-- The part of the selector that depends on the mode. A mode that none of the tests names leaves the
-- result undefined.
unfoldable pub select_by_mode :
    Mode
    → ReadPreference
    → TopologyDescription
    → List ServerDescription
    → Result (Option (List ServerDescription))
unfolding reduce_all primaries_or
select_by_mode primary r t ss = ok (some (select primary_filter ss))
select_by_mode secondary r t ss = do
  reduced ← reduce_all r t ss
  ok (some (select secondary_filter reduced))
select_by_mode nearest r t ss = do
  reduced ← reduce_all r t ss
  ok (some (select nearest_filter reduced))
select_by_mode secondary_preferred r t ss = do
  reduced ← reduce_all r t ss
  ok (some (or_primaries ss (select secondary_filter reduced)))
select_by_mode primary_preferred r t ss = primaries_or (select primary_filter ss) r t ss
select_by_mode _ r t ss = ok none

abbrev pub wire_version_too_low : Option ℕ → Option ℕ → Bool
wire_version_too_low (some common) (some least) = if common == 0 then false else ltb common least
wire_version_too_low _ none = false
wire_version_too_low none (some least) = false

abbrev pub by_known : TopologyType → Bool
by_known single = true
by_known sharded = true
by_known _ = false

-- `readPreferenceServerSelector(readPreference)(topologyDescription, servers)`
unfoldable pub read_preference_server_selector :
    ReadPreference
    → TopologyDescription
    → List ServerDescription
    → Result (Option (List ServerDescription))
unfolding select_by_mode is_valid
read_preference_server_selector r t ss =
    if is_valid r.mode
    then if wire_version_too_low t.common_wire_version r.min_wire_version
      then throw (new_error mongo_error "Minimum wire version required")
      else if by_known t.type
      then ok (some (latency_window_reducer t.local_threshold_ms (select known_filter ss)))
      else select_by_mode r.mode r t ss
    else throw (new_error type_error "Invalid read preference specified")
