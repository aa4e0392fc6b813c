-- ===== src/Sdam/Selecting.antt =====
-- lib/sdam/topology.js, selectServers and selectServer: the wait for a server that fits. The loop is a
-- state that events move: a topology that has connected, a description that has changed, time that passes.
-- The clock is in milliseconds and does not go back; a timer fires when the clock is asked at or after the
-- time it was set for. What is asked of others is recorded in `requests`.

pub mod Deadline
pub mod Choices
pub mod Watched
pub mod First
pub mod Pinning
mod Tests
use mongodb_core.Errors.{Error, Result, ok, throw, mongo_timeout_error, type_error, new_error}
use mongodb_core.Prelude.{
  ℕ, zero, suc, ◌+◌, ◌-◌, ◌%◌, String, Bool, true, false, ◌&&◌, Option, none, some, List, [], ◌∷◌,
  ◌++◌, leb, if◌then◌else◌, length, is_some, Dict, get, keys, values,
}
use mongodb_core.ReadPreference.{ReadPreference}
use mongodb_core.Sdam.Selectors.{read_preference_server_selector, writable_server_selector}
use mongodb_core.Sdam.ServerDescription.{ServerDescription}
use mongodb_core.Sdam.Topology.{Topology}
use mongodb_core.Sdam.TopologyDescription.{TopologyDescription, TopologyType, sharded}
use mongodb_core.Transactions.{Transaction, is_active, pin_server}

-- A selector may throw, and may return undefined.
abbrev pub Selector : Type 0
Selector = TopologyDescription → List ServerDescription → Result (Option (List ServerDescription))

-- `writableServerSelector()` as such a selector.
abbrev pub writable : Selector
writable t ss = ok (some (writable_server_selector t ss))

abbrev pub readable : ReadPreference → Selector
readable r t ss = read_preference_server_selector r t ss

-- Without a selector every server fits.
abbrev unselective : Selector
unselective t ss = ok (some ss)

-- The topology at some moment, and the time.
pub record View : Type 0 where
  pub topology : Topology
  pub connected : Bool
  pub now : ℕ

-- A server instance is given by the description that it holds; `none` is undefined. `crashed` is an
-- exception that no callback gets.
pub data Phase : Type 0 where
  answered : Result (List (Option ServerDescription)) → Phase
  crashed : Error → Phase
  awaits_connect : ℕ → Phase
  awaits_change : ℕ → ℕ → Phase

pub data Request : Type 0 where
  connects : Request
  monitors : String → Request

pub record Selecting : Type 0 where
  pub phase : Phase
  pub requests : List Request

-- The events that a selection listens to.
pub data Moment : Type 0 where
  topology_connected : View → Moment
  description_changed : View → Moment
  time_passes : ℕ → Moment

-- The messages are without the number of milliseconds.
abbrev pub timed_out : Error
timed_out = new_error mongo_timeout_error "Server selection timed out"

abbrev pub timed_out_connecting : Error
timed_out_connecting = new_error mongo_timeout_error "Server selection timed out waiting to connect"

abbrev undefined_length : Error
undefined_length = new_error type_error "Cannot read property 'length' of undefined"

-- `topology.s.servers.get(description.address)` for each description.
abbrev pub instances :
    Dict ServerDescription → List ServerDescription → List (Option ServerDescription)
instances m [] = []
instances m (s ∷ ss) = get s.address m ∷ instances m ss

-- `server.monitor(…)` soon, for each server.
abbrev monitor_all : List String → List Request
monitor_all [] = []
monitor_all (k ∷ ks) = monitors k ∷ monitor_all ks

abbrev settled_as : Phase → List Request → Selecting
settled_as phase requests = record { phase = phase; requests = requests }

-- `setTimeout(…, timeout - duration)` fires at this time.
abbrev pub timer : ℕ → ℕ → ℕ → ℕ
timer timeout start now = now + (timeout - (now - start))

-- The end of an attempt, by what the selector returned.
abbrev pub by_descriptions :
    ℕ → ℕ → View → List Request → Result (Option (List ServerDescription)) → Selecting
by_descriptions timeout start v rs (throw e) = settled_as (answered (throw e)) rs
by_descriptions timeout start v rs (ok none) = settled_as (crashed undefined_length) rs
by_descriptions timeout start v rs (ok (some [])) =
    settled_as (awaits_change start (timer timeout start v.now))
      (rs ++ monitor_all (keys v.topology.servers))
by_descriptions timeout start v rs (ok (some (s ∷ ss))) =
    settled_as (answered (ok (instances v.topology.servers (s ∷ ss)))) rs

-- `selectServers(topology, selector, timeout, start, callback)`
unfoldable pub select_servers : Selector → ℕ → ℕ → View → List Request → Selecting
select_servers selector timeout start v rs =
    if leb timeout (v.now - start)
    then settled_as (answered (throw timed_out)) rs
    else if v.connected
    then by_descriptions timeout start v rs
        (selector v.topology.description (values v.topology.description.servers))
    else settled_as (awaits_connect (timer timeout start v.now)) (rs ++ (connects ∷ []))

-- `descriptionChangedHandler()`
unfoldable pub description_changed_handler :
    Selector → ℕ → ℕ → View → List Request → Option Error → Selecting
unfolding select_servers
description_changed_handler selector timeout start v rs (some e) =
    settled_as (answered (throw e)) rs
description_changed_handler selector timeout start v rs none =
    select_servers selector timeout start v rs

abbrev pub fires : ℕ → ℕ → Error → Phase → Phase
fires due now e phase = if leb due now then answered (throw e) else phase

-- Who no longer waits does not listen.
unfoldable pub step_from : Selector → ℕ → Phase → List Request → Moment → Selecting
unfolding description_changed_handler select_servers
step_from selector timeout (awaits_connect due) rs (topology_connected v) =
    select_servers selector timeout v.now v rs
step_from selector timeout (awaits_connect due) rs (time_passes now) =
    settled_as (fires due now timed_out_connecting (awaits_connect due)) rs
step_from selector timeout (awaits_change start due) rs (description_changed v) =
    description_changed_handler selector timeout start v rs v.topology.description.error
step_from selector timeout (awaits_change start due) rs (time_passes now) =
    settled_as (fires due now timed_out (awaits_change start due)) rs
step_from selector timeout phase rs moment = settled_as phase rs

unfoldable pub step : Selector → ℕ → Selecting → Moment → Selecting
unfolding step_from
step selector timeout s moment = step_from selector timeout s.phase s.requests moment

unfoldable pub run : Selector → ℕ → List Moment → Selecting → Selecting
unfolding step
run selector timeout [] s = s
run selector timeout (m ∷ ms) s = run selector timeout ms (step selector timeout s m)

-- `selectServers(…, process.hrtime(), …)`
unfoldable pub start_selection : Selector → ℕ → View → Selecting
unfolding select_servers
start_selection selector timeout v = select_servers selector timeout v.now v []

abbrev pub element : ℕ → List (Option ServerDescription) → Option ServerDescription
element i [] = none
element zero (s ∷ ss) = s
element (suc i) (s ∷ ss) = element i ss

-- `randomSelection(array)`: any number gives an index.
abbrev pub random_selection : ℕ → List (Option ServerDescription) → Option ServerDescription
random_selection random ss = element (random % length ss) ss

abbrev pub address_of : Option ServerDescription → Option String
address_of none = none
address_of (some s) = some s.address

abbrev is_sharded : TopologyType → Bool
is_sharded sharded = true
is_sharded _ = false

-- The server to which the transaction is pinned is returned at once.
unfoldable pub pinned_choice : Bool → Option Transaction → Option String
pinned_choice true (some t) = t.pinned_server
pinned_choice _ _ = none

abbrev pin_chosen : Option String → Transaction → Transaction
pin_chosen none t = if is_active t then record t { pinned_server = none } else t
pin_chosen (some server) t = pin_server server t

abbrev pub pinned_to : Bool → Option String → Option Transaction → Option Transaction
pinned_to true server (some t) = some (if is_active t then pin_chosen server t else t)
pinned_to _ server t = t

-- What `selectServer` does with the servers found: the address of the one that is given to the callback,
-- and the transaction.
unfoldable pub choose_server :
    ℕ
    → Bool
    → Option Transaction
    → Result (List (Option ServerDescription))
    → Result (Option String) × Option Transaction
unfolding pin_server
choose_server random in_shards t (throw e) = (throw e, t)
choose_server random in_shards t (ok ss) =
    let server = address_of (random_selection random ss) in
    (ok server, pinned_to in_shards server t)
