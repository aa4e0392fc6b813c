-- ===== src/Connection/Pool.antt =====
-- lib/connection/pool.js: the state of the pool and the helpers of its operations. Connections are objects
-- that several lists share: they are named by numbers and stand in a store. What the pool does to others
-- (callbacks, emitted events, writes, timers, attempts to connect) is recorded in `log`, in order; a
-- callback does not call the pool back before the operation has ended. `closed` stands where `destroy`
-- calls its callback, if it has one; a timer that is cleared is not recorded, since it finds the pool
-- destroyed.
pub mod Execute
pub mod Events
pub mod Closing
pub mod Messages
pub mod History
pub mod Examples
use mongodb_core.Prelude.{
  ℕ, zero, suc, ◌+◌, Bool, true, false, not, ◌&&◌, ◌||◌, Option, none, some, List, [], ◌∷◌, ◌++◌,
  ◌==◌, if◌then◌else◌, length, any,
}
use mongodb_core.Prelude.Int.{ℤ, pos, negsuc, ◌+ℤ◌, ◌-ℤ◌}

pub data PoolState : Type 0 where
  disconnected connecting connected destroying destroyed : PoolState

abbrev number_of : PoolState → ℕ
number_of disconnected = 0
number_of connecting = 1
number_of connected = 2
number_of destroying = 3
number_of destroyed = 4

abbrev pub same_state : PoolState → PoolState → Bool
same_state a b = number_of a == number_of b

-- `state === DESTROYED || state === DESTROYING`
abbrev pub dying : PoolState → Bool
dying destroying = true
dying destroyed = true
dying _ = false

-- An operation; `callback` says whether there is a function to call, `compressible` what `canCompress` says of
-- its command.
pub record WorkItem : Type 0 where
  pub request_id : ℕ
  pub callback : Bool
  pub monitoring : Bool
  pub no_response : Bool
  pub immediate_release : Bool
  pub command : Bool
  pub session : Bool
  pub socket_timeout : Option ℕ
  pub compressible : Bool

pub record Socket : Type 0 where
  pub destroyed : Bool
  pub socket_destroyed : Bool
  pub writable : Bool
  pub work_items : List WorkItem
  pub fail_handled : Bool

pub data Answer : Type 0 where
  pool_destroyed force_destroyed no_connection_for_monitoring : Answer
  connection_failed unparsable write_concern_failed command_failed result nothing : Answer

pub data PoolEvent : Type 0 where
  close error timeout parse_error connect reconnect attempt_reconnect reconnect_failed : PoolEvent

-- What an attempt to connect is for.
pub data Purpose : Type 0 where
  first_connection one_more reconnection : Purpose

pub data Effect : Type 0 where
  called : WorkItem → Answer → Effect
  written : ℕ → WorkItem → Effect
  emitted : PoolEvent → Effect
  state_changed : PoolState → PoolState → Effect
  illegal_transition : PoolState → PoolState → Effect
  connection_attempt : Purpose → Effect
  connection_destroyed : ℕ → Bool → Effect
  execute_later reconnect_later check_later : Effect
  compresses : WorkItem → Effect
  closed : Effect
  session_updated : WorkItem → Effect
  timeout_set : ℕ → ℕ → Effect
  timeout_reset : ℕ → Effect

pub record Options : Type 0 where
  pub size : ℕ
  pub min_size : ℕ
  pub reconnect : Bool
  pub reconnect_tries : ℕ
  pub in_topology : Bool
  pub agreed_compressor : Bool

-- `closing` counts the connections whose end `destroy` awaits.
pub record Pool : Type 0 where
  pub options : Options
  pub retries_left : ℤ
  pub reconnect_id : Bool
  pub state : PoolState
  pub available_connections : List ℕ
  pub in_use_connections : List ℕ
  pub connecting_connections : ℤ
  pub executing : Bool
  pub queue : List WorkItem
  pub consecutive_timeouts : ℕ
  pub connection_index : ℕ
  pub cluster_time : Option ℕ
  pub closing : ℕ
  pub store : ℕ → Socket
  pub log : List Effect

-- `new Pool(topology, options)`
abbrev pub new_pool : Options → (ℕ → Socket) → Pool
new_pool o store = record {
  options = o;
  retries_left = pos o.reconnect_tries;
  reconnect_id = false;
  state = disconnected;
  available_connections = [];
  in_use_connections = [];
  connecting_connections = pos 0;
  executing = false;
  queue = [];
  consecutive_timeouts = 0;
  connection_index = 0;
  cluster_time = none;
  closing = 0;
  store = store;
  log = [];
}

abbrev pub did : Effect → Pool → Pool
did e p = record p { log = p.log ++ (e ∷ []) }

abbrev pub update : (ℕ → Socket) → ℕ → Socket → ℕ → Socket
update store c s d = if d == c then s else store d

-- The table `legalTransitions`.
abbrev pub legal_states : PoolState → List PoolState
legal_states disconnected = connecting ∷ destroying ∷ disconnected ∷ []
legal_states connecting = connecting ∷ destroying ∷ connected ∷ disconnected ∷ []
legal_states connected = connected ∷ disconnected ∷ destroying ∷ []
legal_states destroying = destroying ∷ destroyed ∷ []
legal_states destroyed = destroyed ∷ []

abbrev pub transition_if : Bool → PoolState → Pool → Pool
transition_if true new p = record (did (state_changed p.state new) p) { state = new }
transition_if false new p = did (illegal_transition p.state new) p

-- `stateTransition(self, newState)`
unfoldable pub state_transition : PoolState → Pool → Pool
state_transition new p = transition_if (any (same_state new) (legal_states p.state)) new p

-- `connection.isConnected()`
abbrev pub is_connected : Socket → Bool
is_connected s = if s.destroyed then false else not s.socket_destroyed && s.writable

unfoldable pub socket_count : Pool → ℕ
socket_count p = length p.available_connections + length p.in_use_connections

unfoldable pub total_connection_count : Pool → ℤ
total_connection_count p =
    pos (length p.available_connections + length p.in_use_connections) +ℤ p.connecting_connections

abbrev pub all_connections : Pool → List ℕ
all_connections p = p.available_connections ++ p.in_use_connections

-- `pool.isConnected()`
unfoldable pub pool_is_connected : Pool → Bool
pool_is_connected p =
    if dying p.state then false else any (λ c. is_connected (p.store c)) (all_connections p)

abbrev pool_is_destroyed : Pool → Bool
pool_is_destroyed p = dying p.state

abbrev pub has : ℕ → List ℕ → Bool
has c [] = false
has c (d ∷ ds) = d == c || has c ds

-- The first occurrence leaves the list.
abbrev pub without : ℕ → List ℕ → List ℕ
without c [] = []
without c (d ∷ ds) = if d == c then ds else d ∷ without c ds

-- `removeConnection(self, connection)`
unfoldable pub remove_connection : ℕ → Pool → Pool
remove_connection c p =
    if has c p.available_connections
    then record p { available_connections = without c p.available_connections }
    else record p { in_use_connections = without c p.in_use_connections }

-- `moveConnectionBetween`, from the available connections to those in use and back.
unfoldable pub take_connection : ℕ → Pool → Pool
take_connection c p =
    if has c p.available_connections
    then record p {
      available_connections = without c p.available_connections;
      in_use_connections = p.in_use_connections ++ (c ∷ []);
    }
    else p

unfoldable pub give_back_connection : ℕ → Pool → Pool
give_back_connection c p =
    if has c p.in_use_connections
    then record p {
      in_use_connections = without c p.in_use_connections;
      available_connections = p.available_connections ++ (c ∷ []);
    }
    else p

-- `flushMonitoringOperations(queue)`: after a removal the loop goes on at the next place, so that the item
-- that has moved up is passed over.
pub record Flushed : Type 0 where
  pub kept : List WorkItem
  pub out : List WorkItem

abbrev kept_first : WorkItem → Flushed → Flushed
kept_first w r = record r { kept = w ∷ r.kept }

abbrev out_first : WorkItem → Flushed → Flushed
out_first w r = record r { out = w ∷ r.out }

unfoldable pub flush : List WorkItem → Flushed
flush [] = record { kept = []; out = [] }
flush (w ∷ []) =
    if w.monitoring then record { kept = []; out = w ∷ [] } else record { kept = w ∷ []; out = [] }
flush (w ∷ v ∷ queue) =
    let passed = out_first w (kept_first v (flush queue)) in
    let stays = kept_first w (flush (v ∷ queue)) in if w.monitoring then passed else stays

abbrev pub with_callback : List WorkItem → List WorkItem
with_callback [] = []
with_callback (w ∷ ws) = if w.callback then w ∷ with_callback ws else with_callback ws

abbrev pub calls : List WorkItem → Answer → List Effect
calls [] a = []
calls (w ∷ ws) a = called w a ∷ calls ws a

unfoldable pub flush_monitoring_operations : Pool → Pool
unfolding flush
flush_monitoring_operations p = record p {
  queue = (flush p.queue).kept;
  log = p.log ++ calls (flush p.queue).out no_connection_for_monitoring;
}

-- `self.connectingConnections++` and the call of `connect`.
abbrev pub attempt : Purpose → Pool → Pool
attempt why p =
    did (connection_attempt why)
      (record p { connecting_connections = p.connecting_connections +ℤ pos 1 })

-- `_createConnection(self)`
unfoldable pub create_connection : Pool → Pool
create_connection p = if dying p.state then p else attempt one_more p
