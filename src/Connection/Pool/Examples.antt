-- ===== src/Connection/Pool/Examples.antt =====
-- Pools and operations for the examples of lib/connection/pool.js.
use mongodb_core.Prelude.{ℕ, true, false, none, [], ◌∷◌}
use mongodb_core.Connection.Pool.{Pool, WorkItem, Socket, Options, connected, destroyed, new_pool}

abbrev pub item : ℕ → WorkItem
item id = record {
  request_id = id;
  callback = true;
  monitoring = false;
  no_response = false;
  immediate_release = false;
  command = true;
  session = false;
  socket_timeout = none;
  compressible = true;
}

abbrev pub monitor : ℕ → WorkItem
monitor id = record (item id) { monitoring = true }

abbrev pub live_socket : Socket
live_socket = record {
  destroyed = false;
  socket_destroyed = false;
  writable = true;
  work_items = [];
  fail_handled = false;
}

abbrev busy_socket : Socket
busy_socket = record live_socket { work_items = item 1 ∷ item 2 ∷ [] }

abbrev pub options : Options
options = record {
  size = 2;
  min_size = 1;
  reconnect = true;
  reconnect_tries = 3;
  in_topology = false;
  agreed_compressor = false;
}

abbrev pub fresh : Pool
fresh = new_pool options (λ c. live_socket)

-- Two connections, one that monitors and an ordinary operation that wait.
abbrev pub waiting : Pool
waiting = record fresh {
  state = connected;
  available_connections = 7 ∷ 8 ∷ [];
  queue = monitor 3 ∷ item 4 ∷ [];
}

-- Two operations in flight on the only connection.
abbrev pub busy : Pool
busy = record fresh {
  state = connected;
  available_connections = 7 ∷ [];
  queue = item 4 ∷ [];
  store = λ c. busy_socket;
}

abbrev pub dead : Pool
dead = record fresh { state = destroyed }

-- A pool that compresses what it may.
abbrev pub compressing : Pool
compressing = record fresh { options = record options { agreed_compressor = true } }
