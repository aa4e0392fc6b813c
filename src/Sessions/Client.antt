-- ===== src/Sessions/Client.antt =====
-- lib/sessions.js: `ClientSession`, and the keys that a session puts on a command and takes from a reply.
-- A timestamp is a number; a method that throws gives a `Result`. Other keys of a command are left out.
pub mod Laws
pub mod Numbers
pub mod Starting
mod Tests
use mongodb_core.Errors.{Error, Result, ok, throw, ◌>>=◌, mongo_error, type_error, new_error}
use mongodb_core.Prelude.{
  ℕ, suc, ◌≡◌, refl, String, Bool, true, false, not, ◌&&◌, ◌||◌, Option, none, some, List, [], ◌∷◌,
  ◌==◌, ltb, if◌then◌else◌, is_some,
}
use mongodb_core.ReadPreference.{Mode, primary, ReadPreference}
use mongodb_core.Sdam.Topology.{resolve_cluster_time}
use mongodb_core.Sessions.Pool.{ServerSession, release}
use mongodb_core.Transactions.{
  TxnState, no_transaction, starting_transaction, transaction_in_progress, same_state, WriteConcern,
  ReadConcern, TransactionOptions, KeptOptions, Transaction, transaction, fresh_transaction,
  transition, active_state,
}

pub record ClientSession : Type 0 where
  pub server_session : Option ServerSession
  pub has_ended : Bool
  pub client_options : Option TransactionOptions
  pub causal_consistency : Bool
  pub cluster_time : Option ℕ
  pub operation_time : Option ℕ
  pub default_transaction_options : TransactionOptions
  pub transaction : Transaction

-- `new ClientSession(…)` on the server session that was acquired.
abbrev pub client_session :
    ServerSession → Option TransactionOptions → Bool → Option ℕ → TransactionOptions → ClientSession
client_session s client_options causal_consistency initial_cluster_time
      default_transaction_options =
    record {
      server_session = some s;
      has_ended = false;
      client_options = client_options;
      causal_consistency = causal_consistency;
      cluster_time = initial_cluster_time;
      operation_time = none;
      default_transaction_options = default_transaction_options;
      transaction = fresh_transaction;
    }

abbrev pub in_transaction : ClientSession → Bool
in_transaction c = active_state c.transaction.state

-- `assertAlive(session)` with no callback.
abbrev pub assert_alive_on : Option ServerSession → Result ServerSession
assert_alive_on none = throw (new_error mongo_error "Cannot use a session that has ended")
assert_alive_on (some s) = ok s

abbrev assert_alive : ClientSession → Result ServerSession
assert_alive c = assert_alive_on c.server_session

advance_operation_time : ℕ → ClientSession → ClientSession
advance_operation_time time c = elim c.operation_time [
  | none ↦ record c { operation_time = some time }
  | some seen ↦ if ltb seen time then record c { operation_time = some time } else c
]

abbrev or_else {ℓ} : {A : Type ℓ} → Option A → Option A → Option A
or_else (some a) b = some a
or_else none b = b

-- `Object.assign({}, clientOptions, options)`
abbrev pub assign : Option TransactionOptions → TransactionOptions → TransactionOptions
assign none o = o
assign (some c) o = record {
  write_concern = or_else o.write_concern c.write_concern;
  w = or_else o.w c.w;
  read_concern = or_else o.read_concern c.read_concern;
  read_preference = or_else o.read_preference c.read_preference;
}

abbrev pub given : Option TransactionOptions → TransactionOptions → TransactionOptions
given none d = d
given (some o) d = o

-- The session after `incrementTransactionNumber` and a failure or success of what follows.
pub record Started : Type 0 where
  pub session : ClientSession
  pub thrown : Option Error

abbrev pub begun : ClientSession → Result Transaction → Started
begun c (ok t) = record { session = record c { transaction = t }; thrown = none }
begun c (throw e) = record { session = c; thrown = some e }

-- `new Transaction(…)` and its transition.
abbrev pub starting : Option TransactionOptions → ClientSession → Result Transaction
starting options c = do
  t ← transaction (assign c.client_options (given options c.default_transaction_options))
  transition starting_transaction t

abbrev pub numbered : ServerSession → ClientSession → ClientSession
numbered s c = record c { server_session = some (record s { txn_number = suc s.txn_number }) }

abbrev pub start_idle : Bool → ServerSession → Option TransactionOptions → ClientSession → Started
start_idle true s options c = record {
  session = c;
  thrown = some (new_error mongo_error "Transaction already in progress");
}
start_idle false s options c = begun (numbered s c) (starting options c)

abbrev pub start_alive : Result ServerSession → Option TransactionOptions → ClientSession → Started
start_alive (throw e) options c = record { session = c; thrown = some e }
start_alive (ok s) options c = start_idle (in_transaction c) s options c

-- `startTransaction(options)`. The number of the transaction is used up also if the options are refused.
-- `new Transaction` throws before `this.transaction` is assigned.
unfoldable pub start_transaction : Option TransactionOptions → ClientSession → Started
unfolding transaction transition
start_transaction options c = start_alive (assert_alive c) options c

-- The names of commands that `isTransactionCommand` tells apart.
pub data CommandName : Type 0 where
  commit_transaction abort_transaction : CommandName
  other_command : String → CommandName

abbrev pub is_transaction_command : CommandName → Bool
is_transaction_command (other_command s) = false
is_transaction_command _ = true

pub record Command : Type 0 where
  pub name : CommandName
  pub lsid : Option ℕ
  pub txn_number : Option ℕ
  pub autocommit : Option Bool
  pub start_transaction : Bool
  pub read_concern : Option ReadConcern
  pub write_concern : Option WriteConcern
  pub recovery_token : Option ℕ

pub record ApplyOptions : Type 0 where
  pub will_retry_write : Bool
  pub read_preference : Option ReadPreference

-- What `applySession` leaves: the session, the command, and the error that it returns.
pub record Applied : Type 0 where
  pub session : ClientSession
  pub command : Command
  pub error : Option Error

-- `command.readConcern || {}`
abbrev concern_or_new : Option ReadConcern → ReadConcern
concern_or_new none = record { object = none; level = none; after_cluster_time = none }
concern_or_new (some r) = r

-- `Object.assign(command.readConcern || {}, { afterClusterTime })` when the session is causally consistent
-- and has seen an operation time.
abbrev pub causal : Bool → Option ℕ → Command → Command
causal true (some time) m = record m {
  read_concern = some (record (concern_or_new m.read_concern) { after_cluster_time = some time });
}
causal _ none m = m
causal false (some time) m = m

abbrev pub after_cluster_time : ClientSession → Command → Command
after_cluster_time c m = causal c.causal_consistency c.operation_time m

abbrev mode_is_primary : Mode → Bool
mode_is_primary primary = true
mode_is_primary _ = false

abbrev pub not_primary : Option ReadPreference → Bool
not_primary none = false
not_primary (some r) = not (mode_is_primary r.mode)

-- `lastUse`, `lsid` and `txnNumber`.
abbrev pub stamp_session : ℕ → ServerSession → ClientSession → ClientSession
stamp_session now s c = record c { server_session = some (record s { last_use = now }) }

abbrev pub stamp_command : Bool → ServerSession → Command → Command
stamp_command counts s m = record m {
  lsid = some s.id;
  txn_number =
      if s.txn_number == 0
      then m.txn_number
      else if counts
      then some s.txn_number
      else m.txn_number;
}

-- The branch outside a transaction: a transaction that is over is reset.
abbrev reset_state : TxnState → Transaction → Result Transaction
reset_state state t = if same_state state no_transaction then ok t else transition no_transaction t

abbrev pub outside_applied : ClientSession → Command → Result Transaction → Result Applied
outside_applied c m (throw e) = throw e
outside_applied c m (ok t) =
    ok (record { session = record c { transaction = t }; command = m; error = none })

unfoldable pub apply_outside : ClientSession → Command → Result Applied
unfolding transition
apply_outside c m =
    outside_applied c (after_cluster_time c m) (reset_state c.transaction.state c.transaction)

-- `session.transaction.options.readConcern || session.clientOptions.readConcern`; reading a property of
-- missing client options throws.
abbrev pub first_read_concern :
    Option ReadConcern → Option TransactionOptions → Result (Option ReadConcern)
first_read_concern (some r) client = ok (some r)
first_read_concern none none =
    throw (new_error type_error "Cannot read property 'readConcern' of undefined")
first_read_concern none (some o) = ok o.read_concern

abbrev pub put_read_concern : Option ReadConcern → Command → Command
put_read_concern none m = m
put_read_concern (some r) m = record m { read_concern = some r }

-- Whether two read concerns are one and the same object.
abbrev same_number : Option ℕ → Option ℕ → Bool
same_number (some a) (some b) = a == b
same_number _ _ = false

abbrev same_object : Option ReadConcern → Option ReadConcern → Bool
same_object (some r) (some q) = same_number r.object q.object
same_object _ _ = false

abbrev timed : Bool → Option ℕ → Option ReadConcern → Option ReadConcern
timed true (some time) (some r) = some (record r { after_cluster_time = some time })
timed _ _ r = r

-- `Object.assign(command.readConcern, …)` on the object that the command has from the options, as it is seen
-- by all who hold that object: the second read concern stands at some place that may hold it.
abbrev pub seen_concern :
    ClientSession → Option ReadConcern → Option ReadConcern → Option ReadConcern
seen_concern c concern held =
    if same_object concern held then timed c.causal_consistency c.operation_time held else held

abbrev seen_kept : ClientSession → Option ReadConcern → KeptOptions → KeptOptions
seen_kept c concern o = record o { read_concern = seen_concern c concern o.read_concern }

abbrev pub seen_options :
    ClientSession → Option ReadConcern → TransactionOptions → TransactionOptions
seen_options c concern o = record o { read_concern = seen_concern c concern o.read_concern }

abbrev seen_client :
    ClientSession → Option ReadConcern → Option TransactionOptions → Option TransactionOptions
seen_client c concern none = none
seen_client c concern (some o) = some (seen_options c concern o)

-- The first command of a transaction. The options of the transaction, of the client and of the session may
-- all hold the read concern that it gets.
abbrev pub first_applied :
    ClientSession → Command → Transaction → Option ReadConcern → Result Applied
first_applied c m t concern = ok (record {
  session = record c {
    transaction = record t { options = seen_kept c concern t.options };
    client_options = seen_client c concern c.client_options;
    default_transaction_options = seen_options c concern c.default_transaction_options;
  };
  command = after_cluster_time c (put_read_concern concern (record m { start_transaction = true }));
  error = none;
})

abbrev pub with_first : ClientSession → Command → Transaction → Result Applied
with_first c m t = do
  concern ← first_read_concern t.options.read_concern c.client_options
  first_applied c m t concern

abbrev pub apply_first : ClientSession → Command → Result Applied
apply_first c m = do t ← transition transaction_in_progress c.transaction; with_first c m t

unfoldable pub apply_inside : ApplyOptions → ClientSession → Command → Result Applied
unfolding transition
apply_inside o c m =
    if not_primary o.read_preference
    then ok (record {
      session = c;
      command = m;
      error = some (new_error mongo_error "Read preference in a transaction must be primary");
    })
    else if same_state c.transaction.state starting_transaction
    then apply_first c (record m { autocommit = some false })
    else ok (record { session = c; command = record m { autocommit = some false }; error = none })

abbrev pub apply_stamped : Bool → ApplyOptions → ClientSession → Command → Result Applied
apply_stamped inside o c m = if inside then apply_inside o c m else apply_outside c m

abbrev pub apply_with :
    ℕ → ApplyOptions → Option ServerSession → ClientSession → Command → Result Applied
apply_with now o none c m = ok (record {
  session = c;
  command = m;
  error = some (new_error mongo_error "Cannot use a session that has ended");
})
apply_with now o (some s) c m =
    let inside = in_transaction c || is_transaction_command m.name in
    apply_stamped inside o (stamp_session now s c)
      (stamp_command (o.will_retry_write || inside) s m)

-- `applySession(session, command, options)`
unfoldable pub apply_session : ℕ → ApplyOptions → ClientSession → Command → Result Applied
unfolding apply_inside apply_outside
apply_session now o c m = apply_with now o c.server_session c m

pub record Reply : Type 0 where
  pub cluster_time : Option ℕ
  pub operation_time : Option ℕ
  pub recovery_token : Option ℕ

abbrev see_cluster_time : (ℕ → ℕ → Bool) → Option ℕ → ClientSession → ClientSession
see_cluster_time greater_than none c = c
see_cluster_time greater_than (some time) c = record c {
  cluster_time = resolve_cluster_time greater_than c.cluster_time time;
}

abbrev see_operation_time : Option ℕ → ClientSession → ClientSession
see_operation_time none c = c
see_operation_time (some time) c = if c.causal_consistency then advance_operation_time time c else c

abbrev see_recovery_token : Option ℕ → ClientSession → ClientSession
see_recovery_token none c = c
see_recovery_token (some token) c =
    if in_transaction c
    then record c { transaction = record (c.transaction) { recovery_token = some token } }
    else c

-- `updateSessionFromResponse(session, document)`
update_session_from_response : (ℕ → ℕ → Bool) → Reply → ClientSession → ClientSession
unfolding advance_operation_time resolve_cluster_time
update_session_from_response greater_than r c =
    see_recovery_token r.recovery_token
      (see_operation_time r.operation_time (see_cluster_time greater_than r.cluster_time c))
