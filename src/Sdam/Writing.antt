-- ===== src/Sdam/Writing.antt =====
-- lib/sdam/topology.js, command and executeWriteOperation: operations that are sent to a server, and writes
-- that are tried again once; isRetryableWritesSupported of lib/topologies/shared.js. The selection of a
-- server and the reply of each attempt are arguments, by the flag `retrying`.

pub mod Retries
mod Tests
use mongodb_core.Errors.{Error, Result, ok, throw, type_error, new_error, is_retryable_error}
use mongodb_core.Prelude.{
  ℕ, zero, suc, String, Bool, true, false, not, ◌&&◌, ◌||◌, Option, none, some, List, [], ◌∷◌, ◌++◌,
  any, contains, ltb, ◌==◌, if◌then◌else◌, select, values, is_some,
}
use mongodb_core.Sdam.ServerDescription.{ServerDescription, is_unknown}
use mongodb_core.Sdam.TopologyDescription.{TopologyDescription, TopologyType, single}
use mongodb_core.Sessions.Client.{
  ClientSession, in_transaction, numbered, Command, other_command, stamp_command,
}
use mongodb_core.Sessions.Pool.{ServerSession}

abbrev retryable_wire_version : ℕ
retryable_wire_version = 6

-- `undefined < n` does not hold, `null < n` is `0 < n`.
abbrev common_too_old : Option ℕ → Bool
common_too_old none = true
common_too_old (some v) = ltb v retryable_wire_version

abbrev known_too_old : List ServerDescription → Option ℕ → Bool
known_too_old [] common = common_too_old common
known_too_old (s ∷ ss) common = ltb s.max_wire_version retryable_wire_version

-- `topology.lastIsMaster().maxWireVersion < RETRYABLE_WIRE_VERSION`
unfoldable pub too_old : List ServerDescription → Option ℕ → Bool
too_old [] common = false
too_old (s ∷ ss) common = known_too_old (select (λ x. not (is_unknown x.type)) (s ∷ ss)) common

abbrev no_timeout : Option ℕ → Bool
no_timeout none = true
no_timeout (some t) = t == 0

abbrev is_single : TopologyType → Bool
is_single single = true
is_single _ = false

-- `isRetryableWritesSupported(topology)`
is_retryable_writes_supported : TopologyDescription → Bool
unfolding too_old
is_retryable_writes_supported t =
    if too_old (values t.servers) t.common_wire_version
    then false
    else if no_timeout t.logical_session_timeout_minutes
    then false
    else not (is_single t.type)

abbrev retryable_write_operations : List String
retryable_write_operations = "findAndModify" ∷ "insert" ∷ "update" ∷ "delete" ∷ []

-- `isWriteCommand(command)`, by the keys of the command that have a true value.
is_write_command : List String → Bool
is_write_command keys = any (contains keys) retryable_write_operations

-- `command`, with those keys, or one of `insert`, `update` and `remove`.
pub data Operation : Type 0 where
  command : List String → Operation
  write_operation : Operation

-- What others do at each attempt: the description when the call is made and when a server is selected, the
-- selection, and the reply, which is an error or none.
pub record Environment : Type 0 where
  pub asked : Bool → TopologyDescription
  pub chosen : Bool → TopologyDescription
  pub selected : Bool → Result String
  pub replied : Bool → Option Error

-- The options; `will_retry_write` is what an earlier attempt has left on them.
pub record WriteOptions : Type 0 where
  pub retry_writes : Bool
  pub will_retry_write : Bool
  pub session : Option ClientSession

pub data Outcome : Type 0 where
  succeeded : Outcome
  failed : Error → Outcome
  crashed : Error → Outcome

-- A command that is sent, with the transaction number that it carries.
pub record Sent : Type 0 where
  pub server : String
  pub txn_number : Option ℕ

pub record Written : Type 0 where
  pub options : WriteOptions
  pub sent : List Sent
  pub outcome : Outcome

abbrev pub server_number : Option ServerSession → Option ℕ
server_number none = none
server_number (some s) = some s.txn_number

abbrev pub number : Option ClientSession → Option ℕ
number none = none
number (some c) = server_number c.server_session

abbrev outside_transaction : Option ClientSession → Bool
outside_transaction none = false
outside_transaction (some c) = not (in_transaction c)

abbrev description_for : Operation → Environment → Bool → TopologyDescription
description_for (command keys) env retrying = env.chosen retrying
description_for write_operation env retrying = env.asked retrying

abbrev is_write : Operation → Bool
is_write (command keys) = is_write_command keys
is_write write_operation = true

-- `willRetryWrite`
unfoldable pub may_retry : Operation → Environment → Bool → WriteOptions → Bool
unfolding is_retryable_writes_supported is_write_command
may_retry operation env retrying o =
    not retrying
    && o.retry_writes
    && outside_transaction o.session
    && is_retryable_writes_supported (description_for operation env retrying)
    && is_write operation

-- `options.session.incrementTransactionNumber()` and `options.willRetryWrite = willRetryWrite`
abbrev pub marked_with : Option ServerSession → ClientSession → WriteOptions → Result WriteOptions
marked_with none c o = throw (new_error type_error "Cannot read property 'txnNumber' of null")
marked_with (some s) c o = ok (record o { will_retry_write = true; session = some (numbered s c) })

abbrev pub marked_on : Option ClientSession → WriteOptions → Result WriteOptions
marked_on none o = ok o
marked_on (some c) o = marked_with c.server_session c o

abbrev pub ended : WriteOptions → List Sent → Outcome → Option Written
ended o sent outcome = some (record { options = o; sent = sent; outcome = outcome })

-- The handler of the reply; `again` is the second call.
abbrev pub on_reply :
    Option Error → Bool → Option Written → WriteOptions → List Sent → Option Written
on_reply none retry again o sent = ended o sent succeeded
on_reply (some e) retry again o sent =
    if is_retryable_error e
    then (if retry then again else ended o sent (failed e))
    else ended o sent (failed e)

-- `isTransactionCommand(command)`; only the second kind of operation has keys.
abbrev pub is_ending : Operation → Bool
is_ending (command keys) = contains keys "commitTransaction" || contains keys "abortTransaction"
is_ending write_operation = false

abbrev unstamped : Command
unstamped = record {
  name = other_command "";
  lsid = none;
  txn_number = none;
  autocommit = none;
  start_transaction = false;
  read_concern = none;
  write_concern = none;
  recovery_token = none;
}

abbrev pub carried_by : Bool → Option ServerSession → Option ℕ
carried_by counts none = none
carried_by counts (some s) = (stamp_command counts s unstamped).txn_number

-- The number that `applySession` puts on the command, by the options that reach it.
abbrev pub carried : Operation → WriteOptions → Option ℕ
carried operation o = elim o.session [
  | none ↦ none
  | some c ↦
      carried_by (o.will_retry_write || (in_transaction c || is_ending operation)) c.server_session
]

abbrev pub sending : Operation → String → WriteOptions → List Sent → List Sent
sending operation server o sent =
    sent ++ (record { server = server; txn_number = carried operation o } ∷ [])

abbrev when_marked : Bool → WriteOptions → Result WriteOptions
when_marked true o = marked_on o.session o
when_marked false o = ok o

-- What a second call does.
abbrev pub Again : Type 0
Again = WriteOptions → List Sent → Option Written

-- The command is sent; an exception of `incrementTransactionNumber` reaches no callback.
unfoldable pub send_marked :
    Operation
    → Again
    → Option Error
    → String
    → Bool
    → WriteOptions
    → List Sent
    → Result WriteOptions
    → Option Written
send_marked operation again reply server retry o sent (throw e) = ended o sent (crashed e)
send_marked operation again reply server retry o sent (ok p) =
    on_reply reply retry (again p (sending operation server p sent)) p
      (sending operation server p sent)

unfoldable pub on_selected :
    Operation
    → Again
    → Option Error
    → Bool
    → Result String
    → WriteOptions
    → List Sent
    → Option Written
unfolding send_marked
on_selected operation again reply retry (throw e) o sent = ended o sent (failed e)
on_selected operation again reply retry (ok server) o sent =
    send_marked operation again reply server retry o sent (when_marked retry o)

-- One call on fuel; `none` means that the fuel ran out.
unfoldable pub attempt :
    ℕ → Operation → Environment → Bool → WriteOptions → List Sent → Option Written
unfolding may_retry on_selected
attempt zero operation env retrying o sent = none
attempt (suc fuel) operation env retrying o sent =
    on_selected operation (attempt fuel operation env true) (env.replied retrying)
      (may_retry operation env retrying o) (env.selected retrying) o sent

-- The call of a user: two attempts at most.
unfoldable pub perform : Operation → Environment → WriteOptions → Option Written
unfolding attempt
perform operation env o = attempt 2 operation env false o []
