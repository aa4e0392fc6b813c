-- ===== src/Sessions/Ending.antt =====
-- lib/sessions.js: `endTransaction`, its command handler, and `endSession`. The two replies to the command
-- and its retry are arguments; nothing else happens to the session between them.
pub mod States
pub mod Labels
pub mod Closing
pub mod Final
mod Tests
use mongodb_core.Errors.{
  Error, Result, ok, throw, ◌>>=◌, mongo_error, type_error, new_error, is_network_error,
  is_write_concern_error, is_retryable_error,
}
use mongodb_core.Prelude.{
  ℕ, ◌≡◌, refl, String, Bool, true, false, not, ◌&&◌, ◌||◌, Option, none, some, List, [], ◌∷◌, ◌++◌,
  ◌==◌, arith, if◌then◌else◌, str_eq, contains, is_some,
}
use mongodb_core.Prelude.Int.{ℤ, pos, negsuc}
use mongodb_core.Sessions.Client.{
  ClientSession, CommandName, commit_transaction, abort_transaction, Command, assert_alive_on,
  in_transaction,
}
use mongodb_core.Sessions.Pool.{ServerSession, release}
use mongodb_core.Transactions.{
  TxnState, no_transaction, starting_transaction, transaction_in_progress, transaction_committed,
  transaction_committed_empty, transaction_aborted, same_state, W, w_number, w_mode, WriteConcern,
  TransactionOptions, Transaction, transition, unpin_server,
}

pub data EndName : Type 0 where
  commit abort : EndName

abbrev command_name : EndName → CommandName
command_name commit = commit_transaction
command_name abort = abort_transaction

-- The callback is called with an error or none, or the command is sent.
pub data Opened : Type 0 where
  called : ClientSession → Option Error → Opened
  sent : Command → Opened

abbrev pub moved : ClientSession → Result Transaction → Result Opened
moved c (ok t) = ok (called (record c { transaction = t }) none)
moved c (throw e) = throw e

abbrev pub failed : ClientSession → String → Result Opened
failed c message = ok (called c (some (new_error mongo_error message)))

abbrev pub majority : W
majority = w_mode "majority"

-- `Object.assign({ wtimeout: 10000 }, writeConcern, { w: 'majority' })`
abbrev wtimeout_of : Option ℕ → Option ℕ
wtimeout_of none = some 10000
wtimeout_of (some t) = some t

abbrev with_majority : Option WriteConcern → WriteConcern
with_majority none = record { w = some majority; j = none; wtimeout = some 10000 }
with_majority (some c) = record { w = some majority; j = c.j; wtimeout = wtimeout_of c.wtimeout }

abbrev truthy_w : Option W → Option WriteConcern
truthy_w none = none
truthy_w (some (w_number (pos n))) =
    if n == 0
    then none
    else some (record { w = some (w_number (pos n)); j = none; wtimeout = none })
truthy_w (some (w_number (negsuc n))) =
    some (record { w = some (w_number (negsuc n)); j = none; wtimeout = none })
truthy_w (some (w_mode m)) =
    if str_eq m "" then none else some (record { w = some (w_mode m); j = none; wtimeout = none })

abbrev client_concern : Option TransactionOptions → Option WriteConcern
client_concern none = none
client_concern (some o) = truthy_w o.w

abbrev first_concern : Option WriteConcern → Option WriteConcern → Option WriteConcern
first_concern (some c) d = some c
first_concern none d = d

abbrev concern_for : TxnState → Option WriteConcern → Option WriteConcern
concern_for transaction_committed c = some (with_majority c)
concern_for _ c = c

-- The command that is sent in a state.
unfoldable pub end_command : EndName → Bool → TxnState → ClientSession → Command
end_command name supports_recovery_token state c = record {
  name = command_name name;
  lsid = none;
  txn_number = none;
  autocommit = none;
  start_transaction = false;
  read_concern = none;
  write_concern =
      concern_for state
        (first_concern c.transaction.options.write_concern (client_concern c.client_options));
  recovery_token = if supports_recovery_token then c.transaction.recovery_token else none;
}

-- The branches before a command is sent, by the state.
unfoldable pub open_in : EndName → Bool → TxnState → ClientSession → Result Opened
unfolding end_command transition
open_in name supports no_transaction c = failed c "No transaction started"
open_in commit supports starting_transaction c =
    moved c (transition transaction_committed_empty c.transaction)
open_in commit supports transaction_committed_empty c =
    moved c (transition transaction_committed_empty c.transaction)
open_in commit supports transaction_aborted c =
    failed c "Cannot call commitTransaction after calling abortTransaction"
open_in abort supports starting_transaction c =
    moved c (transition transaction_aborted c.transaction)
open_in abort supports transaction_aborted c = failed c "Cannot call abortTransaction twice"
open_in abort supports transaction_committed c =
    failed c "Cannot call abortTransaction after calling commitTransaction"
open_in abort supports transaction_committed_empty c =
    failed c "Cannot call abortTransaction after calling commitTransaction"
open_in name supports state c = ok (sent (end_command name supports state c))

abbrev pub open_alive : Result ServerSession → EndName → Bool → ClientSession → Result Opened
open_alive (throw e) name supports c = ok (called c (some e))
open_alive (ok s) name supports c = open_in name supports c.transaction.state c

-- `endTransaction` until the command is sent.
unfoldable pub open_end : EndName → Bool → ClientSession → Result Opened
unfolding open_in
open_end name supports c = open_alive (assert_alive_on c.server_session) name supports c

abbrev pub transient : String
transient = "TransientTransactionError"

abbrev pub unknown_result : String
unknown_result = "UnknownTransactionCommitResult"

-- `indexOf` and `splice`: the first occurrence goes.
unfoldable pub remove_first : String → List String → List String
remove_first label [] = []
remove_first label (l ∷ labels) = if str_eq l label then labels else l ∷ remove_first label labels

abbrev pub labels_left : Option (List String) → List String
labels_left none = []
labels_left (some labels) = remove_first transient labels

abbrev nondeterministic : Option String → Bool
nondeterministic none = false
nondeterministic (some name) =
    contains
      ("CannotSatisfyWriteConcern" ∷ "UnknownReplWriteConcern" ∷ "UnsatisfiableWriteConcern" ∷ [])
      name

abbrev code_is : ℕ → Option ℕ → Bool
code_is n none = false
code_is n (some c) = c == n

unfoldable pub is_unknown_transaction_commit_result : Error → Bool
is_unknown_transaction_commit_result e =
    not (nondeterministic e.code_name) && (not (code_is 100 e.code) && not (code_is 79 e.code))

abbrev pub may_be_lost : Error → Bool
may_be_lost e = is_network_error e.class || is_write_concern_error e.class || is_retryable_error e

-- The session and the error that the callback gets.
pub record Handled : Type 0 where
  pub session : ClientSession
  pub error : Option Error

abbrev unpinned : ClientSession → ClientSession
unpinned c = record c { transaction = unpin_server c.transaction }

-- The labels of an error of a commit, and the server that it may unpin, by the two tests.
unfoldable pub relabel_if : Bool → Bool → Error → ClientSession → Handled
unfolding remove_first unpin_server
relabel_if false unknown e c = record { session = c; error = some e }
relabel_if true true e c = record {
  session = unpinned c;
  error =
      some (record e { error_labels = some (labels_left e.error_labels ++ unknown_result ∷ []) });
}
relabel_if true false e c = record {
  session = c;
  error = some (record e { error_labels = some (labels_left e.error_labels) });
}

unfoldable pub relabel : Error → ClientSession → Handled
unfolding is_unknown_transaction_commit_result relabel_if is_retryable_error
relabel e c = relabel_if (may_be_lost e) (is_unknown_transaction_commit_result e) e c

abbrev pub labelled_reply : Option Error → ClientSession → Handled
labelled_reply none c = record { session = c; error = none }
labelled_reply (some e) c = relabel e c

abbrev pub handled : EndName → Option Error → ClientSession → Result Transaction → Result Handled
handled name e c (throw d) = throw d
handled commit e c (ok t) = ok (labelled_reply e (record c { transaction = t }))
handled abort e c (ok t) = ok (record { session = record c { transaction = t }; error = e })

abbrev pub ended_state : EndName → TxnState
ended_state commit = transaction_committed
ended_state abort = transaction_aborted

-- `commandHandler(e, r)`
unfoldable pub command_handler : EndName → Option Error → ClientSession → Result Handled
unfolding relabel transition
command_handler name e c = handled name e c (transition (ended_state name) c.transaction)

-- `transactionError(err)`
abbrev transaction_error : EndName → Option Error → Option Error
transaction_error commit e = e
transaction_error abort e = none

-- Before the retry of a command that failed.
abbrev retry_session : EndName → ClientSession → ClientSession
retry_session commit c = unpinned c
retry_session abort c = c

abbrev retry_command : EndName → Command → Command
retry_command commit m = record m { write_concern = some (with_majority m.write_concern) }
retry_command abort m = m

abbrev pub is_retried : Option Error → Bool
is_retried none = false
is_retried (some e) = is_retryable_error e

unfoldable pub reply_if :
    Bool → EndName → Option Error → Option Error → ClientSession → Result Handled
unfolding command_handler unpin_server
reply_if true name first second c =
    command_handler name (transaction_error name second) (retry_session name c)
reply_if false name first second c = command_handler name (transaction_error name first) c

-- The callback of the first command, given the reply to the retry that it may send.
unfoldable pub on_reply : EndName → Option Error → Option Error → ClientSession → Result Handled
unfolding reply_if
on_reply name first second c = reply_if (is_retried first) name first second c

-- What `endTransaction` comes to: the session, the error of the callback, and the commands that were sent.
pub record Ended : Type 0 where
  pub session : ClientSession
  pub error : Option Error
  pub commands : List Command

abbrev pub sent_commands : EndName → Option Error → Command → List Command
sent_commands name first m = if is_retried first then m ∷ retry_command name m ∷ [] else m ∷ []

abbrev pub with_commands : List Command → Result Handled → Result Ended
with_commands ms (throw e) = throw e
with_commands ms (ok h) = ok (record { session = h.session; error = h.error; commands = ms })

abbrev pub after_open :
    EndName → Option Error → Option Error → ClientSession → Opened → Result Ended
after_open name first second c (called c' e) =
    ok (record { session = c'; error = e; commands = [] })
after_open name first second c (sent m) =
    with_commands (sent_commands name first m) (on_reply name first second c)

-- `endTransaction(session, commandName, callback)`
unfoldable pub end_transaction :
    EndName → Bool → Option Error → Option Error → ClientSession → Result Ended
unfolding open_end on_reply
end_transaction name supports first second c = do
  opened ← open_end name supports c
  after_open name first second c opened

-- What `endSession` leaves: the session, the pool, and the command of an abort.
pub record Closed : Type 0 where
  pub session : ClientSession
  pub pool : List ServerSession
  pub command : Option Command

abbrev pub close_on :
    Option ServerSession
    → ℕ
    → Option ℕ
    → List ServerSession
    → ClientSession
    → Option Command
    → Result Closed
close_on none now timeout pool c m =
    throw (new_error type_error "Cannot read property 'hasTimedOut' of null")
close_on (some s) now timeout pool c m = ok (record {
  session = record c { has_ended = true; server_session = none };
  pool = release now timeout s pool;
  command = m;
})

abbrev pub close_with :
    ℕ → Option ℕ → List ServerSession → ClientSession → Option Command → Result Closed
close_with now timeout pool c m = close_on c.server_session now timeout pool c m

-- `applySession` on the command of an abort: it is reached before the session ends if a server is selected at
-- once, and sets `lastUse`.
abbrev pub refreshed : Bool → ℕ → ServerSession → ServerSession
refreshed false now s = s
refreshed true now s = record s { last_use = now }

abbrev pub touched : Bool → ℕ → Option ServerSession → Option ServerSession
touched at_once now none = none
touched at_once now (some s) = some (refreshed at_once now s)

abbrev pub close_opened :
    Bool → ℕ → Option ℕ → List ServerSession → ClientSession → Opened → Result Closed
close_opened at_once now timeout pool c (called c' e) = close_with now timeout pool c' none
close_opened at_once now timeout pool c (sent m) =
    close_on (touched at_once now c.server_session) now timeout pool c (some m)

-- The branch that aborts, and the other.
unfoldable pub close_if :
    Bool → Bool → ℕ → Option ℕ → Bool → List ServerSession → ClientSession → Result Closed
unfolding open_end release
close_if true at_once now timeout supports pool c = do
  opened ← open_end abort supports c
  close_opened at_once now timeout pool c opened
close_if false at_once now timeout supports pool c = close_with now timeout pool c none

-- `endSession()`; `at_once` says whether a server is selected for an abort without a wait. The reply to an
-- abort comes after the session has ended.
unfoldable pub end_session :
    Bool → ℕ → Option ℕ → Bool → List ServerSession → ClientSession → Result Closed
unfolding close_if
end_session at_once now timeout supports pool c =
    if c.has_ended
    then ok (record { session = c; pool = pool; command = none })
    else close_if (is_some c.server_session && in_transaction c) at_once now timeout supports pool c
