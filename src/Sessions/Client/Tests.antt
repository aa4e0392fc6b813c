-- ===== src/Sessions/Client/Tests.antt =====
-- lib/sessions.js: client sessions on examples.
use mongodb_core.Errors.{Result, ok, ◌>>=◌}
use mongodb_core.Prelude.{ℕ, Option, ◌≡◌, refl, true, false, none, some}
use mongodb_core.Sessions.Client.{
  ClientSession, client_session, Command, ApplyOptions, Applied, apply_session, other_command,
  start_transaction,
}
use mongodb_core.Sessions.Client.Numbers.{InTransaction, apply_session-InTransaction}
use mongodb_core.Sessions.Pool.{ServerSession}
use mongodb_core.Transactions.{
  TransactionOptions, ReadConcern, no_options, transaction_in_progress, starting_transaction,
  fresh_transaction,
}

abbrev server : ServerSession
server = record { id = 7; last_use = 5; txn_number = 2 }

abbrev idle : ClientSession
idle = client_session server (some no_options) true none no_options

abbrev starting : ClientSession
starting = record idle { transaction = record fresh_transaction { state = starting_transaction } }

abbrev insert : Command
insert = record {
  name = other_command "insert";
  lsid = none;
  txn_number = none;
  autocommit = none;
  start_transaction = false;
  read_concern = none;
  write_concern = none;
  recovery_token = none;
}

abbrev plain : ApplyOptions
plain = record { will_retry_write = false; read_preference = none }

apply_session-InTransaction_example :
    (a : Applied) × (apply_session 50 plain starting insert ≡ ok a)
    × (a.error ≡ none)
    × (a.session.transaction.state ≡ transaction_in_progress)
    × InTransaction server true insert a.command
apply_session-InTransaction_example =
    apply_session-InTransaction 50 plain starting insert server no_options refl refl refl refl

abbrev majority_concern : Option ℕ → ReadConcern
majority_concern time = record {
  object = some 1;
  level = some "majority";
  after_cluster_time = time;
}

abbrev reading : Option ℕ → TransactionOptions
reading time = record no_options { read_concern = some (majority_concern time) }

-- A session that has seen the time 9, whose client has a read concern.
abbrev causal_session : ClientSession
causal_session = record (client_session server (some (reading none)) true none no_options) {
  operation_time = some 9;
}

abbrev client_options_after : ClientSession → Result (Option TransactionOptions)
client_options_after c = do
  a ← apply_session 50 plain (start_transaction none c).session insert
  ok a.session.client_options

-- The transaction takes over the read concern of the client, and the time of this session stays on that.
first_applied_runs : client_options_after causal_session ≡ ok (some (reading (some 9)))
unfolding apply_session start_transaction
first_applied_runs = refl
