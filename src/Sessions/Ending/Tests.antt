-- ===== src/Sessions/Ending/Tests.antt =====
-- lib/sessions.js: the ends of transactions and sessions on examples.
use mongodb_core.Errors.{
  Error, Result, ok, throw, mongo_error, mongo_network_error, new_error, has_error_label,
}
use mongodb_core.Prelude.{◌≡◌, refl, true, false, none, some, List, [], ◌∷◌}
use mongodb_core.Sessions.Client.{
  ClientSession, client_session, Command, ApplyOptions, other_command,
}
use mongodb_core.Sessions.Ending.{
  commit, end_transaction, Ended, Handled, command_handler, unknown_result, transient, end_session,
  Closed, is_unknown_transaction_commit_result,
}
use mongodb_core.Sessions.Ending.Closing.{IsClosed, end_session-IsClosed}
use mongodb_core.Sessions.Ending.Final.{Call, starts, applies, ends, calls, calls-end_session}
use mongodb_core.Sessions.Ending.Labels.{Once, OnceIn, command_handler-unknown}
use mongodb_core.Sessions.Ending.States.{sends, end_of, end_transaction-end_of}
use mongodb_core.Sessions.Pool.{ServerSession, release, has_timed_out}
use mongodb_core.Transactions.{no_options, fresh_transaction, transaction_in_progress}

abbrev server : ServerSession
server = record { id = 7; last_use = 5; txn_number = 2 }

abbrev idle : ClientSession
idle = client_session server (some no_options) true none no_options

abbrev in_progress : ClientSession
in_progress = record idle {
  transaction = record fresh_transaction {
    state = transaction_in_progress;
    pinned_server = some "mongos:1";
  };
}

abbrev lost : Error
lost = new_error mongo_network_error "connection closed"

end_transaction-end_of_example :
    (e : Ended) × (end_transaction commit true (some lost) none in_progress ≡ ok e)
    × (e.session.transaction.state ≡ end_of commit transaction_in_progress)
end_transaction-end_of_example =
    end_transaction-end_of commit true (some lost) none in_progress server refl

command_handler-unknown_example :
    (h : Handled) × (d : Error) × (command_handler commit (some lost) in_progress ≡ ok h)
    × (h.error ≡ some d)
    × (has_error_label d unknown_result ≡ true)
    × (has_error_label d transient ≡ false)
    × (h.session.transaction.pinned_server ≡ none)
unfolding new_error sends is_unknown_transaction_commit_result OnceIn Once
command_handler-unknown_example =
    command_handler-unknown lost in_progress refl refl refl ((λ e. refl), tt)

end_session-IsClosed_example :
    IsClosed true 100 (some 30) server [] (end_session true 100 (some 30) false [] in_progress)
end_session-IsClosed_example =
    end_session-IsClosed true 100 (some 30) false [] in_progress server refl refl

abbrev pool_of : Result Closed → List ServerSession
pool_of (ok r) = r.pool
pool_of (throw e) = []

-- The abort command refreshes the last use.
end_session_runs :
    pool_of (end_session true 100 (some 30) false [] in_progress)
    ≡ record server { last_use = 100 } ∷ []
unfolding end_session release has_timed_out
end_session_runs = refl

abbrev gone : Error
gone = new_error mongo_error "Cannot use a session that has ended"

abbrev insert : Command
insert = record {
  name = other_command "insert";
  lsid = none;
  txn_number = none;
  autocommit = none;
  start_transaction = false;
  read_concern = none;
  write_concern = none;
  recovery_token = none;
}

abbrev plain : ApplyOptions
plain = record { will_retry_write = false; read_preference = none }

abbrev later : List Call
later = starts none ∷ applies 100 plain insert ∷ ends true 100 (some 30) false ∷ []

calls-end_session_example :
    (r : Closed) × (end_session true 100 (some 30) false [] in_progress ≡ ok r)
    × (calls later (record { session = r.session; pool = r.pool; sent = []; errors = [] })
        ≡ ok (record {
          session = r.session;
          pool = r.pool;
          sent = [];
          errors = some gone ∷ some gone ∷ none ∷ [];
        }))
calls-end_session_example =
    calls-end_session true 100 (some 30) false [] in_progress server later refl refl
