-- ===== src/Sdam/Writing/Tests.antt =====
-- lib/sdam/topology.js: an insert that fails with a network error and is tried again.
use mongodb_core.Errors.{Error, ok, mongo_network_error, new_error, is_retryable_error}
use mongodb_core.Prelude.{
  ℕ, String, ◌≡◌, refl, true, false, Option, none, some, List, [], ◌∷◌, map, if◌then◌else◌,
}
use mongodb_core.Sdam.Examples.{with_a}
use mongodb_core.Sdam.Writing.{
  write_operation, command, Environment, WriteOptions, Written, Sent, may_retry, perform,
}
use mongodb_core.Sessions.Client.{ClientSession, client_session}
use mongodb_core.Sessions.Pool.{server_session}
use mongodb_core.Transactions.{no_options}

abbrev lost : Error
lost = new_error mongo_network_error "connection lost"

abbrev world : Environment
world = record {
  asked = λ retrying. with_a;
  chosen = λ retrying. with_a;
  selected = λ retrying. if retrying then ok "b:1" else ok "a:1";
  replied = λ retrying. if retrying then none else some lost;
}

abbrev session : ClientSession
session = client_session (server_session 3 1000) none true none no_options

abbrev retrying_writes : WriteOptions
retrying_writes = record { retry_writes = true; will_retry_write = false; session = some session }

abbrev sent_by : Option Written → List Sent
sent_by none = []
sent_by (some w) = w.sent

-- Both attempts have the number one.
insert_runs :
    map {B = String × Option ℕ}
      (λ s. (s.server, s.txn_number))
      (sent_by (perform write_operation world retrying_writes))
    ≡ ("a:1", some 1) ∷ ("b:1", some 1) ∷ []
unfolding perform may_retry new_error is_retryable_error
insert_runs = refl

-- A command that is no write is sent once.
find_runs :
    map {B = String × Option ℕ}
      (λ s. (s.server, s.txn_number))
      (sent_by (perform (command ("find" ∷ [])) world retrying_writes))
    ≡ ("a:1", none) ∷ []
unfolding perform may_retry new_error is_retryable_error
find_runs = refl
