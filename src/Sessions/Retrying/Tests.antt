-- ===== src/Sessions/Retrying/Tests.antt =====
-- lib/sessions.js: `withTransaction` on an example: a callback that runs a command, and a server whose
-- first commit is lost together with its retry.
use mongodb_core.Errors.{Error, mongo_network_error, new_error}
use mongodb_core.Prelude.{
  ℕ, zero, suc, ◌*◌, ◌≡◌, refl, Bool, true, false, Option, none, some, arith,
}
use mongodb_core.Sessions.Client.{ClientSession, client_session}
use mongodb_core.Sessions.Pool.{ServerSession}
use mongodb_core.Sessions.Retrying.{Environment, Outcome, fulfilled, resolved, with_transaction}
use mongodb_core.Sessions.Retrying.Outcomes.{IsSettled, with_transaction-IsSettled}
use mongodb_core.Sessions.Retrying.Termination.{EndsFrom, IsOverAt, with_transaction-EndsFrom}
use mongodb_core.Transactions.{no_options, transaction_in_progress}

abbrev server : ServerSession
server = record { id = 7; last_use = 5; txn_number = 2 }

abbrev idle : ClientSession
idle = client_session server (some no_options) true none no_options

abbrev lost : Error
lost = new_error mongo_network_error "connection closed"

abbrev run_command : ClientSession → ClientSession
run_command c = record c {
  transaction = record (c.transaction) { state = transaction_in_progress };
}

abbrev lost_at_first : ℕ → Option Error
lost_at_first zero = some lost
lost_at_first (suc n) = none

-- The clock goes on by a minute whenever it is asked.
abbrev environment : Environment
environment = record {
  clock = λ n. 60000 * n;
  body = λ n c. resolved;
  body_session = λ n c. run_command c;
  first_reply = lost_at_first;
  second_reply = lost_at_first;
  supports_recovery_token = false;
  options = none;
  start_time = 0;
}

abbrev is_fulfilled : Outcome → Bool
is_fulfilled (fulfilled w) = true
is_fulfilled _ = false

commit_twice : is_fulfilled (with_transaction environment 6 idle) ≡ true
unfolding with_transaction new_error
commit_twice = refl

environment-IsOverAt : IsOverAt environment 2
unfolding IsOverAt
environment-IsOverAt = λ k h. omega arith

with_transaction-EndsFrom_example : EndsFrom 0 (with_transaction environment 6 idle)
with_transaction-EndsFrom_example =
    with_transaction-EndsFrom environment 2 6 idle environment-IsOverAt (omega arith)

with_transaction-IsSettled_example : IsSettled (with_transaction environment 6 idle)
with_transaction-IsSettled_example = with_transaction-IsSettled environment 6 idle
