-- ===== src/Sessions/Retrying.antt =====
-- lib/sessions.js: `withTransaction`. The clock, the callback and the replies of the server are an
-- environment that answers the n-th question; a promise is run to its end where it is made. The
-- retries have no bound in the code but the clock, so they run on fuel.
pub mod Termination
pub mod Outcomes
mod Tests
use mongodb_core.Errors.{
  Error, Result, ok, throw, type_error, new_error, instanceof_mongo_error, has_error_label,
}
use mongodb_core.Prelude.{ℕ, zero, suc, ◌+◌, Bool, true, false, Option, none, some, ltb}
use mongodb_core.Sessions.Client.{ClientSession, in_transaction, start_transaction, Started}
use mongodb_core.Sessions.Ending.{
  commit, abort, Opened, called, sent, open_end, end_transaction, Ended, transient, unknown_result,
}
use mongodb_core.Transactions.{
  TxnState, no_transaction, transaction_committed, transaction_aborted, TransactionOptions,
}

-- What the callback gives: a promise that is fulfilled or rejected (a callback that throws is taken as
-- the second), or no promise.
pub data Body : Type 0 where
  resolved : Body
  failed_with : Error → Body
  no_promise : Body

pub record Environment : Type 0 where
  pub clock : ℕ → ℕ
  pub body : ℕ → ClientSession → Body
  -- The session that a call of the callback leaves.
  pub body_session : ℕ → ClientSession → ClientSession
  -- The replies to a command of `endTransaction` and to its retry.
  pub first_reply : ℕ → Option Error
  pub second_reply : ℕ → Option Error
  pub supports_recovery_token : Bool
  pub options : Option TransactionOptions
  pub start_time : ℕ

-- The session, and how often the clock, the callback and the server were asked.
pub record World : Type 0 where
  pub session : ClientSession
  pub ticks : ℕ
  pub calls : ℕ
  pub ends : ℕ

pub data Outcome : Type 0 where
  fulfilled : World → Outcome
  rejected : Error → World → Outcome
  out_of_fuel : Outcome

abbrev pub max_with_transaction_timeout : ℕ
max_with_transaction_timeout = 120000

abbrev pub has_not_timed_out : Environment → World → Bool
has_not_timed_out env w = ltb (env.clock w.ticks) (env.start_time + max_with_transaction_timeout)

abbrev pub tick : World → World
tick w = record w { ticks = suc w.ticks }

-- The handler of a failed commit, by its tests: an error of the driver, not timed out, and the labels.
unfoldable pub commit_choice :
    Bool → Bool → Bool → Bool → (World → Outcome) → (World → Outcome) → Error → World → Outcome
commit_choice false fresh unknown transient_label again anew e w = rejected e w
commit_choice true false unknown transient_label again anew e w = rejected e (tick w)
commit_choice true true true transient_label again anew e w = again (tick w)
commit_choice true true false true again anew e w = anew (tick w)
commit_choice true true false false again anew e w = rejected e (tick w)

abbrev pub commit_failed :
    Environment → (World → Outcome) → (World → Outcome) → Error → World → Outcome
commit_failed env again anew e w =
    commit_choice (instanceof_mongo_error e.class) (has_not_timed_out env w)
      (has_error_label e unknown_result) (has_error_label e transient) again anew e w

abbrev pub ended_world : ClientSession → World → World
ended_world c w = record w { session = c; ends = suc w.ends }

abbrev pub commit_reply :
    Environment → (World → Outcome) → (World → Outcome) → World → Option Error → Outcome
commit_reply env again anew w none = fulfilled w
commit_reply env again anew w (some e) = commit_failed env again anew e w

abbrev pub committed :
    Environment → (World → Outcome) → (World → Outcome) → World → Result Ended → Outcome
committed env again anew w (throw e) = commit_failed env again anew e (ended_world w.session w)
committed env again anew w (ok d) = commit_reply env again anew (ended_world d.session w) d.error

-- `attemptTransactionCommit`, with what it may call again.
unfoldable pub attempt_commit :
    Environment → (World → Outcome) → (World → Outcome) → World → Outcome
unfolding commit_choice has_error_label end_transaction
attempt_commit env again anew w = committed env again anew w (
    end_transaction commit env.supports_recovery_token (env.first_reply w.ends)
      (env.second_reply w.ends) w.session)

-- `userExplicitlyEndedTransaction`
abbrev pub user_ended : TxnState → Bool
user_ended no_transaction = true
user_ended transaction_committed = true
user_ended transaction_aborted = true
user_ended _ = false

-- `maybeRetryOrThrow`, by its tests.
unfoldable pub retry_choice : Bool → Bool → Bool → (World → Outcome) → Error → World → Outcome
retry_choice false labelled fresh anew e w = rejected e w
retry_choice true false fresh anew e w = rejected e w
retry_choice true true false anew e w = rejected e (tick w)
retry_choice true true true anew e w = anew (tick w)

abbrev pub maybe_retry : Environment → (World → Outcome) → Error → World → Outcome
maybe_retry env anew e w =
    retry_choice (instanceof_mongo_error e.class) (has_error_label e transient)
      (has_not_timed_out env w) anew e w

abbrev pub abort_reply : Environment → (World → Outcome) → Error → World → Option Error → Outcome
abort_reply env anew e w none = maybe_retry env anew e w
abort_reply env anew e w (some d) = rejected d w

abbrev pub aborted : Environment → (World → Outcome) → Error → World → Result Ended → Outcome
aborted env anew e w (throw d) = rejected d (ended_world w.session w)
aborted env anew e w (ok d) = abort_reply env anew e (ended_world d.session w) d.error

-- The handler of the errors of an attempt, in a transaction that is active or not.
unfoldable pub on_error : Bool → Environment → (World → Outcome) → Error → World → Outcome
unfolding retry_choice has_error_label end_transaction
on_error false env anew e w = maybe_retry env anew e w
on_error true env anew e w = aborted env anew e w (
    end_transaction abort env.supports_recovery_token (env.first_reply w.ends)
      (env.second_reply w.ends) w.session)

unfoldable pub caught : Environment → (World → Outcome) → Outcome → Outcome
unfolding on_error
caught env anew (fulfilled w) = fulfilled w
caught env anew (rejected e w) = on_error (in_transaction w.session) env anew e w
caught env anew out_of_fuel = out_of_fuel

abbrev pub commit_unless : Bool → (World → Outcome) → World → Outcome
commit_unless true commit_all w = fulfilled w
commit_unless false commit_all w = commit_all w

-- What `abortTransaction` does at once; a command that it sends is answered later.
abbrev opened_session : ClientSession → Result Opened → ClientSession
opened_session c (throw e) = c
opened_session c (ok (called d e)) = d
opened_session c (ok (sent m)) = c

unfoldable pub after_body :
    Environment → (World → Outcome) → (World → Outcome) → Body → World → Outcome
unfolding caught open_end
after_body env commit_all anew resolved w =
    caught env anew (commit_unless (user_ended w.session.transaction.state) commit_all w)
after_body env commit_all anew (failed_with e) w = caught env anew (rejected e w)
after_body env commit_all anew no_promise w =
    rejected (new_error type_error "Function provided to `withTransaction` must return a Promise")
      (record w {
        session = opened_session w.session (open_end abort env.supports_recovery_token w.session);
      })

abbrev pub called_world : Environment → World → ClientSession → World
called_world env w c = record w { session = env.body_session w.calls c; calls = suc w.calls }

abbrev pub after_start :
    Environment
    → (World → Outcome)
    → (World → Outcome)
    → World
    → ClientSession
    → Option Error
    → Outcome
after_start env commit_all anew w c (some e) = rejected e (record w { session = c })
after_start env commit_all anew w c none =
    after_body env commit_all anew (env.body w.calls c) (called_world env w c)

-- `attemptTransaction`, with what it may call.
unfoldable pub attempt_transaction :
    Environment → (World → Outcome) → (World → Outcome) → World → Outcome
unfolding after_body start_transaction
attempt_transaction env commit_all anew w =
    let started = start_transaction env.options w.session in
    after_start env commit_all anew w started.session started.thrown

pub data Task : Type 0 where
  attempting committing : Task

unfoldable pub run : Environment → ℕ → Task → World → Outcome
unfolding attempt_transaction attempt_commit
run env zero task w = out_of_fuel
run env (suc n) attempting w =
    attempt_transaction env (run env n committing) (run env n attempting) w
run env (suc n) committing w = attempt_commit env (run env n committing) (run env n attempting) w

-- `withTransaction(fn, options)`
unfoldable pub with_transaction : Environment → ℕ → ClientSession → Outcome
unfolding run
with_transaction env fuel c =
    run env fuel attempting (record { session = c; ticks = 0; calls = 0; ends = 0 })
