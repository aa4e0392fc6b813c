-- ===== src/Sessions/Retrying/Termination.antt =====
-- lib/sessions.js: `withTransaction` comes to an end, and how much fuel is enough.
use mongodb_core.Errors.{Error, Result, ok, throw, instanceof_mongo_error, has_error_label}
use mongodb_core.Prelude.{
  ℕ, zero, suc, ◌+◌, ◌-◌, ◌*◌, ◌≤◌, ◌<◌, ◌≡◌, refl, ◌⊎◌, inl, inr, Bool, true, false, Option, none,
  some, arith, ltb→lt,
}
use mongodb_core.Sessions.Client.{ClientSession, in_transaction, start_transaction}
use mongodb_core.Sessions.Ending.{Ended, unknown_result, transient}
use mongodb_core.Sessions.Retrying.{
  Environment, World, Outcome, fulfilled, rejected, out_of_fuel, max_with_transaction_timeout,
  has_not_timed_out, tick, commit_choice, commit_failed, ended_world, commit_reply, committed,
  attempt_commit, user_ended, retry_choice, maybe_retry, abort_reply, aborted, on_error, caught,
  commit_unless, after_body, called_world, after_start, attempt_transaction, Task, attempting,
  committing, run, with_transaction, Body, resolved, failed_with, no_promise,
}

-- The outcome is there, and the clock was not asked fewer than so many times before it.
pub EndsFrom : ℕ → Outcome → Type 0
EndsFrom k (fulfilled w) = k ≤ w.ticks
EndsFrom k (rejected e w) = k ≤ w.ticks
EndsFrom k out_of_fuel = ⊥

EndsFrom-earlier : (j k : ℕ) (o : Outcome) → j ≤ k → EndsFrom k o → EndsFrom j o
unfolding EndsFrom
EndsFrom-earlier j k (fulfilled w) h p = omega arith
EndsFrom-earlier j k (rejected e w) h p = omega arith
EndsFrom-earlier j k out_of_fuel h p = p

-- From the `limit`-th question on, the clock shows that the time is over.
unfoldable pub IsOverAt : Environment → ℕ → Type 0
IsOverAt env limit =
    (k : ℕ) → limit ≤ k → env.start_time + max_with_transaction_timeout ≤ env.clock k

module _ (env : Environment) (limit : ℕ) (over : IsOverAt env limit) where
  fresh_early : (w : World) → has_not_timed_out env w ≡ true → w.ticks < limit
  unfolding IsOverAt
  fresh_early w h = elim (before_or_after w.ticks limit) [
    | inl early ↦ early
    | inr late ↦ absurd (
        omega (
          arith,
          over w.ticks late,
          ltb→lt (env.clock w.ticks) (env.start_time + max_with_transaction_timeout) h,
        ))
  ]
    where
      before_or_after : (t n : ℕ) → (t < n) ⊎ (n ≤ t)
      before_or_after t n = omega arith

  -- What is called again with a later clock, while the time may not be over, comes to an end.
  Resumes : ℕ → (World → Outcome) → Type 0
  Resumes k f = (w : World) → k < w.ticks → w.ticks ≤ limit → EndsFrom w.ticks (f w)

  resumed :
      (f : World → Outcome) (w : World)
      → w.ticks < limit
      → Resumes w.ticks f
      → EndsFrom w.ticks (f (tick w))
  unfolding Resumes
  resumed f w early r =
      EndsFrom-earlier w.ticks (suc w.ticks) (f (tick w)) (omega arith)
        (r (tick w) (omega arith) (omega arith))

  commit_choice-EndsFrom :
      (b fresh u l : Bool) (again anew : World → Outcome) (e : Error) (w : World)
      → (fresh ≡ true → w.ticks < limit)
      → Resumes w.ticks again
      → Resumes w.ticks anew
      → EndsFrom w.ticks (commit_choice b fresh u l again anew e w)
  unfolding commit_choice EndsFrom
  commit_choice-EndsFrom false fresh u l again anew e w early r q = omega arith
  commit_choice-EndsFrom true false u l again anew e w early r q = omega arith
  commit_choice-EndsFrom true true true l again anew e w early r q = resumed again w (early refl) r
  commit_choice-EndsFrom true true false true again anew e w early r q =
      resumed anew w (early refl) q
  commit_choice-EndsFrom true true false false again anew e w early r q = omega arith

  commit_failed-EndsFrom :
      (again anew : World → Outcome) (e : Error) (w : World)
      → Resumes w.ticks again
      → Resumes w.ticks anew
      → EndsFrom w.ticks (commit_failed env again anew e w)
  commit_failed-EndsFrom again anew e w r q =
      commit_choice-EndsFrom (instanceof_mongo_error e.class) (has_not_timed_out env w)
        (has_error_label e unknown_result) (has_error_label e transient) again anew e w
        (fresh_early w) r q

  committed-EndsFrom :
      (again anew : World → Outcome) (w : World) (x : Result Ended)
      → Resumes w.ticks again
      → Resumes w.ticks anew
      → EndsFrom w.ticks (committed env again anew w x)
  unfolding EndsFrom
  committed-EndsFrom again anew w (throw e) r q =
      commit_failed-EndsFrom again anew e (ended_world w.session w) r q
  committed-EndsFrom again anew w (ok d) r q = by_reply (ended_world d.session w) d.error r q
    where
      by_reply :
          (v : World) (o : Option Error)
          → Resumes v.ticks again
          → Resumes v.ticks anew
          → EndsFrom v.ticks (commit_reply env again anew v o)
      by_reply v none r q = omega arith
      by_reply v (some e) r q = commit_failed-EndsFrom again anew e v r q

  retry_choice-EndsFrom :
      (b l fresh : Bool) (anew : World → Outcome) (e : Error) (w : World)
      → (fresh ≡ true → w.ticks < limit)
      → Resumes w.ticks anew
      → EndsFrom w.ticks (retry_choice b l fresh anew e w)
  unfolding retry_choice EndsFrom
  retry_choice-EndsFrom false l fresh anew e w early q = omega arith
  retry_choice-EndsFrom true false fresh anew e w early q = omega arith
  retry_choice-EndsFrom true true false anew e w early q = omega arith
  retry_choice-EndsFrom true true true anew e w early q = resumed anew w (early refl) q

  maybe_retry-EndsFrom :
      (anew : World → Outcome) (e : Error) (w : World)
      → Resumes w.ticks anew
      → EndsFrom w.ticks (maybe_retry env anew e w)
  maybe_retry-EndsFrom anew e w q =
      retry_choice-EndsFrom (instanceof_mongo_error e.class) (has_error_label e transient)
        (has_not_timed_out env w) anew e w (fresh_early w) q

  aborted-EndsFrom :
      (anew : World → Outcome) (e : Error) (w : World) (x : Result Ended)
      → Resumes w.ticks anew
      → EndsFrom w.ticks (aborted env anew e w x)
  unfolding EndsFrom
  aborted-EndsFrom anew e w (throw d) q = omega arith
  aborted-EndsFrom anew e w (ok d) q = by_reply (ended_world d.session w) d.error q
    where
      by_reply :
          (v : World) (o : Option Error)
          → Resumes v.ticks anew
          → EndsFrom v.ticks (abort_reply env anew e v o)
      by_reply v none q = maybe_retry-EndsFrom anew e v q
      by_reply v (some d) q = omega arith

  on_error-EndsFrom :
      (b : Bool) (anew : World → Outcome) (e : Error) (w : World)
      → Resumes w.ticks anew
      → EndsFrom w.ticks (on_error b env anew e w)
  unfolding on_error
  on_error-EndsFrom false anew e w q = maybe_retry-EndsFrom anew e w q
  on_error-EndsFrom true anew e w q = aborted-EndsFrom anew e w _ q

  Resumes-later : (j k : ℕ) (f : World → Outcome) → j ≤ k → Resumes j f → Resumes k f
  unfolding Resumes
  Resumes-later j k f h r = λ w p q. r w (omega arith) q

  caught-EndsFrom :
      (k : ℕ) (anew : World → Outcome) (o : Outcome)
      → EndsFrom k o
      → Resumes k anew
      → EndsFrom k (caught env anew o)
  unfolding caught EndsFrom
  caught-EndsFrom k anew (fulfilled w) h q = h
  caught-EndsFrom k anew out_of_fuel h q = h
  caught-EndsFrom k anew (rejected e w) h q =
      EndsFrom-earlier k w.ticks (on_error (in_transaction w.session) env anew e w) h
        (on_error-EndsFrom (in_transaction w.session) anew e w (Resumes-later k w.ticks anew h q))

  attempt_commit-EndsFrom :
      (again anew : World → Outcome) (w : World)
      → Resumes w.ticks again
      → Resumes w.ticks anew
      → EndsFrom w.ticks (attempt_commit env again anew w)
  unfolding attempt_commit
  attempt_commit-EndsFrom again anew w r q = committed-EndsFrom again anew w _ r q

  -- A function that comes to an end where the clock has not been asked again.
  Answers : ℕ → (World → Outcome) → Type 0
  Answers k f = (w : World) → w.ticks ≡ k → EndsFrom k (f w)

  after_body-EndsFrom :
      (commit_all anew : World → Outcome) (body : Body) (w : World)
      → Answers w.ticks commit_all
      → Resumes w.ticks anew
      → EndsFrom w.ticks (after_body env commit_all anew body w)
  unfolding after_body Answers EndsFrom
  after_body-EndsFrom commit_all anew no_promise w c q = omega arith
  after_body-EndsFrom commit_all anew (failed_with e) w c q =
      caught-EndsFrom w.ticks anew (rejected e w) (omega arith) q
  after_body-EndsFrom commit_all anew resolved w c q =
      caught-EndsFrom w.ticks anew _ (unless (user_ended w.session.transaction.state)) q
    where
      unless : (b : Bool) → EndsFrom w.ticks (commit_unless b commit_all w)
      unless true = omega arith
      unless false = c w refl

  attempt_transaction-EndsFrom :
      (commit_all anew : World → Outcome) (w : World)
      → Answers w.ticks commit_all
      → Resumes w.ticks anew
      → EndsFrom w.ticks (attempt_transaction env commit_all anew w)
  unfolding attempt_transaction EndsFrom
  attempt_transaction-EndsFrom commit_all anew w c q =
      by_start (start_transaction env.options w.session).session
        (start_transaction env.options w.session).thrown
    where
      by_start :
          (s : ClientSession) (o : Option Error)
          → EndsFrom w.ticks (after_start env commit_all anew w s o)
      by_start s (some e) = omega arith
      by_start s none =
          after_body-EndsFrom commit_all anew (env.body w.calls s) (called_world env w s) c q

  abbrev weight : Task → ℕ
  weight committing = 0
  weight attempting = 1

  run-EndsFrom :
      (fuel : ℕ) (task : Task) (w : World)
      → 2 * (limit - w.ticks) + weight task < fuel
      → EndsFrom w.ticks (run env fuel task w)
  unfolding run Resumes Answers
  run-EndsFrom zero task w enough = absurd (omega arith)
  run-EndsFrom (suc n) committing w enough =
      attempt_commit-EndsFrom (run env n committing) (run env n attempting) w
        (λ v later within. run-EndsFrom n committing v (omega arith))
        (λ v later within. run-EndsFrom n attempting v (omega arith))
  run-EndsFrom (suc n) attempting w enough =
      attempt_transaction-EndsFrom (run env n committing) (run env n attempting) w
        (λ v same.
          EndsFrom-earlier w.ticks v.ticks _ (omega arith)
            (run-EndsFrom n committing v (omega arith)))
        (λ v later within. run-EndsFrom n attempting v (omega arith))

-- `withTransaction` comes to an end, whatever the callback and the server do, if the clock shows from some
-- question on that two minutes are over: then twice that number of questions and two is fuel enough.
pub with_transaction-EndsFrom :
    (env : Environment) (limit fuel : ℕ) (c : ClientSession)
    → IsOverAt env limit
    → 2 * limit + 1 < fuel
    → EndsFrom 0 (with_transaction env fuel c)
unfolding with_transaction
with_transaction-EndsFrom env limit fuel c over enough =
    run-EndsFrom env limit over fuel attempting
      (record { session = c; ticks = 0; calls = 0; ends = 0 }) (omega arith)
