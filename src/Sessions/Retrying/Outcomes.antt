-- ===== src/Sessions/Retrying/Outcomes.antt =====
-- lib/sessions.js: what `withTransaction` leaves when it succeeds.
use mongodb_core.Errors.{Error, Result, ok, throw, ◌>>=◌, instanceof_mongo_error, has_error_label}
use mongodb_core.Prelude.{
  ℕ, zero, suc, ◌≡◌, refl, sym, ap, ◌∙◌, inl, inr, Bool, true, false, Option, none, some, arith,
  Option-cases,
}
use mongodb_core.Sessions.Client.{ClientSession, in_transaction, start_transaction, assert_alive_on}
use mongodb_core.Sessions.Ending.{
  commit, end_transaction, Ended, unknown_result, transient, open_end, open_alive, after_open,
}
use mongodb_core.Sessions.Ending.States.{end_transaction-end_of, active-end_of}
use mongodb_core.Sessions.Retrying.{
  Environment, World, Outcome, fulfilled, rejected, out_of_fuel, has_not_timed_out, tick,
  commit_choice, commit_failed, ended_world, commit_reply, committed, attempt_commit, user_ended,
  retry_choice, maybe_retry, abort_reply, aborted, on_error, caught, commit_unless, after_body,
  called_world, after_start, attempt_transaction, Task, attempting, committing, run,
  with_transaction, Body, resolved, failed_with, no_promise,
}
use mongodb_core.Transactions.{TxnState, active_state}

-- If the promise is fulfilled, the session is in no transaction.
pub IsSettled : Outcome → Type 0
IsSettled (fulfilled w) = in_transaction w.session ≡ false
IsSettled _ = Unit

AllSettled : (World → Outcome) → Type 0
AllSettled f = (w : World) → IsSettled (f w)

-- A commit that calls back without an error.
commit-inactive :
    (supports : Bool) (first second : Option Error) (c : ClientSession) (d : Ended)
    → end_transaction commit supports first second c ≡ ok d
    → d.error ≡ none
    → in_transaction d.session ≡ false
unfolding end_transaction open_end
commit-inactive supports first second c d e fine = elim (Option-cases c.server_session) [
  | inl gone ↦
      let dead =
        ap
          (λ q.
            open_alive (assert_alive_on q) commit supports c >>= after_open commit first second c)
          gone in
      absurd (some-none (ok-error _ d (sym dead ∙ e)) fine)
  | inr (s, alive) ↦
      let (d', e', at) = end_transaction-end_of commit supports first second c s alive in
      ap (λ x. in_transaction x.session) (ok-inj d d' (sym e ∙ e'))
      ∙ ap active_state at
      ∙ active-end_of c.transaction.state
]
  where
    ok-inj : (x y : Ended) → ok x ≡ ok y → x ≡ y
    ok-inj x y q = cc

    ok-error : (x y : Ended) → ok x ≡ ok y → x.error ≡ y.error
    ok-error x y q = ap (λ z. z.error) (ok-inj x y q)

    some-none : {g : Error} {o : Option Error} → some g ≡ o → o ≡ none → ⊥
    some-none p q = cc

commit_choice-IsSettled :
    (b fresh u l : Bool) (again anew : World → Outcome) (e : Error) (w : World)
    → AllSettled again
    → AllSettled anew
    → IsSettled (commit_choice b fresh u l again anew e w)
unfolding commit_choice IsSettled AllSettled
commit_choice-IsSettled false fresh u l again anew e w r q = tt
commit_choice-IsSettled true false u l again anew e w r q = tt
commit_choice-IsSettled true true true l again anew e w r q = r (tick w)
commit_choice-IsSettled true true false true again anew e w r q = q (tick w)
commit_choice-IsSettled true true false false again anew e w r q = tt

module _ (env : Environment) where
  commit_failed-IsSettled :
      (again anew : World → Outcome) (e : Error) (w : World)
      → AllSettled again
      → AllSettled anew
      → IsSettled (commit_failed env again anew e w)
  commit_failed-IsSettled again anew e w r q =
      commit_choice-IsSettled (instanceof_mongo_error e.class) (has_not_timed_out env w)
        (has_error_label e unknown_result) (has_error_label e transient) again anew e w r q

  committed-IsSettled :
      (again anew : World → Outcome) (w : World) (x : Result Ended)
      → ((d : Ended) → x ≡ ok d → d.error ≡ none → in_transaction d.session ≡ false)
      → AllSettled again
      → AllSettled anew
      → IsSettled (committed env again anew w x)
  unfolding IsSettled
  committed-IsSettled again anew w (throw e) h r q =
      commit_failed-IsSettled again anew e (ended_world w.session w) r q
  committed-IsSettled again anew w (ok d) h r q =
      by_reply (ended_world d.session w) d.error (h d refl)
    where
      by_reply :
          (v : World) (o : Option Error)
          → (o ≡ none → in_transaction v.session ≡ false)
          → IsSettled (commit_reply env again anew v o)
      by_reply v none g = g refl
      by_reply v (some e) g = commit_failed-IsSettled again anew e v r q

  maybe_retry-IsSettled :
      (anew : World → Outcome) (e : Error) (w : World)
      → AllSettled anew
      → IsSettled (maybe_retry env anew e w)
  unfolding IsSettled AllSettled retry_choice
  maybe_retry-IsSettled anew e w q =
      by_tests (instanceof_mongo_error e.class) (has_error_label e transient)
        (has_not_timed_out env w)
    where
      by_tests : (b l fresh : Bool) → IsSettled (retry_choice b l fresh anew e w)
      by_tests false l fresh = tt
      by_tests true false fresh = tt
      by_tests true true false = tt
      by_tests true true true = q (tick w)

  aborted-IsSettled :
      (anew : World → Outcome) (e : Error) (w : World) (x : Result Ended)
      → AllSettled anew
      → IsSettled (aborted env anew e w x)
  unfolding IsSettled
  aborted-IsSettled anew e w (throw d) q = tt
  aborted-IsSettled anew e w (ok d) q = by_reply (ended_world d.session w) d.error
    where
      by_reply : (v : World) (o : Option Error) → IsSettled (abort_reply env anew e v o)
      by_reply v none = maybe_retry-IsSettled anew e v q
      by_reply v (some d) = tt

  caught-IsSettled :
      (anew : World → Outcome) (o : Outcome)
      → IsSettled o
      → AllSettled anew
      → IsSettled (caught env anew o)
  unfolding caught IsSettled on_error
  caught-IsSettled anew (fulfilled w) h q = h
  caught-IsSettled anew out_of_fuel h q = tt
  caught-IsSettled anew (rejected e w) h q = by_state (in_transaction w.session)
    where
      by_state : (b : Bool) → IsSettled (on_error b env anew e w)
      by_state false = maybe_retry-IsSettled anew e w q
      by_state true = aborted-IsSettled anew e w _ q

  attempt_commit-IsSettled :
      (again anew : World → Outcome) (w : World)
      → AllSettled again
      → AllSettled anew
      → IsSettled (attempt_commit env again anew w)
  unfolding attempt_commit
  attempt_commit-IsSettled again anew w r q =
      committed-IsSettled again anew w _
        (commit-inactive env.supports_recovery_token (env.first_reply w.ends)
          (env.second_reply w.ends) w.session)
        r q

  after_body-IsSettled :
      (commit_all anew : World → Outcome) (body : Body) (w : World)
      → AllSettled commit_all
      → AllSettled anew
      → IsSettled (after_body env commit_all anew body w)
  unfolding after_body IsSettled AllSettled
  after_body-IsSettled commit_all anew no_promise w c q = tt
  after_body-IsSettled commit_all anew (failed_with e) w c q =
      caught-IsSettled anew (rejected e w) tt q
  after_body-IsSettled commit_all anew resolved w c q =
      caught-IsSettled anew _
        (unless (user_ended w.session.transaction.state) (inactive w.session.transaction.state)) q
    where
      inactive : (s : TxnState) → user_ended s ≡ true → active_state s ≡ false
      inactive s e = ground arith

      unless :
          (b : Bool)
          → (b ≡ true → in_transaction w.session ≡ false)
          → IsSettled (commit_unless b commit_all w)
      unless true h = h refl
      unless false h = c w

  attempt_transaction-IsSettled :
      (commit_all anew : World → Outcome) (w : World)
      → AllSettled commit_all
      → AllSettled anew
      → IsSettled (attempt_transaction env commit_all anew w)
  unfolding attempt_transaction IsSettled
  attempt_transaction-IsSettled commit_all anew w c q =
      by_start (start_transaction env.options w.session).session
        (start_transaction env.options w.session).thrown
    where
      by_start :
          (s : ClientSession) (o : Option Error) → IsSettled (after_start env commit_all anew w s o)
      by_start s (some e) = tt
      by_start s none =
          after_body-IsSettled commit_all anew (env.body w.calls s) (called_world env w s) c q

  run-IsSettled : (fuel : ℕ) (task : Task) (w : World) → IsSettled (run env fuel task w)
  unfolding run AllSettled IsSettled
  run-IsSettled zero task w = tt
  run-IsSettled (suc n) committing w =
      attempt_commit-IsSettled (run env n committing) (run env n attempting) w
        (run-IsSettled n committing) (run-IsSettled n attempting)
  run-IsSettled (suc n) attempting w =
      attempt_transaction-IsSettled (run env n committing) (run env n attempting) w
        (run-IsSettled n committing) (run-IsSettled n attempting)

-- When the promise of `withTransaction` is fulfilled, the session is in no transaction, whatever the callback
-- did to the session and whatever the server replied.
pub with_transaction-IsSettled :
    (env : Environment) (fuel : ℕ) (c : ClientSession) → IsSettled (with_transaction env fuel c)
unfolding with_transaction
with_transaction-IsSettled env fuel c =
    run-IsSettled env fuel attempting (record { session = c; ticks = 0; calls = 0; ends = 0 })
