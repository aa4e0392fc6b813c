-- ===== src/Sessions/Ending/Final.antt =====
-- lib/sessions.js: the calls on a session after `endSession`.
use mongodb_core.Errors.{Error, Result, ok, throw, ◌>>=◌, mongo_error, new_error}
use mongodb_core.Prelude.{
  append-nil, append_assoc, ℕ, ◌≡◌, refl, sym, ap, ◌∙◌, Bool, true, false, ◌&&◌, Option, none, some,
  List, [], ◌∷◌, ◌++◌, if◌then◌else◌, is_some, map,
}
use mongodb_core.Sessions.Client.{
  ClientSession, in_transaction, start_transaction, start_alive, assert_alive_on, Command,
  ApplyOptions, apply_session, apply_with,
}
use mongodb_core.Sessions.Ending.{
  EndName, Closed, end_session, open_end, open_alive, close_if, end_transaction, after_open,
}
use mongodb_core.Sessions.Ending.Closing.{IsClosed, end_session-IsClosed}
use mongodb_core.Sessions.Pool.{ServerSession}
use mongodb_core.Transactions.{TransactionOptions}

-- A call: `startTransaction`, `applySession` for a command, `commitTransaction` or `abortTransaction` with the
-- replies to its command, and `endSession`.
pub data Call : Type 0 where
  starts : Option TransactionOptions → Call
  applies : ℕ → ApplyOptions → Command → Call
  finishes : EndName → Bool → Option Error → Option Error → Call
  ends : Bool → ℕ → Option ℕ → Bool → Call

-- The session, the pool, the commands of transactions that were sent, and the error that each call threw,
-- returned or gave to its callback, if any.
pub record State : Type 0 where
  pub session : ClientSession
  pub pool : List ServerSession
  pub sent : List Command
  pub errors : List (Option Error)

abbrev command_list : Option Command → List Command
command_list none = []
command_list (some m) = m ∷ []

abbrev left : ClientSession → List ServerSession → List Command → Option Error → State → State
left c pool ms e p = record {
  session = c;
  pool = pool;
  sent = p.sent ++ ms;
  errors = p.errors ++ (e ∷ []);
}

unfoldable pub call : Call → State → Result State
unfolding start_transaction apply_session end_transaction end_session
call (starts options) p =
    let r = start_transaction options p.session in ok (left r.session p.pool [] r.thrown p)
call (applies now o m) p = do
  a ← apply_session now o p.session m
  ok (left a.session p.pool [] a.error p)
call (finishes name supports first second) p = do
  e ← end_transaction name supports first second p.session
  ok (left e.session p.pool e.commands e.error p)
call (ends at_once now timeout supports) p = do
  r ← end_session at_once now timeout supports p.pool p.session
  ok (left r.session r.pool (command_list r.command) none p)

unfoldable pub calls : List Call → State → Result State
unfolding call
calls [] p = ok p
calls (x ∷ xs) p = do q ← call x p; calls xs q

abbrev gone_error : Error
gone_error = new_error mongo_error "Cannot use a session that has ended"

-- What each call is told.
abbrev pub refusal : Call → Option Error
refusal (ends at_once now timeout supports) = none
refusal _ = some gone_error

call-refused :
    (x : Call) (p : State)
    → p.session.has_ended ≡ true
    → p.session.server_session ≡ none
    → call x p ≡ ok (left p.session p.pool [] (refusal x) p)
unfolding call start_transaction apply_session end_transaction end_session open_end
call-refused (starts options) p over gone =
    ap
      (λ q.
        let r = start_alive (assert_alive_on q) options p.session in
        ok (left r.session p.pool [] r.thrown p))
      gone
call-refused (applies now o m) p over gone =
    ap (λ q. apply_with now o q p.session m >>= λ a. ok (left a.session p.pool [] a.error p)) gone
call-refused (finishes name supports first second) p over gone =
    ap
      (λ q.
        open_alive (assert_alive_on q) name supports p.session
        >>= after_open name first second p.session
        >>= λ e. ok (left e.session p.pool e.commands e.error p))
      gone
call-refused (ends at_once now timeout supports) p over gone =
    ap
      (λ b.
        (if b
          then ok (record { session = p.session; pool = p.pool; command = none })
          else close_if (is_some p.session.server_session && in_transaction p.session) at_once now
              timeout supports p.pool p.session)
        >>= λ r. ok (left r.session r.pool (command_list r.command) none p))
      over

-- Only the errors grow.
abbrev pub told : List (Option Error) → State → State
told es p = record p { errors = p.errors ++ es }

calls-refused :
    (xs : List Call) (p : State)
    → p.session.has_ended ≡ true
    → p.session.server_session ≡ none
    → calls xs p ≡ ok (told (map refusal xs) p)
unfolding calls
calls-refused [] p over gone = ap (λ l. ok (record p { errors = l })) (sym (append-nil p.errors))
calls-refused (x ∷ xs) p over gone =
    let q = left p.session p.pool [] (refusal x) p in
    ap (λ r. r >>= calls xs) (call-refused x p over gone)
    ∙ calls-refused xs q over gone
    ∙ ap
        (λ l. ok (record {
          session = p.session;
          pool = p.pool;
          sent = l;
          errors = (p.errors ++ (refusal x ∷ [])) ++ map refusal xs;
        }))
        (append-nil p.sent)
    ∙ ap (λ l. ok (record p { errors = l }))
        (append_assoc p.errors (refusal x ∷ []) (map refusal xs))

abbrev after_end : Closed → List (Option Error) → State
after_end r es = record { session = r.session; pool = r.pool; sent = []; errors = es }

-- `endSession` on a live session is final: it succeeds, and whatever sequence of calls of `startTransaction`,
-- `applySession`, `commitTransaction`, `abortTransaction` and `endSession` follows, the session and the pool
-- stay as they are, no command is sent, and each call but `endSession` gets the error for an ended session;
-- so the server session is not released twice.
pub calls-end_session :
    (at_once : Bool) (now : ℕ) (timeout : Option ℕ) (supports : Bool) (pool : List ServerSession)
    (c : ClientSession) (s : ServerSession) (xs : List Call)
    → c.has_ended ≡ false
    → c.server_session ≡ some s
    → (r : Closed) × (end_session at_once now timeout supports pool c ≡ ok r)
      × (calls xs (after_end r []) ≡ ok (after_end r (map refusal xs)))
unfolding IsClosed
calls-end_session at_once now timeout supports pool c s xs live alive =
    of_closed (end_session at_once now timeout supports pool c) refl
      (end_session-IsClosed at_once now timeout supports pool c s live alive)
  where
    of_closed :
        (x : Result Closed)
        → end_session at_once now timeout supports pool c ≡ x
        → IsClosed at_once now timeout s pool x
        → (r : Closed) × (end_session at_once now timeout supports pool c ≡ ok r)
          × (calls xs (after_end r []) ≡ ok (after_end r (map refusal xs)))
    of_closed (ok r) e h = (r, e, calls-refused xs (after_end r []) h.0 h.1)
    of_closed (throw d) e h = absurd h
