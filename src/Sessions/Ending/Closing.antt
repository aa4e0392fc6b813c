-- ===== src/Sessions/Ending/Closing.antt =====
-- lib/sessions.js: `endSession`, and a session that has ended.
use mongodb_core.Errors.{Result, ok, throw, ◌>>=◌}
use mongodb_core.Prelude.{
  ℕ, ◌≡◌, refl, sym, subst, Bool, true, false, ◌&&◌, Option, none, some, List, if◌then◌else◌,
  is_some,
}
use mongodb_core.Sessions.Client.{ClientSession, in_transaction, assert_alive_on, Command}
use mongodb_core.Sessions.Ending.{
  abort, Closed, end_session, open_end, open_alive, open_in, moved, close_with, close_on, close_if,
  close_opened, refreshed, touched, sent, end_command,
}
use mongodb_core.Sessions.Pool.{ServerSession, release}
use mongodb_core.Transactions.{
  TxnState, no_transaction, starting_transaction, transaction_in_progress, transaction_committed,
  transaction_committed_empty, transaction_aborted, next_states, entered,
}
use mongodb_core.Transactions.Laws.{transition-ok}

-- The session has ended and its server session went to the pool, with its last use refreshed if the command
-- of an abort was sent at once.
unfoldable pub IsClosed :
    Bool → ℕ → Option ℕ → ServerSession → List ServerSession → Result Closed → Type 0
IsClosed at_once now timeout s pool (ok r) =
    (r.session.has_ended ≡ true)
    × (r.session.server_session ≡ none)
    × (r.pool ≡ release now timeout (refreshed (is_some r.command && at_once) now s) pool)
IsClosed at_once now timeout s pool (throw e) = ⊥

module _ (at_once : Bool) (now : ℕ) (timeout : Option ℕ) (s : ServerSession)
    (pool : List ServerSession) where
  close_with-IsClosed :
      (c : ClientSession)
      → c.server_session ≡ some s
      → IsClosed at_once now timeout s pool (close_with now timeout pool c none)
  unfolding IsClosed
  close_with-IsClosed c alive =
      subst (λ q. IsClosed at_once now timeout s pool (close_on q now timeout pool c none))
        (sym alive) (refl, refl, refl)

  sent-IsClosed :
      (c : ClientSession) (m : Command)
      → c.server_session ≡ some s
      → IsClosed at_once now timeout s pool (close_opened at_once now timeout pool c (sent m))
  unfolding IsClosed
  sent-IsClosed c m alive =
      subst
        (λ q.
          IsClosed at_once now timeout s pool
            (close_on (touched at_once now q) now timeout pool c (some m)))
        (sym alive) (refl, refl, refl)

  -- Whatever the state, an abort keeps the server session until it is released.
  abort-IsClosed :
      (supports : Bool) (state : TxnState) (c : ClientSession)
      → c.transaction.state ≡ state
      → c.server_session ≡ some s
      → IsClosed at_once now timeout s pool
          (open_in abort supports state c >>= close_opened at_once now timeout pool c)
  unfolding open_in next_states
  abort-IsClosed supports no_transaction c at alive = close_with-IsClosed c alive
  abort-IsClosed supports starting_transaction c at alive =
      subst
        (λ r.
          IsClosed at_once now timeout s pool
            (moved c r >>= close_opened at_once now timeout pool c))
        (sym (transition-ok starting_transaction transaction_aborted c.transaction at refl))
        (close_with-IsClosed (record c { transaction = entered transaction_aborted c.transaction })
          alive)
  abort-IsClosed supports transaction_in_progress c at alive =
      sent-IsClosed c (end_command abort supports transaction_in_progress c) alive
  abort-IsClosed supports transaction_committed c at alive = close_with-IsClosed c alive
  abort-IsClosed supports transaction_committed_empty c at alive = close_with-IsClosed c alive
  abort-IsClosed supports transaction_aborted c at alive = close_with-IsClosed c alive

  close_if-IsClosed :
      (b supports : Bool) (c : ClientSession)
      → c.server_session ≡ some s
      → IsClosed at_once now timeout s pool (close_if b at_once now timeout supports pool c)
  unfolding close_if open_end
  close_if-IsClosed false supports c alive = close_with-IsClosed c alive
  close_if-IsClosed true supports c alive =
      subst
        (λ q. IsClosed at_once now timeout s pool (
          open_alive (assert_alive_on q) abort supports c
          >>= close_opened at_once now timeout pool c))
        (sym alive) (abort-IsClosed supports c.transaction.state c refl alive)

-- `endSession` on a live session never throws, in whatever state its transaction is: the session is marked,
-- gives up its server session, and the server session is released to the pool; its last use is refreshed
-- before that exactly if a command of an abort was sent at once.
pub end_session-IsClosed :
    (at_once : Bool) (now : ℕ) (timeout : Option ℕ) (supports : Bool) (pool : List ServerSession)
    (c : ClientSession) (s : ServerSession)
    → c.has_ended ≡ false
    → c.server_session ≡ some s
    → IsClosed at_once now timeout s pool (end_session at_once now timeout supports pool c)
unfolding end_session
end_session-IsClosed at_once now timeout supports pool c s open_still alive =
    subst
      (λ b. IsClosed at_once now timeout s pool (
        if b
        then ok (record { session = c; pool = pool; command = none })
        else close_if (is_some c.server_session && in_transaction c) at_once now timeout supports
            pool c))
      (sym open_still)
      (close_if-IsClosed at_once now timeout s pool (is_some c.server_session && in_transaction c)
        supports c alive)
