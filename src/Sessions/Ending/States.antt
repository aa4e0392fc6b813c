-- ===== src/Sessions/Ending/States.antt =====
-- lib/sessions.js: the state that the end of a transaction leaves.
use mongodb_core.Errors.{Error, Result, ok, throw, ◌>>=◌}
use mongodb_core.Prelude.{
  ◌≡◌, refl, sym, ap, subst, Bool, true, false, Option, none, some, List, arith, any,
}
use mongodb_core.Sessions.Client.{ClientSession, Command, assert_alive_on}
use mongodb_core.Sessions.Ending.{
  EndName, commit, abort, sent, moved, open_in, open_alive, open_end, relabel, relabel_if, reply_if,
  labelled_reply, handled, ended_state, command_handler, is_retried, on_reply, after_open,
  with_commands, sent_commands, end_transaction, Handled, Ended,
  is_unknown_transaction_commit_result, may_be_lost,
}
use mongodb_core.Sessions.Pool.{ServerSession}
use mongodb_core.Transactions.{
  TxnState, no_transaction, starting_transaction, transaction_in_progress, transaction_committed,
  transaction_committed_empty, transaction_aborted, same_state, next_states, active_state, entered,
  unpin_server,
}
use mongodb_core.Transactions.Laws.{transition-ok}

-- The table of the ends of a transaction.
pub end_of : EndName → TxnState → TxnState
end_of commit starting_transaction = transaction_committed_empty
end_of commit transaction_in_progress = transaction_committed
end_of abort starting_transaction = transaction_aborted
end_of abort transaction_in_progress = transaction_aborted
end_of name s = s

-- Whether a command goes to the server.
unfoldable pub sends : EndName → TxnState → Bool
sends commit transaction_in_progress = true
sends commit transaction_committed = true
sends abort transaction_in_progress = true
sends name s = false

EndsIn : TxnState → Result Ended → Type 0
EndsIn s (ok e) = e.session.transaction.state ≡ s
EndsIn s (throw e) = ⊥

HandledIn : TxnState → Result Handled → Type 0
HandledIn s (ok h) = h.session.transaction.state ≡ s
HandledIn s (throw e) = ⊥

relabel_if-state :
    (lost unknown : Bool) (e : Error) (c : ClientSession)
    → (relabel_if lost unknown e c).session.transaction.state ≡ c.transaction.state
unfolding relabel_if unpin_server
relabel_if-state false unknown e c = refl
relabel_if-state true true e c = refl
relabel_if-state true false e c = refl

labelled_reply-state :
    (o : Option Error) (c : ClientSession)
    → (labelled_reply o c).session.transaction.state ≡ c.transaction.state
unfolding relabel
labelled_reply-state none c = refl
labelled_reply-state (some e) c =
    relabel_if-state (may_be_lost e) (is_unknown_transaction_commit_result e) e c

-- In a state from which the command is sent, the handler makes the transition.
command_handler-state :
    (name : EndName) (o : Option Error) (c : ClientSession)
    → sends name c.transaction.state ≡ true
    → HandledIn (ended_state name) (command_handler name o c)
unfolding command_handler HandledIn sends next_states
command_handler-state commit o c at =
    subst (λ r. HandledIn transaction_committed (handled commit o c r))
      (sym (
        transition-ok c.transaction.state transaction_committed c.transaction refl
          (allowed c.transaction.state at)))
      (labelled_reply-state o
        (record c { transaction = entered transaction_committed c.transaction }))
  where
    allowed :
        (s : TxnState)
        → sends commit s ≡ true
        → any (same_state transaction_committed) (next_states s) ≡ true
    allowed s e = ground arith
command_handler-state abort o c at =
    subst (λ r. HandledIn transaction_aborted (handled abort o c r))
      (sym (
        transition-ok c.transaction.state transaction_aborted c.transaction refl
          (allowed c.transaction.state at)))
      refl
  where
    allowed :
        (s : TxnState)
        → sends abort s ≡ true
        → any (same_state transaction_aborted) (next_states s) ≡ true
    allowed s e = ground arith

reply_if-state :
    (b : Bool) (name : EndName) (first second : Option Error) (c : ClientSession)
    → sends name c.transaction.state ≡ true
    → HandledIn (ended_state name) (reply_if b name first second c)
unfolding reply_if unpin_server
reply_if-state true commit first second c at = command_handler-state commit second _ at
reply_if-state true abort first second c at = command_handler-state abort none c at
reply_if-state false name first second c at = command_handler-state name _ c at

with_commands-state :
    (s : TxnState) (ms : List Command) (r : Result Handled)
    → HandledIn s r
    → EndsIn s (with_commands ms r)
unfolding HandledIn EndsIn
with_commands-state s ms (ok h) p = p
with_commands-state s ms (throw e) p = p

sent-state :
    (name : EndName) (first second : Option Error) (c : ClientSession) (m : Command)
    → sends name c.transaction.state ≡ true
    → EndsIn (ended_state name) (after_open name first second c (sent m))
unfolding on_reply
sent-state name first second c m at =
    with_commands-state (ended_state name) (sent_commands name first m)
      (on_reply name first second c) (reply_if-state (is_retried first) name first second c at)

in_state :
    (name : EndName) (supports : Bool) (first second : Option Error) (s : TxnState)
    (c : ClientSession)
    → c.transaction.state ≡ s
    → EndsIn (end_of name s) (open_in name supports s c >>= after_open name first second c)
unfolding open_in end_of EndsIn sends next_states
in_state commit supports first second no_transaction c at = at
in_state abort supports first second no_transaction c at = at
in_state commit supports first second starting_transaction c at =
    subst (λ r. EndsIn transaction_committed_empty (moved c r >>= after_open commit first second c))
      (sym (transition-ok starting_transaction transaction_committed_empty c.transaction at refl))
      refl
in_state commit supports first second transaction_committed_empty c at =
    subst (λ r. EndsIn transaction_committed_empty (moved c r >>= after_open commit first second c))
      (sym (
        transition-ok transaction_committed_empty transaction_committed_empty c.transaction at
          refl))
      refl
in_state commit supports first second transaction_aborted c at = at
in_state commit supports first second transaction_in_progress c at =
    sent-state commit first second c _ (ap (sends commit) at)
in_state commit supports first second transaction_committed c at =
    sent-state commit first second c _ (ap (sends commit) at)
in_state abort supports first second starting_transaction c at =
    subst (λ r. EndsIn transaction_aborted (moved c r >>= after_open abort first second c))
      (sym (transition-ok starting_transaction transaction_aborted c.transaction at refl)) refl
in_state abort supports first second transaction_aborted c at = at
in_state abort supports first second transaction_committed c at = at
in_state abort supports first second transaction_committed_empty c at = at
in_state abort supports first second transaction_in_progress c at =
    sent-state abort first second c _ (ap (sends abort) at)

ends_ok :
    (s : TxnState) (r : Result Ended)
    → EndsIn s r
    → (e : Ended) × (r ≡ ok e) × (e.session.transaction.state ≡ s)
unfolding EndsIn
ends_ok s (ok e) h = (e, refl, h)
ends_ok s (throw e) h = absurd h

-- `commitTransaction` and `abortTransaction` on a live session never make an illegal transition, whatever the
-- replies to the command and to its retry: the state afterwards is the one of the table, a transaction that
-- was aborted or committed is not reopened, and a commit that is repeated leaves the transaction committed.
pub end_transaction-end_of :
    (name : EndName) (supports : Bool) (first second : Option Error) (c : ClientSession)
    (s : ServerSession)
    → c.server_session ≡ some s
    → (e : Ended) × (end_transaction name supports first second c ≡ ok e)
      × (e.session.transaction.state ≡ end_of name c.transaction.state)
unfolding end_transaction open_end
end_transaction-end_of name supports first second c s alive =
    ends_ok (end_of name c.transaction.state) (end_transaction name supports first second c) (
      subst
        (λ q.
          EndsIn (end_of name c.transaction.state)
            (open_alive (assert_alive_on q) name supports c >>= after_open name first second c))
        (sym alive) (in_state name supports first second c.transaction.state c refl))

pub active-end_of : (s : TxnState) → active_state (end_of commit s) ≡ false
unfolding end_of
active-end_of s = ground arith
