-- ===== src/Sessions/Client/Numbers.antt =====
-- lib/sessions.js: what the commands of a transaction carry.
use mongodb_core.Errors.{ok}
use mongodb_core.Prelude.{
  ℕ, ◌<◌, ◌≡◌, refl, sym, ap, ◌∙◌, ◌⊎◌, inl, inr, Bool, true, false, ◌||◌, Option, none, some, ◌==◌,
  arith, if◌then◌else◌,
}
use mongodb_core.Sessions.Pool.{ServerSession}
use mongodb_core.Sessions.Client.{
  ClientSession, in_transaction, is_transaction_command, Command, ApplyOptions, Applied,
  apply_session, apply_inside, apply_stamped, apply_with, not_primary, stamp_session, stamp_command,
  put_read_concern, causal,
}
use mongodb_core.Sessions.Client.Laws.{apply_first-result, apply_inside-first, apply_inside-later}
use mongodb_core.Transactions.{
  TxnState, starting_transaction, transaction_in_progress, same_state, TransactionOptions,
  active_state, ReadConcern,
}

-- The keys of a command in a transaction.
pub InTransaction : ServerSession → Bool → Command → Command → Type 0
InTransaction s first m n =
    (n.autocommit ≡ some false)
    × (n.start_transaction ≡ (first || m.start_transaction))
    × (n.lsid ≡ some s.id)
    × (0 < s.txn_number → n.txn_number ≡ some s.txn_number)

abbrev is_starting : ClientSession → Bool
is_starting c = same_state c.transaction.state starting_transaction

causal-InTransaction :
    (s : ServerSession) (first : Bool) (m n : Command) (b : Bool) (time : Option ℕ)
    → InTransaction s first m n
    → InTransaction s first m (causal b time n)
unfolding InTransaction
causal-InTransaction s first m n true (some t) h = h
causal-InTransaction s first m n false (some t) h = h
causal-InTransaction s first m n true none h = h
causal-InTransaction s first m n false none h = h

put_read_concern-InTransaction :
    (s : ServerSession) (first : Bool) (m n : Command) (r : Option ReadConcern)
    → InTransaction s first m n
    → InTransaction s first m (put_read_concern r n)
unfolding InTransaction
put_read_concern-InTransaction s first m n none h = h
put_read_concern-InTransaction s first m n (some r) h = h

stamped_number :
    (n : ℕ) (old : Option ℕ) (counts : Bool)
    → counts ≡ true
    → 0 < n
    → (if n == 0 then old else if counts then some n else old) ≡ some n
stamped_number n old counts e p = ground arith

to_inside :
    (now : ℕ) (o : ApplyOptions) (c : ClientSession) (m : Command) (s : ServerSession)
    → c.server_session ≡ some s
    → (in_transaction c || is_transaction_command m.name) ≡ true
    → apply_session now o c m
      ≡ apply_inside o (stamp_session now s c) (stamp_command (o.will_retry_write || true) s m)
unfolding apply_session
to_inside now o c m s alive inside =
    ap (λ q. apply_with now o q c m) alive
    ∙ ap
        (λ b.
          apply_stamped b o (stamp_session now s c) (stamp_command (o.will_retry_write || b) s m))
        inside

active-cases :
    (s : TxnState)
    → active_state s ≡ true
    → ((s ≡ starting_transaction) × (same_state s starting_transaction ≡ true))
      ⊎ ((s ≡ transaction_in_progress) × (same_state s starting_transaction ≡ false))
active-cases s e = ground arith

-- A command in an active transaction, on a live session of a client with options and with a read preference
-- that is absent or primary: the session is applied without an error, the transaction is then in progress,
-- the command carries `autocommit: false`, the session's id and its transaction number, and
-- `startTransaction: true` is put on it exactly if it is the first one.
pub apply_session-InTransaction :
    (now : ℕ) (o : ApplyOptions) (c : ClientSession) (m : Command) (s : ServerSession)
    (client : TransactionOptions)
    → c.server_session ≡ some s
    → c.client_options ≡ some client
    → in_transaction c ≡ true
    → not_primary o.read_preference ≡ false
    → (a : Applied) × (apply_session now o c m ≡ ok a)
      × (a.error ≡ none)
      × (a.session.transaction.state ≡ transaction_in_progress)
      × InTransaction s (is_starting c) m a.command
unfolding InTransaction
apply_session-InTransaction now o c m s client alive has active allowed =
    let c' = stamp_session now s c in
    let m' = stamp_command (o.will_retry_write || true) s m in
    let e = to_inside now o c m s alive (ground arith) in
    let number : 0 < s.txn_number → m'.txn_number ≡ some s.txn_number =
      λ p. stamped_number s.txn_number m.txn_number (o.will_retry_write || true) (ground arith) p in
    elim (active-cases c.transaction.state active) [
      | inl (at, first) ↦
          let (concern, e') =
            apply_first-result c' (record m' { autocommit = some false }) client has at in
          let keys =
            causal-InTransaction s (is_starting c) m _ c.causal_consistency c.operation_time (
              put_read_concern-InTransaction s (is_starting c) m _ concern
                (refl, ap (λ b. b || m.start_transaction) (sym first), refl, number)) in
          (_, e ∙ apply_inside-first o c' m' allowed at ∙ e', refl, refl, keys)
      | inr (at, later) ↦ (
        _,
        e ∙ apply_inside-later o c' m' allowed later,
        refl,
        at,
        (refl, ap (λ b. b || m.start_transaction) (sym later), refl, number),
      )
    ]
