-- ===== src/Sessions/Client/Laws.antt =====
-- lib/sessions.js: `applySession` on every branch.
use mongodb_core.Errors.{ok, ◌>>=◌}
use mongodb_core.Prelude.{◌≡◌, refl, ap, ◌∙◌, false, Option, none, some, if◌then◌else◌}
use mongodb_core.Sessions.Client.{
  ClientSession, in_transaction, Command, ApplyOptions, apply_inside, apply_outside, not_primary,
  after_cluster_time, outside_applied, first_read_concern, apply_first, with_first, first_applied,
}
use mongodb_core.Transactions.{
  TxnState, no_transaction, starting_transaction, transaction_in_progress, transaction_committed,
  transaction_committed_empty, transaction_aborted, same_state, Transaction, TransactionOptions,
  transition, transition_from, next_states, active_state, ReadConcern,
}

-- A transaction that is not active is reset.
reset_state-rest :
    (t : Transaction) (s : TxnState)
    → t.state ≡ s
    → active_state s ≡ false
    → (u : Transaction) × ((if same_state s no_transaction
          then ok t
          else transition_from s no_transaction t)
        ≡ ok u)
      × (u.state ≡ no_transaction)
unfolding transition_from next_states
reset_state-rest t no_transaction e idle = (t, refl, e)
reset_state-rest t transaction_committed e idle = (_, refl, refl)
reset_state-rest t transaction_aborted e idle = (_, refl, refl)
reset_state-rest t transaction_committed_empty e idle = (_, refl, refl)
reset_state-rest t starting_transaction e idle = cc
reset_state-rest t transaction_in_progress e idle = cc

apply_outside-result :
    (c : ClientSession) (m : Command)
    → in_transaction c ≡ false
    → (u : Transaction) × (apply_outside c m
        ≡ ok (record {
          session = record c { transaction = u };
          command = after_cluster_time c m;
          error = none;
        }))
      × (u.state ≡ no_transaction)
unfolding apply_outside transition
apply_outside-result c m idle =
    let (u, e, rest) = reset_state-rest c.transaction c.transaction.state refl idle in
    (u, ap (outside_applied c (after_cluster_time c m)) e, rest)

first_read_concern-ok :
    (r : Option ReadConcern) (o : Option TransactionOptions) (client : TransactionOptions)
    → o ≡ some client
    → (x : Option ReadConcern) × (first_read_concern r o ≡ ok x)
first_read_concern-ok (some r) o client e = (some r, refl)
first_read_concern-ok none (some x) client e = (x.read_concern, refl)
first_read_concern-ok none none client e = cc

-- The first command of a transaction.
pub apply_first-result :
    (c : ClientSession) (m : Command) (client : TransactionOptions)
    → c.client_options ≡ some client
    → c.transaction.state ≡ starting_transaction
    → (concern : Option ReadConcern) × (apply_first c m
        ≡ first_applied c m (record (c.transaction) { state = transaction_in_progress }) concern)
unfolding transition transition_from next_states
apply_first-result c m client has at =
    let (x, e) =
      first_read_concern-ok c.transaction.options.read_concern c.client_options client has in
    (
      x,
      ap (λ s. transition_from s transaction_in_progress c.transaction >>= with_first c m) at
          ∙ ap
              (λ r.
                r
                >>= first_applied c m (record (c.transaction) { state = transaction_in_progress }))
              e,
    )

pub apply_inside-first :
    (o : ApplyOptions) (c : ClientSession) (m : Command)
    → not_primary o.read_preference ≡ false
    → c.transaction.state ≡ starting_transaction
    → apply_inside o c m ≡ apply_first c (record m { autocommit = some false })
unfolding apply_inside
apply_inside-first o c m allowed at = rw (allowed, at) refl

pub apply_inside-later :
    (o : ApplyOptions) (c : ClientSession) (m : Command)
    → not_primary o.read_preference ≡ false
    → same_state c.transaction.state starting_transaction ≡ false
    → apply_inside o c m
      ≡ ok (record { session = c; command = record m { autocommit = some false }; error = none })
unfolding apply_inside
apply_inside-later o c m allowed later = rw (allowed, later) refl
