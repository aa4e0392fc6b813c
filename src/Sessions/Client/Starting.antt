-- ===== src/Sessions/Client/Starting.antt =====
-- lib/sessions.js: `startTransaction`, and the commands that follow it.
use mongodb_core.Errors.{ok, ◌>>=◌}
use mongodb_core.Prelude.{◌≡◌, refl, ap, ◌∙◌, Bool, true, false, not, Option, none, some, arith}
use mongodb_core.Sessions.Pool.{ServerSession}
use mongodb_core.Sessions.Client.{
  ClientSession, in_transaction, start_transaction, start_alive, start_idle, numbered, assign,
  given, assert_alive_on, starting, begun,
}
use mongodb_core.Transactions.{
  starting_transaction, Transaction, TransactionOptions, refused, concern_of, made, transaction,
  transition, transition_from, next_states,
}

-- The options of a new transaction: the client's, under those given or else the session's defaults.
abbrev pub chosen : Option TransactionOptions → ClientSession → TransactionOptions
chosen options c = assign c.client_options (given options c.default_transaction_options)

abbrev acceptable : Option TransactionOptions → ClientSession → Bool
acceptable options c =
    not (refused (concern_of (chosen options c).write_concern (chosen options c).w))

accepted :
    (options : Option TransactionOptions) (c : ClientSession)
    → acceptable options c ≡ true
    → (t : Transaction) × (starting options c ≡ ok t)
      × (t.state ≡ starting_transaction)
      × (t.pinned_server ≡ none)
unfolding transaction transition transition_from next_states
accepted options c e = (
  record {
    state = starting_transaction;
    options = record {
      write_concern = concern_of (chosen options c).write_concern (chosen options c).w;
      read_concern = (chosen options c).read_concern;
      read_preference = (chosen options c).read_preference;
    };
    pinned_server = none;
    recovery_token = none;
  },
  ap (λ b. made b (chosen options c) >>= transition starting_transaction)
      (not-true (refused (concern_of (chosen options c).write_concern (chosen options c).w)) e),
  refl,
  refl,
)
  where
    not-true : (b : Bool) → not b ≡ true → b ≡ false
    not-true b q = ground arith

-- `startTransaction` with acceptable options, on a live session that is not in a transaction: nothing is
-- thrown, the transaction is in the starting state with no server pinned, and its number is one more than the
-- last one.
start_transaction-result :
    (options : Option TransactionOptions) (c : ClientSession) (s : ServerSession)
    → c.server_session ≡ some s
    → in_transaction c ≡ false
    → acceptable options c ≡ true
    → (t : Transaction) × (start_transaction options c
        ≡ record { session = record (numbered s c) { transaction = t }; thrown = none })
      × (t.state ≡ starting_transaction)
      × (t.pinned_server ≡ none)
unfolding start_transaction
start_transaction-result options c s alive idle fine =
    let (t, e, at, free) = accepted options c fine in
    (
      t,
      ap (λ q. start_alive (assert_alive_on q) options c) alive
          ∙ ap (λ b. start_idle b s options c) idle
          ∙ ap (begun (numbered s c)) e,
      at,
      free,
    )
