-- ===== src/Transactions.antt =====
-- lib/transactions.js: the states of a transaction and the object that keeps one. A server is its
-- address, a recovery token a number. An option is absent or a value: an explicit `undefined` or
-- `null` is not modelled, nor a text for `w` that reads as a number.
pub mod Laws
mod Tests
use mongodb_core.Errors.{Result, ok, throw, mongo_error, new_error}
use mongodb_core.Prelude.{
  ℕ, ◌≡◌, refl, String, Bool, true, false, ◌||◌, Option, none, some, List, [], ◌∷◌, ◌==◌, any,
  if◌then◌else◌, is_some,
}
use mongodb_core.Prelude.Int.{ℤ, pos, negsuc}
use mongodb_core.ReadPreference.{ReadPreference}

pub data TxnState : Type 0 where
  no_transaction starting_transaction transaction_in_progress : TxnState
  transaction_committed transaction_committed_empty transaction_aborted : TxnState

abbrev number_of : TxnState → ℕ
number_of no_transaction = 0
number_of starting_transaction = 1
number_of transaction_in_progress = 2
number_of transaction_committed = 3
number_of transaction_committed_empty = 4
number_of transaction_aborted = 5

-- `===` on states.
abbrev pub same_state : TxnState → TxnState → Bool
same_state a b = number_of a == number_of b

-- The table `stateMachine`.
unfoldable pub next_states : TxnState → List TxnState
next_states no_transaction = no_transaction ∷ starting_transaction ∷ []
next_states starting_transaction =
    transaction_in_progress ∷ transaction_committed ∷ transaction_committed_empty
    ∷ transaction_aborted ∷ []
next_states transaction_in_progress =
    transaction_in_progress ∷ transaction_committed ∷ transaction_aborted ∷ []
next_states transaction_committed =
    transaction_committed ∷ transaction_committed_empty ∷ starting_transaction ∷ no_transaction ∷ []
next_states transaction_aborted = starting_transaction ∷ no_transaction ∷ []
next_states transaction_committed_empty = transaction_committed_empty ∷ no_transaction ∷ []

-- `w`: a number, or the name of a mode such as `majority`.
pub data W : Type 0 where
  w_number : ℤ → W
  w_mode : String → W

pub record WriteConcern : Type 0 where
  pub w : Option W
  pub j : Option Bool
  pub wtimeout : Option ℕ

-- The object is a number that all options that hold it share; one that only a command holds has none.
pub record ReadConcern : Type 0 where
  pub object : Option ℕ
  pub level : Option String
  pub after_cluster_time : Option ℕ

pub record TransactionOptions : Type 0 where
  pub write_concern : Option WriteConcern
  pub w : Option W
  pub read_concern : Option ReadConcern
  pub read_preference : Option ReadPreference

pub record KeptOptions : Type 0 where
  pub write_concern : Option WriteConcern
  pub read_concern : Option ReadConcern
  pub read_preference : Option ReadPreference

pub record Transaction : Type 0 where
  pub state : TxnState
  pub options : KeptOptions
  pub pinned_server : Option String
  pub recovery_token : Option ℕ

-- `w <= 0`; it does not hold of a missing `w` or of a mode.
abbrev unacknowledged : Option W → Bool
unacknowledged (some (w_number (pos n))) = n == 0
unacknowledged (some (w_number (negsuc n))) = true
unacknowledged _ = false

-- The write concern that the constructor reads: the object, or `{ w: options.w }`.
abbrev pub concern_of : Option WriteConcern → Option W → Option WriteConcern
concern_of (some c) w = some c
concern_of none none = none
concern_of none (some w) = some (record { w = some w; j = none; wtimeout = none })

abbrev pub refused : Option WriteConcern → Bool
refused none = false
refused (some c) = unacknowledged c.w

abbrev pub made : Bool → TransactionOptions → Result Transaction
made true o =
    throw (new_error mongo_error "Transactions do not support unacknowledged write concern")
made false o = ok (record {
  state = no_transaction;
  options = record {
    write_concern = concern_of o.write_concern o.w;
    read_concern = o.read_concern;
    read_preference = o.read_preference;
  };
  pinned_server = none;
  recovery_token = none;
})

-- `new Transaction(options)`
unfoldable pub transaction : TransactionOptions → Result Transaction
transaction o = made (refused (concern_of o.write_concern o.w)) o

abbrev pub no_options : TransactionOptions
no_options = record { write_concern = none; w = none; read_concern = none; read_preference = none }

-- `new Transaction()`
abbrev pub fresh_transaction : Transaction
fresh_transaction = record {
  state = no_transaction;
  options = record { write_concern = none; read_concern = none; read_preference = none };
  pinned_server = none;
  recovery_token = none;
}

abbrev is_pinned : Transaction → Bool
is_pinned t = is_some t.pinned_server

abbrev pub active_state : TxnState → Bool
active_state starting_transaction = true
active_state transaction_in_progress = true
active_state _ = false

abbrev pub is_active : Transaction → Bool
is_active t = active_state t.state

unfoldable pub unpin_server : Transaction → Transaction
unpin_server t = record t { pinned_server = none }

unfoldable pub pin_server : String → Transaction → Transaction
pin_server server t = if is_active t then record t { pinned_server = some server } else t

-- The states in which the server is unpinned.
abbrev unpinning : TxnState → Bool
unpinning no_transaction = true
unpinning starting_transaction = true
unpinning _ = false

abbrev pub entered : TxnState → Transaction → Transaction
entered next t = record t {
  state = next;
  pinned_server = if unpinning next then none else t.pinned_server;
}

abbrev pub step_if : Bool → TxnState → Transaction → Result Transaction
step_if true next t = ok (entered next t)
step_if false next t = throw (new_error mongo_error "Attempted illegal state transition")

-- `transition(nextState)` in the given state.
unfoldable pub transition_from : TxnState → TxnState → Transaction → Result Transaction
unfolding next_states
transition_from current next t = step_if (any (same_state next) (next_states current)) next t

unfoldable pub transition : TxnState → Transaction → Result Transaction
unfolding transition_from
transition next t = transition_from t.state next t
