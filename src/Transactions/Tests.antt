-- ===== src/Transactions/Tests.antt =====
-- lib/transactions.js: the code on examples.
use mongodb_core.Prelude.{◌≡◌, refl, List, [], ◌∷◌}
use mongodb_core.Transactions.{
  fresh_transaction, no_transaction, starting_transaction, transaction_in_progress,
  transaction_committed,
}
use mongodb_core.Transactions.Laws.{Call, to, pin, calls, result_or}

abbrev whole_life : List Call
whole_life =
    to starting_transaction
    ∷ pin "mongos:1"
    ∷ to transaction_in_progress
    ∷ to transaction_committed
    ∷ to no_transaction
    ∷ []

whole_life_ends : (result_or (calls whole_life fresh_transaction)).state ≡ no_transaction
unfolding calls
whole_life_ends = refl
