-- ===== src/Sdam/Selecting/Pinning.antt =====
-- lib/sdam/topology.js, selectServer: transactions on a sharded cluster stay on one server.
use mongodb_core.Errors.{ok}
use mongodb_core.Prelude.{ℕ, ◌≡◌, String, true, Option, none, some, List}
use mongodb_core.Sdam.Selecting.{
  pinned_choice, choose_server, pinned_to, address_of, random_selection,
}
use mongodb_core.Sdam.ServerDescription.{ServerDescription}
use mongodb_core.Transactions.{Transaction, is_active, pin_server}

sticks :
    (t : Transaction) (chosen : Option String) (a : String)
    → is_active t ≡ true
    → ok chosen ≡ ok (some a)
    → pinned_choice true (pinned_to true chosen (some t)) ≡ some a
unfolding pinned_choice pin_server
sticks t none a active e = cc
sticks t (some b) a active e = rw active (some-inj b a e)
  where
    some-inj : (b a : String) → ok (some b) ≡ ok (some a) → some b ≡ some a
    some-inj b a q = cc

-- In a sharded cluster the server that an active transaction was given is the one that it is given at once
-- the next time, without a selection.
choose_server-sticks :
    (random : ℕ) (t : Transaction) (ss : List (Option ServerDescription)) (a : String)
    → is_active t ≡ true
    → (choose_server random true (some t) (ok ss)).0 ≡ ok (some a)
    → pinned_choice true (choose_server random true (some t) (ok ss)).1 ≡ some a
unfolding choose_server
choose_server-sticks random t ss a active e =
    sticks t (address_of (random_selection random ss)) a active e
