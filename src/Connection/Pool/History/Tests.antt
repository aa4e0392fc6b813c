-- ===== src/Connection/Pool/History/Tests.antt =====
-- lib/connection/pool.js: histories of a pool.
use mongodb_core.Prelude.{◌≡◌, refl, false, List, [], ◌∷◌, ◌++◌}
use mongodb_core.Connection.Pool.{first_connection, one_more, timeout, total_connection_count}
use mongodb_core.Prelude.Int.{◌+ℤ◌, ◌-ℤ◌}
use mongodb_core.Connection.Pool.Execute.Order.{progress, sent}
use mongodb_core.Connection.Pool.History.{
  Happening, connects, writes, compression_ends, attempt_succeeds, execute_timer, connection_fails,
  destroys, happen, run,
}
use mongodb_core.Connection.Pool.History.Delivery.{all_accepted, run-progress}
use mongodb_core.Connection.Pool.History.Dead.{activity, IsDead}
use mongodb_core.Connection.Pool.History.Lifecycle.{run-IsDead}
use mongodb_core.Connection.Pool.History.Connecting.{IsConnected, run-IsConnected}
use mongodb_core.Connection.Pool.Examples.{
  fresh, compressing, dead, options, item, monitor, live_socket,
}

-- A pool connects, takes on operations, and ends.
abbrev a_life : List Happening
a_life =
    connects
    ∷ writes (item 1)
    ∷ attempt_succeeds first_connection 7 live_socket
    ∷ writes (item 2)
    ∷ attempt_succeeds one_more 8 live_socket
    ∷ connection_fails timeout 8
    ∷ writes (monitor 3)
    ∷ destroys false
    ∷ []

run-progress_example : progress (run a_life fresh) ≡ progress fresh ++ all_accepted a_life fresh
unfolding happen total_connection_count ◌-ℤ◌ ◌+ℤ◌
run-progress_example =
    run-progress a_life fresh (refl, (refl, (refl, (refl, (refl, (refl, (refl, (refl, tt))))))))

-- A command that is not compressed overtakes one that is.
abbrev overtaken : List Happening
overtaken =
    writes (item 1)
    ∷ writes (record (item 2) { compressible = false })
    ∷ compression_ends (item 1)
    ∷ []

overtaken_runs :
    (run overtaken compressing).queue ≡ record (item 2) { compressible = false } ∷ item 1 ∷ []
unfolding run
overtaken_runs = refl

accepted_runs : all_accepted a_life fresh ≡ item 1 ∷ item 2 ∷ []
unfolding all_accepted happen total_connection_count ◌-ℤ◌ ◌+ℤ◌
accepted_runs = refl

sent_runs : sent (run a_life fresh).log ≡ item 1 ∷ item 2 ∷ []
unfolding run sent total_connection_count ◌-ℤ◌ ◌+ℤ◌
sent_runs = refl

is_dead : IsDead [] dead
unfolding IsDead activity
is_dead = (refl, refl, refl, refl)

abbrev late : List Happening
late =
    writes (item 1)
    ∷ compression_ends (item 2)
    ∷ attempt_succeeds one_more 9 live_socket
    ∷ execute_timer
    ∷ []

run-IsDead_example : IsDead [] (run late dead)
run-IsDead_example = run-IsDead [] late dead is_dead

run-IsConnected_example :
    IsConnected options 7
      (run (connects ∷ attempt_succeeds first_connection 7 live_socket ∷ []) fresh)
run-IsConnected_example = run-IsConnected options (λ c. live_socket) 7 live_socket refl
