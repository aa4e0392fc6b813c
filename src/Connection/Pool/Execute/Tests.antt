-- ===== src/Connection/Pool/Execute/Tests.antt =====
-- lib/connection/pool.js, _execute, on an example.
use mongodb_core.Prelude.{ℕ, ◌≡◌, refl, [], ◌∷◌, arith}
use mongodb_core.Prelude.Int.{◌+ℤ◌}
use mongodb_core.Connection.Pool.{Pool, WorkItem, total_connection_count}
use mongodb_core.Connection.Pool.Execute.{turns, turn, execute, go_on}
use mongodb_core.Connection.Pool.Execute.Rounds.{turns-enough}
use mongodb_core.Connection.Pool.Execute.Order.{sent}
use mongodb_core.Connection.Pool.Execute.Monitors.{IsSent, turn-IsSent}
use mongodb_core.Connection.Pool.Execute.Sizes.{IsWithinSize, execute-IsWithinSize}
use mongodb_core.Connection.Pool.Examples.{waiting, monitor, item}

-- Both operations are written, and the one that monitors keeps its connection.
execute_runs : sent (execute waiting).log ≡ monitor 3 ∷ item 4 ∷ []
unfolding execute sent total_connection_count ◌+ℤ◌
execute_runs = refl

execute_takes : (execute waiting).in_use_connections ≡ 7 ∷ []
unfolding execute total_connection_count ◌+ℤ◌
execute_takes = refl

turns-enough_example : turns 3 waiting ≡ turns 9 waiting
turns-enough_example = turns-enough 3 9 waiting (omega arith) (omega arith)

abbrev after_one : Pool
after_one = go_on (λ p. p) (turn waiting)

turn-IsSent_example :
    (w : WorkItem) × (c : ℕ) × (waiting.queue ≡ w ∷ after_one.queue) × IsSent waiting w c after_one
unfolding turn total_connection_count ◌+ℤ◌
turn-IsSent_example = turn-IsSent waiting after_one refl

within : IsWithinSize waiting
unfolding IsWithinSize ◌+ℤ◌
within = omega arith

execute-IsWithinSize_example : IsWithinSize (execute waiting)
execute-IsWithinSize_example = execute-IsWithinSize waiting within
