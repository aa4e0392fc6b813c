-- ===== src/Connection/Pool/Closing/Tests.antt =====
-- lib/connection/pool.js, destroy, on an example.
use mongodb_core.Prelude.{◌≡◌, refl, true, [], ◌∷◌, ◌++◌}
use mongodb_core.Connection.Pool.{force_destroyed, with_callback}
use mongodb_core.Connection.Pool.Closing.{destroy}
use mongodb_core.Connection.Pool.Closing.Ends.{IsOver, destroy-IsOver, answers, each_with}
use mongodb_core.Connection.Pool.Examples.{busy, item}

destroy_runs : answers (destroy true busy).log ≡ (item 4, force_destroyed) ∷ []
unfolding destroy answers
destroy_runs = refl

destroy-IsOver_example :
    IsOver []
      (answers busy.log ++ each_with force_destroyed (with_callback busy.queue))
      busy.store
      (destroy true busy)
destroy-IsOver_example = destroy-IsOver busy refl
