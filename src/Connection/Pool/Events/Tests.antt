-- ===== src/Connection/Pool/Events/Tests.antt =====
-- lib/connection/pool.js, connectionFailureHandler, on an example.
use mongodb_core.Prelude.{◌≡◌, refl}
use mongodb_core.Connection.Pool.{close, error}
use mongodb_core.Connection.Pool.Events.{connection_failure_handler}
use mongodb_core.Connection.Pool.Events.Failures.{IsDropped, connection_failure_handler-IsDropped}
use mongodb_core.Connection.Pool.Examples.{busy}

connection_failure_handler-IsDropped_example :
    IsDropped 7 busy (connection_failure_handler error 7 busy)
    × (connection_failure_handler close 7 (connection_failure_handler error 7 busy)
        ≡ connection_failure_handler error 7 busy)
connection_failure_handler-IsDropped_example =
    connection_failure_handler-IsDropped error close 7 busy refl refl
