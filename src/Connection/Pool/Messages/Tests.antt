-- ===== src/Connection/Pool/Messages/Tests.antt =====
-- lib/connection/pool.js, messageHandler, on an example.
use mongodb_core.Prelude.{◌≡◌, refl, true, false, none, [], ◌∷◌, ◌++◌, if◌then◌else◌}
use mongodb_core.Connection.Pool.Closing.Ends.{answers}
use mongodb_core.Connection.Pool.Messages.{Message, document, message_handler}
use mongodb_core.Connection.Pool.Messages.Replies.{HasItems, answer_to, message_handler-answers}
use mongodb_core.Connection.Pool.Examples.{busy, item}

abbrev reply : Message
reply = record {
  response_to = 2;
  parsed = document (record {
    ok_is_zero = true;
    err = false;
    errmsg = true;
    code = true;
    write_concern_error = false;
    cluster_time = none;
  });
}

message_handler-answers_example :
    (answers (message_handler reply 7 busy).log
      ≡ answers busy.log ++ (if false then [] else (item 2, answer_to (item 2) reply.parsed) ∷ []))
    × HasItems 7 (item 1 ∷ []) busy (message_handler reply 7 busy)
message_handler-answers_example =
    message_handler-answers reply 7 busy (item 1 ∷ []) (item 2) [] refl (refl, tt) refl tt
