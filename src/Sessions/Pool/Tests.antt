-- ===== src/Sessions/Pool/Tests.antt =====
-- lib/sessions.js: the pool on examples.
use mongodb_core.Prelude.{ℕ, ◌≡◌, some, List, [], ◌∷◌, arith}
use mongodb_core.Sessions.Pool.{ServerSession, acquire}
use mongodb_core.Sessions.Pool.Acquire.{acquire-after_hours}
use mongodb_core.Sessions.Pool.Sharing.{
  Holdings, Use, begin, finish, use_sessions, IsApart, use_sessions-IsApart, empty-IsApart,
}

abbrev used_at : ℕ → ℕ → ServerSession
used_at id time = record { id = id; last_use = time; txn_number = 0 }

-- At the time 3000000 with a timeout of 30 minutes, the first and the last have timed out.
abbrev pool : List ServerSession
pool = used_at 1 0 ∷ used_at 2 2999000 ∷ used_at 3 100 ∷ []

acquire-after_hours_example : acquire 7200005 (some 30) 9 (used_at 4 5 ∷ []) ≡ (used_at 4 5, [])
acquire-after_hours_example = acquire-after_hours 2 30 9 (used_at 4 5) [] (omega arith)

abbrev uses : List Use
uses = begin 0 (some 30) ∷ begin 10 (some 30) ∷ finish 20 (some 30) 0 ∷ begin 30 (some 30) ∷ []

abbrev nothing : Holdings
nothing = record { pool = []; held = []; next_id = 0 }

use_sessions-IsApart_example : IsApart (use_sessions uses nothing)
use_sessions-IsApart_example = use_sessions-IsApart uses nothing empty-IsApart
