-- ===== src/Sessions/Pool.antt =====
-- lib/sessions.js: `ServerSession` and `ServerSessionPool`. A session's random id is an argument, and
-- so are the clock and the topology's `logicalSessionTimeoutMinutes`, whose `null` is `none`.
pub mod Acquire
pub mod Release
pub mod Sharing
mod Tests
use mongodb_core.Prelude.{
  ℕ, ◌+◌, ◌-◌, ◌/◌, ◌%◌, ◌≡◌, refl, Bool, true, false, not, ◌&&◌, Option, none, some, List, [], ◌∷◌,
  ◌++◌, arith, ltb, leb, ◌==◌, if◌then◌else◌, map,
}

pub record ServerSession : Type 0 where
  pub id : ℕ
  pub last_use : ℕ
  pub txn_number : ℕ

-- `new ServerSession()`
abbrev pub server_session : ℕ → ℕ → ServerSession
server_session id now = record { id = id; last_use = now; txn_number = 0 }

-- The idle time less its whole days and whole hours, in milliseconds.
abbrev pub remainder : ℕ → ℕ
remainder idle = idle % 86400000 % 3600000

-- `idleTimeMinutes > sessionTimeoutMinutes - 1` on whole numbers is `idleTimeMinutes >= sessionTimeoutMinutes`.
-- A timeout of `null` is zero there. `Math.round` rounds halves up, so that a negative remainder down to
-- half a minute rounds to zero.
abbrev timeout_minutes : Option ℕ → ℕ
timeout_minutes none = 0
timeout_minutes (some t) = t

unfoldable pub has_timed_out : ℕ → Option ℕ → ServerSession → Bool
has_timed_out now timeout s =
    if leb s.last_use now
    then leb (timeout_minutes timeout) ((remainder (now - s.last_use) + 30000) / 60000)
    else timeout_minutes timeout == 0 && leb (remainder (s.last_use - now)) 30000

-- The loop of `acquire` over the sessions of the pool.
unfoldable pub acquire :
    ℕ → Option ℕ → ℕ → List ServerSession → (ServerSession × List ServerSession)
acquire now timeout new_id [] = (server_session new_id now, [])
acquire now timeout new_id (s ∷ sessions) =
    let rest = acquire now timeout new_id sessions in
    if has_timed_out now timeout s then rest else (s, sessions)

-- The loop of `release`: sessions that have timed out leave from the end until one has not.
abbrev keep_unless : Bool → ServerSession → List ServerSession → List ServerSession
keep_unless true s [] = []
keep_unless false s [] = s ∷ []
keep_unless stale s (t ∷ sessions) = s ∷ t ∷ sessions

unfoldable pub drop_stale : ℕ → Option ℕ → List ServerSession → List ServerSession
drop_stale now timeout [] = []
drop_stale now timeout (s ∷ sessions) =
    keep_unless (has_timed_out now timeout s) s (drop_stale now timeout sessions)

unfoldable pub release : ℕ → Option ℕ → ServerSession → List ServerSession → List ServerSession
unfolding drop_stale
release now timeout s sessions =
    if has_timed_out now timeout s
    then drop_stale now timeout sessions
    else s ∷ drop_stale now timeout sessions

abbrev ids : List ServerSession → List ℕ
ids [] = []
ids (s ∷ sessions) = s.id ∷ ids sessions

-- The ids sent to the server, if any, and the pool that is left.
end_all_pooled_sessions : List ServerSession → (Option (List ℕ) × List ServerSession)
end_all_pooled_sessions [] = (none, [])
end_all_pooled_sessions (s ∷ sessions) = (some (ids (s ∷ sessions)), [])
