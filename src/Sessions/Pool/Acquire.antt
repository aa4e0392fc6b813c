-- ===== src/Sessions/Pool/Acquire.antt =====
-- lib/sessions.js: which session `acquire` returns, and what it leaves in the pool.
use mongodb_core.Prelude.{
  ℕ, ◌+◌, ◌≤◌, ◌<◌, ◌-◌, ◌/◌, ◌*◌, leb, ◌==◌, ◌&&◌, ◌≡◌, refl, sym, ap, subst, ◌∙◌, ◌⊎◌, inl, inr,
  Bool, true, false, Option, some, List, [], ◌∷◌, ◌++◌, arith, if◌then◌else◌, All, Bool-cases,
}
use mongodb_core.Sessions.Pool.{
  ServerSession, server_session, has_timed_out, acquire, remainder, release, drop_stale,
}

-- `r` is the first session that has not timed out and the sessions after it, or a new session if all have
-- timed out.
unfoldable pub IsFirstAlive :
    ℕ → Option ℕ → ℕ → List ServerSession → (ServerSession × List ServerSession) → Type 0
IsFirstAlive now timeout new_id sessions r =
    (stale : List ServerSession) × All (λ s. has_timed_out now timeout s ≡ true) stale
    × (((has_timed_out now timeout r.0 ≡ false) × (sessions ≡ stale ++ r.0 ∷ r.1))
        ⊎ ((r ≡ (server_session new_id now, [])) × (sessions ≡ stale)))

-- `acquire` returns the first session of the pool that has not timed out and leaves those after it; if all
-- have timed out, the session is new and the pool is left empty.
pub acquire-IsFirstAlive :
    (now : ℕ) (timeout : Option ℕ) (new_id : ℕ) (sessions : List ServerSession)
    → IsFirstAlive now timeout new_id sessions (acquire now timeout new_id sessions)
unfolding acquire IsFirstAlive
acquire-IsFirstAlive now timeout new_id [] = ([], tt, inr (refl, refl))
acquire-IsFirstAlive now timeout new_id (s ∷ sessions) =
    let (stale, out, found) = acquire-IsFirstAlive now timeout new_id sessions in
    elim (Bool-cases (has_timed_out now timeout s)) [
      | inl gone ↦
          subst
            (λ b.
              IsFirstAlive now timeout new_id (s ∷ sessions)
                (if b then acquire now timeout new_id sessions else (s, sessions)))
            (sym gone)
            (
              s ∷ stale,
              (gone, out),
              elim found [
                | inl (alive, e) ↦ inl (alive, ap (λ l. s ∷ l) e)
                | inr (e, e') ↦ inr (e, ap (λ l. s ∷ l) e')
              ],
            )
      | inr alive ↦
          subst
            (λ b.
              IsFirstAlive now timeout new_id (s ∷ sessions)
                (if b then acquire now timeout new_id sessions else (s, sessions)))
            (sym alive) ([], tt, inl (alive, refl))
    ]

remainder-le : (idle : ℕ) → remainder idle ≤ idle
remainder-le idle = omega arith

minutes_below : (ms t : ℕ) → ms + 30000 < 60000 * t → (ms + 30000) / 60000 < t
minutes_below ms t h = omega arith

-- Less idle time than the timeout less half a minute is too little to time out.
recent-alive :
    (now timeout : ℕ) (s : ServerSession)
    → s.last_use ≤ now
    → now + 30000 < s.last_use + 60000 * timeout
    → has_timed_out now (some timeout) s ≡ false
unfolding has_timed_out
recent-alive now timeout s past recent =
    not_late (now - s.last_use) timeout s.last_use now
      (timeout == 0 && leb (remainder (s.last_use - now)) 30000) past
      (minutes_below (remainder (now - s.last_use)) timeout
        (omega (arith, remainder-le (now - s.last_use))))
  where
    not_late :
        (idle t last now : ℕ) (b : Bool)
        → last ≤ now
        → (remainder idle + 30000) / 60000 < t
        → (if leb last now then leb t ((remainder idle + 30000) / 60000) else b) ≡ false
    not_late idle t last now b past h = ground arith

-- A session used less than the timeout less half a minute ago comes back from the pool that it was
-- released to, and the stale sessions at the end of the pool are gone.
acquire-release :
    (now timeout new_id : ℕ) (s : ServerSession) (sessions : List ServerSession)
    → s.last_use ≤ now
    → now + 30000 < s.last_use + 60000 * timeout
    → acquire now (some timeout) new_id (release now (some timeout) s sessions)
      ≡ (s, drop_stale now (some timeout) sessions)
unfolding acquire release
acquire-release now timeout new_id s sessions past recent =
    let alive = recent-alive now timeout s past recent in
    let kept = drop_stale now (some timeout) sessions in
    ap (λ b. acquire now (some timeout) new_id (if b then kept else s ∷ kept)) alive
    ∙ ap (λ b. if b then acquire now (some timeout) new_id kept else (s, kept)) alive

whole_hours : (k : ℕ) → remainder (3600000 * k) ≡ 0
whole_hours k = omega arith

-- Whole hours of idle time are not counted: a session that was last used any whole number of hours ago
-- has not timed out, for each timeout of a minute or more, and a pool with it in front returns it.
pub acquire-after_hours :
    (hours timeout new_id : ℕ) (s : ServerSession) (sessions : List ServerSession)
    → 1 ≤ timeout
    → acquire (s.last_use + 3600000 * hours) (some timeout) new_id (s ∷ sessions) ≡ (s, sessions)
unfolding acquire has_timed_out
acquire-after_hours hours timeout new_id s sessions least =
    ap
      (λ b.
        if b
        then acquire (s.last_use + 3600000 * hours) (some timeout) new_id sessions
        else (s, sessions))
      (not_counted s.last_use (3600000 * hours) timeout
        (timeout == 0 && leb (remainder (s.last_use - (s.last_use + 3600000 * hours))) 30000)
        (whole_hours hours) least)
  where
    not_counted :
        (last h t : ℕ) (b : Bool)
        → remainder h ≡ 0
        → 1 ≤ t
        → (if leb last (last + h) then leb t ((remainder (last + h - last) + 30000) / 60000) else b)
          ≡ false
    not_counted last h t b e least =
        let idle : last + h - last ≡ h = omega arith in rw (idle, e) (ground arith)
