-- ===== src/Sessions/Pool/Release.antt =====
-- lib/sessions.js: what `release` keeps in the pool.
use mongodb_core.Prelude.{
  ℕ, ◌≡◌, refl, sym, ap, subst, inl, inr, Bool, true, false, Option, List, [], ◌∷◌, ◌++◌, All,
  Bool-cases,
}
use mongodb_core.Sessions.Pool.{ServerSession, has_timed_out, keep_unless, drop_stale}

-- The last session of a list, if any, has not timed out.
unfoldable pub LastAlive : ℕ → Option ℕ → List ServerSession → Type 0
LastAlive now timeout [] = Unit
LastAlive now timeout (s ∷ []) = has_timed_out now timeout s ≡ false
LastAlive now timeout (s ∷ t ∷ sessions) = LastAlive now timeout (t ∷ sessions)

-- `kept` is the pool without the sessions that have timed out at its end.
unfoldable pub IsTrimmed : ℕ → Option ℕ → List ServerSession → List ServerSession → Type 0
IsTrimmed now timeout sessions kept =
    (stale : List ServerSession) × All (λ s. has_timed_out now timeout s ≡ true) stale
    × (sessions ≡ kept ++ stale)
    × LastAlive now timeout kept

trim_step :
    (now : ℕ) (timeout : Option ℕ) (s : ServerSession) (sessions kept : List ServerSession)
    → IsTrimmed now timeout sessions kept
    → IsTrimmed now timeout (s ∷ sessions) (keep_unless (has_timed_out now timeout s) s kept)
unfolding IsTrimmed LastAlive
trim_step now timeout s sessions (t ∷ kept) (stale, out, e, alive) =
    by_flag (has_timed_out now timeout s)
  where
    by_flag : (b : Bool) → IsTrimmed now timeout (s ∷ sessions) (keep_unless b s (t ∷ kept))
    by_flag true = (stale, out, ap (λ l. s ∷ l) e, alive)
    by_flag false = (stale, out, ap (λ l. s ∷ l) e, alive)
trim_step now timeout s sessions [] (stale, out, e, alive) =
    elim (Bool-cases (has_timed_out now timeout s)) [
      | inl gone ↦
          subst (λ b. IsTrimmed now timeout (s ∷ sessions) (keep_unless b s [])) (sym gone)
            (s ∷ stale, (gone, out), ap (λ l. s ∷ l) e, tt)
      | inr here ↦
          subst (λ b. IsTrimmed now timeout (s ∷ sessions) (keep_unless b s [])) (sym here)
            (stale, out, ap (λ l. s ∷ l) e, here)
    ]

-- The loop of `release` takes off exactly the longest end of the pool in which every session has timed out.
pub drop_stale-IsTrimmed :
    (now : ℕ) (timeout : Option ℕ) (sessions : List ServerSession)
    → IsTrimmed now timeout sessions (drop_stale now timeout sessions)
unfolding drop_stale IsTrimmed LastAlive
drop_stale-IsTrimmed now timeout [] = ([], tt, refl, tt)
drop_stale-IsTrimmed now timeout (s ∷ sessions) =
    trim_step now timeout s sessions (drop_stale now timeout sessions)
      (drop_stale-IsTrimmed now timeout sessions)
