-- ===== src/Sessions/Pool/Sharing.antt =====
-- lib/sessions.js: which client session holds which server session. The constructor of `ClientSession`
-- acquires, `endSession` releases; a new session's id is the next number, for the random id that no other
-- session has.
use mongodb_core.Prelude.{
  ℕ, zero, suc, ◌+◌, ◌≤◌, ◌≡◌, refl, sym, ap, subst, ◌⊎◌, inl, inr, Bool, true, false, Option, none,
  some, List, [], ◌∷◌, ◌++◌, arith, ◌==◌, ==_iff, if◌then◌else◌, Bool-cases,
}
use mongodb_core.Sessions.Pool.{ServerSession, server_session, acquire, release, drop_stale}
use mongodb_core.Sessions.Pool.Acquire.{IsFirstAlive, acquire-IsFirstAlive}
use mongodb_core.Sessions.Pool.Release.{IsTrimmed, drop_stale-IsTrimmed}

-- The pool, the sessions that client sessions hold, and the next id.
pub record Holdings : Type 0 where
  pub pool : List ServerSession
  pub held : List ServerSession
  pub next_id : ℕ

-- The session at a place of the list of those that are held, and the others.
abbrev before :
    ServerSession
    → Option (ServerSession × List ServerSession)
    → Option (ServerSession × List ServerSession)
before s none = none
before s (some (t, others)) = some (t, s ∷ others)

take_out : ℕ → List ServerSession → Option (ServerSession × List ServerSession)
take_out n [] = none
take_out zero (s ∷ held) = some (s, held)
take_out (suc n) (s ∷ held) = before s (take_out n held)

-- A client session begins, or the one at a place ends, at a time.
pub data Use : Type 0 where
  begin : ℕ → Option ℕ → Use
  finish : ℕ → Option ℕ → ℕ → Use

abbrev put_back : ℕ → Option ℕ → Holdings → Option (ServerSession × List ServerSession) → Holdings
put_back now timeout h none = h
put_back now timeout h (some (s, others)) = record h {
  pool = release now timeout s h.pool;
  held = others;
}

unfoldable pub use_session : Use → Holdings → Holdings
unfolding acquire release take_out
use_session (begin now timeout) h = record {
  pool = (acquire now timeout h.next_id h.pool).1;
  held = (acquire now timeout h.next_id h.pool).0 ∷ h.held;
  next_id = suc h.next_id;
}
use_session (finish now timeout n) h = put_back now timeout h (take_out n h.held)

unfoldable pub use_sessions : List Use → Holdings → Holdings
unfolding use_session
use_sessions [] h = h
use_sessions (u ∷ us) h = use_sessions us (use_session u h)

count : ℕ → List ServerSession → ℕ
count i [] = 0
count i (s ∷ sessions) = if s.id == i then suc (count i sessions) else count i sessions

-- An id occurs at most once in the pool and among the sessions that are held, and only ids below the next.
pub IsApart : Holdings → Type 0
IsApart h =
    (i : ℕ)
    → (count i h.pool + count i h.held ≤ 1) × (h.next_id ≤ i → count i h.pool + count i h.held ≡ 0)

count-append : (i : ℕ) (xs ys : List ServerSession) → count i (xs ++ ys) ≡ count i xs + count i ys
unfolding count
count-append i [] ys = omega arith
count-append i (x ∷ xs) ys = ground (arith, count-append i xs ys)

count-drop_stale :
    (i now : ℕ) (timeout : Option ℕ) (sessions : List ServerSession)
    → count i (drop_stale now timeout sessions) ≤ count i sessions
unfolding IsTrimmed
count-drop_stale i now timeout sessions =
    let (stale, out, e, alive) = drop_stale-IsTrimmed now timeout sessions in
    omega (arith, ap (count i) e, count-append i (drop_stale now timeout sessions) stale)

count-release :
    (i now : ℕ) (timeout : Option ℕ) (s : ServerSession) (sessions : List ServerSession)
    → count i (release now timeout s sessions) ≤ count i (s ∷ sessions)
unfolding count release
count-release i now timeout s sessions = ground (arith, count-drop_stale i now timeout sessions)

count-acquire :
    (i now : ℕ) (timeout : Option ℕ) (new_id : ℕ) (sessions : List ServerSession)
    → let r = acquire now timeout new_id sessions in
      (count i (r.0 ∷ r.1) ≤ count i sessions) ⊎ (r ≡ (server_session new_id now, []))
unfolding IsFirstAlive
count-acquire i now timeout new_id sessions =
    let r = acquire now timeout new_id sessions in
    let (stale, out, found) = acquire-IsFirstAlive now timeout new_id sessions in
    elim found [
      | inl (alive, e) ↦ inl (omega (arith, ap (count i) e, count-append i stale (r.0 ∷ r.1)))
      | inr (e, e') ↦ inr e
    ]

Splits : ℕ → List ServerSession → Option (ServerSession × List ServerSession) → Type 0
Splits i held none = Unit
Splits i held (some (s, others)) = count i (s ∷ others) ≡ count i held

Splits-before :
    (i : ℕ) (s : ServerSession) (held : List ServerSession)
    (o : Option (ServerSession × List ServerSession))
    → Splits i held o
    → Splits i (s ∷ held) (before s o)
unfolding Splits count
Splits-before i s held none h = tt
Splits-before i s held (some (t, others)) h = ground arith

take_out-Splits : (i n : ℕ) (held : List ServerSession) → Splits i held (take_out n held)
unfolding Splits take_out count
take_out-Splits i n [] = tt
take_out-Splits i zero (s ∷ held) = refl
take_out-Splits i (suc n) (s ∷ held) =
    Splits-before i s held (take_out n held) (take_out-Splits i n held)

put_back-IsApart :
    (now : ℕ) (timeout : Option ℕ) (h : Holdings) (o : Option (ServerSession × List ServerSession))
    → ((i : ℕ) → Splits i h.held o)
    → IsApart h
    → IsApart (put_back now timeout h o)
unfolding Splits IsApart count
put_back-IsApart now timeout h none split apart = apart
put_back-IsApart now timeout h (some (s, others)) split apart = λ i.
    moved (s.id == i) h.next_id i (count i (release now timeout s h.pool)) (count i h.pool)
      (count i others) (count i h.held) (apart i) (split i) (count-release i now timeout s h.pool)
  where
    moved :
        (b : Bool) (next i kept pool others held : ℕ)
        → (pool + held ≤ 1) × (next ≤ i → pool + held ≡ 0)
        → (if b then suc others else others) ≡ held
        → kept ≤ (if b then suc pool else pool)
        → (kept + others ≤ 1) × (next ≤ i → kept + others ≡ 0)
    moved true next i kept pool others held p q r = (omega arith, λ l. omega (arith, p.1 l))
    moved false next i kept pool others held p q r = (omega arith, λ l. omega (arith, p.1 l))

taken_from_pool :
    (b : Bool) (next i rest pool held : ℕ)
    → (pool + held ≤ 1) × (next ≤ i → pool + held ≡ 0)
    → (if b then suc rest else rest) ≤ pool
    → (rest + (if b then suc held else held) ≤ 1)
      × (suc next ≤ i → rest + (if b then suc held else held) ≡ 0)
taken_from_pool true next i rest pool held p q =
    (omega arith, λ l. omega (arith, p.1 (omega arith)))
taken_from_pool false next i rest pool held p q =
    (omega arith, λ l. omega (arith, p.1 (omega arith)))

made_new :
    (next i pool held : ℕ)
    → (pool + held ≤ 1) × (next ≤ i → pool + held ≡ 0)
    → (0 + (if next == i then suc held else held) ≤ 1)
      × (suc next ≤ i → 0 + (if next == i then suc held else held) ≡ 0)
made_new next i pool held p = elim (Bool-cases (next == i)) [
  | inl same ↦
      let here : next ≡ i = (==_iff next i).0 same in
      rw same (omega (arith, p.1 (omega arith)), λ l. absurd (omega arith))
  | inr other ↦ rw other (omega arith, λ l. omega (arith, p.1 (omega arith)))
]

begin-IsApart :
    (now : ℕ) (timeout : Option ℕ) (h : Holdings)
    → IsApart h
    → IsApart (use_session (begin now timeout) h)
unfolding use_session IsApart count
begin-IsApart now timeout h apart = λ i.
    at_id i (acquire now timeout h.next_id h.pool) (count-acquire i now timeout h.next_id h.pool)
  where
    at_id :
        (i : ℕ) (r : ServerSession × List ServerSession)
        → (count i (r.0 ∷ r.1) ≤ count i h.pool) ⊎ (r ≡ (server_session h.next_id now, []))
        → (count i r.1 + count i (r.0 ∷ h.held) ≤ 1)
          × (suc h.next_id ≤ i → count i r.1 + count i (r.0 ∷ h.held) ≡ 0)
    at_id i (s, rest) (inl less) =
        taken_from_pool (s.id == i) h.next_id i (count i rest) (count i h.pool) (count i h.held)
          (apart i) less
    at_id i r (inr new) =
        subst
          (λ q.
            (count i q.1 + count i (q.0 ∷ h.held) ≤ 1)
            × (suc h.next_id ≤ i → count i q.1 + count i (q.0 ∷ h.held) ≡ 0))
          (sym new) (made_new h.next_id i (count i h.pool) (count i h.held) (apart i))

use_session-IsApart : (u : Use) (h : Holdings) → IsApart h → IsApart (use_session u h)
unfolding use_session
use_session-IsApart (begin now timeout) h apart = begin-IsApart now timeout h apart
use_session-IsApart (finish now timeout n) h apart =
    put_back-IsApart now timeout h (take_out n h.held) (λ i. take_out-Splits i n h.held) apart

-- However client sessions begin and end, in any order and at any times, no server session is ever held by
-- two of them, or held by one and in the pool.
pub use_sessions-IsApart : (us : List Use) (h : Holdings) → IsApart h → IsApart (use_sessions us h)
unfolding use_sessions
use_sessions-IsApart [] h apart = apart
use_sessions-IsApart (u ∷ us) h apart =
    use_sessions-IsApart us (use_session u h) (use_session-IsApart u h apart)

pub empty-IsApart : IsApart (record { pool = []; held = []; next_id = 0 })
unfolding IsApart count
empty-IsApart = λ i. (omega arith, λ h. omega arith)
