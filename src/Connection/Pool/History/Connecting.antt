-- ===== src/Connection/Pool/History/Connecting.antt =====
-- lib/connection/pool.js, connect: the first connection and those that `minSize` asks for.
use mongodb_core.Prelude.{
  ℕ, zero, suc, ◌+◌, ◌<◌, ◌≡◌, ◌↔◌, refl, ap, ◌∙◌, Bool, true, false, [], ◌∷◌, arith, if◌then◌else◌,
  length,
}
use mongodb_core.Prelude.Int.{pos, ◌+ℤ◌, ◌-ℤ◌, ◌≤ℤ◌}
use mongodb_core.Connection.Pool.{
  Pool, connected, Socket, Options, new_pool, dying, first_connection, one_more, emitted, connect,
  connecting, did, state_transition, attempt, create_connection, total_connection_count,
}
use mongodb_core.Connection.Pool.Execute.Sizes.{IsWithinSize}
use mongodb_core.Connection.Pool.Events.{create_connections, add_available, arrived}
use mongodb_core.Connection.Pool.History.{connects, attempt_succeeds, run}

-- A pool that lives, with so many attempts to connect.
abbrev Awaits : ℕ → Pool → Pool → Type 0
Awaits n p q =
    (q.state ≡ p.state)
    × (q.options ≡ p.options)
    × (q.available_connections ≡ p.available_connections)
    × (q.in_use_connections ≡ p.in_use_connections)
    × (q.connecting_connections ≡ pos n)

pos_add : (a b : ℕ) → pos a +ℤ pos b ≡ pos (a + b)
unfolding ◌+ℤ◌
pos_add a b = ground arith

create_connection-Awaits :
    (n : ℕ) (p : Pool)
    → dying p.state ≡ false
    → p.connecting_connections ≡ pos n
    → Awaits (n + 1) p (create_connection p)
unfolding create_connection
create_connection-Awaits n p live e = by_state (dying p.state) live
  where
    by_state : (b : Bool) → b ≡ false → Awaits (n + 1) p (if b then p else attempt one_more p)
    by_state true h = cc
    by_state false h = (refl, refl, refl, refl, ap (λ z. z +ℤ pos 1) e ∙ pos_add n 1)

create_connections-Awaits :
    (k n : ℕ) (p : Pool)
    → dying p.state ≡ false
    → p.connecting_connections ≡ pos n
    → Awaits (n + k) p (create_connections k p)
create_connections-Awaits zero n p live e = (refl, refl, refl, refl, e ∙ ap pos (omega arith))
create_connections-Awaits (suc k) n p live e =
    let (s, o, a, u, l) = create_connection-Awaits n p live e in
    let (s', o', a', u', l') =
      create_connections-Awaits k (n + 1) (create_connection p) (ap dying s ∙ live) l in
    (s' ∙ s, o' ∙ o, a' ∙ a, u' ∙ u, l' ∙ ap pos (omega arith))

-- The pool has its first connection, and as many attempts more as its smallest size says.
pub IsConnected : Options → ℕ → Pool → Type 0
IsConnected o c q =
    (q.state ≡ connected)
    × (q.available_connections ≡ c ∷ [])
    × (total_connection_count q ≡ pos (o.min_size + 1))
    × (IsWithinSize q ↔ (o.min_size < o.size))

grown-IsConnected :
    (o : Options) (c : ℕ) (p q : Pool)
    → p.state ≡ connected
    → p.options ≡ o
    → p.available_connections ≡ c ∷ []
    → p.in_use_connections ≡ []
    → Awaits (0 + o.min_size) p q
    → IsConnected o c q
unfolding IsConnected IsWithinSize total_connection_count
grown-IsConnected o c p q s opts a u (s', o', a', u', e') =
    let total : pos (length q.available_connections + length q.in_use_connections)
          +ℤ q.connecting_connections
        ≡ pos (o.min_size + 1) =
      rw (a' ∙ a, u' ∙ u, e') (pos_add 1 (0 + o.min_size) ∙ ap pos (omega arith)) in
    (s' ∙ s, a' ∙ a, total, rw (total, o' ∙ opts) (within o.min_size o.size))
  where
    within : (least size : ℕ) → (pos (least + 1) ≤ℤ pos size) ↔ (least < size)
    within least size = (λ h. omega arith, λ h. omega arith)

none_left : pos 0 +ℤ pos 1 -ℤ pos 1 ≡ pos 0
unfolding ◌+ℤ◌ ◌-ℤ◌
none_left = refl

-- A new pool outside a topology that connects is connected by its first connection, and then makes as many
-- more attempts as its smallest size says: so it stays within its size exactly if the smallest size is less
-- than the size.
pub run-IsConnected :
    (o : Options) (store : ℕ → Socket) (c : ℕ) (s : Socket)
    → o.in_topology ≡ false
    → IsConnected o c
        (run (connects ∷ attempt_succeeds first_connection c s ∷ []) (new_pool o store))
unfolding run
run-IsConnected o store c s outside = by_place o.in_topology outside
  where
    asked : Pool
    asked = attempt first_connection (state_transition connecting (new_pool o store))

    open_pool : Pool
    open_pool = add_available c (state_transition connected (arrived c s asked))

    by_place :
        (b : Bool)
        → b ≡ false
        → IsConnected o c (
            did
              (emitted connect)
              (if b then open_pool else create_connections o.min_size open_pool))
    by_place true h = cc
    by_place false h =
        grown-IsConnected o c open_pool
          (did (emitted connect) (create_connections o.min_size open_pool)) refl refl refl refl
          (create_connections-Awaits o.min_size 0 open_pool refl none_left)
