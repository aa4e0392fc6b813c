-- ===== src/Connection/Pool/Closing/Ends.antt =====
-- lib/connection/pool.js, destroy by force: what becomes of the connections and of the operations.
use mongodb_core.Prelude.{
  append-nil, ℕ, suc, ◌-◌, ◌≡◌, refl, sym, ap, subst, ==_iff, ◌∙◌, inl, inr, Bool, true, false,
  List, [], ◌∷◌, ◌++◌, arith, if◌then◌else◌, Bool-cases, ◌==◌, any, length,
}
use mongodb_core.Connection.Pool.{
  Pool, PoolState, destroyed, destroying, disconnected, connecting, connected, Socket, WorkItem,
  Answer, force_destroyed, Effect, called, state_changed, connection_destroyed, closed, calls,
  with_callback, all_connections, did, dying, same_state, legal_states, state_transition,
}
use mongodb_core.Connection.Pool.Closing.{
  all_destroyed, connection_destroyed_one, mark_destroyed, destroy_each, destroy_connections,
  destroy,
}

-- The calls of callbacks, in order.
unfoldable pub answers : List Effect → List (WorkItem × Answer)
answers [] = []
answers (called w a ∷ es) = (w, a) ∷ answers es
answers (_ ∷ es) = answers es

-- The operations with the same answer for each.
abbrev pub each_with : Answer → List WorkItem → List (WorkItem × Answer)
each_with a [] = []
each_with a (w ∷ ws) = (w, a) ∷ each_with a ws

pub answers-append : (x y : List Effect) → answers (x ++ y) ≡ answers x ++ answers y
unfolding answers
answers-append [] y = refl
answers-append (called w a ∷ x) y = ap (λ l. (w, a) ∷ l) (answers-append x y)
answers-append (_ ∷ x) y = answers-append x y

pub answers-calls : (ws : List WorkItem) (a : Answer) → answers (calls ws a) ≡ each_with a ws
unfolding answers
answers-calls [] a = refl
answers-calls (w ∷ ws) a = ap (λ l. (w, a) ∷ l) (answers-calls ws a)

pub answers-other :
    (e : Effect) (log : List Effect)
    → answers (e ∷ []) ≡ []
    → answers (log ++ (e ∷ [])) ≡ answers log
answers-other e log h =
    answers-append log (e ∷ []) ∙ ap (λ l. answers log ++ l) h ∙ append-nil (answers log)

-- Neither an answer nor a change to a connection.
abbrev pub IsSilent : Pool → Pool → Type 0
IsSilent p q = (answers q.log ≡ answers p.log) × (q.store ≡ p.store)

pub IsSilent-if :
    (b : Bool) (p q r : Pool) → IsSilent p q → IsSilent p r → IsSilent p (if b then q else r)
IsSilent-if true p q r h k = h
IsSilent-if false p q r h k = k

pub did-IsSilent : (e : Effect) (p : Pool) → answers (e ∷ []) ≡ [] → IsSilent p (did e p)
did-IsSilent e p h = (answers-other e p.log h, refl)

pub IsSilent-trans : (p q r : Pool) → IsSilent p q → IsSilent q r → IsSilent p r
IsSilent-trans p q r a b = (b.0 ∙ a.0, b.1 ∙ a.1)

-- The pool is destroyed, its queue and its answers are those that are given, and no operation in flight has
-- been taken from its connection.
pub IsOver : List WorkItem → List (WorkItem × Answer) → (ℕ → Socket) → Pool → Type 0
IsOver queue done store q =
    (q.state ≡ destroyed)
    × (q.available_connections ≡ [])
    × (q.in_use_connections ≡ [])
    × (q.queue ≡ queue)
    × (answers q.log ≡ done)
    × ((c : ℕ) → (q.store c).work_items ≡ (store c).work_items)

all_destroyed-IsOver :
    (p : Pool) (store : ℕ → Socket)
    → p.state ≡ destroying
    → ((c : ℕ) → (p.store c).work_items ≡ (store c).work_items)
    → IsOver p.queue (answers p.log) store (all_destroyed p)
unfolding all_destroyed state_transition IsOver answers
all_destroyed-IsOver p store s same =
    let legal : any (same_state destroyed) (legal_states p.state) ≡ true = rw s refl in
    rw legal (
      refl,
      refl,
      refl,
      refl,
      answers-other closed (p.log ++ (state_changed p.state destroyed ∷ [])) refl
          ∙ answers-other (state_changed p.state destroyed) p.log refl,
      same,
    )

-- Marking a connection takes no operation from it.
marked_items :
    (c : ℕ) (p : Pool) (d : ℕ)
    → ((mark_destroyed c (did (connection_destroyed c true) p)).store d).work_items
      ≡ (p.store d).work_items
marked_items c p d = elim (Bool-cases (d == c)) [
  | inl same ↦ rw same (ap (λ e. (p.store e).work_items) (sym ((==_iff d c).0 same)))
  | inr other ↦ rw other refl
]

destroy_each-IsOver :
    (c : ℕ) (cs : List ℕ) (p : Pool) (store : ℕ → Socket)
    → p.state ≡ destroying
    → p.closing ≡ suc (length cs)
    → ((c : ℕ) → (p.store c).work_items ≡ (store c).work_items)
    → IsOver p.queue (answers p.log) store (destroy_each true (c ∷ cs) p)
unfolding destroy_each connection_destroyed_one answers
destroy_each-IsOver c [] p store s n same =
    let fewer = record (mark_destroyed c (did (connection_destroyed c true) p)) {
      closing = p.closing - 1;
    } in
    let last : (p.closing - 1 == 0) ≡ true = ground arith in
    rw last (
      subst (λ l. IsOver p.queue l store (all_destroyed fewer))
        (answers-other (connection_destroyed c true) p.log refl)
        (all_destroyed-IsOver fewer store s (λ d. marked_items c p d ∙ same d)))
destroy_each-IsOver c (d ∷ ds) p store s n same =
    let fewer = record (mark_destroyed c (did (connection_destroyed c true) p)) {
      closing = p.closing - 1;
    } in
    let more : (p.closing - 1 == 0) ≡ false = ground arith in
    rw more (
      subst (λ l. IsOver p.queue l store (destroy_each true (d ∷ ds) fewer))
        (answers-other (connection_destroyed c true) p.log refl)
        (destroy_each-IsOver d ds fewer store s (omega arith) (λ e. marked_items c p e ∙ same e)))

destroy_connections-IsOver :
    (cs : List ℕ) (p : Pool)
    → p.state ≡ destroying
    → IsOver p.queue (answers p.log) p.store (destroy_connections true cs p)
unfolding destroy_connections
destroy_connections-IsOver [] p s = all_destroyed-IsOver p p.store s (λ c. refl)
destroy_connections-IsOver (c ∷ cs) p s =
    destroy_each-IsOver c cs (record p { closing = length (c ∷ cs) }) p.store s refl (λ d. refl)

may_end : (s : PoolState) → dying s ≡ false → any (same_state destroying) (legal_states s) ≡ true
may_end disconnected h = refl
may_end connecting h = refl
may_end connected h = refl
may_end destroying h = cc
may_end destroyed h = cc

-- Destroying a pool by force, in any state but those of its end, destroys it at once and leaves it without
-- connections and with an empty queue; each operation of the queue that has a callback is answered with an
-- error, in order, and no other operation is answered: those in flight stay with their connections.
pub destroy-IsOver :
    (p : Pool)
    → dying p.state ≡ false
    → IsOver []
        (answers p.log ++ each_with force_destroyed (with_callback p.queue))
        p.store
        (destroy true p)
unfolding destroy state_transition answers
destroy-IsOver p live =
    let ended = p.log ++ (state_changed p.state destroying ∷ []) in
    let told = calls (with_callback p.queue) force_destroyed in
    let ending = record p { state = destroying; queue = []; log = ended ++ told } in
    rw (live, may_end p.state live)
      (subst (λ l. IsOver [] l p.store (destroy_connections true (all_connections p) ending))
        (answers-append ended told
          ∙ ap (λ l. l ++ answers told)
              (answers-other (state_changed p.state destroying) p.log refl)
          ∙ ap (λ l. answers p.log ++ l) (answers-calls (with_callback p.queue) force_destroyed))
        (destroy_connections-IsOver (all_connections p) ending refl))
