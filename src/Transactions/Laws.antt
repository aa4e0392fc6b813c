-- ===== src/Transactions/Laws.antt =====
-- lib/transactions.js: which sequences of transitions the state machine takes, and pinning.
use mongodb_core.Errors.{Result, ok, throw, ◌>>=◌}
use mongodb_core.Prelude.{
  ◌≡◌, refl, sym, ap, subst, ◌∙◌, Bool, true, false, ◌||◌, none, List, [], ◌∷◌, arith, any, String,
}
use mongodb_core.Transactions.{
  TxnState, no_transaction, starting_transaction, transaction_committed_empty, transaction_aborted,
  Transaction, transition, transition_from, next_states, pin_server, unpin_server, same_state,
  entered, step_if, fresh_transaction, fresh_transaction,
}

-- One call of a method that changes the transaction.
pub data Call : Type 0 where
  to : TxnState → Call
  pin : String → Call
  unpin : Call

unfoldable pub call : Call → Transaction → Result Transaction
unfolding transition pin_server unpin_server
call (to next) t = transition next t
call (pin server) t = ok (pin_server server t)
call unpin t = ok (unpin_server t)

unfoldable pub calls : List Call → Transaction → Result Transaction
unfolding call
calls [] t = ok t
calls (c ∷ cs) t = do u ← call c t; calls cs u

-- A transaction that has not begun has no server pinned.
IsUnpinnedAtRest : Transaction → Type 0
IsUnpinnedAtRest t = t.state ≡ no_transaction → t.pinned_server ≡ none

fresh-IsUnpinnedAtRest : IsUnpinnedAtRest fresh_transaction
unfolding IsUnpinnedAtRest
fresh-IsUnpinnedAtRest = λ e. refl

-- The transaction of a result, or a new one.
abbrev pub result_or : Result Transaction → Transaction
result_or (ok t) = t
result_or (throw e) = fresh_transaction

transition_from-result :
    (s next : TxnState) (t u : Transaction)
    → transition_from s next t ≡ ok u
    → (any (same_state next) (next_states s) ≡ true) × (u ≡ entered next t)
unfolding transition_from next_states
transition_from-result s next t u e = allowed (any (same_state next) (next_states s)) e
  where
    allowed : (b : Bool) → step_if b next t ≡ ok u → (b ≡ true) × (u ≡ entered next t)
    allowed true q = (refl, cc)
    allowed false q = cc

pub transition-ok :
    (s next : TxnState) (t : Transaction)
    → t.state ≡ s
    → any (same_state next) (next_states s) ≡ true
    → transition next t ≡ ok (entered next t)
unfolding transition transition_from
transition-ok s next t e allowed =
    ap (λ q. transition_from q next t) e ∙ ap (λ b. step_if b next t) allowed

entered-IsUnpinnedAtRest : (next : TxnState) (t : Transaction) → IsUnpinnedAtRest (entered next t)
unfolding IsUnpinnedAtRest
entered-IsUnpinnedAtRest next t = ground arith

ok-inj : (t u : Transaction) → ok t ≡ ok u → t ≡ u
ok-inj t u e = cc

pin_server-IsUnpinnedAtRest :
    (server : String) (t : Transaction)
    → IsUnpinnedAtRest t
    → IsUnpinnedAtRest (pin_server server t)
unfolding pin_server IsUnpinnedAtRest
pin_server-IsUnpinnedAtRest server t h = ground arith

pin_server-state : (server : String) (t : Transaction) → (pin_server server t).state ≡ t.state
unfolding pin_server
pin_server-state server t = ground arith

unpin_server-IsUnpinnedAtRest : (t : Transaction) → IsUnpinnedAtRest (unpin_server t)
unfolding unpin_server IsUnpinnedAtRest
unpin_server-IsUnpinnedAtRest t = λ e. refl

call-IsUnpinnedAtRest :
    (c : Call) (t u : Transaction) → IsUnpinnedAtRest t → call c t ≡ ok u → IsUnpinnedAtRest u
unfolding call transition
call-IsUnpinnedAtRest (to next) t u h e =
    subst IsUnpinnedAtRest (sym (transition_from-result t.state next t u e).1)
      (entered-IsUnpinnedAtRest next t)
call-IsUnpinnedAtRest (pin server) t u h e =
    subst IsUnpinnedAtRest (ok-inj _ u e) (pin_server-IsUnpinnedAtRest server t h)
call-IsUnpinnedAtRest unpin t u h e =
    subst IsUnpinnedAtRest (ok-inj _ u e) (unpin_server-IsUnpinnedAtRest t)

-- The states in which a transaction has ended without a commit, or has not begun.
abbrev pub at_rest : TxnState → Bool
at_rest no_transaction = true
at_rest transaction_aborted = true
at_rest transaction_committed_empty = true
at_rest _ = false

abbrev starts : Call → Bool
starts (to starting_transaction) = true
starts _ = false

rest_closed :
    (s next : TxnState)
    → at_rest s ≡ true
    → starts (to next) ≡ false
    → any (same_state next) (next_states s) ≡ true
    → at_rest next ≡ true
unfolding next_states
rest_closed s next h q e = ground arith

call-at_rest :
    (c : Call) (t u : Transaction)
    → at_rest t.state ≡ true
    → starts c ≡ false
    → call c t ≡ ok u
    → at_rest u.state ≡ true
unfolding call transition unpin_server
call-at_rest (to next) t u h q e =
    let (allowed, eq) = transition_from-result t.state next t u e in
    subst (λ v. at_rest v.state ≡ true) (sym eq) (rest_closed t.state next h q allowed)
call-at_rest (pin server) t u h q e =
    subst (λ v. at_rest v.state ≡ true) (ok-inj _ u e) (ap at_rest (pin_server-state server t) ∙ h)
call-at_rest unpin t u h q e = subst (λ v. at_rest v.state ≡ true) (ok-inj _ u e) h

then_calls :
    (x : Result Transaction) (cs : List Call) (u : Transaction)
    → (x >>= λ v. calls cs v) ≡ ok u
    → (v : Transaction) × (x ≡ ok v) × (calls cs v ≡ ok u)
then_calls (ok v) cs u e = (v, refl, e)
then_calls (throw d) cs u e = cc

-- Any sequence of calls that all succeed leaves the server unpinned in a transaction that has not begun.
calls-IsUnpinnedAtRest :
    (cs : List Call) (t u : Transaction)
    → IsUnpinnedAtRest t
    → calls cs t ≡ ok u
    → IsUnpinnedAtRest u
unfolding calls
calls-IsUnpinnedAtRest [] t u h e = subst IsUnpinnedAtRest (ok-inj t u e) h
calls-IsUnpinnedAtRest (c ∷ cs) t u h e =
    let (v, first, rest) = then_calls (call c t) cs u e in
    calls-IsUnpinnedAtRest cs v u (call-IsUnpinnedAtRest c t v h first) rest

-- A transaction that was aborted, was committed empty or has not begun stays so, in particular it is
-- neither active nor committed, through every sequence of successful calls that has no transition to the
-- starting state.
calls-at_rest :
    (cs : List Call) (t u : Transaction)
    → at_rest t.state ≡ true
    → any starts cs ≡ false
    → calls cs t ≡ ok u
    → at_rest u.state ≡ true
unfolding calls
calls-at_rest [] t u h q e = subst (λ v. at_rest v.state ≡ true) (ok-inj t u e) h
calls-at_rest (c ∷ cs) t u h q e =
    let (v, first, rest) = then_calls (call c t) cs u e in
    let (none_first, none_later) = or_false (starts c) (any starts cs) q in
    calls-at_rest cs v u (call-at_rest c t v h none_first first) none_later rest
  where
    or_false : (a b : Bool) → (a || b) ≡ false → (a ≡ false) × (b ≡ false)
    or_false a b q = ground arith
