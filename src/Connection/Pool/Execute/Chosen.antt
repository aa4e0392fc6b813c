-- ===== src/Connection/Pool/Execute/Chosen.antt =====
-- lib/connection/pool.js, _execute: the connections that the loop chooses.
use mongodb_core.Prelude.{
  ℕ, zero, suc, ◌%◌, ◌<◌, ◌≡◌, refl, subst, inl, inr, Bool, true, false, some, List, [], ◌∷◌, arith,
  length, Bool-cases, ◌&&◌, select,
}
use mongodb_core.Connection.Pool.{Pool, has, is_connected}
use mongodb_core.Connection.Pool.Execute.{choose, in_turn, element, find_free, idle}

element-has : (other i : ℕ) (cs : List ℕ) → i < length cs → has (element other i cs) cs ≡ true
element-has other i [] h = absurd (omega arith)
element-has other zero (c ∷ cs) h = ground arith
element-has other (suc i) (c ∷ cs) h = ground (arith, element-has c i cs)

in_turn-has : (other i c : ℕ) (cs : List ℕ) → has (in_turn other i (c ∷ cs)) (c ∷ cs) ≡ true
in_turn-has other i c cs = element-has other (i % length (c ∷ cs)) (c ∷ cs) (grind arith)

has_of_has-select :
    (f : ℕ → Bool) (d : ℕ) (cs : List ℕ) → has d (select f cs) ≡ true → has d cs ≡ true
has_of_has-select f d [] h = h
has_of_has-select f d (c ∷ cs) h = ground (arith, has_of_has-select f d cs)

-- The connection that is chosen is one of the list.
pub choose-has : (c : ℕ) (cs : List ℕ) (p : Pool) → has (choose c cs p) (c ∷ cs) ≡ true
unfolding choose
choose-has c cs p = by_free (select (idle p) (c ∷ cs)) refl
  where
    by_free :
        (free : List ℕ)
        → select (idle p) (c ∷ cs) ≡ free
        → has
            (elim free [
              | [] ↦ in_turn c p.connection_index (c ∷ cs)
              | d ∷ ds ↦ in_turn d p.connection_index (d ∷ ds)
            ])
            (c ∷ cs)
          ≡ true
    by_free [] e = in_turn-has c p.connection_index c cs
    by_free (d ∷ ds) e =
        has_of_has-select (idle p) (in_turn d p.connection_index (d ∷ ds)) (c ∷ cs)
          (rw e (in_turn-has d p.connection_index d ds))

pub find_free-some :
    (p : Pool) (cs : List ℕ) (d : ℕ)
    → find_free p cs ≡ some d
    → (has d cs ≡ true) × (is_connected (p.store d) ≡ true) × (idle p d ≡ true)
unfolding find_free
find_free-some p [] d e = cc
find_free-some p (c ∷ cs) d e = elim (Bool-cases (is_connected (p.store c) && idle p c)) [
  | inl free ↦
      let same : c ≡ d = some-inj c d (rw (free, find_free) at e) in
      subst (λ d. (has d (c ∷ cs) ≡ true) × (is_connected (p.store d) ≡ true) × (idle p d ≡ true))
        same
        (
          at_head,
          (both (is_connected (p.store c)) (idle p c) free).0,
          (both (is_connected (p.store c)) (idle p c) free).1,
        )
  | inr busy ↦ further (find_free-some p cs d (rw (busy, find_free) at e))
]
  where
    some-inj : (a b : ℕ) → some a ≡ some b → a ≡ b
    some-inj a b q = cc

    at_head : has c (c ∷ cs) ≡ true
    at_head = ground arith

    both : (a b : Bool) → (a && b) ≡ true → (a ≡ true) × (b ≡ true)
    both true b h = (refl, h)
    both false b h = cc

    further :
        (has d cs ≡ true) × (is_connected (p.store d) ≡ true) × (idle p d ≡ true)
        → (has d (c ∷ cs) ≡ true) × (is_connected (p.store d) ≡ true) × (idle p d ≡ true)
    further (a, b, e) = (ground arith, b, e)
