-- ===== src/Prelude/Lists.antt =====
-- Lists: length, tests and predicates over the native numbers and the Booleans.
use Prim.Native.Nat.{ℕ, suc, ◌+◌, ◌≤◌}
use Prim.Native.String.{String}
use mathlib.Core.Path.{◌≡◌, refl, ap}
use mathlib.Core.Logic.{◌⊎◌}
use mathlib.Core.Bool.{Bool, true, false, ◌||◌}
use mathlib.Core.List.{List, [], ◌∷◌, ◌++◌}
use native.Mathlib.Omega.{arith}
use mongodb_core.Prelude.Tests.{if◌then◌else◌, str_eq}

module _ {ℓ} {A : Type ℓ} where
  abbrev pub length : List A → ℕ
  length [] = 0
  length (x ∷ xs) = suc (length xs)

  pub length-append : (xs ys : List A) → length (xs ++ ys) ≡ length xs + length ys
  length-append [] ys = omega arith
  length-append (x ∷ xs) ys = omega (arith, length-append xs ys)

  pub append-nil : (x : List A) → x ++ [] ≡ x
  append-nil [] = refl
  append-nil (a ∷ x) = ap (λ l. a ∷ l) (append-nil x)

  pub append_assoc : (x y z : List A) → (x ++ y) ++ z ≡ x ++ (y ++ z)
  append_assoc [] y z = refl
  append_assoc (a ∷ x) y z = ap (λ l. a ∷ l) (append_assoc x y z)

  -- `xs.filter(p)`, and the loops that push what passes a test.
  abbrev pub select : (A → Bool) → List A → List A
  select p [] = []
  select p (x ∷ xs) = if p x then x ∷ select p xs else select p xs

  -- `xs.some(p)`.
  abbrev pub any : (A → Bool) → List A → Bool
  any p [] = false
  any p (x ∷ xs) = p x || any p xs

  length-select-le : (p : A → Bool) (xs : List A) → length (select p xs) ≤ length xs
  length-select-le p [] = omega arith
  length-select-le p (x ∷ xs) = ground (arith, length-select-le p xs)

module _ {A : Type 0} where
  -- Membership, by recursion.
  abbrev pub In : A → List A → Type 0
  In a [] = ⊥
  In a (x ∷ xs) = (a ≡ x) ⊎ In a xs

  pub In-of_In-select : (p : A → Bool) (a : A) (xs : List A) → In a (select p xs) → In a xs
  In-of_In-select p a [] h = h
  In-of_In-select p a (x ∷ xs) h = ground (arith, In-of_In-select p a xs)

  pub In-select-true : (p : A → Bool) (a : A) (xs : List A) → In a (select p xs) → p a ≡ true
  In-select-true p a [] h = absurd h
  In-select-true p a (x ∷ xs) h = ground (arith, In-select-true p a xs)

  pub In-select : (p : A → Bool) (a : A) (xs : List A) → In a xs → p a ≡ true → In a (select p xs)
  In-select p a [] h e = h
  In-select p a (x ∷ xs) h e = ground (arith, In-select p a xs)

-- `xs.indexOf(a) !== -1` on texts.
abbrev pub contains : List String → String → Bool
contains [] a = false
contains (x ∷ xs) a = str_eq x a || contains xs a

abbrev pub All {ℓ κ} : {A : Type ℓ} → (A → Type κ) → List A → Type κ
All P [] = Unit
All P (x ∷ xs) = P x × All P xs
