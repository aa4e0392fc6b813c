-- ===== src/Prelude/Maps.antt =====
-- `Map` with text keys, in insertion order: `set` keeps the place of a key that is there and puts a
-- new one at the end.
use mongodb_core.Prelude.Lists.{contains, select}
use mongodb_core.Prelude.Tests.{if◌then◌else◌, str_eq, is_some, Bool-cases}
use Prim.Native.String.{String}
use mathlib.Core.Path.{◌≡◌, refl}
use mathlib.Core.Logic.{inl, inr}
use mathlib.Core.Bool.{Bool, not, ◌&&◌, ◌||◌}
use mathlib.Core.Option.{Option, none, some}
use mathlib.Core.List.{List, [], ◌∷◌}
use native.Mathlib.Omega.{arith}
use text.Mathlib.TextEquality.{eq_iff}

abbrev pub Dict : Type 0 → Type 0
Dict V = List (String × V)

module _ {V : Type 0} where
  unfoldable pub get : String → Dict V → Option V
  get k [] = none
  get k ((j, v) ∷ m) = if str_eq j k then some v else get k m

  abbrev pub has : String → Dict V → Bool
  has k m = is_some (get k m)

  unfoldable pub put : String → V → Dict V → Dict V
  put k v [] = (k, v) ∷ []
  put k v ((j, w) ∷ m) = if str_eq j k then (j, v) ∷ m else (j, w) ∷ put k v m

  unfoldable pub delete : String → Dict V → Dict V
  delete k [] = []
  delete k ((j, w) ∷ m) = if str_eq j k then delete k m else (j, w) ∷ delete k m

  abbrev pub keys : Dict V → List String
  keys [] = []
  keys ((k, v) ∷ m) = k ∷ keys m

  abbrev pub values : Dict V → List V
  values [] = []
  values ((k, v) ∷ m) = v ∷ values m

  pub get-put :
      (k j : String) (v : V) (m : Dict V)
      → get j (put k v m) ≡ (if str_eq k j then some v else get j m)
  unfolding get put
  get-put k j v [] = refl
  get-put k j v ((i, w) ∷ m) = ground (arith, eq_iff k j, eq_iff i k, eq_iff i j, get-put k j v m)

  pub get-delete :
      (k j : String) (m : Dict V) → get j (delete k m) ≡ (if str_eq k j then none else get j m)
  unfolding get delete
  get-delete k j [] = ground arith
  get-delete k j ((i, w) ∷ m) = ground (arith, eq_iff k j, eq_iff i k, eq_iff i j, get-delete k j m)

  -- No key occurs twice.
  abbrev pub Distinct : Dict V → Type 0
  Distinct [] = Unit
  Distinct ((k, v) ∷ m) = (get k m ≡ none) × Distinct m

  pub put-Distinct : (k : String) (v : V) (m : Dict V) → Distinct m → Distinct (put k v m)
  unfolding put get
  put-Distinct k v [] d = (refl, tt)
  put-Distinct k v ((i, w) ∷ m) d =
      ground (arith, get-put k i v m, eq_iff i k, eq_iff k i, put-Distinct k v m d.1)

  pub delete-Distinct : (k : String) (m : Dict V) → Distinct m → Distinct (delete k m)
  unfolding delete
  delete-Distinct k [] d = tt
  delete-Distinct k ((i, w) ∷ m) d =
      ground (arith, get-delete k i m, eq_iff i k, eq_iff k i, delete-Distinct k m d.1)

  -- A predicate of every entry.
  abbrev pub Every {κ} : (String → V → Type κ) → Dict V → Type κ
  Every P [] = Unit
  Every P ((k, v) ∷ m) = P k v × Every P m

  pub put-Every {κ} :
      (P : String → V → Type κ) (k : String) (v : V) (m : Dict V)
      → P k v
      → Every P m
      → Every P (put k v m)
  unfolding put
  put-Every P k v [] p h = (p, tt)
  put-Every P k v ((i, w) ∷ m) p h = elim (Bool-cases (str_eq i k)) [
    | inl same ↦ rw (same, put) (rw ((eq_iff i k).0 same) p, h.1)
    | inr other ↦ rw (other, put) (h.0, put-Every P k v m p h.1)
  ]

  pub delete-Every {κ} :
      (P : String → V → Type κ) (k : String) (m : Dict V) → Every P m → Every P (delete k m)
  unfolding delete
  delete-Every P k [] h = tt
  delete-Every P k ((i, w) ∷ m) h = elim (Bool-cases (str_eq i k)) [
    | inl same ↦ rw (same, delete) (delete-Every P k m h.1)
    | inr other ↦ rw (other, delete) (h.0, delete-Every P k m h.1)
  ]

  get-Every {κ} :
      (P : String → V → Type κ) (k : String) (v : V) (m : Dict V)
      → Every P m
      → get k m ≡ some v
      → P k v
  unfolding get
  get-Every P k v [] h e = cc
  get-Every P k v ((i, w) ∷ m) h e = elim (Bool-cases (str_eq i k)) [
    | inl same ↦
        let at_key : some w ≡ some v = rw (same, get) at e in
        rw (← (eq_iff i k).0 same) (rw (← some-inj w v at_key) h.0)
    | inr other ↦ get-Every P k v m h.1 (rw (other, get) at e)
  ]
    where
      some-inj : (a b : V) → some a ≡ some b → a ≡ b
      some-inj a b q = cc

  pub delete-put : (k : String) (v : V) (m : Dict V) → delete k (put k v m) ≡ delete k m
  unfolding put delete
  delete-put k v [] = ground (arith, eq_iff k k)
  delete-put k v ((i, w) ∷ m) = ground (arith, eq_iff i k, delete-put k v m)

  pub get-put_self : (k : String) (v : V) (m : Dict V) → get k (put k v m) ≡ some v
  get-put_self k v m = ground (arith, get-put k k v m, eq_iff k k)

  pub has-put : (k j : String) (v : V) (m : Dict V) → has j (put k v m) ≡ (str_eq k j || has j m)
  has-put k j v m = ground (arith, get-put k j v m)

  pub has-delete : (k j : String) (m : Dict V) → has j (delete k m) ≡ (not (str_eq k j) && has j m)
  has-delete k j m = ground (arith, get-delete k j m)

  pub contains-keys : (m : Dict V) (j : String) → contains (keys m) j ≡ has j m
  unfolding get
  contains-keys [] j = refl
  contains-keys ((k, v) ∷ m) j = ground (arith, contains-keys m j)

pub contains-select :
    (p : String → Bool) (ks : List String) (j : String)
    → contains (select p ks) j ≡ (p j && contains ks j)
contains-select p [] j = ground arith
contains-select p (k ∷ ks) j = elim (Bool-cases (str_eq k j)) [
  | inl same ↦ rw ((eq_iff k j).0 same) (ground (arith, contains-select p ks j))
  | inr other ↦ ground (arith, contains-select p ks j)
]
