-- ===== src/Sdam/TopologyDescription/Count.antt =====
-- lib/sdam/topology_description.js: how the edits of the server map change the number of primaries.
use mongodb_core.Prelude.{
  ℕ, ◌+◌, ◌≤◌, ◌<◌, ◌≡◌, refl, ◌∙◌, ◌⊎◌, inl, inr, String, true, false, not, ◌&&◌, ◌||◌, Option,
  none, some, List, [], ◌∷◌, arith, if◌then◌else◌, str_eq, eq_iff, eq_refl, Bool-cases, Dict, get,
  has, put, delete, keys, Distinct, Every, put-Distinct, delete-Distinct, put-Every, delete-Every,
  has-put, has-delete, contains-keys, contains-select, select, contains,
}
use mongodb_core.Sdam.ServerDescription.{unknown, ServerDescription, blank_description, is_primary}
use mongodb_core.Sdam.TopologyDescription.{
  has_primary, reset_old_primary, add_hosts, delete_all, remove_missing,
}

-- One for a primary, none for another server.
abbrev pub weight : ServerDescription → ℕ
weight s = if is_primary s.type then 1 else 0

abbrev pub primaries : Dict ServerDescription → ℕ
primaries [] = 0
primaries ((k, s) ∷ m) = weight s + primaries m

abbrev weight_of : Option ServerDescription → ℕ
weight_of none = 0
weight_of (some s) = weight s

abbrev pub weight_at : String → Dict ServerDescription → ℕ
weight_at k m = weight_of (get k m)

-- Each server stands under its own address.
abbrev pub Addressed : Dict ServerDescription → Type 0
Addressed = Every λ k s. s.address ≡ k

pub blank-weight : (a : String) (now : ℕ) → weight (blank_description a now) ≡ 0
unfolding blank_description
blank-weight a now = refl

pub blank-address : (a : String) (now : ℕ) → (blank_description a now).address ≡ a
unfolding blank_description
blank-address a now = refl

pub blank-unknown : (a : String) (now : ℕ) → (blank_description a now).type ≡ unknown
unfolding blank_description
blank-unknown a now = refl

pub has_primary_iff :
    (m : Dict ServerDescription)
    → ((has_primary m ≡ true) × (0 < primaries m)) ⊎ ((has_primary m ≡ false) × (primaries m ≡ 0))
unfolding has_primary
has_primary_iff [] = inr (refl, refl)
has_primary_iff ((k, s) ∷ m) = ground (arith, has_primary_iff m)

pub primaries-put :
    (k : String) (s : ServerDescription) (m : Dict ServerDescription)
    → primaries (put k s m) + weight_at k m ≡ primaries m + weight s
unfolding put get
primaries-put k s [] = omega arith
primaries-put k s ((j, t) ∷ m) = ground (arith, primaries-put k s m)

primaries-delete_absent :
    (k : String) (m : Dict ServerDescription) → get k m ≡ none → delete k m ≡ m
unfolding delete get
primaries-delete_absent k [] e = refl
primaries-delete_absent k ((j, t) ∷ m) e = ground (arith, primaries-delete_absent k m)

pub primaries-delete :
    (k : String) (m : Dict ServerDescription)
    → Distinct m
    → primaries (delete k m) + weight_at k m ≡ primaries m
unfolding delete get
primaries-delete k [] d = refl
primaries-delete k ((j, t) ∷ m) d =
    ground (arith, eq_iff j k, primaries-delete_absent k m, primaries-delete k m d.1)

-- Unless the map has no other primary, the loop takes the type of exactly one away.
pub reset_old_primary-primaries :
    (a : String) (now : ℕ) (m : Dict ServerDescription)
    → Distinct m
    → Addressed m
    → (primaries (reset_old_primary a now m) + 1 ≡ primaries m)
      ⊎ ((primaries m ≡ weight_at a m) × (reset_old_primary a now m ≡ m))
unfolding reset_old_primary get
reset_old_primary-primaries a now [] d h = inr (refl, refl)
reset_old_primary-primaries a now ((k, s) ∷ m) d h = ground (
  arith,
  eq_iff k a,
  eq_iff s.address a,
  blank-weight s.address now,
  reset_old_primary-primaries a now m d.1 h.1,
)

has-reset_old_primary :
    (a : String) (now : ℕ) (m : Dict ServerDescription) (j : String)
    → has j (reset_old_primary a now m) ≡ has j m
unfolding reset_old_primary get
has-reset_old_primary a now [] j = refl
has-reset_old_primary a now ((k, s) ∷ m) j = ground (arith, has-reset_old_primary a now m j)

none_of_has : (k : String) (m : Dict ServerDescription) → has k m ≡ false → get k m ≡ none
none_of_has k m h = ground arith

reset_old_primary-Distinct :
    (a : String) (now : ℕ) (m : Dict ServerDescription)
    → Distinct m
    → Distinct (reset_old_primary a now m)
unfolding reset_old_primary
reset_old_primary-Distinct a now [] d = tt
reset_old_primary-Distinct a now ((k, s) ∷ m) d = ground (
  arith,
  has-reset_old_primary a now m k,
  none_of_has k (reset_old_primary a now m),
  reset_old_primary-Distinct a now m d.1,
)

reset_old_primary-Addressed :
    (a : String) (now : ℕ) (m : Dict ServerDescription)
    → Addressed m
    → Addressed (reset_old_primary a now m)
unfolding reset_old_primary
reset_old_primary-Addressed a now [] h = tt
reset_old_primary-Addressed a now ((k, s) ∷ m) h =
    ground (arith, blank-address s.address now, reset_old_primary-Addressed a now m h.1)

-- What every map of servers satisfies.
pub record IsServerMap (m : Dict ServerDescription) : Type 0 where
  pub distinct : Distinct m
  pub addressed : Addressed m

pub put-IsServerMap :
    (k : String) (s : ServerDescription) (m : Dict ServerDescription)
    → s.address ≡ k
    → IsServerMap m
    → IsServerMap (put k s m)
put-IsServerMap k s m e h = record {
  distinct = put-Distinct k s m h.distinct;
  addressed = put-Every (λ j t. t.address ≡ j) k s m e h.addressed;
}

pub delete-IsServerMap :
    (k : String) (m : Dict ServerDescription) → IsServerMap m → IsServerMap (delete k m)
delete-IsServerMap k m h = record {
  distinct = delete-Distinct k m h.distinct;
  addressed = delete-Every (λ j t. t.address ≡ j) k m h.addressed;
}

pub reset_old_primary-IsServerMap :
    (a : String) (now : ℕ) (m : Dict ServerDescription)
    → IsServerMap m
    → IsServerMap (reset_old_primary a now m)
reset_old_primary-IsServerMap a now m h = record {
  distinct = reset_old_primary-Distinct a now m h.distinct;
  addressed = reset_old_primary-Addressed a now m h.addressed;
}

add_host-IsServerMap :
    (h : String) (now : ℕ) (m : Dict ServerDescription)
    → IsServerMap m
    → IsServerMap (if has h m then m else put h (blank_description h now) m)
add_host-IsServerMap h now m i =
    ground (arith, put-IsServerMap h (blank_description h now) m (blank-address h now) i)

pub add_hosts-IsServerMap :
    (hs : List String) (now : ℕ) (m : Dict ServerDescription)
    → IsServerMap m
    → IsServerMap (add_hosts hs now m)
unfolding add_hosts
add_hosts-IsServerMap [] now m i = i
add_hosts-IsServerMap (h ∷ hs) now m i =
    add_hosts-IsServerMap hs now _ (add_host-IsServerMap h now m i)

pub delete_all-IsServerMap :
    (ks : List String) (m : Dict ServerDescription) → IsServerMap m → IsServerMap (delete_all ks m)
unfolding delete_all
delete_all-IsServerMap [] m i = i
delete_all-IsServerMap (k ∷ ks) m i =
    delete_all-IsServerMap ks (delete k m) (delete-IsServerMap k m i)

add_host-primaries :
    (h : String) (now : ℕ) (m : Dict ServerDescription)
    → primaries (if has h m then m else put h (blank_description h now) m) ≡ primaries m
add_host-primaries h now m =
    ground (arith, primaries-put h (blank_description h now) m, blank-weight h now)

pub add_hosts-primaries :
    (hs : List String) (now : ℕ) (m : Dict ServerDescription)
    → primaries (add_hosts hs now m) ≡ primaries m
unfolding add_hosts
add_hosts-primaries [] now m = refl
add_hosts-primaries (h ∷ hs) now m = add_hosts-primaries hs now _ ∙ add_host-primaries h now m

pub delete_all-primaries-le :
    (ks : List String) (m : Dict ServerDescription)
    → IsServerMap m
    → primaries (delete_all ks m) ≤ primaries m
unfolding delete_all
delete_all-primaries-le [] m i = omega arith
delete_all-primaries-le (k ∷ ks) m i = omega (
  arith,
  primaries-delete k m i.distinct,
  delete_all-primaries-le ks (delete k m) (delete-IsServerMap k m i),
)

add_host-has :
    (h j : String) (now : ℕ) (m : Dict ServerDescription)
    → has j (if has h m then m else put h (blank_description h now) m) ≡ (str_eq h j || has j m)
add_host-has h j now m = elim (Bool-cases (str_eq h j)) [
  | inl same ↦
      rw ((eq_iff h j).0 same) (ground (arith, has-put j j (blank_description j now) m, eq_refl j))
  | inr other ↦ ground (arith, has-put h j (blank_description h now) m)
]

pub has-add_hosts :
    (hs : List String) (now : ℕ) (m : Dict ServerDescription) (j : String)
    → has j (add_hosts hs now m) ≡ (contains hs j || has j m)
unfolding add_hosts
has-add_hosts [] now m j = refl
has-add_hosts (h ∷ hs) now m j = ground (
  arith,
  add_host-has h j now m,
  has-add_hosts hs now (if has h m then m else put h (blank_description h now) m) j,
)

has-delete_all :
    (ks : List String) (m : Dict ServerDescription) (j : String)
    → has j (delete_all ks m) ≡ (not (contains ks j) && has j m)
unfolding delete_all
has-delete_all [] m j = refl
has-delete_all (k ∷ ks) m j = ground (arith, has-delete k j m, has-delete_all ks (delete k m) j)

pub has-remove_missing :
    (hs : List String) (m : Dict ServerDescription) (j : String)
    → has j (remove_missing hs m) ≡ (contains hs j && has j m)
unfolding remove_missing
has-remove_missing hs m j = ground (
  arith,
  has-delete_all (select (λ k. not (contains hs k)) (keys m)) m j,
  contains-select (λ k. not (contains hs k)) (keys m) j,
  contains-keys m j,
)
