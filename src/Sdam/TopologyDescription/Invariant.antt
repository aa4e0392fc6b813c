-- ===== src/Sdam/TopologyDescription/Invariant.antt =====
-- lib/sdam/topology_description.js: the invariant of a topology description, kept by `update`, which
-- never throws.
use mongodb_core.Errors.{Result, ok, throw}
use mongodb_core.Prelude.{
  ℕ, ◌+◌, ◌≤◌, ◌≡◌, refl, sym, ◌∙◌, ◌⊎◌, String, true, false, Option, arith, truthy, or_text,
  is_some, Dict, delete,
}
use mongodb_core.Sdam.ServerDescription.{
  ServerType, standalone, mongos, possible_primary, rs_primary, rs_secondary, rs_arbiter, rs_other,
  rs_ghost, unknown, ServerDescription, is_primary,
}
use mongodb_core.Sdam.TopologyDescription.{
  replica_set_no_primary, Draft, check_has_primary, update_rs_from_primary,
  update_rs_no_primary_from_member, update_rs_with_primary_from_member, with_servers,
  no_primary_step, with_primary_step, drop_member,
}
use mongodb_core.Sdam.TopologyDescription.Count.{
  weight, primaries, weight_at, IsServerMap, has_primary_iff, primaries-delete, delete-IsServerMap,
}
use mongodb_core.Sdam.TopologyDescription.Rs.{
  IsSettled, update_rs_from_primary-IsSettled, update_rs_from_primary_cases,
  update_rs_no_primary_from_member-keeps, drop_member-IsServerMap, drop_member-primaries-le,
}

check_has_primary_none :
    (m : Dict ServerDescription) → primaries m ≡ 0 → check_has_primary m ≡ replica_set_no_primary
unfolding check_has_primary
check_has_primary_none m h = ground (arith, has_primary_iff m)

IsSettled-none :
    (d : Draft) (n : ℕ)
    → IsServerMap d.servers
    → primaries d.servers ≡ 0
    → d.type ≡ replica_set_no_primary
    → IsSettled d × (primaries d.servers ≤ n)
IsSettled-none d n i p e = (
  record { map = i; one = omega arith; type = e ∙ sym (check_has_primary_none d.servers p) },
  omega arith,
)

weight_zero :
    (s : ServerDescription) (ty : ServerType) → s.type ≡ ty → is_primary ty ≡ false → weight s ≡ 0
weight_zero s ty t h = rw t (rw h refl)

-- A draft of a replica set with no primary but the server at hand stays such, or gets its primary.
module _ (s : ServerDescription) (now : ℕ) (d : Draft) (i : IsServerMap d.servers)
    (p : primaries d.servers ≡ weight s) (w : weight_at s.address d.servers ≡ weight s)
    (e : d.type ≡ replica_set_no_primary) where
  deleted-IsSettled :
      IsSettled (record d { servers = delete s.address d.servers })
      × (primaries (delete s.address d.servers) ≤ weight s)
  deleted-IsSettled =
      IsSettled-none (record d { servers = delete s.address d.servers }) (weight s)
        (delete-IsServerMap s.address d.servers i)
        (omega (arith, primaries-delete s.address d.servers i.distinct)) e

  member-IsSettled :
      weight s ≡ 0
      → IsSettled (update_rs_no_primary_from_member s now d)
        × (primaries (update_rs_no_primary_from_member s now d).servers ≤ weight s)
  member-IsSettled z =
      let (map, fewer, type) = update_rs_no_primary_from_member-keeps s now d i in
      IsSettled-none (update_rs_no_primary_from_member s now d) (weight s) map (omega arith) type

  kept-IsSettled : weight s ≡ 0 → IsSettled d × (primaries d.servers ≤ weight s)
  kept-IsSettled z = IsSettled-none d (weight s) i (omega arith) e

  pub no_primary_step-IsSettled :
      (ty : ServerType)
      → s.type ≡ ty
      → IsSettled (no_primary_step s now ty d)
        × (primaries (no_primary_step s now ty d).servers ≤ weight s)
  unfolding no_primary_step
  no_primary_step-IsSettled rs_primary t =
      let settled = update_rs_from_primary-IsSettled s now d i (omega arith) in
      let primary : weight s ≡ 1 = rw t in (settled, rw primary settled.one)
  no_primary_step-IsSettled mongos t = deleted-IsSettled
  no_primary_step-IsSettled unknown t = deleted-IsSettled
  no_primary_step-IsSettled rs_secondary t = member-IsSettled (weight_zero s rs_secondary t refl)
  no_primary_step-IsSettled rs_arbiter t = member-IsSettled (weight_zero s rs_arbiter t refl)
  no_primary_step-IsSettled rs_other t = member-IsSettled (weight_zero s rs_other t refl)
  no_primary_step-IsSettled standalone t = kept-IsSettled (weight_zero s standalone t refl)
  no_primary_step-IsSettled possible_primary t =
      kept-IsSettled (weight_zero s possible_primary t refl)
  no_primary_step-IsSettled rs_ghost t = kept-IsSettled (weight_zero s rs_ghost t refl)

-- The set's name is known, or the primary at hand tells it.
abbrev pub Named : ServerDescription → Draft → Type 0
Named s d = (truthy d.set_name ≡ true) ⊎ ((is_primary s.type ≡ true) × (truthy s.set_name ≡ true))

truthy-or_text :
    (a b : Option String) → (truthy a ≡ true) ⊎ (truthy b ≡ true) → truthy (or_text a b) ≡ true
truthy-or_text a b h = ground arith

update_rs_from_primary-set_name :
    (s : ServerDescription) (now : ℕ) (d : Draft)
    → (update_rs_from_primary s now d).set_name ≡ or_text d.set_name s.set_name
update_rs_from_primary-set_name s now d =
    update_rs_from_primary_cases (λ e. e.set_name ≡ or_text d.set_name s.set_name) s now d
      (λ _. refl) (λ _ _. refl) (λ _ _. refl)

-- What the last block gives: no error, and a settled draft with a name.
abbrev pub Settles : Result Draft → Type 0
Settles (throw e) = ⊥
Settles (ok d) = IsSettled d × (truthy d.set_name ≡ true)

settled_read :
    (d : Draft) (m : Dict ServerDescription)
    → IsServerMap m
    → primaries m ≤ 1
    → truthy d.set_name ≡ true
    → Settles (ok (with_servers d d.set_name m))
settled_read d m i p n = (record { map = i; one = p; type = refl }, n)

module _ (s : ServerDescription) (now : ℕ) (d : Draft) (i : IsServerMap d.servers)
    (p : primaries d.servers ≤ 1 + weight_at s.address d.servers)
    (w : weight_at s.address d.servers ≤ weight s) (n : Named s d) where
  not_primary_named : weight s ≡ 0 → truthy d.set_name ≡ true
  not_primary_named z = ground arith

  member-Settles : weight s ≡ 0 → Settles (update_rs_with_primary_from_member s d)
  unfolding update_rs_with_primary_from_member
  member-Settles z =
      let t : is_some d.set_name ≡ true = ground (arith, not_primary_named z) in
      rw (t, update_rs_with_primary_from_member)
        (settled_read d (drop_member s d) (drop_member-IsServerMap s d i)
          (omega (arith, drop_member-primaries-le s d i)) (not_primary_named z))

  deleted-Settles :
      weight s ≡ 0 → Settles (ok (with_servers d d.set_name (delete s.address d.servers)))
  deleted-Settles z =
      settled_read d (delete s.address d.servers) (delete-IsServerMap s.address d.servers i)
        (omega (arith, primaries-delete s.address d.servers i.distinct)) (not_primary_named z)

  kept-Settles : weight s ≡ 0 → Settles (ok (record d { type = check_has_primary d.servers }))
  kept-Settles z = settled_read d d.servers i (omega arith) (not_primary_named z)

  pub with_primary_step-Settles :
      (ty : ServerType) → s.type ≡ ty → Settles (with_primary_step s now ty d)
  unfolding with_primary_step
  with_primary_step-Settles rs_primary t = (
    update_rs_from_primary-IsSettled s now d i p,
    rw (update_rs_from_primary-set_name s now d)
        (truthy-or_text d.set_name s.set_name (ground arith)),
  )
  with_primary_step-Settles standalone t = deleted-Settles (weight_zero s standalone t refl)
  with_primary_step-Settles mongos t = deleted-Settles (weight_zero s mongos t refl)
  with_primary_step-Settles rs_secondary t = member-Settles (weight_zero s rs_secondary t refl)
  with_primary_step-Settles rs_arbiter t = member-Settles (weight_zero s rs_arbiter t refl)
  with_primary_step-Settles rs_other t = member-Settles (weight_zero s rs_other t refl)
  with_primary_step-Settles possible_primary t =
      kept-Settles (weight_zero s possible_primary t refl)
  with_primary_step-Settles rs_ghost t = kept-Settles (weight_zero s rs_ghost t refl)
  with_primary_step-Settles unknown t = kept-Settles (weight_zero s unknown t refl)
