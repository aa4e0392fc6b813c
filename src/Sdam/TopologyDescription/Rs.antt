-- ===== src/Sdam/TopologyDescription/Rs.antt =====
-- lib/sdam/topology_description.js: the updates of a replica set, from a primary and from a member.
use mongodb_core.Prelude.{
  ℕ, ◌+◌, ◌≤◌, ◌≡◌, refl, inl, inr, String, Bool, true, false, not, List, arith, Bool-cases,
  or_text, opt_eq, Dict, has, put, delete, contains, select, keys,
}
use mongodb_core.Sdam.ServerDescription.{ServerDescription, blank_description, all_hosts}
use mongodb_core.Sdam.TopologyDescription.{
  replica_set_no_primary, Draft, check_has_primary, reset_old_primary, add_hosts, remove_missing,
  adopt_primary, is_stale, next_set_version, next_election_id, update_rs_from_primary,
  update_rs_no_primary_from_member, drop_member, drop_wrong_me, with_servers,
}
use mongodb_core.Sdam.TopologyDescription.Count.{
  primaries, weight_at, IsServerMap, primaries-put, primaries-delete, put-IsServerMap,
  delete-IsServerMap, reset_old_primary-IsServerMap, add_hosts-IsServerMap, delete_all-IsServerMap,
  reset_old_primary-primaries, add_hosts-primaries, delete_all-primaries-le, has-add_hosts,
  has-remove_missing, blank-weight, blank-address,
}

remove_missing-IsServerMap :
    (hs : List String) (m : Dict ServerDescription)
    → IsServerMap m
    → IsServerMap (remove_missing hs m)
unfolding remove_missing
remove_missing-IsServerMap hs m i =
    delete_all-IsServerMap (select (λ k. not (contains hs k)) (keys m)) m i

remove_missing-primaries-le :
    (hs : List String) (m : Dict ServerDescription)
    → IsServerMap m
    → primaries (remove_missing hs m) ≤ primaries m
unfolding remove_missing
remove_missing-primaries-le hs m i =
    delete_all-primaries-le (select (λ k. not (contains hs k)) (keys m)) m i

module _ (s : ServerDescription) (now : ℕ) (m : Dict ServerDescription) where
  adopt_primary-IsServerMap : IsServerMap m → IsServerMap (adopt_primary s now m)
  unfolding adopt_primary
  adopt_primary-IsServerMap i =
      remove_missing-IsServerMap (all_hosts s) _ (
        add_hosts-IsServerMap (all_hosts s) now _ (reset_old_primary-IsServerMap s.address now m i))

  -- The old primary, if there is one, is gone.
  adopt_primary-primaries-le :
      IsServerMap m
      → primaries m ≤ 1 + weight_at s.address m
      → primaries (adopt_primary s now m) ≤ 1
  unfolding adopt_primary
  adopt_primary-primaries-le i h = ground (
    arith,
    remove_missing-primaries-le (all_hosts s) _ (
        add_hosts-IsServerMap (all_hosts s) now _
          (reset_old_primary-IsServerMap s.address now m i)),
    add_hosts-primaries (all_hosts s) now (reset_old_primary s.address now m),
    reset_old_primary-primaries s.address now m i.distinct i.addressed,
  )

  pub has-adopt_primary : (j : String) → has j (adopt_primary s now m) ≡ contains (all_hosts s) j
  unfolding adopt_primary
  has-adopt_primary j = ground (
    arith,
    has-remove_missing (all_hosts s)
        (add_hosts (all_hosts s) now (reset_old_primary s.address now m)) j,
    has-add_hosts (all_hosts s) now (reset_old_primary s.address now m) j,
  )

-- A draft whose type is read off its map, which has at most one primary.
pub record IsSettled (d : Draft) : Type 0 where
  pub map : IsServerMap d.servers
  pub one : primaries d.servers ≤ 1
  pub type : d.type ≡ check_has_primary d.servers

-- The draft of each of the three outcomes.
abbrev pub rejected : ServerDescription → Draft → Draft
rejected s d = with_servers d (or_text d.set_name s.set_name) (delete s.address d.servers)

abbrev pub blanked : ServerDescription → ℕ → Draft → Draft
blanked s now d =
    with_servers d (or_text d.set_name s.set_name)
      (put s.address (blank_description s.address now) d.servers)

abbrev pub adopted : ServerDescription → ℕ → Draft → Draft
adopted s now d = record {
  type = check_has_primary (adopt_primary s now d.servers);
  set_name = or_text d.set_name s.set_name;
  max_set_version = next_set_version d.max_set_version s.set_version;
  max_election_id = next_election_id d.max_election_id s;
  servers = adopt_primary s now d.servers;
}

-- The primary is of the replica set that the draft is of, if that is known.
abbrev pub same_set : ServerDescription → Draft → Bool
same_set s d = opt_eq (or_text d.set_name s.set_name) s.set_name

module _ {κ} (P : Draft → Type κ) (s : ServerDescription) (now : ℕ) (d : Draft) where
  pub update_rs_from_primary_cases :
      (same_set s d ≡ false → P (rejected s d))
      → (same_set s d ≡ true
          → is_stale d.max_set_version d.max_election_id s ≡ true
          → P (blanked s now d))
      → (same_set s d ≡ true
          → is_stale d.max_set_version d.max_election_id s ≡ false
          → P (adopted s now d))
      → P (update_rs_from_primary s now d)
  unfolding update_rs_from_primary
  update_rs_from_primary_cases reject blank adopt = elim (Bool-cases (same_set s d)) [
    | inr other ↦ rw other (reject other)
    | inl same ↦ elim (Bool-cases (is_stale d.max_set_version d.max_election_id s)) [
      | inl stale ↦ rw (same, stale) (blank same stale)
      | inr fresh ↦ rw (same, fresh) (adopt same fresh)
    ]
  ]

pub update_rs_from_primary-IsSettled :
    (s : ServerDescription) (now : ℕ) (d : Draft)
    → IsServerMap d.servers
    → primaries d.servers ≤ 1 + weight_at s.address d.servers
    → IsSettled (update_rs_from_primary s now d)
update_rs_from_primary-IsSettled s now d i h =
    update_rs_from_primary_cases IsSettled s now d
      (λ _. record {
        map = delete-IsServerMap s.address d.servers i;
        one = omega (arith, primaries-delete s.address d.servers i.distinct);
        type = refl;
      })
      (λ _ _. record {
        map =
            put-IsServerMap s.address (blank_description s.address now) d.servers
              (blank-address s.address now) i;
        one = omega (
          arith,
          primaries-put s.address (blank_description s.address now) d.servers,
          blank-weight s.address now,
        );
        type = refl;
      })
      (λ _ _. record {
        map = adopt_primary-IsServerMap s now d.servers i;
        one = adopt_primary-primaries-le s now d.servers i h;
        type = refl;
      })

pub drop_member-IsServerMap :
    (s : ServerDescription) (d : Draft) → IsServerMap d.servers → IsServerMap (drop_member s d)
drop_member-IsServerMap s d i = ground (arith, delete-IsServerMap s.address d.servers i)

pub drop_member-primaries-le :
    (s : ServerDescription) (d : Draft)
    → IsServerMap d.servers
    → primaries (drop_member s d) ≤ primaries d.servers
drop_member-primaries-le s d i = ground (arith, primaries-delete s.address d.servers i.distinct)

drop_wrong_me-IsServerMap :
    (s : ServerDescription) (m : Dict ServerDescription)
    → IsServerMap m
    → IsServerMap (drop_wrong_me s m)
drop_wrong_me-IsServerMap s m i = ground (arith, delete-IsServerMap s.address m i)

drop_wrong_me-primaries-le :
    (s : ServerDescription) (m : Dict ServerDescription)
    → IsServerMap m
    → primaries (drop_wrong_me s m) ≤ primaries m
drop_wrong_me-primaries-le s m i = ground (arith, primaries-delete s.address m i.distinct)

-- A member's answer brings in no primary, and keeps the type.
pub update_rs_no_primary_from_member-keeps :
    (s : ServerDescription) (now : ℕ) (d : Draft)
    → IsServerMap d.servers
    → IsServerMap (update_rs_no_primary_from_member s now d).servers
      × (primaries (update_rs_no_primary_from_member s now d).servers ≤ primaries d.servers)
      × ((update_rs_no_primary_from_member s now d).type ≡ replica_set_no_primary)
unfolding update_rs_no_primary_from_member
update_rs_no_primary_from_member-keeps s now d i = elim (Bool-cases (same_set s d)) [
  | inl same ↦ rw same (
    drop_wrong_me-IsServerMap s _ (add_hosts-IsServerMap (all_hosts s) now d.servers i),
    omega (
      arith,
      drop_wrong_me-primaries-le s (add_hosts (all_hosts s) now d.servers)
          (add_hosts-IsServerMap (all_hosts s) now d.servers i),
      add_hosts-primaries (all_hosts s) now d.servers,
    ),
    refl,
  )
  | inr other ↦ rw other (
    delete-IsServerMap s.address d.servers i,
    omega (arith, primaries-delete s.address d.servers i.distinct),
    refl,
  )
]
