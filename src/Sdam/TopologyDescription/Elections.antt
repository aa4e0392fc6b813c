-- ===== src/Sdam/TopologyDescription/Elections.antt =====
-- lib/sdam/topology_description.js: the highest set version and election on record.
use mongodb_core.Errors.{Result, ok, throw, ◌>>=◌}
use mongodb_core.Prelude.{
  ℕ, ◌≤◌, ◌<◌, ◌≡◌, refl, ◌≢◌, ◌⊎◌, inl, inr, false, Option, none, some, arith, Bool-cases, is_some,
}
use mongodb_core.Sdam.ServerDescription.{
  ServerType, standalone, mongos, rs_primary, rs_secondary, rs_arbiter, rs_other, ElectionId,
  ServerDescription,
}
use mongodb_core.Sdam.TopologyDescription.{
  TopologyType, single, replica_set_no_primary, replica_set_with_primary, sharded, unknown_topology,
  TopologyDescription, topology_description, Draft, mongos_or_unknown, is_stale, oid_of,
  next_election_id, next_set_version, update_rs_from_primary, update_rs_no_primary_from_member,
  update_rs_with_primary_from_member, from_unknown, unknown_step, from_sharded, from_no_primary,
  no_primary_step, from_with_primary, with_primary_block, with_primary_step, update_draft,
  update_from, update, initial_draft, finish,
}
use mongodb_core.Sdam.TopologyDescription.Rs.{same_set, update_rs_from_primary_cases}

abbrev pub value : Option ℕ → ℕ
value none = 0
value (some n) = n

-- What is on record: an election only together with a set version that is not zero.
pub record IsRecorded (v : Option ℕ) (e : Option ElectionId) : Type 0 where
  pub paired : (oid_of e ≡ none) ⊎ (0 < value v)

-- The second record is whole and nowhere behind the first.
pub record Follows (v : Option ℕ) (e : Option ElectionId) (v' : Option ℕ) (e' : Option ElectionId)
    : Type 0 where
  pub recorded : IsRecorded v' e'
  pub version : value v ≤ value v'
  pub election : value (oid_of e) ≤ value (oid_of e')

abbrev FollowsDraft : Draft → Draft → Type 0
FollowsDraft d f = Follows d.max_set_version d.max_election_id f.max_set_version f.max_election_id

adopt-Follows :
    (v : Option ℕ) (e : Option ElectionId) (s : ServerDescription)
    → IsRecorded v e
    → s.set_version ≢ some 0
    → is_stale v e s ≡ false
    → Follows v e (next_set_version v s.set_version) (next_election_id e s)
unfolding is_stale
adopt-Follows v e s r z h = record {
  recorded = ground arith;
  version = ground arith;
  election = ground arith;
}

Follows-refl : (v : Option ℕ) (e : Option ElectionId) → IsRecorded v e → Follows v e v e
Follows-refl v e r = record { recorded = r; version = omega arith; election = omega arith }

Follows-trans : (a b c : Draft) → FollowsDraft a b → FollowsDraft b c → FollowsDraft a c
Follows-trans a b c f g = record {
  recorded = g.recorded;
  version = omega (arith, f.version, g.version);
  election = omega (arith, f.election, g.election);
}

-- Nothing is said of an error.
abbrev OkAll : (Draft → Type 0) → Result Draft → Type 0
OkAll P (throw e) = Unit
OkAll P (ok d) = P d

module _ (s : ServerDescription) (now : ℕ) (z : s.set_version ≢ some 0) where
  from_primary-Follows :
      (d : Draft)
      → IsRecorded d.max_set_version d.max_election_id
      → FollowsDraft d (update_rs_from_primary s now d)
  from_primary-Follows d r =
      update_rs_from_primary_cases (FollowsDraft d) s now d
        (λ _. Follows-refl d.max_set_version d.max_election_id r)
        (λ _ _. Follows-refl d.max_set_version d.max_election_id r)
        (λ _ fresh. adopt-Follows d.max_set_version d.max_election_id s r z fresh)

  member-same :
      (d : Draft)
      → ((update_rs_no_primary_from_member s now d).max_set_version ≡ d.max_set_version)
        × ((update_rs_no_primary_from_member s now d).max_election_id ≡ d.max_election_id)
  unfolding update_rs_no_primary_from_member
  member-same d = elim (Bool-cases (same_set s d)) [
    | inl same ↦ rw same (refl, refl)
    | inr other ↦ rw other (refl, refl)
  ]

  member-Follows :
      (d : Draft)
      → IsRecorded d.max_set_version d.max_election_id
      → FollowsDraft d (update_rs_no_primary_from_member s now d)
  member-Follows d r =
      rw ((member-same d).0, (member-same d).1) (Follows-refl d.max_set_version d.max_election_id r)

  no_primary_step-Follows :
      (ty : ServerType) (d : Draft)
      → IsRecorded d.max_set_version d.max_election_id
      → FollowsDraft d (no_primary_step s now ty d)
  unfolding no_primary_step
  no_primary_step-Follows rs_primary d r = from_primary-Follows d r
  no_primary_step-Follows rs_secondary d r = member-Follows d r
  no_primary_step-Follows rs_arbiter d r = member-Follows d r
  no_primary_step-Follows rs_other d r = member-Follows d r
  no_primary_step-Follows _ d r = Follows-refl d.max_set_version d.max_election_id r

  with_primary_member-Follows :
      (d : Draft)
      → IsRecorded d.max_set_version d.max_election_id
      → OkAll (FollowsDraft d) (update_rs_with_primary_from_member s d)
  unfolding update_rs_with_primary_from_member
  with_primary_member-Follows d r = elim (Bool-cases (is_some d.set_name)) [
    | inl named ↦ rw named (Follows-refl d.max_set_version d.max_election_id r)
    | inr nameless ↦ rw nameless tt
  ]

  with_primary_step-Follows :
      (ty : ServerType) (d : Draft)
      → IsRecorded d.max_set_version d.max_election_id
      → OkAll (FollowsDraft d) (with_primary_step s now ty d)
  unfolding with_primary_step
  with_primary_step-Follows rs_primary d r = from_primary-Follows d r
  with_primary_step-Follows rs_secondary d r = with_primary_member-Follows d r
  with_primary_step-Follows rs_arbiter d r = with_primary_member-Follows d r
  with_primary_step-Follows rs_other d r = with_primary_member-Follows d r
  with_primary_step-Follows _ d r = Follows-refl d.max_set_version d.max_election_id r

  last_block-Follows :
      (ty : TopologyType) (d : Draft)
      → IsRecorded d.max_set_version d.max_election_id
      → OkAll (FollowsDraft d) (with_primary_block s now ty d)
  unfolding with_primary_block
  last_block-Follows replica_set_with_primary d r = with_primary_step-Follows s.type d r
  last_block-Follows _ d r = Follows-refl d.max_set_version d.max_election_id r

  OkAll-trans :
      (a b : Draft) (r : Result Draft)
      → FollowsDraft a b
      → OkAll (FollowsDraft b) r
      → OkAll (FollowsDraft a) r
  OkAll-trans a b (throw e) f g = tt
  OkAll-trans a b (ok c) f g = Follows-trans a b c f g

  module _ (t : TopologyDescription) (r : IsRecorded t.max_set_version t.max_election_id) where
    abbrev start : TopologyType → Draft
    start ty = initial_draft ty t s

    sharded-Follows :
        OkAll
          (FollowsDraft (start sharded))
          (from_with_primary s now (from_no_primary s now (from_sharded s (start sharded))))
    unfolding from_sharded from_no_primary from_with_primary
    sharded-Follows = elim (Bool-cases (mongos_or_unknown s.type)) [
      | inl fits ↦ rw fits (Follows-refl t.max_set_version t.max_election_id r)
      | inr odd ↦ rw odd (Follows-refl t.max_set_version t.max_election_id r)
    ]

    start_no_primary-Follows : OkAll (FollowsDraft (start replica_set_no_primary)) (
        from_with_primary s now
          (from_no_primary s now (from_sharded s (start replica_set_no_primary))))
    unfolding from_sharded from_no_primary from_with_primary
    start_no_primary-Follows =
        let d = start replica_set_no_primary in
        let e = no_primary_step s now s.type d in
        let f : FollowsDraft d e = no_primary_step-Follows s.type d r in
        OkAll-trans d e (with_primary_block s now e.type e) f
          (last_block-Follows e.type e f.recorded)

    start_with_primary-Follows : OkAll (FollowsDraft (start replica_set_with_primary)) (
        from_with_primary s now
          (from_no_primary s now (from_sharded s (start replica_set_with_primary))))
    unfolding from_sharded from_no_primary from_with_primary
    start_with_primary-Follows =
        last_block-Follows replica_set_with_primary (start replica_set_with_primary) r

    unknown-Follows :
        (ty : ServerType)
        → OkAll (FollowsDraft (start unknown_topology)) (
            from_with_primary s now
              (from_no_primary s now (from_sharded s (unknown_step s ty (start unknown_topology)))))
    unfolding unknown_step from_sharded from_no_primary from_with_primary
    unknown-Follows standalone = Follows-refl t.max_set_version t.max_election_id r
    unknown-Follows mongos = sharded-Follows
    unknown-Follows rs_primary = start_with_primary-Follows
    unknown-Follows _ = start_no_primary-Follows

    update_draft-Follows :
        (ty : TopologyType)
        → ty ≢ single
        → OkAll (FollowsDraft (start ty)) (update_draft s now (start ty))
    unfolding update_draft from_unknown from_sharded
    update_draft-Follows single x = absurd (x refl)
    update_draft-Follows unknown_topology x = unknown-Follows s.type
    update_draft-Follows sharded x = sharded-Follows
    update_draft-Follows replica_set_no_primary x = start_no_primary-Follows
    update_draft-Follows replica_set_with_primary x = start_with_primary-Follows

-- The record of the second description is whole and nowhere behind that of the first.
abbrev pub FollowsTopology : TopologyDescription → TopologyDescription → Type 0
FollowsTopology t u =
    Follows t.max_set_version t.max_election_id u.max_set_version u.max_election_id

finish-Follows :
    (t : TopologyDescription) (s : ServerDescription) (d : Draft)
    → Follows t.max_set_version t.max_election_id d.max_set_version d.max_election_id
    → FollowsTopology t (finish t s d)
unfolding topology_description
finish-Follows t s d f = record {
  recorded = ground arith;
  version = ground arith;
  election = f.election;
}

finish_ok-Follows :
    (t : TopologyDescription) (s : ServerDescription) (d : Draft) (m : Result Draft)
    → d.max_set_version ≡ t.max_set_version
    → d.max_election_id ≡ t.max_election_id
    → OkAll (FollowsDraft d) m
    → (u : TopologyDescription) → (m >>= λ e. ok (finish t s e)) ≡ ok u
    → FollowsTopology t u
finish_ok-Follows t s d (throw e) v w h u q = cc
finish_ok-Follows t s d (ok e) v w h u q =
    let same : finish t s e ≡ u = cc in rw (← same) (finish-Follows t s e (rw (← v, ← w) h))

update_from-Follows :
    (t : TopologyDescription) (s : ServerDescription) (now : ℕ) (ty : TopologyType)
    → IsRecorded t.max_set_version t.max_election_id
    → s.set_version ≢ some 0
    → (u : TopologyDescription) → update_from ty t s now ≡ ok u
    → FollowsTopology t u
unfolding update_from
update_from-Follows t s now single r z u q =
    finish_ok-Follows t s (initial_draft single t s) (ok (initial_draft single t s)) refl refl
      (Follows-refl t.max_set_version t.max_election_id r) u q
update_from-Follows t s now other r z u q =
    finish_ok-Follows t s (initial_draft other t s) (update_draft s now (initial_draft other t s))
      refl refl (update_draft-Follows s now z t r other (λ x. cc)) u q

-- The set version and the election on record never go back, whatever server reports, as long as no
-- server reports the set version zero: neither is lower after an update, and an election is on record
-- only with a set version.
pub update-FollowsTopology :
    (t u : TopologyDescription) (s : ServerDescription) (now : ℕ)
    → IsRecorded t.max_set_version t.max_election_id
    → s.set_version ≢ some 0
    → update t s now ≡ ok u
    → FollowsTopology t u
unfolding update
update-FollowsTopology t u s now r z q = update_from-Follows t s now t.type r z u q
