-- ===== src/Sdam/TopologyDescription/Members.antt =====
-- lib/sdam/topology_description.js: what becomes of a server that does not answer, and of one of a kind
-- that the topology has no place for.
use mongodb_core.Errors.{ok, ◌>>=◌}
use mongodb_core.Prelude.{
  ℕ, ◌≡◌, refl, ap, ◌∙◌, ◌⊎◌, inl, inr, String, none, some, arith, if◌then◌else◌, str_eq, Dict, get,
  put, delete, get-put, get-delete,
}
use mongodb_core.Sdam.ServerDescription.{standalone, mongos, unknown, ServerDescription}
use mongodb_core.Sdam.TopologyDescription.{
  TopologyType, replica_set_no_primary, unknown_topology, TopologyDescription, topology_description,
  Draft, from_unknown, unknown_step, from_sharded, from_no_primary, no_primary_step,
  from_with_primary, update_draft, update_from, update, initial_draft, finish,
}

-- The map of `t` with `s` put in and taken out again.
abbrev without : TopologyDescription → ServerDescription → Dict ServerDescription
without t s = delete s.address (put s.address s t.servers)

get-without :
    (t : TopologyDescription) (s : ServerDescription) (j : String)
    → get j (without t s) ≡ (if str_eq s.address j then none else get j t.servers)
get-without t s j =
    ground
      (arith, get-delete s.address j (put s.address s t.servers), get-put s.address j s t.servers)

abbrev dropped : TopologyDescription → ServerDescription → TopologyType → Draft
dropped t s ty = record (initial_draft ty t s) { servers = without t s }

no_primary_drops :
    (t : TopologyDescription) (s : ServerDescription) (now : ℕ)
    → t.type ≡ replica_set_no_primary
    → (s.type ≡ unknown) ⊎ (s.type ≡ mongos)
    → update t s now ≡ ok (finish t s (dropped t s replica_set_no_primary))
unfolding update update_from update_draft from_unknown from_sharded from_no_primary no_primary_step
    from_with_primary
no_primary_drops t s now e h = ap (λ ty. update_from ty t s now) e ∙ elim h [
  | inl p ↦
      ap
        (λ ty.
          from_with_primary s now
            (no_primary_step s now ty (initial_draft replica_set_no_primary t s))
          >>= λ d. ok (finish t s d))
        p
  | inr p ↦
      ap
        (λ ty.
          from_with_primary s now
            (no_primary_step s now ty (initial_draft replica_set_no_primary t s))
          >>= λ d. ok (finish t s d))
        p
]

unknown_drops :
    (t : TopologyDescription) (s : ServerDescription) (now : ℕ)
    → t.type ≡ unknown_topology
    → s.type ≡ unknown
    → update t s now ≡ ok (finish t s (dropped t s replica_set_no_primary))
unfolding update update_from update_draft from_unknown unknown_step from_sharded from_no_primary
    no_primary_step from_with_primary
unknown_drops t s now e p =
    ap (λ ty. update_from ty t s now) e
    ∙ (ap
          (λ ty.
            from_with_primary s now (
              from_no_primary s now
                (from_sharded s (unknown_step s ty (initial_draft unknown_topology t s))))
            >>= λ d. ok (finish t s d))
          p
        ∙ ap
            (λ ty.
              from_with_primary s now
                (no_primary_step s now ty (initial_draft replica_set_no_primary t s))
              >>= λ d. ok (finish t s d))
            p)

-- While no primary is known, in an unknown topology and in a replica set without a primary, a check
-- that fails takes the server out of the topology, and no other server; what is left is a replica set
-- without a primary, also if nothing of a replica set was ever seen.
update_unknown-drops :
    (t : TopologyDescription) (s : ServerDescription) (now : ℕ)
    → (t.type ≡ unknown_topology) ⊎ (t.type ≡ replica_set_no_primary)
    → s.type ≡ unknown
    → (t' : TopologyDescription) × (update t s now ≡ ok t')
      × (t'.type ≡ replica_set_no_primary)
      × ((j : String) → get j t'.servers ≡ (if str_eq s.address j then none else get j t.servers))
unfolding topology_description
update_unknown-drops t s now (inl e) p = (
  finish t s (dropped t s replica_set_no_primary),
  unknown_drops t s now e p,
  refl,
  get-without t s,
)
update_unknown-drops t s now (inr e) p = (
  finish t s (dropped t s replica_set_no_primary),
  no_primary_drops t s now e (inl p),
  refl,
  get-without t s,
)

-- A replica set without a primary takes a standalone server in, as it is.
update_standalone-keeps :
    (t : TopologyDescription) (s : ServerDescription) (now : ℕ)
    → t.type ≡ replica_set_no_primary
    → s.type ≡ standalone
    → (t' : TopologyDescription) × (update t s now ≡ ok t')
      × (t'.type ≡ replica_set_no_primary)
      × ((j : String) → get j t'.servers ≡ (if str_eq s.address j then some s else get j t.servers))
unfolding update update_from update_draft from_unknown from_sharded from_no_primary no_primary_step
    from_with_primary topology_description
update_standalone-keeps t s now e p = (
  finish t s (initial_draft replica_set_no_primary t s),
  ap (λ ty. update_from ty t s now) e
      ∙ ap
          (λ ty.
            from_with_primary s now
              (no_primary_step s now ty (initial_draft replica_set_no_primary t s))
            >>= λ d. ok (finish t s d))
          p,
  refl,
  λ j. get-put s.address j s t.servers,
)
