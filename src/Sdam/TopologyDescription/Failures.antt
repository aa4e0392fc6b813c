-- ===== src/Sdam/TopologyDescription/Failures.antt =====
-- lib/sdam/topology_description.js: the error that an update leaves on record.
use mongodb_core.Errors.{Result, ok, throw, ◌>>=◌}
use mongodb_core.Prelude.{ℕ, ◌≡◌, refl, ap, ◌∙◌, sym}
use mongodb_core.Sdam.ServerDescription.{ServerDescription}
use mongodb_core.Sdam.TopologyDescription.{
  TopologyType, single, sharded, replica_set_with_primary, replica_set_no_primary, unknown_topology,
  TopologyDescription, topology_description, Draft, finish, initial_draft, update_draft,
  update_from, update,
}

finish-error :
    (t : TopologyDescription) (s : ServerDescription) (d : Draft) → (finish t s d).error ≡ s.error
unfolding topology_description
finish-error t s d = refl

finished-error :
    (t : TopologyDescription) (s : ServerDescription) (d : Draft) (u : TopologyDescription)
    → ok (finish t s d) ≡ ok u
    → u.error ≡ s.error
finished-error t s d u e = ap (λ x. x.error) (sym (ok-inj (finish t s d) u e)) ∙ finish-error t s d
  where
    ok-inj : (x y : TopologyDescription) → ok x ≡ ok y → x ≡ y
    ok-inj x y q = cc

bound-error :
    (t : TopologyDescription) (s : ServerDescription) (r : Result Draft) (u : TopologyDescription)
    → (r >>= λ d. ok (finish t s d)) ≡ ok u
    → u.error ≡ s.error
bound-error t s (ok d) u e = finished-error t s d u e
bound-error t s (throw x) u e = cc

update_from-error :
    (type : TopologyType) (t : TopologyDescription) (s : ServerDescription) (now : ℕ)
    (u : TopologyDescription)
    → update_from type t s now ≡ ok u
    → u.error ≡ s.error
unfolding update_from
update_from-error single t s now u e = finished-error t s (initial_draft single t s) u e
update_from-error sharded t s now u e =
    bound-error t s (update_draft s now (initial_draft sharded t s)) u e
update_from-error replica_set_with_primary t s now u e =
    bound-error t s (update_draft s now (initial_draft replica_set_with_primary t s)) u e
update_from-error replica_set_no_primary t s now u e =
    bound-error t s (update_draft s now (initial_draft replica_set_no_primary t s)) u e
update_from-error unknown_topology t s now u e =
    bound-error t s (update_draft s now (initial_draft unknown_topology t s)) u e

-- An update puts the error of the server on record, if it has one, and clears the record otherwise.
pub update-error :
    (t : TopologyDescription) (s : ServerDescription) (now : ℕ) (u : TopologyDescription)
    → update t s now ≡ ok u
    → u.error ≡ s.error
unfolding update
update-error t s now u e = update_from-error t.type t s now u e
