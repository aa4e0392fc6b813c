-- ===== src/Sdam/TopologyDescription/Tests.antt =====
-- lib/sdam/topology_description.js: the code on examples.
use mongodb_core.Errors.{ok}
use mongodb_core.Prelude.{◌≡◌, refl, inl, inr, String, arith, contains, get, has}
use mongodb_core.Sdam.Examples.{primary_a, primary_b, with_a, searching, result_or}
use mongodb_core.Sdam.ServerDescription.{all_hosts}
use mongodb_core.Sdam.TopologyDescription.{TopologyDescription, update, is_stale}
use mongodb_core.Sdam.TopologyDescription.Consistent.{IsConsistent, Returns, update-IsConsistent}
use mongodb_core.Sdam.TopologyDescription.Elections.{FollowsTopology, update-FollowsTopology}
use mongodb_core.Sdam.TopologyDescription.Primary.{update_primary-hosts}

searching-IsConsistent : IsConsistent searching
unfolding get
searching-IsConsistent = record {
  map = record { distinct = (refl, tt); addressed = (refl, tt) };
  fits = refl;
}

update-IsConsistent_example : Returns IsConsistent (update searching primary_a 5)
update-IsConsistent_example =
    update-IsConsistent searching primary_a 5 searching-IsConsistent (inr refl)

update-FollowsTopology_example : FollowsTopology with_a (result_or (update with_a primary_b 5))
unfolding update
update-FollowsTopology_example =
    update-FollowsTopology with_a (result_or (update with_a primary_b 5)) primary_b 5
      (record { paired = inr (omega arith) }) (λ e. cc) refl

update_primary-hosts_example :
    (t : TopologyDescription) × (update searching primary_a 5 ≡ ok t)
    × ((j : String) → has j t.servers ≡ contains (all_hosts primary_a) j)
unfolding is_stale
update_primary-hosts_example =
    update_primary-hosts searching primary_a 5 refl (inr (refl, inl refl)) refl refl
