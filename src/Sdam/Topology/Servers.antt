-- ===== src/Sdam/Topology/Servers.antt =====
-- lib/sdam/topology.js: `updateServers` keeps the servers that are watched in step with the description.
use mongodb_core.Errors.{Result, ok, ◌>>=◌}
use mongodb_core.Prelude.{
  ℕ, ◌≡◌, refl, ap, ◌⊎◌, inl, inr, String, Bool, true, not, ◌&&◌, ◌||◌, List, [], ◌∷◌, arith,
  str_eq, eq_iff, Bool-cases, Option-cases, contains, is_some, Dict, get, has, put, keys, values,
  has-put, has-delete, contains-keys,
}
use mongodb_core.Sdam.ServerDescription.{ServerDescription}
use mongodb_core.Sdam.TopologyDescription.{TopologyDescription, update, has_server}
use mongodb_core.Sdam.TopologyDescription.Count.{Addressed}
use mongodb_core.Sdam.TopologyDescription.Consistent.{
  IsConsistent, NamesSet, Returns, update-IsConsistent,
}
use mongodb_core.Sdam.Topology.{
  Topology, Watch, add_server, remove_server, add_servers, remove_servers, refresh_server,
  update_servers, publish, server_update_handler,
}

abbrev pub addresses : List ServerDescription → List String
addresses [] = []
addresses (s ∷ ss) = s.address ∷ addresses ss

has-put_self :
    (k j : String) (s : ServerDescription) (m : Dict ServerDescription)
    → has k m ≡ true
    → has j (put k s m) ≡ has j m
has-put_self k j s m h = elim (Bool-cases (str_eq k j)) [
  | inl same ↦ ground (arith, has-put k j s m, ap (λ x. has x m) ((eq_iff k j).0 same))
  | inr other ↦ ground (arith, has-put k j s m)
]

has-refresh_server :
    (s : ServerDescription) (m : Dict ServerDescription) (j : String)
    → has j (refresh_server s m) ≡ has j m
has-refresh_server s m j = elim (Bool-cases (has s.address m)) [
  | inl known ↦ rw known (has-put_self s.address j s m known)
  | inr new ↦ rw new
]

has-add_server :
    (s : ServerDescription) (w : Watch) (j : String)
    → has j (add_server s w).0 ≡ (str_eq s.address j || has j w.0)
has-add_server s (m, es) j = elim (Bool-cases (has s.address m)) [
  | inl known ↦
      rw known
        (ground (arith, eq_iff s.address j, has-put s.address j s m, has-put_self s.address j s m))
  | inr new ↦ rw new (has-put s.address j s m)
]

has-add_servers :
    (ss : List ServerDescription) (w : Watch) (j : String)
    → has j (add_servers ss w).0 ≡ (contains (addresses ss) j || has j w.0)
unfolding add_servers
has-add_servers [] w j = refl
has-add_servers (s ∷ ss) w j =
    ground (arith, has-add_servers ss (add_server s w) j, has-add_server s w j)

has-remove_server :
    (d : TopologyDescription) (k : String) (w : Watch) (j : String)
    → has j (remove_server d k w).0 ≡ (not (str_eq k j && not (has_server d k)) && has j w.0)
has-remove_server d k (m, es) j = elim (Bool-cases (has_server d k)) [
  | inl known ↦ rw known (ground arith)
  | inr gone ↦ rw gone (ground (arith, has-delete k j m))
]

-- What is left after the third loop: what the description has, of what was there.
has-remove_servers :
    (d : TopologyDescription) (ks : List String) (w : Watch) (j : String)
    → has j (remove_servers d ks w).0 ≡ (not (contains ks j && not (has_server d j)) && has j w.0)
unfolding remove_servers
has-remove_servers d [] w j = refl
has-remove_servers d (k ∷ ks) w j = elim (Bool-cases (str_eq k j)) [
  | inl same ↦ ground (
    arith,
    has-remove_servers d ks (remove_server d k w) j,
    has-remove_server d k w j,
    ap (has_server d) ((eq_iff k j).0 same),
  )
  | inr other ↦
      ground (arith, has-remove_servers d ks (remove_server d k w) j, has-remove_server d k w j)
]

pub contains-addresses :
    (m : Dict ServerDescription) (j : String)
    → Addressed m
    → contains (addresses (values m)) j ≡ has j m
unfolding get
contains-addresses [] j h = refl
contains-addresses ((k, s) ∷ m) j h = rw h.0 (ground (arith, contains-addresses m j h.1))

has-update_servers :
    (d : TopologyDescription) (s : ServerDescription) (w : Watch) (j : String)
    → Addressed d.servers
    → has j (update_servers d s w).0 ≡ has j d.servers
unfolding update_servers has_server
has-update_servers d s w j h =
    let grown = add_servers (values d.servers) (refresh_server s w.0, w.1) in
    ground (
      arith,
      has-remove_servers d (keys grown.0) grown j,
      contains-keys grown.0 j,
      has-add_servers (values d.servers) (refresh_server s w.0, w.1) j,
      contains-addresses d.servers j h,
    )

-- A consistent description, and a watched server for each of its addresses and for no other, unless
-- a server was found that the driver does not support.
pub record IsInStep (t : Topology) : Type 0 where
  pub consistent : IsConsistent t.description
  pub in_step :
      (is_some t.description.compatibility_error ≡ true)
      ⊎ ((j : String) → has j t.servers ≡ has j t.description.servers)

publish-IsInStep :
    (greater_than : ℕ → ℕ → Bool) (t : Topology) (s : ServerDescription) (d : TopologyDescription)
    → IsConsistent d
    → IsInStep (publish greater_than t s d)
unfolding publish
publish-IsInStep greater_than t s d c = elim (Option-cases d.compatibility_error) [
  | inr (e, q) ↦ rw (q, publish) (record { consistent = c; in_step = inl (ap is_some q) })
  | inl q ↦
      rw (q, publish)
        (record { consistent = c; in_step = inr (λ j. has-update_servers d s _ j c.map.addressed) })
]

bind-Returns :
    (r : Result TopologyDescription) (f : TopologyDescription → Topology)
    → Returns IsConsistent r
    → ((d : TopologyDescription) → IsConsistent d → IsInStep (f d))
    → Returns IsInStep (r >>= λ d. ok (f d))
bind-Returns r f (d, e, c) k = (f d, ap (λ m. m >>= λ d. ok (f d)) e, k d c)

-- A new description of a server never makes the handler throw, and leaves a topology that was in step
-- in step.
pub server_update_handler-IsInStep :
    (greater_than : ℕ → ℕ → Bool) (t : Topology) (s : ServerDescription) (now : ℕ)
    → IsInStep t
    → NamesSet s
    → Returns IsInStep (server_update_handler greater_than t s now)
unfolding server_update_handler
server_update_handler-IsInStep greater_than t s now h n =
    elim (Bool-cases (has_server t.description s.address)) [
      | inr other ↦ rw other (t, refl, h)
      | inl known ↦ rw known (
          bind-Returns (update t.description s now) (publish greater_than t s)
            (update-IsConsistent t.description s now h.consistent n)
            (publish-IsInStep greater_than t s))
    ]
