-- ===== src/Sdam/TopologyDescription/Consistent.antt =====
-- lib/sdam/topology_description.js: `update` keeps a description consistent and never throws.
use mongodb_core.Errors.{Result, ok, throw, ◌>>=◌}
use mongodb_core.Prelude.{
  ℕ, ◌+◌, ◌≤◌, ◌≡◌, refl, sym, subst, ◌∙◌, ◌≢◌, ◌⊎◌, inl, inr, String, true, false, Option, none,
  [], ◌∷◌, arith, if◌then◌else◌, Bool-cases, truthy, Dict, get, put, Every, put-Every, delete-Every,
  delete-put, get-put_self,
}
use mongodb_core.Sdam.ServerDescription.{
  ServerType, standalone, mongos, rs_primary, unknown, ServerDescription, is_primary,
}
use mongodb_core.Sdam.TopologyDescription.{
  TopologyType, single, replica_set_no_primary, replica_set_with_primary, sharded, unknown_topology,
  TopologyDescription, topology_description, Draft, check_has_primary, mongos_or_unknown,
  from_unknown, unknown_step, from_sharded, from_no_primary, no_primary_step, from_with_primary,
  with_primary_block, update_draft, update_from, update, initial_draft, finish,
}
use mongodb_core.Sdam.TopologyDescription.Count.{
  weight, primaries, weight_at, IsServerMap, has_primary_iff, primaries-put, put-IsServerMap,
  delete-IsServerMap,
}
use mongodb_core.Sdam.TopologyDescription.Rs.{IsSettled}
use mongodb_core.Sdam.TopologyDescription.Invariant.{
  Named, Settles, no_primary_step-IsSettled, with_primary_step-Settles,
}

-- What the type of a topology says of its servers and of the set's name.
abbrev pub Fits : TopologyType → Dict ServerDescription → Option String → Type 0
Fits single m name = Unit
Fits unknown_topology m name = Every (λ k s. s.type ≡ unknown) m
Fits sharded m name = Every (λ k s. mongos_or_unknown s.type ≡ true) m
Fits replica_set_no_primary m name = primaries m ≡ 0
Fits replica_set_with_primary m name = (primaries m ≡ 1) × (truthy name ≡ true)

pub record IsConsistent (t : TopologyDescription) : Type 0 where
  pub map : IsServerMap t.servers
  pub fits : Fits t.type t.servers t.set_name

-- A primary names its set. The constructor of a description sees to it.
abbrev pub NamesSet : ServerDescription → Type 0
NamesSet s = (is_primary s.type ≡ false) ⊎ (truthy s.set_name ≡ true)

-- What the blocks of `update` give: no error, and a draft that fits.
abbrev FitsResult : Result Draft → Type 0
FitsResult (throw e) = ⊥
FitsResult (ok d) = IsServerMap d.servers × Fits d.type d.servers d.set_name

weight_at-le-primaries : (k : String) (m : Dict ServerDescription) → weight_at k m ≤ primaries m
unfolding get
weight_at-le-primaries k [] = omega arith
weight_at-le-primaries k ((j, s) ∷ m) = ground (arith, weight_at-le-primaries k m)

-- A settled draft is of the type with a primary, or of that with none.
settled_cases :
    (d : Draft)
    → IsSettled d
    → ((d.type ≡ replica_set_with_primary) × (primaries d.servers ≡ 1))
      ⊎ ((d.type ≡ replica_set_no_primary) × (primaries d.servers ≡ 0))
unfolding check_has_primary
settled_cases d h = elim (has_primary_iff d.servers) [
  | inl (some_primary, pos) ↦ inl (h.type ∙ rw some_primary refl, omega (arith, h.one))
  | inr (no_primary, none_left) ↦ inr (h.type ∙ rw no_primary refl, none_left)
]

Settles-FitsResult : (r : Result Draft) → Settles r → FitsResult r
Settles-FitsResult (throw e) h = h
Settles-FitsResult (ok d) h = elim (settled_cases d h.0) [
  | inl (e, p) ↦ (h.0.map, rw e (p, h.1))
  | inr (e, p) ↦ (h.0.map, rw e p)
]

-- The last block, on a draft with a primary and on one that the block before it has settled.
with_primary-FitsResult :
    (s : ServerDescription) (now : ℕ) (d : Draft)
    → d.type ≡ replica_set_with_primary
    → IsServerMap d.servers
    → primaries d.servers ≤ 1 + weight_at s.address d.servers
    → weight_at s.address d.servers ≤ weight s
    → Named s d
    → FitsResult (from_with_primary s now d)
unfolding from_with_primary
with_primary-FitsResult s now d e i p w n =
    subst (λ ty. FitsResult (with_primary_block s now ty d)) (sym e)
      (Settles-FitsResult _ (with_primary_step-Settles s now d i p w n s.type refl))

settled-FitsResult :
    (s : ServerDescription) (now : ℕ) (d : Draft)
    → NamesSet s
    → IsSettled d
    → primaries d.servers ≤ weight s
    → FitsResult (from_with_primary s now d)
unfolding from_with_primary
settled-FitsResult s now d n h p = elim (settled_cases d h) [
  | inl (e, one) ↦
      with_primary-FitsResult s now d e h.map (omega (arith, h.one))
        (omega (arith, weight_at-le-primaries s.address d.servers)) (inr (ground arith))
  | inr (e, zero_left) ↦
      subst (λ ty. FitsResult (with_primary_block s now ty d)) (sym e) (h.map, rw e zero_left)
]

-- The last two blocks, on a draft with no primary but the server at hand.
no_primary-FitsResult :
    (s : ServerDescription) (now : ℕ) (d : Draft)
    → d.type ≡ replica_set_no_primary
    → NamesSet s
    → IsServerMap d.servers
    → primaries d.servers ≡ weight s
    → weight_at s.address d.servers ≡ weight s
    → FitsResult (from_with_primary s now (from_no_primary s now d))
unfolding from_no_primary
no_primary-FitsResult s now d e n i p w =
    let (settled, fewer) = no_primary_step-IsSettled s now d i p w e s.type refl in
    rw (e, from_no_primary)
      (settled-FitsResult s now (no_primary_step s now s.type d) n settled fewer)

weaken :
    (m : Dict ServerDescription)
    → Every (λ k x. x.type ≡ unknown) m
    → Every (λ k x. mongos_or_unknown x.type ≡ true) m × (primaries m ≡ 0)
weaken [] h = (tt, refl)
weaken ((k, x) ∷ m) h = ground (arith, weaken m h.1)

abbrev blocks : ServerDescription → ℕ → Draft → Result Draft
blocks s now d = from_with_primary s now (from_no_primary s now (from_sharded s d))

module _ (t : TopologyDescription) (s : ServerDescription) (now : ℕ) (i : IsServerMap t.servers)
    (n : NamesSet s) where
  abbrev start : TopologyType → Draft
  start ty = initial_draft ty t s

  put_map : IsServerMap (put s.address s t.servers)
  put_map = put-IsServerMap s.address s t.servers refl i

  put-weight : weight_at s.address (put s.address s t.servers) ≡ weight s
  put-weight = rw (get-put_self s.address s t.servers)

  sharded-FitsResult :
      Every (λ k x. mongos_or_unknown x.type ≡ true) t.servers
      → FitsResult (blocks s now (start sharded))
  unfolding from_sharded from_no_primary from_with_primary
  sharded-FitsResult h = elim (Bool-cases (mongos_or_unknown s.type)) [
    | inl fits ↦ rw fits (put_map, put-Every _ s.address s t.servers fits h)
    | inr odd ↦ rw odd (
      delete-IsServerMap s.address _ put_map,
      rw (delete-put s.address s t.servers) (delete-Every _ s.address t.servers h),
    )
  ]

  -- A map whose other servers are no primaries.
  primaries-put_at : primaries t.servers ≡ 0 → primaries (put s.address s t.servers) ≡ weight s
  primaries-put_at z =
      ground
        (arith, primaries-put s.address s t.servers, weight_at-le-primaries s.address t.servers)

  start_no_primary :
      primaries t.servers ≡ 0 → FitsResult (blocks s now (start replica_set_no_primary))
  unfolding from_sharded
  start_no_primary z =
      no_primary-FitsResult s now (start replica_set_no_primary) refl n put_map (primaries-put_at z)
        put-weight

  start_with_primary :
      primaries t.servers ≤ 1
      → Named s (start replica_set_with_primary)
      → FitsResult (blocks s now (start replica_set_with_primary))
  unfolding from_sharded from_no_primary
  start_with_primary one name =
      with_primary-FitsResult s now (start replica_set_with_primary) refl put_map
        (ground (arith, primaries-put s.address s t.servers, put-weight))
        (omega (arith, put-weight)) name

  unknown-FitsResult :
      Every (λ k x. x.type ≡ unknown) t.servers
      → (ty : ServerType) → s.type ≡ ty
      → FitsResult (blocks s now (unknown_step s ty (start unknown_topology)))
  unfolding unknown_step from_sharded from_no_primary from_with_primary
  unknown-FitsResult h standalone e = (
    delete-IsServerMap s.address _ put_map,
    rw (delete-put s.address s t.servers) (delete-Every _ s.address t.servers h),
  )
  unknown-FitsResult h mongos e = sharded-FitsResult (weaken t.servers h).0
  unknown-FitsResult h rs_primary e =
      start_with_primary (omega (arith, (weaken t.servers h).1)) (inr (ground arith))
  unknown-FitsResult h other e = start_no_primary (weaken t.servers h).1

  -- The blocks of `update`, by the type of the topology.
  update_draft-FitsResult :
      (ty : TopologyType)
      → ty ≢ single
      → Fits ty t.servers t.set_name
      → FitsResult (update_draft s now (start ty))
  unfolding update_draft from_unknown from_sharded
  update_draft-FitsResult single x h = absurd (x refl)
  update_draft-FitsResult unknown_topology x h = unknown-FitsResult h s.type refl
  update_draft-FitsResult sharded x h = sharded-FitsResult h
  update_draft-FitsResult replica_set_no_primary x h = start_no_primary h
  update_draft-FitsResult replica_set_with_primary x h = start_with_primary (omega arith) (inl h.1)

-- The constructor keeps what the draft has.
finish-IsConsistent :
    (t : TopologyDescription) (s : ServerDescription) (d : Draft)
    → IsServerMap d.servers
    → Fits d.type d.servers d.set_name
    → IsConsistent (finish t s d)
unfolding topology_description
finish-IsConsistent t s d i h = record { map = i; fits = clean d.type h }
  where
    clean :
        (ty : TopologyType)
        → Fits ty d.servers d.set_name
        → Fits ty d.servers (if truthy d.set_name then d.set_name else none)
    clean single k = k
    clean unknown_topology k = k
    clean sharded k = k
    clean replica_set_no_primary k = k
    clean replica_set_with_primary k = (k.0, rw k.1 k.1)

-- A result without an error, whose value satisfies a predicate.
abbrev pub Returns {ℓ κ} : {A : Type ℓ} → (A → Type κ) → Result A → Type (ℓ ⊔ κ)
Returns {A} P r = (a : A) × (r ≡ ok a) × P a

finish-Returns :
    (t : TopologyDescription) (s : ServerDescription) (r : Result Draft)
    → FitsResult r
    → Returns IsConsistent (r >>= λ d. ok (finish t s d))
finish-Returns t s (throw e) h = absurd h
finish-Returns t s (ok d) h = (finish t s d, refl, finish-IsConsistent t s d h.0 h.1)

update_from-IsConsistent :
    (t : TopologyDescription) (s : ServerDescription) (now : ℕ) (ty : TopologyType)
    → IsServerMap t.servers
    → Fits ty t.servers t.set_name
    → NamesSet s
    → Returns IsConsistent (update_from ty t s now)
unfolding update_from
update_from-IsConsistent t s now single i h n = (
  finish t s (initial_draft single t s),
  refl,
  finish-IsConsistent t s (initial_draft single t s) (put-IsServerMap s.address s t.servers refl i)
      tt,
)
update_from-IsConsistent t s now other i h n =
    finish-Returns t s _ (update_draft-FitsResult t s now i n other (λ x. cc) h)

-- An update of a consistent description by a server whose type, if it is a primary, comes with a set
-- name does not throw. The result is consistent again: every server stands under its own address and
-- no address twice, a replica set with a primary has exactly one and knows its name, one without has
-- none, a sharded topology has mongos and unknown servers only, an unknown topology unknown servers.
pub update-IsConsistent :
    (t : TopologyDescription) (s : ServerDescription) (now : ℕ)
    → IsConsistent t
    → NamesSet s
    → Returns IsConsistent (update t s now)
unfolding update
update-IsConsistent t s now c n = update_from-IsConsistent t s now t.type c.map c.fits n
