-- ===== src/Sdam/TopologyDescription/Primary.antt =====
-- lib/sdam/topology_description.js: the answer of a primary, taken by a replica set of either type.
use mongodb_core.Errors.{ok, ◌>>=◌}
use mongodb_core.Prelude.{
  ℕ, ◌≡◌, refl, ap, ◌∙◌, ◌⊎◌, inl, inr, String, Bool, true, false, Option, none, some, arith,
  if◌then◌else◌, str_eq, Bool-cases, or_text, opt_eq, nonzero, is_some, Dict, get, has, put, delete,
  get-put, get-delete, contains,
}
use mongodb_core.Sdam.ServerDescription.{
  rs_primary, ElectionId, ServerDescription, blank_description, all_hosts,
}
use mongodb_core.Sdam.TopologyDescription.{
  replica_set_no_primary, replica_set_with_primary, TopologyDescription, topology_description,
  Draft, has_primary, check_has_primary, is_stale, oid_of, next_election_id, next_set_version,
  update_rs_from_primary, from_unknown, from_sharded, from_no_primary, no_primary_step,
  from_with_primary, with_primary_block, with_primary_step, update_draft, update_from, update,
  initial_draft, finish,
}
use mongodb_core.Sdam.TopologyDescription.Rs.{
  same_set, rejected, blanked, adopted, has-adopt_primary,
}

-- What a primary's answer is compared with: the set's name and the highest version and election.
abbrev same_name : TopologyDescription → ServerDescription → Bool
same_name t s = opt_eq (or_text t.set_name s.set_name) s.set_name

abbrev pub behind : TopologyDescription → ServerDescription → Bool
behind t s = is_stale t.max_set_version t.max_election_id s

reject_lem :
    (s : ServerDescription) (now : ℕ) (d : Draft)
    → same_set s d ≡ false
    → update_rs_from_primary s now d ≡ rejected s d
unfolding update_rs_from_primary
reject_lem s now d h = rw h

blank_lem :
    (s : ServerDescription) (now : ℕ) (d : Draft)
    → same_set s d ≡ true
    → is_stale d.max_set_version d.max_election_id s ≡ true
    → update_rs_from_primary s now d ≡ blanked s now d
unfolding update_rs_from_primary
blank_lem s now d h k = rw (h, k)

adopt_lem :
    (s : ServerDescription) (now : ℕ) (d : Draft)
    → same_set s d ≡ true
    → is_stale d.max_set_version d.max_election_id s ≡ false
    → update_rs_from_primary s now d ≡ adopted s now d
unfolding update_rs_from_primary
adopt_lem s now d h k = rw (h, k)

-- `update` on a replica set with a primary, and on one without.
update_of_with_primary :
    (t : TopologyDescription) (s : ServerDescription) (now : ℕ)
    → t.type ≡ replica_set_with_primary
    → s.type ≡ rs_primary
    → update t s now
      ≡ ok (finish t s (update_rs_from_primary s now (initial_draft replica_set_with_primary t s)))
unfolding update update_from update_draft from_unknown from_sharded from_no_primary
    from_with_primary with_primary_step
update_of_with_primary t s now e p =
    ap (λ ty. update_from ty t s now) e
    ∙ ap
        (λ ty. with_primary_step s now ty (initial_draft replica_set_with_primary t s) >>= λ d.
          ok (finish t s d))
        p

update_of_no_primary :
    (t : TopologyDescription) (s : ServerDescription) (now : ℕ)
    → t.type ≡ replica_set_no_primary
    → s.type ≡ rs_primary
    → update t s now ≡ (
        from_with_primary s now
          (update_rs_from_primary s now (initial_draft replica_set_no_primary t s))
        >>= λ d. ok (finish t s d))
unfolding update update_from update_draft from_unknown from_sharded from_no_primary no_primary_step
update_of_no_primary t s now e p =
    ap (λ ty. update_from ty t s now) e
    ∙ ap
        (λ ty.
          from_with_primary s now
            (no_primary_step s now ty (initial_draft replica_set_no_primary t s))
          >>= λ d. ok (finish t s d))
        p

-- A second look at the same answer finds it neither stale nor of another set, where an election was
-- on record with the version, or no version was.
fresh_again :
    (v : Option ℕ) (e : Option ElectionId) (s : ServerDescription)
    → (v ≡ none) ⊎ (is_some (oid_of e) ≡ true)
    → is_stale v e s ≡ false
    → is_stale (next_set_version v s.set_version) (next_election_id e s) s ≡ false
unfolding is_stale
fresh_again v e s k h = ground arith

same_again :
    (a b : Option String)
    → opt_eq (or_text a b) b ≡ true
    → opt_eq (or_text (or_text a b) b) b ≡ true
same_again a b h = ground arith

last_block_primary :
    (s : ServerDescription) (now : ℕ) (d : Draft)
    → d.type ≡ replica_set_with_primary
    → s.type ≡ rs_primary
    → from_with_primary s now d ≡ ok (update_rs_from_primary s now d)
unfolding from_with_primary with_primary_step
last_block_primary s now d e p =
    ap (λ ty. with_primary_block s now ty d) e ∙ ap (λ ty. with_primary_step s now ty d) p

last_block_none :
    (s : ServerDescription) (now : ℕ) (d : Draft)
    → d.type ≡ replica_set_no_primary
    → from_with_primary s now d ≡ ok d
unfolding from_with_primary
last_block_none s now d e = ap (λ ty. with_primary_block s now ty d) e

-- The two blocks that a primary may pass through, as one: `P` holds after the second if it holds of
-- each outcome of the first, and of what the second makes of it.
last_block_cases :
    (P : Draft → Type 0) (s : ServerDescription) (now : ℕ) (d : Draft)
    → d.type ≡ check_has_primary d.servers
    → s.type ≡ rs_primary
    → P d
    → P (update_rs_from_primary s now d)
    → (e : Draft) × (from_with_primary s now d ≡ ok e) × P e
unfolding check_has_primary
last_block_cases P s now d e p keep again = elim (Bool-cases (has_primary d.servers)) [
  | inl found ↦
      (update_rs_from_primary s now d, last_block_primary s now d (e ∙ rw found refl) p, again)
  | inr missing ↦ (d, last_block_none s now d (e ∙ rw missing refl), keep)
]

-- The topologies that adopt a primary: with a primary, or without one and nothing on record but whole
-- pairs of version and election.
abbrev Adopts : TopologyDescription → Type 0
Adopts t =
    (t.type ≡ replica_set_with_primary)
    ⊎ ((t.type ≡ replica_set_no_primary)
        × ((t.max_set_version ≡ none) ⊎ (is_some (oid_of t.max_election_id) ≡ true)))

adopted-IsAdopted :
    (s : ServerDescription) (now : ℕ) (d : Draft)
    → same_set s d ≡ true
    → is_stale d.max_set_version d.max_election_id s ≡ false
    → (j : String) → has j (update_rs_from_primary s now d).servers ≡ contains (all_hosts s) j
adopted-IsAdopted s now d h k j = rw (adopt_lem s now d h k) (has-adopt_primary s now d.servers j)

adopted_type :
    (s : ServerDescription) (now : ℕ) (d : Draft)
    → same_set s d ≡ true
    → is_stale d.max_set_version d.max_election_id s ≡ false
    → (update_rs_from_primary s now d).type
      ≡ check_has_primary (update_rs_from_primary s now d).servers
adopted_type s now d h k = rw (adopt_lem s now d h k)

adopted-IsAdopted_again :
    (s : ServerDescription) (now : ℕ) (d : Draft)
    → (d.max_set_version ≡ none) ⊎ (is_some (oid_of d.max_election_id) ≡ true)
    → same_set s d ≡ true
    → is_stale d.max_set_version d.max_election_id s ≡ false
    → (j : String)
    → has j (update_rs_from_primary s now (update_rs_from_primary s now d)).servers
      ≡ contains (all_hosts s) j
adopted-IsAdopted_again s now d r h k = rw (adopt_lem s now d h k) (
    adopted-IsAdopted s now (adopted s now d) (same_again d.set_name s.set_name h)
      (fresh_again d.max_set_version d.max_election_id s r k))

-- A replica set that hears from a primary of its name, whose set version and election are not behind
-- those on record, then has exactly the hosts that the primary lists. (Without a primary so far: if no
-- set version is on record, or an election is.)
pub update_primary-hosts :
    (t : TopologyDescription) (s : ServerDescription) (now : ℕ)
    → s.type ≡ rs_primary
    → Adopts t
    → same_name t s ≡ true
    → behind t s ≡ false
    → (t' : TopologyDescription) × (update t s now ≡ ok t')
      × ((j : String) → has j t'.servers ≡ contains (all_hosts s) j)
unfolding topology_description
update_primary-hosts t s now p (inl e) h k = (
  finish t s (update_rs_from_primary s now (initial_draft replica_set_with_primary t s)),
  update_of_with_primary t s now e p,
  adopted-IsAdopted s now (initial_draft replica_set_with_primary t s) h k,
)
update_primary-hosts t s now p (inr (e, r)) h k =
    let d = initial_draft replica_set_no_primary t s in
    let a = update_rs_from_primary s now d in
    let (f, eq, p') =
      last_block_cases (λ f. (j : String) → has j f.servers ≡ contains (all_hosts s) j) s now a
        (adopted_type s now d h k) p (adopted-IsAdopted s now d h k)
        (adopted-IsAdopted_again s now d r h k) in
    (finish t s f, update_of_no_primary t s now e p ∙ ap (λ m. m >>= λ d. ok (finish t s d)) eq, p')

get-put-put :
    (a j : String) (x y : ServerDescription) (m : Dict ServerDescription)
    → get j (put a y (put a x m)) ≡ (if str_eq a j then some y else get j m)
get-put-put a j x y m = ground (arith, get-put a j y (put a x m), get-put a j x m)

-- In a replica set with a primary, the answer of a primary of the same name that is behind the version
-- or the election on record turns that server, and no other, into an unknown one. What is on record
-- stays.
update_primary-stale :
    (t : TopologyDescription) (s : ServerDescription) (now : ℕ)
    → s.type ≡ rs_primary
    → t.type ≡ replica_set_with_primary
    → same_name t s ≡ true
    → behind t s ≡ true
    → (t' : TopologyDescription) × (update t s now ≡ ok t')
      × ((j : String)
          → get j t'.servers ≡ (
              if str_eq s.address j
              then some (blank_description s.address now)
              else get j t.servers))
      × (t'.max_set_version ≡ nonzero t.max_set_version)
      × (t'.max_election_id ≡ t.max_election_id)
unfolding topology_description
update_primary-stale t s now p e h k =
    let d = initial_draft replica_set_with_primary t s in
    let u = blank_lem s now d h k in
    (
      finish t s (blanked s now d),
      update_of_with_primary t s now e p ∙ ap (λ f. ok (finish t s f)) u,
      λ j. get-put-put s.address j s (blank_description s.address now) t.servers,
      refl,
      refl,
    )

get-delete-put :
    (a j : String) (x : ServerDescription) (m : Dict ServerDescription)
    → get j (delete a (put a x m)) ≡ (if str_eq a j then none else get j m)
get-delete-put a j x m = ground (arith, get-delete a j (put a x m), get-put a j x m)

-- A primary of another set is dropped, and no other server.
update_primary-other_set :
    (t : TopologyDescription) (s : ServerDescription) (now : ℕ)
    → s.type ≡ rs_primary
    → t.type ≡ replica_set_with_primary
    → same_name t s ≡ false
    → (t' : TopologyDescription) × (update t s now ≡ ok t')
      × ((j : String) → get j t'.servers ≡ (if str_eq s.address j then none else get j t.servers))
unfolding topology_description
update_primary-other_set t s now p e h =
    let d = initial_draft replica_set_with_primary t s in
    (
      finish t s (rejected s d),
      update_of_with_primary t s now e p ∙ ap (λ f. ok (finish t s f)) (reject_lem s now d h),
      λ j. get-delete-put s.address j s t.servers,
    )
