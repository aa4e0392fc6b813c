-- ===== src/Sdam/TopologyDescription/Derived.antt =====
-- lib/sdam/topology_description.js: what the constructor computes from the servers: the session
-- timeout and the compatibility with the driver's wire versions.
use mongodb_core.Prelude.{
  ℕ, ◌≤◌, ◌≡◌, refl, ◌↔◌, ◌≢◌, ◌⊎◌, inl, inr, true, Option, none, some, List, [], ◌∷◌, arith, min,
  All, map, Option-cases, In, select, values, Dict, String,
}
use mongodb_core.Errors.{Error}
use mongodb_core.Sdam.ServerDescription.{ServerDescription, ElectionId, is_readable, unknown}
use mongodb_core.Sdam.TopologyDescription.{
  TopologyType, TopologyDescription, topology_description, Options, CompatibilityError,
  check_compatibility, session_timeout, merge_timeout, note_newer, min_supported_wire_version,
  max_supported_wire_version,
}

-- A server that the driver can talk to, or does not know yet.
abbrev IsSupported : ServerDescription → Type 0
IsSupported s =
    (s.type ≡ unknown)
    ⊎ ((s.min_wire_version ≤ max_supported_wire_version)
        × (min_supported_wire_version ≤ s.max_wire_version))

check_compatibility-eq-none :
    (ss : List ServerDescription) (found : Option CompatibilityError)
    → check_compatibility ss found ≡ none
    → (found ≡ none) × All IsSupported ss
unfolding check_compatibility
check_compatibility-eq-none [] found h = (h, tt)
check_compatibility-eq-none (s ∷ ss) found h =
    ground (arith, check_compatibility-eq-none ss (note_newer s found))

check_compatibility-none :
    (ss : List ServerDescription) → All IsSupported ss → check_compatibility ss none ≡ none
unfolding check_compatibility
check_compatibility-none [] h = refl
check_compatibility-none (s ∷ ss) h = ground (arith, check_compatibility-none ss h.1)

-- The last of the servers reports a timeout.
abbrev last_timeout : List ServerDescription → Option ℕ
last_timeout [] = none
last_timeout (s ∷ []) = s.logical_session_timeout_minutes
last_timeout (s ∷ t ∷ ss) = last_timeout (t ∷ ss)

merge_none : (r o : Option ℕ) → (merge_timeout r o ≡ none) ↔ (o ≡ none)
merge_none r o = (λ h. ground arith, λ h. ground arith)

session_timeout-last :
    (s : ServerDescription) (ss : List ServerDescription) (r : Option ℕ)
    → (session_timeout (s ∷ ss) r ≡ none) ↔ (last_timeout (s ∷ ss) ≡ none)
unfolding session_timeout
session_timeout-last s [] r = merge_none r s.logical_session_timeout_minutes
session_timeout-last s (t ∷ ss) r =
    session_timeout-last t ss (merge_timeout r s.logical_session_timeout_minutes)

-- Each of the servers reports a timeout.
abbrev AllReport : List ServerDescription → Type 0
AllReport = All λ s. s.logical_session_timeout_minutes ≢ none

abbrev pub reported : ServerDescription → ℕ
reported s = elim s.logical_session_timeout_minutes [ none ↦ 0 | some t ↦ t ]

-- `m` is the least of some numbers.
abbrev IsLeast : ℕ → List ℕ → Type 0
IsLeast m ns = In m ns × All (λ n. m ≤ n) ns

IsLeast-cons : (m r t : ℕ) (ns : List ℕ) → IsLeast m (min r t ∷ ns) → IsLeast m (r ∷ t ∷ ns)
IsLeast-cons m r t ns (here, (low, rest)) = ground arith

session_timeout-min :
    (ss : List ServerDescription) (r : ℕ)
    → AllReport ss
    → (m : ℕ) × (session_timeout ss (some r) ≡ some m) × IsLeast m (r ∷ map reported ss)
unfolding session_timeout
session_timeout-min [] r h = (r, refl, (inl refl, (omega arith, tt)))
session_timeout-min (s ∷ ss) r (h, hs) = elim (Option-cases s.logical_session_timeout_minutes) [
  | inl e ↦ absurd (h e)
  | inr (t, e) ↦
      let (m, q, least) = session_timeout-min ss (min r t) hs in
      (m, rw e q, rw e (IsLeast-cons m r t (map reported ss) least))
]

abbrev pub readable : TopologyDescription → List ServerDescription
readable t = select is_readable (values t.servers)

module _ (type : TopologyType) (m : Dict ServerDescription) (name : Option String) (v : Option ℕ)
    (e : Option ElectionId) (w : Option ℕ) (o : Options) (err : Option Error) where
  abbrev pub built : TopologyDescription
  built = topology_description type m name v e w o err

  -- A topology description is compatible exactly when each server is unknown or its range of wire
  -- versions meets the driver's; exactly then it carries no compatibility error.
  compatible_iff :
      ((built.compatible ≡ true) ↔ All IsSupported (values m))
      × ((built.compatibility_error ≡ none) ↔ All IsSupported (values m))
  unfolding topology_description
  compatible_iff = (
    (
      λ h. (check_compatibility-eq-none (values m) none (ground arith)).1,
      λ h. rw (check_compatibility-none (values m) h),
    ),
    (
      λ h. (check_compatibility-eq-none (values m) none h).1,
      λ h. check_compatibility-none (values m) h,
    ),
  )

  IsLeast-of_readable :
      (ss : List ServerDescription)
      → AllReport ss
      → ss ≢ []
      → (k : ℕ) × (session_timeout ss none ≡ some k) × IsLeast k (map reported ss)
  unfolding session_timeout
  IsLeast-of_readable [] h x = absurd (x refl)
  IsLeast-of_readable (s ∷ ss) (h, hs) x = elim (Option-cases s.logical_session_timeout_minutes) [
    | inl q ↦ absurd (h q)
    | inr (t, q) ↦ let (k, eq, least) = session_timeout-min ss t hs in (k, rw q eq, rw q least)
  ]

  -- If some server can be read from and every such server reports a session timeout, the timeout of
  -- the topology is the least of theirs.
  logical_session_timeout-IsLeast :
      AllReport (readable built)
      → readable built ≢ []
      → (k : ℕ) × (built.logical_session_timeout_minutes ≡ some k)
        × IsLeast k (map reported (readable built))
  unfolding topology_description
  logical_session_timeout-IsLeast h x = IsLeast-of_readable (select is_readable (values m)) h x

  last_of_readable :
      (ss : List ServerDescription) → (session_timeout ss none ≡ none) ↔ (last_timeout ss ≡ none)
  unfolding session_timeout
  last_of_readable [] = (λ h. refl, λ h. refl)
  last_of_readable (s ∷ ss) = session_timeout-last s ss none

  -- Whether the topology has a session timeout depends on the last readable server alone: it has none
  -- exactly when no server can be read from or the last one reports none.
  logical_session_timeout-last :
      (built.logical_session_timeout_minutes ≡ none) ↔ (last_timeout (readable built) ≡ none)
  unfolding topology_description
  logical_session_timeout-last = last_of_readable (select is_readable (values m))
