-- ===== src/Sdam/Topology/Failures.antt =====
-- lib/sdam/topology.js, serverUpdateHandler: the error that a new description of a server leaves on record.
use mongodb_core.Errors.{Result, ok, throw, ◌>>=◌}
use mongodb_core.Prelude.{ℕ, ◌≡◌, refl, sym, ap, ◌∙◌, inl, inr, Bool, true, Option-cases}
use mongodb_core.Sdam.ServerDescription.{ServerDescription}
use mongodb_core.Sdam.Topology.{Topology, publish, server_update_handler}
use mongodb_core.Sdam.TopologyDescription.{TopologyDescription, update, has_server}
use mongodb_core.Sdam.TopologyDescription.Failures.{update-error}

publish-error :
    (greater_than : ℕ → ℕ → Bool) (t : Topology) (s : ServerDescription) (d : TopologyDescription)
    → (publish greater_than t s d).description.error ≡ d.error
unfolding publish
publish-error greater_than t s d = elim (Option-cases d.compatibility_error) [
  | inl q ↦ rw (q, publish) refl
  | inr (e, q) ↦ rw (q, publish) refl
]

-- What the handler puts on record.
handled-error :
    (greater_than : ℕ → ℕ → Bool) (t t' : Topology) (s : ServerDescription)
    (r : Result TopologyDescription)
    → ((d : TopologyDescription) → r ≡ ok d → d.error ≡ s.error)
    → (r >>= λ d. ok (publish greater_than t s d)) ≡ ok t'
    → t'.description.error ≡ s.error
handled-error greater_than t t' s (ok d) h e =
    ap (λ x. x.description.error) (sym (ok-inj (publish greater_than t s d) t' e))
    ∙ publish-error greater_than t s d
    ∙ h d refl
  where
    ok-inj : (x y : Topology) → ok x ≡ ok y → x ≡ y
    ok-inj x y q = cc
handled-error greater_than t t' s (throw x) h e = cc

-- The error on record after the handler is that of the server.
pub server_update_handler-error :
    (greater_than : ℕ → ℕ → Bool) (t t' : Topology) (s : ServerDescription) (now : ℕ)
    → has_server t.description s.address ≡ true
    → server_update_handler greater_than t s now ≡ ok t'
    → t'.description.error ≡ s.error
unfolding server_update_handler
server_update_handler-error greater_than t t' s now known e =
    handled-error greater_than t t' s (update t.description s now)
      (update-error t.description s now) (rw known at e)
