-- ===== src/Sdam/Selectors/Modes.antt =====
-- lib/sdam/server_selectors.js: what the selector for a read preference returns, by mode.
use mongodb_core.Errors.{Result, ok, throw, Error, ◌>>=◌}
use mongodb_core.Prelude.{
  ℕ, ◌≡◌, refl, sym, subst, ◌⊎◌, inl, inr, Bool, true, false, ◌||◌, Option, none, some, List, [],
  ◌∷◌, arith, if◌then◌else◌, In, In-of_In-select, In-select-true, select, Dict, String, ltb, ◌*◌,
  ◌+◌,
}
use mongodb_core.Prelude.Int.{ℤ, pos, negsuc, leb_ℤ}
use mongodb_core.ReadPreference.{
  Mode, primary, primary_preferred, secondary, secondary_preferred, nearest, true_mode, false_mode,
  null_mode, other_mode, ReadPreference,
}
use mongodb_core.Sdam.ServerDescription.{
  ServerDescription, ServerType, is_primary, is_secondary, rs_primary, rs_secondary,
}
use mongodb_core.Sdam.TopologyDescription.{
  TopologyType, replica_set_no_primary, replica_set_with_primary, TopologyDescription,
}
use mongodb_core.Sdam.Selectors.{
  latency_window_reducer, max_staleness_reducer, staleness_bound, stale_step, stale_with_primary,
  by_tags, tag_set_reducer, primaries_or, staleness_ms_no_primary, latest_write, date, reduce_all,
  select_by_mode, or_primaries, primary_filter, secondary_filter, nearest_filter, idle_write_period,
  smallest_max_staleness_seconds,
}
use mongodb_core.Sdam.Selectors.Window.{In-latency_window_reducer}
use mongodb_core.Sdam.Selectors.Filters.{In-tag_sets_reduce, Chosen-In}

-- The members that a mode allows to read from.
unfoldable pub Allows : Mode → ServerType → Type 0
Allows primary ty = ty ≡ rs_primary
Allows secondary ty = ty ≡ rs_secondary
Allows (other_mode m) ty = ⊥
Allows _ ty = (ty ≡ rs_primary) ⊎ (ty ≡ rs_secondary)

Within : List ServerDescription → List ServerDescription → Type 0
Within ks ss = (s : ServerDescription) → In s ks → In s ss

AllWithin : List ServerDescription → Result (List ServerDescription) → Type 0
AllWithin ss (ok ks) = Within ks ss
AllWithin ss (throw e) = Unit

stale_with_primary-AllWithin :
    (o : Option ServerDescription) (t : TopologyDescription) (n : ℕ) (ss : List ServerDescription)
    → AllWithin ss (stale_with_primary o t n ss)
unfolding stale_with_primary AllWithin Within
stale_with_primary-AllWithin none t n [] = λ s h. h
stale_with_primary-AllWithin none t n (x ∷ ss) = tt
stale_with_primary-AllWithin (some p) t n ss = λ s h. In-of_In-select _ s ss h

stale_step-AllWithin :
    (ty : TopologyType) (t : TopologyDescription) (n : ℕ) (ss : List ServerDescription)
    → AllWithin ss (stale_step ty t n ss)
unfolding stale_step AllWithin Within
stale_step-AllWithin replica_set_with_primary t n ss = stale_with_primary-AllWithin _ t n ss
stale_step-AllWithin replica_set_no_primary t n [] = tt
stale_step-AllWithin replica_set_no_primary t n (x ∷ ss) = λ s h.
    In-of_In-select
      (λ y.
        leb_ℤ (staleness_ms_no_primary t (latest_write ss (date x.last_write_date)) y)
          (pos (1000 * n)))
      s (x ∷ ss) h
stale_step-AllWithin _ t n ss = λ s h. h

staleness_bound-AllWithin :
    (o : Option ℤ) (t : TopologyDescription) (ss : List ServerDescription)
    → AllWithin ss (staleness_bound o t ss)
unfolding staleness_bound AllWithin Within
staleness_bound-AllWithin none t ss = λ s h. h
staleness_bound-AllWithin (some (negsuc n)) t ss = λ s h. h
staleness_bound-AllWithin (some (pos n)) t ss =
    guarded (ltb (1000 * n) (t.heartbeat_frequency_ms + idle_write_period))
      (ltb n smallest_max_staleness_seconds) _ _ (stale_step t.type t n ss)
      (stale_step-AllWithin t.type t n ss)
  where
    guarded :
        (a b : Bool) (x y : Error) (z : Result (List ServerDescription))
        → AllWithin ss z
        → AllWithin ss (if a then throw x else if b then throw y else z)
    guarded true b x y z h = tt
    guarded false true x y z h = tt
    guarded false false x y z h = h

by_tags-Within :
    (o : Option (List (Dict String))) (ss : List ServerDescription) → Within (by_tags o ss) ss
unfolding by_tags Within
by_tags-Within none ss = λ s h. h
by_tags-Within (some []) ss = λ s h. h
by_tags-Within (some (tags ∷ sets)) ss =
    λ s h. Chosen-In (tags ∷ sets) ss s ((In-tag_sets_reduce (tags ∷ sets) ss s).0 h)

reduce_all-AllWithin :
    (r : ReadPreference) (t : TopologyDescription) (ss : List ServerDescription)
    → AllWithin ss (reduce_all r t ss)
unfolding reduce_all max_staleness_reducer tag_set_reducer AllWithin Within
reduce_all-AllWithin r t ss =
    reduced (staleness_bound r.max_staleness_seconds t ss)
      (staleness_bound-AllWithin r.max_staleness_seconds t ss)
  where
    reduced :
        (x : Result (List ServerDescription))
        → AllWithin ss x
        → AllWithin ss
            (x >>= λ fresh. ok (latency_window_reducer t.local_threshold_ms (by_tags r.tags fresh)))
    reduced (throw e) h = tt
    reduced (ok ks) h = λ s at. h s (
        by_tags-Within r.tags ks s
          ((In-latency_window_reducer t.local_threshold_ms (by_tags r.tags ks) s).0 at).0)

-- The result of a selector holds servers of the list that pass a test.
unfoldable pub Sound :
    (ServerType → Type 0)
    → List ServerDescription
    → Result (Option (List ServerDescription))
    → Type 0
Sound P ss (ok (some ks)) = (s : ServerDescription) → In s ks → In s ss × P s.type
Sound P ss _ = Unit

pub of_secondary : (ty : ServerType) → is_secondary ty ≡ true → ty ≡ rs_secondary
of_secondary ty h = ground arith

of_primary : (ty : ServerType) → is_primary ty ≡ true → ty ≡ rs_primary
of_primary ty h = ground arith

of_nearest :
    (ty : ServerType)
    → (is_secondary ty || is_primary ty) ≡ true
    → (ty ≡ rs_primary) ⊎ (ty ≡ rs_secondary)
of_nearest ty h = ground arith

filtered-Sound :
    (P : ServerType → Type 0) (test : ServerDescription → Bool) (ss : List ServerDescription)
    → ((s : ServerDescription) → test s ≡ true → P s.type)
    → (x : Result (List ServerDescription)) → AllWithin ss x
    → Sound P ss (x >>= λ ks. ok (some (select test ks)))
unfolding Sound AllWithin Within
filtered-Sound P test ss right (throw e) h = tt
filtered-Sound P test ss right (ok ks) h =
    λ s at. (h s (In-of_In-select test s ks at), right s (In-select-true test s ks at))

PrimaryOrSecondary : ServerType → Type 0
PrimaryOrSecondary ty = (ty ≡ rs_primary) ⊎ (ty ≡ rs_secondary)

-- A list of servers of `ss` that pass the filter.
primaries-Sound :
    (P : ServerType → Type 0) (ss : List ServerDescription)
    → ((s : ServerDescription) → primary_filter s ≡ true → P s.type)
    → (s : ServerDescription) → In s (select primary_filter ss)
    → In s ss × P s.type
primaries-Sound P ss right s h =
    (In-of_In-select primary_filter s ss h, right s (In-select-true primary_filter s ss h))

or_primaries-Sound :
    (ss : List ServerDescription) (x : Result (List ServerDescription))
    → AllWithin ss x
    → Sound PrimaryOrSecondary ss
        (x >>= λ ks. ok (some (or_primaries ss (select secondary_filter ks))))
unfolding Sound AllWithin Within PrimaryOrSecondary
or_primaries-Sound ss (throw e) h = tt
or_primaries-Sound ss (ok ks) h = λ s. either (select secondary_filter ks) refl s
  where
    either :
        (ms : List ServerDescription)
        → select secondary_filter ks ≡ ms
        → (s : ServerDescription) → In s (or_primaries ss ms)
        → In s ss × ((s.type ≡ rs_primary) ⊎ (s.type ≡ rs_secondary))
    either [] e s at =
        primaries-Sound (λ ty. (ty ≡ rs_primary) ⊎ (ty ≡ rs_secondary)) ss
          (λ x q. inl (of_primary x.type q)) s at
    either (m ∷ ms) e s at =
        let at' = subst (In s) (sym e) at in
        (
          h s (In-of_In-select secondary_filter s ks at'),
          inr (of_secondary s.type (In-select-true secondary_filter s ks at')),
        )

primaries_or-Sound :
    (ps : List ServerDescription) (r : ReadPreference) (t : TopologyDescription)
    (ss : List ServerDescription)
    → select primary_filter ss ≡ ps
    → Sound PrimaryOrSecondary ss (primaries_or ps r t ss)
unfolding primaries_or Sound PrimaryOrSecondary
primaries_or-Sound (m ∷ ms) r t ss e = λ s at.
    primaries-Sound (λ ty. (ty ≡ rs_primary) ⊎ (ty ≡ rs_secondary)) ss
      (λ x q. inl (of_primary x.type q)) s (subst (In s) (sym e) at)
primaries_or-Sound [] r t ss e =
    filtered-Sound (λ ty. (ty ≡ rs_primary) ⊎ (ty ≡ rs_secondary)) secondary_filter ss
      (λ x q. inr (of_secondary x.type q)) (reduce_all r t ss) (reduce_all-AllWithin r t ss)

pub select_by_mode-Sound :
    (m : Mode) (r : ReadPreference) (t : TopologyDescription) (ss : List ServerDescription)
    → Sound (Allows m) ss (select_by_mode m r t ss)
unfolding select_by_mode Sound Allows PrimaryOrSecondary
select_by_mode-Sound primary r t ss =
    primaries-Sound (λ ty. ty ≡ rs_primary) ss (λ x q. of_primary x.type q)
select_by_mode-Sound secondary r t ss =
    filtered-Sound (λ ty. ty ≡ rs_secondary) secondary_filter ss (λ x q. of_secondary x.type q)
      (reduce_all r t ss) (reduce_all-AllWithin r t ss)
select_by_mode-Sound nearest r t ss =
    filtered-Sound (λ ty. (ty ≡ rs_primary) ⊎ (ty ≡ rs_secondary)) nearest_filter ss
      (λ x q. of_nearest x.type q) (reduce_all r t ss) (reduce_all-AllWithin r t ss)
select_by_mode-Sound secondary_preferred r t ss =
    or_primaries-Sound ss (reduce_all r t ss) (reduce_all-AllWithin r t ss)
select_by_mode-Sound primary_preferred r t ss =
    primaries_or-Sound (select primary_filter ss) r t ss refl
select_by_mode-Sound true_mode r t ss = tt
select_by_mode-Sound false_mode r t ss = tt
select_by_mode-Sound null_mode r t ss = tt
select_by_mode-Sound (other_mode m) r t ss = tt
