-- ===== src/Sdam/Selectors/Filters.antt =====
-- lib/sdam/server_selectors.js: the reductions by tag sets and by staleness.
use mongodb_core.Prelude.{
  ◌≡◌, refl, sym, ap, subst, ◌↔◌, ◌⊎◌, inl, inr, Bool, true, false, none, some, List, [], ◌∷◌,
  arith, if◌then◌else◌, Bool-cases, str_eq, eq_iff, All, In, In-select, In-of_In-select,
  In-select-true, select, Dict, get, String,
}
use mongodb_core.Sdam.ServerDescription.{ServerDescription}
use mongodb_core.Sdam.Selectors.{tag_is, tag_set_match, tag_sets_reduce}

-- The server has each of the tags.
HasTags : Dict String → Dict String → Type 0
HasTags tags server_tags = All (λ e. get e.0 server_tags ≡ some e.1) tags

tag_set_match_iff :
    (tags server_tags : Dict String)
    → (tag_set_match tags server_tags ≡ true) ↔ HasTags tags server_tags
unfolding tag_set_match HasTags
tag_set_match_iff [] m = (λ h. tt, λ h. refl)
tag_set_match_iff ((k, v) ∷ tags) m =
    let rest = tag_set_match_iff tags m in
    elim (get k m)
      as (λ o.
        ((if tag_is o v then tag_set_match tags m else false) ≡ true)
        ↔ ((o ≡ some v) × All (λ e. get e.0 m ≡ some e.1) tags)) [
          | none ↦ (λ h. cc, λ h. cc)
          | some w ↦ elim (Bool-cases (str_eq w v)) [
            | inl same ↦ rw same (λ h. (ap some ((eq_iff w v).0 same), rest.0 h), λ h. rest.1 h.1)
            | inr other ↦ rw other (λ h. cc, λ h. absurd (differ w v other h.0))
          ]
        ]
  where
    differ : (w v : String) → str_eq w v ≡ false → some w ≡ some v → ⊥
    differ w v e h = ground (arith, eq_iff w v)

-- A server is chosen by the first of the tag sets that matches some server.
pub Chosen : List (Dict String) → List ServerDescription → ServerDescription → Type 0
Chosen [] ss s = ⊥
Chosen (tags ∷ sets) ss s =
    (In s ss × HasTags tags s.tags) ⊎ (All (λ x. ¬ HasTags tags x.tags) ss × Chosen sets ss s)

none_match :
    (tags : Dict String) (ss : List ServerDescription)
    → select (λ s. tag_set_match tags s.tags) ss ≡ []
    → All (λ x. ¬ HasTags tags x.tags) ss
none_match tags [] e = tt
none_match tags (x ∷ ss) e = elim (Bool-cases (tag_set_match tags x.tags)) [
  | inl matched ↦ absurd (
      nonempty (
        subst
          (λ b.
            (if b
              then x ∷ select (λ s. tag_set_match tags s.tags) ss
              else select (λ s. tag_set_match tags s.tags) ss)
            ≡ [])
          matched e))
  | inr other ↦ (
    λ h. cc (yes_no ((tag_set_match_iff tags x.tags).1 h) other),
    none_match tags ss (rw other at e),
  )
]
  where
    yes_no : {b : Bool} → b ≡ true → b ≡ false → true ≡ false
    yes_no p q = cc

    nonempty : {y : ServerDescription} {ys : List ServerDescription} → y ∷ ys ≡ [] → ⊥
    nonempty q = cc

one_matches :
    (tags : Dict String) (ss : List ServerDescription) (s : ServerDescription)
    → In s ss
    → HasTags tags s.tags
    → All (λ x. ¬ HasTags tags x.tags) ss
    → ⊥
one_matches tags [] s at h none_has = at
one_matches tags (x ∷ ss) s (inl e) h none_has = none_has.0 (subst (λ y. HasTags tags y.tags) e h)
one_matches tags (x ∷ ss) s (inr at) h none_has = one_matches tags ss s at h none_has.1

module _ (tags : Dict String) (sets : List (Dict String)) (ss : List ServerDescription)
    (s : ServerDescription) (later : In s (tag_sets_reduce sets ss) ↔ Chosen sets ss s) where
  abbrev matches : ServerDescription → Bool
  matches x = tag_set_match tags x.tags

  some_match :
      (n : ServerDescription) → In n (select matches ss) → All (λ x. ¬ HasTags tags x.tags) ss → ⊥
  some_match n at nothing =
      one_matches tags ss n (In-of_In-select matches n ss at)
        ((tag_set_match_iff tags n.tags).0 (In-select-true matches n ss at)) nothing

  by_matches :
      (ms : List ServerDescription)
      → select matches ss ≡ ms
      → In s (elim ms as (λ x. List ServerDescription) [
        | [] ↦ tag_sets_reduce sets ss
        | n ∷ ns ↦ n ∷ ns
      ])
        ↔ ((In s ss × HasTags tags s.tags)
            ⊎ (All (λ x. ¬ HasTags tags x.tags) ss × Chosen sets ss s))
  by_matches [] e = (
    λ h. inr (none_match tags ss e, later.0 h),
    λ h. elim h [
      | inl (at, own) ↦ absurd (one_matches tags ss s at own (none_match tags ss e))
      | inr (nothing, chosen) ↦ later.1 chosen
    ],
  )
  by_matches (n ∷ ns) e = (
    λ h.
        let at = subst (In s) (sym e) h in
        inl (
          In-of_In-select matches s ss at,
          (tag_set_match_iff tags s.tags).0 (In-select-true matches s ss at),
        ),
    λ h. subst (In s) e (elim h [
      | inl (at, own) ↦ In-select matches s ss at ((tag_set_match_iff tags s.tags).1 own)
      | inr (nothing, chosen) ↦ absurd (some_match n (subst (In n) (sym e) (inl refl)) nothing)
    ]),
  )

-- Tag sets keep exactly the servers that have every tag of the first set that some server matches.
pub In-tag_sets_reduce :
    (sets : List (Dict String)) (ss : List ServerDescription) (s : ServerDescription)
    → In s (tag_sets_reduce sets ss) ↔ Chosen sets ss s
unfolding tag_sets_reduce Chosen
In-tag_sets_reduce [] ss s = (λ h. h, λ h. h)
In-tag_sets_reduce (tags ∷ sets) ss s =
    by_matches tags sets ss s (In-tag_sets_reduce sets ss s)
      (select (λ x. tag_set_match tags x.tags) ss) refl

pub Chosen-In :
    (sets : List (Dict String)) (ss : List ServerDescription) (s : ServerDescription)
    → Chosen sets ss s
    → In s ss
unfolding Chosen
Chosen-In [] ss s h = absurd h
Chosen-In (tags ∷ sets) ss s (inl h) = h.0
Chosen-In (tags ∷ sets) ss s (inr h) = Chosen-In sets ss s h.1
