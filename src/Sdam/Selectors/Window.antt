-- ===== src/Sdam/Selectors/Window.antt =====
-- lib/sdam/server_selectors.js: the latency window, and the selector for writes.
use mongodb_core.Prelude.{
  ℕ, ◌+◌, ◌≤◌, ◌≡◌, refl, sym, subst, ◌∙◌, ◌↔◌, ◌⊎◌, inl, inr, true, none, some, List, [], ◌∷◌,
  arith, min, All, In, In-select, In-of_In-select, In-select-true, select,
}
use mongodb_core.Sdam.ServerDescription.{ServerDescription, is_writable}
use mongodb_core.Sdam.TopologyDescription.{TopologyDescription}
use mongodb_core.Sdam.Selectors.{lowest, within, latency_window_reducer, writable_server_selector}

-- The time `n` is that of one of the servers, or the start `m`.
abbrev TimeOf : List ServerDescription → ℕ → Type 0
TimeOf ss n = (x : ServerDescription) × In x ss × (n ≡ x.round_trip_time)

Least : List ServerDescription → ℕ → Type 0
Least ss n = All (λ x. n ≤ x.round_trip_time) ss × TimeOf ss n

lowest-some :
    (ss : List ServerDescription) (m : ℕ)
    → (n : ℕ) × (lowest ss (some m) ≡ some n)
      × (n ≤ m)
      × All (λ x. n ≤ x.round_trip_time) ss
      × ((n ≡ m) ⊎ TimeOf ss n)
unfolding lowest
lowest-some [] m = (m, refl, omega arith, tt, inl refl)
lowest-some (s ∷ ss) m =
    let (n, e, below, all, at) = lowest-some ss (min s.round_trip_time m) in
    (
      n,
      e,
      omega arith,
      (omega arith, all),
      elim at [
        | inr (x, h, q) ↦ inr (x, inr h, q)
        | inl q ↦ elim (min-cases s.round_trip_time m) [
          | inl q' ↦ inr (s, inl refl, q ∙ q')
          | inr q' ↦ inl (q ∙ q')
        ]
      ],
    )
  where
    min-cases : (a b : ℕ) → (min a b ≡ a) ⊎ (min a b ≡ b)
    min-cases a b = omega arith

lowest-Least :
    (s : ServerDescription) (ss : List ServerDescription)
    → (n : ℕ) × (lowest (s ∷ ss) none ≡ some n) × Least (s ∷ ss) n
unfolding lowest Least
lowest-Least s ss =
    let (n, e, below, all, at) = lowest-some ss s.round_trip_time in
    (n, e, ((below, all), elim at [ inl q ↦ (s, inl refl, q) | inr (x, h, q) ↦ (x, inr h, q) ]))

All-In :
    (P : ServerDescription → Type 0) (ss : List ServerDescription) (s : ServerDescription)
    → All P ss
    → In s ss
    → P s
All-In P [] s a h = absurd h
All-In P (x ∷ ss) s a (inl e) = subst P (sym e) a.0
All-In P (x ∷ ss) s a (inr h) = All-In P ss s a.1 h

All-weaken :
    (P Q : ServerDescription → Type 0) (ss : List ServerDescription)
    → ((s : ServerDescription) → P s → Q s)
    → All P ss
    → All Q ss
All-weaken P Q [] f a = tt
All-weaken P Q (x ∷ ss) f a = (f x a.0, All-weaken P Q ss f a.1)

-- No server of the list answers faster than this one by more than the threshold.
pub IsNear : ℕ → List ServerDescription → ServerDescription → Type 0
IsNear threshold ss s = All (λ x. s.round_trip_time ≤ x.round_trip_time + threshold) ss

pub IsNear-at :
    (threshold : ℕ) (ss : List ServerDescription) (s x : ServerDescription)
    → IsNear threshold ss s
    → In x ss
    → s.round_trip_time ≤ x.round_trip_time + threshold
unfolding IsNear
IsNear-at threshold ss s x near at = All-In _ ss x near at

In-window :
    (threshold low : ℕ) (ss : List ServerDescription) (s : ServerDescription)
    → Least ss low
    → In s (select (within low threshold) ss) ↔ (In s ss × IsNear threshold ss s)
unfolding IsNear Least
In-window threshold low ss s least = (
  λ h.
      let near : within low threshold s ≡ true = In-select-true (within low threshold) s ss h in
      (
        In-of_In-select (within low threshold) s ss h,
        All-weaken (λ x. low ≤ x.round_trip_time)
            (λ x. s.round_trip_time ≤ x.round_trip_time + threshold) ss (λ x b. ground arith)
            least.0,
      ),
  λ h.
      let (x, at, e) = least.1 in
      let fast : s.round_trip_time ≤ x.round_trip_time + threshold = All-In _ ss x h.1 at in
      let slow : low ≤ s.round_trip_time = All-In _ ss s least.0 h.0 in
      In-select (within low threshold) s ss h.0 (ground arith),
)

-- The latency window keeps a server exactly if it is in the list and no server of the list answers
-- faster by more than the threshold.
pub In-latency_window_reducer :
    (threshold : ℕ) (ss : List ServerDescription) (s : ServerDescription)
    → In s (latency_window_reducer threshold ss) ↔ (In s ss × IsNear threshold ss s)
unfolding latency_window_reducer lowest
In-latency_window_reducer threshold [] s = (λ h. absurd h, λ h. h.0)
In-latency_window_reducer threshold (t ∷ ss) s =
    let (n, e, least) = lowest-Least t ss in
    subst
      (λ o.
        In s (elim o as (λ x. List ServerDescription) [
          | none ↦ []
          | some low ↦ select (within low threshold) (t ∷ ss)
        ])
        ↔ (In s (t ∷ ss) × IsNear threshold (t ∷ ss) s))
      (sym e) (In-window threshold n (t ∷ ss) s least)

-- The window over a list with a server is not empty.
latency_window_reducer_fastest :
    (threshold : ℕ) (t : ServerDescription) (ss : List ServerDescription)
    → (s : ServerDescription) × In s (latency_window_reducer threshold (t ∷ ss))
unfolding IsNear Least
latency_window_reducer_fastest threshold t ss =
    let (n, e, (all, (x, at, q))) = lowest-Least t ss in
    (
      x,
      (In-latency_window_reducer threshold (t ∷ ss) x).1
          (at, All-weaken _ _ (t ∷ ss) (λ y b. omega arith) all),
    )

-- The selector for writes returns exactly the writable servers that no writable server beats by more
-- than the threshold.
pub In-writable_server_selector :
    (t : TopologyDescription) (ss : List ServerDescription) (s : ServerDescription)
    → In s (writable_server_selector t ss)
      ↔ (In s ss × ((is_writable s ≡ true) × IsNear t.local_threshold_ms (select is_writable ss) s))
unfolding writable_server_selector
In-writable_server_selector t ss s =
    let window = In-latency_window_reducer t.local_threshold_ms (select is_writable ss) s in
    (
      λ h.
          let (kept, near) = window.0 h in
          (In-of_In-select is_writable s ss kept, (In-select-true is_writable s ss kept, near)),
      λ h. window.1 (In-select is_writable s ss h.0 h.1.0, h.1.1),
    )
