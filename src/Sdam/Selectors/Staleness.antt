-- ===== src/Sdam/Selectors/Staleness.antt =====
-- lib/sdam/server_selectors.js: the reduction by staleness.
use mongodb_core.Errors.{Result, ok}
use mongodb_core.Prelude.{
  ℕ, ◌+◌, ◌*◌, ◌≤◌, ◌≡◌, refl, ap, ◌∙◌, ◌↔◌, ◌⊎◌, inl, inr, Bool, true, some, List, [], ◌∷◌, arith,
  ltb, if◌then◌else◌, Bool-cases, In, In-select, In-of_In-select, In-select-true, select,
}
use mongodb_core.Prelude.Int.{ℤ, pos, pos_part, neg_part, +ℤ_parts, -ℤ_parts, ◌+ℤ◌, ◌-ℤ◌, leb_ℤ}
use mongodb_core.ReadPreference.{ReadPreference}
use mongodb_core.Sdam.ServerDescription.{ServerDescription, is_primary}
use mongodb_core.Sdam.TopologyDescription.{
  TopologyDescription, replica_set_with_primary, replica_set_no_primary,
}
use mongodb_core.Sdam.Selectors.{
  date, first, latest_write, max_staleness_reducer, staleness_bound, stale_with_primary, stale_step,
  staleness_ms, staleness_ms_no_primary,
}

-- The server's write date is behind the primary's by at most `bound`, over the time between the two
-- checks and a heartbeat.
pub IsFresh : TopologyDescription → ServerDescription → ℕ → ServerDescription → Type 0
IsFresh t p bound s =
    s.last_update_time + date p.last_write_date + t.heartbeat_frequency_ms
    ≤ bound + date s.last_write_date + p.last_update_time

leb_ℤ_iff :
    (a : ℤ) (k m n : ℕ) → pos_part a + n ≡ neg_part a + m → (leb_ℤ a (pos k) ≡ true) ↔ (m ≤ k + n)
leb_ℤ_iff a k m n e = ground arith

difference_parts :
    (a b c d h : ℕ)
    → let x = (pos a -ℤ pos b) -ℤ (pos c -ℤ pos d) +ℤ pos h in
      pos_part x + (b + c) ≡ neg_part x + (a + d + h)
difference_parts a b c d h = omega (
  arith,
  -ℤ_parts (pos a) (pos b),
  -ℤ_parts (pos c) (pos d),
  -ℤ_parts (pos a -ℤ pos b) (pos c -ℤ pos d),
  +ℤ_parts ((pos a -ℤ pos b) -ℤ (pos c -ℤ pos d)) (pos h),
)

staleness_iff :
    (t : TopologyDescription) (p s : ServerDescription) (bound : ℕ)
    → (leb_ℤ (staleness_ms t p s) (pos bound) ≡ true) ↔ IsFresh t p bound s
unfolding staleness_ms IsFresh
staleness_iff t p s bound =
    let (to, from) = leb_ℤ_iff (staleness_ms t p s) bound _ _ (
      difference_parts s.last_update_time (date s.last_write_date) p.last_update_time
        (date p.last_write_date) t.heartbeat_frequency_ms) in
    (λ h. omega (arith, to h), λ h. from (omega arith))

staleness_no_primary_iff :
    (t : TopologyDescription) (latest : ℕ) (s : ServerDescription) (bound : ℕ)
    → (leb_ℤ (staleness_ms_no_primary t latest s) (pos bound) ≡ true)
      ↔ (latest + t.heartbeat_frequency_ms ≤ bound + date s.last_write_date)
unfolding staleness_ms_no_primary
staleness_no_primary_iff t latest s bound =
    leb_ℤ_iff (staleness_ms_no_primary t latest s) bound _ _ (
      omega (
        arith,
        -ℤ_parts (pos latest) (pos (date s.last_write_date)),
        +ℤ_parts (pos latest -ℤ pos (date s.last_write_date)) (pos t.heartbeat_frequency_ms),
      ))

-- What the guards of the reducer leave.
guarded :
    (r : ReadPreference) (t : TopologyDescription) (ss : List ServerDescription) (n : ℕ)
    → r.max_staleness_seconds ≡ some (pos n)
    → t.heartbeat_frequency_ms + 10000 ≤ 1000 * n
    → 90 ≤ n
    → max_staleness_reducer r t ss ≡ stale_step t.type t n ss
unfolding max_staleness_reducer staleness_bound
guarded r t ss n e long least =
    ap (λ o. staleness_bound o t ss) e
    ∙ by_tests (1000 * n) t.heartbeat_frequency_ms n _ _ (stale_step t.type t n ss) long least
  where
    by_tests :
        (m h k : ℕ) (x y z : Result (List ServerDescription))
        → h + 10000 ≤ m
        → 90 ≤ k
        → (if ltb m (h + 10000) then x else if ltb k 90 then y else z) ≡ z
    by_tests m h k x y z a b = ground arith

-- The latest write date is that of a server of the list.
latest_write_of :
    (ss : List ServerDescription) (d : ℕ)
    → (latest_write ss d ≡ d)
      ⊎ ((s : ServerDescription) × In s ss × (latest_write ss d ≡ date s.last_write_date))
unfolding latest_write
latest_write_of [] d = inl refl
latest_write_of (s ∷ ss) d = elim (Bool-cases (ltb d (date s.last_write_date))) [
  | inl later ↦ rw later (elim (latest_write_of ss (date s.last_write_date)) [
    | inl e ↦ inr (s, inl refl, e)
    | inr (x, at, e) ↦ inr (x, inr at, e)
  ])
  | inr other ↦
      rw other (elim (latest_write_of ss d) [ inl e ↦ inl e | inr (x, at, e) ↦ inr (x, inr at, e) ])
]

-- No date that the fold has seen is later.
latest_write-from :
    (ss : List ServerDescription) (d : ℕ)
    → (d ≤ latest_write ss d)
      × ((s : ServerDescription) → In s ss → date s.last_write_date ≤ latest_write ss d)
unfolding latest_write
latest_write-from [] d = (omega arith, λ s at. absurd at)
latest_write-from (x ∷ ss) d = elim (Bool-cases (ltb d (date x.last_write_date))) [
  | inl later ↦
      let (above, all) = latest_write-from ss (date x.last_write_date) in
      rw later (
        ground (arith, above, later),
        λ s at. elim at [ inl e ↦ rw e above | inr further ↦ all s further ],
      )
  | inr other ↦
      let (above, all) = latest_write-from ss d in
      rw other (
        above,
        λ s at. elim at [
          | inl e ↦ rw e (ground (arith, above, other))
          | inr further ↦ all s further
        ],
      )
]

-- A server of the list than which none was written later.
pub IsLatest : ServerDescription → List ServerDescription → Type 0
IsLatest best ss =
    In best ss
    × ((s : ServerDescription) → In s ss → date s.last_write_date ≤ date best.last_write_date)

latest_write-IsLatest :
    (x : ServerDescription) (ss : List ServerDescription)
    → (best : ServerDescription) × IsLatest best (x ∷ ss)
      × (latest_write ss (date x.last_write_date) ≡ date best.last_write_date)
unfolding IsLatest
latest_write-IsLatest x ss =
    let (above, all) = latest_write-from ss (date x.last_write_date) in
    elim (latest_write_of ss (date x.last_write_date)) [
      | inl e ↦ (
        x,
        (
          inl refl,
          λ s at. elim at [
            | inl same ↦ rw same (omega arith)
            | inr further ↦ rw (← e) (all s further)
          ],
        ),
        e,
      )
      | inr (best, at, e) ↦ (
        best,
        (
          inr at,
          λ s there. elim there [
            | inl same ↦ rw (same, ← e) above
            | inr further ↦ rw (← e) (all s further)
          ],
        ),
        e,
      )
    ]

-- With a known primary and a bound that the guards let pass, the reduction returns exactly the servers
-- whose write date is behind the primary's by at most the bound, the time between the two checks and a
-- heartbeat included.
pub max_staleness_reducer_with_primary :
    (r : ReadPreference) (t : TopologyDescription) (ss : List ServerDescription) (n : ℕ)
    (p : ServerDescription)
    → r.max_staleness_seconds ≡ some (pos n)
    → t.heartbeat_frequency_ms + 10000 ≤ 1000 * n
    → 90 ≤ n
    → t.type ≡ replica_set_with_primary
    → first (select (λ s. is_primary s.type) ss) ≡ some p
    → (kept : List ServerDescription) × (max_staleness_reducer r t ss ≡ ok kept)
      × ((s : ServerDescription) → In s kept ↔ (In s ss × IsFresh t p (1000 * n) s))
unfolding stale_step stale_with_primary
max_staleness_reducer_with_primary r t ss n p e long least ty at =
    let test : ServerDescription → Bool = λ s. leb_ℤ (staleness_ms t p s) (pos (1000 * n)) in
    (
      select test ss,
      guarded r t ss n e long least
          ∙ ap (λ k. stale_step k t n ss) ty
          ∙ ap (λ o. stale_with_primary o t n ss) at,
      λ s. (
        λ h. (
          In-of_In-select test s ss h,
          (staleness_iff t p s (1000 * n)).0 (In-select-true test s ss h),
        ),
        λ h. In-select test s ss h.0 ((staleness_iff t p s (1000 * n)).1 h.1),
      ),
    )

-- With no primary and a bound that the guards let pass, the reduction of a list with a server succeeds: it
-- returns exactly the servers of the list whose write date is behind that of a server written last by at
-- most the bound, a heartbeat included, and that server is among them.
pub max_staleness_reducer_no_primary :
    (r : ReadPreference) (t : TopologyDescription) (x : ServerDescription)
    (ss : List ServerDescription) (n : ℕ)
    → r.max_staleness_seconds ≡ some (pos n)
    → t.heartbeat_frequency_ms + 10000 ≤ 1000 * n
    → 90 ≤ n
    → t.type ≡ replica_set_no_primary
    → (kept : List ServerDescription) × (max_staleness_reducer r t (x ∷ ss) ≡ ok kept)
      × ((best : ServerDescription) × IsLatest best (x ∷ ss)
          × In best kept
          × ((s : ServerDescription)
              → In s kept ↔ (
                  In s (x ∷ ss)
                  × (date best.last_write_date + t.heartbeat_frequency_ms
                      ≤ 1000 * n + date s.last_write_date))))
unfolding stale_step IsLatest
max_staleness_reducer_no_primary r t x ss n e long least ty =
    let latest = latest_write ss (date x.last_write_date) in
    let test : ServerDescription → Bool =
      λ s. leb_ℤ (staleness_ms_no_primary t latest s) (pos (1000 * n)) in
    let (best, is_latest, is_best) = latest_write-IsLatest x ss in
    let exact : (s : ServerDescription)
        → In s (select test (x ∷ ss)) ↔ (
            In s (x ∷ ss)
            × (date best.last_write_date + t.heartbeat_frequency_ms
                ≤ 1000 * n + date s.last_write_date)) =
      λ s. (
        λ h. (
          In-of_In-select test s (x ∷ ss) h,
          omega (
            arith,
            is_best,
            (staleness_no_primary_iff t latest s (1000 * n)).0 (In-select-true test s (x ∷ ss) h),
          ),
        ),
        λ h.
            In-select test s (x ∷ ss) h.0
              ((staleness_no_primary_iff t latest s (1000 * n)).1 (omega (arith, is_best, h.1))),
      ) in
    (
      select test (x ∷ ss),
      guarded r t (x ∷ ss) n e long least ∙ ap (λ k. stale_step k t n (x ∷ ss)) ty,
      (best, is_latest, (exact best).1 (is_latest.0, omega arith), exact),
    )
