-- ===== src/Connection/Framing/Chunks.antt =====
-- lib/connection/connection.js, dataHandler: what one chunk of a stream of messages delivers.
use mongodb_core.Prelude.{
  append_assoc, ℕ, zero, suc, ◌+◌, ◌-◌, ◌≤◌, ◌<◌, ◌≡◌, refl, sym, ap, subst, ◌∙◌, ◌⊎◌, inl, inr,
  Option, some, List, [], ◌∷◌, ◌++◌, arith, length, length-append, All,
}
use mongodb_core.Prelude.Int.{pos}
use mongodb_core.Wire.Bytes.{drop}
use mongodb_core.Connection.Framing.{
  Connection, Event, Round, next, read_size, round, emitted, go_on, rounds, data_handler, message,
}
use mongodb_core.Connection.Framing.Bounds.{length-drop}
use mongodb_core.Connection.Framing.Slices.{
  IsFramed, concat, messages, front, back, read_size-append, same_size, drop_past, pos-inj,
  lt_or_le,
}
use mongodb_core.Connection.Framing.Rounds.{
  idle, in_work, round-more, round-rest, round-stub, round-few, round-begin, round-whole,
}

-- What holds bytes `p` of a message that is not complete.
unfoldable pub Holds : ℕ → List ℕ → Connection → Type 0
Holds max p c =
    ((c ≡ idle max p) × (length p ≤ 4))
    ⊎ ((n : ℕ) × (c ≡ in_work max n p)
        × (4 < length p)
        × (read_size p ≡ pos n)
        × (length p < n)
        × (n < max))

-- The handler has delivered the messages that are complete, and holds the bytes of the next.
unfoldable pub Delivers : ℕ → List (List ℕ) → List ℕ → Option (Connection × List Event) → Type 0
Delivers max ms rest o =
    (done : List (List ℕ)) × (left : List (List ℕ)) × (q : List ℕ) × (c : Connection) × (o
      ≡ some (c, messages done))
    × (ms ≡ done ++ left)
    × Holds max q c
    × (q ++ rest ≡ concat left)
    × All (IsFramed max) left

module _ (max : ℕ) (rest : List ℕ) where
  holds :
      (ms : List (List ℕ)) (q : List ℕ) (c : Connection)
      → Holds max q c
      → q ++ rest ≡ concat ms
      → All (IsFramed max) ms
      → Delivers max ms rest (some (c, []))
  unfolding Delivers
  holds ms q c h e all = ([], ms, q, c, refl, refl, h, e, all)

  -- A message more.
  Delivers-one :
      (m : List ℕ) (ms : List (List ℕ)) (o : Option (Connection × List Event))
      → Delivers max ms rest o
      → Delivers max (m ∷ ms) rest (emitted (message m ∷ []) o)
  unfolding Delivers
  Delivers-one m ms o (done, left, q, c, e, e', h, same, all) =
      (m ∷ done, left, q, c, ap (emitted (message m ∷ [])) e, ap (λ l. m ∷ l) e', h, same, all)

  one_round :
      (fuel : ℕ) (ms : List (List ℕ)) (c : Connection) (b : ℕ) (bytes : List ℕ) {r : Round}
      → round c (b ∷ bytes) ≡ r
      → Delivers max ms rest (go_on (rounds fuel) r)
      → Delivers max ms rest (rounds (suc fuel) c (b ∷ bytes))
  unfolding rounds
  one_round fuel ms c b bytes e h =
      subst (λ r. Delivers max ms rest (go_on (rounds fuel) r)) (sym e) h

  -- The chunk is used up.
  used_up :
      (fuel : ℕ) (ms : List (List ℕ)) (q : List ℕ) (c : Connection)
      → Holds max q c
      → q ++ rest ≡ concat ms
      → All (IsFramed max) ms
      → Delivers max ms rest (go_on (rounds fuel) (next c [] []))
  unfolding rounds
  used_up fuel ms q c h e all = holds ms q c h e all

  deliver_idle :
      (fuel : ℕ) (ms : List (List ℕ)) (bytes : List ℕ)
      → length bytes ≤ fuel
      → bytes ++ rest ≡ concat ms
      → All (IsFramed max) ms
      → Delivers max ms rest (rounds fuel (idle max []) bytes)
  unfolding rounds Holds
  deliver_idle fuel ms [] enough e all = holds ms [] (idle max []) (inl (refl, omega arith)) e all
  deliver_idle zero ms (b ∷ bytes) enough e all = absurd (omega arith)
  deliver_idle (suc fuel) [] (b ∷ bytes) enough e all = absurd (omega (arith, ap length e))
  deliver_idle (suc fuel) (m ∷ ms) (b ∷ bytes) enough e all =
      elim (lt_or_le 4 (length (b ∷ bytes))) [
        | inr few ↦
            one_round fuel (m ∷ ms) (idle max []) b bytes (round-few max (b ∷ bytes) few)
              (used_up fuel (m ∷ ms) (b ∷ bytes) (idle max (b ∷ bytes)) (inl (refl, few)) e all)
        | inl many ↦
            let framed : IsFramed max m = all.0 in
            let size : read_size (b ∷ bytes) ≡ pos (length m) =
              same_size max (b ∷ bytes) rest m (concat ms) e (omega arith) framed in
            elim (lt_or_le (length (b ∷ bytes)) (length m)) [
              | inl part ↦
                  one_round fuel (m ∷ ms) (idle max []) b bytes
                    (round-begin max (length m) (b ∷ bytes) size many part framed.2)
                    (used_up fuel (m ∷ ms) (b ∷ bytes) (in_work max (length m) (b ∷ bytes))
                      (inr (length m, refl, many, size, part, framed.2)) e all)
              | inr whole ↦
                  one_round fuel (m ∷ ms) (idle max []) b bytes
                    (round-whole max (length m) (b ∷ bytes) size framed.1 whole framed.2)
                    (subst
                      (λ t. Delivers max (m ∷ ms) rest (
                        emitted (message t ∷ [])
                          (rounds fuel (idle max []) (drop (length m) (b ∷ bytes)))))
                      (sym (front (b ∷ bytes) rest m (concat ms) e whole))
                      (Delivers-one m ms _ (
                        deliver_idle fuel ms (drop (length m) (b ∷ bytes))
                          (omega (arith, length-drop (length m) (b ∷ bytes)))
                          (back (b ∷ bytes) rest m (concat ms) e whole) all.1)))
            ]
      ]

  nothing_emitted :
      (ms : List (List ℕ)) (o : Option (Connection × List Event))
      → Delivers max ms rest o
      → Delivers max ms rest (emitted [] o)
  unfolding Delivers
  nothing_emitted ms o (done, left, q, c, e, e', h, same, all) =
      (done, left, q, c, ap (emitted []) e, e', h, same, all)

  deliver_stub :
      (ms : List (List ℕ)) (p : List ℕ) (b : ℕ) (bytes : List ℕ)
      → 4 ≤ length (b ∷ bytes)
      → p ++ ((b ∷ bytes) ++ rest) ≡ concat ms
      → All (IsFramed max) ms
      → Delivers max ms rest (data_handler (idle max p) (b ∷ bytes))
  unfolding data_handler
  deliver_stub ms [] b bytes long e all =
      deliver_idle (suc (0 + length (b ∷ bytes))) ms (b ∷ bytes) (omega arith) e all
  deliver_stub ms (a ∷ p) b bytes long e all =
      one_round (length (a ∷ p) + length (b ∷ bytes)) ms (idle max (a ∷ p)) b bytes
        (round-stub max (a ∷ p) (b ∷ bytes) (omega arith) (omega arith))
        (nothing_emitted ms _ (
          deliver_idle (length (a ∷ p) + length (b ∷ bytes)) ms ((a ∷ p) ++ (b ∷ bytes))
            (omega (arith, length-append (a ∷ p) (b ∷ bytes)))
            (append_assoc (a ∷ p) (b ∷ bytes) rest ∙ e) all))

  deliver_in_work :
      (m : List ℕ) (ms : List (List ℕ)) (p : List ℕ) (b : ℕ) (bytes : List ℕ)
      → 4 < length p
      → read_size p ≡ pos (length m)
      → length p < length m
      → p ++ ((b ∷ bytes) ++ rest) ≡ concat (m ∷ ms)
      → All (IsFramed max) (m ∷ ms)
      → Delivers max (m ∷ ms) rest (data_handler (in_work max (length m) p) (b ∷ bytes))
  unfolding data_handler Holds
  deliver_in_work m ms p b bytes many size part e all =
      let joined : (p ++ (b ∷ bytes)) ++ rest ≡ m ++ concat ms =
        append_assoc p (b ∷ bytes) rest ∙ e in
      elim (lt_or_le (length p + length (b ∷ bytes)) (length m)) [
        | inl missing ↦
            one_round (0 + length (b ∷ bytes)) (m ∷ ms) (in_work max (length m) p) b bytes
              (round-more max (length m) p (b ∷ bytes) many missing)
              (used_up (0 + length (b ∷ bytes)) (m ∷ ms) (p ++ (b ∷ bytes))
                (in_work max (length m) (p ++ (b ∷ bytes)))
                (inr (
                  length m,
                  refl,
                  omega (arith, length-append p (b ∷ bytes)),
                  read_size-append p (b ∷ bytes) (omega arith) ∙ size,
                  omega (arith, length-append p (b ∷ bytes)),
                  all.0.2,
                ))
                joined all)
        | inr there ↦
            one_round (0 + length (b ∷ bytes)) (m ∷ ms) (in_work max (length m) p) b bytes
              (round-rest max (length m) p (b ∷ bytes) many part there)
              (subst
                (λ t. Delivers max (m ∷ ms) rest (
                  emitted (message t ∷ []) (
                    rounds (0 + length (b ∷ bytes)) (idle max [])
                      (drop (length m - length p) (b ∷ bytes)))))
                (sym (
                  front (p ++ (b ∷ bytes)) rest m (concat ms) joined
                    (omega (arith, length-append p (b ∷ bytes)))))
                (Delivers-one m ms _ (
                  deliver_idle (0 + length (b ∷ bytes)) ms (drop (length m - length p) (b ∷ bytes))
                    (omega (arith, length-drop (length m - length p) (b ∷ bytes)))
                    (ap (λ l. l ++ rest) (sym (drop_past (length m) p (b ∷ bytes) (omega arith)))
                      ∙ back (p ++ (b ∷ bytes)) rest m (concat ms) joined
                          (omega (arith, length-append p (b ∷ bytes))))
                    all.1)))
      ]

  pub deliver :
      (ms : List (List ℕ)) (p bytes : List ℕ) (c : Connection)
      → Holds max p c
      → 4 ≤ length bytes
      → p ++ (bytes ++ rest) ≡ concat ms
      → All (IsFramed max) ms
      → Delivers max ms rest (data_handler c bytes)
  unfolding Holds
  deliver ms p [] c h long e all = absurd (omega arith)
  deliver ms p (b ∷ bytes) c (inl (is_idle, few)) long e all =
      subst (λ d. Delivers max ms rest (data_handler d (b ∷ bytes))) (sym is_idle)
        (deliver_stub ms p b bytes long e all)
  deliver [] p (b ∷ bytes) c (inr h) long e all =
      absurd (omega (arith, ap length e, length-append p ((b ∷ bytes) ++ rest)))
  deliver (m ∷ ms) p (b ∷ bytes) c (inr (n, is_in_work, many, size, part, small)) long e all =
      let total : read_size p ≡ pos (length m) =
        same_size max p ((b ∷ bytes) ++ rest) m (concat ms) e (omega arith) all.0 in
      let whole : length m ≡ n = pos-inj (length m) n (sym total ∙ size) in
      subst (λ d. Delivers max (m ∷ ms) rest (data_handler d (b ∷ bytes)))
        (sym (is_in_work ∙ ap (λ k. in_work max k p) (sym whole)))
        (deliver_in_work m ms p b bytes many total (omega arith) e all)
