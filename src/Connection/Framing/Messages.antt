-- ===== src/Connection/Framing/Messages.antt =====
-- lib/connection/connection.js, dataHandler: a stream of messages is delivered message by message,
-- however the socket cuts it into chunks.
use mongodb_core.Prelude.{
  ℕ, ◌+◌, ◌≤◌, ◌≡◌, refl, sym, ap, ◌∙◌, inl, inr, some, List, [], ◌∷◌, ◌++◌, arith, length,
  length-append, All,
}
use mongodb_core.Connection.Framing.{Connection, receive, new_connection, message}
use mongodb_core.Connection.Framing.Slices.{IsFramed, concat, messages, same_size, pos-inj}
use mongodb_core.Connection.Framing.Rounds.{idle}
use mongodb_core.Connection.Framing.Chunks.{Holds, Delivers, deliver}

messages-append : (ms ns : List (List ℕ)) → messages (ms ++ ns) ≡ messages ms ++ messages ns
messages-append [] ns = refl
messages-append (m ∷ ms) ns = ap (λ l. message m ∷ l) (messages-append ms ns)

abbrev IsLong : List ℕ → Type 0
IsLong bytes = 4 ≤ length bytes

-- All that is left at the end is complete.
nothing_left :
    (max : ℕ) (ms : List (List ℕ)) (q : List ℕ) (c : Connection)
    → Holds max q c
    → q ++ [] ≡ concat ms
    → All (IsFramed max) ms
    → (c ≡ idle max []) × (ms ≡ [])
unfolding Holds
nothing_left max [] [] c (inl (e, few)) same all = (e, refl)
nothing_left max [] (a ∷ q) c h same all = cc
nothing_left max [] [] c (inr (n, e, many, size, part, small)) same all = absurd (omega arith)
nothing_left max (m ∷ ms) q c h same all =
    let long : length q ≡ length m + length (concat ms) =
      omega (arith, ap length same, length-append q [], length-append m (concat ms)) in
    absurd (contradiction h long)
  where
    contradiction : Holds max q c → length q ≡ length m + length (concat ms) → ⊥
    contradiction (inl (e, few)) long = omega arith
    contradiction (inr (n, e, many, size, part, small)) long =
        let total : length m ≡ n =
          pos-inj (length m) n
            (sym (same_size max q [] m (concat ms) same (omega arith) all.0) ∙ size) in
        omega arith

receive_from :
    (max : ℕ) (chunks ms : List (List ℕ)) (p : List ℕ) (c : Connection)
    → Holds max p c
    → All IsLong chunks
    → p ++ concat chunks ≡ concat ms
    → All (IsFramed max) ms
    → receive chunks c ≡ some (idle max [], messages ms)
unfolding receive Delivers
receive_from max [] ms p c h long e all =
    let (at_rest, none_left) = nothing_left max ms p c h e all in rw (at_rest, none_left) refl
receive_from max (bytes ∷ chunks) ms p c h long e all =
    let (done, left, q, d, delivered, cut, h', e', all') =
      deliver max (concat chunks) ms p bytes c h long.0 e all in
    let later : receive chunks d ≡ some (idle max [], messages left) =
      receive_from max chunks left q d h' long.1 e' all' in
    rw (delivered, later)
      (ap (λ l. some (idle max [], l)) (sym (messages-append done left) ∙ ap messages (sym cut)))

-- A stream of messages, each of which begins with its size and is below the limit, is delivered message by
-- message, in order and complete, and nothing is kept at the end, however the socket cuts the stream into
-- chunks of four bytes or more.
pub receive-messages :
    (max : ℕ) (chunks ms : List (List ℕ))
    → All IsLong chunks
    → concat chunks ≡ concat ms
    → All (IsFramed max) ms
    → receive chunks (new_connection max) ≡ some (new_connection max, messages ms)
unfolding Holds
receive-messages max chunks ms long e all =
    receive_from max chunks ms [] (idle max []) (inl (refl, omega arith)) long e all
