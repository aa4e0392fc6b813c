-- ===== src/Connection/Framing/Slices.antt =====
-- Lists of bytes, as lib/connection/connection.js cuts and copies them.
use mongodb_core.Prelude.{
  append-nil, append_assoc, ℕ, zero, suc, ◌-◌, ◌≤◌, ◌<◌, ◌≡◌, refl, sym, ap, ◌∙◌, ◌⊎◌, inl, inr,
  List, [], ◌∷◌, ◌++◌, arith, ltb, ltb→lt, length, Bool-cases,
}
use mongodb_core.Prelude.Int.{pos}
use mongodb_core.Wire.Bytes.{take, drop}
use mongodb_core.Connection.Framing.{Event, alloc, copy, read_size, message}

-- A message begins with its size, of 4 bytes, and is longer than that and shorter than the limit.
abbrev pub IsFramed : ℕ → List ℕ → Type 0
IsFramed max m = (read_size m ≡ pos (length m)) × (4 < length m) × (length m < max)

abbrev pub concat : List (List ℕ) → List ℕ
concat [] = []
concat (m ∷ ms) = m ++ concat ms

abbrev pub messages : List (List ℕ) → List Event
messages [] = []
messages (m ∷ ms) = message m ∷ messages ms

pub take-append : (n : ℕ) (x y : List ℕ) → n ≤ length x → take n (x ++ y) ≡ take n x
take-append zero x y h = refl
take-append (suc n) [] y h = absurd (omega arith)
take-append (suc n) (a ∷ x) y h = ap (λ l. a ∷ l) (take-append n x y (omega arith))

pub drop-append : (n : ℕ) (x y : List ℕ) → n ≤ length x → drop n (x ++ y) ≡ drop n x ++ y
drop-append zero x y h = refl
drop-append (suc n) [] y h = absurd (omega arith)
drop-append (suc n) (a ∷ x) y h = drop-append n x y (omega arith)

pub take-length : (x : List ℕ) → take (length x) x ≡ x
take-length [] = refl
take-length (a ∷ x) = ap (λ l. a ∷ l) (take-length x)

pub drop-length : (x : List ℕ) → drop (length x) x ≡ []
drop-length [] = refl
drop-length (a ∷ x) = drop-length x

-- Two ways to cut the same bytes: what the longer begins with, and what it goes on with.
pub front : (x y u v : List ℕ) → x ++ y ≡ u ++ v → length u ≤ length x → take (length u) x ≡ u
front x y u v e h =
    sym (take-append (length u) x y h)
    ∙ ap (take (length u)) e
    ∙ take-append (length u) u v (omega arith)
    ∙ take-length u

pub back : (x y u v : List ℕ) → x ++ y ≡ u ++ v → length u ≤ length x → drop (length u) x ++ y ≡ v
back x y u v e h =
    sym (drop-append (length u) x y h)
    ∙ ap (drop (length u)) e
    ∙ drop-append (length u) u v (omega arith)
    ∙ ap (λ l. l ++ v) (drop-length u)

pub read_size-append : (x y : List ℕ) → 4 ≤ length x → read_size (x ++ y) ≡ read_size x
read_size-append [] y h = absurd (omega arith)
read_size-append (a ∷ []) y h = absurd (omega arith)
read_size-append (a ∷ b ∷ []) y h = absurd (omega arith)
read_size-append (a ∷ b ∷ c ∷ []) y h = absurd (omega arith)
read_size-append (a ∷ b ∷ c ∷ d ∷ x) y h = refl

pub same_size :
    (max : ℕ) (x y m v : List ℕ)
    → x ++ y ≡ m ++ v
    → 4 ≤ length x
    → IsFramed max m
    → read_size x ≡ pos (length m)
same_size max x y m v e h framed =
    sym (read_size-append x y h) ∙ ap read_size e ∙ read_size-append m v (omega arith) ∙ framed.0

-- Writing after what has been written.
pub copy-alloc :
    (bytes : List ℕ) (n : ℕ)
    → length bytes ≤ n
    → copy bytes (alloc n) 0 ≡ bytes ++ alloc (n - length bytes)
copy-alloc [] n h = ap alloc (omega arith)
copy-alloc (x ∷ bytes) zero h = absurd (omega arith)
copy-alloc (x ∷ bytes) (suc n) h =
    ap (λ l. x ∷ l) (copy-alloc bytes n (omega arith) ∙ ap (λ k. bytes ++ alloc k) (omega arith))

copy-append :
    (x bytes target : List ℕ) → copy bytes (x ++ target) (length x) ≡ x ++ copy bytes target 0
copy-append [] bytes target = refl
copy-append (a ∷ x) [] target = refl
copy-append (a ∷ x) (b ∷ bytes) target = ap (λ l. a ∷ l) (copy-append x (b ∷ bytes) target)

pub copy_after :
    (x bytes : List ℕ) (n : ℕ)
    → length bytes ≤ n
    → copy bytes (x ++ alloc n) (length x) ≡ (x ++ bytes) ++ alloc (n - length bytes)
copy_after x bytes n h =
    copy-append x bytes (alloc n)
    ∙ ap (λ l. x ++ l) (copy-alloc bytes n h)
    ∙ sym (append_assoc x bytes (alloc (n - length bytes)))

length-take : (k : ℕ) (x : List ℕ) → k ≤ length x → length (take k x) ≡ k
length-take zero x h = refl
length-take (suc k) [] h = absurd (omega arith)
length-take (suc k) (a ∷ x) h = ap suc (length-take k x (omega arith))

pub take_past : (n : ℕ) (x y : List ℕ) → length x ≤ n → take n (x ++ y) ≡ x ++ take (n - length x) y
take_past n [] y h = ap (λ k. take k y) (omega arith)
take_past zero (a ∷ x) y h = absurd (omega arith)
take_past (suc n) (a ∷ x) y h =
    ap (λ l. a ∷ l) (take_past n x y (omega arith) ∙ ap (λ k. x ++ take k y) (omega arith))

pub filled :
    (x bytes : List ℕ) (k : ℕ)
    → k ≤ length bytes
    → copy (take k bytes) (x ++ alloc k) (length x) ≡ x ++ take k bytes
filled x bytes k h =
    let e : k - length (take k bytes) ≡ 0 = omega (arith, length-take k bytes h) in
    copy_after x (take k bytes) k (omega (arith, length-take k bytes h))
    ∙ ap (λ j. (x ++ take k bytes) ++ alloc j) e
    ∙ append-nil (x ++ take k bytes)

pub drop_past : (n : ℕ) (x y : List ℕ) → length x ≤ n → drop n (x ++ y) ≡ drop (n - length x) y
drop_past n [] y h = ap (λ k. drop k y) (omega arith)
drop_past zero (a ∷ x) y h = absurd (omega arith)
drop_past (suc n) (a ∷ x) y h = drop_past n x y (omega arith) ∙ ap (λ k. drop k y) (omega arith)

pub pos-inj : (a b : ℕ) → pos a ≡ pos b → a ≡ b
pos-inj a b e = cc

pub lt_or_le : (a b : ℕ) → (a < b) ⊎ (b ≤ a)
lt_or_le a b = elim (Bool-cases (ltb a b)) [
  | inl less ↦ inl (ltb→lt a b less)
  | inr not_less ↦ inr (ground arith)
]
