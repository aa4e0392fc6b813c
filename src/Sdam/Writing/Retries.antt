-- ===== src/Sdam/Writing/Retries.antt =====
-- lib/sdam/topology.js: when a write is tried again, and with which number.
use mongodb_core.Errors.{Error, is_retryable_error}
use mongodb_core.Prelude.{
  ℕ, suc, ◌≤◌, ◌≡◌, ◌⊎◌, String, Bool, true, false, Option, none, some, List, All, length,
}
use mongodb_core.Sdam.Writing.{Operation, WriteOptions, Sent, Written, number, carried, sending}

-- The second attempt is allowed, and the reply to the first is an error that may be tried again.
unfoldable pub IsRetried : Bool → Option Error → Type 0
IsRetried retry reply =
    (retry ≡ true) × (e : Error) × (reply ≡ some e) × (is_retryable_error e ≡ true)

-- The numbers of a session before and after.
unfoldable pub CountsUp : Bool → Option ℕ → Option ℕ → Type 0
CountsUp retry before after =
    (after ≡ before) ⊎ ((retry ≡ true) × (n : ℕ) × (before ≡ some n) × (after ≡ some (suc n)))

-- What holds of an operation that ends, by whether it may be tried again and the reply to its first attempt.
pub record IsDone (operation : Operation) (retry : Bool) (reply : Option Error) (o : WriteOptions)
    (w : Written) : Type 0 where
  pub few : length w.sent ≤ 2
  pub numbered_alike :
      retry ≡ true
      → (n : ℕ) → number o.session ≡ some n
      → All (λ s. s.txn_number ≡ some (suc n)) w.sent
  pub as_given :
      retry ≡ false → (w.options ≡ o) × All (λ s. s.txn_number ≡ carried operation o) w.sent
  pub counted : CountsUp retry (number o.session) (number w.options.session)
  pub twice : length w.sent ≡ 2 → IsRetried retry reply

-- The options with which an attempt is sent.
record IsMarked (operation : Operation) (retry : Bool) (o p : WriteOptions) : Type 0 where
  counted : CountsUp retry (number o.session) (number p.session)
  next : retry ≡ true → (n : ℕ) → number o.session ≡ some n → carried operation p ≡ some (suc n)
  same : retry ≡ false → p ≡ o

abbrev EndsDone : Operation → Bool → Option Error → WriteOptions → Option Written → Type 0
EndsDone operation retry reply o none = ⊥
EndsDone operation retry reply o (some w) = IsDone operation retry reply o w

module _ (operation : Operation) where
  -- A call that does not try again keeps the options and sends one command at most.
  abbrev SendsOnce : WriteOptions → List Sent → Option Written → Type 0
  SendsOnce p sent none = ⊥
  SendsOnce p sent (some w) =
      (w.options ≡ p)
      × ((w.sent ≡ sent) ⊎ ((server : String) × (w.sent ≡ sending operation server p sent)))
