-- ===== src/Sessions/Ending/Labels.antt =====
-- lib/sessions.js: the labels of a failed commit.
use mongodb_core.Errors.{Error, ok, has_error_label}
use mongodb_core.Prelude.{
  ◌≡◌, refl, ap, ◌∙◌, String, true, false, ◌||◌, Option, none, some, List, [], ◌∷◌, ◌++◌, arith,
  str_eq, contains, Bool-cases, any, inl, inr,
}
use mongodb_core.Sessions.Client.{ClientSession}
use mongodb_core.Sessions.Ending.{
  commit, relabel, relabel_if, remove_first, handled, command_handler, Handled, transient,
  unknown_result, labels_left, may_be_lost, is_unknown_transaction_commit_result,
}
use mongodb_core.Sessions.Ending.States.{sends}
use mongodb_core.Transactions.{
  TxnState, transaction_committed, next_states, same_state, entered, unpin_server,
}
use mongodb_core.Transactions.Laws.{transition-ok}

contains-append :
    (xs ys : List String) (l : String) → contains (xs ++ ys) l ≡ (contains xs l || contains ys l)
contains-append [] ys l = refl
contains-append (x ∷ xs) ys l = ground (arith, contains-append xs ys l)

-- The label is in the list at most once.
unfoldable pub Once : String → List String → Type 0
Once label [] = Unit
Once label (l ∷ labels) =
    (str_eq l label ≡ true → contains labels label ≡ false) × Once label labels

remove_first-gone :
    (label : String) (labels : List String)
    → Once label labels
    → contains (remove_first label labels) label ≡ false
unfolding remove_first Once
remove_first-gone label [] once = refl
remove_first-gone label (l ∷ labels) once = elim (Bool-cases (str_eq l label)) [
  | inl same ↦ rw same (once.0 same)
  | inr other ↦ rw (other, other) (remove_first-gone label labels once.1)
]

unfoldable pub OnceIn : String → Option (List String) → Type 0
OnceIn label none = Unit
OnceIn label (some labels) = Once label labels

labels_left-gone :
    (o : Option (List String)) → OnceIn transient o → contains (labels_left o) transient ≡ false
unfolding OnceIn
labels_left-gone none once = refl
labels_left-gone (some labels) once = remove_first-gone transient labels once

-- A commit whose error leaves its result unknown (a network error, a write concern error or a retryable one,
-- less those that say that the write concern cannot be met): the callback's error has the label of an unknown
-- result and, if its labels held the transient one at most once, not the transient one, so that the
-- commit alone is tried again; and no server is pinned.
pub command_handler-unknown :
    (e : Error) (c : ClientSession)
    → sends commit c.transaction.state ≡ true
    → may_be_lost e ≡ true
    → is_unknown_transaction_commit_result e ≡ true
    → OnceIn transient e.error_labels
    → (h : Handled) × (d : Error) × (command_handler commit (some e) c ≡ ok h)
      × (h.error ≡ some d)
      × (has_error_label d unknown_result ≡ true)
      × (has_error_label d transient ≡ false)
      × (h.session.transaction.pinned_server ≡ none)
unfolding command_handler relabel relabel_if unpin_server has_error_label sends next_states
command_handler-unknown e c at lost unknown once =
    let c' = record c { transaction = entered transaction_committed c.transaction } in
    let d = record e { error_labels = some (labels_left e.error_labels ++ unknown_result ∷ []) } in
    (
      relabel_if true true e c',
      d,
      ap (handled commit (some e) c) (
            transition-ok c.transaction.state transaction_committed c.transaction refl
              (allowed c.transaction.state at))
          ∙ ap (λ b. ok (relabel_if b (is_unknown_transaction_commit_result e) e c')) lost
          ∙ ap (λ b. ok (relabel_if true b e c')) unknown,
      refl,
      contains-append (labels_left e.error_labels) (unknown_result ∷ []) unknown_result
          ∙ ground arith,
      contains-append (labels_left e.error_labels) (unknown_result ∷ []) transient
          ∙ ap (λ b. b || contains (unknown_result ∷ []) transient)
              (labels_left-gone e.error_labels once),
      refl,
    )
  where
    allowed :
        (s : TxnState)
        → sends commit s ≡ true
        → any (same_state transaction_committed) (next_states s) ≡ true
    allowed s q = ground arith
