-- ===== src/Errors.antt =====
-- lib/error.js: the error classes, error labels and the test for retryable errors. An error is the
-- record of what the driver reads of it; stack traces and the other fields of a server reply are
-- left out.
use text.Mathlib.Text.{find?}
use mongodb_core.Prelude.{
  ℕ, String, Bool, true, false, ◌||◌, Option, none, some, List, [], ◌∷◌, ◌==◌, contains, is_some,
}

-- `instanceof`: MongoError and its subclasses, and the errors of the language.
pub data ErrorClass : Type 0 where
  mongo_error mongo_network_error mongo_parse_error mongo_timeout_error : ErrorClass
  mongo_write_concern_error type_error plain_error : ErrorClass

pub record Error : Type 0 where
  pub class : ErrorClass
  pub message : String
  pub code : Option ℕ
  pub code_name : Option String
  pub error_labels : Option (List String)

pub data Result {ℓ} (A : Type ℓ) : Type ℓ where
  ok : A → Result A
  throw : Error → Result A

infixl 5 ◌>>=◌
abbrev pub ◌>>=◌ {ℓ κ} : {A : Type ℓ} {B : Type κ} → Result A → (A → Result B) → Result B
ok a >>= f = f a
throw e >>= f = throw e

-- `new C(message)` for a text; a network error comes with its label.
abbrev labels_of : ErrorClass → Option (List String)
labels_of mongo_network_error = some ("TransientTransactionError" ∷ [])
labels_of _ = none

unfoldable pub new_error : ErrorClass → String → Error
new_error c message = record {
  class = c;
  message = message;
  code = none;
  code_name = none;
  error_labels = labels_of c;
}

abbrev pub instanceof_mongo_error : ErrorClass → Bool
instanceof_mongo_error type_error = false
instanceof_mongo_error plain_error = false
instanceof_mongo_error _ = true

abbrev pub is_network_error : ErrorClass → Bool
is_network_error mongo_network_error = true
is_network_error _ = false

abbrev pub is_write_concern_error : ErrorClass → Bool
is_write_concern_error mongo_write_concern_error = true
is_write_concern_error _ = false

abbrev labelled : Option (List String) → String → Bool
labelled none label = false
labelled (some labels) label = contains labels label

unfoldable pub has_error_label : Error → String → Bool
has_error_label e label = labelled e.error_labels label

abbrev code_in : List ℕ → Option ℕ → Bool
code_in codes none = false
code_in [] (some c) = false
code_in (d ∷ codes) (some c) = d == c || code_in codes (some c)

abbrev retryable_error_codes : List ℕ
retryable_error_codes = 6 ∷ 7 ∷ 89 ∷ 91 ∷ 189 ∷ 9001 ∷ 10107 ∷ 11600 ∷ 11602 ∷ 13435 ∷ 13436 ∷ []

-- The patterns hold no special character, so a match is an occurrence.
unfoldable pub is_retryable_error : Error → Bool
is_retryable_error e =
    code_in retryable_error_codes e.code
    || is_network_error e.class
    || is_some (find? e.message "not master")
    || is_some (find? e.message "node is recovering")
