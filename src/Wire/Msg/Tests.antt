-- ===== src/Wire/Msg/Tests.antt =====
-- lib/connection/msg.js: a message with a document of five bytes.
use mongodb_core.Errors.{Result, ok, throw}
use mongodb_core.Prelude.{ℕ, Bool, ◌≡◌, refl, true, false, some, List, [], ◌∷◌, arith, length}
use mongodb_core.Wire.Bytes.{drop}
use mongodb_core.Wire.Msg.{Msg, msg_to_bin, read_flags, parse_body, parse_sections}
use mongodb_core.Wire.Msg.Sections.{
  IsDocument, sections, parse_sections-sections, parse_body-msg_to_bin,
}
use mongodb_core.Wire.Requests.{parse_header}
use mongodb_core.Wire.Requests.Headers.{request}

-- The empty document.
abbrev empty : List ℕ
empty = 5 ∷ 0 ∷ 0 ∷ 0 ∷ 0 ∷ []

empty-IsDocument : IsDocument empty
unfolding IsDocument
empty-IsDocument = refl

parse_sections-sections_example :
    parse_sections 12 (sections (empty ∷ empty ∷ [])) ≡ ok (empty ∷ empty ∷ [])
parse_sections-sections_example =
    parse_sections-sections 12 (empty ∷ empty ∷ []) (empty-IsDocument, (empty-IsDocument, tt))
      (omega arith)

abbrev ping : Msg
ping = record {
  request_id = 77;
  command = empty;
  checksum_present = false;
  more_to_come = true;
  exhaust_allowed = false;
}

parse_body-msg_to_bin_example :
    (parse_header (msg_to_bin ping) ≡ some (request 26 77 2013))
    × (length (msg_to_bin ping) ≡ 26)
    × (read_flags (drop 16 (msg_to_bin ping))
        ≡ some (record { checksum_present = false; more_to_come = true; exhaust_allowed = false }))
    × (parse_body (drop 16 (msg_to_bin ping)) ≡ ok (empty ∷ []))
parse_body-msg_to_bin_example =
    parse_body-msg_to_bin ping empty-IsDocument (omega arith) (omega arith)

abbrev returns : {A : Type 0} → Result A → Bool
returns (ok x) = true
returns (throw e) = false

-- Two bytes that are no payload type 0, and a document that is cut off.
abbrev broken : List ℕ
broken = 1 ∷ 3 ∷ 0 ∷ 9 ∷ 0 ∷ 0 ∷ 0 ∷ []

broken_ends : returns (parse_sections 7 broken) ≡ true
unfolding parse_sections
broken_ends = refl
