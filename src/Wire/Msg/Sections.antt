-- ===== src/Wire/Msg/Sections.antt =====
-- lib/connection/msg.js: what a message says is read back, and the rounds of a parse.
use mongodb_core.Errors.{ok}
use mongodb_core.Prelude.{
  append-nil, ℕ, zero, suc, ◌+◌, ◌/◌, ◌%◌, ◌≤◌, ◌<◌, ◌≡◌, refl, sym, ap, ◌∙◌, Bool, true, false,
  Option, none, some, List, [], ◌∷◌, ◌++◌, arith, length, length-append, All, ◌==◌,
}
use mongodb_core.Wire.Bytes.{drop, take, first_word, read_uint32, write_int32, word_of}
use mongodb_core.Wire.Bytes.RoundTrip.{word_of-word_bytes}
use mongodb_core.Wire.Requests.{parse_header, message_header}
use mongodb_core.Wire.Requests.Headers.{request, parse_header-message_header}
use mongodb_core.Wire.Msg.{
  Msg, op_msg, bit, msg_flags, msg_length, msg_to_bin, flags_of, read_flags, document_at, prepend,
  after_document, parse_step, parse_sections, parse_body,
}

-- What the format of documents says: they begin with their size.
unfoldable pub IsDocument : List ℕ → Type 0
IsDocument d = read_uint32 d ≡ some (length d)

abbrev pub sections : List (List ℕ) → List ℕ
sections [] = []
sections (d ∷ ds) = 0 ∷ (d ++ sections ds)

first_word-append : (d r : List ℕ) (w : ℕ) → first_word d ≡ some w → first_word (d ++ r) ≡ some w
first_word-append [] r w e = cc
first_word-append (a ∷ []) r w e = cc
first_word-append (a ∷ b ∷ []) r w e = cc
first_word-append (a ∷ b ∷ c ∷ []) r w e = cc
first_word-append (a ∷ b ∷ c ∷ x ∷ d) r w e = e

take-append : (d r : List ℕ) → take (length d) (d ++ r) ≡ d
take-append [] r = refl
take-append (x ∷ d) r = ap (λ l. x ∷ l) (take-append d r)

drop-append : (d r : List ℕ) → drop (length d) (d ++ r) ≡ r
drop-append [] r = refl
drop-append (x ∷ d) r = drop-append d r

-- The body of a message with any number of documents is parsed to those documents.
pub parse_sections-sections :
    (fuel : ℕ) (ds : List (List ℕ))
    → All IsDocument ds
    → length (sections ds) ≤ fuel
    → parse_sections fuel (sections ds) ≡ ok ds
unfolding parse_sections parse_step IsDocument
parse_sections-sections fuel [] all enough = refl
parse_sections-sections zero (d ∷ ds) all enough = absurd (omega arith)
parse_sections-sections (suc n) (d ∷ ds) all enough =
    ap (λ o. after_document (parse_sections n) (document_at o (d ++ sections ds)))
      (first_word-append d (sections ds) (length d) all.0)
    ∙ ap (λ l. prepend l (parse_sections n (drop (length d) (d ++ sections ds))))
        (take-append d (sections ds))
    ∙ ap (λ l. prepend d (parse_sections n l)) (drop-append d (sections ds))
    ∙ ap (prepend d)
        (parse_sections-sections n ds all.1 (omega (arith, length-append d (sections ds))))

length-drop-le : (n : ℕ) (bs : List ℕ) → length (drop n bs) ≤ length bs
length-drop-le zero bs = omega arith
length-drop-le (suc n) [] = omega arith
length-drop-le (suc n) (b ∷ bs) = omega (arith, length-drop-le n bs)

-- A parse of any bytes needs no more rounds than there are bytes: with that many it gives what it gives with
-- any larger number.
parse_sections-enough :
    (m n : ℕ) (bs : List ℕ)
    → length bs ≤ m
    → length bs ≤ n
    → parse_sections m bs ≡ parse_sections n bs
unfolding parse_sections parse_step
parse_sections-enough m n [] h k = refl
parse_sections-enough zero n (b ∷ bs) h k = absurd (omega arith)
parse_sections-enough (suc m) zero (b ∷ bs) h k = absurd (omega arith)
parse_sections-enough (suc m) (suc n) (b ∷ bs) h k =
    by_type (b == 0) (parse_sections-enough m n bs (omega arith) (omega arith)) (
      on_read (read_uint32 bs) (λ size.
        parse_sections-enough m n (drop size bs) (omega (arith, length-drop-le size bs))
          (omega (arith, length-drop-le size bs))))
  where
    on_read :
        (o : Option ℕ)
        → ((size : ℕ) → parse_sections m (drop size bs) ≡ parse_sections n (drop size bs))
        → after_document (parse_sections m) (document_at o bs)
          ≡ after_document (parse_sections n) (document_at o bs)
    on_read none later = refl
    on_read (some size) later = ap (prepend (take size bs)) (later size)

    by_type :
        (t : Bool)
        → parse_sections m bs ≡ parse_sections n bs
        → after_document (parse_sections m) (document_at (read_uint32 bs) bs)
          ≡ after_document (parse_sections n) (document_at (read_uint32 bs) bs)
        → parse_step t (parse_sections m) bs ≡ parse_step t (parse_sections n) bs
    by_type false same read = same
    by_type true same read = read

one_section :
    (fuel : ℕ) (c : List ℕ)
    → IsDocument c
    → length c < fuel
    → parse_sections fuel (0 ∷ c) ≡ ok (c ∷ [])
one_section fuel c d enough =
    ap (λ l. parse_sections fuel (0 ∷ l)) (sym (append-nil c))
    ∙ parse_sections-sections fuel (c ∷ []) (d, tt) (omega (arith, length-append c []))

flags-bits :
    (a b c : Bool)
    → flags_of (some (bit a 1 + bit b 2 + bit c 65536))
      ≡ some (record { checksum_present = a; more_to_come = b; exhaust_allowed = c })
flags-bits true true true = refl
flags-bits true true false = refl
flags-bits true false true = refl
flags-bits true false false = refl
flags-bits false true true = refl
flags-bits false true false = refl
flags-bits false false true = refl
flags-bits false false false = refl

flags-lt : (a b c : Bool) → bit a 1 + bit b 2 + bit c 65536 < 2147483648
flags-lt a b c = ground arith

flag_word :
    (w : ℕ)
    → w < 2147483648
    → word_of
        (w % 4294967296 % 256)
        (w % 4294967296 / 256 % 256)
        (w % 4294967296 / 65536 % 256)
        (w % 4294967296 / 16777216 % 256)
      ≡ w
flag_word w h = word_of-word_bytes (w % 4294967296) (omega arith) ∙ omega arith

-- What a message says is read back from its bytes: the header, with the number of bytes for its length,
-- the flags, and the command as the only document, provided that the command's bytes begin with their
-- number and that the length and the id of the request are signed 32-bit numbers.
pub parse_body-msg_to_bin :
    (m : Msg)
    → IsDocument m.command
    → msg_length m < 2147483648
    → m.request_id < 2147483648
    → (parse_header (msg_to_bin m) ≡ some (request (msg_length m) m.request_id op_msg))
      × (length (msg_to_bin m) ≡ msg_length m)
      × (read_flags (drop 16 (msg_to_bin m))
          ≡ some (record {
            checksum_present = m.checksum_present;
            more_to_come = m.more_to_come;
            exhaust_allowed = m.exhaust_allowed;
          }))
      × (parse_body (drop 16 (msg_to_bin m)) ≡ ok (m.command ∷ []))
unfolding msg_to_bin message_header write_int32 read_flags parse_body
parse_body-msg_to_bin m d h i = (
  parse_header-message_header (msg_length m) m.request_id op_msg _ h i (omega arith),
  omega arith,
  ap (λ w. flags_of (some w))
        (flag_word (msg_flags m) (flags-lt m.checksum_present m.more_to_come m.exhaust_allowed))
      ∙ flags-bits m.checksum_present m.more_to_come m.exhaust_allowed,
  one_section (suc (suc (suc (suc (suc (length m.command)))))) m.command d (omega arith),
)
