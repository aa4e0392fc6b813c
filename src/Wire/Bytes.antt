-- ===== src/Wire/Bytes.antt =====
-- Signed 32-bit numbers in a buffer, least significant byte first: the four assignments that
-- lib/connection/commands.js writes out for each number, and `readInt32LE`, which throws out of range.
pub mod RoundTrip
use mongodb_core.Prelude.{
  ℕ, zero, suc, ◌+◌, ◌-◌, ◌*◌, ◌/◌, ◌%◌, Bool, true, false, Option, none, some, List, [], ◌∷◌, ltb,
  if◌then◌else◌,
}
use mongodb_core.Prelude.Int.{ℤ, pos, negsuc}

-- A number modulo 2^32, which the shifts of the language work on.
abbrev pub to_word : ℤ → ℕ
to_word (pos n) = n % 4294967296
to_word (negsuc n) = 4294967295 - n % 4294967296

abbrev pub from_word : ℕ → ℤ
from_word w = if ltb w 2147483648 then pos w else negsuc (4294967295 - w)

abbrev word_bytes : ℕ → List ℕ
word_bytes w = w % 256 ∷ w / 256 % 256 ∷ w / 65536 % 256 ∷ w / 16777216 % 256 ∷ []

unfoldable pub write_int32 : ℤ → List ℕ
write_int32 z = word_bytes (to_word z)

abbrev pub word_of : ℕ → ℕ → ℕ → ℕ → ℕ
word_of a b c d = a + 256 * b + 65536 * c + 16777216 * d

-- `buffer.slice(n)`
abbrev pub drop : ℕ → List ℕ → List ℕ
drop zero bs = bs
drop (suc n) [] = []
drop (suc n) (b ∷ bs) = drop n bs

-- `buffer.slice(0, n)`
abbrev pub take : ℕ → List ℕ → List ℕ
take zero bs = []
take (suc n) [] = []
take (suc n) (b ∷ bs) = b ∷ take n bs

abbrev pub first_word : List ℕ → Option ℕ
first_word (a ∷ b ∷ c ∷ d ∷ bs) = some (word_of a b c d)
first_word _ = none

-- `readUInt32LE(0)` and `readInt32LE(0)`
abbrev pub read_uint32 : List ℕ → Option ℕ
read_uint32 bs = first_word bs

abbrev as_signed : Option ℕ → Option ℤ
as_signed none = none
as_signed (some w) = some (from_word w)

unfoldable pub read_int32 : ℕ → List ℕ → Option ℤ
read_int32 offset bs = as_signed (first_word (drop offset bs))
