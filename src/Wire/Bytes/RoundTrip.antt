-- ===== src/Wire/Bytes/RoundTrip.antt =====
-- Signed 32-bit numbers in a buffer: what is written is read back.
use mongodb_core.Prelude.{
  ℕ, ◌-◌, ◌/◌, ◌%◌, ◌≤◌, ◌<◌, ◌≡◌, refl, ap, ◌∙◌, some, List, ◌++◌, arith, length,
}
use mongodb_core.Prelude.Int.{ℤ, pos, negsuc}
use mongodb_core.Wire.Bytes.{to_word, from_word, write_int32, word_of, read_int32}

-- The number is one of 32 bits with a sign.
IsInt32 : ℤ → Type 0
IsInt32 (pos n) = n < 2147483648
IsInt32 (negsuc n) = n < 2147483648

pub word_of-word_bytes :
    (w : ℕ)
    → w < 4294967296
    → word_of (w % 256) (w / 256 % 256) (w / 65536 % 256) (w / 16777216 % 256) ≡ w
word_of-word_bytes w h = omega arith

to_word-lt : (z : ℤ) → to_word z < 4294967296
to_word-lt (pos n) = omega arith
to_word-lt (negsuc n) = omega arith

from_word-small : (w : ℕ) → w < 2147483648 → from_word w ≡ pos w
from_word-small w h = ground arith

from_word-large : (w : ℕ) → 2147483648 ≤ w → from_word w ≡ negsuc (4294967295 - w)
from_word-large w h = ground arith

from_word-to_word : (z : ℤ) → IsInt32 z → from_word (to_word z) ≡ z
unfolding IsInt32
from_word-to_word (pos n) h = from_word-small (n % 4294967296) (omega arith) ∙ ap pos (omega arith)
from_word-to_word (negsuc n) h =
    from_word-large (4294967295 - n % 4294967296) (omega arith) ∙ ap negsuc (omega arith)

read_int32-write_int32 :
    (z : ℤ) (bs : List ℕ) → IsInt32 z → read_int32 0 (write_int32 z ++ bs) ≡ some z
unfolding read_int32 write_int32
read_int32-write_int32 z bs h =
    ap (λ w. some (from_word w)) (word_of-word_bytes (to_word z) (to_word-lt z))
    ∙ ap some (from_word-to_word z h)

pos-IsInt32 : (n : ℕ) → n < 2147483648 → IsInt32 (pos n)
unfolding IsInt32
pos-IsInt32 n h = h

length-write_int32 : (z : ℤ) → length (write_int32 z) ≡ 4
unfolding write_int32
length-write_int32 z = refl

-- The bytes of a number below 2^31, read as a signed number.
pub word-pos :
    (n : ℕ)
    → n < 2147483648
    → from_word (
        word_of
          (to_word (pos n) % 256)
          (to_word (pos n) / 256 % 256)
          (to_word (pos n) / 65536 % 256)
          (to_word (pos n) / 16777216 % 256))
      ≡ pos n
unfolding IsInt32
word-pos n h =
    ap from_word (word_of-word_bytes (to_word (pos n)) (to_word-lt (pos n)))
    ∙ from_word-to_word (pos n) h
