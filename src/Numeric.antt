-- ===== src/Numeric.antt =====
-- include/essence/numeric_conversion.hpp: integers to text and back, over the two functions of
-- <charconv> that it calls, for an unsigned type whose greatest value is `top`.
pub mod RoundTrip
pub mod Gcd
pub mod Rational
pub mod PowerOfTwo
use cpp_essence.Prelude.{
  ℕ, zero, suc, ◌+◌, ◌-◌, ◌*◌, ◌/◌, ◌%◌, Bool, ◌&&◌, true, false, List, [], ◌∷◌, ◌++◌, Option, none,
  some, leb, ltb, if◌then◌else◌, length, Bytes,
}

-- The value of a digit character, and `none` if it is none in this base.
unfoldable pub digit_of : ℕ → ℕ → Option ℕ
digit_of base c =
    let v =
      if leb b'0' c && leb c b'9'
      then c - b'0'
      else if leb b'a' c && leb c b'z'
      then c - b'a' + 10
      else if leb b'A' c && leb c b'Z'
      then c - b'A' + 10
      else base in
    if ltb v base then some v else none

unfoldable pub digit_char : ℕ → ℕ
digit_char v = if ltb v 10 then v + b'0' else v - 10 + b'a'

-- The number that the leading digits stand for, with `acc` in front.
unfoldable pub read_digits : ℕ → ℕ → Bytes → ℕ
read_digits base acc [] = acc
read_digits base acc (c ∷ s) = elim (digit_of base c) [
  | none ↦ acc
  | some d ↦ read_digits base (acc * base + d) s
]

pub data Errc : Type 0 where
  invalid_argument result_out_of_range : Errc

pub data FromChars : Type 0 where
  parsed : ℕ → FromChars
  failed : Errc → FromChars

-- `std::from_chars`: the longest run of digits, what follows it is left alone.
unfoldable pub from_chars : ℕ → ℕ → Bytes → FromChars
unfolding digit_of read_digits
from_chars top base [] = failed invalid_argument
from_chars top base (c ∷ s) = elim (digit_of base c) [
  | none ↦ failed invalid_argument
  | some d ↦
      let v = read_digits base d s in if leb v top then parsed v else failed result_out_of_range
]

-- `essence::from_string`.
unfoldable pub from_string : ℕ → ℕ → Bytes → Option ℕ
unfolding from_chars
from_string top base [] = none
from_string top base (c ∷ s) = elim (from_chars top base (c ∷ s)) [
  | parsed v ↦ some v
  | failed e ↦ none
]

-- The digits of `n`; the fuel bounds their number.
unfoldable pub write_digits : ℕ → ℕ → ℕ → Bytes
write_digits zero base n = []
write_digits (suc fuel) base n =
    let front = write_digits fuel base (n / base) in
    if ltb n base then digit_char n ∷ [] else front ++ (digit_char (n % base) ∷ [])

-- `std::to_chars` into a buffer of `room` bytes; `none` is `value_too_large`.
unfoldable pub to_chars : ℕ → ℕ → ℕ → Option Bytes
to_chars room base n =
    let text = write_digits (suc n) base n in if leb (length text) room then some text else none

-- `essence::to_string`: the buffer has 64 bytes, and an error gives the empty text.
unfoldable pub to_string : ℕ → ℕ → Bytes
unfolding to_chars
to_string base n = elim (to_chars 64 base n) [ some text ↦ text | none ↦ [] ]
