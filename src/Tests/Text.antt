-- ===== src/Tests/Text.antt =====
-- Texts and numbers.
use cpp_essence.Prelude.{◌≡◌, refl, ◌++◌, some, arith, Bytes, codes}
use cpp_essence.Numeric.{from_string, to_string}
use cpp_essence.Numeric.RoundTrip.{from_string-to_string}
use cpp_essence.Text.{trim, ascii_blank_chars, lower_string, upper_string}
use cpp_essence.Text.Case.{lower-upper}

abbrev padded : Bytes
padded = codes "  a b\t"

trim-padded : trim padded ascii_blank_chars ≡ codes "a b"
unfolding trim
trim-padded = refl

lower-upper_example : lower_string (upper_string (codes "Ab[")) ≡ lower_string (codes "Ab[")
lower-upper_example = lower-upper (codes "Ab[")

from_string-to_string_example : from_string 255 16 (to_string 16 200 ++ codes ".x") ≡ some 200
from_string-to_string_example =
    from_string-to_string 16 (omega arith) (omega arith) 255 200 (codes ".x") (omega arith)
      (omega arith) (unfold cpp_essence.Numeric.digit_of in refl)
