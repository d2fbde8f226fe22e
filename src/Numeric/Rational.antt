-- ===== src/Numeric/Rational.antt =====
-- `rational` of include/essence/rational.hpp. An `std::int64_t` is an integer here: that its range is
-- left, which is undefined in the source, is not modelled.
pub mod Terms
pub mod Ceiling
use cpp_essence.Prelude.{
  ℕ, suc, zero, ◌+◌, ◌-◌, ◌*◌, ◌/◌, Bool, true, false, not, ◌&&◌, ltb, leb, Option, none, some,
  ◌==◌, if◌then◌else◌,
}
use cpp_essence.Numeric.Gcd.{gcd}

-- `negsuc n` is -(n + 1).
pub data ℤ : Type 0 where
  pos : ℕ → ℤ
  negsuc : ℕ → ℤ

abbrev pub negative : ℤ → Bool
negative (pos n) = false
negative (negsuc n) = true

abbrev pub magnitude : ℤ → ℕ
magnitude (pos n) = n
magnitude (negsuc n) = suc n

-- The integer of a magnitude, negated or not.
abbrev pub signed : Bool → ℕ → ℤ
signed b zero = pos zero
signed false (suc n) = pos (suc n)
signed true (suc n) = negsuc n

abbrev pub differ : Bool → Bool → Bool
differ true b = not b
differ false b = b

-- a - b, as an integer.
abbrev pub sub_ℕ : ℕ → ℕ → ℤ
sub_ℕ a b = if leb b a then pos (a - b) else negsuc (b - a - 1)

abbrev pub plus : ℤ → ℕ
plus (pos n) = n
plus (negsuc n) = 0

abbrev pub minus : ℤ → ℕ
minus (pos n) = 0
minus (negsuc n) = suc n

infixl 65 ◌+ℤ◌
infixl 70 ◌*ℤ◌ ◌/ℤ◌
unfoldable pub ◌+ℤ◌ : ℤ → ℤ → ℤ
a +ℤ b = sub_ℕ (plus a + plus b) (minus a + minus b)

unfoldable pub ◌*ℤ◌ : ℤ → ℤ → ℤ
a *ℤ b = signed (differ (negative a) (negative b)) (magnitude a * magnitude b)

-- Division of the language, which cuts the fraction off; by zero it is undefined.
unfoldable pub ◌/ℤ◌ : ℤ → ℤ → Option ℤ
a /ℤ b =
    if magnitude b == 0
    then none
    else some (signed (differ (negative a) (negative b)) (magnitude a / magnitude b))

pub record Rational : Type 0 where
  pub numerator : ℤ
  pub denominator : ℤ

unfoldable pub with_positive : ℤ → ℤ → Rational
with_positive n d =
    if negative d
    then record {
      numerator = signed (not (negative n)) (magnitude n);
      denominator = pos (magnitude d);
    }
    else record { numerator = n; denominator = d }

unfoldable pub quotients : Option ℤ → Option ℤ → Option Rational
unfolding with_positive
quotients (some n) (some d) = some (with_positive n d)
quotients none d = none
quotients (some n) none = none

-- There is no result where the source divides by zero.
unfoldable pub simplify : Rational → Option Rational
unfolding quotients ◌/ℤ◌
simplify r =
    let g = pos (gcd (magnitude r.numerator) (magnitude r.denominator)) in
    quotients (r.numerator /ℤ g) (r.denominator /ℤ g)

unfoldable pub make_rational : ℤ → ℤ → Option Rational
unfolding simplify
make_rational n d = simplify (record { numerator = n; denominator = d })

unfoldable pub reciprocal : Rational → Option Rational
unfolding make_rational
reciprocal r = make_rational r.denominator r.numerator

-- The product of the constructor's result, which is simplified once more.
unfoldable pub simplify_again : Option Rational → Option Rational
unfolding simplify
simplify_again none = none
simplify_again (some r) = simplify r

unfoldable pub multiply : Rational → Rational → Option Rational
unfolding make_rational simplify_again ◌*ℤ◌
multiply left right =
    simplify_again
      (make_rational (left.numerator *ℤ right.numerator) (left.denominator *ℤ right.denominator))

unfoldable pub is_equal : Rational → Rational → Bool
unfolding ◌*ℤ◌
is_equal left right =
    let a = left.numerator *ℤ right.denominator in
    let b = right.numerator *ℤ left.denominator in
    not (differ (negative a) (negative b)) && magnitude a == magnitude b

unfoldable pub ceil : Rational → Option ℤ
unfolding ◌+ℤ◌ ◌/ℤ◌
ceil r = (r.numerator +ℤ r.denominator +ℤ negsuc 0) /ℤ r.denominator
