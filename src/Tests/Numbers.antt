-- ===== src/Tests/Numbers.antt =====
-- Rational numbers and a grid of cells.
use cpp_essence.Prelude.{ℕ, ◌<◌, ◌≡◌, refl, false, some, List, [], ◌∷◌, length, replicate, arith}
use cpp_essence.Numeric.Gcd.{gcd}
use cpp_essence.Numeric.Rational.{
  pos, negsuc, negative, magnitude, ◌*ℤ◌, ◌/ℤ◌, Rational, with_positive, quotients, simplify,
  make_rational, simplify_again, multiply,
}
use cpp_essence.Numeric.Rational.Terms.{simplify-lowest}
use cpp_essence.Memory.NonuniformGrid.{row_cell_count, extent, get_component, set_component}
use cpp_essence.Memory.NonuniformGrid.Components.{is_same, get_component-set_component}

abbrev half_negative : Rational
half_negative = record { numerator = pos 4; denominator = negsuc 7 }

multiplied :
    multiply
      (record { numerator = pos 4096; denominator = pos 1 })
      (record { numerator = pos 4; denominator = pos 3 })
    ≡ some (record { numerator = pos 16384; denominator = pos 3 })
unfolding multiply make_rational simplify_again simplify quotients with_positive ◌*ℤ◌ ◌/ℤ◌ gcd
multiplied = refl

simplify-lowest_example :
    (s : Rational) × (simplify half_negative ≡ some s)
    × (negative s.denominator ≡ false)
    × (0 < magnitude s.denominator)
    × (pos 4 *ℤ s.denominator ≡ s.numerator *ℤ negsuc 7)
    × (gcd (magnitude s.numerator) (magnitude s.denominator) ≡ 1)
simplify-lowest_example = simplify-lowest half_negative (omega arith)

abbrev cells : List ℕ
cells = 7 ∷ 8 ∷ 9 ∷ []

abbrev grid : List ℕ
grid = replicate 10 0

get_component-set_component_example :
    (get_component (2 ∷ 3 ∷ []) 1 0 (set_component (2 ∷ 3 ∷ []) 0 1 cells grid) ≡ 0 ∷ 0 ∷ [])
    × (length (set_component (2 ∷ 3 ∷ []) 0 1 cells grid) ≡ 10)
unfolding row_cell_count is_same get_component extent
get_component-set_component_example =
    get_component-set_component (2 ∷ 3 ∷ []) 2 0 1 1 0 cells grid refl (omega arith) (omega arith)
      refl
