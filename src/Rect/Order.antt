-- ===== src/Rect/Order.antt =====
-- The points of rectangles, and the two ways to write a rectangle.
use cpp_essence.Prelude.{◌≡◌, ap₂, Bool, true, ◌&&◌, arith, ◌↔◌}
use cpp_essence.Numeric.Rational.{ℤ, ◌+ℤ◌}
use cpp_essence.Rect.{
  Rect, BottomRightRect, leb_ℤ, max_ℤ, min_ℤ, ◌-ℤ◌, right, bottom, to_bottom_right,
  from_bottom_right, intersect_with,
}

cancel : (a b : ℤ) → (a +ℤ b) -ℤ a ≡ b
unfolding ◌+ℤ◌ ◌-ℤ◌
cancel a b = ground arith

sum_restored : (a b : ℤ) → a +ℤ (b -ℤ a) ≡ b
unfolding ◌+ℤ◌ ◌-ℤ◌
sum_restored a b = ground arith

-- Every rectangle is the one of its edges, and all edges are those of a rectangle.
pub from_bottom_right-to_bottom_right :
    (r : Rect) (e : BottomRightRect)
    → (from_bottom_right (to_bottom_right r) ≡ r) × (to_bottom_right (from_bottom_right e) ≡ e)
unfolding from_bottom_right to_bottom_right right bottom
from_bottom_right-to_bottom_right r e = (
  ap₂ (λ w h. record { x = r.x; y = r.y; width = w; height = h }) (cancel r.x r.width)
      (cancel r.y r.height),
  ap₂ (λ a b. record { left = e.left; top = e.top; right_edge = a; bottom_edge = b })
      (sum_restored e.left e.right_edge) (sum_restored e.top e.bottom_edge),
)

-- A point between two numbers, both included.
abbrev pub within : ℤ → ℤ → ℤ → Bool
unfolding leb_ℤ
within start finish p = leb_ℤ start p && leb_ℤ p finish

-- A point of a rectangle, its edges included.
abbrev pub contains_point : Rect → ℤ → ℤ → Bool
contains_point r px py = within r.x (right r) px && within r.y (bottom r) py

-- The left end of what they have in common is in both.
max_within :
    (a b c d : ℤ)
    → leb_ℤ (max_ℤ a c) (min_ℤ b d) ≡ true
    → within a b (max_ℤ a c) && within c d (max_ℤ a c) ≡ true
unfolding leb_ℤ max_ℤ min_ℤ
max_within a b c d h = ground arith

common_within :
    (a b c d p : ℤ) → within a b p && within c d p ≡ true → leb_ℤ (max_ℤ a c) (min_ℤ b d) ≡ true
unfolding leb_ℤ max_ℤ min_ℤ
common_within a b c d p h = ground arith

-- Two rectangles intersect if and only if they have a point in common, their edges included.
pub intersect_with-common :
    (left other : Rect)
    → (intersect_with left other ≡ true)
      ↔ ((px py : ℤ) × (contains_point left px py && contains_point other px py ≡ true))
unfolding intersect_with
intersect_with-common left other = (
  (λ h. (
    max_ℤ left.x other.x,
    max_ℤ left.y other.y,
    ground (
      arith,
      max_within left.x (right left) other.x (right other),
      max_within left.y (bottom left) other.y (bottom other),
    ),
  )),
  (λ (px, py, h). ground (
    arith,
    common_within left.x (right left) other.x (right other) px,
    common_within left.y (bottom left) other.y (bottom other) py,
  )),
)
