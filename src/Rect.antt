-- ===== src/Rect.antt =====
-- include/essence/rect.hpp for integers, without the bounds of a machine's numbers: that a sum leaves
-- the range of a signed type is undefined in the source.
pub mod Order
pub mod Cells
use cpp_essence.Prelude.{ℕ, zero, suc, ◌+◌, Bool, true, false, ◌&&◌, ◌||◌, leb, if◌then◌else◌}
use cpp_essence.Numeric.Rational.{ℤ, pos, negsuc, plus, minus, sub_ℕ, ◌+ℤ◌, ◌*ℤ◌}

unfoldable pub leb_ℤ : ℤ → ℤ → Bool
leb_ℤ a b = leb (plus a + minus b) (plus b + minus a)

-- std::max and std::min.
unfoldable pub max_ℤ : ℤ → ℤ → ℤ
unfolding leb_ℤ
max_ℤ a b = if leb_ℤ b a then a else b

unfoldable pub min_ℤ : ℤ → ℤ → ℤ
unfolding leb_ℤ
min_ℤ a b = if leb_ℤ a b then a else b

infixl 65 ◌-ℤ◌
unfoldable pub ◌-ℤ◌ : ℤ → ℤ → ℤ
a -ℤ b = sub_ℕ (plus a + minus b) (minus a + plus b)

pub record Rect : Type 0 where
  pub x : ℤ
  pub y : ℤ
  pub width : ℤ
  pub height : ℤ

unfoldable pub right : Rect → ℤ
unfolding ◌+ℤ◌
right r = r.x +ℤ r.width

unfoldable pub bottom : Rect → ℤ
unfolding ◌+ℤ◌
bottom r = r.y +ℤ r.height

unfoldable pub area : Rect → ℤ
unfolding ◌*ℤ◌
area r = r.width *ℤ r.height

-- A rectangle by its edges.
pub record BottomRightRect : Type 0 where
  pub left : ℤ
  pub top : ℤ
  pub right_edge : ℤ
  pub bottom_edge : ℤ

unfoldable pub to_bottom_right : Rect → BottomRightRect
unfolding right bottom
to_bottom_right r = record { left = r.x; top = r.y; right_edge = right r; bottom_edge = bottom r }

unfoldable pub from_bottom_right : BottomRightRect → Rect
unfolding ◌-ℤ◌
from_bottom_right e = record {
  x = e.left;
  y = e.top;
  width = e.right_edge -ℤ e.left;
  height = e.bottom_edge -ℤ e.top;
}

-- The epsilon of an integer type is zero.
unfoldable pub collapsed : Rect → Bool
unfolding leb_ℤ
collapsed r = leb_ℤ r.width (pos zero) || leb_ℤ r.height (pos zero)

unfoldable pub intersect_with : Rect → Rect → Bool
unfolding leb_ℤ max_ℤ min_ℤ right bottom
intersect_with left other =
    leb_ℤ (max_ℤ left.x other.x) (min_ℤ (right left) (right other))
    && leb_ℤ (max_ℤ left.y other.y) (min_ℤ (bottom left) (bottom other))

-- What two intervals have in common.
unfoldable pub overlap : ℤ → ℤ → ℤ → ℤ → ℤ
unfolding ◌-ℤ◌ max_ℤ min_ℤ
overlap start finish other_start other_finish = min_ℤ finish other_finish -ℤ max_ℤ start other_start

unfoldable pub calc_overlapped_area : Rect → Rect → ℤ
unfolding leb_ℤ overlap right bottom ◌*ℤ◌
calc_overlapped_area left other =
    let dx = overlap left.x (right left) other.x (right other) in
    let dy = overlap left.y (bottom left) other.y (bottom other) in
    if leb_ℤ (pos zero) dx && leb_ℤ (pos zero) dy then dx *ℤ dy else pos zero
