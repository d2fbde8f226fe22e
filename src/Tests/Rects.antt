-- ===== src/Tests/Rects.antt =====
-- Two rectangles that overlap in six cells.
use cpp_essence.Prelude.{◌≡◌, refl}
use cpp_essence.Numeric.Rational.{pos, negsuc, ◌+ℤ◌, ◌*ℤ◌}
use cpp_essence.Rect.{
  Rect, BottomRightRect, right, bottom, leb_ℤ, overlap, calc_overlapped_area, max_ℤ, min_ℤ, ◌-ℤ◌,
}
use cpp_essence.Rect.Cells.{count_cells, covers_cell, calc_overlapped_area-cells}

abbrev first : Rect
first = record { x = negsuc 1; y = pos 0; width = pos 5; height = pos 4 }

abbrev second : Rect
second = record { x = pos 1; y = pos 1; width = pos 9; height = pos 9 }

abbrev edges : BottomRightRect
edges = record { left = pos 1; top = pos 2; right_edge = pos 3; bottom_edge = negsuc 3 }

overlap_is_six : calc_overlapped_area first second ≡ pos 6
unfolding calc_overlapped_area right bottom overlap leb_ℤ ◌+ℤ◌ ◌*ℤ◌ max_ℤ min_ℤ ◌-ℤ◌
overlap_is_six = refl

calc_overlapped_area-cells_example :
    calc_overlapped_area first second
    ≡ pos (count_cells 5 4 (λ i j. covers_cell second (negsuc 1 +ℤ pos i) (pos 0 +ℤ pos j)))
calc_overlapped_area-cells_example = calc_overlapped_area-cells (negsuc 1) (pos 0) 5 4 second
