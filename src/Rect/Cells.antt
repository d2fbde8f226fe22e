-- ===== src/Rect/Cells.antt =====
-- The overlapped area is the number of unit cells that lie in both rectangles.
use native.Mathlib.Nat.{add-zero, suc-mul, mul-zero, zero-mul}
use cpp_essence.Numeric.Rational.Terms.{signed-false}
use cpp_essence.Prelude.{
  ℕ, zero, suc, ◌+◌, ◌-◌, ◌*◌, ◌≡◌, refl, sym, ap, ap₂, ◌∙◌, Bool, true, false, ◌&&◌, leb, ltb,
  arith, if◌then◌else◌, min, max,
}
use cpp_essence.Numeric.Rational.{ℤ, pos, negsuc, plus, minus, ◌+ℤ◌, ◌*ℤ◌}
use cpp_essence.Rect.{Rect, leb_ℤ, max_ℤ, min_ℤ, ◌-ℤ◌, right, bottom, overlap, calc_overlapped_area}

-- How many of the numbers below `n` pass a test.
abbrev pub count_below : ℕ → (ℕ → Bool) → ℕ
count_below zero test = 0
count_below (suc n) test = count_below n test + (if test n then 1 else 0)

-- How many cells of a grid pass a test.
abbrev pub count_cells : ℕ → ℕ → (ℕ → ℕ → Bool) → ℕ
count_cells zero h test = 0
count_cells (suc w) h test = count_cells w h test + count_below h (test w)

-- A unit interval, from `p` on, between two numbers.
abbrev pub covers : ℤ → ℤ → ℤ → Bool
unfolding leb_ℤ ◌+ℤ◌
covers start finish p = leb_ℤ start p && leb_ℤ (p +ℤ pos 1) finish

-- The cell with the corner at a point lies in a rectangle.
abbrev pub covers_cell : Rect → ℤ → ℤ → Bool
covers_cell r px py = covers r.x (right r) px && covers r.y (bottom r) py

-- The part of an interval of `n` cells.
count_below_window :
    (n k a b : ℕ) → count_below n (λ i. leb a (i + k) && ltb (i + k) b) ≡ min (n + k) b - max k a
count_below_window zero k a b = omega arith
count_below_window (suc n) k a b = ground (arith, count_below_window n k a b)

count_below_ext :
    (n : ℕ) (f g : ℕ → Bool) → ((i : ℕ) → f i ≡ g i) → count_below n f ≡ count_below n g
count_below_ext zero f g e = refl
count_below_ext (suc n) f g e =
    ap₂ (λ a (b : Bool). a + (if b then 1 else 0)) (count_below_ext n f g e) (e n)

-- Rows that pass or fail as a whole.
count_below_and :
    (n : ℕ) (b : Bool) (f : ℕ → Bool)
    → count_below n (λ i. b && f i) ≡ (if b then count_below n f else 0)
count_below_and zero b f = ground arith
count_below_and (suc n) b f = ground (arith, count_below_and n b f)

distribute : (a c : ℕ) (b : Bool) → a * c + (if b then c else 0) ≡ (a + (if b then 1 else 0)) * c
distribute a c true = omega (arith, suc-mul a c)
distribute a c false = rw (add-zero (a * c), add-zero a) refl

count_cells_product :
    (w h : ℕ) (f g : ℕ → Bool)
    → count_cells w h (λ i j. f i && g j) ≡ count_below w f * count_below h g
count_cells_product zero h f g = sym (zero-mul (count_below h g))
count_cells_product (suc w) h f g =
    ap₂ ◌+◌ (count_cells_product w h f g) (count_below_and h (f w) g)
    ∙ distribute (count_below w f) (count_below h g) (f w)

covers_window :
    (s c d : ℤ) (i : ℕ)
    → covers c d (s +ℤ pos i)
      ≡ leb (plus c + minus s + minus d) (i + (plus s + minus c + minus d))
        && ltb (i + (plus s + minus c + minus d)) (plus d + minus s + minus c)
unfolding leb_ℤ ◌+ℤ◌
covers_window s c d i = ground arith

overlap_window :
    (s c d : ℤ) (n : ℕ)
    → plus (overlap s (s +ℤ pos n) c d)
      ≡ min (n + (plus s + minus c + minus d)) (plus d + minus s + minus c)
        - max (plus s + minus c + minus d) (plus c + minus s + minus d)
unfolding overlap leb_ℤ ◌+ℤ◌ ◌-ℤ◌ max_ℤ min_ℤ
overlap_window s c d n = ground arith

count_overlap :
    (s c d : ℤ) (n : ℕ)
    → count_below n (λ i. covers c d (s +ℤ pos i)) ≡ plus (overlap s (s +ℤ pos n) c d)
count_overlap s c d n =
    count_below_ext n _ _ (covers_window s c d)
    ∙ count_below_window n (plus s + minus c + minus d) (plus c + minus s + minus d)
        (plus d + minus s + minus c)
    ∙ sym (overlap_window s c d n)

leb_zero : (a : ℕ) → leb_ℤ (pos zero) (pos a) ≡ true
unfolding leb_ℤ
leb_zero a = ground arith

leb_negative : (a : ℕ) → leb_ℤ (pos zero) (negsuc a) ≡ false
unfolding leb_ℤ
leb_negative a = ground arith

product_of_sides :
    (dx dy : ℤ)
    → (if leb_ℤ (pos zero) dx && leb_ℤ (pos zero) dy then dx *ℤ dy else pos zero)
      ≡ pos (plus dx * plus dy)
unfolding ◌*ℤ◌
product_of_sides (pos a) (pos b) = rw (leb_zero a, leb_zero b) (signed-false (a * b))
product_of_sides (pos a) (negsuc b) = rw (leb_zero a, leb_negative b) (ap pos (sym (mul-zero a)))
product_of_sides (negsuc a) (pos b) = rw (leb_negative a) (ap pos (sym (zero-mul b)))
product_of_sides (negsuc a) (negsuc b) = rw (leb_negative a) refl

-- The overlapped area of a rectangle of sizes from zero up with any other is the number of its unit
-- cells that lie in the other one.
pub calc_overlapped_area-cells :
    (x y : ℤ) (w h : ℕ) (other : Rect)
    → calc_overlapped_area (record { x = x; y = y; width = pos w; height = pos h }) other
      ≡ pos (count_cells w h (λ i j. covers_cell other (x +ℤ pos i) (y +ℤ pos j)))
unfolding calc_overlapped_area right bottom
calc_overlapped_area-cells x y w h other =
    product_of_sides (overlap x (x +ℤ pos w) other.x (right other))
      (overlap y (y +ℤ pos h) other.y (bottom other))
    ∙ ap pos (
        sym (
          count_cells_product w h (λ i. covers other.x (right other) (x +ℤ pos i))
            (λ j. covers other.y (bottom other) (y +ℤ pos j))
          ∙ ap₂ ◌*◌ (count_overlap x other.x (right other) w)
              (count_overlap y other.y (bottom other) h)))
