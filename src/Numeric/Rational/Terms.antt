-- ===== src/Numeric/Rational/Terms.antt =====
-- A rational number is brought to lowest terms with a positive denominator.
use native.Mathlib.Nat.{div-mul_cancel, mul-div_cancel', pos_of_dvd_of_pos, mul_assoc, zero-mul}
use Prim.Native.Nat.{◌∣◌}
use cpp_essence.Prelude.{
  ℕ, zero, suc, ◌*◌, ◌/◌, ◌<◌, ◌≡◌, refl, sym, ap, ap₂, ◌∙◌, Bool, true, false, some, ◌==◌, arith,
}
use cpp_essence.Numeric.Gcd.{gcd, gcd-divides, lowest_terms}
use cpp_essence.Numeric.Rational.{
  ℤ, pos, negsuc, negative, magnitude, signed, differ, ◌*ℤ◌, ◌/ℤ◌, Rational, with_positive,
  quotients, simplify,
}

magnitude-signed : (b : Bool) (n : ℕ) → magnitude (signed b n) ≡ n
magnitude-signed b zero = refl
magnitude-signed false (suc n) = refl
magnitude-signed true (suc n) = refl

pub signed-false : (k : ℕ) → signed false k ≡ pos k
signed-false zero = refl
signed-false (suc k) = refl

cross : (n d g : ℕ) → g ∣ n → g ∣ d → n * (d / g) ≡ n / g * d
cross n d g of_n of_d =
    ap (λ (k : ℕ). k * (d / g)) (sym (div-mul_cancel g of_n))
    ∙ mul_assoc (n / g) g (d / g)
    ∙ ap (λ (k : ℕ). n / g * k) (mul-div_cancel' g of_d)

pub nonzero : (g : ℕ) → 0 < g → (g == 0) ≡ false
nonzero g h = ground (arith, h)

positive_factor : (x g d : ℕ) → x * g ≡ d → 0 < d → 0 < x
positive_factor zero g d e h = omega (arith, sym (zero-mul g) ∙ e, h)
positive_factor (suc x) g d e h = omega arith

pub quotient : (m : ℤ) (g : ℕ) → 0 < g → m /ℤ pos g ≡ some (signed (negative m) (magnitude m / g))
unfolding ◌/ℤ◌
quotient (pos n) g h = rw (nonzero g h) refl
quotient (negsuc n) g h = rw (nonzero g h) refl

with_positive-signed :
    (b e : Bool) (x y : ℕ)
    → 0 < y
    → with_positive (signed b x) (signed e y)
      ≡ record { numerator = signed (differ b e) x; denominator = pos y }
unfolding with_positive
with_positive-signed b e x zero h = ground (arith, h)
with_positive-signed true true zero (suc y) h = refl
with_positive-signed true true (suc x) (suc y) h = refl
with_positive-signed true false zero (suc y) h = refl
with_positive-signed true false (suc x) (suc y) h = refl
with_positive-signed false true zero (suc y) h = refl
with_positive-signed false true (suc x) (suc y) h = refl
with_positive-signed false false zero (suc y) h = refl
with_positive-signed false false (suc x) (suc y) h = refl

sign_of_product :
    (b e : Bool) (x y : ℕ)
    → signed (differ (negative (signed (differ b e) x)) e) (magnitude (signed (differ b e) x) * y)
      ≡ signed b (x * y)
sign_of_product true true zero y = rw (zero-mul y) refl
sign_of_product true false zero y = rw (zero-mul y) refl
sign_of_product false true zero y = rw (zero-mul y) refl
sign_of_product false false zero y = rw (zero-mul y) refl
sign_of_product true true (suc x) y = refl
sign_of_product true false (suc x) y = refl
sign_of_product false true (suc x) y = refl
sign_of_product false false (suc x) y = refl

same_value :
    (r : Rational) (g : ℕ)
    → g ∣ magnitude r.numerator
    → g ∣ magnitude r.denominator
    → r.numerator *ℤ pos (magnitude r.denominator / g)
      ≡ signed (differ (negative r.numerator) (negative r.denominator)) (magnitude r.numerator / g)
        *ℤ r.denominator
unfolding ◌*ℤ◌
same_value r g of_n of_d =
    let n = magnitude r.numerator in
    let d = magnitude r.denominator in
    ap₂ signed (differ_false (negative r.numerator)) (cross n d g of_n of_d)
    ∙ sym (sign_of_product (negative r.numerator) (negative r.denominator) (n / g) d)
  where
    differ_false : (b : Bool) → differ b false ≡ b
    differ_false true = refl
    differ_false false = refl

-- If the denominator is not zero, `simplify` gives a fraction of the same value with a positive
-- denominator, in lowest terms.
pub simplify-lowest :
    (r : Rational)
    → 0 < magnitude r.denominator
    → (s : Rational) × (simplify r ≡ some s)
      × (negative s.denominator ≡ false)
      × (0 < magnitude s.denominator)
      × (r.numerator *ℤ s.denominator ≡ s.numerator *ℤ r.denominator)
      × (gcd (magnitude s.numerator) (magnitude s.denominator) ≡ 1)
unfolding simplify quotients
simplify-lowest r h =
    let n = magnitude r.numerator in
    let d = magnitude r.denominator in
    let g = gcd n d in
    let (of_n, of_d) = gcd-divides n d in
    let g_pos : 0 < g = pos_of_dvd_of_pos of_d h in
    let q_pos : 0 < d / g = positive_factor (d / g) g d (div-mul_cancel g of_d) h in
    let b = differ (negative r.numerator) (negative r.denominator) in
    (
      record { numerator = signed b (n / g); denominator = pos (d / g) },
      rw (quotient r.numerator g g_pos, quotient r.denominator g g_pos)
          (ap some (
            with_positive-signed (negative r.numerator) (negative r.denominator) (n / g) (d / g)
              q_pos)),
      refl,
      q_pos,
      same_value r g of_n of_d,
      rw (magnitude-signed b (n / g)) (
          let (of_a, of_b) = gcd-divides (n / g) (d / g) in
          lowest_terms n d (gcd (n / g) (d / g)) g_pos of_a of_b),
    )

-- A fraction of two numbers keeps its signs.
pub simplify-pos :
    (n d : ℕ)
    → 0 < d
    → (simplify (record { numerator = pos n; denominator = pos d })
        ≡ some (record { numerator = pos (n / gcd n d); denominator = pos (d / gcd n d) }))
      × (0 < d / gcd n d)
      × (n / gcd n d * d ≡ n * (d / gcd n d))
unfolding simplify quotients with_positive
simplify-pos n d h =
    let g = gcd n d in
    let (of_n, of_d) = gcd-divides n d in
    let g_pos : 0 < g = pos_of_dvd_of_pos of_d h in
    let q_pos : 0 < d / g = positive_factor (d / g) g d (div-mul_cancel g of_d) h in
    (
      rw
          (
            quotient (pos n) g g_pos,
            quotient (pos d) g g_pos,
            signed-false (n / g),
            signed-false (d / g),
          )
          refl,
      q_pos,
      sym (cross n d g of_n of_d),
    )
