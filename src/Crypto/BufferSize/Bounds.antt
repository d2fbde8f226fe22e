-- ===== src/Crypto/BufferSize/Bounds.antt =====
-- The buffer for a processor's output holds what the processor makes of its input's buffer.
use native.Mathlib.Nat.{eq_of_mul-eq-mul_right, lt_of_mul-lt-mul_right}
use cpp_essence.Prelude.{ℕ, zero, suc, ◌*◌, ◌/◌, ◌<◌, ◌≡◌, refl, ap, Option, none, some, arith}
use cpp_essence.Numeric.Gcd.{gcd}
use cpp_essence.Numeric.Rational.{pos, Rational, make_rational, multiply, simplify_again, ◌*ℤ◌}
use cpp_essence.Numeric.Rational.Ceiling.{ceil-least}
use cpp_essence.Numeric.Rational.Terms.{simplify-pos, signed-false}
use cpp_essence.Numeric.PowerOfTwo.{ceil_power_of_two}
use cpp_essence.Crypto.BufferSize.{
  to_size_t, scaled, rounded, power, extended, calculate_output_buffer_size,
}

-- A fraction of numbers that is equal to another one.
record Reduced (n d : ℕ) (o : Option Rational) : Type 0 where
  top : ℕ
  bottom : ℕ
  result : o ≡ some (record { numerator = pos top; denominator = pos bottom })
  bottom_pos : 0 < bottom
  same : top * d ≡ n * bottom

product_pos : (x y : ℕ) → 0 < x → 0 < y → 0 < x * y
product_pos (suc x) (suc y) h k = omega arith
product_pos zero y h k = ground (arith, h)
product_pos (suc x) zero h k = ground (arith, k)

-- A product with a factor of numbers, simplified.
scaled-Reduced :
    (n a b : ℕ)
    → 0 < b
    → Reduced
        (n * a)
        b
        (scaled (record { numerator = pos a; denominator = pos b }) (make_rational (pos n) (pos 1)))
unfolding scaled make_rational multiply simplify_again ◌*ℤ◌
scaled-Reduced n a b h =
    let n1 = n / gcd n 1 in
    let d1 = 1 / gcd n 1 in
    let (made, d1_pos, same1) = simplify-pos n 1 (omega arith) in
    let d_pos : 0 < d1 * b = product_pos d1 b d1_pos h in
    let n2 = n1 * a / gcd (n1 * a) (d1 * b) in
    let d2 = d1 * b / gcd (n1 * a) (d1 * b) in
    let (once, d2_pos, same2) = simplify-pos (n1 * a) (d1 * b) d_pos in
    let (twice, d3_pos, same3) = simplify-pos n2 d2 d2_pos in
    let n3 = n2 / gcd n2 d2 in
    let d3 = d2 / gcd n2 d2 in
    record {
      top = n3;
      bottom = d3;
      result = rw (made, signed-false (n1 * a), signed-false (d1 * b), once, twice) refl;
      bottom_pos = d3_pos;
      same =
          eq_of_mul-eq-mul_right (d1 * d2) (product_pos d1 d2 d1_pos d2_pos) (n3 * b) (n * a * d3) (
            omega (
              arith,
              ap (λ (t : ℕ). t * (d1 * b)) same3,
              ap (λ (t : ℕ). t * d3) same2,
              ap (λ (t : ℕ). t * (a * d2 * d3)) same1,
            ));
    }

-- A chain has the factor zero: the number whose power of two is to be found is zero, and the shift
-- is by 64 bits.
pub calculate_output_buffer_size-zero :
    (n extra : ℕ)
    → calculate_output_buffer_size n (record { numerator = pos 0; denominator = pos 1 }) extra
      ≡ none
unfolding calculate_output_buffer_size rounded power extended to_size_t ceil_power_of_two
calculate_output_buffer_size-zero n extra =
    let r = scaled-Reduced n 0 1 (omega arith) in
    let (c, ceiling, above, below) = ceil-least r.top r.bottom r.bottom_pos in
    let nothing : r.top ≡ 0 = omega (arith, r.same) in
    let c_few : c < 1 =
      lt_of_mul-lt-mul_right r.bottom {m = c} {n = 1} (omega (arith, below, nothing)) in
    let c_zero : c ≡ 0 = omega (arith, c_few) in rw (r.result, ceiling, c_zero) refl
