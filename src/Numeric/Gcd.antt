-- ===== src/Numeric/Gcd.antt =====
-- `std::gcd` on magnitudes, by Euclid's algorithm. The fuel is one more than the second number, which
-- grows smaller in each round.
use native.Mathlib.Nat.{
  mod-lt, dvd_refl, dvd-zero, dvd-mod_iff, dvd_of_mul-dvd-mul_left, mul-div_cancel', mul-one,
  mul-dvd-mul_left, eq-one_of_dvd-one,
}
use Prim.Native.Nat.{◌∣◌}
use cpp_essence.Prelude.{ℕ, zero, suc, ◌*◌, ◌/◌, ◌%◌, ◌<◌, ◌≡◌, sym, arith, subst}

unfoldable pub gcd_rounds : ℕ → ℕ → ℕ → ℕ
gcd_rounds zero a b = a
gcd_rounds (suc fuel) a zero = a
gcd_rounds (suc fuel) a (suc b) = gcd_rounds fuel (suc b) (a % suc b)

unfoldable pub gcd : ℕ → ℕ → ℕ
unfolding gcd_rounds
gcd a b = gcd_rounds (suc b) a b

gcd_rounds-divides :
    (fuel a b : ℕ) → b < fuel → (gcd_rounds fuel a b ∣ a) × (gcd_rounds fuel a b ∣ b)
unfolding gcd_rounds
gcd_rounds-divides zero a b h = ground (arith, h)
gcd_rounds-divides (suc fuel) a zero h = (dvd_refl a, dvd-zero a)
gcd_rounds-divides (suc fuel) a (suc b) h =
    let (of_b, of_rest) =
      gcd_rounds-divides fuel (suc b) (a % suc b)
        (omega (arith, h, mod-lt a {m = suc b} (omega arith))) in
    ((dvd-mod_iff (gcd_rounds fuel (suc b) (a % suc b)) of_b).0 of_rest, of_b)

gcd_rounds-greatest : (fuel a b d : ℕ) → d ∣ a → d ∣ b → d ∣ gcd_rounds fuel a b
unfolding gcd_rounds
gcd_rounds-greatest zero a b d of_a of_b = of_a
gcd_rounds-greatest (suc fuel) a zero d of_a of_b = of_a
gcd_rounds-greatest (suc fuel) a (suc b) d of_a of_b =
    gcd_rounds-greatest fuel (suc b) (a % suc b) d of_b ((dvd-mod_iff d of_b).1 of_a)

pub gcd-divides : (a b : ℕ) → (gcd a b ∣ a) × (gcd a b ∣ b)
unfolding gcd
gcd-divides a b = gcd_rounds-divides (suc b) a b (omega arith)

pub gcd-greatest : (a b d : ℕ) → d ∣ a → d ∣ b → d ∣ gcd a b
unfolding gcd
gcd-greatest a b d of_a of_b = gcd_rounds-greatest (suc b) a b d of_a of_b

-- Of two numbers that are divided by their greatest common divisor nothing but one divides both.
pub lowest_terms : (a b d : ℕ) → 0 < gcd a b → d ∣ a / gcd a b → d ∣ b / gcd a b → d ≡ 1
lowest_terms a b d h of_a of_b =
    let g = gcd a b in
    let (div_a, div_b) = gcd-divides a b in
    eq-one_of_dvd-one (
      dvd_of_mul-dvd-mul_left d h (
        subst (λ (k : ℕ). g * d ∣ k) (sym (mul-one g))
          (gcd-greatest a b (g * d)
            (subst (λ (k : ℕ). g * d ∣ k) (mul-div_cancel' g div_a) (mul-dvd-mul_left d g of_a))
            (subst (λ (k : ℕ). g * d ∣ k) (mul-div_cancel' g div_b) (mul-dvd-mul_left d g of_b)))))
