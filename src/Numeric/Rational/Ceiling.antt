-- ===== src/Numeric/Rational/Ceiling.antt =====
-- The next integer above a rational number: right for numbers that are not negative, wrong below.
use native.Mathlib.Nat.{
  div-mul-le_self, lt-div-mul-add, div-eq-sub-div, div-add-mod', mod-lt, add-mul-div_right,
  div-eq_of_lt,
}
use cpp_essence.Prelude.{ℕ, suc, ◌+◌, ◌-◌, ◌*◌, ◌/◌, ◌%◌, ◌≤◌, ◌<◌, ◌≡◌, ap, ◌∙◌, true, some, arith}
use cpp_essence.Numeric.Rational.Terms.{nonzero, quotient, signed-false}
use cpp_essence.Numeric.Rational.{pos, negsuc, signed, ◌+ℤ◌, ceil}

dividend : (n d : ℕ) → 0 < d → pos n +ℤ pos d +ℤ negsuc 0 ≡ pos (n + d - 1)
unfolding ◌+ℤ◌
dividend n d h = ground arith

negative_dividend :
    (m d : ℕ) → 0 < d → d ≤ suc m → negsuc m +ℤ pos d +ℤ negsuc 0 ≡ negsuc (suc m - d)
unfolding ◌+ℤ◌
negative_dividend m d h small = ground arith

-- Without a multiple the quotient stays.
without_rest : (m d : ℕ) → 0 < d → 0 < (m + 2) % d → suc m / d ≡ (m + 2) / d
without_rest m d h rest =
    let q = (m + 2) / d in
    let r = (m + 2) % d in
    let e : suc m ≡ (r - 1) + q * d = omega (arith, div-add-mod' (m + 2) d, rest) in
    ap (λ (k : ℕ). k / d) e
    ∙ add-mul-div_right (r - 1) q h
    ∙ omega
        (arith, div-eq_of_lt {n = r - 1} {m = d} (omega (arith, mod-lt (m + 2) {m = d} h, rest)))

-- The ceiling of a number that is not negative is the least integer that is not below it.
pub ceil-least :
    (n d : ℕ)
    → 0 < d
    → (c : ℕ) × (ceil (record { numerator = pos n; denominator = pos d }) ≡ some (pos c))
      × (n ≤ c * d)
      × (c * d < n + d)
unfolding ceil
ceil-least n d h = (
  (n + d - 1) / d,
  rw (dividend n d h) (quotient (pos (n + d - 1)) d h ∙ ap some (signed-false ((n + d - 1) / d))),
  omega (arith, h, lt-div-mul-add {a = n + d - 1} {b = d} h),
  omega (arith, h, div-mul-le_self (n + d - 1) d),
)

-- The ceiling of a number from minus one down is one too large, unless the numerator is one above
-- a multiple of the denominator.
pub ceil-negative :
    (m d : ℕ)
    → 0 < d
    → d ≤ suc m
    → 0 < (m + 2) % d
    → ceil (record { numerator = negsuc m; denominator = pos d })
      ≡ some (signed true (suc m / d - 1))
unfolding ceil
ceil-negative m d h small rest = rw (negative_dividend m d h small) rw (nonzero d h) (
    ap (λ (k : ℕ). some (signed true k))
      (omega (
        arith,
        without_rest m d h rest,
        div-eq-sub-div {m = d} {n = m + 2} h (omega (arith, small)),
        fewer,
      )))
  where
    fewer : suc (suc m - d) / d ≡ (m + 2 - d) / d
    fewer = ap (λ (k : ℕ). k / d) (omega (arith, small))
