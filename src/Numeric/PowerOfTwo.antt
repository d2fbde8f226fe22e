-- ===== src/Numeric/PowerOfTwo.antt =====
-- `ceil_power_of_two` of include/essence/math.hpp for 64 bits, where `__builtin_clzll` counts the
-- leading zeros. There is no result where the source shifts by 64 bits, which is undefined.
use native.Mathlib.Nat.{two-pow-succ, pow-le-pow_right}
use cpp_essence.Prelude.{
  ℕ, zero, suc, ◌+◌, ◌-◌, ◌*◌, ◌/◌, ◌%◌, ◌^◌, ◌≤◌, ◌<◌, ◌≡◌, refl, true, false, Option, none, some,
  ltb, ltb→lt, lt→ltb, ◌==◌, if◌then◌else◌, arith, Bool-cases, inl, inr,
}

-- 64 less the leading zeros, for a number of at most so many bits.
unfoldable pub bit_width : ℕ → ℕ → ℕ
bit_width zero x = 0
bit_width (suc bits) x = let rest = bit_width bits (x / 2) in if x == 0 then 0 else suc rest

unfoldable pub shift_left : ℕ → Option ℕ
shift_left s = if ltb s 64 then some (2 ^ s) else none

unfoldable pub ceil_power_of_two : ℕ → Option ℕ
unfolding bit_width shift_left
ceil_power_of_two number =
    if number == 1 then some 1 else shift_left (bit_width 64 ((number + (2 ^ 64 - 1)) % 2 ^ 64))

bit_width_bounds :
    (bits x : ℕ) → x < 2 ^ bits → (x < 2 ^ bit_width bits x) × (bit_width bits x ≤ bits)
unfolding bit_width
bit_width_bounds zero x h = (omega (arith, h), omega arith)
bit_width_bounds (suc bits) x h =
    let k = bit_width bits (x / 2) in
    let (below, few) = bit_width_bounds bits (x / 2) (omega (arith, h, two-pow-succ bits)) in
    elim (Bool-cases (x == 0)) [
      | inl e ↦ rw e (ground (arith, e), omega arith)
      | inr e ↦ rw e (omega (arith, below, two-pow-succ k), omega (arith, few))
    ]

half_zero : (bits x : ℕ) → (x == 0) ≡ true → bit_width bits x ≡ 0
unfolding bit_width
half_zero zero x e = refl
half_zero (suc bits) x e = rw e refl

nonzero : (x : ℕ) → (x == 0) ≡ false → 0 < x
nonzero x e = ground (arith, e)

bit_width-least : (bits x : ℕ) → x < 2 ^ bits → 0 < x → 2 ^ bit_width bits x ≤ 2 * x
unfolding bit_width
bit_width-least zero x h k = omega (arith, h, k)
bit_width-least (suc bits) x h k =
    let small : x / 2 < 2 ^ bits = omega (arith, h, two-pow-succ bits) in
    elim (Bool-cases (x == 0)) [
      | inl e ↦ ground (arith, e, k)
      | inr e ↦ rw e (elim (Bool-cases (x / 2 == 0)) [
        | inl f ↦ rw (half_zero bits (x / 2) f) (omega (arith, k))
        | inr f ↦ omega (
          arith,
          two-pow-succ (bit_width bits (x / 2)),
          bit_width-least bits (x / 2) small (nonzero (x / 2) f),
        )
      ])
    ]

bit_width_small : (y : ℕ) → 0 < y → y < 2 ^ 63 → bit_width 64 y < 64
bit_width_small y h small = elim (Bool-cases (ltb (bit_width 64 y) 64)) [
  | inl e ↦ ltb→lt (bit_width 64 y) 64 e
  | inr e ↦ omega (
    arith,
    bit_width-least 64 y (omega (arith, small)) h,
    small,
    pow-le-pow_right {n = 2} (omega arith) {i = 64} {j = bit_width 64 y} (ground (arith, e)),
  )
]

ceil_power_of_two_above :
    (y : ℕ) → 0 < y → y < 2 ^ 63 → ceil_power_of_two (suc y) ≡ some (2 ^ bit_width 64 y)
unfolding ceil_power_of_two shift_left
ceil_power_of_two_above y h small =
    rw (not_one y h, wrapped y small, lt→ltb (bit_width 64 y) 64 (bit_width_small y h small)) refl
  where
    not_one : (y : ℕ) → 0 < y → (suc y == 1) ≡ false
    not_one y h = ground (arith, h)

    wrapped : (y : ℕ) → y < 2 ^ 63 → (suc y + (2 ^ 64 - 1)) % 2 ^ 64 ≡ y
    wrapped y small = omega (arith, small)

-- The result is a power of two that is not below the number, and below its double.
pub ceil_power_of_two-bounds :
    (number : ℕ)
    → 0 < number
    → number ≤ 2 ^ 63
    → (s : ℕ) × (ceil_power_of_two number ≡ some (2 ^ s)) × (number ≤ 2 ^ s) × (2 ^ s < 2 * number)
unfolding ceil_power_of_two
ceil_power_of_two-bounds zero h small = ground (arith, h)
ceil_power_of_two-bounds (suc zero) h small = (0, refl, omega arith, omega arith)
ceil_power_of_two-bounds (suc (suc k)) h small =
    let y = suc k in
    (
      bit_width 64 y,
      ceil_power_of_two_above y (omega arith) (omega (arith, small)),
      omega (arith, bit_width_bounds 64 y (omega (arith, small))),
      omega (arith, bit_width-least 64 y (omega (arith, small)) (omega arith)),
    )
