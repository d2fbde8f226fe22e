-- ===== src/Crypto/BufferSize.antt =====
-- `calculate_output_buffer_size` of src/crypto/inout_buffer_pair.cpp, over the rational numbers and
-- the powers of two. There is no result where the source has an undefined one.
pub mod Bounds
use cpp_essence.Prelude.{ℕ, ◌+◌, ◌-◌, ◌%◌, ◌^◌, Option, none, some, map}
use cpp_essence.Numeric.Rational.{ℤ, pos, negsuc, Rational, make_rational, multiply, ceil}
use cpp_essence.Numeric.PowerOfTwo.{ceil_power_of_two}

-- `static_cast<std::size_t>`.
unfoldable pub to_size_t : ℤ → ℕ
to_size_t (pos n) = n % 2 ^ 64
to_size_t (negsuc n) = 2 ^ 64 - 1 - n % 2 ^ 64

unfoldable pub scaled : Rational → Option Rational → Option Rational
unfolding multiply
scaled factor none = none
scaled factor (some r) = multiply r factor

unfoldable pub rounded : Option Rational → Option ℤ
unfolding ceil
rounded none = none
rounded (some r) = ceil r

unfoldable pub power : Option ℤ → Option ℕ
unfolding ceil_power_of_two to_size_t
power none = none
power (some c) = ceil_power_of_two (to_size_t c)

unfoldable pub extended : ℕ → Option ℕ → Option ℕ
extended extra_size none = none
extended extra_size (some n) = some ((n + extra_size) % 2 ^ 64)

-- What a processor says of itself is given: its buffer's size, the factor and the extra size.
unfoldable pub calculate_output_buffer_size : ℕ → Rational → ℕ → Option ℕ
unfolding scaled rounded power extended make_rational
calculate_output_buffer_size buffer_size size_factor extra_size =
    extended extra_size
      (power (rounded (scaled size_factor (make_rational (pos buffer_size) (pos 1)))))
