-- ===== src/Color.antt =====
-- include/essence/argb_color.hpp. A channel is a number below 256.
pub mod Predefined
pub mod Words
use cpp_essence.Prelude.{ℕ, ◌+◌, ◌-◌, ◌*◌, ◌/◌, ◌%◌, ◌^◌, ◌<◌}

pub record ArgbColor : Type 0 where
  pub r : ℕ
  pub g : ℕ
  pub b : ℕ
  pub alpha : ℕ

-- Each channel is a `std::uint8_t`.
pub record IsColor (c : ArgbColor) : Type 0 where
  pub r_is : c.r < 256
  pub g_is : c.g < 256
  pub b_is : c.b < 256
  pub alpha_is : c.alpha < 256

-- The default of the last channel.
abbrev pub opaque : ℕ → ℕ → ℕ → ArgbColor
opaque r g b = record { r = r; g = g; b = b; alpha = 255 }

-- `operator std::uint32_t`.
unfoldable pub to_uint32 : ArgbColor → ℕ
to_uint32 c = (c.alpha * 2 ^ 24 + c.b * 2 ^ 16 + c.g * 2 ^ 8 + c.r) % 2 ^ 32

unfoldable pub make_argb_color : ℕ → ArgbColor
make_argb_color color = record {
  r = color % 256;
  g = color / 2 ^ 8 % 256;
  b = color / 2 ^ 16 % 256;
  alpha = color / 2 ^ 24 % 256;
}
