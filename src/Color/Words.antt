-- ===== src/Color/Words.antt =====
-- The 32-bit number of a colour and back.
use cpp_essence.Prelude.{ℕ, ◌^◌, ◌<◌, ◌≡◌, refl, Bool, ◌&&◌, true, List, [], ◌∷◌, arith, ltb, All}
use cpp_essence.Color.{ArgbColor, IsColor, to_uint32, make_argb_color}
use cpp_essence.Color.Predefined.{NamedColor, argb_colors}

-- For channels of eight bits and numbers below 2 ^ 32, the conversion to a number and
-- `make_argb_color` undo each other, both ways.
pub make_argb_color-to_uint32 :
    (c : ArgbColor) (n : ℕ)
    → IsColor c
    → n < 2 ^ 32
    → (make_argb_color (to_uint32 c) ≡ c) × (to_uint32 (make_argb_color n) ≡ n)
unfolding to_uint32 make_argb_color
make_argb_color-to_uint32 c n h k = ground arith

abbrev is_opaque_color : ArgbColor → Bool
is_opaque_color c = ltb c.r 256 && ltb c.g 256 && ltb c.b 256 && ltb 254 c.alpha && ltb c.alpha 256

abbrev all_opaque : List NamedColor → Bool
all_opaque [] = true
all_opaque (x ∷ xs) = is_opaque_color x.color && all_opaque xs

all_opaque-read :
    (xs : List NamedColor)
    → all_opaque xs ≡ true
    → All (λ (x : NamedColor). IsColor x.color × (x.color.alpha ≡ 255)) xs
all_opaque-read [] h = tt
all_opaque-read (x ∷ xs) h = (
  (
    record {
      r_is = ground arith;
      g_is = ground arith;
      b_is = ground arith;
      alpha_is = ground arith;
    },
    ground arith,
  ),
  all_opaque-read xs (ground arith),
)

-- Every predefined colour has channels of eight bits and is opaque.
pub argb_colors-IsColor :
    All (λ (x : NamedColor). IsColor x.color × (x.color.alpha ≡ 255)) argb_colors
argb_colors-IsColor = all_opaque-read argb_colors refl
