-- ===== src/Meta/NamingConvention.antt =====
-- include/essence/meta/naming_convention.hpp and detail/naming_convention.hpp. The functions of the C
-- library on characters are those of ASCII.
pub mod RoundTrip
use cpp_essence.Prelude.{Bool, true, false, [], ◌∷◌, Bytes, ◌==◌, if◌then◌else◌}
use cpp_essence.Text.{is_upper, to_lower, to_upper}

pub data NamingConvention : Type 0 where
  unchanged camel_case pascal_case snake_case : NamingConvention

-- The loop: a character behind an underscore is capitalized. The flag says whether it is.
unfoldable pub capitalize : Bool → Bytes → Bytes
capitalize behind [] = []
capitalize behind (c ∷ s) = let d = if behind then to_upper c else c in d ∷ capitalize (d == b'_') s

unfoldable pub erase_underscores : Bytes → Bytes
erase_underscores [] = []
erase_underscores (c ∷ s) = let rest = erase_underscores s in if c == b'_' then rest else c ∷ rest

unfoldable pub camelize_or_pascalize : Bytes → Bool → Bytes
unfolding capitalize erase_underscores
camelize_or_pascalize [] camel = []
camelize_or_pascalize (c ∷ s) camel =
    erase_underscores (capitalize false ((if camel then to_lower c else to_upper c) ∷ s))

unfoldable pub lower_with_underscores : Bytes → Bytes
lower_with_underscores [] = []
lower_with_underscores (c ∷ s) =
    let rest = lower_with_underscores s in if is_upper c then b'_' ∷ to_lower c ∷ rest else c ∷ rest

unfoldable pub make_snake_case : Bytes → Bytes
unfolding lower_with_underscores
make_snake_case [] = []
make_snake_case (c ∷ s) = to_lower c ∷ lower_with_underscores s

unfoldable pub convert_naming_convention : Bytes → NamingConvention → Bytes
unfolding camelize_or_pascalize make_snake_case
convert_naming_convention name camel_case = camelize_or_pascalize name true
convert_naming_convention name pascal_case = camelize_or_pascalize name false
convert_naming_convention name snake_case = make_snake_case name
convert_naming_convention name unchanged = name
