-- ===== src/Text/View.antt =====
-- The searches of include/essence/zstring_view.hpp, over those of `std::string_view`. A result `none`
-- is npos.
pub mod Defaults
use cpp_essence.Prelude.{
  ℕ, suc, ◌-◌, ◌^◌, Bool, true, false, not, ◌&&◌, [], ◌∷◌, Option, none, some, leb, if◌then◌else◌,
  Bytes, contains, starts_with,
}

abbrev pub npos : ℕ
npos = 2 ^ 64 - 1

-- The first position from an offset on, and the last one up to it, from where on a text passes a test;
-- the text stands at a position of its own.
unfoldable pub first_position : (Bytes → Bool) → ℕ → Bytes → ℕ → Option ℕ
first_position test base [] offset = if leb offset base && test [] then some base else none
first_position test base (c ∷ s) offset =
    let later = first_position test (suc base) s offset in
    if leb offset base && test (c ∷ s) then some base else later

unfoldable pub last_position : (Bytes → Bool) → ℕ → Bytes → ℕ → Option ℕ
last_position test base [] offset = if leb base offset && test [] then some base else none
last_position test base (c ∷ s) offset = elim (last_position test (suc base) s offset) [
  | some i ↦ some i
  | none ↦ if leb base offset && test (c ∷ s) then some base else none
]

abbrev pub starts_in : Bytes → Bytes → Bool
starts_in group [] = false
starts_in group (c ∷ s) = contains group c

abbrev pub starts_outside : Bytes → Bytes → Bool
starts_outside group [] = false
starts_outside group (c ∷ s) = not (contains group c)

unfoldable pub find : Bytes → Bytes → ℕ → Option ℕ
unfolding first_position
find s view offset = first_position (λ t. starts_with t view) 0 s offset

unfoldable pub rfind : Bytes → Bytes → ℕ → Option ℕ
unfolding last_position
rfind s view offset = last_position (λ t. starts_with t view) 0 s offset

-- The overload for a C string calls `rfind`.
unfoldable pub find_c_string : Bytes → Bytes → ℕ → Option ℕ
unfolding rfind
find_c_string s str offset = rfind s str offset

unfoldable pub find_first_of : Bytes → Bytes → ℕ → Option ℕ
unfolding first_position
find_first_of s view offset = first_position (starts_in view) 0 s offset

unfoldable pub find_last_of : Bytes → Bytes → ℕ → Option ℕ
unfolding last_position
find_last_of s view offset = last_position (starts_in view) 0 s offset

unfoldable pub find_first_not_of : Bytes → Bytes → ℕ → Option ℕ
unfolding first_position
find_first_not_of s view offset = first_position (starts_outside view) 0 s offset

-- All overloads call `find_first_not_of`.
unfoldable pub find_last_not_of : Bytes → Bytes → ℕ → Option ℕ
unfolding find_first_not_of
find_last_not_of s view offset = find_first_not_of s view offset
