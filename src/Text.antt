-- ===== src/Text.antt =====
-- include/essence/char.hpp and include/essence/string.hpp: ASCII case and trimming. A `char` is the
-- number of its byte.
pub mod Case
pub mod Trim
pub mod View
use cpp_essence.Prelude.{
  ℕ, suc, ◌+◌, ◌-◌, Bool, ◌&&◌, ◌||◌, true, false, List, [], ◌∷◌, map, Option, none, some, leb,
  ◌==◌, if◌then◌else◌, take, drop, length, Bytes, contains,
}

unfoldable pub is_lower : ℕ → Bool
is_lower c = leb b'a' c && leb c b'z'

unfoldable pub is_upper : ℕ → Bool
is_upper c = leb b'A' c && leb c b'Z'

unfoldable pub to_lower : ℕ → ℕ
unfolding is_upper
to_lower c = if is_upper c then c - b'A' + b'a' else c

unfoldable pub to_upper : ℕ → ℕ
unfolding is_lower
to_upper c = if is_lower c then c - b'a' + b'A' else c

-- `to_lower` and `to_upper` of a whole text (src/string.cpp).
unfoldable pub lower_string : Bytes → Bytes
lower_string s = map to_lower s

unfoldable pub upper_string : Bytes → Bytes
upper_string s = map to_upper s

-- `std::ranges::equal` with the comparer's lambda.
unfoldable pub icase_equal_chars : Bytes → Bytes → Bool
icase_equal_chars [] [] = true
icase_equal_chars (c1 ∷ s) (c2 ∷ t) =
    (c1 == c2 || to_lower c1 == to_lower c2) && icase_equal_chars s t
icase_equal_chars _ _ = false

unfoldable pub icase_string_comparer : Bytes → Bytes → Bool
unfolding icase_equal_chars
icase_string_comparer left right = length left == length right && icase_equal_chars left right

abbrev pub ascii_blank_chars : Bytes
ascii_blank_chars = b' ' ∷ b'\t' ∷ []

-- `std::string_view::find_first_not_of`; `none` is `npos`.
unfoldable pub find_first_not_of : Bytes → Bytes → Option ℕ
find_first_not_of [] group = none
find_first_not_of (c ∷ s) group = elim (contains group c) [
  | false ↦ some 0
  | true ↦ elim (find_first_not_of s group) [ none ↦ none | some i ↦ some (suc i) ]
]

-- `std::string_view::find_last_not_of`.
unfoldable pub find_last_not_of : Bytes → Bytes → Option ℕ
find_last_not_of [] group = none
find_last_not_of (c ∷ s) group = elim (find_last_not_of s group) [
  | some i ↦ some (suc i)
  | none ↦ elim (contains group c) [ true ↦ none | false ↦ some 0 ]
]

unfoldable pub trim_left : Bytes → Bytes → Bytes
unfolding find_first_not_of
trim_left str group = elim (find_first_not_of str group) [
  | some index ↦ drop index str
  | none ↦ str
]

-- `npos + 1` is 0.
unfoldable pub trim_right : Bytes → Bytes → Bytes
unfolding find_last_not_of
trim_right str group = elim (find_last_not_of str group) [
  | some index ↦ take (index + 1) str
  | none ↦ take 0 str
]

unfoldable pub trim : Bytes → Bytes → Bytes
unfolding trim_left trim_right
trim str group = trim_right (trim_left str group) group
