-- ===== src/Text/Case.antt =====
-- ASCII case: include/essence/char.hpp, the comparer of include/essence/string.hpp, src/string.cpp.
use cpp_essence.Prelude.{ℕ, ◌≡◌, refl, ◌↔◌, true, [], ◌∷◌, map, arith, length, Bytes}
use cpp_essence.Text.{
  to_lower, to_upper, lower_string, upper_string, icase_equal_chars, icase_string_comparer,
}

to_lower_idem : (c : ℕ) → to_lower (to_lower c) ≡ to_lower c
unfolding to_lower
to_lower_idem c = ground arith

to_lower-to_upper : (c : ℕ) → to_lower (to_upper c) ≡ to_lower c
unfolding to_lower to_upper
to_lower-to_upper c = ground arith

-- Lowering after raising is lowering, for every text.
pub lower-upper : (s : Bytes) → lower_string (upper_string s) ≡ lower_string s
unfolding lower_string upper_string
lower-upper [] = refl
lower-upper (c ∷ s) = cc (to_lower-to_upper c, lower-upper s)

icase_equal_chars_iff :
    (s t : Bytes) → (icase_equal_chars s t ≡ true) ↔ (map to_lower s ≡ map to_lower t)
unfolding icase_equal_chars
icase_equal_chars_iff [] [] = ground arith
icase_equal_chars_iff [] (d ∷ t) = ground arith
icase_equal_chars_iff (c ∷ s) [] = ground arith
icase_equal_chars_iff (c ∷ s) (d ∷ t) = ground (arith, icase_equal_chars_iff s t)

icase_length : (s t : Bytes) → map to_lower s ≡ map to_lower t → length s ≡ length t
icase_length [] [] e = refl
icase_length [] (d ∷ t) e = cc
icase_length (c ∷ s) [] e = cc
icase_length (c ∷ s) (d ∷ t) e = ground (arith, icase_length s t)

-- The comparer accepts two texts exactly when their lowered forms are equal.
pub icase_string_comparer_iff :
    (s t : Bytes) → (icase_string_comparer s t ≡ true) ↔ (lower_string s ≡ lower_string t)
unfolding icase_string_comparer lower_string
icase_string_comparer_iff s t = ground (arith, icase_equal_chars_iff s t, icase_length s t)
