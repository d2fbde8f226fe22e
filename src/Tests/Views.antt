-- ===== src/Tests/Views.antt =====
-- Searches in a view of a C string.
use cpp_essence.Prelude.{◌≡◌, refl, none, some, codes, starts_with}
use cpp_essence.Text.View.{
  npos, first_position, last_position, find, rfind, find_c_string, find_first_not_of,
  find_last_not_of,
}

-- The same text is found as a view, and not as a C string.
found_or_not :
    (find (codes "a=b=c") (codes "=b") 0 ≡ some 1)
    × (rfind (codes "a=b=c") (codes "=") npos ≡ some 3)
    × (find_c_string (codes "a=b=c") (codes "=b") 0 ≡ none)
    × (find_last_not_of (codes "a=b=c") (codes "c") npos ≡ none)
unfolding find rfind find_c_string find_first_not_of find_last_not_of first_position last_position
    starts_with
found_or_not = (refl, refl, refl, refl)
