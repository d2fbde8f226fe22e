-- ===== src/Text/View/Defaults.antt =====
-- Two searches with their default offsets.
use cpp_essence.Prelude.{
  ℕ, suc, ◌+◌, ◌<◌, Bool, [], ◌∷◌, none, some, if◌then◌else◌, Bytes, starts_with, length, ◌≡◌,
  arith,
}
use cpp_essence.Text.View.{
  npos, first_position, last_position, starts_outside, rfind, find_c_string, find_first_not_of,
  find_last_not_of,
}

first_position-behind :
    (test : Bytes → Bool) (base offset : ℕ) (s : Bytes)
    → base + length s < offset
    → first_position test base s offset ≡ none
unfolding first_position
first_position-behind test base offset [] h = ground (arith, h)
first_position-behind test base offset (c ∷ s) h =
    ground (arith, h, first_position-behind test (suc base) offset s)

last_position-before :
    (test : Bytes → Bool) (base : ℕ) (s : Bytes) → last_position test (suc base) s 0 ≡ none
unfolding last_position
last_position-before test base [] = ground arith
last_position-before test base (c ∷ s) = ground (arith, last_position-before test (suc base) s)

last_position-zero :
    (test : Bytes → Bool) (s : Bytes) → last_position test 0 s 0 ≡ (if test s then some 0 else none)
unfolding last_position
last_position-zero test [] = ground arith
last_position-zero test (c ∷ s) = ground (arith, last_position-before test 0 s)

-- With its default offset the search for the last character outside a group finds nothing in any text
-- that fits the memory, and the search for a C string finds it at the start of the text only.
pub default_searches :
    (s group str : Bytes)
    → length s < npos
    → (find_last_not_of s group npos ≡ none)
      × (find_c_string s str 0 ≡ (if starts_with s str then some 0 else none))
unfolding find_last_not_of find_first_not_of find_c_string rfind
default_searches s group str h = (
  first_position-behind (starts_outside group) 0 npos s (omega (arith, h)),
  last_position-zero (λ t. starts_with t str) s,
)
