-- ===== src/Cli/Matching.antt =====
-- Names of options and what matches them: the first part of src/cli/arg_parser.cpp, with what the
-- parser knows of an option (include/essence/cli/abstract/option.hpp).
use cpp_essence.Prelude.{
  ℕ, suc, ◌+◌, Bool, true, false, not, ◌&&◌, ◌||◌, List, [], ◌∷◌, map, Option, none, some, ◌==◌,
  if◌then◌else◌, take, drop, Bytes, codes, equal, find, starts_with,
}
use cpp_essence.Text.{trim, ascii_blank_chars}

pub record AbstractOption : Type 0 where
  pub underlying_ptr : ℕ
  pub bound_name : Bytes
  pub aliases : List Bytes
  pub is_boolean : Bool
  pub default_value_str : Option Bytes
  pub name_hints : Bytes

abbrev pub option_name_prefix : Bytes
option_name_prefix = codes "--"

abbrev pub option_abbreviation_prefix : Bytes
option_abbreviation_prefix = codes "-"

abbrev pub true_string : Bytes
true_string = codes "true"

-- `check_option_prefix`.
unfoldable pub check_option_prefix : Bytes → Bool × Bool
unfolding starts_with
check_option_prefix name = (
  starts_with name option_name_prefix,
  not (starts_with name option_name_prefix) && starts_with name option_abbreviation_prefix,
)

-- `std::string_view::find` of one character, and what stands before it and behind it.
unfoldable pub find_char : ℕ → Bytes → Option ℕ
find_char c [] = none
find_char c (d ∷ s) = elim (d == c) [
  | true ↦ some 0
  | false ↦ elim (find_char c s) [ none ↦ none | some i ↦ some (suc i) ]
]

-- The name and the value of an argument, both trimmed.
unfoldable pub split_argument : Bytes → Bytes × Bytes
unfolding find_char
split_argument arg = elim (find_char b'=' arg) [
  | none ↦ (trim arg ascii_blank_chars, [])
  | some i ↦ (trim (take i arg) ascii_blank_chars, trim (drop (i + 1) arg) ascii_blank_chars)
]

-- The options of the characters behind the hyphen that are known.
unfoldable pub abbreviated : List (Bytes × AbstractOption) → Bytes → List AbstractOption
abbreviated mapping [] = []
abbreviated mapping (c ∷ s) = elim (find (b'-' ∷ c ∷ []) mapping) [
  | none ↦ abbreviated mapping s
  | some o ↦ o ∷ abbreviated mapping s
]

abbrev is_single : List AbstractOption → Bool
is_single [] = true
is_single (o ∷ []) = true
is_single (o ∷ p ∷ rest) = false

-- `match_option`: whether the option stands alone, and the option.
unfoldable pub match_option :
    List (Bytes × AbstractOption) → Bytes → Bool → Bool → List (Bool × AbstractOption)
unfolding abbreviated
match_option mapping name has_prefix has_abbreviation =
    if has_prefix
    then elim (find name mapping) [ none ↦ [] | some o ↦ (true, o) ∷ [] ]
    else if has_abbreviation
    then map (λ o. (is_single (abbreviated mapping (drop 1 name)), o))
        (abbreviated mapping (drop 1 name))
    else []

unfoldable pub contains_name : List Bytes → Bytes → Bool
contains_name [] a = false
contains_name (x ∷ xs) a = equal x a || contains_name xs a

abbrev pub is_empty : Bytes → Bool
is_empty [] = true
is_empty (c ∷ s) = false

abbrev pub is_some {ℓ} : {A : Type ℓ} → Option A → Bool
is_some none = false
is_some (some a) = true
