-- ===== src/Cli/BaseOption.antt =====
-- `base_option` of src/cli/option.cpp: the names of an option. The set of names already seen is a
-- list, and holds what the source's set holds.
pub mod Aliases
pub mod Spelling
use cpp_essence.Prelude.{
  ℕ, suc, Bool, ◌||◌, true, false, List, [], ◌∷◌, ◌++◌, map, ltb, ◌==◌, if◌then◌else◌, length,
  Bytes, codes,
}
use cpp_essence.Text.{trim_left}
use cpp_essence.Cli.Matching.{
  contains_name, option_name_prefix, option_abbreviation_prefix, is_empty,
}

pub record BaseOption : Type 0 where
  pub bound_name : Bytes
  pub description : Bytes
  pub aliases : List Bytes
  pub unrepeatable_aliases : List Bytes

abbrev pub new_base_option : BaseOption
new_base_option = record {
  bound_name = [];
  description = [];
  aliases = [];
  unrepeatable_aliases = [];
}

-- The copy with hyphens for underscores.
unfoldable pub hyphenated : Bytes → Bytes
hyphenated s = map (λ c. if c == b'_' then b'-' else c) s

unfoldable pub prefixed : Bytes → Bytes
prefixed name =
    (if ltb 1 (length name) then option_name_prefix else option_abbreviation_prefix) ++ name

-- The adapter of `add_aliases` and `with_hyphens`: both spellings of each name that is not empty.
unfoldable pub spellings : List Bytes → List Bytes
spellings [] = []
spellings (a ∷ rest) =
    let name = trim_left a option_abbreviation_prefix in
    let later = spellings rest in
    if is_empty name then later else prefixed name ∷ hyphenated (prefixed name) ∷ later

-- `emplace` into the set, and into the list where it is new.
unfoldable pub add_alias : Bytes → BaseOption → BaseOption
add_alias item o = if contains_name o.unrepeatable_aliases item then o else record o {
  unrepeatable_aliases = item ∷ o.unrepeatable_aliases;
  aliases = o.aliases ++ item ∷ [];
}

unfoldable pub add_spellings : List Bytes → BaseOption → BaseOption
add_spellings [] o = o
add_spellings (item ∷ rest) o = add_spellings rest (add_alias item o)

unfoldable pub add_aliases : List Bytes → BaseOption → BaseOption
add_aliases aliases o = add_spellings (spellings aliases) o

-- `set_bound_name` appends to the name.
unfoldable pub set_bound_name : Bytes → BaseOption → BaseOption
set_bound_name name o =
    let named = record o {
      bound_name = o.bound_name ++ trim_left name option_abbreviation_prefix;
    } in
    add_aliases (named.bound_name ∷ []) named

unfoldable pub set_description : Bytes → BaseOption → BaseOption
set_description text o = record o { description = text }
