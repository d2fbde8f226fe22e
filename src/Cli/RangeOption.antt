-- ===== src/Cli/RangeOption.antt =====
-- `option<T>` of include/essence/cli/option.hpp for a T that is a range of elements, and `join_with`
-- of include/essence/range.hpp. How an element is read, which elements are allowed and what the
-- consumer's validator says are parameters. Messages are left out.
pub mod Values
use cpp_essence.Prelude.{
  ℕ, ◌-◌, Bool, ◌&&◌, true, false, List, [], ◌∷◌, ◌++◌, Option, none, some, ◌==◌, if◌then◌else◌,
  length, take, Bytes,
}
use cpp_essence.Net.Ipv4.{split}

-- `join_with`: the delimiter behind each item, and one character less.
unfoldable pub delimited : List Bytes → Bytes → Bytes
delimited [] delimiter = []
delimited (item ∷ rest) delimiter = item ++ (delimiter ++ delimited rest delimiter)

unfoldable pub join_with : List Bytes → Bytes → Bytes
unfolding delimited
join_with range delimiter =
    let size = length (delimited range delimiter) in
    take (if size == 0 then 0 else size - 1) (delimited range delimiter)

-- The flag of the thread, and what the option has cached.
pub record RangeState {ℓ} (E : Type ℓ) : Type ℓ where
  pub success : Bool
  pub cached_value : Option (List E)

module _ {ℓ} {E : Type ℓ} (from_element_string : Bytes → Option E) (is_valid : E → Bool)
    (validate : Bytes → Bool) where
  abbrev prepend : E → List E × Bool → List E × Bool
  prepend e (es, b) = (e ∷ es, b)

  -- The elements up to the first that is refused, and whether none was.
  unfoldable pub copy_parts : List Bytes → List E × Bool
  copy_parts [] = ([], true)
  copy_parts (p ∷ ps) = elim (from_element_string p) [
    | none ↦ ([], false)
    | some e ↦ elim (is_valid e) [ true ↦ prepend e (copy_parts ps) | false ↦ ([], false) ]
  ]

  unfoldable pub parse_range_value_and_cache : Bytes → RangeState E → RangeState E
  parse_range_value_and_cache value s =
      if s.success
      then record {
        success = (copy_parts (split b',' value)).1;
        cached_value = some (copy_parts (split b',' value)).0;
      }
      else record s { cached_value = none }

  -- `parse_value_and_cache`; it answers with the flag.
  unfoldable pub parse_value_and_cache : Bytes → RangeState E → RangeState E
  parse_value_and_cache value s =
      let t = parse_range_value_and_cache value s in
      if t.success then record t { success = validate value } else t
