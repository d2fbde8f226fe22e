-- ===== src/Cli/RangeOption/Values.antt =====
-- Which values a range option takes, and when it stops taking any.
use cpp_essence.Prelude.{
  ℕ, suc, ◌-◌, ◌≡◌, refl, sym, ap, ◌∙◌, inl, inr, Bool, true, false, List, [], ◌∷◌, ◌++◌, Option,
  none, some, arith, ◌==◌, if◌then◌else◌, length, Bytes, Option-cases, length-append, append_assoc,
  take-append,
}
use cpp_essence.Net.Ipv4.{split}
use cpp_essence.Cli.RangeOption.{
  delimited, join_with, RangeState, copy_parts, parse_range_value_and_cache, parse_value_and_cache,
}

-- The items with the character between each two.
abbrev pub intercalated : ℕ → List Bytes → Bytes
intercalated c [] = []
intercalated c (item ∷ []) = item
intercalated c (item ∷ next ∷ rest) = item ++ (c ∷ intercalated c (next ∷ rest))

delimited-intercalated :
    (c : ℕ) (item : Bytes) (rest : List Bytes)
    → delimited (item ∷ rest) (c ∷ []) ≡ intercalated c (item ∷ rest) ++ c ∷ []
unfolding delimited
delimited-intercalated c item [] = refl
delimited-intercalated c item (next ∷ rest) =
    ap (λ s. item ++ (c ∷ s)) (delimited-intercalated c next rest)
    ∙ sym (append_assoc item (c ∷ intercalated c (next ∷ rest)) (c ∷ []))

-- With a delimiter of one character the items are joined by it.
pub join_with-intercalated :
    (c : ℕ) (items : List Bytes) → join_with items (c ∷ []) ≡ intercalated c items
unfolding join_with
join_with-intercalated c [] = refl
join_with-intercalated c (item ∷ rest) =
    let joined = intercalated c (item ∷ rest) in
    let size : length (joined ++ c ∷ []) ≡ suc (length joined) =
      omega (arith, length-append joined (c ∷ [])) in
    let shorter : (if length (joined ++ c ∷ []) == 0 then 0 else length (joined ++ c ∷ []) - 1)
        ≡ length joined =
      ground (arith, size) in
    rw (delimited-intercalated c item rest, shorter) (take-append joined (c ∷ []))

module _ {ℓ} {E : Type ℓ} (from_element_string : Bytes → Option E) (is_valid : E → Bool)
    (validate : Bytes → Bool) where
  abbrev allowed : Option E → Option E
  allowed none = none
  allowed (some e) = if is_valid e then some e else none

  abbrev joined_to : Option E → Option (List E) → Option (List E)
  joined_to none o = none
  joined_to (some e) none = none
  joined_to (some e) (some es) = some (e ∷ es)

  -- All the elements, if every part is one that is allowed.
  abbrev pub read_all : List Bytes → Option (List E)
  read_all [] = some []
  read_all (p ∷ ps) = joined_to (allowed (from_element_string p)) (read_all ps)

  copy_parts-some :
      (ps : List Bytes) (es : List E)
      → read_all ps ≡ some es
      → copy_parts from_element_string is_valid validate ps ≡ (es, true)
  unfolding copy_parts
  copy_parts-some [] es h = ground arith
  copy_parts-some (p ∷ ps) es h = elim (Option-cases (from_element_string p)) [
    | inl n ↦ absurd (ground arith)
    | inr (e, q) ↦ elim (Option-cases (read_all ps)) [
      | inl n ↦ absurd (ground arith)
      | inr (fs, r) ↦ let ih = copy_parts-some ps fs r in ground arith
    ]
  ]

  copy_parts-none :
      (ps : List Bytes)
      → read_all ps ≡ none
      → (copy_parts from_element_string is_valid validate ps).1 ≡ false
  unfolding copy_parts
  copy_parts-none [] h = cc
  copy_parts-none (p ∷ ps) h = elim (Option-cases (from_element_string p)) [
    | inl n ↦ ground arith
    | inr (e, q) ↦ elim (Option-cases (read_all ps)) [
      | inl n ↦ let ih = copy_parts-none ps n in ground arith
      | inr (fs, r) ↦ ground arith
    ]
  ]

  -- While the flag is set, a value whose every part is an allowed element is taken as far as the
  -- validator agrees, and its elements are cached in their order.
  pub parse_value_and_cache-taken :
      (value : Bytes) (s : RangeState E) (es : List E)
      → s.success ≡ true
      → read_all (split b',' value) ≡ some es
      → parse_value_and_cache from_element_string is_valid validate value s
        ≡ record { success = validate value; cached_value = some es }
  unfolding parse_value_and_cache parse_range_value_and_cache
  parse_value_and_cache-taken value s es h e = rw (h, copy_parts-some (split b',' value) es e) refl

  -- While the flag is set, a value with a part that is no allowed element is refused.
  pub parse_value_and_cache-refused :
      (value : Bytes) (s : RangeState E)
      → s.success ≡ true
      → read_all (split b',' value) ≡ none
      → (parse_value_and_cache from_element_string is_valid validate value s).success ≡ false
  unfolding parse_value_and_cache parse_range_value_and_cache
  parse_value_and_cache-refused value s h e = rw (h, copy_parts-none (split b',' value) e) refl

  -- Once a value has been refused, the flag stays clear: every later value is refused as well,
  -- whatever it is, and the cache is emptied.
  pub refused_for_good :
      (value later : Bytes) (s : RangeState E)
      → (parse_value_and_cache from_element_string is_valid validate value s).success ≡ false
      → parse_value_and_cache from_element_string is_valid validate later
          (parse_value_and_cache from_element_string is_valid validate value s)
        ≡ record { success = false; cached_value = none }
  unfolding parse_value_and_cache parse_range_value_and_cache
  refused_for_good value later s h = rw h refl
