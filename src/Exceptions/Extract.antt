-- ===== src/Exceptions/Extract.antt =====
-- What is found in the exception that flatten_and_throw throws.
use cpp_essence.Prelude.{
  ℕ, Bool, true, false, List, [], ◌∷◌, ◌++◌, some, ◌≡◌, refl, ap, ◌∙◌, All, arith, if◌then◌else◌,
  ◌⊎◌,
}
use cpp_essence.Exceptions.{
  Exception, unknown, aggregate, is_std, to_list, from_list, Flattened, flatten_nested_exceptions,
  flatten_and_throw, found, escaped, extract,
}
use cpp_essence.Exceptions.Chain.{chain, all_items, flatten_nested_exceptions-chain}

to_list-from_list : (es : List Exception) → to_list (from_list es) ≡ es
unfolding to_list from_list
to_list-from_list [] = refl
to_list-from_list (e ∷ es) = ap (λ l. e ∷ l) (to_list-from_list es)

-- The exceptions of an aggregate.
unfoldable pub items_of : Exception → List Exception
unfolding to_list
items_of (aggregate text items) = to_list items
items_of e = []

-- A standard exception that is not looked for.
abbrev pub IsPassed : (Exception → Bool) → Exception → Type 0
IsPassed is_type e = (is_std e ≡ true) × (is_type e ≡ false)

extract-behind :
    (is_type : Exception → Bool) (before behind : List Exception)
    → All (IsPassed is_type) before
    → extract is_type (before ++ behind) ≡ extract is_type behind
unfolding extract
extract-behind is_type [] behind h = refl
extract-behind is_type (e ∷ before) behind ((s, t), h) =
    ground (arith, s, t, extract-behind is_type before behind h)

thrown_items :
    (root : Exception) (indent : ℕ)
    → items_of (flatten_and_throw (some root) indent) ≡ all_items (chain root)
unfolding items_of flatten_and_throw
thrown_items root indent =
    to_list-from_list (flatten_nested_exceptions (some root) indent).levels
    ∙ ap (λ (f : Flattened). f.levels) (flatten_nested_exceptions-chain root indent)

-- The search in what is thrown for a nested exception finds the first exception of the type in the
-- chain, if all before it are standard exceptions; one of another kind before it ends the search: it
-- is thrown on.
pub extract-flatten_and_throw :
    (is_type : Exception → Bool) (root e : Exception) (indent : ℕ) (before behind : List Exception)
    → all_items (chain root) ≡ before ++ (e ∷ behind)
    → All (IsPassed is_type) before
    → (is_type e ≡ true) ⊎ (e ≡ unknown)
    → extract is_type (items_of (flatten_and_throw (some root) indent))
      ≡ (if is_std e then found e else escaped e)
unfolding extract is_std
extract-flatten_and_throw is_type root e indent before behind splits std last =
    ap (extract is_type) (thrown_items root indent ∙ splits)
    ∙ extract-behind is_type before (e ∷ behind) std
    ∙ ground (arith, last)
