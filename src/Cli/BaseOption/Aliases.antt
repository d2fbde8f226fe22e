-- ===== src/Cli/BaseOption/Aliases.antt =====
-- The aliases of an option.
use cpp_essence.Prelude.{
  ◌≡◌, refl, sym, ◌∙◌, inl, inr, ◌||◌, false, List, [], ◌∷◌, ◌++◌, arith, Bytes, equal, equal_iff,
  Bool-cases, Bool, true, ◌⊎◌, ◌↔◌,
}
use cpp_essence.Cli.Matching.{contains_name}
use cpp_essence.Cli.BaseOption.Spelling.{SpellsOne, spellings_iff}
use cpp_essence.Cli.BaseOption.{BaseOption, spellings, add_alias, add_spellings, add_aliases}

-- No text twice.
abbrev pub IsDistinct : List Bytes → Type 0
IsDistinct [] = Unit {0}
IsDistinct (x ∷ xs) = (contains_name xs x ≡ false) × IsDistinct xs

-- The list holds the aliases once each, and the set the same ones.
pub record IsValid (o : BaseOption) : Type 0 where
  pub same :
      (name : Bytes) → contains_name o.unrepeatable_aliases name ≡ contains_name o.aliases name
  pub distinct : IsDistinct o.aliases

contains_name-cons :
    (x : Bytes) (xs : List Bytes) (a : Bytes)
    → contains_name (x ∷ xs) a ≡ (equal x a || contains_name xs a)
unfolding contains_name
contains_name-cons x xs a = refl

contains_name-nil : (a : Bytes) → contains_name [] a ≡ false
unfolding contains_name
contains_name-nil a = refl

contains_name-append :
    (xs ys : List Bytes) (a : Bytes)
    → contains_name (xs ++ ys) a ≡ (contains_name xs a || contains_name ys a)
unfolding contains_name
contains_name-append [] ys a = refl
contains_name-append (x ∷ xs) ys a = ground (arith, contains_name-append xs ys a)

IsDistinct-snoc :
    (xs : List Bytes) (a : Bytes)
    → contains_name xs a ≡ false
    → IsDistinct xs
    → IsDistinct (xs ++ a ∷ [])
unfolding contains_name
IsDistinct-snoc [] a h d = (refl, tt)
IsDistinct-snoc (x ∷ xs) a h (d, ds) = (
  ground (arith, contains_name-append xs (a ∷ []) x, equal_iff x a, equal_iff a x),
  IsDistinct-snoc xs a (ground arith) ds,
)

add_alias-IsValid : (item : Bytes) (o : BaseOption) → IsValid o → IsValid (add_alias item o)
unfolding add_alias
add_alias-IsValid item o v = elim (Bool-cases (contains_name o.unrepeatable_aliases item)) [
  | inl e ↦ rw e v
  | inr e ↦ rw e (record {
    same = λ name. ground (
      arith,
      v.same name,
      contains_name-cons item o.unrepeatable_aliases name,
      contains_name-append o.aliases (item ∷ []) name,
      contains_name-cons item [] name,
      contains_name-nil name,
    );
    distinct = IsDistinct-snoc o.aliases item (sym (v.same item) ∙ e) v.distinct;
  })
]

add_spellings-IsValid :
    (items : List Bytes) (o : BaseOption) → IsValid o → IsValid (add_spellings items o)
unfolding add_spellings
add_spellings-IsValid [] o v = v
add_spellings-IsValid (item ∷ rest) o v =
    add_spellings-IsValid rest (add_alias item o) (add_alias-IsValid item o v)

add_alias-contains :
    (item : Bytes) (o : BaseOption) (a : Bytes)
    → IsValid o
    → contains_name (add_alias item o).aliases a ≡ (equal item a || contains_name o.aliases a)
unfolding add_alias
add_alias-contains item o a v = ground (
  arith,
  v.same item,
  contains_name-append o.aliases (item ∷ []) a,
  contains_name-cons item [] a,
  contains_name-nil a,
  equal_iff item a,
)

add_spellings-contains :
    (items : List Bytes) (o : BaseOption) (a : Bytes)
    → IsValid o
    → contains_name (add_spellings items o).aliases a
      ≡ (contains_name items a || contains_name o.aliases a)
unfolding add_spellings
add_spellings-contains [] o a v = rw (contains_name-nil a) refl
add_spellings-contains (item ∷ rest) o a v = ground (
  arith,
  add_spellings-contains rest (add_alias item o) a (add_alias-IsValid item o v),
  add_alias-contains item o a v,
  contains_name-cons item rest a,
)

-- Of two sources of aliases, one or the other.
either :
    (names : List Bytes) (old b : Bytes → Bool) (a : Bytes)
    → b a ≡ (contains_name (spellings names) a || old a)
    → (b a ≡ true) ↔ (SpellsOne names a ⊎ (old a ≡ true))
either names old b a e =
    let (sound, complete) = spellings_iff names a in
    (
      (λ h. elim (Bool-cases (contains_name (spellings names) a)) [
        | inl k ↦ inl (sound k)
        | inr k ↦ inr (ground (arith, e, h, k))
      ]),
      (λ s. elim s [ inl one ↦ ground (arith, e, complete one) | inr k ↦ ground (arith, e, k) ]),
    )

-- Adding aliases to a valid option gives a valid one, in which every alias stands once, and whose
-- aliases are those from before and those that come of the new names: a name without the hyphens in
-- front, if it is not empty, behind one hyphen if it is one character and two if it is more, as it is
-- and with hyphens for underscores. (A name that is all hyphens keeps them.)
pub add_aliases-IsValid :
    (names : List Bytes) (o : BaseOption) (a : Bytes)
    → IsValid o
    → IsValid (add_aliases names o)
      × ((contains_name (add_aliases names o).aliases a ≡ true)
          ↔ (SpellsOne names a ⊎ (contains_name o.aliases a ≡ true)))
unfolding add_aliases
add_aliases-IsValid names o a v = (
  add_spellings-IsValid (spellings names) o v,
  either names (contains_name o.aliases) (contains_name (add_aliases names o).aliases) a
      (add_spellings-contains (spellings names) o a v),
)
