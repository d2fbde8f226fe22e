-- ===== src/Cli/BaseOption/Spelling.antt =====
-- The spellings of a name, described without the functions that make them.
use mathlib.Core.List.{Memᴰ}
use mathlib.Core.List.Memᴰ.{head, tail}
use cpp_essence.Prelude.{
  ℕ, zero, suc, Bool, true, false, ◌&&◌, ◌||◌, not, if◌then◌else◌, ◌==◌, ==_iff, ◌≡◌, refl, sym, ap,
  ◌∙◌, subst, ◌⊎◌, inl, inr, ◌↔◌, List, [], ◌∷◌, ◌++◌, none, some, drop, replicate, arith, Bytes,
  equal, equal_iff, Bool-cases,
}
use cpp_essence.Text.{find_first_not_of, trim_left}
use cpp_essence.Cli.Matching.{contains_name, is_empty, option_abbreviation_prefix}
use cpp_essence.Cli.BaseOption.{hyphenated, prefixed, spellings}

-- Whether the first character is another than a hyphen, and whether all are hyphens.
abbrev pub starts_other : Bytes → Bool
starts_other [] = false
starts_other (c ∷ s) = not (c == b'-')

abbrev pub only_hyphens : Bytes → Bool
only_hyphens [] = true
only_hyphens (c ∷ s) = (c == b'-') && only_hyphens s

-- A name without the hyphens in front of it. A name that is all hyphens keeps them.
record Bare (name body : Bytes) : Type 0 where
  dashes : ℕ
  splits : name ≡ replicate dashes b'-' ++ body
  starts : (starts_other body ≡ true) ⊎ ((body ≡ name) × (only_hyphens body ≡ true))

-- One hyphen in front of a single character, two in front of more.
abbrev pub marked : Bytes → Bytes
marked [] = []
marked (c ∷ []) = b'-' ∷ c ∷ []
marked (c ∷ d ∷ s) = b'-' ∷ b'-' ∷ c ∷ d ∷ s

-- The text with a hyphen for each underscore.
abbrev pub hyphens : Bytes → Bytes
hyphens [] = []
hyphens (c ∷ s) = (if c == b'_' then b'-' else c) ∷ hyphens s

-- An alias that comes of a name: the bare name, which is not empty, with its mark, as it is or with
-- hyphens for underscores.
pub record Spells (name alias : Bytes) : Type 0 where
  body : Bytes
  bare : Bare name body
  not_empty : is_empty body ≡ false
  spelled : (alias ≡ marked body) ⊎ (alias ≡ hyphens (marked body))

pub record SpellsOne (names : List Bytes) (alias : Bytes) : Type 0 where
  name : Bytes
  among : Memᴰ name names
  spells : Spells name alias

-- Where the hyphens end.
find-replicate :
    (n : ℕ) (body : Bytes)
    → starts_other body ≡ true
    → find_first_not_of (replicate n b'-' ++ body) option_abbreviation_prefix ≡ some n
unfolding find_first_not_of
find-replicate zero [] h = cc
find-replicate zero (c ∷ s) h = ground (arith, h)
find-replicate (suc n) body h = rw (find-replicate n body h) refl

find-only_hyphens :
    (name : Bytes)
    → only_hyphens name ≡ true
    → find_first_not_of name option_abbreviation_prefix ≡ none
unfolding find_first_not_of
find-only_hyphens [] h = refl
find-only_hyphens (c ∷ s) h = ground (arith, h, find-only_hyphens s)

drop-replicate : (n : ℕ) (body : Bytes) → drop n (replicate n b'-' ++ body) ≡ body
drop-replicate zero body = refl
drop-replicate (suc n) body = drop-replicate n body

trimmed_at :
    (name group : Bytes) (i : ℕ)
    → find_first_not_of name group ≡ some i
    → trim_left name group ≡ drop i name
unfolding trim_left
trimmed_at name group i h = rw (trim_left, h) refl

trimmed_nowhere :
    (name group : Bytes) → find_first_not_of name group ≡ none → trim_left name group ≡ name
unfolding trim_left
trimmed_nowhere name group h = rw (trim_left, h) refl

-- A bare name is what is trimmed.
trim_left_unique :
    (name body : Bytes) → Bare name body → trim_left name option_abbreviation_prefix ≡ body
trim_left_unique name body b = elim b.starts [
  | inl other ↦
      ap (λ s. trim_left s option_abbreviation_prefix) b.splits
      ∙ trimmed_at (replicate b.dashes b'-' ++ body) option_abbreviation_prefix b.dashes
          (find-replicate b.dashes body other)
      ∙ drop-replicate b.dashes body
  | inr (same, only) ↦
      trimmed_nowhere name option_abbreviation_prefix
        (find-only_hyphens name (ap only_hyphens (sym same) ∙ only))
      ∙ sym same
]

-- Where the hyphens end, or that there is nothing else.
record Ends (name : Bytes) (index : ℕ) : Type 0 where
  found : find_first_not_of name option_abbreviation_prefix ≡ some index
  divides : name ≡ replicate index b'-' ++ drop index name
  other : starts_other (drop index name) ≡ true

record Endless (name : Bytes) : Type 0 where
  nowhere : find_first_not_of name option_abbreviation_prefix ≡ none
  only : only_hyphens name ≡ true

Ends-later : (s : Bytes) (i : ℕ) → Ends s i → Ends (b'-' ∷ s) (suc i)
unfolding find_first_not_of
Ends-later s i e = record {
  found = rw e.found refl;
  divides = ap (◌∷◌ b'-') e.divides;
  other = e.other;
}

hyphen_here :
    (c : ℕ) (s : Bytes)
    → Endless s ⊎ ((i : ℕ) × Ends s i)
    → Endless (b'-' ∷ s) ⊎ ((i : ℕ) × Ends (b'-' ∷ s) i)
unfolding find_first_not_of
hyphen_here c s (inl e) = inl (record { nowhere = rw e.nowhere refl; only = e.only })
hyphen_here c s (inr (i, e)) = inr (suc i, Ends-later s i e)

other_here : (c : ℕ) (s : Bytes) → (c == b'-') ≡ false → Ends (c ∷ s) 0
unfolding find_first_not_of
other_here c s h = record { found = ground (arith, h); divides = refl; other = rw h refl }

hyphens_end : (name : Bytes) → Endless name ⊎ ((i : ℕ) × Ends name i)
unfolding find_first_not_of
hyphens_end [] = inl (record { nowhere = refl; only = refl })
hyphens_end (c ∷ s) = elim (Bool-cases (c == b'-')) [
  | inl h ↦
      subst (λ d. Endless (d ∷ s) ⊎ ((i : ℕ) × Ends (d ∷ s) i)) (sym ((==_iff c b'-').0 h))
        (hyphen_here c s (hyphens_end s))
  | inr h ↦ inr (0, other_here c s h)
]

trim_left-Bare : (name : Bytes) → Bare name (trim_left name option_abbreviation_prefix)
trim_left-Bare name = elim (hyphens_end name) [
  | inl e ↦
      subst (Bare name) (sym (trimmed_nowhere name option_abbreviation_prefix e.nowhere))
        (record { dashes = 0; splits = refl; starts = inr (refl, e.only) })
  | inr (i, e) ↦
      subst (Bare name) (sym (trimmed_at name option_abbreviation_prefix i e.found))
        (record { dashes = i; splits = e.divides; starts = inl e.other })
]

prefixed-marked : (body : Bytes) → is_empty body ≡ false → prefixed body ≡ marked body
unfolding prefixed
prefixed-marked [] h = cc
prefixed-marked (c ∷ []) h = refl
prefixed-marked (c ∷ d ∷ s) h = ground arith

hyphenated-hyphens : (s : Bytes) → hyphenated s ≡ hyphens s
unfolding hyphenated
hyphenated-hyphens [] = refl
hyphenated-hyphens (c ∷ s) = ap (◌∷◌ (if c == b'_' then b'-' else c)) (hyphenated-hyphens s)

-- The two spellings of a bare name.
spelled_iff :
    (body alias : Bytes)
    → is_empty body ≡ false
    → (equal (prefixed body) alias || equal (hyphenated (prefixed body)) alias ≡ true)
      ↔ ((alias ≡ marked body) ⊎ (alias ≡ hyphens (marked body)))
spelled_iff body alias h =
    rw (hyphenated-hyphens (prefixed body), prefixed-marked body h)
      (
        (λ e. elim (Bool-cases (equal (marked body) alias)) [
          | inl k ↦ inl (sym ((equal_iff (marked body) alias).0 k))
          | inr k ↦ inr (sym ((equal_iff (hyphens (marked body)) alias).0 (ground (arith, e, k))))
        ]),
        (λ e. elim e [
          | inl k ↦ ground (arith, (equal_iff (marked body) alias).1 (sym k))
          | inr k ↦ ground (arith, (equal_iff (hyphens (marked body)) alias).1 (sym k))
        ]),
      )

-- What the adapter makes of the first name.
spellings-here :
    (name : Bytes) (rest : List Bytes) (alias : Bytes)
    → contains_name (spellings (name ∷ rest)) alias ≡ true
    → Spells name alias ⊎ (contains_name (spellings rest) alias ≡ true)
unfolding spellings contains_name
spellings-here name rest alias h =
    let body = trim_left name option_abbreviation_prefix in
    elim (Bool-cases (is_empty body)) [
      | inl e ↦ inr (ground (arith, h, e))
      | inr e ↦
          elim (Bool-cases
            (equal (prefixed body) alias || equal (hyphenated (prefixed body)) alias)) [
              | inl k ↦ inl (record {
                body = body;
                bare = trim_left-Bare name;
                not_empty = e;
                spelled = (spelled_iff body alias e).0 k;
              })
              | inr k ↦ inr (ground (arith, h, e, k))
            ]
    ]

spellings-own :
    (name : Bytes) (rest : List Bytes) (alias : Bytes)
    → Spells name alias
    → contains_name (spellings (name ∷ rest)) alias ≡ true
unfolding spellings contains_name
spellings-own name rest alias s =
    rw (trim_left_unique name s.body s.bare, s.not_empty)
      (ground (arith, (spelled_iff s.body alias s.not_empty).1 s.spelled))

spellings-later :
    (name : Bytes) (rest : List Bytes) (alias : Bytes)
    → contains_name (spellings rest) alias ≡ true
    → contains_name (spellings (name ∷ rest)) alias ≡ true
unfolding spellings contains_name
spellings-later name rest alias h =
    elim (Bool-cases (is_empty (trim_left name option_abbreviation_prefix))) [
      | inl e ↦ rw e h
      | inr e ↦ rw e (ground (arith, h))
    ]

spellings_sound :
    (names : List Bytes) (alias : Bytes)
    → contains_name (spellings names) alias ≡ true
    → SpellsOne names alias
unfolding spellings contains_name
spellings_sound [] alias h = cc
spellings_sound (name ∷ rest) alias h = elim (spellings-here name rest alias h) [
  | inl s ↦ record { name = name; among = head refl; spells = s }
  | inr later ↦
      let one = spellings_sound rest alias later in
      record { name = one.name; among = tail one.among; spells = one.spells }
]

spellings_among :
    (names : List Bytes) (alias name : Bytes)
    → Memᴰ name names
    → Spells name alias
    → contains_name (spellings names) alias ≡ true
spellings_among [] alias name m s = elim m [ ]
spellings_among (first ∷ rest) alias name (head same) s =
    spellings-own first rest alias (subst (λ n. Spells n alias) same s)
spellings_among (first ∷ rest) alias name (tail m) s =
    spellings-later first rest alias (spellings_among rest alias name m s)

-- The adapter makes exactly the aliases that come of the names.
pub spellings_iff :
    (names : List Bytes) (alias : Bytes)
    → (contains_name (spellings names) alias ≡ true) ↔ SpellsOne names alias
spellings_iff names alias =
    (spellings_sound names alias, λ one. spellings_among names alias one.name one.among one.spells)
