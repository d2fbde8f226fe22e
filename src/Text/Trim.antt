-- ===== src/Text/Trim.antt =====
-- What trimming removes and what it leaves (include/essence/string.hpp), against a description that
-- walks the text from each end.
use cpp_essence.Prelude.{
  ℕ, suc, ◌≡◌, refl, ap, sym, ◌∙◌, inl, inr, true, false, [], ◌∷◌, ◌++◌, none, some, arith,
  if◌then◌else◌, take, drop, All, Bytes, contains, Bool-cases, Option-cases,
}
use cpp_essence.Text.{find_first_not_of, find_last_not_of, trim_right, trim}

-- Without the characters of the group at the front.
abbrev pub strip_left : Bytes → Bytes → Bytes
strip_left group [] = []
strip_left group (c ∷ s) = if contains group c then strip_left group s else c ∷ s

-- The same at the back.
abbrev keep : Bytes → ℕ → Bytes → Bytes
keep group c [] = if contains group c then [] else c ∷ []
keep group c (x ∷ s) = c ∷ x ∷ s

abbrev pub strip_right : Bytes → Bytes → Bytes
strip_right group [] = []
strip_right group (c ∷ s) = keep group c (strip_right group s)

abbrev pub InGroup : Bytes → Bytes → Type 0
InGroup group = All (λ c. contains group c ≡ true)

abbrev StartsOutside : Bytes → Bytes → Type 0
StartsOutside group [] = Unit {0}
StartsOutside group (c ∷ s) = contains group c ≡ false

abbrev EndsOutside : Bytes → Bytes → Type 0
EndsOutside group [] = Unit {0}
EndsOutside group (c ∷ []) = contains group c ≡ false
EndsOutside group (c ∷ d ∷ s) = EndsOutside group (d ∷ s)

-- `s` is `l`, `t` and `r` one after another, where `l` and `r` are of the group, and the first and
-- the last character of `t`, if there are any, are not.
pub record Trims (group s t : Bytes) : Type 0 where
  pub l : Bytes
  pub r : Bytes
  pub splits : s ≡ l ++ (t ++ r)
  pub left_in : InGroup group l
  pub right_in : InGroup group r
  pub starts : StartsOutside group t
  pub ends : EndsOutside group t

find_last-none : (g s : Bytes) → find_last_not_of s g ≡ none → strip_right g s ≡ []
unfolding find_last_not_of
find_last-none g [] e = refl
find_last-none g (c ∷ s) e = ground (arith, find_last-none g s)

find_last-some :
    (g s : Bytes) (i : ℕ)
    → find_last_not_of s g ≡ some i
    → (take (suc i) s ≡ strip_right g s) × ((strip_right g s ≡ []) → ⊥)
unfolding find_last_not_of
find_last-some g [] i e = cc
find_last-some g (c ∷ s) i e = elim (Option-cases (find_last_not_of s g)) [
  | inl n ↦ ground (arith, find_last-none g s n)
  | inr (j, f) ↦ ground (arith, find_last-some g s j f)
]

trim_right-strip_right : (s g : Bytes) → trim_right s g ≡ strip_right g s
unfolding trim_right
trim_right-strip_right s g = elim (Option-cases (find_last_not_of s g)) [
  | inl e ↦ rw (e, trim_right) (sym (find_last-none g s e))
  | inr (i, e) ↦ ground (arith, find_last-some g s i e)
]

find_first-none :
    (g s : Bytes) → find_first_not_of s g ≡ none → (strip_left g s ≡ []) × (strip_right g s ≡ [])
unfolding find_first_not_of
find_first-none g [] e = (refl, refl)
find_first-none g (c ∷ s) e = ground (arith, find_first-none g s)

find_first-some : (g s : Bytes) (i : ℕ) → find_first_not_of s g ≡ some i → drop i s ≡ strip_left g s
unfolding find_first_not_of
find_first-some g [] i e = cc
find_first-some g (c ∷ s) i e = elim (Option-cases (find_first_not_of s g)) [
  | inl n ↦ ground arith
  | inr (j, f) ↦ ground (arith, find_first-some g s j f)
]

-- Trimming removes the longest run of the group's characters at the front and then at the back, also
-- where the text holds nothing else.
pub trim-strip : (s g : Bytes) → trim s g ≡ strip_right g (strip_left g s)
unfolding trim
trim-strip s g = elim (Option-cases (find_first_not_of s g)) [
  | inl e ↦ ground (arith, trim_right-strip_right s g, find_first-none g s e)
  | inr (i, e) ↦ ground (arith, trim_right-strip_right (strip_left g s) g, find_first-some g s i e)
]

strip_left_splits :
    (g s : Bytes)
    → (l : Bytes) × (s ≡ l ++ strip_left g s) × InGroup g l × StartsOutside g (strip_left g s)
strip_left_splits g [] = ([], refl, tt, tt)
strip_left_splits g (c ∷ s) = elim (Bool-cases (contains g c)) [
  | inl e ↦ let (l, p, q, o) = strip_left_splits g s in rw e (c ∷ l, ap (◌∷◌ c) p, (e, q), o)
  | inr e ↦ rw e ([], refl, tt, e)
]

keep-splits :
    (g t : Bytes) (c : ℕ) (r : Bytes)
    → InGroup g r
    → EndsOutside g t
    → (r' : Bytes) × (c ∷ (t ++ r) ≡ keep g c t ++ r') × InGroup g r' × EndsOutside g (keep g c t)
keep-splits g [] c r h o = elim (Bool-cases (contains g c)) [
  | inl e ↦ rw e (c ∷ r, refl, (e, h), tt)
  | inr e ↦ rw e (r, refl, h, e)
]
keep-splits g (x ∷ t) c r h o = (r, refl, h, o)

strip_right_splits :
    (g s : Bytes)
    → (r : Bytes) × (s ≡ strip_right g s ++ r) × InGroup g r × EndsOutside g (strip_right g s)
strip_right_splits g [] = ([], refl, tt, tt)
strip_right_splits g (c ∷ s) =
    let (r, p, q, o) = strip_right_splits g s in
    let (r', p', q', o') = keep-splits g (strip_right g s) c r q o in
    (r', ap (◌∷◌ c) p ∙ p', q', o')

-- Trimming on the right keeps the first character, if any is left.
strip_right-StartsOutside : (g s : Bytes) → StartsOutside g s → StartsOutside g (strip_right g s)
strip_right-StartsOutside g [] h = tt
strip_right-StartsOutside g (c ∷ s) h = go (strip_right g s)
  where
    go : (t : Bytes) → StartsOutside g (keep g c t)
    go [] = ground arith
    go (x ∷ t) = h

-- A trimmed text is what is left of the text between a part of the group's characters at either end,
-- and neither starts nor ends with one of them.
pub trim-Trims : (s g : Bytes) → Trims g s (trim s g)
trim-Trims s g =
    let (l, p, q, o) = strip_left_splits g s in
    let (r, p', q', o') = strip_right_splits g (strip_left g s) in
    rw trim-strip (record {
      l = l;
      r = r;
      splits = p ∙ ap (◌++◌ l) p';
      left_in = q;
      right_in = q';
      starts = strip_right-StartsOutside g (strip_left g s) o;
      ends = o';
    })

strip_left_id : (g s : Bytes) → StartsOutside g s → strip_left g s ≡ s
strip_left_id g [] h = refl
strip_left_id g (c ∷ s) h = rw h refl

strip_right_id : (g s : Bytes) → EndsOutside g s → strip_right g s ≡ s
strip_right_id g [] h = refl
strip_right_id g (c ∷ []) h = rw h refl
strip_right_id g (c ∷ d ∷ s) h = ap (keep g c) (strip_right_id g (d ∷ s) h)

-- Trimming twice is trimming once.
pub trim_idem : (s g : Bytes) → trim (trim s g) g ≡ trim s g
trim_idem s g =
    let v = trim-Trims s g in
    trim-strip (trim s g) g
    ∙ ap (strip_right g) (strip_left_id g (trim s g) v.starts)
    ∙ strip_right_id g (trim s g) v.ends

-- Text that neither starts nor ends with a character of the group comes back unchanged.
pub trim_id : (s g : Bytes) → StartsOutside g s → EndsOutside g s → trim s g ≡ s
trim_id s g h k = trim-strip s g ∙ ap (strip_right g) (strip_left_id g s h) ∙ strip_right_id g s k
