-- ===== src/Meta/NamingConvention/RoundTrip.antt =====
-- From snake case to the other conventions and back.
use cpp_essence.Prelude.{
  Bool, true, false, not, ◌&&◌, [], ◌∷◌, Bytes, ℕ, ◌==◌, if◌then◌else◌, ◌≡◌, refl, ap, ap₂, ◌∙◌,
  arith,
}
use cpp_essence.Text.{is_upper, is_lower, to_lower, to_upper}
use cpp_essence.Meta.NamingConvention.{
  NamingConvention, unchanged, camel_case, pascal_case, snake_case, capitalize, erase_underscores,
  camelize_or_pascalize, lower_with_underscores, make_snake_case, convert_naming_convention,
}

-- Without capital letters, and with a small letter at the start and behind every underscore. The flag
-- says whether such a letter comes next.
unfoldable pub is_snake : Bool → Bytes → Bool
unfolding is_lower is_upper
is_snake letter [] = not letter
is_snake true (c ∷ s) = is_lower c && is_snake false s
is_snake false (c ∷ s) = if c == b'_' then is_snake true s else not (is_upper c) && is_snake false s

abbrev pub after : Bool → Bytes → Bytes
after true s = b'_' ∷ s
after false s = s

restored :
    (behind : Bool) (s : Bytes)
    → is_snake behind s ≡ true
    → lower_with_underscores (erase_underscores (capitalize behind s)) ≡ after behind s
unfolding lower_with_underscores erase_underscores capitalize is_snake is_lower is_upper to_lower
    to_upper
restored true [] h = cc
restored false [] h = refl
restored true (c ∷ s) h = ground (arith, h, restored false s, restored true s)
restored false (c ∷ s) h = ground (arith, h, restored false s, restored true s)

first_letter :
    (c : ℕ) (camel : Bool)
    → is_lower c ≡ true
    → to_lower (if camel then to_lower c else to_upper c) ≡ c
unfolding is_lower is_upper to_lower to_upper
first_letter c camel h = ground (arith, h)

first_no_underscore :
    (c : ℕ) (camel : Bool)
    → is_lower c ≡ true
    → ((if camel then to_lower c else to_upper c) == b'_') ≡ false
unfolding is_lower is_upper to_lower to_upper
first_no_underscore c camel h = ground (arith, h)

small_first :
    (c : ℕ) (s : Bytes)
    → is_snake true (c ∷ s) ≡ true
    → (is_lower c ≡ true) × (is_snake false s ≡ true)
unfolding is_snake
small_first c s h = ground (arith, h)

behind_first :
    (d : ℕ) (s : Bytes)
    → (d == b'_') ≡ false
    → make_snake_case (erase_underscores (capitalize false (d ∷ s)))
      ≡ to_lower d ∷ lower_with_underscores (erase_underscores (capitalize false s))
unfolding erase_underscores capitalize make_snake_case
behind_first d s h = rw h refl

make_snake_case-camelize_or_pascalize :
    (name : Bytes) (camel : Bool)
    → is_snake true name ≡ true
    → make_snake_case (camelize_or_pascalize name camel) ≡ name
unfolding make_snake_case camelize_or_pascalize is_snake
make_snake_case-camelize_or_pascalize [] camel h = cc
make_snake_case-camelize_or_pascalize (c ∷ s) camel h =
    let d = if camel then to_lower c else to_upper c in
    let (small, others) = small_first c s h in
    behind_first d s (first_no_underscore c camel small)
    ∙ ap₂ (λ e t. e ∷ t) (first_letter c camel small) (restored false s others)

small_stays : (c : ℕ) → is_lower c ≡ true → to_lower c ≡ c
unfolding is_lower is_upper to_lower
small_stays c h = ground (arith, h)

stays : (b : Bool) (s : Bytes) → is_snake b s ≡ true → lower_with_underscores s ≡ s
unfolding lower_with_underscores is_snake is_lower is_upper
stays b [] h = refl
stays true (c ∷ s) h = ground (arith, h, stays false s)
stays false (c ∷ s) h = ground (arith, h, stays true s, stays false s)

make_snake_case-stays : (name : Bytes) → is_snake true name ≡ true → make_snake_case name ≡ name
unfolding make_snake_case
make_snake_case-stays [] h = refl
make_snake_case-stays (c ∷ s) h =
    let (small, others) = small_first c s h in
    ap₂ (λ e t. e ∷ t) (small_stays c small) (stays false s others)

-- A name in snake case, whose words start with small letters, comes back from every convention.
pub convert_naming_convention-snake_case :
    (name : Bytes) (convention : NamingConvention)
    → is_snake true name ≡ true
    → convert_naming_convention (convert_naming_convention name convention) snake_case ≡ name
unfolding convert_naming_convention
convert_naming_convention-snake_case name camel_case h =
    make_snake_case-camelize_or_pascalize name true h
convert_naming_convention-snake_case name pascal_case h =
    make_snake_case-camelize_or_pascalize name false h
convert_naming_convention-snake_case name snake_case h =
    ap make_snake_case (make_snake_case-stays name h) ∙ make_snake_case-stays name h
convert_naming_convention-snake_case name unchanged h = make_snake_case-stays name h
