-- ===== src/Meta/JsonSerializer/Scoped.antt =====
-- The settings of a class against those that its members are serialized with.
use cpp_essence.Meta.NamingConvention.{NamingConvention, convert_naming_convention}
use cpp_essence.Prelude.{
  Bool, true, false, ◌&&◌, ◌||◌, not, if◌then◌else◌, ◌≡◌, refl, ap, ◌∙◌, Bool-cases, inl, inr,
  arith,
}
use cpp_essence.Meta.JsonSerializer.{
  Settings, Value, number, enumeration, absent, present, object, range, dictionary, Members, end,
  member, Elements, last, element, Json, array, no_items, put, elements_to_json, null, num, obj,
  nothing, emplace, reset, enumeration_json, to_json, members_to_json,
}
use cpp_essence.Meta.JsonSerializer.Ordered.{
  has_object, any_object, is_plain, elements_plain, all_plain, ordered, members_ordered,
  elements_ordered,
}

nested :
    (a b : Bool) (t s : Settings)
    → (if a then t else (if b then t else s)) ≡ (if b || a then t else s)
nested true true t s = refl
nested true false t s = refl
nested false true t s = refl
nested false false t s = refl

both : (a b : Bool) → a && b ≡ true → (a ≡ true) × (b ≡ true)
both a b h = ground (arith, h)

-- Every member is serialized with the settings of the class that declares it, and every element with
-- those of its range or map.
unfoldable mutual
  pub scoped_json : Settings → Value → Json
  scoped_json s (number n) = num n
  scoped_json s (enumeration n name) = enumeration_json s n name
  scoped_json s absent = null
  scoped_json s (present v) = scoped_json s v
  scoped_json s (object config members) =
      scoped_members config.naming_convention config members null
  scoped_json s (range elements) = scoped_elements false s elements (array no_items)
  scoped_json s (dictionary elements) = scoped_elements true s elements (obj nothing)

  pub scoped_members : NamingConvention → Settings → Members → Json → Json
  scoped_members convention s end json = json
  scoped_members convention s (member name omitted v rest) json =
      let left_out = scoped_members convention s rest json in
      let put_in =
        scoped_members convention s rest
          (emplace (convert_naming_convention name convention) (scoped_json s v) json) in
      if omitted then left_out else put_in

  pub scoped_elements : Bool → Settings → Elements → Json → Json
  scoped_elements keyed s last json = json
  scoped_elements keyed s (element key v rest) json =
      scoped_elements keyed s rest (put keyed key (scoped_json s v) json)

-- What a value and elements leave behind.
mutual
  unfolding to_json elements_to_json has_object any_object

  pub settings_behind :
      (s : Settings) (v : Value) → (to_json s v).1 ≡ (if has_object v then reset else s)
  settings_behind s (number n) = refl
  settings_behind s (enumeration n name) = refl
  settings_behind s absent = refl
  settings_behind s (present v) = settings_behind s v
  settings_behind s (object config members) = refl
  settings_behind s (range elements) = elements_behind false s elements (array no_items)
  settings_behind s (dictionary elements) = elements_behind true s elements (obj nothing)

  elements_behind :
      (keyed : Bool) (s : Settings) (es : Elements) (json : Json)
      → (elements_to_json keyed s es json).1 ≡ (if any_object es then reset else s)
  elements_behind keyed s last json = refl
  elements_behind keyed s (element key v rest) json =
      elements_behind keyed (to_json s v).1 rest (put keyed key (to_json s v).0 json)
      ∙ ap (λ t. if any_object rest then reset else t) (settings_behind s v)
      ∙ nested (any_object rest) (has_object v) reset s

mutual
  unfolding to_json elements_to_json is_plain elements_plain

  plain_json :
      (s s' : Settings) (v : Value) → is_plain v ≡ true → (to_json s v).0 ≡ (to_json s' v).0
  plain_json s s' (number n) h = refl
  plain_json s s' (enumeration n name) h = cc
  plain_json s s' absent h = refl
  plain_json s s' (present v) h = plain_json s s' v h
  plain_json s s' (object config members) h = refl
  plain_json s s' (range elements) h = plain_elements false s s' elements (array no_items) h
  plain_json s s' (dictionary elements) h = plain_elements true s s' elements (obj nothing) h

  plain_elements :
      (keyed : Bool) (s s' : Settings) (es : Elements) (json : Json)
      → elements_plain es ≡ true
      → (elements_to_json keyed s es json).0 ≡ (elements_to_json keyed s' es json).0
  plain_elements keyed s s' last json h = refl
  plain_elements keyed s s' (element key v rest) json h =
      plain_elements keyed (to_json s v).1 (to_json s' v).1 rest
        (put keyed key (to_json s v).0 json) (both (is_plain v) (elements_plain rest) h).1
      ∙ ap (λ sub. (elements_to_json keyed (to_json s' v).1 rest (put keyed key sub json)).0)
          (plain_json s s' v (both (is_plain v) (elements_plain rest) h).0)

plain_members :
    (convention : NamingConvention) (s s' : Settings) (ms : Members) (json : Json)
    → all_plain ms ≡ true
    → members_to_json convention s ms json ≡ members_to_json convention s' ms json
unfolding members_to_json all_plain
plain_members convention s s' end json h = refl
plain_members convention s s' (member name true v rest) json h =
    plain_members convention s s' rest json h
plain_members convention s s' (member name false v rest) json h =
    let behind = (to_json s' v).1 in
    plain_members convention (to_json s v).1 behind rest
      (emplace (convert_naming_convention name convention) (to_json s v).0 json)
      (both (is_plain v) (all_plain rest) h).1
    ∙ ap
        (λ sub.
          members_to_json convention behind rest
            (emplace (convert_naming_convention name convention) sub json))
        (plain_json s s' v (both (is_plain v) (all_plain rest) h).0)

-- Behind a value that is no object the settings stay, and behind an object they do not matter.
settings_matter_not :
    (convention : NamingConvention) (s : Settings) (v : Value) (rest : Members) (json : Json)
    → not (has_object v) || all_plain rest ≡ true
    → members_to_json convention (to_json s v).1 rest json ≡ members_to_json convention s rest json
settings_matter_not convention s v rest json h = elim (Bool-cases (has_object v)) [
  | inl o ↦ plain_members convention (to_json s v).1 s rest json (ground (arith, h, o))
  | inr o ↦ ap (λ s'. members_to_json convention s' rest json) (settings_behind s v ∙ rw o refl)
]

elements_matter_not :
    (keyed : Bool) (s : Settings) (v : Value) (rest : Elements) (json : Json)
    → not (has_object v) || elements_plain rest ≡ true
    → (elements_to_json keyed (to_json s v).1 rest json).0 ≡ (elements_to_json keyed s rest json).0
elements_matter_not keyed s v rest json h = elim (Bool-cases (has_object v)) [
  | inl o ↦ plain_elements keyed (to_json s v).1 s rest json (ground (arith, h, o))
  | inr o ↦ ap (λ s'. (elements_to_json keyed s' rest json).0) (settings_behind s v ∙ rw o refl)
]

mutual
  unfolding to_json members_to_json elements_to_json scoped_json scoped_members scoped_elements
      ordered members_ordered elements_ordered

  value-scoped_json :
      (s : Settings) (v : Value) → ordered v ≡ true → (to_json s v).0 ≡ scoped_json s v
  value-scoped_json s (number n) h = refl
  value-scoped_json s (enumeration n name) h = refl
  value-scoped_json s absent h = refl
  value-scoped_json s (present v) h = value-scoped_json s v h
  value-scoped_json s (object config members) h =
      members_to_json-scoped_members config.naming_convention config members null h
  value-scoped_json s (range elements) h =
      elements_to_json-scoped_elements false s elements (array no_items) h
  value-scoped_json s (dictionary elements) h =
      elements_to_json-scoped_elements true s elements (obj nothing) h

  members_to_json-scoped_members :
      (convention : NamingConvention) (s : Settings) (ms : Members) (json : Json)
      → members_ordered ms ≡ true
      → members_to_json convention s ms json ≡ scoped_members convention s ms json
  members_to_json-scoped_members convention s end json h = refl
  members_to_json-scoped_members convention s (member name true v rest) json h =
      members_to_json-scoped_members convention s rest json h
  members_to_json-scoped_members convention s (member name false v rest) json h =
      let (first, others) =
        both (ordered v && (not (has_object v) || all_plain rest)) (members_ordered rest) h in
      let (inside, behind) = both (ordered v) (not (has_object v) || all_plain rest) first in
      settings_matter_not convention s v rest
        (emplace (convert_naming_convention name convention) (to_json s v).0 json) behind
      ∙ ap
          (λ sub.
            members_to_json convention s rest
              (emplace (convert_naming_convention name convention) sub json))
          (value-scoped_json s v inside)
      ∙ members_to_json-scoped_members convention s rest
          (emplace (convert_naming_convention name convention) (scoped_json s v) json) others

  elements_to_json-scoped_elements :
      (keyed : Bool) (s : Settings) (es : Elements) (json : Json)
      → elements_ordered es ≡ true
      → (elements_to_json keyed s es json).0 ≡ scoped_elements keyed s es json
  elements_to_json-scoped_elements keyed s last json h = refl
  elements_to_json-scoped_elements keyed s (element key v rest) json h =
      let (first, others) =
        both (ordered v && (not (has_object v) || elements_plain rest)) (elements_ordered rest) h in
      let (inside, behind) = both (ordered v) (not (has_object v) || elements_plain rest) first in
      elements_matter_not keyed s v rest (put keyed key (to_json s v).0 json) behind
      ∙ ap (λ sub. (elements_to_json keyed s rest (put keyed key sub json)).0)
          (value-scoped_json s v inside)
      ∙ elements_to_json-scoped_elements keyed s rest (put keyed key (scoped_json s v) json) others

-- Where no enumeration stands behind a member or an element that is or has an object, a value is serialized as if every
-- member had the settings of the class that declares it, and every element those of its range or map.
pub to_json-scoped_json :
    (s : Settings) (v : Value) → ordered v ≡ true → (to_json s v).0 ≡ scoped_json s v
to_json-scoped_json s v h = value-scoped_json s v h
