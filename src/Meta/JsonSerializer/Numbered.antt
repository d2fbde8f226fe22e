-- ===== src/Meta/JsonSerializer/Numbered.antt =====
-- What becomes of enumerations behind a member that is an object.
use cpp_essence.Meta.NamingConvention.{NamingConvention, convert_naming_convention}
use cpp_essence.Prelude.{Bool, true, false, if◌then◌else◌, Bytes, ◌≡◌, refl, sym, ap, ◌∙◌}
use cpp_essence.Meta.JsonSerializer.{
  Settings, Value, number, enumeration, absent, present, object, range, dictionary, Members, end,
  member, Elements, last, element, Json, null, obj, nothing, array, no_items, put, emplace, reset,
  to_json, members_to_json, elements_to_json,
}
use cpp_essence.Meta.JsonSerializer.Ordered.{has_object}
use cpp_essence.Meta.JsonSerializer.Scoped.{settings_behind}

-- A value with numbers for its enumerations, but for those inside an object.
abbrev mutual
  pub numbered : Value → Value
  numbered (number n) = number n
  numbered (enumeration n name) = number n
  numbered absent = absent
  numbered (present v) = present (numbered v)
  numbered (object config members) = object config members
  numbered (range elements) = range (elements_numbered elements)
  numbered (dictionary elements) = dictionary (elements_numbered elements)

  pub elements_numbered : Elements → Elements
  elements_numbered last = last
  elements_numbered (element key v rest) = element key (numbered v) (elements_numbered rest)

abbrev pub members_numbered : Members → Members
members_numbered end = end
members_numbered (member name omitted v rest) =
    member name omitted (numbered v) (members_numbered rest)

-- Members, then one more, and the rest.
abbrev pub append_member : Members → Bytes → Value → Members → Members
append_member end name v rest = member name false v rest
append_member (member n omitted w more) name v rest =
    member n omitted w (append_member more name v rest)

-- Settings that are reset stay so.
stays_reset : (v : Value) → (to_json reset v).1 ≡ reset
stays_reset v = settings_behind reset v ∙ same (has_object v)
  where
    same : (b : Bool) → (if b then reset else reset) ≡ reset
    same true = refl
    same false = refl

mutual
  unfolding to_json elements_to_json

  numbered_json : (v : Value) → to_json reset (numbered v) ≡ to_json reset v
  numbered_json (number n) = refl
  numbered_json (enumeration n name) = refl
  numbered_json absent = refl
  numbered_json (present v) = numbered_json v
  numbered_json (object config members) = refl
  numbered_json (range elements) = numbered_elements_json false elements (array no_items)
  numbered_json (dictionary elements) = numbered_elements_json true elements (obj nothing)

  numbered_elements_json :
      (keyed : Bool) (es : Elements) (json : Json)
      → elements_to_json keyed reset (elements_numbered es) json
        ≡ elements_to_json keyed reset es json
  numbered_elements_json keyed last json = refl
  numbered_elements_json keyed (element key v rest) json =
      let sub = (to_json reset v).0 in
      ap
        (λ (p : Json × Settings).
          elements_to_json keyed p.1 (elements_numbered rest) (put keyed key p.0 json))
        (numbered_json v)
      ∙ ap (λ t. elements_to_json keyed t (elements_numbered rest) (put keyed key sub json))
          (stays_reset v)
      ∙ numbered_elements_json keyed rest (put keyed key sub json)
      ∙ ap (λ t. elements_to_json keyed t rest (put keyed key sub json)) (sym (stays_reset v))

-- Members under settings that are reset.
members_to_json-numbered :
    (convention : NamingConvention) (ms : Members) (json : Json)
    → members_to_json convention reset (members_numbered ms) json
      ≡ members_to_json convention reset ms json
unfolding members_to_json
members_to_json-numbered convention end json = refl
members_to_json-numbered convention (member name true v rest) json =
    members_to_json-numbered convention rest json
members_to_json-numbered convention (member name false v rest) json =
    let into = λ (sub : Json). emplace (convert_naming_convention name convention) sub json in
    ap (λ (p : Json × Settings). members_to_json convention p.1 (members_numbered rest) (into p.0))
      (numbered_json v)
    ∙ ap (λ t. members_to_json convention t (members_numbered rest) (into (to_json reset v).0))
        (stays_reset v)
    ∙ members_to_json-numbered convention rest (into (to_json reset v).0)
    ∙ ap (λ t. members_to_json convention t rest (into (to_json reset v).0)) (sym (stays_reset v))

append_member-numbered :
    (convention : NamingConvention) (s : Settings) (before : Members) (name : Bytes) (v : Value)
    (rest : Members) (json : Json)
    → has_object v ≡ true
    → members_to_json convention s (append_member before name v rest) json
      ≡ members_to_json convention s (append_member before name v (members_numbered rest)) json
unfolding members_to_json
append_member-numbered convention s end name v rest json h =
    let behind : (to_json s v).1 ≡ reset = settings_behind s v ∙ rw h refl in
    let put_in = emplace (convert_naming_convention name convention) (to_json s v).0 json in
    ap (λ t. members_to_json convention t rest put_in) behind
    ∙ sym (members_to_json-numbered convention rest put_in)
    ∙ ap (λ t. members_to_json convention t (members_numbered rest) put_in) (sym behind)
append_member-numbered convention s (member n true w more) name v rest json h =
    append_member-numbered convention s more name v rest json h
append_member-numbered convention s (member n false w more) name v rest json h =
    append_member-numbered convention (to_json s w).1 more name v rest
      (emplace (convert_naming_convention n convention) (to_json s w).0 json) h

-- Behind a member that is not omitted and is or has an object, whatever members stand before it, a
-- class is serialized as if all its enumerations were numbers, those in optionals, ranges and maps
-- too, whatever its settings say.
pub to_json-numbered :
    (s config : Settings) (before : Members) (name : Bytes) (v : Value) (rest : Members)
    → has_object v ≡ true
    → to_json s (object config (append_member before name v rest))
      ≡ to_json s (object config (append_member before name v (members_numbered rest)))
unfolding to_json
to_json-numbered s config before name v rest h =
    ap (λ json. (json, reset))
      (append_member-numbered config.naming_convention config before name v rest null h)
