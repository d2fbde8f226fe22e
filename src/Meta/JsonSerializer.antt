-- ===== src/Meta/JsonSerializer.antt =====
-- `json_serializer::to_json` of include/essence/meta/runtime/json_serializer.hpp. An
-- exception of a member is not modelled.
pub mod Ordered
pub mod Numbered
pub mod Scoped
use cpp_essence.Meta.NamingConvention.{NamingConvention, snake_case, convert_naming_convention}
use cpp_essence.Prelude.{ℕ, Bool, true, false, ◌||◌, if◌then◌else◌, Bytes, equal}

-- What the thread keeps while it serializes: whether enumerations become texts, and the convention.
pub record Settings : Type 0 where
  pub enum_to_string : Bool
  pub naming_convention : NamingConvention

mutual
  -- An enumeration has its number and its name. A class has settings of its own. A range and a map of
  -- values are what the JSON library iterates over.
  pub data Value : Type 0 where
    number : ℕ → Value
    enumeration : ℕ → Bytes → Value
    absent : Value
    present : Value → Value
    object : Settings → Members → Value
    range : Elements → Value
    dictionary : Elements → Value

  -- A member has its raw name, and may be omitted from JSON.
  pub data Members : Type 0 where
    end : Members
    member : Bytes → Bool → Value → Members → Members

  -- An element has its key in a map. In a range the key is not read.
  pub data Elements : Type 0 where
    last : Elements
    element : Bytes → Value → Elements → Elements

mutual
  pub data Json : Type 0 where
    null : Json
    num : ℕ → Json
    text : Bytes → Json
    obj : Fields → Json
    array : Items → Json

  pub data Items : Type 0 where
    no_items : Items
    item : Json → Items → Items

  pub data Fields : Type 0 where
    nothing : Fields
    field : Bytes → Json → Fields → Fields

-- `json.emplace`: a name that is there keeps its value, and null becomes an object.
unfoldable pub emplace_field : Bytes → Json → Fields → Fields
emplace_field name sub nothing = field name sub nothing
emplace_field name sub (field n j rest) =
    let more = emplace_field name sub rest in
    if equal name n then field n j rest else field n j more

unfoldable pub emplace : Bytes → Json → Json → Json
unfolding emplace_field
emplace name sub null = obj (field name sub nothing)
emplace name sub (obj fields) = obj (emplace_field name sub fields)
emplace name sub (num n) = num n
emplace name sub (text t) = text t
emplace name sub (array items) = array items

-- The JSON library puts an element behind those of an array, or under its key into an object.
unfoldable pub push_item : Json → Items → Items
push_item sub no_items = item sub no_items
push_item sub (item j rest) = item j (push_item sub rest)

unfoldable pub put : Bool → Bytes → Json → Json → Json
unfolding emplace push_item
put true key sub json = emplace key sub json
put false key sub (array items) = array (push_item sub items)
put false key sub json = json

-- The settings behind `reset`.
abbrev pub reset : Settings
reset = record { enum_to_string = false; naming_convention = snake_case }

abbrev pub enumeration_json : Settings → ℕ → Bytes → Json
enumeration_json s n name =
    if s.enum_to_string then text (convert_naming_convention name s.naming_convention) else num n

-- The JSON, and the settings of the thread behind it.
unfoldable mutual
  pub to_json : Settings → Value → Json × Settings
  to_json s (number n) = (num n, s)
  to_json s (enumeration n name) = (enumeration_json s n name, s)
  to_json s absent = (null, s)
  to_json s (present v) = to_json s v
  to_json s (object config members) =
      (members_to_json config.naming_convention config members null, reset)
  to_json s (range elements) = elements_to_json false s elements (array no_items)
  to_json s (dictionary elements) = elements_to_json true s elements (obj nothing)

  -- The members one after another, with the settings that the one before leaves. What the last one
  -- leaves is reset.
  pub members_to_json : NamingConvention → Settings → Members → Json → Json
  members_to_json convention s end json = json
  members_to_json convention s (member name omitted v rest) json =
      let (sub, s') = to_json s v in
      let left_out = members_to_json convention s rest json in
      let put_in =
        members_to_json convention s' rest
          (emplace (convert_naming_convention name convention) sub json) in
      if omitted then left_out else put_in

  -- The JSON library serializes the elements one after another by the same serializer, with the
  -- settings that the one before leaves.
  pub elements_to_json : Bool → Settings → Elements → Json → Json × Settings
  elements_to_json keyed s last json = (json, s)
  elements_to_json keyed s (element key v rest) json =
      let (sub, s') = to_json s v in elements_to_json keyed s' rest (put keyed key sub json)
