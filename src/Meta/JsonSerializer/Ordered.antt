-- ===== src/Meta/JsonSerializer/Ordered.antt =====
-- Where the settings of a class last for all its enumerations.
use cpp_essence.Prelude.{Bool, true, false, ◌&&◌, ◌||◌, not}
use cpp_essence.Meta.JsonSerializer.{
  Value, number, enumeration, absent, present, object, range, dictionary, Members, end, member,
  Elements, last, element,
}

-- Whether there is an object, be it in an optional or in a range or a map.
unfoldable mutual
  pub has_object : Value → Bool
  has_object (number n) = false
  has_object (enumeration n name) = false
  has_object absent = false
  has_object (present v) = has_object v
  has_object (object config members) = true
  has_object (range elements) = any_object elements
  has_object (dictionary elements) = any_object elements

  pub any_object : Elements → Bool
  any_object last = false
  any_object (element key v rest) = has_object v || any_object rest

-- Whether the value is no enumeration and has none in an optional, a range or a map. (The members of
-- an object have settings of their own.)
unfoldable mutual
  pub is_plain : Value → Bool
  is_plain (number n) = true
  is_plain (enumeration n name) = false
  is_plain absent = true
  is_plain (present v) = is_plain v
  is_plain (object config members) = true
  is_plain (range elements) = elements_plain elements
  is_plain (dictionary elements) = elements_plain elements

  pub elements_plain : Elements → Bool
  elements_plain last = true
  elements_plain (element key v rest) = is_plain v && elements_plain rest

unfoldable pub all_plain : Members → Bool
unfolding is_plain
all_plain end = true
all_plain (member name omitted v rest) = (omitted || is_plain v) && all_plain rest

-- In every object, and in every range and map, no enumeration stands behind a member or element that
-- is or has an object.
unfoldable mutual
  unfolding has_object elements_plain all_plain

  pub ordered : Value → Bool
  ordered (number n) = true
  ordered (enumeration n name) = true
  ordered absent = true
  ordered (present v) = ordered v
  ordered (object config members) = members_ordered members
  ordered (range elements) = elements_ordered elements
  ordered (dictionary elements) = elements_ordered elements

  pub members_ordered : Members → Bool
  members_ordered end = true
  members_ordered (member name omitted v rest) =
      (omitted || ordered v && (not (has_object v) || all_plain rest)) && members_ordered rest

  pub elements_ordered : Elements → Bool
  elements_ordered last = true
  elements_ordered (element key v rest) =
      (ordered v && (not (has_object v) || elements_plain rest)) && elements_ordered rest
