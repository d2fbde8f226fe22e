-- ===== src/Tests/Serializer.antt =====
-- Names in two conventions, and a class with an enumeration and a nested object, in both orders.
use cpp_essence.Prelude.{[], ◌≡◌, refl, true, false, codes, equal}
use cpp_essence.Text.{is_upper, is_lower, to_lower, to_upper}
use cpp_essence.Meta.NamingConvention.{
  camel_case, pascal_case, snake_case, capitalize, erase_underscores, camelize_or_pascalize,
  convert_naming_convention,
}
use cpp_essence.Meta.NamingConvention.RoundTrip.{is_snake, convert_naming_convention-snake_case}
use cpp_essence.Meta.JsonSerializer.{
  Settings, Value, Members, range, element, last, present, number, enumeration, object, end, member,
  num, text, obj, field, nothing, to_json, members_to_json, emplace, emplace_field,
}
use cpp_essence.Meta.JsonSerializer.Numbered.{append_member, to_json-numbered}
use cpp_essence.Meta.JsonSerializer.Ordered.{
  ordered, members_ordered, has_object, any_object, is_plain, all_plain,
}
use cpp_essence.Meta.JsonSerializer.Scoped.{scoped_json, to_json-scoped_json}

abbrev texts : Settings
texts = record { enum_to_string = true; naming_convention = camel_case }

abbrev point : Value
point = object texts (member (codes "x") false (number 5) end)

abbrev enumeration_first : Value
enumeration_first = object texts (
    member (codes "mode") false (enumeration 3 (codes "fast"))
      (member (codes "at") false point end))

enumeration_as_text :
    (to_json texts enumeration_first).0
    ≡ obj (
        field
          (codes "mode")
          (text (codes "fast"))
          (field (codes "at") (obj (field (codes "x") (num 5) nothing)) nothing))
unfolding convert_naming_convention camelize_or_pascalize capitalize erase_underscores is_upper
    is_lower to_lower to_upper to_json members_to_json emplace emplace_field equal
enumeration_as_text = refl

to_json-scoped_json_example :
    (to_json texts enumeration_first).0 ≡ scoped_json texts enumeration_first
unfolding ordered members_ordered has_object is_plain all_plain
to_json-scoped_json_example = to_json-scoped_json texts enumeration_first refl

-- Points in a range before an enumeration, and an optional enumeration before them.
abbrev points : Value
points = range (element [] point last)

abbrev after_points : Members
after_points = member (codes "mode") false (enumeration 3 (codes "fast")) end

abbrev before_points : Members
before_points = member (codes "kind") false (present (enumeration 1 (codes "one"))) end

to_json-numbered_example :
    to_json texts (object texts (append_member before_points (codes "at") points after_points))
    ≡ to_json texts (
        object texts (
          append_member before_points
            (codes "at")
            points
            (member (codes "mode") false (number 3) end)))
unfolding has_object any_object
to_json-numbered_example =
    to_json-numbered texts texts before_points (codes "at") points after_points refl

in_pascal_case : convert_naming_convention (codes "max_file_size") pascal_case ≡ codes "MaxFileSize"
unfolding convert_naming_convention camelize_or_pascalize capitalize erase_underscores is_lower
    to_upper
in_pascal_case = refl

convert_naming_convention-snake_case_example :
    convert_naming_convention
      (convert_naming_convention (codes "max_file_size") pascal_case)
      snake_case
    ≡ codes "max_file_size"
unfolding is_snake is_lower is_upper
convert_naming_convention-snake_case_example =
    convert_naming_convention-snake_case (codes "max_file_size") pascal_case refl
