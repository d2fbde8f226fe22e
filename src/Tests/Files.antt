-- ===== src/Tests/Files.antt =====
-- Language files and image files.
use cpp_essence.Prelude.{◌≡◌, refl, true, [], ◌∷◌, ◌++◌, some, Bytes, codes}
use cpp_essence.Globalization.{
  Json, text, other, TextMap, get_key_value_pairs, to_bytes, ok, parse_language_file, get_text,
  VirtualFsOperator, Translator,
}
use cpp_essence.Globalization.RoundTrip.{IsStorable, last_value, or_name, get_text-to_bytes}

abbrev greetings : Json
greetings = (codes "hi", text (codes "hallo")) ∷ (codes "n", other) ∷ []

greetings-IsStorable : IsStorable (get_key_value_pairs greetings)
unfolding get_key_value_pairs
greetings-IsStorable = (((refl, (refl, tt)), (refl, (refl, (refl, (refl, (refl, tt)))))), tt)

get_text-to_bytes_example :
    (entries : TextMap) × (parse_language_file (to_bytes greetings) ≡ ok entries)
    × ((name : Bytes)
        → get_text entries name ≡ or_name (last_value (get_key_value_pairs greetings) name) name)
get_text-to_bytes_example = get_text-to_bytes greetings greetings-IsStorable

abbrev disk : VirtualFsOperator
disk = record {
  exists = λ path. true;
  open_read = λ path. some (to_bytes greetings);
  language_path = λ directory language. directory ++ (b'/' ∷ language ++ codes ".lang");
}

abbrev english : Translator
english = record {
  fs = disk;
  working_directory = codes "lang";
  language = codes "en-US";
  entries = [];
}
