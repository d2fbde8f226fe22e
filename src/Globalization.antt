-- ===== src/Globalization.antt =====
-- Language files: src/globalization. A JSON object is the list of its items; the file system and the
-- joining of paths are parameters.
pub mod RoundTrip
pub mod Switching
use cpp_essence.Prelude.{
  ℕ, ◌+◌, Bool, ◌&&◌, ◌||◌, not, true, false, List, [], ◌∷◌, ◌++◌, Option, none, some, ltb, ◌==◌,
  if◌then◌else◌, length, take, drop, Bytes, codes, equal, find, insert_or_assign,
}
use cpp_essence.Cli.Matching.{find_char}

abbrev pub language_key_value_delimiter : ℕ
language_key_value_delimiter = 0x1e

abbrev pub language_key_value_terminator : ℕ
language_key_value_terminator = 0x1f

abbrev pub language_file_magic_flag : Bytes
language_file_magic_flag = codes "MISC LANG"

abbrev pub language_file_version : Bytes
language_file_version = 1 ∷ 0 ∷ []

pub data JsonValue : Type 0 where
  text : Bytes → JsonValue
  other : JsonValue

abbrev pub Json : Type 0
Json = List (Bytes × JsonValue)

abbrev pub TextMap : Type 0
TextMap = List (Bytes × Bytes)

-- `get_key_value_pairs`: the items whose values are strings.
unfoldable pub get_key_value_pairs : Json → TextMap
get_key_value_pairs [] = []
get_key_value_pairs ((key, text value) ∷ rest) = (key, value) ∷ get_key_value_pairs rest
get_key_value_pairs ((key, other) ∷ rest) = get_key_value_pairs rest

-- The loop of `to_bytes`, which appends to `result`.
unfoldable pub write_pairs : Bytes → TextMap → Bytes
write_pairs result [] = result
write_pairs result ((key, value) ∷ rest) =
    write_pairs
      (result
        ++ key
        ++ language_key_value_delimiter ∷ []
        ++ value
        ++ language_key_value_terminator ∷ [])
      rest

unfoldable pub to_bytes : Json → Bytes
unfolding get_key_value_pairs write_pairs
to_bytes json =
    write_pairs (language_file_magic_flag ++ language_file_version) (get_key_value_pairs json)

pub data LoadError : Type 0 where
  file_does_not_exist failed_to_open invalid_magic_flag invalid_file_version : LoadError

pub data Result {ℓ} (A : Type ℓ) : Type ℓ where
  ok : A → Result A
  err : LoadError → Result A

-- `std::getline` until it fails: the text between terminators, and what is left at the end unless
-- it is empty.
abbrev pub lengthen : ℕ → List Bytes → List Bytes
lengthen c [] = (c ∷ []) ∷ []
lengthen c (chunk ∷ rest) = (c ∷ chunk) ∷ rest

unfoldable pub chunks : Bytes → List Bytes
chunks [] = []
chunks (c ∷ s) =
    let rest = chunks s in if c == language_key_value_terminator then [] ∷ rest else lengthen c rest

-- One chunk: the key and the value, if there is a delimiter.
unfoldable pub read_chunk : Bytes → TextMap → TextMap
unfolding find_char
read_chunk chunk entries = elim (find_char language_key_value_delimiter chunk) [
  | none ↦ entries
  | some key_size ↦ insert_or_assign (take key_size chunk) (drop (key_size + 1) chunk) entries
]

unfoldable pub read_chunks : List Bytes → TextMap → TextMap
read_chunks [] entries = entries
read_chunks (chunk ∷ rest) entries = read_chunks rest (read_chunk chunk entries)

-- `parse_language_file`, on what the stream holds: a read of fewer bytes than asked for, or of
-- others, is an error.
unfoldable pub parse_language_file : Bytes → Result TextMap
unfolding chunks read_chunks equal
parse_language_file stream =
    let version = drop (length language_file_magic_flag) stream in
    if not (equal (take (length language_file_magic_flag) stream) language_file_magic_flag)
    then err invalid_magic_flag
    else if not (equal (take (length language_file_version) version) language_file_version)
    then err invalid_file_version
    else ok (read_chunks (chunks (drop (length language_file_version) version)) [])

-- `get_text`: the text of the name, or the name.
unfoldable pub get_text : TextMap → Bytes → Bytes
get_text entries name = elim (find name entries) [ none ↦ name | some value ↦ value ]

-- The file system, and how a directory and a language make a path.
pub record VirtualFsOperator : Type 0 where
  pub exists : Bytes → Bool
  pub open_read : Bytes → Option Bytes
  pub language_path : Bytes → Bytes → Bytes

-- `immutable_translator`.
pub record Translator : Type 0 where
  pub fs : VirtualFsOperator
  pub working_directory : Bytes
  pub language : Bytes
  pub entries : TextMap

abbrev pub constructed : VirtualFsOperator → Bytes → Bytes → Result TextMap → Result Translator
constructed fs directory language (err e) = err e
constructed fs directory language (ok entries) =
    ok (record { fs = fs; working_directory = directory; language = language; entries = entries })

abbrev pub opened : VirtualFsOperator → Bytes → Bytes → Option Bytes → Result Translator
opened fs directory language none = err failed_to_open
opened fs directory language (some stream) =
    constructed fs directory language (parse_language_file stream)

-- The constructor of `immutable_translator`.
unfoldable pub load : VirtualFsOperator → Bytes → Bytes → Result Translator
load fs directory language =
    if not (fs.exists (fs.language_path directory language))
    then err file_does_not_exist
    else opened fs directory language (fs.open_read (fs.language_path directory language))

-- `default_translator::update`: the new object is made before the old one is replaced. The call
-- answers with the error that it throws, if any.
abbrev pub replaced : Translator → Result Translator → Translator × Option LoadError
replaced t (ok u) = (u, none)
replaced t (err e) = (t, some e)

unfoldable pub update :
    VirtualFsOperator → Bytes → Bytes → Translator → Translator × Option LoadError
update fs directory language t = replaced t (load fs directory language)

unfoldable pub set_virtual_fs : VirtualFsOperator → Translator → Translator × Option LoadError
set_virtual_fs fs t = update fs t.working_directory t.language t

unfoldable pub set_working_directory : Bytes → Translator → Translator × Option LoadError
set_working_directory directory t = update t.fs directory t.language t

unfoldable pub set_language : Bytes → Translator → Translator × Option LoadError
set_language name t = update t.fs t.working_directory name t
