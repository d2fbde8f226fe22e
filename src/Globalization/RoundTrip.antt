-- ===== src/Globalization/RoundTrip.antt =====
-- What the compiler writes, the translator reads.
use cpp_essence.Prelude.{
  suc, ◌+◌, ◌≡◌, refl, sym, ap, ap₂, codes, ◌∙◌, false, ◌||◌, [], ◌∷◌, ◌++◌, Option, none, some,
  arith, ◌==◌, if◌then◌else◌, drop, length, Bytes, All, append_assoc, append-nil, take-append,
  equal, find, insert_or_assign, find-insert_or_assign,
}
use cpp_essence.Cli.Matching.{find_char}
use cpp_essence.Globalization.{
  Json, TextMap, get_key_value_pairs, write_pairs, to_bytes, ok, chunks, read_chunk, read_chunks,
  parse_language_file, get_text, language_key_value_delimiter, language_key_value_terminator,
}

-- Texts that the file can hold: no delimiter in a key, no terminator anywhere.
abbrev pub IsKey : Bytes → Type 0
IsKey = All (λ c. (c == language_key_value_delimiter || c == language_key_value_terminator) ≡ false)

abbrev pub IsText : Bytes → Type 0
IsText = All (λ c. (c == language_key_value_terminator) ≡ false)

abbrev pub IsStorable : TextMap → Type 0
IsStorable = All (λ (e : Bytes × Bytes). IsKey e.0 × IsText e.1)

abbrev chunk_of : Bytes → Bytes → Bytes
chunk_of key value = key ++ (language_key_value_delimiter ∷ value)

abbrev written : TextMap → Bytes
written [] = []
written ((key, value) ∷ rest) = chunk_of key value ++ (language_key_value_terminator ∷ written rest)

write_pairs-written :
    (pairs : TextMap) (result : Bytes) → write_pairs result pairs ≡ result ++ written pairs
unfolding write_pairs
write_pairs-written [] result = sym (append-nil result)
write_pairs-written ((key, value) ∷ rest) result = write_pairs-written rest _ ∙ simp append_assoc

chunks-append :
    (s rest : Bytes)
    → IsText s
    → chunks (s ++ language_key_value_terminator ∷ rest) ≡ s ∷ chunks rest
unfolding chunks
chunks-append [] rest h = refl
chunks-append (c ∷ s) rest (h, k) = rw (h, chunks-append s rest k) refl

IsText-chunk_of : (key value : Bytes) → IsKey key → IsText value → IsText (chunk_of key value)
IsText-chunk_of [] value h k = (refl, k)
IsText-chunk_of (c ∷ key) value (h, hs) k = (ground arith, IsText-chunk_of key value hs k)

find_char-key :
    (key value : Bytes)
    → IsKey key
    → find_char language_key_value_delimiter (chunk_of key value) ≡ some (length key)
unfolding find_char
find_char-key [] value h = refl
find_char-key (c ∷ key) value (h, k) = ground (arith, find_char-key key value k)

drop_one : (key value : Bytes) → drop (suc (length key)) (chunk_of key value) ≡ value
drop_one [] value = refl
drop_one (c ∷ key) value = drop_one key value

value_behind : (key value : Bytes) → drop (length key + 1) (chunk_of key value) ≡ value
value_behind key value =
    let e : length key + 1 ≡ suc (length key) = omega arith in rw e (drop_one key value)

read_chunk-chunk_of :
    (key value : Bytes) (entries : TextMap)
    → IsKey key
    → read_chunk (chunk_of key value) entries ≡ insert_or_assign key value entries
unfolding read_chunk
read_chunk-chunk_of key value entries h =
    rw (find_char-key key value h, read_chunk)
      (ap₂ (λ k v. insert_or_assign k v entries) (take-append key _) (value_behind key value))

-- The pairs put into a map one after another.
abbrev pub insert_all : TextMap → TextMap → TextMap
insert_all [] entries = entries
insert_all ((key, value) ∷ rest) entries = insert_all rest (insert_or_assign key value entries)

read_chunks-written :
    (pairs entries : TextMap)
    → IsStorable pairs
    → read_chunks (chunks (written pairs)) entries ≡ insert_all pairs entries
unfolding read_chunks
read_chunks-written [] entries h = unfold chunks in refl
read_chunks-written ((key, value) ∷ rest) entries ((hk, hv), h) =
    ap (λ cs. read_chunks cs entries)
      (chunks-append (chunk_of key value) (written rest) (IsText-chunk_of key value hk hv))
    ∙ ap (read_chunks (chunks (written rest))) (read_chunk-chunk_of key value entries hk)
    ∙ read_chunks-written rest (insert_or_assign key value entries) h

parse-written :
    (pairs : TextMap)
    → IsStorable pairs
    → parse_language_file (codes "MISC LANG" ++ (1 ∷ 0 ∷ []) ++ written pairs)
      ≡ ok (insert_all pairs [])
unfolding parse_language_file
parse-written pairs h = ap ok (read_chunks-written pairs [] h)

-- The value of the last pair with this key.
abbrev later : Option Bytes → Bytes → Bytes → Bytes → Option Bytes
later (some v) key value name = some v
later none key value name = if equal key name then some value else none

abbrev pub last_value : TextMap → Bytes → Option Bytes
last_value [] name = none
last_value ((key, value) ∷ rest) name = later (last_value rest name) key value name

abbrev over : Option Bytes → Option Bytes → Option Bytes
over none o = o
over (some v) o = some v

find-insert_all :
    (pairs entries : TextMap) (name : Bytes)
    → find name (insert_all pairs entries) ≡ over (last_value pairs name) (find name entries)
find-insert_all [] entries name = refl
find-insert_all ((key, value) ∷ rest) entries name = ground (
  arith,
  find-insert_all rest (insert_or_assign key value entries) name,
  find-insert_or_assign key name value entries,
)

find-nil : (name : Bytes) → find {V = Bytes} name [] ≡ none
unfolding find
find-nil name = refl

abbrev pub or_name : Option Bytes → Bytes → Bytes
or_name none name = name
or_name (some value) name = value

-- The translator reads every file that the compiler writes for texts that the format can hold, and
-- then answers each name with the last text that the object has for it, or with the name.
pub get_text-to_bytes :
    (json : Json)
    → IsStorable (get_key_value_pairs json)
    → (entries : TextMap) × (parse_language_file (to_bytes json) ≡ ok entries)
      × ((name : Bytes)
          → get_text entries name ≡ or_name (last_value (get_key_value_pairs json) name) name)
unfolding to_bytes get_text
get_text-to_bytes json h = (
  insert_all (get_key_value_pairs json) [],
  ap parse_language_file (write_pairs-written (get_key_value_pairs json) _)
      ∙ parse-written (get_key_value_pairs json) h,
  λ name. ground (arith, find-insert_all (get_key_value_pairs json) [] name, find-nil name),
)
