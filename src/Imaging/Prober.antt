-- ===== src/Imaging/Prober.antt =====
-- `image_prober` of src/imaging/image_prober.cpp, on a buffer. `hints` are those of all extractors,
-- the extra ones too, in the order of the judger; `extractors` are the registered ones alone, which
-- is what the constructor keeps.
pub mod Extractors
use cpp_essence.Prelude.{List, [], ◌∷◌, Option, none, some, length, Bytes, find, insert_or_assign}
use cpp_essence.Imaging.{ImageGeneralHeader, Extraction, no_header, out_of_range, header}
use cpp_essence.Io.TypeJudger.{BitstreamTypeHint, identify}

pub record ImageHeaderExtractor : Type 0 where
  pub hint : BitstreamTypeHint
  pub get : Bytes → Extraction

-- The loop of the constructor.
unfoldable pub add_extractors :
    List ImageHeaderExtractor
    → List (Bytes × ImageHeaderExtractor)
    → List (Bytes × ImageHeaderExtractor)
add_extractors [] mapping = mapping
add_extractors (item ∷ rest) mapping =
    add_extractors rest (insert_or_assign item.hint.name item mapping)

-- `extract_header_impl`.
unfoldable pub extract_header_impl :
    List BitstreamTypeHint → List ImageHeaderExtractor → Bytes → Extraction
unfolding add_extractors
extract_header_impl hints extractors buffer = elim (identify hints buffer) [
  | none ↦ no_header
  | some hint ↦ elim (find hint.name (add_extractors extractors [])) [
    | none ↦ no_header
    | some item ↦ item.get buffer
  ]
]

abbrev pub with_bytes : Bytes → Extraction → Extraction
with_bytes buffer no_header = no_header
with_bytes buffer out_of_range = out_of_range
with_bytes buffer (header h) = header (record h { bytes = length buffer })

unfoldable pub extract_header :
    List BitstreamTypeHint → List ImageHeaderExtractor → Bytes → Extraction
extract_header hints extractors buffer =
    with_bytes buffer (extract_header_impl hints extractors buffer)
