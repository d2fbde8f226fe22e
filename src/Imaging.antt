-- ===== src/Imaging.antt =====
-- Image headers in a buffer: src/imaging/image_header_extractor_impl.hpp, png.cpp, bmp.cpp and
-- jfif.cpp. Bytes are numbers below 256, and an `std::int32_t` of a header is its 32-bit pattern.
pub mod Headers
pub mod Prober
use cpp_essence.Prelude.{
  ℕ, suc, ◌+◌, ◌-◌, ◌*◌, ◌/◌, ◌%◌, ◌^◌, Bool, ◌&&◌, ◌||◌, not, true, false, List, [], ◌∷◌, ◌++◌,
  map, Option, none, some, leb, ltb, ◌==◌, if◌then◌else◌, length, drop, take, Bytes, codes, equal,
  starts_with, find, insert_or_assign, get_elem?,
}

pub record ImageGeneralHeader : Type 0 where
  pub width : ℕ
  pub height : ℕ
  pub bits_per_pixel : ℕ
  pub channels : ℕ
  pub bytes : ℕ

-- What an extractor makes of a buffer; `out_of_range` is a read past the end of the span.
pub data Extraction : Type 0 where
  no_header : Extraction
  out_of_range : Extraction
  header : ImageGeneralHeader → Extraction

-- `std::string_view::find`: the first place at or behind `pos` where the signature stands.
unfoldable pub find_signature : Bytes → Bytes → Option ℕ
find_signature signature [] = elim (starts_with [] signature) [ true ↦ some 0 | false ↦ none ]
find_signature signature (c ∷ s) = elim (starts_with (c ∷ s) signature) [
  | true ↦ some 0
  | false ↦ elim (find_signature signature s) [ none ↦ none | some i ↦ some (suc i) ]
]

abbrev plus : ℕ → Option ℕ → Option ℕ
plus n none = none
plus n (some i) = some (n + i)

unfoldable pub find_signature_from : Bytes → ℕ → Bytes → Option ℕ
unfolding find_signature starts_with
find_signature_from signature pos s =
    if leb pos (length s) then plus pos (find_signature signature (drop pos s)) else none

-- `image_header_extractor_impl::get` on a buffer; the empty span where nothing is found.
unfoldable pub get_content : ℕ → Bytes → ℕ → Bytes → Bytes
unfolding find_signature_from
get_content needed_size signature bytes_to_be_skipped buffer =
    elim (find_signature_from signature bytes_to_be_skipped buffer) [
      | none ↦ []
      | some index ↦
          if ltb needed_size (length buffer - index)
          then drop (index + length signature) buffer
          else []
    ]

abbrev be32 : ℕ → ℕ → ℕ → ℕ → ℕ
be32 a b c d = (a * 2 ^ 24 + b * 2 ^ 16 + c * 2 ^ 8 + d) % 2 ^ 32

abbrev pub png_leading_signature : Bytes
png_leading_signature = 137 ∷ 80 ∷ 78 ∷ 71 ∷ 13 ∷ 10 ∷ 26 ∷ 10 ∷ []

abbrev pub png_ihdr_signature : Bytes
png_ihdr_signature = 73 ∷ 72 ∷ 68 ∷ 82 ∷ []

abbrev pub png_ihdr_needed_size : ℕ
png_ihdr_needed_size = 9

-- `extract_header` of png.cpp.
unfoldable pub extract_png_header : Bytes → Extraction
extract_png_header [] = no_header
extract_png_header (b0 ∷ b1 ∷ b2 ∷ b3 ∷ b4 ∷ b5 ∷ b6 ∷ b7 ∷ b8 ∷ rest) = header (record {
  width = be32 b0 b1 b2 b3;
  height = be32 b4 b5 b6 b7;
  bits_per_pixel = b8;
  channels = b8 / 8;
  bytes = 0;
})
extract_png_header (b0 ∷ rest) = out_of_range

unfoldable pub png_get : Bytes → Extraction
unfolding get_content extract_png_header
png_get buffer = extract_png_header (get_content png_ihdr_needed_size png_ihdr_signature 0 buffer)

abbrev pub bmp_leading_signature : Bytes
bmp_leading_signature = codes "BM"

abbrev pub bmp_info_header_signature : Bytes
bmp_info_header_signature = 0x28 ∷ 0 ∷ 0 ∷ 0 ∷ []

abbrev pub bmp_bytes_to_be_skipped : ℕ
bmp_bytes_to_be_skipped = 12

abbrev pub bmp_info_header_needed_size : ℕ
bmp_info_header_needed_size = 12

-- `extract_header` of bmp.cpp: little-endian, and bytes 8 and 9 are not read.
unfoldable pub extract_bmp_header : Bytes → Extraction
extract_bmp_header [] = no_header
extract_bmp_header (b0 ∷ b1 ∷ b2 ∷ b3 ∷ b4 ∷ b5 ∷ b6 ∷ b7 ∷ b8 ∷ b9 ∷ b10 ∷ b11 ∷ rest) =
    header (record {
      width = be32 b3 b2 b1 b0;
      height = be32 b7 b6 b5 b4;
      bits_per_pixel = b10 + b11 * 2 ^ 8;
      channels = (b10 + b11 * 2 ^ 8) / 8;
      bytes = 0;
    })
extract_bmp_header (b0 ∷ rest) = out_of_range

unfoldable pub bmp_get : Bytes → Extraction
unfolding get_content extract_bmp_header
bmp_get buffer = extract_bmp_header (
    get_content bmp_info_header_needed_size bmp_info_header_signature bmp_bytes_to_be_skipped
      buffer)

abbrev pub jfif_leading_signature : Bytes
jfif_leading_signature = 0xff ∷ 0xd8 ∷ []

abbrev pub jfif_trailing_signature : Bytes
jfif_trailing_signature = 0xff ∷ 0xd9 ∷ []

abbrev pub jfif_sof0_signature : Bytes
jfif_sof0_signature = 0xff ∷ 0xc0 ∷ []

abbrev pub jfif_sof0_needed_size : ℕ
jfif_sof0_needed_size = 8

-- `extract_header` of jfif.cpp.
unfoldable pub extract_jfif_header : Bytes → Extraction
extract_jfif_header [] = no_header
extract_jfif_header (b0 ∷ b1 ∷ b2 ∷ b3 ∷ b4 ∷ b5 ∷ b6 ∷ b7 ∷ rest) = header (record {
  width = b5 * 2 ^ 8 + b6;
  height = b3 * 2 ^ 8 + b4;
  bits_per_pixel = b2;
  channels = b7;
  bytes = 0;
})
extract_jfif_header (b0 ∷ rest) = out_of_range

unfoldable pub jfif_get : Bytes → Extraction
unfolding get_content extract_jfif_header
jfif_get buffer =
    extract_jfif_header (get_content jfif_sof0_needed_size jfif_sof0_signature 0 buffer)
