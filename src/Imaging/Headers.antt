-- ===== src/Imaging/Headers.antt =====
-- Headers of whole files, and of files that are cut off.
use cpp_essence.Prelude.{
  ℕ, ◌+◌, ◌/◌, ◌%◌, ◌^◌, ◌<◌, ◌≤◌, ◌≡◌, refl, ap, ◌∙◌, [], ◌∷◌, ◌++◌, Bytes, length, arith, ltb,
  if◌then◌else◌,
}
use cpp_essence.Imaging.{
  no_header, out_of_range, header, get_content, extract_png_header, png_get, png_leading_signature,
  png_ihdr_signature, bmp_get, bmp_leading_signature, bmp_info_header_signature,
}

-- A number as four bytes, the high one first.
abbrev pub encode_be32 : ℕ → Bytes
encode_be32 n = (n / 2 ^ 24) ∷ (n / 2 ^ 16 % 256) ∷ (n / 2 ^ 8 % 256) ∷ (n % 256) ∷ []

-- The start of a PNG file: its signature, the length of the first chunk and the chunk's name.
abbrev pub png_start : Bytes
png_start = png_leading_signature ++ (0 ∷ 0 ∷ 0 ∷ 13 ∷ png_ihdr_signature)

abbrev pub png_file : ℕ → ℕ → ℕ → Bytes → Bytes
png_file width height depth rest =
    png_start ++ (encode_be32 width ++ (encode_be32 height ++ (depth ∷ rest)))

-- The size and the depth of every PNG file are found, for a width and a height below 2 ^ 32.
pub png_get_file :
    (width height depth : ℕ) (rest : Bytes)
    → width < 2 ^ 32
    → height < 2 ^ 32
    → png_get (png_file width height depth rest)
      ≡ header (record {
        width = width;
        height = height;
        bits_per_pixel = depth;
        channels = depth / 8;
        bytes = 0;
      })
unfolding png_get
png_get_file width height depth rest h k = ground arith

png_content :
    (t : Bytes)
    → get_content 9 png_ihdr_signature 0 (png_start ++ t) ≡ (if ltb 9 (4 + length t) then t else [])
unfolding get_content
png_content t = ground arith

extract_png_header-short :
    (t : Bytes) → 0 < length t → length t < 9 → extract_png_header t ≡ out_of_range
unfolding extract_png_header
extract_png_header-short [] h k = absurd (omega arith)
extract_png_header-short (a ∷ []) h k = refl
extract_png_header-short (a ∷ b ∷ []) h k = refl
extract_png_header-short (a ∷ b ∷ c ∷ []) h k = refl
extract_png_header-short (a ∷ b ∷ c ∷ d ∷ []) h k = refl
extract_png_header-short (a ∷ b ∷ c ∷ d ∷ e ∷ []) h k = refl
extract_png_header-short (a ∷ b ∷ c ∷ d ∷ e ∷ f ∷ []) h k = refl
extract_png_header-short (a ∷ b ∷ c ∷ d ∷ e ∷ f ∷ g ∷ []) h k = refl
extract_png_header-short (a ∷ b ∷ c ∷ d ∷ e ∷ f ∷ g ∷ i ∷ []) h k = refl
extract_png_header-short (a ∷ b ∷ c ∷ d ∷ e ∷ f ∷ g ∷ i ∷ j ∷ t) h k = absurd (omega arith)

extract_png_header-nil : extract_png_header [] ≡ no_header
unfolding extract_png_header
extract_png_header-nil = refl

png_get-content :
    (t : Bytes)
    → png_get (png_start ++ t) ≡ extract_png_header (if ltb 9 (4 + length t) then t else [])
unfolding png_get
png_get-content t = ap extract_png_header (png_content t)

-- A PNG file that ends with six, seven or eight bytes of its header is read past its end.
pub png_get_cut :
    (t : Bytes) → 5 < length t → length t < 9 → png_get (png_start ++ t) ≡ out_of_range
png_get_cut t h k = png_get-content t ∙ ground (arith, extract_png_header-short t)

-- A PNG file that ends with at most five bytes of its header has none.
pub png_get_short : (t : Bytes) → length t ≤ 5 → png_get (png_start ++ t) ≡ no_header
png_get_short t h = png_get-content t ∙ ground (arith, extract_png_header-nil)

abbrev pub le32 : ℕ → Bytes
le32 n = (n % 256) ∷ (n / 2 ^ 8 % 256) ∷ (n / 2 ^ 16 % 256) ∷ (n / 2 ^ 24) ∷ []

abbrev pub bmp_file : Bytes → ℕ → ℕ → ℕ → ℕ → ℕ → Bytes → Bytes
bmp_file sizes o2 o3 width height depth rest =
    bmp_leading_signature
    ++ (sizes
        ++ (o2 ∷ o3 ∷ bmp_info_header_signature
            ++ (le32 width ++ (le32 height ++ (1 ∷ 0 ∷ (depth % 256) ∷ (depth / 256) ∷ rest)))))

-- The size and the depth of every bitmap with a forty-byte info header are found, whatever stands
-- in the ten bytes of sizes and offsets before it and in the two that are searched as well, for a
-- width and a height below 2 ^ 32 and a depth below 2 ^ 16.
pub bmp_get_file :
    (s0 s1 s2 s3 s4 s5 s6 s7 s8 s9 o2 o3 width height depth : ℕ) (rest : Bytes)
    → width < 2 ^ 32
    → height < 2 ^ 32
    → depth < 2 ^ 16
    → bmp_get (
        bmp_file
          (s0 ∷ s1 ∷ s2 ∷ s3 ∷ s4 ∷ s5 ∷ s6 ∷ s7 ∷ s8 ∷ s9 ∷ [])
          o2
          o3
          width
          height
          depth
          rest)
      ≡ header (record {
        width = width;
        height = height;
        bits_per_pixel = depth;
        channels = depth / 8;
        bytes = 0;
      })
unfolding bmp_get
bmp_get_file s0 s1 s2 s3 s4 s5 s6 s7 s8 s9 o2 o3 width height depth rest h k d = ground arith
