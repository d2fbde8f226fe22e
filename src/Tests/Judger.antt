-- ===== src/Tests/Judger.antt =====
-- Kinds of files, and colours.
use mathlib.Core.List.{Memᴰ}
use cpp_essence.Prelude.{
  ◌≡◌, refl, List, [], ◌∷◌, some, codes, arith, find, equal, insert_or_assign,
}
use cpp_essence.Io.TypeJudger.{
  BitstreamTypeHint, identify, identify_stream, max_leading_signature_size,
  max_trailing_signature_size,
}
use cpp_essence.Io.TypeJudger.Streams.{identify_stream-identify, identify_stream-stale}
use cpp_essence.Io.TypeJudger.Identified.{StandsIn, identify-StandsIn}

abbrev bmp : BitstreamTypeHint
bmp = record { name = codes "BMP"; leading_signature = codes "BM"; trailing_signature = [] }

abbrev tiff : BitstreamTypeHint
tiff = record { name = codes "TIFF"; leading_signature = codes "II"; trailing_signature = [] }

abbrev pdf : BitstreamTypeHint
pdf = record {
  name = codes "PDF";
  leading_signature = codes "%PDF";
  trailing_signature = codes "F";
}

abbrev kinds : List BitstreamTypeHint
kinds = bmp ∷ tiff ∷ pdf ∷ []

identified_pdf : identify kinds (codes "%PDF--EOF") ≡ some pdf
unfolding identify find equal insert_or_assign
identified_pdf = refl

identify-StandsIn_example : Memᴰ pdf kinds × StandsIn kinds pdf (codes "%PDF--EOF")
identify-StandsIn_example = identify-StandsIn kinds (codes "%PDF--EOF") pdf identified_pdf

identified_bmp : identify kinds (codes "BM") ≡ some bmp
unfolding identify find equal insert_or_assign
identified_bmp = refl

identify_stream-identify_example :
    (identify_stream kinds (codes "BMBMBM") (codes "%PDF--EOF")).0
    ≡ identify kinds (codes "%PDF--EOF")
unfolding max_leading_signature_size max_trailing_signature_size
identify_stream-identify_example =
    identify_stream-identify kinds (codes "BMBMBM") (codes "%PDF--EOF") (omega arith)

abbrev images : List BitstreamTypeHint
images = bmp ∷ tiff ∷ []

identify_stream-stale_example :
    (identify_stream images (identify_stream images [] (codes "BM")).1 []).0
    ≡ identify images (codes "BM")
unfolding max_leading_signature_size max_trailing_signature_size
identify_stream-stale_example = identify_stream-stale images [] (codes "BM") refl (omega arith)
