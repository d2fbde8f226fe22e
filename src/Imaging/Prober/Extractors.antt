-- ===== src/Imaging/Prober/Extractors.antt =====
-- Which extractor reads a buffer.
use mathlib.Core.List.{Memᴰ}
use mathlib.Core.List.Memᴰ.{head, tail}
use cpp_essence.Prelude.{
  ◌≡◌, refl, sym, ap, subst, ◌∙◌, false, List, [], ◌∷◌, none, some, Bytes, All, arith, equal,
  equal_refl, find, insert_or_assign, find-insert_or_assign,
}
use cpp_essence.Imaging.{no_header}
use cpp_essence.Io.TypeJudger.{BitstreamTypeHint, identify}
use cpp_essence.Imaging.Prober.{
  ImageHeaderExtractor, add_extractors, extract_header_impl, extract_header, with_bytes,
}

-- No extractor of this name.
abbrev pub IsUnknown : Bytes → List ImageHeaderExtractor → Type 0
IsUnknown name = All (λ x. equal x.hint.name name ≡ false)

find-unknown :
    (name : Bytes) (extractors : List ImageHeaderExtractor)
    (mapping : List (Bytes × ImageHeaderExtractor))
    → IsUnknown name extractors
    → find name (add_extractors extractors mapping) ≡ find name mapping
unfolding add_extractors
find-unknown name [] mapping h = refl
find-unknown name (x ∷ extractors) mapping (e, h) =
    find-unknown name extractors (insert_or_assign x.hint.name x mapping) h
    ∙ rw (find-insert_or_assign x.hint.name name x mapping, e) refl

extract_header_impl-unknown :
    (hints : List BitstreamTypeHint) (extractors : List ImageHeaderExtractor) (buffer : Bytes)
    (hint : BitstreamTypeHint)
    → identify hints buffer ≡ some hint
    → find hint.name (add_extractors extractors []) ≡ none
    → extract_header_impl hints extractors buffer ≡ no_header
unfolding extract_header_impl
extract_header_impl-unknown hints extractors buffer hint e f = ground arith

extract_header_impl-known :
    (hints : List BitstreamTypeHint) (extractors : List ImageHeaderExtractor) (buffer : Bytes)
    (hint : BitstreamTypeHint) (x : ImageHeaderExtractor)
    → identify hints buffer ≡ some hint
    → find hint.name (add_extractors extractors []) ≡ some x
    → extract_header_impl hints extractors buffer ≡ x.get buffer
unfolding extract_header_impl
extract_header_impl-known hints extractors buffer hint x e f = ground arith

find-nil : (name : Bytes) → find {V = ImageHeaderExtractor} name [] ≡ none
unfolding find
find-nil name = refl

-- A buffer of which the judger says that it is of an extra extractor's kind has no header, unless
-- a registered extractor bears the same name.
pub extra_extractor_unused :
    (hints : List BitstreamTypeHint) (extractors : List ImageHeaderExtractor) (buffer : Bytes)
    (hint : BitstreamTypeHint)
    → identify hints buffer ≡ some hint
    → IsUnknown hint.name extractors
    → extract_header hints extractors buffer ≡ no_header
unfolding extract_header
extra_extractor_unused hints extractors buffer hint e h = ap (with_bytes buffer) (
    extract_header_impl-unknown hints extractors buffer hint e
      (find-unknown hint.name extractors [] h ∙ find-nil hint.name))

abbrev pub HaveDistinctNames : List ImageHeaderExtractor → Type 0
HaveDistinctNames [] = Unit {0}
HaveDistinctNames (x ∷ xs) = IsUnknown x.hint.name xs × HaveDistinctNames xs

find-extractor :
    (x : ImageHeaderExtractor) (extractors : List ImageHeaderExtractor)
    (mapping : List (Bytes × ImageHeaderExtractor))
    → HaveDistinctNames extractors
    → Memᴰ x extractors
    → find x.hint.name (add_extractors extractors mapping) ≡ some x
unfolding add_extractors
find-extractor x [] mapping d m = elim m [ ]
find-extractor x (y ∷ extractors) mapping (u, d) (head same) =
    subst
      (λ z.
        find z.hint.name (add_extractors extractors (insert_or_assign y.hint.name y mapping))
        ≡ some z)
      (sym same)
      (find-unknown y.hint.name extractors (insert_or_assign y.hint.name y mapping) u
        ∙ rw (find-insert_or_assign y.hint.name y.hint.name y mapping, equal_refl y.hint.name) refl)
find-extractor x (y ∷ extractors) mapping (u, d) (tail m) =
    find-extractor x extractors (insert_or_assign y.hint.name y mapping) d m

-- A buffer that the judger takes for the kind of a registered extractor is read by that extractor,
-- if the names of the registered ones differ, and a header gets the size of the buffer.
pub extract_header-registered :
    (hints : List BitstreamTypeHint) (extractors : List ImageHeaderExtractor) (buffer : Bytes)
    (x : ImageHeaderExtractor)
    → HaveDistinctNames extractors
    → Memᴰ x extractors
    → identify hints buffer ≡ some x.hint
    → extract_header hints extractors buffer ≡ with_bytes buffer (x.get buffer)
unfolding extract_header
extract_header-registered hints extractors buffer x d m e = ap (with_bytes buffer) (
    extract_header_impl-known hints extractors buffer x.hint x e
      (find-extractor x extractors [] d m))
