-- ===== src/Io/TypeJudger.antt =====
-- src/io/bitstream_type_judger.cpp, on a buffer and on a stream. The hints stand in the order that the constructor's
-- sorts leave them in, which those do not fix for hints whose signatures are of equal sizes.
pub mod Identified
pub mod Streams
use cpp_essence.Prelude.{
  ℕ, ◌+◌, ◌-◌, Bool, true, false, List, [], ◌∷◌, ◌++◌, Option, none, some, leb, if◌then◌else◌,
  length, take, drop, Bytes, find, insert_or_assign, max, min, replicate,
}
use cpp_essence.Cli.Matching.{is_empty, is_some}

pub record BitstreamTypeHint : Type 0 where
  pub name : Bytes
  pub leading_signature : Bytes
  pub trailing_signature : Bytes

-- Both signatures, one behind the other.
abbrev pub signature : BitstreamTypeHint → Bytes
signature h = h.leading_signature ++ h.trailing_signature

-- `init_signature_mapping`: signatures that are not empty.
unfoldable pub add_signatures :
    List BitstreamTypeHint → List (Bytes × BitstreamTypeHint) → List (Bytes × BitstreamTypeHint)
add_signatures [] mapping = mapping
add_signatures (h ∷ rest) mapping =
    add_signatures rest
      (if is_empty (signature h) then mapping else insert_or_assign (signature h) h mapping)

-- The filter of `identify`.
abbrev pub fits : Bytes → BitstreamTypeHint → Bool
fits buffer h = leb (length h.leading_signature + length h.trailing_signature) (length buffer)

-- As many bytes of the buffer's start and of its end as the signatures have.
abbrev pub combined_key : Bytes → BitstreamTypeHint → Bytes
combined_key buffer h =
    take (length h.leading_signature) buffer
    ++ drop (length buffer - length h.trailing_signature) buffer

unfoldable pub identify_among :
    List (Bytes × BitstreamTypeHint) → Bytes → List BitstreamTypeHint → Option BitstreamTypeHint
identify_among mapping buffer [] = none
identify_among mapping buffer (h ∷ rest) =
    let later = identify_among mapping buffer rest in
    if fits buffer h
    then (if is_some (find (combined_key buffer h) mapping) then some h else later)
    else later

unfoldable pub identify : List BitstreamTypeHint → Bytes → Option BitstreamTypeHint
unfolding add_signatures identify_among
identify hints buffer = identify_among (add_signatures hints []) buffer hints

-- `init_max_signature_size`.
unfoldable pub max_leading_signature_size : List BitstreamTypeHint → ℕ
max_leading_signature_size [] = 0
max_leading_signature_size (h ∷ rest) =
    max (length h.leading_signature) (max_leading_signature_size rest)

unfoldable pub max_trailing_signature_size : List BitstreamTypeHint → ℕ
max_trailing_signature_size [] = 0
max_trailing_signature_size (h ∷ rest) =
    max (length h.trailing_signature) (max_trailing_signature_size rest)

-- `buffer.resize`, which keeps what there is.
unfoldable pub resize : ℕ → Bytes → Bytes
resize n buffer = take n buffer ++ replicate (n - length buffer) 0

-- `stream.read` over what a buffer holds: behind the end of a short stream that stays.
unfoldable pub read_leading_bytes : ℕ → Bytes → Bytes → Bytes
read_leading_bytes size buffer content =
    take size content ++ drop (length (take size content)) (take size buffer)

-- Behind a read of `origin` bytes. If that came to the end of the stream, it has failed, and so do
-- the seeks.
unfoldable pub read_trailing_bytes : ℕ → ℕ → Bytes → Bytes
read_trailing_bytes origin size content =
    let max_rollback_size = min (length content - origin) size in
    drop (length content - max_rollback_size) content ++ replicate (size - max_rollback_size) 0

-- What is identified and what the buffer of the thread holds behind it.
unfoldable pub identify_stream :
    List BitstreamTypeHint → Bytes → Bytes → Option BitstreamTypeHint × Bytes
unfolding max_leading_signature_size max_trailing_signature_size resize read_leading_bytes
    read_trailing_bytes identify
identify_stream hints buffer content =
    let leading = max_leading_signature_size hints in
    let trailing = max_trailing_signature_size hints in
    let filled =
      read_leading_bytes leading (resize (leading + trailing) buffer) content
      ++ read_trailing_bytes leading trailing content in
    (identify hints filled, filled)
