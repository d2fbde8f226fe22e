-- ===== src/Encoding.antt =====
-- src/encoding.cpp: between UTF-16 and the multibyte characters of the C library, whose two functions
-- are parameters.
pub mod Surrogates
use cpp_essence.Prelude.{ℕ, zero, suc, List, [], ◌∷◌, ◌++◌, Option, none, some, drop, Bytes}

-- What mbrtoc16 returns: so many bytes and a code unit, a code unit of the character before, and
-- where it gives none: the null character, an incomplete character, an invalid one.
pub data Conversion : Type 0 where
  consumed : ℕ → ℕ → Conversion
  from_previous : ℕ → Conversion
  null incomplete invalid : Conversion

-- c16rtomb gives the bytes it writes, or `none` for its error.
pub record CLibrary : Type 1 where
  pub State : Type 0
  pub initial : State
  pub c16rtomb : State → ℕ → Option Bytes × State
  pub mbrtoc16 : State → Bytes → Conversion × State

abbrev pub append_bytes : Option Bytes → Bytes → Bytes
append_bytes none rest = rest
append_bytes (some bytes) rest = bytes ++ rest

unfoldable pub convert_units : (c : CLibrary) → c.State → List ℕ → Bytes
convert_units c state [] = []
convert_units c state (item ∷ str) =
    let (bytes, state') = c.c16rtomb state item in append_bytes bytes (convert_units c state' str)

unfoldable pub u16_to_native_bytes : CLibrary → List ℕ → Bytes
unfolding convert_units
u16_to_native_bytes c str = convert_units c c.initial str

-- In front of the units of the rest of the loop.
abbrev pub push_front : ℕ → Option (List ℕ) → Option (List ℕ)
push_front unit none = none
push_front unit (some units) = some (unit ∷ units)

-- The body of the loop, with what the loop does next.
abbrev pub after_conversion :
    (c : CLibrary)
    → (c.State → Bytes → Option (List ℕ))
    → Bytes
    → Conversion × c.State
    → Option (List ℕ)
after_conversion c loop rest (consumed n unit, state) = push_front unit (loop state (drop n rest))
after_conversion c loop rest (from_previous unit, state) = loop state rest
after_conversion c loop rest (null, state) = some []
after_conversion c loop rest (incomplete, state) = some []
after_conversion c loop rest (invalid, state) = some []

-- The loop on fuel; `none` is a loop that has not ended within it. The bytes are those up to one
-- behind the text, which the source hands on too.
unfoldable pub convert_bytes : (c : CLibrary) → ℕ → c.State → Bytes → Option (List ℕ)
convert_bytes c zero state rest = none
convert_bytes c (suc fuel) state rest =
    after_conversion c (convert_bytes c fuel) rest (c.mbrtoc16 state rest)

unfoldable pub native_bytes_to_u16 : CLibrary → ℕ → ℕ → Bytes → Option (List ℕ)
unfolding convert_bytes
native_bytes_to_u16 c fuel behind [] = some []
native_bytes_to_u16 c fuel behind (b ∷ str) =
    convert_bytes c fuel c.initial ((b ∷ str) ++ (behind ∷ []))
