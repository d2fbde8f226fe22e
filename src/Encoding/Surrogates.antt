-- ===== src/Encoding/Surrogates.antt =====
-- A text in UTF-16 and back: the second units of surrogate pairs are lost.
use cpp_essence.Prelude.{
  ℕ, zero, suc, ◌*◌, ◌<◌, List, [], ◌∷◌, ◌++◌, map, append_assoc, some, drop, Bytes, length, All,
  drop-append, ◌≡◌, refl, ap, ◌∙◌, arith,
}
use cpp_essence.Encoding.{
  consumed, from_previous, null, CLibrary, convert_units, u16_to_native_bytes, push_front,
  convert_bytes, after_conversion, native_bytes_to_u16,
}

-- A character with its bytes: of one code unit, or of two.
pub data Character : Type 0 where
  single : Bytes → ℕ → Character
  pair : Bytes → ℕ → ℕ → Character

abbrev pub bytes_of : Character → Bytes
bytes_of (single bytes unit) = bytes
bytes_of (pair bytes high low) = bytes

abbrev pub first_unit : Character → ℕ
first_unit (single bytes unit) = unit
first_unit (pair bytes high low) = high

abbrev pub units_of : List Character → List ℕ
units_of [] = []
units_of (single bytes unit ∷ text) = unit ∷ units_of text
units_of (pair bytes high low ∷ text) = high ∷ low ∷ units_of text

abbrev pub all_bytes : List Character → Bytes
all_bytes [] = []
all_bytes (ch ∷ text) = bytes_of ch ++ all_bytes text

module _ (c : CLibrary) where
  -- What the C library documents for a character: one unit is one call either way. Of two units the
  -- first writes nothing and the second writes the bytes; reading the bytes gives the first, and the
  -- next call gives the second and takes no bytes.
  pub record OneUnit (bytes : Bytes) (unit : ℕ) : Type 0 where
    pub written : c.c16rtomb c.initial unit ≡ (some bytes, c.initial)
    pub read :
        (more : Bytes)
        → c.mbrtoc16 c.initial (bytes ++ more) ≡ (consumed (length bytes) unit, c.initial)

  pub record TwoUnits (bytes : Bytes) (high low : ℕ) : Type 0 where
    pub writing : c.State
    pub reading : c.State
    pub held : c.c16rtomb c.initial high ≡ (some [], writing)
    pub written : c.c16rtomb writing low ≡ (some bytes, c.initial)
    pub read :
        (more : Bytes)
        → c.mbrtoc16 c.initial (bytes ++ more) ≡ (consumed (length bytes) high, reading)
    pub next : (more : Bytes) → c.mbrtoc16 reading more ≡ (from_previous low, c.initial)

  abbrev pub Converts : Character → Type 0
  Converts (single bytes unit) = OneUnit bytes unit
  Converts (pair bytes high low) = TwoUnits bytes high low

  -- The null character ends a text.
  abbrev pub EndsAtNull : Type 0
  EndsAtNull = (s : c.State) × (c.mbrtoc16 c.initial (0 ∷ []) ≡ (null, s))

  convert_units-all_bytes :
      (text : List Character)
      → All Converts text
      → convert_units c c.initial (units_of text) ≡ all_bytes text
  unfolding convert_units
  convert_units-all_bytes [] h = refl
  convert_units-all_bytes (single b u ∷ text) (one, rest) =
      rw one.written (ap (λ t. b ++ t) (convert_units-all_bytes text rest))
  convert_units-all_bytes (pair b hi lo ∷ text) (two, rest) =
      rw two.held (rw two.written (ap (λ t. b ++ t) (convert_units-all_bytes text rest)))

  -- The bytes of a character are taken off.
  behind : (b rest : Bytes) → drop (length b) ((b ++ rest) ++ (0 ∷ [])) ≡ rest ++ (0 ∷ [])
  behind b rest =
      ap (drop (length b)) (append_assoc b rest (0 ∷ [])) ∙ drop-append b (rest ++ (0 ∷ []))

  read_one :
      (b rest : Bytes) (unit fuel : ℕ) (s : c.State)
      → ((more : Bytes) → c.mbrtoc16 c.initial (b ++ more) ≡ (consumed (length b) unit, s))
      → convert_bytes c (suc fuel) c.initial ((b ++ rest) ++ (0 ∷ []))
        ≡ push_front unit (convert_bytes c fuel s (rest ++ (0 ∷ [])))
  unfolding convert_bytes
  read_one b rest unit fuel s read =
      ap (after_conversion c (convert_bytes c fuel) ((b ++ rest) ++ (0 ∷ [])))
        (ap (c.mbrtoc16 c.initial) (append_assoc b rest (0 ∷ [])) ∙ read (rest ++ (0 ∷ [])))
      ∙ (ap (λ t. push_front unit (convert_bytes c fuel s t)) (behind b rest))

  skip_one :
      (fuel low : ℕ) (s : c.State) (more : Bytes)
      → c.mbrtoc16 s more ≡ (from_previous low, c.initial)
      → convert_bytes c (suc fuel) s more ≡ convert_bytes c fuel c.initial more
  unfolding convert_bytes
  skip_one fuel low s more e = ap (after_conversion c (convert_bytes c fuel) more) e

  convert_bytes-first_units :
      (text : List Character) (fuel : ℕ)
      → All Converts text
      → EndsAtNull
      → 2 * length text < fuel
      → convert_bytes c fuel c.initial (all_bytes text ++ (0 ∷ [])) ≡ some (map first_unit text)
  unfolding convert_bytes
  convert_bytes-first_units text zero h end enough = absurd (omega (arith, enough))
  convert_bytes-first_units [] (suc fuel) h (s, end) enough =
      ap (after_conversion c (convert_bytes c fuel) (0 ∷ [])) end
  convert_bytes-first_units (single b u ∷ text) (suc fuel) (one, rest) end enough =
      read_one b (all_bytes text) u fuel c.initial one.read
      ∙ ap (push_front u) (convert_bytes-first_units text fuel rest end (omega (arith, enough)))
  convert_bytes-first_units (pair b hi lo ∷ text) (suc zero) h end enough =
      absurd (omega (arith, enough))
  convert_bytes-first_units (pair b hi lo ∷ text) (suc (suc fuel)) (two, rest) end enough =
      read_one b (all_bytes text) hi (suc fuel) two.reading two.read
      ∙ ap (push_front hi) (
          skip_one fuel lo two.reading (all_bytes text ++ (0 ∷ []))
            (two.next (all_bytes text ++ (0 ∷ [])))
          ∙ convert_bytes-first_units text fuel rest end (omega (arith, enough)))

  decode_loop :
      (fuel : ℕ) (str : Bytes)
      → 0 < length str
      → native_bytes_to_u16 c fuel 0 str ≡ convert_bytes c fuel c.initial (str ++ (0 ∷ []))
  unfolding native_bytes_to_u16
  decode_loop fuel [] h = absurd (omega (arith, h))
  decode_loop fuel (b ∷ str) h = refl

  -- A text in UTF-16 that the C library can convert, ended by a null character, comes back with only the
  -- first unit of each character: it is unchanged if no character has two units, and otherwise each
  -- surrogate pair loses its second one. Fuel beyond twice the number of characters is enough.
  pub native_bytes_to_u16-u16_to_native_bytes :
      (text : List Character) (fuel : ℕ)
      → All Converts text
      → EndsAtNull
      → 0 < length (all_bytes text)
      → 2 * length text < fuel
      → native_bytes_to_u16 c fuel 0 (u16_to_native_bytes c (units_of text))
        ≡ some (map first_unit text)
  unfolding u16_to_native_bytes
  native_bytes_to_u16-u16_to_native_bytes text fuel h end some_bytes enough =
      ap (native_bytes_to_u16 c fuel 0) (convert_units-all_bytes text h)
      ∙ decode_loop fuel (all_bytes text) some_bytes
      ∙ convert_bytes-first_units text fuel h end enough
