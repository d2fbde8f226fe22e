-- ===== src/Tests/Encodings.antt =====
-- A character of one unit and one of two, over a small stand-in for the C library.
use cpp_essence.Prelude.{
  ℕ, ◌≡◌, refl, [], ◌∷◌, Option, none, some, Bytes, ltb, ◌==◌, if◌then◌else◌, arith,
}
use cpp_essence.Encoding.{
  Conversion, consumed, from_previous, null, incomplete, CLibrary, u16_to_native_bytes,
  native_bytes_to_u16,
}
use cpp_essence.Encoding.Surrogates.{single, pair, native_bytes_to_u16-u16_to_native_bytes}

-- The state is a unit that waits for its other half. Units from 0xd800 on come in pairs, and a byte
-- of 240 stands in front of a pair.
abbrev write : Option ℕ → ℕ → Option Bytes × Option ℕ
write none unit = if ltb unit 0xd800 then (some (unit ∷ []), none) else (some [], some unit)
write (some high) low = (some (240 ∷ high ∷ low ∷ 0 ∷ []), none)

abbrev read_pair : Bytes → Conversion × Option ℕ
read_pair (high ∷ low ∷ z ∷ bytes) = (consumed 4 high, some low)
read_pair bytes = (incomplete, none)

abbrev read : Option ℕ → Bytes → Conversion × Option ℕ
read (some low) bytes = (from_previous low, none)
read none [] = (incomplete, none)
read none (b ∷ bytes) =
    if b == 0 then (null, none) else if b == 240 then read_pair bytes else (consumed 1 b, none)

abbrev small : CLibrary
small = record { State = Option ℕ; initial = none; c16rtomb = write; mbrtoc16 = read }

native_bytes_to_u16-u16_to_native_bytes_example :
    native_bytes_to_u16 small 9 0 (u16_to_native_bytes small (97 ∷ 0xd83d ∷ 0xde00 ∷ 98 ∷ []))
    ≡ some (97 ∷ 0xd83d ∷ 98 ∷ [])
native_bytes_to_u16-u16_to_native_bytes_example =
    native_bytes_to_u16-u16_to_native_bytes small
      (single (97 ∷ []) 97
        ∷ pair (240 ∷ 0xd83d ∷ 0xde00 ∷ 0 ∷ []) 0xd83d 0xde00
        ∷ single (98 ∷ []) 98
        ∷ [])
      9
      (
        record { written = refl; read = λ more. refl },
        (
          record {
            writing = some 0xd83d;
            reading = some 0xde00;
            held = refl;
            written = refl;
            read = λ more. refl;
            next = λ more. refl;
          },
          (record { written = refl; read = λ more. refl }, tt),
        ),
      )
      (none, refl) (omega arith) (omega arith)
