-- ===== src/Tests/Streams.antt =====
-- A stream buffer over five bytes.
use cpp_essence.Prelude.{◌≡◌, refl, true, false, [], ◌∷◌, arith}
use cpp_essence.Numeric.Rational.{pos}
use cpp_essence.Io.Spanbuf.{OpenMode, Spanbuf, new_spanbuf, seekpos, sputn, sgetn}
use cpp_essence.Io.Spanbuf.ReadBack.{sgetn-sputn}

abbrev both : OpenMode
both = record { input = true; output = true; ate = false }

abbrev five : Spanbuf
five = record { mode = both; buffer = 1 ∷ 2 ∷ 3 ∷ 4 ∷ 5 ∷ []; gptr = 0; pptr = 0 }

five_opened : new_spanbuf (1 ∷ 2 ∷ 3 ∷ 4 ∷ 5 ∷ []) both ≡ five
unfolding new_spanbuf
five_opened = refl

sgetn-sputn_example :
    let b = (seekpos (pos 2) both five).1 in
    ((sputn (7 ∷ 8 ∷ []) b).0 ≡ 2) × ((sgetn 2 (sputn (7 ∷ 8 ∷ []) b).1).0 ≡ 7 ∷ 8 ∷ [])
sgetn-sputn_example = sgetn-sputn 2 (7 ∷ 8 ∷ []) five refl refl (omega arith) (omega arith)
