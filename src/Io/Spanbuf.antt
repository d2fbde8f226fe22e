-- ===== src/Io/Spanbuf.antt =====
-- `basic_spanbuf` of include/essence/io/spanbuf.hpp for bytes: a stream buffer over memory of a fixed
-- size. Positions are offsets from its beginning; they are taken to fit 32 bits.
pub mod ReadBack
use cpp_essence.Prelude.{
  ℕ, zero, suc, ◌+◌, Bool, true, false, ◌&&◌, Option, none, some, List, [], ◌∷◌, Bytes, length, ltb,
  get_elem?, splice, if◌then◌else◌,
}
use cpp_essence.Numeric.Rational.{ℤ, pos, negsuc, ◌+ℤ◌}

-- The bits of `std::ios_base::openmode` that matter.
pub record OpenMode : Type 0 where
  pub input : Bool
  pub output : Bool
  pub ate : Bool

pub data SeekDir : Type 0 where
  from_beg : SeekDir
  from_cur : SeekDir
  from_end : SeekDir

pub record Spanbuf : Type 0 where
  pub mode : OpenMode
  pub buffer : Bytes
  pub gptr : ℕ
  pub pptr : ℕ

-- `span` with a new buffer.
unfoldable pub set_span : Bytes → Spanbuf → Spanbuf
set_span buffer b = record b {
  buffer = buffer;
  gptr = if b.mode.input then 0 else b.gptr;
  pptr = if b.mode.output then (if b.mode.ate then length buffer else 0) else b.pptr;
}

unfoldable pub new_spanbuf : Bytes → OpenMode → Spanbuf
unfolding set_span
new_spanbuf buffer mode = set_span buffer (record { mode = mode; buffer = []; gptr = 0; pptr = 0 })

-- The answer is `none` for the position -1, which the base class gives.
unfoldable pub seekpos : ℤ → OpenMode → Spanbuf → Option ℕ × Spanbuf
seekpos (negsuc n) mode b = (none, b)
seekpos (pos n) mode b =
    if ltb n (length b.buffer)
    then (
      some n,
      record b {
        gptr = if b.mode.input && mode.input then n else b.gptr;
        pptr = if b.mode.output && mode.output then n else b.pptr;
      },
    )
    else (none, b)

abbrev only_input : OpenMode
only_input = record { input = true; output = false; ate = false }

abbrev only_output : OpenMode
only_output = record { input = false; output = true; ate = false }

unfoldable pub seekoff : ℤ → SeekDir → OpenMode → Spanbuf → Option ℕ × Spanbuf
unfolding seekpos ◌+ℤ◌
seekoff offset from_beg mode b = seekpos offset mode b
seekoff offset from_cur mode b =
    if mode.input
    then (if mode.output then (none, b) else seekpos (pos b.gptr +ℤ offset) only_input b)
    else if mode.output
    then seekpos (pos b.pptr +ℤ offset) only_output b
    else (none, b)
seekoff offset from_end mode b = seekpos (pos (length b.buffer) +ℤ offset) mode b

-- `sputc` and `sbumpc` of the base class between the pointers that the buffer has set; there is no
-- put or get area without the mode.
unfoldable pub sputc : ℕ → Spanbuf → Bool × Spanbuf
unfolding splice
sputc ch b =
    if b.mode.output && ltb b.pptr (length b.buffer)
    then (true, record b { buffer = splice b.pptr (ch ∷ []) b.buffer; pptr = b.pptr + 1 })
    else (false, b)

unfoldable pub sbumpc : Spanbuf → Option ℕ × Spanbuf
sbumpc b =
    if b.mode.input && ltb b.gptr (length b.buffer)
    then (get_elem? b.buffer b.gptr, record b { gptr = b.gptr + 1 })
    else (none, b)

-- As many characters as there is room for, and how many these were.
unfoldable pub sputn : Bytes → Spanbuf → ℕ × Spanbuf
unfolding sputc
sputn [] b = (0, b)
sputn (ch ∷ chs) b =
    let (ok, b') = sputc ch b in let (n, b'') = sputn chs b' in if ok then (suc n, b'') else (0, b)

unfoldable pub sgetn_with : Option ℕ → Bytes × Spanbuf → Spanbuf → Bytes × Spanbuf
sgetn_with none rest b = ([], b)
sgetn_with (some ch) (chs, b') b = (ch ∷ chs, b')

-- As many characters as there are, at most a given number.
unfoldable pub sgetn : ℕ → Spanbuf → Bytes × Spanbuf
unfolding sbumpc sgetn_with
sgetn zero b = ([], b)
sgetn (suc n) b = let (o, b') = sbumpc b in sgetn_with o (sgetn n b') b
