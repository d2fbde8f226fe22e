-- ===== src/Io/Spanbuf/ReadBack.antt =====
-- What is written to a span is read back, and the end of it is out of reach.
use cpp_essence.Prelude.{
  ℕ, zero, suc, ◌+◌, ◌≤◌, ◌<◌, ◌≡◌, refl, sym, ap, ◌∙◌, Bool, true, false, ◌&&◌, none, some, [],
  ◌∷◌, ◌++◌, Bytes, length, take, drop, take-append-drop, ap₂, ltb, lt→ltb, get_elem?, splice,
  read-splice, splice-append, length-splice, if◌then◌else◌, arith,
}
use cpp_essence.Numeric.Rational.{pos, ◌+ℤ◌}
use cpp_essence.Io.Spanbuf.{
  OpenMode, from_end, Spanbuf, seekpos, seekoff, sputc, sbumpc, sputn, sgetn, sgetn_with,
}

splice-nil : (p : ℕ) (xs : Bytes) → splice p [] xs ≡ xs
unfolding splice
splice-nil p xs = ap (λ (k : ℕ). take p xs ++ drop k xs) (omega arith) ∙ take-append-drop p xs

-- A character for which there is room.
sputc-put :
    (ch : ℕ) (b : Spanbuf)
    → b.mode.output ≡ true
    → b.pptr < length b.buffer
    → sputc ch b ≡ (true, record b { buffer = splice b.pptr (ch ∷ []) b.buffer; pptr = b.pptr + 1 })
unfolding sputc
sputc-put ch b w small = rw (room b w small) refl
  where
    room :
        (b : Spanbuf)
        → b.mode.output ≡ true
        → b.pptr < length b.buffer
        → (b.mode.output && ltb b.pptr (length b.buffer)) ≡ true
    room b w small = ground (arith, w, small)

sputn-splice :
    (chs : Bytes) (b : Spanbuf)
    → b.mode.output ≡ true
    → b.pptr + length chs ≤ length b.buffer
    → sputn chs b
      ≡ (length chs, record b { buffer = splice b.pptr chs b.buffer; pptr = b.pptr + length chs })
unfolding sputn
sputn-splice [] b w fits =
    ap (λ (x : Bytes × ℕ). (0, record b { buffer = x.0; pptr = x.1 }))
      (ap₂ (λ (x : Bytes) (q : ℕ). (x, q)) (sym (splice-nil b.pptr b.buffer)) (omega arith))
sputn-splice (ch ∷ chs) b w fits =
    let b' : Spanbuf = record b { buffer = splice b.pptr (ch ∷ []) b.buffer; pptr = b.pptr + 1 } in
    rw
      (
        sputc-put ch b w (omega (arith, fits)),
        sputn-splice chs b' w
            (omega (arith, fits, length-splice b.pptr (ch ∷ []) b.buffer (omega (arith, fits)))),
      )
      (ap₂ (λ (x : Bytes) (q : ℕ). (suc (length chs), record b { buffer = x; pptr = q }))
        (splice-append b.pptr (ch ∷ []) chs b.buffer (omega (arith, fits))) (omega arith))

get_elem?-drop :
    (p : ℕ) (xs : Bytes)
    → p < length xs
    → (ch : ℕ) × (get_elem? xs p ≡ some ch) × (drop p xs ≡ ch ∷ drop (suc p) xs)
get_elem?-drop p [] h = ground (arith, h)
get_elem?-drop zero (x ∷ xs) h = (x, refl, refl)
get_elem?-drop (suc p) (x ∷ xs) h = get_elem?-drop p xs (omega (arith, h))

-- A character that is there.
sbumpc-get :
    (b : Spanbuf)
    → b.mode.input ≡ true
    → b.gptr < length b.buffer
    → sbumpc b ≡ (get_elem? b.buffer b.gptr, record b { gptr = b.gptr + 1 })
unfolding sbumpc
sbumpc-get b r small = rw (there b r small) refl
  where
    there :
        (b : Spanbuf)
        → b.mode.input ≡ true
        → b.gptr < length b.buffer
        → (b.mode.input && ltb b.gptr (length b.buffer)) ≡ true
    there b r small = ground (arith, r, small)

add_one : (n : ℕ) → n + 1 ≡ suc n
add_one n = omega arith

sgetn-take :
    (n : ℕ) (b : Spanbuf)
    → b.mode.input ≡ true
    → b.gptr + n ≤ length b.buffer
    → (sgetn n b).0 ≡ take n (drop b.gptr b.buffer)
unfolding sgetn sgetn_with
sgetn-take zero b r fits = refl
sgetn-take (suc n) b r fits =
    let (ch, got, rest) = get_elem?-drop b.gptr b.buffer (omega (arith, fits)) in
    let b' : Spanbuf = record b { gptr = b.gptr + 1 } in
    rw (sbumpc-get b r (omega (arith, fits)), got, rest)
      (ap (◌∷◌ ch) (
        sgetn-take n b' r (omega (arith, fits))
        ∙ ap (λ (k : ℕ). take n (drop k b.buffer)) (add_one b.gptr)))

seekpos-both :
    (p : ℕ) (b : Spanbuf)
    → b.mode.input ≡ true
    → b.mode.output ≡ true
    → p < length b.buffer
    → seekpos (pos p) b.mode b ≡ (some p, record b { gptr = p; pptr = p })
unfolding seekpos
seekpos-both p b r w inside = rw (lt→ltb p (length b.buffer) inside) (
    ap₂ (λ (g q : ℕ). (some p, record b { gptr = g; pptr = q })) (chosen b.mode.input p b.gptr r)
      (chosen b.mode.output p b.pptr w))
  where
    chosen : (m : Bool) (x y : ℕ) → m ≡ true → (if m && m then x else y) ≡ x
    chosen m x y e = ground (arith, e)

-- Characters written behind a seek to a position, which sets both pointers, are all taken and read
-- back from there in order; if the buffer is for input and output and has room for them behind the
-- position.
pub sgetn-sputn :
    (p : ℕ) (chs : Bytes) (b : Spanbuf)
    → b.mode.input ≡ true
    → b.mode.output ≡ true
    → p < length b.buffer
    → p + length chs ≤ length b.buffer
    → let b' = (seekpos (pos p) b.mode b).1 in
      ((sputn chs b').0 ≡ length chs) × ((sgetn (length chs) (sputn chs b').1).0 ≡ chs)
sgetn-sputn p chs b r w inside fits =
    let b' : Spanbuf = record b { gptr = p; pptr = p } in
    let b'' : Spanbuf = record b' { buffer = splice p chs b.buffer; pptr = p + length chs } in
    let put = sputn-splice chs b' w fits in
    let size = length-splice p chs b.buffer fits in
    rw (seekpos-both p b r w inside) (
      ap (λ (x : ℕ × Spanbuf). x.0) put,
      ap (λ (x : ℕ × Spanbuf). (sgetn (length chs) x.1).0) put
          ∙ sgetn-take (length chs) b'' r (omega (arith, fits, size))
          ∙ read-splice p chs b.buffer (omega (arith, inside)),
    )

-- A seek to the end fails and changes nothing, whatever the buffer is.
pub seekoff-end : (b : Spanbuf) (mode : OpenMode) → seekoff (pos 0) from_end mode b ≡ (none, b)
unfolding seekoff seekpos ◌+ℤ◌
seekoff-end b mode = rw (no_offset (length b.buffer), not_less (length b.buffer)) refl
  where
    no_offset : (n : ℕ) → pos n +ℤ pos 0 ≡ pos n
    no_offset n = ground arith

    not_less : (n : ℕ) → ltb n n ≡ false
    not_less n = ground arith
