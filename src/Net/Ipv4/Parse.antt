-- ===== src/Net/Ipv4/Parse.antt =====
-- Parsing what was printed, and what else the parser takes (src/net/ipv4_address.cpp).
use cpp_essence.Prelude.{
  ℕ, suc, ◌<◌, ◌≤◌, ◌≡◌, ◌≢◌, refl, ◌∙◌, inl, inr, false, List, [], ◌∷◌, ◌++◌, some, arith, ◌==◌,
  Bytes, append_assoc, append-nil, Bool-cases, Option-cases,
}
use cpp_essence.Numeric.{digit_of, from_string, to_string}
use cpp_essence.Numeric.RoundTrip.{IsDigits, Stops, from_string-to_string, to_string-IsDigits}
use cpp_essence.Net.Ipv4.{
  Ipv4Address, IsOctets, split_parts, split, read_octets, fill, parse_ipv4_address, ipv4_to_string,
}

-- The parts with a text put in front of the first.
abbrev prepend : Bytes → List Bytes → List Bytes
prepend xs [] = xs ∷ []
prepend xs (p ∷ ps) = (xs ++ p) ∷ ps

digit-ne-dot : (c d : ℕ) → digit_of 10 c ≡ some d → (c == b'.') ≡ false
unfolding digit_of
digit-ne-dot c d e = ground arith

split_parts-cases :
    (t : ℕ) (s : Bytes) → (p : Bytes) × (ps : List Bytes) × (split_parts t s ≡ p ∷ ps)
unfolding split_parts
split_parts-cases t [] = ([], [], refl)
split_parts-cases t (c ∷ s) = elim (Bool-cases (c == t)) [
  | inl e ↦ rw e ([], split_parts t s, refl)
  | inr e ↦ let (p, ps, q) = split_parts-cases t s in rw (e, q) (c ∷ p, ps, refl)
]

split_parts-digits :
    (xs s : Bytes) → IsDigits 10 xs → split_parts b'.' (xs ++ s) ≡ prepend xs (split_parts b'.' s)
unfolding split_parts
split_parts-digits [] s h = let (p, ps, q) = split_parts-cases b'.' s in rw q refl
split_parts-digits (c ∷ xs) s ((d, e), h) =
    let (p, ps, q) = split_parts-cases b'.' s in
    rw (digit-ne-dot c d e, split_parts-digits xs s h, q) refl

-- One octet of a printed address, with the rest behind a dot.
split_parts-octet :
    (xs s : Bytes) → IsDigits 10 xs → split_parts b'.' (xs ++ b'.' ∷ s) ≡ xs ∷ split_parts b'.' s
split_parts-octet xs s h =
    split_parts-digits xs (b'.' ∷ s) h ∙ unfold split_parts in simp append-nil

split_parts-Stops :
    (s p : Bytes) (ps : List Bytes) → Stops 10 s → split_parts b'.' s ≡ p ∷ ps → Stops 10 p
unfolding split_parts
split_parts-Stops [] p ps h e = ground arith
split_parts-Stops (c ∷ s) p ps h e = let (p', ps', q) = split_parts-cases b'.' s in ground arith

abbrev octet_text : ℕ → Bytes
octet_text v = to_string 10 v

octet-IsDigits : (v : ℕ) → v < 256 → IsDigits 10 (to_string 10 v)
octet-IsDigits v h = to_string-IsDigits 10 (omega arith) (omega arith) v (omega arith)

octet_read :
    (v : ℕ) (rest : Bytes)
    → v < 256
    → Stops 10 rest
    → from_string 255 10 (to_string 10 v ++ rest) ≡ some v
octet_read v rest h stop =
    from_string-to_string 10 (omega arith) (omega arith) 255 v rest (omega arith) (omega arith) stop

octet_read_alone : (v : ℕ) → v < 256 → from_string 255 10 (to_string 10 v) ≡ some v
octet_read_alone v h = rw append-nil at (octet_read v [] h tt)

read_octets-cons :
    (room v : ℕ) (p : Bytes) (ps : List Bytes)
    → from_string 255 10 p ≡ some v
    → read_octets (suc room) (p ∷ ps) ≡ v ∷ read_octets room ps
unfolding read_octets
read_octets-cons room v p ps e = rw (e, read_octets) refl

split-split_parts : (t : ℕ) (s : Bytes) → s ≢ [] → split t s ≡ split_parts t s
unfolding split
split-split_parts t [] ne = absurd (ne refl)
split-split_parts t (c ∷ s) ne = refl

append-cons-ne-nil : (xs : Bytes) (c : ℕ) (ys : Bytes) → xs ++ (c ∷ ys) ≢ []
append-cons-ne-nil [] c ys e = cc
append-cons-ne-nil (x ∷ xs) c ys e = cc

module _ (a : Ipv4Address) (v : IsOctets a) (rest : Bytes) where
  printed_parts :
      (p : Bytes) (ps : List Bytes)
      → split_parts b'.' rest ≡ p ∷ ps
      → split_parts b'.' (ipv4_to_string a ++ rest)
        ≡ octet_text a.v0 ∷ octet_text a.v1 ∷ octet_text a.v2 ∷ (octet_text a.v3 ++ p) ∷ ps
  unfolding ipv4_to_string
  printed_parts p ps e =
      let t3 = split_parts-digits (to_string 10 a.v3) rest (octet-IsDigits a.v3 v.h3) in
      simp append_assoc (
        rw
          (
            split_parts-octet (to_string 10 a.v0) _ (octet-IsDigits a.v0 v.h0),
            split_parts-octet (to_string 10 a.v1) _ (octet-IsDigits a.v1 v.h1),
            split_parts-octet (to_string 10 a.v2) _ (octet-IsDigits a.v2 v.h2),
            t3,
            e,
          )
          refl)

  printed-ne-nil : ipv4_to_string a ++ rest ≢ []
  unfolding ipv4_to_string
  printed-ne-nil e = append-cons-ne-nil (to_string 10 a.v0) b'.' _ (simp append_assoc at e)

  -- A printed address is read back. So is any text that starts with a printed address and goes on
  -- with something that is no digit: the parser does not look at the end of the text.
  pub parse-ipv4_to_string : Stops 10 rest → parse_ipv4_address (ipv4_to_string a ++ rest) ≡ some a
  unfolding parse_ipv4_address
  parse-ipv4_to_string stop =
      let (p, ps, e) = split_parts-cases b'.' rest in
      let last = octet_read a.v3 p v.h3 (split_parts-Stops rest p ps stop e) in
      rw
        (
          split-split_parts b'.' _ printed-ne-nil,
          printed_parts p ps e,
          read_octets-cons 3 a.v0 _ _ (octet_read_alone a.v0 v.h0),
          read_octets-cons 2 a.v1 _ _ (octet_read_alone a.v1 v.h1),
          read_octets-cons 1 a.v2 _ _ (octet_read_alone a.v2 v.h2),
          read_octets-cons 0 a.v3 _ _ last,
        )
        refl

from_string-le : (top base : ℕ) (s : Bytes) (v : ℕ) → from_string top base s ≡ some v → v ≤ top
unfolding from_string
from_string-le top base [] v e = cc
from_string-le top base (c ∷ s) v e = ground arith

-- The text holds at least four parts between dots, and the first four read as the octets.
pub record Reads (s : Bytes) (a : Ipv4Address) : Type 0 where
  pub p0 : Bytes
  pub p1 : Bytes
  pub p2 : Bytes
  pub p3 : Bytes
  pub others : List Bytes
  pub parts : split b'.' s ≡ p0 ∷ p1 ∷ p2 ∷ p3 ∷ others
  pub r0 : from_string 255 10 p0 ≡ some a.v0
  pub r1 : from_string 255 10 p1 ≡ some a.v1
  pub r2 : from_string 255 10 p2 ≡ some a.v2
  pub r3 : from_string 255 10 p3 ≡ some a.v3

read_octets-inv :
    (room : ℕ) (ps : List Bytes) (v : ℕ) (vs : List ℕ)
    → read_octets (suc room) ps ≡ v ∷ vs
    → (p : Bytes) × (rest : List Bytes) × (ps ≡ p ∷ rest)
      × (from_string 255 10 p ≡ some v)
      × (read_octets room rest ≡ vs)
unfolding read_octets
read_octets-inv room [] v vs e = cc
read_octets-inv room (p ∷ rest) v vs e = elim (Option-cases (from_string 255 10 p)) [
  | inl n ↦ absurd (ground arith)
  | inr (w, q) ↦ (p, rest, refl, ground arith, ground arith)
]

fill-inv : (vs : List ℕ) (a : Ipv4Address) → fill vs ≡ some a → vs ≡ a.v0 ∷ a.v1 ∷ a.v2 ∷ a.v3 ∷ []
fill-inv [] a e = cc
fill-inv (x ∷ []) a e = cc
fill-inv (x ∷ y ∷ []) a e = cc
fill-inv (x ∷ y ∷ z ∷ []) a e = cc
fill-inv (x ∷ y ∷ z ∷ w ∷ []) a e = ground arith
fill-inv (x ∷ y ∷ z ∷ w ∷ u ∷ vs) a e = cc

-- An address that the parser returns consists of octets, which the first four parts of the text
-- denote.
pub parse_ipv4_address_sound :
    (s : Bytes) (a : Ipv4Address) → parse_ipv4_address s ≡ some a → IsOctets a × Reads s a
unfolding parse_ipv4_address
parse_ipv4_address_sound s a e =
    let vs = fill-inv (read_octets 4 (split b'.' s)) a e in
    let (p0, q0, e0, f0, g0) = read_octets-inv 3 _ _ _ vs in
    let (p1, q1, e1, f1, g1) = read_octets-inv 2 _ _ _ g0 in
    let (p2, q2, e2, f2, g2) = read_octets-inv 1 _ _ _ g1 in
    let (p3, q3, e3, f3, g3) = read_octets-inv 0 _ _ _ g2 in
    (
      record {
        h0 = omega (arith, from_string-le 255 10 p0 a.v0 f0);
        h1 = omega (arith, from_string-le 255 10 p1 a.v1 f1);
        h2 = omega (arith, from_string-le 255 10 p2 a.v2 f2);
        h3 = omega (arith, from_string-le 255 10 p3 a.v3 f3);
      },
      record {
        p0 = p0;
        p1 = p1;
        p2 = p2;
        p3 = p3;
        others = q3;
        parts = cc;
        r0 = f0;
        r1 = f1;
        r2 = f2;
        r3 = f3;
      },
    )
