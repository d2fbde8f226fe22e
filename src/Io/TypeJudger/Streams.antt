-- ===== src/Io/TypeJudger/Streams.antt =====
-- A stream against the buffer of its contents.
use cpp_essence.Prelude.{
  ℕ, zero, suc, ◌+◌, ◌-◌, ◌≤◌, ◌≡◌, refl, sym, ap, ap₂, ◌∙◌, true, List, [], ◌∷◌, ◌++◌, some, arith,
  if◌then◌else◌, length, take, drop, Bytes, find, min, replicate, length-append, length-take,
  length-drop, take-append-drop, append-nil, length-replicate, le→leb,
}
use cpp_essence.Cli.Matching.{is_some}
use cpp_essence.Io.TypeJudger.{
  BitstreamTypeHint, add_signatures, fits, combined_key, identify_among, identify,
  max_leading_signature_size, max_trailing_signature_size, resize, read_leading_bytes,
  read_trailing_bytes, identify_stream,
}

take-append_front : (n : ℕ) (xs ys : Bytes) → n ≤ length xs → take n (xs ++ ys) ≡ take n xs
take-append_front zero xs ys h = refl
take-append_front (suc n) [] ys h = absurd (omega (arith, h))
take-append_front (suc n) (x ∷ xs) ys h =
    ap (λ t. x ∷ t) (take-append_front n xs ys (omega (arith, h)))

take-take : (m n : ℕ) (xs : Bytes) → m ≤ n → take m (take n xs) ≡ take m xs
take-take zero n xs h = refl
take-take (suc m) zero xs h = absurd (omega (arith, h))
take-take (suc m) (suc n) [] h = refl
take-take (suc m) (suc n) (x ∷ xs) h = ap (λ t. x ∷ t) (take-take m n xs (omega (arith, h)))

drop-append_behind : (n : ℕ) (xs ys : Bytes) → drop (length xs + n) (xs ++ ys) ≡ drop n ys
drop-append_behind n [] ys = ap (λ k. drop k ys) (omega arith)
drop-append_behind n (x ∷ xs) ys =
    let e : suc (length xs) + n ≡ suc (length xs + n) = omega arith in
    ap (λ k. drop k (x ∷ (xs ++ ys))) e ∙ drop-append_behind n xs ys

drop-nil : (n : ℕ) → drop {A = ℕ} n [] ≡ []
drop-nil zero = refl
drop-nil (suc n) = refl

drop-drop : (m n : ℕ) (xs : Bytes) → drop m (drop n xs) ≡ drop (n + m) xs
drop-drop m zero xs = ap (λ k. drop k xs) (omega arith)
drop-drop m (suc n) [] = drop-nil m ∙ sym (drop-nil (suc n + m))
drop-drop m (suc n) (x ∷ xs) =
    let e : suc (n + m) ≡ suc n + m = omega arith in drop-drop m n xs ∙ ap (λ k. drop k (x ∷ xs)) e

-- The ends of a text, as long as the signatures may be.
abbrev pub ends : ℕ → ℕ → Bytes → Bytes
ends leading trailing content = take leading content ++ drop (length content - trailing) content

length-ends :
    (l t : ℕ) (content : Bytes) → l + t ≤ length content → length (ends l t content) ≡ l + t
length-ends l t content h = omega (
  arith,
  h,
  length-append (take l content) (drop (length content - t) content),
  length-take l content,
  length-drop (length content - t) content,
)

combined_key-ends :
    (l t : ℕ) (content : Bytes) (h : BitstreamTypeHint)
    → l + t ≤ length content
    → length h.leading_signature ≤ l
    → length h.trailing_signature ≤ t
    → combined_key (ends l t content) h ≡ combined_key content h
combined_key-ends l t content h room hl ht =
    let a = length h.leading_signature in
    let b = length h.trailing_signature in
    let front : Bytes = take l content in
    let back : Bytes = drop (length content - t) content in
    let front_size : length front ≡ l = omega (arith, room, length-take l content) in
    ap₂ (λ (p q : Bytes). p ++ q)
      (take-append_front a front back (omega (arith, front_size, hl)) ∙ take-take a l content hl)
      (ap (λ (k : ℕ). drop k (front ++ back))
          (omega (arith, length-ends l t content room, front_size, ht))
        ∙ drop-append_behind (t - b) front back
        ∙ drop-drop (t - b) (length content - t) content
        ∙ ap (λ (k : ℕ). drop k content) (omega (arith, room, ht)))

identify_among-ends :
    (mapping : List (Bytes × BitstreamTypeHint)) (l t : ℕ) (content : Bytes)
    (hints : List BitstreamTypeHint)
    → l + t ≤ length content
    → max_leading_signature_size hints ≤ l
    → max_trailing_signature_size hints ≤ t
    → identify_among mapping (ends l t content) hints ≡ identify_among mapping content hints
unfolding identify_among max_leading_signature_size max_trailing_signature_size
identify_among-ends mapping l t content [] room hl ht = refl
identify_among-ends mapping l t content (h ∷ rest) room hl ht =
    let fits_ends : fits (ends l t content) h ≡ true =
      le→leb _ _ (omega (arith, hl, ht, length-ends l t content room)) in
    let fits_all : fits content h ≡ true = le→leb _ _ (omega (arith, hl, ht, room)) in
    rw (fits_ends, fits_all)
      (ap₂ (λ (key : Bytes) later. if is_some (find key mapping) then some h else later)
        (combined_key-ends l t content h room (omega (arith, hl)) (omega (arith, ht)))
        (identify_among-ends mapping l t content rest room (omega (arith, hl)) (omega (arith, ht))))

identify-ends :
    (hints : List BitstreamTypeHint) (content : Bytes)
    → max_leading_signature_size hints + max_trailing_signature_size hints ≤ length content
    → identify hints
        (ends (max_leading_signature_size hints) (max_trailing_signature_size hints) content)
      ≡ identify hints content
unfolding identify
identify-ends hints content room =
    identify_among-ends (add_signatures hints []) (max_leading_signature_size hints)
      (max_trailing_signature_size hints) content hints room (omega arith) (omega arith)

drop-all : (n : ℕ) (xs : Bytes) → length xs ≤ n → drop n xs ≡ []
drop-all n [] h = drop-nil n
drop-all zero (x ∷ xs) h = absurd (omega (arith, h))
drop-all (suc n) (x ∷ xs) h = drop-all n xs (omega (arith, h))

no_zeros : (k : ℕ) → k ≡ 0 → replicate {A = ℕ} k 0 ≡ []
no_zeros k e = ap (λ (k : ℕ). replicate {A = ℕ} k 0) e

take-all : (n : ℕ) (xs : Bytes) → length xs ≤ n → take n xs ≡ xs
take-all n xs h =
    sym (append-nil (take n xs))
    ∙ ap (λ (d : Bytes). take n xs ++ d) (sym (drop-all n xs h))
    ∙ take-append-drop n xs

take-nil : (n : ℕ) → take {A = ℕ} n [] ≡ []
take-nil n = take-all n [] (omega arith)

-- What is read of a stream that is long enough, whatever the buffer held.
filled-ends :
    (l t : ℕ) (buffer content : Bytes)
    → l + t ≤ length content
    → length buffer ≡ l + t
    → read_leading_bytes l buffer content ++ read_trailing_bytes l t content ≡ ends l t content
unfolding read_leading_bytes read_trailing_bytes
filled-ends l t buffer content room size =
    let taken : length (take l content) ≡ l = omega (arith, room, length-take l content) in
    let whole : min (length content - l) t ≡ t = omega (arith, room) in
    ap₂ (λ (p q : Bytes). (take l content ++ p) ++ q)
      (drop-all (length (take l content)) (take l buffer)
        (omega (arith, taken, length-take l buffer)))
      (ap (λ (k : ℕ). drop (length content - k) content ++ replicate (t - k) 0) whole
        ∙ (ap (λ (z : Bytes). drop (length content - t) content ++ z)
              (no_zeros (t - t) (omega arith))
            ∙ append-nil (drop (length content - t) content)))
    ∙ ap (λ (p : Bytes). p ++ drop (length content - t) content) (append-nil (take l content))

length-resize : (n : ℕ) (buffer : Bytes) → length (resize n buffer) ≡ n
unfolding resize
length-resize n buffer = omega (
  arith,
  length-append (take n buffer) (replicate (n - length buffer) 0),
  length-take n buffer,
  length-replicate {A = ℕ} (n - length buffer) 0,
)

-- A stream that is at least as long as the longest signatures of both ends together is identified as
-- the buffer of its contents is, whatever was identified before.
pub identify_stream-identify :
    (hints : List BitstreamTypeHint) (buffer content : Bytes)
    → max_leading_signature_size hints + max_trailing_signature_size hints ≤ length content
    → (identify_stream hints buffer content).0 ≡ identify hints content
unfolding identify_stream
identify_stream-identify hints buffer content room =
    let l = max_leading_signature_size hints in
    let t = max_trailing_signature_size hints in
    ap (identify hints)
      (filled-ends l t (resize (l + t) buffer) content room (length-resize (l + t) buffer))
    ∙ identify-ends hints content room

-- What is read of an empty stream: what the buffer held, if that was as long.
filled-stale :
    (l t : ℕ) (buffer : Bytes)
    → t ≡ 0
    → length buffer ≡ l + t
    → read_leading_bytes l (resize (l + t) buffer) [] ++ read_trailing_bytes l t [] ≡ buffer
unfolding read_leading_bytes read_trailing_bytes resize
filled-stale l t buffer e size =
    ap₂ (λ (p q : Bytes). p ++ q)
      (ap (λ (p : Bytes). p ++ drop (length p) (take l (resize (l + t) buffer))) (take-nil l)
        ∙ ap (take l) (
            ap₂ (λ (p q : Bytes). p ++ q) (take-all (l + t) buffer (omega (arith, size)))
              (no_zeros (l + t - length buffer) (omega (arith, size)))
            ∙ append-nil buffer)
        ∙ take-all l buffer (omega (arith, size, e)))
      (ap₂ (λ (p q : Bytes). p ++ q) (drop-nil (0 - min (0 - l) t))
        (no_zeros (t - min (0 - l) t) (omega (arith, e))))
    ∙ append-nil buffer

-- If no kind has a signature at its end, an empty stream is identified as what was identified before, if
-- that was long enough for all signatures.
pub identify_stream-stale :
    (hints : List BitstreamTypeHint) (buffer content : Bytes)
    → max_trailing_signature_size hints ≡ 0
    → max_leading_signature_size hints ≤ length content
    → (identify_stream hints (identify_stream hints buffer content).1 []).0 ≡ identify hints content
unfolding identify_stream
identify_stream-stale hints buffer content none_at_end room =
    let l = max_leading_signature_size hints in
    let t = max_trailing_signature_size hints in
    let room_all : l + t ≤ length content = omega (arith, room, none_at_end) in
    let filled =
      filled-ends l t (resize (l + t) buffer) content room_all (length-resize (l + t) buffer) in
    let size = ap (λ (b : Bytes). length b) filled ∙ length-ends l t content room_all in
    ap (identify hints) (filled-stale l t _ none_at_end size ∙ filled)
    ∙ identify-ends hints content room_all
