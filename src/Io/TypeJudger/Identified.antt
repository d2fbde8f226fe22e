-- ===== src/Io/TypeJudger/Identified.antt =====
-- Which hint is returned.
use mathlib.Core.List.{Memᴰ}
use mathlib.Core.List.Memᴰ.{head, tail}
use cpp_essence.Prelude.{
  ◌+◌, ◌-◌, ◌≡◌, refl, sym, subst, ap, ap₂, le→leb, ◌∙◌, ◌⊎◌, inl, inr, true, false, List, [], ◌∷◌,
  ◌++◌, some, arith, if◌then◌else◌, length, take, Bytes, equal, equal_iff, equal_refl, find,
  insert_or_assign, find-insert_or_assign, Bool-cases, length-append, take-append, drop-append,
  append_assoc, ℕ, ◌≤◌, drop, take-append-drop, drop-add, length-take, length-drop, leb→le,
}
use cpp_essence.Cli.Matching.{is_empty, is_some}
use cpp_essence.Io.TypeJudger.{
  BitstreamTypeHint, signature, add_signatures, fits, combined_key, identify_among, identify,
}

-- A buffer with a hint's signatures at its ends.
abbrev pub bears : BitstreamTypeHint → Bytes → Bytes
bears g middle = (g.leading_signature ++ middle) ++ g.trailing_signature

-- A hint among these whose signature is this text.
abbrev pub Signs : List BitstreamTypeHint → Bytes → Type 0
Signs hints key = (g : BitstreamTypeHint) × Memᴰ g hints × (signature g ≡ key)

Signs-later :
    (h : BitstreamTypeHint) (hints : List BitstreamTypeHint) (key : Bytes)
    → Signs hints key
    → Signs (h ∷ hints) key
Signs-later h hints key (g, m, e) = (g, tail m, e)

abbrev put_signature :
    BitstreamTypeHint → List (Bytes × BitstreamTypeHint) → List (Bytes × BitstreamTypeHint)
put_signature h mapping =
    if is_empty (signature h) then mapping else insert_or_assign (signature h) h mapping

find-put_signature :
    (h : BitstreamTypeHint) (mapping : List (Bytes × BitstreamTypeHint)) (key : Bytes)
    → is_some (find key (put_signature h mapping)) ≡ true
    → (equal (signature h) key ≡ true) ⊎ (is_some (find key mapping) ≡ true)
find-put_signature h mapping key e =
    ground (arith, find-insert_or_assign (signature h) key h mapping)

find-put_signature_kept :
    (h : BitstreamTypeHint) (mapping : List (Bytes × BitstreamTypeHint)) (key : Bytes)
    → is_some (find key mapping) ≡ true
    → is_some (find key (put_signature h mapping)) ≡ true
find-put_signature_kept h mapping key e =
    ground (arith, find-insert_or_assign (signature h) key h mapping)

find-put_signature_own :
    (h : BitstreamTypeHint) (mapping : List (Bytes × BitstreamTypeHint))
    → is_empty (signature h) ≡ false
    → is_some (find (signature h) (put_signature h mapping)) ≡ true
find-put_signature_own h mapping e =
    ground
      (arith, find-insert_or_assign (signature h) (signature h) h mapping, equal_refl (signature h))

add_signatures-Signs :
    (hints : List BitstreamTypeHint) (mapping : List (Bytes × BitstreamTypeHint)) (key : Bytes)
    → is_some (find key (add_signatures hints mapping)) ≡ true
    → Signs hints key ⊎ (is_some (find key mapping) ≡ true)
unfolding add_signatures
add_signatures-Signs [] mapping key e = inr e
add_signatures-Signs (h ∷ hints) mapping key e =
    elim (add_signatures-Signs hints (put_signature h mapping) key e) [
      | inl s ↦ inl (Signs-later h hints key s)
      | inr there ↦ elim (find-put_signature h mapping key there) [
        | inl own ↦ inl (h, head refl, (equal_iff (signature h) key).0 own)
        | inr before ↦ inr before
      ]
    ]

add_signatures-kept :
    (hints : List BitstreamTypeHint) (mapping : List (Bytes × BitstreamTypeHint)) (key : Bytes)
    → is_some (find key mapping) ≡ true
    → is_some (find key (add_signatures hints mapping)) ≡ true
unfolding add_signatures
add_signatures-kept [] mapping key e = e
add_signatures-kept (h ∷ hints) mapping key e =
    add_signatures-kept hints (put_signature h mapping) key
      (find-put_signature_kept h mapping key e)

add_signatures-own :
    (g : BitstreamTypeHint) (hints : List BitstreamTypeHint)
    (mapping : List (Bytes × BitstreamTypeHint))
    → Memᴰ g hints
    → is_empty (signature g) ≡ false
    → is_some (find (signature g) (add_signatures hints mapping)) ≡ true
unfolding add_signatures
add_signatures-own g [] mapping m e = elim m [ ]
add_signatures-own g (h ∷ hints) mapping (head same) e =
    add_signatures-kept hints (put_signature h mapping) (signature g) (
      subst (λ x. is_some (find (signature g) (put_signature x mapping)) ≡ true) same
        (find-put_signature_own g mapping e))
add_signatures-own g (h ∷ hints) mapping (tail m) e =
    add_signatures-own g hints (put_signature h mapping) m e

-- What the loop does at the first hint.
identified_here :
    (mapping : List (Bytes × BitstreamTypeHint)) (buffer : Bytes) (g : BitstreamTypeHint)
    (hints : List BitstreamTypeHint) (h : BitstreamTypeHint)
    → identify_among mapping buffer (g ∷ hints) ≡ some h
    → ((g ≡ h) × (fits buffer g ≡ true) × (is_some (find (combined_key buffer g) mapping) ≡ true))
      ⊎ (identify_among mapping buffer hints ≡ some h)
unfolding identify_among
identified_here mapping buffer g hints h e =
    elim (Bool-cases (is_some (find (combined_key buffer g) mapping))) [
      | inl k ↦ elim (Bool-cases (fits buffer g)) [
        | inl f ↦ inl (ground arith, f, k)
        | inr f ↦ inr (ground arith)
      ]
      | inr k ↦ inr (ground arith)
    ]

identify_among_sound :
    (mapping : List (Bytes × BitstreamTypeHint)) (buffer : Bytes) (hints : List BitstreamTypeHint)
    (h : BitstreamTypeHint)
    → identify_among mapping buffer hints ≡ some h
    → Memᴰ h hints
      × (fits buffer h ≡ true)
      × (is_some (find (combined_key buffer h) mapping) ≡ true)
unfolding identify_among
identify_among_sound mapping buffer [] h e = cc
identify_among_sound mapping buffer (g ∷ hints) h e =
    elim (identified_here mapping buffer g hints h e) [
      | inl (same, f, k) ↦ (
        head (sym same),
        subst (λ x. fits buffer x ≡ true) same f,
        subst (λ x. is_some (find (combined_key buffer x) mapping) ≡ true) same k,
      )
      | inr later ↦
          let (m, f, k) = identify_among_sound mapping buffer hints h later in (tail m, f, k)
    ]

-- A buffer starts and ends with as many bytes as a hint's signatures have, without an overlap, and
-- those are, one behind the other, the signatures of one of the hints.
pub record StandsIn (hints : List BitstreamTypeHint) (h : BitstreamTypeHint) (buffer : Bytes)
    : Type 0 where
  front : Bytes
  middle : Bytes
  back : Bytes
  splits : buffer ≡ front ++ (middle ++ back)
  front_size : length front ≡ length h.leading_signature
  back_size : length back ≡ length h.trailing_signature
  owner : BitstreamTypeHint
  among : Memᴰ owner hints
  owned : owner.leading_signature ++ owner.trailing_signature ≡ front ++ back

-- A buffer in three parts.
parts :
    (n m : ℕ) (buffer : Bytes)
    → n ≤ m
    → buffer ≡ take n buffer ++ (take (m - n) (drop n buffer) ++ drop m buffer)
parts n m buffer h =
    sym (take-append-drop n buffer)
    ∙ ap (◌++◌ (take n buffer)) (
        sym (take-append-drop (m - n) (drop n buffer))
        ∙ ap (◌++◌ (take (m - n) (drop n buffer)))
            (sym (drop-add n (m - n) m buffer (omega (arith, h)))))

key-StandsIn :
    (hints : List BitstreamTypeHint) (h : BitstreamTypeHint) (buffer : Bytes)
    → length h.leading_signature + length h.trailing_signature ≤ length buffer
    → Signs hints (combined_key buffer h)
    → StandsIn hints h buffer
key-StandsIn hints h buffer room (g, m, e) =
    let n = length h.leading_signature in
    let back = length buffer - length h.trailing_signature in
    record {
      front = take n buffer;
      middle = take (back - n) (drop n buffer);
      back = drop back buffer;
      splits = parts n back buffer (omega (arith, room));
      front_size = omega (arith, room, length-take n buffer);
      back_size = omega (arith, room, length-drop back buffer);
      owner = g;
      among = m;
      owned = e;
    }

-- A hint that is returned is one of the hints, and the buffer has a part at its start and one at its
-- end, of the sizes of the hint's two signatures and apart from each other, which one behind the other
-- are the two signatures, one behind the other, of one of the hints.
pub identify-StandsIn :
    (hints : List BitstreamTypeHint) (buffer : Bytes) (h : BitstreamTypeHint)
    → identify hints buffer ≡ some h
    → Memᴰ h hints × StandsIn hints h buffer
unfolding identify
identify-StandsIn hints buffer h e =
    let (m, f, k) = identify_among_sound (add_signatures hints []) buffer hints h e in
    let room = leb→le _ _ f in
    elim (add_signatures-Signs hints [] (combined_key buffer h) k) [
      | inl s ↦ (m, key-StandsIn hints h buffer room s)
      | inr there ↦ absurd (unfold find in cc there)
    ]

-- Of a buffer that bears a hint's signatures, the bytes in the place of signatures of these sizes.
combined_key-bears :
    (h g : BitstreamTypeHint) (middle : Bytes)
    → length h.leading_signature ≡ length g.leading_signature
    → length h.trailing_signature ≡ length g.trailing_signature
    → (combined_key (bears g middle) h ≡ signature g) × (fits (bears g middle) h ≡ true)
combined_key-bears h g middle l t =
    let front = g.leading_signature ++ middle in
    let size : length (bears g middle)
        ≡ length g.leading_signature + (length middle + length g.trailing_signature) =
      omega (
        arith,
        length-append front g.trailing_signature,
        length-append g.leading_signature middle,
      ) in
    let back : length (bears g middle) - length g.trailing_signature ≡ length front =
      omega (
        arith,
        length-append front g.trailing_signature,
        length-append g.leading_signature middle,
      ) in
    (
      rw (l, t, back)
          (ap₂ ◌++◌
            (ap (take (length g.leading_signature))
                (append_assoc g.leading_signature middle g.trailing_signature)
              ∙ take-append g.leading_signature (middle ++ g.trailing_signature))
            (drop-append front g.trailing_signature)),
      le→leb _ _ (omega arith),
    )

-- A buffer that starts and ends with the signatures of a hint, which are not both empty, is
-- identified as the first hint of all, if the first has signatures of the same sizes, whatever
-- they are.
pub identify-same_sizes :
    (h g : BitstreamTypeHint) (hints : List BitstreamTypeHint) (middle : Bytes)
    → Memᴰ g (h ∷ hints)
    → is_empty (signature g) ≡ false
    → length h.leading_signature ≡ length g.leading_signature
    → length h.trailing_signature ≡ length g.trailing_signature
    → identify (h ∷ hints) (bears g middle) ≡ some h
unfolding identify identify_among
identify-same_sizes h g hints middle m e l t =
    let (k, f) = combined_key-bears h g middle l t in
    rw (f, k, add_signatures-own g (h ∷ hints) [] m e) refl

identify_among-found :
    (mapping : List (Bytes × BitstreamTypeHint)) (buffer : Bytes) (hints : List BitstreamTypeHint)
    (h : BitstreamTypeHint)
    → Memᴰ h hints
    → fits buffer h ≡ true
    → is_some (find (combined_key buffer h) mapping) ≡ true
    → is_some (identify_among mapping buffer hints) ≡ true
unfolding identify_among
identify_among-found mapping buffer [] h m f k = elim m [ ]
identify_among-found mapping buffer (g ∷ hints) h (head same) f k =
    subst
      (λ x.
        is_some (
          if fits buffer x
          then (if is_some (find (combined_key buffer x) mapping)
              then some x
              else identify_among mapping buffer hints)
          else identify_among mapping buffer hints)
        ≡ true)
      same (rw (f, k) refl)
identify_among-found mapping buffer (g ∷ hints) h (tail m) f k =
    let later = identify_among-found mapping buffer hints h m f k in ground arith

-- A buffer that starts and ends with the signatures of one of the hints, which are not both empty,
-- is identified as something.
pub identify-bears :
    (hints : List BitstreamTypeHint) (g : BitstreamTypeHint) (middle : Bytes)
    → Memᴰ g hints
    → is_empty (signature g) ≡ false
    → is_some (identify hints (bears g middle)) ≡ true
unfolding identify
identify-bears hints g middle m e =
    let (k, f) = combined_key-bears g g middle refl refl in
    identify_among-found (add_signatures hints []) (bears g middle) hints g m f
      (rw k (add_signatures-own g hints [] m e))
