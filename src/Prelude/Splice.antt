-- ===== src/Prelude/Splice.antt =====
-- Items of a list overwritten from a place on, and what is read there and elsewhere.
use Prim.Native.Nat.{ℕ, zero, suc, ◌+◌, ◌-◌, ◌≤◌}
use mathlib.Core.Path.{◌≡◌, refl, sym, ap, ap₂, ◌∙◌}
use mathlib.Core.List.{List, [], ◌∷◌, ◌++◌, append_assoc}
use native.Mathlib.Omega.{arith}
use cpp_essence.Prelude.Lists.{
  length, take, drop, take-append-drop, take-append, drop-append, length-append, length-take,
  length-drop,
}

module _ {ℓ} {A : Type ℓ} where
  unfoldable pub splice : ℕ → List A → List A → List A
  splice n items xs = take n xs ++ (items ++ drop (n + length items) xs)

  length-taken : (n : ℕ) (xs : List A) → n ≤ length xs → n ≡ length (take n xs)
  length-taken n xs fits = omega (arith, length-take n xs)

  drop-take-append : (n : ℕ) (xs ys : List A) → n ≤ length xs → drop n (take n xs ++ ys) ≡ ys
  drop-take-append n xs ys fits =
      ap (λ k. drop k (take n xs ++ ys)) (length-taken n xs fits) ∙ drop-append (take n xs) ys

  take-take-append : (n : ℕ) (xs ys : List A) → n ≤ length xs → take n (take n xs ++ ys) ≡ take n xs
  take-take-append n xs ys fits =
      ap (λ k. take k (take n xs ++ ys)) (length-taken n xs fits) ∙ take-append (take n xs) ys

  pub read-splice :
      (n : ℕ) (items xs : List A)
      → n ≤ length xs
      → take (length items) (drop n (splice n items xs)) ≡ items
  unfolding splice
  read-splice n items xs fits =
      ap (take (length items)) (drop-take-append n xs (items ++ drop (n + length items) xs) fits)
      ∙ take-append items (drop (n + length items) xs)

  pub drop-add : (n k m : ℕ) (xs : List A) → m ≡ n + k → drop m xs ≡ drop k (drop n xs)
  drop-add zero k m xs e = ap (λ j. drop j xs) (omega (arith, e))
  drop-add (suc n) k zero xs e = ground (arith, e)
  drop-add (suc n) zero (suc m) [] e = refl
  drop-add (suc n) (suc k) (suc m) [] e = refl
  drop-add (suc n) k (suc m) (x ∷ xs) e = drop-add n k m xs (omega (arith, e))

  -- List A written behind others.
  pub splice-append :
      (n : ℕ) (bs cs xs : List A)
      → n ≤ length xs
      → splice (n + length bs) cs (splice n bs xs) ≡ splice n (bs ++ cs) xs
  unfolding splice
  splice-append n bs cs xs fits =
      ap₂ (λ h t. h ++ (cs ++ t)) taken left
      ∙ append_assoc front bs (cs ++ drop (n + length (bs ++ cs)) xs)
      ∙ ap (◌++◌ front) (sym (append_assoc bs cs (drop (n + length (bs ++ cs)) xs)))
    where
      front : List A
      front = take n xs

      rest : List A
      rest = drop (n + length bs) xs

      shape : front ++ (bs ++ rest) ≡ (front ++ bs) ++ rest
      shape = sym (append_assoc front bs rest)

      count : n + length bs ≡ length (front ++ bs)
      count = omega (arith, length-append front bs, length-taken n xs fits)

      taken : take (n + length bs) (front ++ (bs ++ rest)) ≡ front ++ bs
      taken = ap₂ take count shape ∙ take-append (front ++ bs) rest

      left :
          drop (n + length bs + length cs) (front ++ (bs ++ rest)) ≡ drop (n + length (bs ++ cs)) xs
      left =
          drop-add (n + length bs) (length cs) (n + length bs + length cs) (front ++ (bs ++ rest))
            refl
          ∙ ap (drop (length cs)) (ap₂ drop count shape ∙ drop-append (front ++ bs) rest)
          ∙ sym (
              drop-add (n + length bs) (length cs) (n + length (bs ++ cs)) xs
                (omega (arith, length-append bs cs)))

  pub length-splice :
      (n : ℕ) (items xs : List A)
      → n + length items ≤ length xs
      → length (splice n items xs) ≡ length xs
  unfolding splice
  length-splice n items xs fits = omega (
    arith,
    length-append (take n xs) (items ++ drop (n + length items) xs),
    length-append items (drop (n + length items) xs),
    length-take n xs,
    length-drop (n + length items) xs,
  )

  drop-splice :
      (n : ℕ) (items xs : List A)
      → n ≤ length xs
      → drop (n + length items) (splice n items xs) ≡ drop (n + length items) xs
  unfolding splice
  drop-splice n items xs fits =
      ap₂ drop (omega (arith, length-append front items, length-taken n xs fits))
        (sym (append_assoc front items (drop (n + length items) xs)))
      ∙ drop-append (front ++ items) (drop (n + length items) xs)
    where
      front : List A
      front = take n xs

  take-drop-append :
      (m k : ℕ) (xs ys : List A)
      → m + k ≤ length xs
      → take k (drop m (xs ++ ys)) ≡ take k (drop m xs)
  take-drop-append m zero xs ys h = refl
  take-drop-append zero (suc k) [] ys h = ground arith
  take-drop-append (suc m) (suc k) [] ys h = ground arith
  take-drop-append zero (suc k) (x ∷ xs) ys h =
      ap (◌∷◌ x) (take-drop-append zero k xs ys (omega (arith, h)))
  take-drop-append (suc m) (suc k) (x ∷ xs) ys h =
      take-drop-append m (suc k) xs ys (omega (arith, h))

  -- What stands before the place is as it was.
  pub read-splice_before :
      (n m k : ℕ) (items xs : List A)
      → n ≤ length xs
      → m + k ≤ n
      → take k (drop m (splice n items xs)) ≡ take k (drop m xs)
  unfolding splice
  read-splice_before n m k items xs fits h =
      take-drop-append m k (take n xs) (items ++ drop (n + length items) xs)
        (omega (arith, h, fits, length-take n xs))
      ∙ sym
          (take-drop-append m k (take n xs) (drop n xs) (omega (arith, h, fits, length-take n xs)))
      ∙ ap (λ ys. take k (drop m ys)) (take-append-drop n xs)

  -- So is what stands behind the items.
  pub read-splice_behind :
      (n m k : ℕ) (items xs : List A)
      → n + length items ≤ length xs
      → n + length items ≤ m
      → take k (drop m (splice n items xs)) ≡ take k (drop m xs)
  unfolding splice
  read-splice_behind n m k items xs fits h =
      let place = n + length items in
      let j = m - place in
      ap (take k) (
        drop-add place j m (splice n items xs) (omega (arith, h))
        ∙ ap (drop j) (drop-splice n items xs (omega (arith, fits)))
        ∙ sym (drop-add place j m xs (omega (arith, h))))
