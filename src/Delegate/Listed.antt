-- ===== src/Delegate/Listed.antt =====
-- Listeners with ids that increase, as a counter gives them.
use cpp_essence.Prelude.{
  ℕ, ◌+◌, ◌≤◌, ◌<◌, ◌≡◌, refl, sym, ap, subst, inl, inr, false, List, [], ◌∷◌, ◌++◌, map, Option,
  some, ◌==◌, ==_iff, if◌then◌else◌, length, arith, Bool-cases,
}
use cpp_essence.Delegate.{has_id, erase_id}
use cpp_essence.Delegate.Invariant.{functions}

module _ {ℓ} {F : Type ℓ} where
  -- Listeners whose functions are not empty.
  abbrev pub listed : List (ℕ × F) → List (ℕ × Option F)
  listed [] = []
  listed ((id, f) ∷ xs) = (id, some f) ∷ listed xs

  -- Numbered on from a number, and without those of an id.
  abbrev pub numbered : ℕ → List (ℕ × F) → List (ℕ × F)
  numbered n [] = []
  numbered n ((id, f) ∷ xs) = (n + 1, f) ∷ numbered (n + 1) xs

  abbrev pub without : ℕ → List (ℕ × F) → List (ℕ × F)
  without id [] = []
  without id ((j, f) ∷ xs) = let rest = without id xs in if j == id then rest else (j, f) ∷ rest

  -- Ids that increase, above the first bound and up to the second.
  unfoldable pub Between : ℕ → ℕ → List (ℕ × F) → Type 0
  Between low high [] = low ≤ high
  Between low high ((j, f) ∷ xs) = (low < j) × Between j high xs

  pub Between-lower :
      (a low high : ℕ) (xs : List (ℕ × F)) → a ≤ low → Between low high xs → Between a high xs
  unfolding Between
  Between-lower a low high [] h b = omega (arith, h, b)
  Between-lower a low high ((j, f) ∷ xs) h (b, bs) = (omega (arith, h, b), bs)

  pub Between-numbered :
      (low high : ℕ) (xs ys : List (ℕ × F))
      → Between low high xs
      → Between low (high + length ys) (xs ++ numbered high ys)
  unfolding Between
  Between-numbered low high [] [] b = omega (arith, b)
  Between-numbered low high [] ((id, f) ∷ ys) b = (
    omega (arith, b),
    subst (λ n. Between (high + 1) n (numbered (high + 1) ys)) (omega arith)
        (Between-numbered (high + 1) (high + 1) [] ys (omega arith)),
  )
  Between-numbered low high ((j, f) ∷ xs) ys (b, bs) = (b, Between-numbered j high xs ys bs)

  pub Between-without :
      (low high id : ℕ) (xs : List (ℕ × F)) → Between low high xs → Between low high (without id xs)
  unfolding Between
  Between-without low high id [] b = b
  Between-without low high id ((j, f) ∷ xs) (b, bs) = elim (Bool-cases (j == id)) [
    | inl e ↦ rw e (
        Between-lower low j high (without id xs) (omega (arith, b))
          (Between-without j high id xs bs))
    | inr e ↦ rw e (b, Between-without j high id xs bs)
  ]

  -- An id below all others is not among them.
  pub without-below :
      (low high id : ℕ) (xs : List (ℕ × F)) → id ≤ low → Between low high xs → without id xs ≡ xs
  unfolding Between
  without-below low high id [] h b = refl
  without-below low high id ((j, f) ∷ xs) h (b, bs) =
      rw (other, without-below j high id xs (omega (arith, h, b)) bs) refl
    where
      other : (j == id) ≡ false
      other = ground (arith, h, b)

  -- The first listener with an id is the only one.
  pub erase_id-without :
      (low high id : ℕ) (xs : List (ℕ × F))
      → Between low high xs
      → erase_id id (listed xs) ≡ listed (without id xs)
  unfolding Between erase_id
  erase_id-without low high id [] b = refl
  erase_id-without low high id ((j, f) ∷ xs) (b, bs) = elim (Bool-cases (j == id)) [
    | inl e ↦
        rw e (ap listed (sym (without-below j high id xs (ground (arith, (==_iff j id).0 e)) bs)))
    | inr e ↦ rw e (ap (◌∷◌ (j, some f)) (erase_id-without j high id xs bs))
  ]

  pub erase_id-absent :
      (id : ℕ) (xs : List (ℕ × Option F)) → has_id id xs ≡ false → erase_id id xs ≡ xs
  unfolding erase_id
  erase_id-absent id [] h = refl
  erase_id-absent id ((j, f) ∷ xs) h = ground (arith, h, erase_id-absent id xs)

  pub listed-append : (xs ys : List (ℕ × F)) → listed (xs ++ ys) ≡ listed xs ++ listed ys
  listed-append [] ys = refl
  listed-append ((id, f) ∷ xs) ys = ap (◌∷◌ (id, some f)) (listed-append xs ys)

  pub functions-listed :
      (xs : List (ℕ × F)) → functions (listed xs) ≡ map some (map (λ (x : ℕ × F). x.1) xs)
  functions-listed [] = refl
  functions-listed ((id, f) ∷ xs) = ap (◌∷◌ (some f)) (functions-listed xs)
