-- ===== src/Memory/NonuniformGrid/Components.antt =====
-- Components neither overlap nor reach beyond the array.
use cpp_essence.Prelude.{
  ℕ, zero, suc, ◌+◌, ◌*◌, ◌≤◌, ◌<◌, ◌≡◌, ap, ◌∙◌, Bool, true, false, ◌&&◌, ◌==◌, Bool-cases, inl,
  inr, ◌⊎◌, List, [], ◌∷◌, length, take, arith, if◌then◌else◌, read-splice, length-splice,
  read-splice_before, read-splice_behind,
}
use cpp_essence.Memory.NonuniformGrid.{
  accumulate, row_cell_count, extent, component_offset, get_component, set_component,
}

-- Components of one row lie in order.
extent_fits : (ns : List ℕ) (i : ℕ) → accumulate (take i ns) + extent ns i ≤ accumulate ns
unfolding accumulate extent
extent_fits [] zero = omega arith
extent_fits [] (suc i) = omega arith
extent_fits (n ∷ ns) zero = omega arith
extent_fits (n ∷ ns) (suc i) = omega (arith, extent_fits ns i)

extents_ordered :
    (ns : List ℕ) (i j : ℕ) → i < j → accumulate (take i ns) + extent ns i ≤ accumulate (take j ns)
unfolding accumulate extent
extents_ordered [] zero (suc j) h = omega arith
extents_ordered [] (suc i) (suc j) h = omega arith
extents_ordered (n ∷ ns) zero (suc j) h = omega arith
extents_ordered (n ∷ ns) (suc i) (suc j) h =
    omega (arith, extents_ordered ns i j (omega (arith, h)))
extents_ordered ns i zero h = ground arith

rows_ordered : (w r s : ℕ) → r < s → r * w + w ≤ s * w
rows_ordered w r s h = grind arith

pub component_fits :
    (ns : List ℕ) (rows row i : ℕ)
    → row < rows
    → component_offset ns row i + extent ns i ≤ row_cell_count ns * rows
unfolding component_offset row_cell_count
component_fits ns rows row i h =
    omega (arith, extent_fits ns i, rows_ordered (accumulate ns) row rows h)

unfoldable pub is_same : ℕ → ℕ → ℕ → ℕ → Bool
is_same row i row' i' = (row == row') && (i == i')

is_same_sound : (row i row' i' : ℕ) → is_same row i row' i' ≡ true → (row ≡ row') × (i ≡ i')
unfolding is_same
is_same_sound row i row' i' h = (ground (arith, h), ground (arith, h))

-- One of two different components lies before the other.
components_apart :
    (ns : List ℕ) (row i row' i' : ℕ)
    → is_same row i row' i' ≡ false
    → (component_offset ns row i + extent ns i ≤ component_offset ns row' i')
      ⊎ (component_offset ns row' i' + extent ns i' ≤ component_offset ns row i)
unfolding component_offset row_cell_count is_same
components_apart ns row i row' i' h = elim (trichotomy row row') [
  | inl less ↦ inl (omega (arith, extent_fits ns i, rows_ordered (accumulate ns) row row' less))
  | inr (inl more) ↦
      inr (omega (arith, extent_fits ns i', rows_ordered (accumulate ns) row' row more))
  | inr (inr e) ↦ elim (trichotomy i i') [
    | inl less ↦
        inl (omega (arith, extents_ordered ns i i' less, ap (λ (r : ℕ). r * accumulate ns) e))
    | inr (inl more) ↦
        inr (omega (arith, extents_ordered ns i' i more, ap (λ (r : ℕ). r * accumulate ns) e))
    | inr (inr f) ↦ ground (arith, h, e, f)
  ]
]
  where
    trichotomy : (a b : ℕ) → (a < b) ⊎ (b < a) ⊎ (a ≡ b)
    trichotomy a b = omega arith

-- A component that is set with as many cells as it has is read back, every other one is as before,
-- and the array keeps its size; for rows within the array.
pub get_component-set_component {ℓ} :
    {T : Type ℓ} (ns : List ℕ) (rows row i row' i' : ℕ) (cells buffer : List T)
    → length buffer ≡ row_cell_count ns * rows
    → row < rows
    → row' < rows
    → length cells ≡ extent ns i
    → (get_component ns row' i' (set_component ns row i cells buffer)
        ≡ (if is_same row i row' i' then cells else get_component ns row' i' buffer))
      × (length (set_component ns row i cells buffer) ≡ row_cell_count ns * rows)
unfolding get_component set_component
get_component-set_component ns rows row i row' i' cells buffer size small small' fit =
    let fits : component_offset ns row i + length cells ≤ length buffer =
      omega (arith, component_fits ns rows row i small, size, fit) in
    (
      elim (Bool-cases (is_same row i row' i')) [
        | inl e ↦
            let (same_row, same_i) = is_same_sound row i row' i' e in
            rw e (
              rw⁻¹ (same_row, same_i, fit)
                (read-splice (component_offset ns row i) cells buffer (omega (arith, fits))))
        | inr e ↦ rw e (elim (components_apart ns row i row' i' e) [
          | inl before ↦
              read-splice_behind (component_offset ns row i) (component_offset ns row' i')
                (extent ns i') cells buffer fits (omega (arith, before, fit))
          | inr behind ↦
              read-splice_before (component_offset ns row i) (component_offset ns row' i')
                (extent ns i') cells buffer (omega (arith, fits)) behind
        ])
      ],
      length-splice (component_offset ns row i) cells buffer fits ∙ size,
    )
