-- ===== src/Memory/NonuniformGrid.antt =====
-- `nonuniform_grid_buffer` of include/essence/memory/nonuniform_grid_buffer.hpp: rows of components
-- of different sizes in one array. The template's arguments `Rows`, `ComponentCells`, `Row` and `I` are
-- arguments here, and their constraints are hypotheses.
pub mod Components
use cpp_essence.Prelude.{ℕ, zero, suc, ◌+◌, ◌*◌, List, [], ◌∷◌, take, drop, replicate, splice}

unfoldable pub accumulate : List ℕ → ℕ
accumulate [] = 0
accumulate (n ∷ ns) = n + accumulate ns

unfoldable pub row_cell_count : List ℕ → ℕ
unfolding accumulate
row_cell_count component_cells = accumulate component_cells

-- `std::get<I>(component_cells)`, which is the extent of a component's span.
unfoldable pub extent : List ℕ → ℕ → ℕ
extent [] i = 0
extent (n ∷ ns) zero = n
extent (n ∷ ns) (suc i) = extent ns i

-- Where a component begins.
unfoldable pub component_offset : List ℕ → ℕ → ℕ → ℕ
unfolding accumulate row_cell_count
component_offset component_cells row i =
    accumulate (take i component_cells) + row * row_cell_count component_cells

module _ {ℓ} {T : Type ℓ} where
  -- The array with its initial values.
  unfoldable pub new_grid : T → ℕ → List ℕ → List T
  unfolding row_cell_count
  new_grid value rows component_cells = replicate (row_cell_count component_cells * rows) value

  unfoldable pub get_component : List ℕ → ℕ → ℕ → List T → List T
  unfolding extent component_offset
  get_component component_cells row i buffer =
      take (extent component_cells i) (drop (component_offset component_cells row i) buffer)

  unfoldable pub set_component : List ℕ → ℕ → ℕ → List T → List T → List T
  unfolding component_offset splice
  set_component component_cells row i cells buffer =
      splice (component_offset component_cells row i) cells buffer
