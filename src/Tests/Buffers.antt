-- ===== src/Tests/Buffers.antt =====
-- A buffer that is updated while it is read.
use cpp_essence.Prelude.{ℕ, ◌≡◌, refl, [], ◌∷◌}
use cpp_essence.Memory.AtomicReadableBuffer.{
  writing, reading, run, new_shared, step, update_step, store_size, get_step,
}

-- Between the two stores of an update a reader gets the old buffer with the size of the new one.
torn :
    (run
      (writing ∷ reading ∷ reading ∷ [])
      (new_shared {A = ℕ} (1 ∷ []) ((1 ∷ 2 ∷ 3 ∷ []) ∷ []))).results
    ≡ ((1 ∷ []), 3) ∷ []
unfolding run step update_step store_size get_step new_shared
torn = refl
