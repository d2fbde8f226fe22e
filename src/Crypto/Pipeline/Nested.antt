-- ===== src/Crypto/Pipeline/Nested.antt =====
-- An empty chunk in a chain of processors.
use cpp_essence.Prelude.{◌≡◌, refl, List, [], ◌∷◌}
use cpp_essence.Crypto.Pipeline.{Processing, pipe_update}
use cpp_essence.Crypto.Pipeline.Streaming.{IsStreaming}

module _ {ℓ} {P : Type ℓ} (c : Processing P) where
  -- It changes no processor and nothing comes out.
  pub pipe_update-nil : (laws : IsStreaming c) (ps : List P) → pipe_update c ps [] ≡ (ps, [])
  unfolding pipe_update
  pipe_update-nil laws [] = refl
  pipe_update-nil laws (p ∷ ps) = rw (laws.update_nil p, pipe_update-nil laws ps) refl
