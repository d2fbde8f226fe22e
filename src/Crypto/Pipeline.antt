-- ===== src/Crypto/Pipeline.antt =====
-- What a chain of chunk processors promises, without buffers: include/essence/crypto/chunk_processor.hpp
-- and the equations in the comment of src/crypto/chunk_processor.cpp. How a processor of OpenSSL
-- works is a parameter: from its state and a chunk it makes a state and a chunk, and its call says
-- whether it succeeded. Sizes stand below 2 ^ 31 here, where the casts to int32 keep them.
pub mod Streaming
pub mod Nested
use cpp_essence.Prelude.{Bool, List, [], ◌∷◌, ◌++◌, Bytes}

pub record Processing {ℓ} (P : Type ℓ) : Type ℓ where
  pub update : P → Bytes → P × Bytes
  pub finalize : P → P × Bytes
  pub accepts : P → Bytes → Bool
  pub accepts_end : P → Bool

module _ {ℓ} {P : Type ℓ} (c : Processing P) where
  open c use {update, finalize}

  -- A chunk goes through all processors.
  unfoldable pub pipe_update : List P → Bytes → List P × Bytes
  pipe_update [] chunk = ([], chunk)
  pipe_update (p ∷ ps) chunk =
      let (p', out) = update p chunk in let (ps', last) = pipe_update ps out in (p' ∷ ps', last)

  -- G1 = F1, Gn = Un(Gn-1) + Fn, from a chunk on.
  unfoldable pub pipe_finalize_from : List P → Bytes → List P × Bytes
  pipe_finalize_from [] chunk = ([], chunk)
  pipe_finalize_from (p ∷ ps) chunk =
      let (p', out) = update p chunk in
      let (p'', last) = finalize p' in
      let (ps', g) = pipe_finalize_from ps (out ++ last) in (p'' ∷ ps', g)

  unfoldable pub pipe_finalize : List P → List P × Bytes
  unfolding pipe_finalize_from
  pipe_finalize [] = ([], [])
  pipe_finalize (p ∷ ps) =
      let (p', first) = finalize p in let (ps', g) = pipe_finalize_from ps first in (p' ∷ ps', g)

  -- All that comes out for these chunks and at the end.
  unfoldable pub pipe_all : List P → List Bytes → Bytes
  unfolding pipe_update pipe_finalize
  pipe_all ps [] = (pipe_finalize ps).1
  pipe_all ps (chunk ∷ rest) = (pipe_update ps chunk).1 ++ pipe_all (pipe_update ps chunk).0 rest
