-- ===== src/Memory/AtomicReadableBuffer.antt =====
-- include/essence/memory/atomic_readable_buffer.hpp, with one thread that updates the buffer and one
-- that gets it; each access to a member that both use is a step.
pub mod Readers
use cpp_essence.Prelude.{ℕ, List, [], ◌∷◌, length}

module _ {ℓ} (A : Type ℓ) where
  -- Between the stores of an update there is the new buffer.
  pub data Writer : Type ℓ where
    resting : Writer
    size_stored : List A → Writer

  -- Between the loads of `get` there is the buffer that was loaded.
  pub data Reader : Type ℓ where
    ready : Reader
    loaded : List A → Reader

  -- `size` and `buffer` are the members; the results of `get` come with the last one first.
  pub record Shared : Type ℓ where
    pub size : ℕ
    pub buffer : List A
    pub writer : Writer
    pub reader : Reader
    pub updates : List (List A)
    pub results : List (List A × ℕ)

-- Whose step it is.
pub data Turn : Type 0 where
  writing reading : Turn

module _ {ℓ} {A : Type ℓ} where
  unfoldable pub store_size : List (List A) → Shared A → Shared A
  store_size [] s = s
  store_size (range ∷ rest) s = record s {
    size = length range;
    writer = size_stored range;
    updates = rest;
  }

  unfoldable pub update_step : Writer A → Shared A → Shared A
  unfolding store_size
  update_step resting s = store_size s.updates s
  update_step (size_stored range) s = record s { buffer = range; writer = resting }

  unfoldable pub get_step : Reader A → Shared A → Shared A
  get_step ready s = record s { reader = loaded s.buffer }
  get_step (loaded buffer) s = record s { reader = ready; results = (buffer, s.size) ∷ s.results }

  unfoldable pub step : Turn → Shared A → Shared A
  unfolding update_step get_step
  step writing s = update_step s.writer s
  step reading s = get_step s.reader s

  unfoldable pub run : List Turn → Shared A → Shared A
  unfolding step
  run [] s = s
  run (t ∷ turns) s = run turns (step t s)

  -- A buffer that holds something, and what it is going to be updated with.
  unfoldable pub new_shared : List A → List (List A) → Shared A
  new_shared content updates = record {
    size = length content;
    buffer = content;
    writer = resting;
    reader = ready;
    updates = updates;
    results = [];
  }
