-- ===== src/Memory/AtomicReadableBuffer/Readers.antt =====
-- What `get` returns while the buffer is updated.
use cpp_essence.Prelude.{ℕ, List, length, All, ◌≡◌}
use cpp_essence.Memory.AtomicReadableBuffer.{
  Writer, resting, size_stored, Reader, ready, loaded, Shared,
}

module _ {ℓ} {A : Type ℓ} where
  -- A result of `get` with the size of its buffer.
  abbrev pub Fits : List A × ℕ → Type 0
  Fits (buffer, size) = size ≡ length buffer

  abbrev WriterHas : ℕ → Writer A → Type 0
  WriterHas n resting = Unit
  WriterHas n (size_stored range) = length range ≡ n

  abbrev ReaderHas : ℕ → Reader A → Type 0
  ReaderHas n ready = Unit
  ReaderHas n (loaded buffer) = length buffer ≡ n

  -- Everything has the same size.
  record Same (n : ℕ) (s : Shared A) : Type ℓ where
    size_same : s.size ≡ n
    buffer_same : length s.buffer ≡ n
    writer_same : WriterHas n s.writer
    reader_same : ReaderHas n s.reader
    updates_same : All (λ range. length range ≡ n) s.updates
    results_fit : All Fits s.results
