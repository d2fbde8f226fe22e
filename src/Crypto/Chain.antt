-- ===== src/Crypto/Chain.antt =====
-- `chain_processor` of src/crypto/chunk_processor.cpp, with src/crypto/inout_buffer_pair.cpp and
-- src/crypto/chunk_processing_helper.hpp, down to the buffers. The processors in it are OpenSSL's, none is
-- a chain. An error that OpenSSL reports leaves the call as an exception.
pub mod Buffers
pub mod Call
pub mod Round
pub mod Update
pub mod Finalize
pub mod Construction
pub mod Stream
use cpp_essence.Prelude.{
  ℕ, ◌+◌, ◌-◌, ◌*◌, true, Bool, List, [], ◌∷◌, Bytes, length, max, map, if◌then◌else◌, ◌==◌, not,
}
use cpp_essence.Memory.SwappingBuffer.{
  SwappingBuffer, new_swapping_buffer, reset, set_out, swap, original_out, assign_out,
  exit_temporary_out,
}
use cpp_essence.Crypto.Pipeline.{Processing}
use cpp_essence.Crypto.Spans.{
  Span, Heap, apart, read, put, Effect, done, overrun, overlap, thrown, ◌>>=◌,
}

abbrev pub null_span : Span
null_span = record { region = 0; start = 0; size = 0 }

-- The regions: the caller's input, the pair of buffers, the buffer for the finalization.
abbrev pub source_region : ℕ
source_region = 0

abbrev pair_region : ℕ
pair_region = 1

abbrev finalization_region : ℕ
finalization_region = 2

-- The parts of the pair, the whole of it, and the buffer for the finalization.
abbrev pub pair_in : ℕ → Span
pair_in n = record { region = pair_region; start = 0; size = n }

abbrev pub pair_out : ℕ → Span
pair_out n = record { region = pair_region; start = n; size = n }

abbrev pub whole_pair : ℕ → Span
whole_pair n = record { region = pair_region; start = 0; size = n + n }

abbrev pub whole_finalization : ℕ → Span
whole_finalization n = record { region = finalization_region; start = 0; size = n + n }

pub record Chain {ℓ} (P : Type ℓ) : Type ℓ where
  pub front : P
  pub second : P
  pub others : List P
  pub buffer_size : ℕ
  pub swapper : SwappingBuffer Span
  pub heap : Heap

-- What a processor says of itself: whether it transforms, its buffer's size, and the size that
-- `calculate_output_buffer_size` computes of it.
pub record Traits : Type 0 where
  pub transformer : Bool
  pub buffer_size : ℕ
  pub output_buffer_size : ℕ

unfoldable pub max_buffer_size : List Traits → ℕ
max_buffer_size [] = 0
max_buffer_size (t ∷ ts) = max (max t.buffer_size t.output_buffer_size) (max_buffer_size ts)

-- The chain behind a call, which changed its processors in place.
unfoldable pub with_processors {ℓ} :
    {P : Type ℓ} → Chain P → List P → SwappingBuffer Span → Heap → Chain P
with_processors s (p ∷ q ∷ ps) b h = record s {
  front = p;
  second = q;
  others = ps;
  swapper = b;
  heap = h;
}
with_processors s ps b h = record s { swapper = b; heap = h }

module _ {ℓ} {P : Type ℓ} (c : Processing P) where
  -- `chunk_processing_helper::update` and `finalize`: `check_error` sees the code of the call behind
  -- what the call has written.
  unfoldable pub helper_update : P → Span → Span → Heap → Effect (P × Span × Heap)
  helper_update p input output h =
      if apart input output
      then (put (c.update p (read input h)).1 output h >>= λ ((out, h') : Span × Heap).
          if c.accepts p (read input h)
          then done ((c.update p (read input h)).0, out, h')
          else thrown)
      else overlap

  unfoldable pub helper_finalize : P → Span → Heap → Effect (P × Span × Heap)
  helper_finalize p output h = put (c.finalize p).1 output h >>= λ ((out, h') : Span × Heap).
      if c.accepts_end p then done ((c.finalize p).0, out, h') else thrown

  -- The processors of `update` from one on, without a swap behind the last.
  unfoldable pub update_loop :
      P → List P → SwappingBuffer Span → Heap → Effect (List P × SwappingBuffer Span × Heap)
  unfolding assign_out swap
  update_loop p [] b h =
      helper_update p b.current_in b.current_out h >>= λ ((p', out, h') : P × Span × Heap).
      done (p' ∷ [], assign_out out b, h')
  update_loop p (q ∷ ps) b h =
      helper_update p b.current_in b.current_out h >>= λ ((p', out, h') : P × Span × Heap).
      (update_loop q ps (swap (assign_out out b)) h'
        >>= λ ((ps', b', h'') : List P × SwappingBuffer Span × Heap). done (p' ∷ ps', b', h''))

  unfoldable pub update_chain : Bytes → Chain P → Effect (Chain P × Span)
  unfolding reset update_loop with_processors
  update_chain input s =
      if length input == 0
      then done (s, null_span)
      else (update_loop s.front (s.second ∷ s.others)
            (reset (record { region = source_region; start = 0; size = length input }) s.swapper)
            (λ r. if r == source_region then input else s.heap r)
          >>= λ ((ps, b, h) : List P × SwappingBuffer Span × Heap).
              done (with_processors s ps b h, b.current_out))

  -- What `iterator` does before it swaps.
  unfoldable pub iterate : P → SwappingBuffer Span → Heap → Effect (P × SwappingBuffer Span × Heap)
  unfolding original_out assign_out
  iterate p b h =
      helper_update p b.current_in b.current_out h >>= λ ((p', out, h') : P × Span × Heap).
      (let whole = original_out b in
        let end = out.start + out.size in
        helper_finalize p'
          (record { region = whole.region; start = end; size = whole.start + whole.size - end }) h'
        >>= λ ((p'', last, h'') : P × Span × Heap). done (
          p'',
          assign_out
              (record {
                region = whole.region;
                start = whole.start;
                size = last.start + last.size - whole.start;
              })
              b,
          h'',
        ))

  -- The processors of `finalize` from one on.
  unfoldable pub finalize_loop :
      P → List P → SwappingBuffer Span → Heap → Effect (List P × SwappingBuffer Span × Heap)
  unfolding iterate swap
  finalize_loop p [] b h =
      iterate p b h >>= λ ((p', b', h') : P × SwappingBuffer Span × Heap). done (p' ∷ [], b', h')
  finalize_loop p (q ∷ ps) b h =
      iterate p b h >>= λ ((p', b', h') : P × SwappingBuffer Span × Heap).
      (finalize_loop q ps (swap b') h'
        >>= λ ((ps', b'', h'') : List P × SwappingBuffer Span × Heap). done (p' ∷ ps', b'', h''))

  unfoldable pub finalize_chain : Chain P → Effect (Chain P × Span)
  unfolding set_out finalize_loop with_processors exit_temporary_out
  finalize_chain s =
      let b =
        set_out (whole_finalization s.buffer_size) (whole_pair s.buffer_size) null_span s.swapper in
      helper_finalize s.front b.current_out s.heap >>= λ ((p, out, h) : P × Span × Heap).
      (finalize_loop s.second s.others (swap (assign_out out b)) h
        >>= λ ((ps, b', h') : List P × SwappingBuffer Span × Heap). done (
          with_processors s (p ∷ ps) (exit_temporary_out null_span s.swapper b') h',
          b'.current_out,
        ))
