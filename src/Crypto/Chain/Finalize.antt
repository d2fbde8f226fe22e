-- ===== src/Crypto/Chain/Finalize.antt =====
-- `finalize` of a chain does what the chain promises, if what its processors make fits the buffers.
use cpp_essence.Prelude.{
  ℕ, ◌+◌, ◌≤◌, ◌≡◌, refl, ◌∙◌, true, Bool, List, [], ◌∷◌, ◌++◌, Bytes, length, leb, ◌&&◌, arith,
}
use cpp_essence.Memory.SwappingBuffer.{
  SwappingBuffer, swap, assign_out, reset, set_out, exit_temporary_out,
}
use cpp_essence.Crypto.Pipeline.{Processing, pipe_finalize, pipe_finalize_from}
use cpp_essence.Crypto.Spans.{Span, Heap, apart, read, done, write, ◌>>=◌, read-write}
use cpp_essence.Crypto.Chain.{
  Chain, finalize_loop, finalize_chain, whole_pair, whole_finalization, with_processors, null_span,
}
use cpp_essence.Crypto.Chain.Buffers.{length-write, helper_finalize-done, Twins, Ready, swap-Ready}
use cpp_essence.Crypto.Chain.Call.{After}
use cpp_essence.Crypto.Chain.Round.{next-Iterated}
use cpp_essence.Crypto.Chain.Update.{IsChain, processors}

module _ {ℓ} {P : Type ℓ} (c : Processing P) where
  -- What a processor makes of a chunk and at its end fits a buffer of this size together, and both
  -- calls succeed.
  abbrev pub fits_finalize : ℕ → List P → Bytes → Bool
  fits_finalize n [] chunk = true
  fits_finalize n (p ∷ ps) chunk =
      let out = (c.update p chunk).1 in
      let last = (c.finalize (c.update p chunk).0).1 in
      c.accepts p chunk
      && c.accepts_end (c.update p chunk).0
      && leb (length out + length last) n
      && fits_finalize n ps (out ++ last)

  finalize_fits :
      (n : ℕ) (p : P) (ps : List P) (chunk : Bytes)
      → fits_finalize n (p ∷ ps) chunk ≡ true
      → (c.accepts p chunk ≡ true)
        × (c.accepts_end (c.update p chunk).0 ≡ true)
        × (length (c.update p chunk).1 + length (c.finalize (c.update p chunk).0).1 ≤ n)
  finalize_fits n p ps chunk h = (ground (arith, h), ground (arith, h), ground (arith, h))

  finalize_loop-fits :
      (n : ℕ) (left right : Span) (p : P) (ps : List P) (b : SwappingBuffer Span) (h : Heap)
      (chunk : Bytes)
      → Twins n left right
      → Ready left right b h chunk
      → fits_finalize n (p ∷ ps) chunk ≡ true
      → (b' : SwappingBuffer Span) × (h' : Heap) × (finalize_loop c p ps b h
          ≡ done ((pipe_finalize_from c (p ∷ ps) chunk).0, b', h'))
        × After left right b' h h' (pipe_finalize_from c (p ∷ ps) chunk).1
  unfolding finalize_loop ◌>>=◌ pipe_finalize_from
  finalize_loop-fits n left right p [] b h chunk twins ready small =
      let k =
        (let (taken, ended, room) = finalize_fits n p [] chunk small in
          next-Iterated c n left right p b h chunk twins ready room taken ended) in
      (assign_out k.out b, k.heap, rw k.call refl, k.after)
  finalize_loop-fits n left right p (q ∷ ps) b h chunk twins ready small =
      let k =
        (let (taken, ended, room) = finalize_fits n p (q ∷ ps) chunk small in
          next-Iterated c n left right p b h chunk twins ready room taken ended) in
      let (b', h', run, after) =
        finalize_loop-fits n left right q ps (swap (assign_out k.out b)) k.heap
          ((c.update p chunk).1 ++ (c.finalize (c.update p chunk).0).1) twins k.ready
          (ground (arith, small)) in
      (
        b',
        h',
        rw (k.call, run) refl,
        record {
          swapped = after.swapped;
          unswapped = after.unswapped;
          content = after.content;
          kept = λ r. after.kept r ∙ k.after.kept r;
        },
      )

  whole-Twins : (n : ℕ) → Twins (n + n) (whole_finalization n) (whole_pair n)
  unfolding apart
  whole-Twins n = record {
    size_left = refl;
    size_right = refl;
    left_right = refl;
    right_left = refl;
  }

  -- The swapping buffer within `finalize`, before the first processor.
  abbrev temporary : Chain P → SwappingBuffer Span
  temporary s =
      set_out (whole_finalization s.buffer_size) (whole_pair s.buffer_size) null_span s.swapper

  start-Ready :
      (s : Chain P)
      → IsChain c s
      → Ready (whole_finalization s.buffer_size) (whole_pair s.buffer_size) (temporary s) s.heap []
  unfolding set_out reset read apart
  start-Ready s chain = record {
    swapped = refl;
    unswapped = refl;
    output = refl;
    free = refl;
    content = refl;
    room_left = omega (arith, chain.finalization_length);
    room_right = omega (arith, chain.pair_length);
  }

  -- What the first processor leaves of the pair.
  abbrev begun : Chain P → Span
  begun s = record (whole_pair s.buffer_size) { size = length (c.finalize s.front).1 }

  front_kept :
      (s : Chain P)
      → IsChain c s
      → length (c.finalize s.front).1 ≤ s.buffer_size + s.buffer_size
      → (r : ℕ)
      → length (write (whole_pair s.buffer_size) (c.finalize s.front).1 s.heap r)
        ≡ length (s.heap r)
  front_kept s chain first r =
      length-write (whole_pair s.buffer_size) (c.finalize s.front).1 s.heap r
        (omega (arith, chain.pair_length)) first

  first-Ready :
      (s : Chain P)
      → IsChain c s
      → length (c.finalize s.front).1 ≤ s.buffer_size + s.buffer_size
      → Ready
          (whole_finalization s.buffer_size)
          (whole_pair s.buffer_size)
          (swap (assign_out (begun s) (temporary s)))
          (write (whole_pair s.buffer_size) (c.finalize s.front).1 s.heap)
          (c.finalize s.front).1
  unfolding set_out reset
  first-Ready s chain first =
      let n = s.buffer_size in
      let made = (c.finalize s.front).1 in
      swap-Ready (n + n) (whole_finalization n) (whole_pair n) (temporary s) s.heap [] made
        (begun s) (whole-Twins n) (start-Ready s chain) first refl
        (write (whole_pair n) made s.heap) (read-write (whole_pair n) made s.heap (omega arith))
        (front_kept s chain first)

  -- If what each processor makes fits the buffers for the finalization and each call succeeds, `finalize` neither overruns
  -- one nor reads one that it writes to, the processors come into the state and the output holds the
  -- bytes that the chain promises, and the chain keeps its layout.
  pub finalize_chain-pipe :
      (s : Chain P)
      → IsChain c s
      → c.accepts_end s.front ≡ true
      → length (c.finalize s.front).1 ≤ s.buffer_size + s.buffer_size
      → fits_finalize (s.buffer_size + s.buffer_size) (s.second ∷ s.others) (c.finalize s.front).1
        ≡ true
      → (t : Chain P) × (out : Span) × (finalize_chain c s ≡ done (t, out))
        × (processors c t ≡ (pipe_finalize c (processors c s)).0)
        × (read out t.heap ≡ (pipe_finalize c (processors c s)).1)
        × IsChain c t
  unfolding finalize_chain ◌>>=◌ with_processors pipe_finalize pipe_finalize_from exit_temporary_out
      set_out reset
  finalize_chain-pipe s chain ended first small =
      let n = s.buffer_size in
      let made = (c.finalize s.front).1 in
      let (b, h, run, after) =
        finalize_loop-fits (n + n) (whole_finalization n) (whole_pair n) s.second s.others
          (swap (assign_out (begun s) (temporary s))) (write (whole_pair n) made s.heap) made
          (whole-Twins n) (first-Ready s chain first) small in
      (
        with_processors s (pipe_finalize c (processors c s)).0
            (exit_temporary_out null_span s.swapper b) h,
        b.current_out,
        rw (helper_finalize-done c s.front (whole_pair n) s.heap first ended, run) refl,
        refl,
        after.content,
        record {
          swapped = chain.swapped;
          unswapped = chain.unswapped;
          pair_length = after.kept 1 ∙ front_kept s chain first 1 ∙ chain.pair_length;
          finalization_length =
              after.kept 2 ∙ front_kept s chain first 2 ∙ chain.finalization_length;
        },
      )
