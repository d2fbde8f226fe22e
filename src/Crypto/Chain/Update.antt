-- ===== src/Crypto/Chain/Update.antt =====
-- `update` of a chain does what the chain promises, if what its processors make fits the buffers.
use cpp_essence.Prelude.{
  ℕ, ◌+◌, ◌<◌, ◌≡◌, refl, ap, ◌∙◌, true, false, Bool, List, [], ◌∷◌, Bytes, length, take, leb,
  leb→le, ◌==◌, ◌&&◌, ◌||◌, not, if◌then◌else◌, arith, Bool-cases, inl, inr,
}
use cpp_essence.Memory.SwappingBuffer.{SwappingBuffer, swap, assign_out, reset}
use cpp_essence.Crypto.Pipeline.{Processing, pipe_update}
use cpp_essence.Crypto.Spans.{Span, Heap, apart, read, done, overrun, ◌>>=◌}
use cpp_essence.Crypto.Chain.{
  Chain, helper_update, source_region, update_loop, update_chain, pair_in, pair_out,
  with_processors,
}
use cpp_essence.Crypto.Chain.Call.{After, Ready-output, next-Called}
use cpp_essence.Crypto.Chain.Buffers.{helper_update-overrun, Twins, Ready}

pair-Twins : (n : ℕ) → Twins n (pair_in n) (pair_out n)
unfolding apart
pair-Twins n = record {
  size_left = refl;
  size_right = refl;
  left_right = ground arith;
  right_left = ground arith;
}

take-length : (xs : Bytes) → take (length xs) xs ≡ xs
take-length [] = refl
take-length (x ∷ xs) = ap (◌∷◌ x) (take-length xs)

nonempty : (xs : Bytes) → 0 < length xs → (length xs == 0) ≡ false
nonempty xs h = ground arith

module _ {ℓ} {P : Type ℓ} (c : Processing P) where
  -- What each processor makes of a chunk fits a buffer of this size.
  abbrev pub all_fit : ℕ → List P → Bytes → Bool
  all_fit n [] chunk = true
  all_fit n (p ∷ ps) chunk =
      leb (length (c.update p chunk).1) n && all_fit n ps (c.update p chunk).1

  -- Each call succeeds, up to the first that makes more than fits.
  abbrev pub all_accept : ℕ → List P → Bytes → Bool
  all_accept n [] chunk = true
  all_accept n (p ∷ ps) chunk =
      not (leb (length (c.update p chunk).1) n)
      || c.accepts p chunk && all_accept n ps (c.update p chunk).1

  update_loop-fits :
      (n : ℕ) (left right : Span) (p : P) (ps : List P) (b : SwappingBuffer Span) (h : Heap)
      (chunk : Bytes)
      → Twins n left right
      → Ready left right b h chunk
      → all_fit n (p ∷ ps) chunk ≡ true
      → all_accept n (p ∷ ps) chunk ≡ true
      → (b' : SwappingBuffer Span) × (h' : Heap) × (update_loop c p ps b h
          ≡ done ((pipe_update c (p ∷ ps) chunk).0, b', h'))
        × After left right b' h h' (pipe_update c (p ∷ ps) chunk).1
  unfolding update_loop ◌>>=◌ pipe_update
  update_loop-fits n left right p [] b h chunk twins ready small accepted =
      let k =
        next-Called c n left right p b h chunk twins ready (ground (arith, small))
          (ground (arith, small, accepted)) in
      (assign_out k.out b, k.heap, rw k.call refl, k.after)
  update_loop-fits n left right p (q ∷ ps) b h chunk twins ready small accepted =
      let k =
        next-Called c n left right p b h chunk twins ready (ground (arith, small))
          (ground (arith, small, accepted)) in
      let (b', h', run, after) =
        update_loop-fits n left right q ps (swap (assign_out k.out b)) k.heap (c.update p chunk).1
          twins k.ready (ground (arith, small)) (ground (arith, small, accepted)) in
      (
        b',
        h',
        rw (k.call, run) refl,
        record {
          swapped = after.swapped;
          unswapped = after.unswapped;
          content = after.content;
          kept = λ r. after.kept r ∙ k.after.kept r;
        },
      )

  first-overrun :
      (n : ℕ) (left right : Span) (p : P) (b : SwappingBuffer Span) (h : Heap) (chunk : Bytes)
      → Twins n left right
      → Ready left right b h chunk
      → leb (length (c.update p chunk).1) n ≡ false
      → helper_update c p b.current_in b.current_out h ≡ overrun
  first-overrun n left right p b h chunk twins ready large =
      helper_update-overrun c p b.current_in b.current_out h chunk ready.free ready.content
        (rw ((Ready-output c n left right b h chunk twins ready).0) large)

  update_loop-overrun :
      (n : ℕ) (left right : Span) (p : P) (ps : List P) (b : SwappingBuffer Span) (h : Heap)
      (chunk : Bytes)
      → Twins n left right
      → Ready left right b h chunk
      → all_fit n (p ∷ ps) chunk ≡ false
      → all_accept n (p ∷ ps) chunk ≡ true
      → update_loop c p ps b h ≡ overrun
  unfolding update_loop ◌>>=◌
  update_loop-overrun n left right p [] b h chunk twins ready large accepted =
      rw (first-overrun n left right p b h chunk twins ready (ground (arith, large))) refl
  update_loop-overrun n left right p (q ∷ ps) b h chunk twins ready large accepted =
      elim (Bool-cases (leb (length (c.update p chunk).1) n)) [
        | inl small ↦
            let k =
              next-Called c n left right p b h chunk twins ready (leb→le _ _ small)
                (ground (arith, small, accepted)) in
            rw
              (
                k.call,
                update_loop-overrun n left right q ps (swap (assign_out k.out b)) k.heap
                    (c.update p chunk).1 twins k.ready (ground (arith, large, small))
                    (ground (arith, small, accepted)),
              )
              refl
        | inr first ↦ rw (first-overrun n left right p b h chunk twins ready first) refl
      ]

  -- The chain as the constructor and the calls leave it.
  pub record IsChain (s : Chain P) : Type ℓ where
    pub swapped : s.swapper.swapped_out ≡ pair_in s.buffer_size
    pub unswapped : s.swapper.unswapped_out ≡ pair_out s.buffer_size
    pub pair_length : length (s.heap 1) ≡ s.buffer_size + s.buffer_size
    pub finalization_length : length (s.heap 2) ≡ s.buffer_size + s.buffer_size

  abbrev pub processors : Chain P → List P
  processors s = s.front ∷ s.second ∷ s.others

  abbrev source : Bytes → Span
  source input = record { region = source_region; start = 0; size = length input }

  abbrev loaded : Bytes → Chain P → Heap
  loaded input s = λ r. if r == source_region then input else s.heap r

  start-Ready :
      (s : Chain P) (input : Bytes)
      → IsChain s
      → Ready
          (pair_in s.buffer_size)
          (pair_out s.buffer_size)
          (reset (source input) s.swapper)
          (loaded input s)
          input
  unfolding reset read apart
  start-Ready s input chain = record {
    swapped = chain.swapped;
    unswapped = chain.unswapped;
    output = chain.unswapped;
    free = rw chain.unswapped refl;
    content = take-length input;
    room_left = omega (arith, chain.pair_length);
    room_right = omega (arith, chain.pair_length);
  }

  -- For an input that is not empty, if what each processor makes of it fits a buffer of the chain and
  -- each call succeeds, `update` neither overruns a buffer nor reads one that it writes to, the processors come into the
  -- state and the output holds the bytes that the chain promises, and the chain keeps its layout.
  pub update_chain-pipe :
      (s : Chain P) (input : Bytes)
      → IsChain s
      → 0 < length input
      → all_fit s.buffer_size (processors s) input ≡ true
      → all_accept s.buffer_size (processors s) input ≡ true
      → (t : Chain P) × (out : Span) × (update_chain c input s ≡ done (t, out))
        × (processors t ≡ (pipe_update c (processors s) input).0)
        × (read out t.heap ≡ (pipe_update c (processors s) input).1)
        × (t.buffer_size ≡ s.buffer_size)
        × IsChain t
  unfolding update_chain ◌>>=◌ with_processors pipe_update
  update_chain-pipe s input chain some_input small accepted =
      let (b, h, run, after) =
        update_loop-fits s.buffer_size (pair_in s.buffer_size) (pair_out s.buffer_size) s.front
          (s.second ∷ s.others) (reset (source input) s.swapper) (loaded input s) input
          (pair-Twins s.buffer_size) (start-Ready s input chain) small accepted in
      let ps = (pipe_update c (processors s) input).0 in
      (
        with_processors s ps b h,
        b.current_out,
        rw (nonempty input some_input, run) refl,
        refl,
        after.content,
        refl,
        record {
          swapped = after.swapped;
          unswapped = after.unswapped;
          pair_length = after.kept 1 ∙ chain.pair_length;
          finalization_length = after.kept 2 ∙ chain.finalization_length;
        },
      )

  -- For an input that is not empty, if what some processor makes of it does not fit a buffer of the
  -- chain, and the calls before the first such processor succeed, `update` has OpenSSL write past a buffer's end.
  pub update_chain-overrun :
      (s : Chain P) (input : Bytes)
      → IsChain s
      → 0 < length input
      → all_fit s.buffer_size (processors s) input ≡ false
      → all_accept s.buffer_size (processors s) input ≡ true
      → update_chain c input s ≡ overrun
  unfolding update_chain ◌>>=◌
  update_chain-overrun s input chain some_input large accepted =
      rw
        (
          nonempty input some_input,
          update_loop-overrun s.buffer_size (pair_in s.buffer_size) (pair_out s.buffer_size) s.front
              (s.second ∷ s.others) (reset (source input) s.swapper) (loaded input s) input
              (pair-Twins s.buffer_size) (start-Ready s input chain) large accepted,
        )
        refl
