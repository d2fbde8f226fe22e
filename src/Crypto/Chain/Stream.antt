-- ===== src/Crypto/Chain/Stream.antt =====
-- A chain that is updated with chunks and then finalized.
use cpp_essence.Prelude.{
  ℕ, ◌+◌, ◌≡◌, refl, sym, ap, ap₂, ◌∙◌, inr, true, false, ◌&&◌, Bool, List, [], ◌∷◌, ◌++◌, Bytes,
  map, length, leb, arith,
}
use cpp_essence.Crypto.Pipeline.{Processing, pipe_update, pipe_all}
use cpp_essence.Crypto.Pipeline.Streaming.{IsStreaming, concat, compose, pipe_all-compose}
use cpp_essence.Crypto.Pipeline.Nested.{pipe_update-nil}
use cpp_essence.Crypto.Spans.{Span, read, Effect, done, ◌>>=◌}
use cpp_essence.Crypto.Chain.{
  Chain, Traits, max_buffer_size, update_chain, finalize_chain, null_span,
}
use cpp_essence.Crypto.Chain.Update.{all_fit, all_accept, IsChain, processors, update_chain-pipe}
use cpp_essence.Crypto.Chain.Finalize.{fits_finalize, finalize_chain-pipe}
use cpp_essence.Crypto.Chain.Construction.{
  any_differ, chain_chunk_processors, chain_chunk_processors-IsChain,
}

both : (a b : Bool) → (a && b) ≡ true → (a ≡ true) × (b ≡ true)
both a b h = ground (arith, h)

module _ {ℓ} {P : Type ℓ} (c : Processing P) where
  -- All that a chain gives out, each output read before the next call.
  unfoldable pub stream : List Bytes → Chain P → Effect Bytes
  stream [] s = finalize_chain c s >>= λ ((t, out) : Chain P × Span). done (read out t.heap)
  stream (chunk ∷ chunks) s = update_chain c chunk s >>= λ ((t, out) : Chain P × Span).
      (stream chunks t >>= λ (more : Bytes). done (read out t.heap ++ more))

  -- The calls for a chunk succeed. For an empty one a chain makes none.
  abbrev pub accepted : ℕ → List P → Bytes → Bool
  accepted n ps [] = true
  accepted n ps (x ∷ xs) = all_accept c n ps (x ∷ xs)

  -- What the processors make fits the buffers in every call, and every call succeeds.
  abbrev pub fits_stream : ℕ → List P → List Bytes → Bool
  fits_stream n [] [] = true
  fits_stream n (p ∷ ps) [] =
      c.accepts_end p
      && leb (length (c.finalize p).1) (n + n)
      && fits_finalize c (n + n) ps (c.finalize p).1
  fits_stream n ps (chunk ∷ chunks) =
      all_fit c n ps chunk
      && (accepted n ps chunk && fits_stream n (pipe_update c ps chunk).0 chunks)

  -- Any chunk, an empty one included.
  record Updated (s : Chain P) (chunk : Bytes) : Type ℓ where
    chain : Chain P
    out : Span
    run : update_chain c chunk s ≡ done (chain, out)
    states : processors c chain ≡ (pipe_update c (processors c s) chunk).0
    content : read out chain.heap ≡ (pipe_update c (processors c s) chunk).1
    size : chain.buffer_size ≡ s.buffer_size
    next : IsChain c chain

  updated :
      (s : Chain P) (chunk : Bytes)
      → IsStreaming c
      → IsChain c s
      → all_fit c s.buffer_size (processors c s) chunk ≡ true
      → accepted s.buffer_size (processors c s) chunk ≡ true
      → Updated s chunk
  unfolding update_chain read
  updated s [] laws chain small taken = record {
    chain = s;
    out = null_span;
    run = refl;
    states = ap (λ (r : List P × Bytes). r.0) (sym (pipe_update-nil c laws (processors c s)));
    content = ap (λ (r : List P × Bytes). r.1) (sym (pipe_update-nil c laws (processors c s)));
    size = refl;
    next = chain;
  }
  updated s (x ∷ xs) laws chain small taken =
      let (t, out, run, states, content, size, next) =
        update_chain-pipe c s (x ∷ xs) chain (omega arith) small taken in
      record {
        chain = t;
        out = out;
        run = run;
        states = states;
        content = content;
        size = size;
        next = next;
      }

  stream-cons :
      (chunk first more : Bytes) (chunks : List Bytes) (s t : Chain P) (out : Span)
      → update_chain c chunk s ≡ done (t, out)
      → read out t.heap ≡ first
      → stream chunks t ≡ done more
      → stream (chunk ∷ chunks) s ≡ done (first ++ more)
  unfolding stream ◌>>=◌
  stream-cons chunk first more chunks s t out run content rest = rw (run, rest, content) refl

  fits_stream-cons :
      (n : ℕ) (p q : P) (ps : List P) (chunk : Bytes) (chunks : List Bytes)
      → fits_stream n (p ∷ q ∷ ps) (chunk ∷ chunks) ≡ true
      → (all_fit c n (p ∷ q ∷ ps) chunk ≡ true)
        × (accepted n (p ∷ q ∷ ps) chunk ≡ true)
        × (fits_stream n (pipe_update c (p ∷ q ∷ ps) chunk).0 chunks ≡ true)
  fits_stream-cons n p q ps chunk chunks h =
      let (small, more) =
        both (all_fit c n (p ∷ q ∷ ps) chunk)
          (accepted n (p ∷ q ∷ ps) chunk
            && fits_stream n (pipe_update c (p ∷ q ∷ ps) chunk).0 chunks)
          h in
      let (taken, later) =
        both (accepted n (p ∷ q ∷ ps) chunk)
          (fits_stream n (pipe_update c (p ∷ q ∷ ps) chunk).0 chunks) more in
      (small, taken, later)

  stream-pipe :
      (chunks : List Bytes) (s : Chain P)
      → IsStreaming c
      → IsChain c s
      → fits_stream s.buffer_size (processors c s) chunks ≡ true
      → stream chunks s ≡ done (pipe_all c (processors c s) chunks)
  unfolding pipe_all
  stream-pipe [] s laws chain small =
      let (t, out, run, states, content, next) =
        finalize_chain-pipe c s chain (ground (arith, small)) (ground (arith, small))
          (ground (arith, small)) in
      unfold stream ◌>>=◌ in rw (run, content) refl
  stream-pipe (chunk ∷ chunks) s laws chain small =
      let (now, taken, later) =
        fits_stream-cons s.buffer_size s.front s.second s.others chunk chunks small in
      let k = updated s chunk laws chain now taken in
      stream-cons chunk (pipe_update c (processors c s) chunk).1
        (pipe_all c (pipe_update c (processors c s) chunk).0 chunks) chunks s k.chain k.out k.run
        k.content
        (stream-pipe chunks k.chain laws k.next
            (ap₂ (λ n ps. fits_stream n ps chunks) k.size k.states ∙ later)
          ∙ ap (λ ps. done (pipe_all c ps chunks)) k.states)

  -- A chain of at least two processors that are all transformers or all not is made, and when it is
  -- updated with chunks and then finalized, gives out what its processors make of the whole input one
  -- after the other, without an exception, if what they make in a call fits the buffers that the
  -- chain has made for them, and the calls of OpenSSL that the chain makes succeed. (It makes none for an
  -- empty chunk, but passes on empty chunks that a processor makes.)
  pub stream-compose :
      (traits : P → Traits) (p q : P) (ps : List P) (chunks : List Bytes)
      → IsStreaming c
      → any_differ (map traits (p ∷ q ∷ ps)) ≡ false
      → fits_stream (max_buffer_size (map traits (p ∷ q ∷ ps))) (p ∷ q ∷ ps) chunks ≡ true
      → (s : Chain P) × (chain_chunk_processors traits (p ∷ q ∷ ps) ≡ inr s)
        × (stream chunks s ≡ done (compose c (p ∷ q ∷ ps) (concat chunks)))
  stream-compose traits p q ps chunks laws same small =
      let (s, made, front, second, others, size, chain) =
        chain_chunk_processors-IsChain c traits p q ps same in
      let all : processors c s ≡ p ∷ q ∷ ps = rw (front, second, others) refl in
      (
        s,
        made,
        stream-pipe chunks s laws chain (ap₂ (λ n ps. fits_stream n ps chunks) size all ∙ small)
            ∙ ap (λ ps. done (pipe_all c ps chunks)) all
            ∙ ap done (pipe_all-compose c laws p (q ∷ ps) chunks),
      )
