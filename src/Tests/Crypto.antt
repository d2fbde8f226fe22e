-- ===== src/Tests/Crypto.antt =====
-- Processors that write each byte twice and at their end the sum of all bytes.
use cpp_essence.Prelude.{
  ℕ, ◌+◌, ◌≡◌, refl, ap, inr, Bool, false, true, List, [], ◌∷◌, ◌++◌, Bytes, none, replicate, arith,
}
use cpp_essence.Memory.SwappingBuffer.{SwappingBuffer, new_swapping_buffer}
use cpp_essence.Crypto.Pipeline.{Processing, pipe_update}
use cpp_essence.Crypto.Pipeline.Streaming.{IsStreaming, compose}
use cpp_essence.Crypto.Ostream.{CipherStreambuf, init, close, Operation, put, flush, operate_all}
use cpp_essence.Crypto.Ostream.Calls.{Succeeds}
use cpp_essence.Crypto.Ostream.Whole.{ostream-whole}
use cpp_essence.Crypto.Spans.{done, overrun}
use cpp_essence.Crypto.Chain.{
  Chain, Traits, max_buffer_size, update_chain, null_span, pair_in, pair_out,
}
use cpp_essence.Crypto.Chain.Update.{IsChain, update_chain-overrun}
use cpp_essence.Crypto.Chain.Construction.{any_differ, chain_chunk_processors}
use cpp_essence.Crypto.Chain.Stream.{stream, stream-compose}

abbrev sum : Bytes → ℕ
sum [] = 0
sum (x ∷ xs) = x + sum xs

abbrev twice : Bytes → Bytes
twice [] = []
twice (x ∷ xs) = x ∷ x ∷ twice xs

-- Like OpenSSL's base64 encoder, it does not accept an empty chunk.
abbrev some_bytes : Bytes → Bool
some_bytes [] = false
some_bytes (x ∷ xs) = true

abbrev doubling : Processing ℕ
doubling = record {
  update = λ p chunk. (p + sum chunk, twice chunk);
  finalize = λ p. (p, p ∷ []);
  accepts = λ p chunk. some_bytes chunk;
  accepts_end = λ p. true;
}

sum-append : (xs ys : Bytes) → sum (xs ++ ys) ≡ sum xs + sum ys
sum-append [] ys = omega arith
sum-append (x ∷ xs) ys = omega (arith, sum-append xs ys)

twice-append : (xs ys : Bytes) → twice (xs ++ ys) ≡ twice xs ++ twice ys
twice-append [] ys = refl
twice-append (x ∷ xs) ys = ap (λ (r : Bytes). x ∷ x ∷ r) (twice-append xs ys)

doubling-IsStreaming : IsStreaming doubling
doubling-IsStreaming = record {
  update_nil = λ p. ap (λ (k : ℕ). (k, [])) (omega arith);
  update_append = λ p xs ys.
      rw (twice-append xs ys)
        (ap (λ (k : ℕ). (k, twice xs ++ twice ys)) (omega (arith, sum-append xs ys)));
}

abbrev traits : ℕ → Traits
traits p = record { transformer = true; buffer_size = 4; output_buffer_size = 8 }

abbrev two_doubling : Chain ℕ
two_doubling = record {
  front = 0;
  second = 0;
  others = [];
  buffer_size = 8;
  swapper = new_swapping_buffer null_span (pair_in 8) (pair_out 8);
  heap = λ r. replicate 16 0;
}

two_doubling-IsChain : IsChain doubling two_doubling
unfolding new_swapping_buffer
two_doubling-IsChain = record {
  swapped = refl;
  unswapped = refl;
  pair_length = refl;
  finalization_length = refl;
}

update_chain-overrun_example : update_chain doubling (5 ∷ 6 ∷ 7 ∷ []) two_doubling ≡ overrun
update_chain-overrun_example =
    update_chain-overrun doubling two_doubling (5 ∷ 6 ∷ 7 ∷ []) two_doubling-IsChain (omega arith)
      refl refl

stream-compose_example :
    (s : Chain ℕ) × (chain_chunk_processors traits (0 ∷ 0 ∷ []) ≡ inr s)
    × (stream doubling ((5 ∷ 6 ∷ []) ∷ [] ∷ (7 ∷ []) ∷ []) s
        ≡ done (compose doubling (0 ∷ 0 ∷ []) (5 ∷ 6 ∷ 7 ∷ [])))
unfolding max_buffer_size any_differ pipe_update
stream-compose_example =
    stream-compose doubling traits 0 0 [] ((5 ∷ 6 ∷ []) ∷ [] ∷ (7 ∷ []) ∷ []) doubling-IsStreaming
      refl refl

abbrev unopened : CipherStreambuf ℕ
unopened = record { processor = none; pending = []; capacity = 0; written = 9 ∷ []; raised = false }

abbrev writing : List Operation
writing = put 5 ∷ flush ∷ flush ∷ put 6 ∷ put 7 ∷ put 8 ∷ []

doubling-Succeeds : Succeeds doubling
doubling-Succeeds = record { updates = λ p x xs. refl; ends = λ p. refl }

ostream-whole_example :
    let (ok, r) = operate_all doubling writing (init doubling (λ p. 0) 2 3 unopened) in
    (ok ≡ true)
    × ((close doubling r).written ≡ 9 ∷ 5 ∷ 5 ∷ 6 ∷ 6 ∷ 7 ∷ 7 ∷ 8 ∷ 8 ∷ 26 ∷ [])
    × ((close doubling r).processor ≡ none)
ostream-whole_example =
    ostream-whole doubling (λ p. 0) 2 3 unopened writing doubling-IsStreaming doubling-Succeeds
      (omega arith)

abbrev buffers : SwappingBuffer ℕ
buffers = new_swapping_buffer 0 10 20
