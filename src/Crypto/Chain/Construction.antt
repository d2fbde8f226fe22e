-- ===== src/Crypto/Chain/Construction.antt =====
-- `chain_chunk_processors` of src/crypto/chunk_processor.cpp.
use cpp_essence.Prelude.{
  ◌+◌, ◌≡◌, refl, ◌⊎◌, inl, inr, true, false, not, ◌||◌, Bool, List, [], ◌∷◌, map, replicate,
  length-replicate, if◌then◌else◌,
}
use cpp_essence.Memory.SwappingBuffer.{new_swapping_buffer}
use cpp_essence.Crypto.Pipeline.{Processing}
use cpp_essence.Crypto.Chain.{Chain, Traits, max_buffer_size, null_span, pair_in, pair_out}
use cpp_essence.Crypto.Chain.Update.{IsChain}

pub data ChainError : Type 0 where
  too_few : ChainError
  mixed : ChainError

abbrev pub differ : Bool → Bool → Bool
differ true b = not b
differ false b = b

-- Two neighbours of which one is a transformer and one is not.
unfoldable pub any_differ : List Traits → Bool
any_differ [] = false
any_differ (t ∷ []) = false
any_differ (t ∷ u ∷ ts) = differ t.transformer u.transformer || any_differ (u ∷ ts)

-- What the processors say of themselves is a parameter.
unfoldable pub chain_chunk_processors {ℓ} :
    {P : Type ℓ} → (P → Traits) → List P → ChainError ⊎ Chain P
unfolding max_buffer_size any_differ new_swapping_buffer
chain_chunk_processors traits [] = inl too_few
chain_chunk_processors traits (p ∷ []) = inl too_few
chain_chunk_processors traits (p ∷ q ∷ ps) =
    let n = max_buffer_size (map traits (p ∷ q ∷ ps)) in
    if any_differ (map traits (p ∷ q ∷ ps))
    then inl mixed
    else inr (record {
      front = p;
      second = q;
      others = ps;
      buffer_size = n;
      swapper = new_swapping_buffer null_span (pair_in n) (pair_out n);
      heap = λ r. replicate (n + n) 0;
    })

module _ {ℓ} {P : Type ℓ} (c : Processing P) where
  -- Of at least two processors that are all transformers or all not a chain is made.
  pub chain_chunk_processors-IsChain :
      (traits : P → Traits) (p q : P) (ps : List P)
      → any_differ (map traits (p ∷ q ∷ ps)) ≡ false
      → (s : Chain P) × (chain_chunk_processors traits (p ∷ q ∷ ps) ≡ inr s)
        × (s.front ≡ p)
        × (s.second ≡ q)
        × (s.others ≡ ps)
        × (s.buffer_size ≡ max_buffer_size (map traits (p ∷ q ∷ ps)))
        × IsChain c s
  unfolding chain_chunk_processors new_swapping_buffer
  chain_chunk_processors-IsChain traits p q ps same =
      let n = max_buffer_size (map traits (p ∷ q ∷ ps)) in
      (
        record {
          front = p;
          second = q;
          others = ps;
          buffer_size = n;
          swapper = new_swapping_buffer null_span (pair_in n) (pair_out n);
          heap = λ r. replicate (n + n) 0;
        },
        rw same refl,
        refl,
        refl,
        refl,
        refl,
        record {
          swapped = refl;
          unswapped = refl;
          pair_length = length-replicate (n + n) 0;
          finalization_length = length-replicate (n + n) 0;
        },
      )
