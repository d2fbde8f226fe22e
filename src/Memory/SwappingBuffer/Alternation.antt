-- ===== src/Memory/SwappingBuffer/Alternation.antt =====
-- Which spans are read and written.
use cpp_essence.Prelude.{ℕ, zero, suc, ◌≡◌, refl, ap, ◌∙◌, Bool, false, not, arith, if◌then◌else◌}
use cpp_essence.Memory.SwappingBuffer.{SwappingBuffer, reset, swap, original_out, assign_out}

-- What a round does: it narrows the output, then swaps.
module _ {ℓ} {S : Type ℓ} (narrow : S → S) where
  unfoldable round : SwappingBuffer S → SwappingBuffer S
  unfolding swap assign_out
  round b = swap (assign_out (narrow b.current_out) b)

  unfoldable pub rounds : ℕ → SwappingBuffer S → SwappingBuffer S
  unfolding round
  rounds zero b = b
  rounds (suc n) b = round (rounds n b)

  abbrev is_odd : ℕ → Bool
  is_odd zero = false
  is_odd (suc n) = not (is_odd n)

  -- Where the rounds have come to.
  pub record IsAt (n : ℕ) (b c : SwappingBuffer S) : Type ℓ where
    pub swapped : c.swapped_out ≡ b.swapped_out
    pub unswapped : c.unswapped_out ≡ b.unswapped_out
    pub parity : c.swapping ≡ is_odd n
    pub output : c.current_out ≡ (if is_odd n then b.swapped_out else b.unswapped_out)
    pub original : original_out c ≡ c.current_out

  pub rounds-IsAt : (n : ℕ) (b : SwappingBuffer S) (input : S) → IsAt n b (rounds n (reset input b))
  unfolding rounds reset original_out
  rounds-IsAt zero b input = record {
    swapped = refl;
    unswapped = refl;
    parity = refl;
    output = refl;
    original = refl;
  }
  rounds-IsAt (suc n) b input =
      let h = rounds-IsAt n b input in
      record {
        swapped = h.swapped;
        unswapped = h.unswapped;
        parity = ap not h.parity;
        output = ground (arith, h.parity, h.swapped, h.unswapped);
        original = refl;
      }

  -- However often the buffers are swapped behind a reset, with the output narrowed in between, the
  -- next input is what the last output was narrowed to, and the next output is the other one of
  -- the two whole buffers.
  pub round_alternates :
      (n : ℕ) (b : SwappingBuffer S) (input : S)
      → ((rounds (suc n) (reset input b)).current_in
          ≡ narrow (if is_odd n then b.swapped_out else b.unswapped_out))
        × ((rounds (suc n) (reset input b)).current_out
            ≡ (if is_odd n then b.unswapped_out else b.swapped_out))
  round_alternates n b input =
      let h = rounds-IsAt n b input in
      let k = rounds-IsAt (suc n) b input in
      (unfold rounds in ap narrow h.output, k.output ∙ ground arith)
