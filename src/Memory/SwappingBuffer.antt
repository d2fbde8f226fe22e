-- ===== src/Memory/SwappingBuffer.antt =====
-- `swapping_buffer` of include/essence/memory/swapping_buffer.hpp, over any type of spans with an
-- empty one, and the scope of `set_temporary_out`, which include/essence/scope.hpp ends.
pub mod Alternation
use cpp_essence.Prelude.{Bool, true, false, not, if◌then◌else◌}

pub record SwappingBuffer {ℓ} (S : Type ℓ) : Type ℓ where
  pub swapping : Bool
  pub swapped_out : S
  pub unswapped_out : S
  pub current_in : S
  pub current_out : S

module _ {ℓ} {S : Type ℓ} where
  -- The constructor from two outputs; the input is the empty span.
  unfoldable pub new_swapping_buffer : S → S → S → SwappingBuffer S
  new_swapping_buffer empty swapped_out unswapped_out = record {
    swapping = false;
    swapped_out = swapped_out;
    unswapped_out = unswapped_out;
    current_in = empty;
    current_out = unswapped_out;
  }

  unfoldable pub reset : S → SwappingBuffer S → SwappingBuffer S
  reset input b = record b { current_in = input; current_out = b.unswapped_out; swapping = false }

  unfoldable pub set_out : S → S → S → SwappingBuffer S → SwappingBuffer S
  unfolding reset
  set_out swapped_out unswapped_out input b =
      reset input (record b { swapped_out = swapped_out; unswapped_out = unswapped_out })

  unfoldable pub swap : SwappingBuffer S → SwappingBuffer S
  swap b =
      let swapping = not b.swapping in
      record b {
        current_in = b.current_out;
        swapping = swapping;
        current_out = if swapping then b.swapped_out else b.unswapped_out;
      }

  unfoldable pub original_out : SwappingBuffer S → S
  original_out b = if b.swapping then b.swapped_out else b.unswapped_out

  -- An assignment to `out()`.
  unfoldable pub assign_out : S → SwappingBuffer S → SwappingBuffer S
  assign_out s b = record b { current_out = s }

  -- The exit handler of `set_temporary_out`, which holds the outputs from before the scope.
  unfoldable pub exit_temporary_out : S → SwappingBuffer S → SwappingBuffer S → SwappingBuffer S
  unfolding set_out reset
  exit_temporary_out empty before b =
      reset empty (set_out before.swapped_out before.unswapped_out empty b)
