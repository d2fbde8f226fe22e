-- ===== src/Crypto/Chain/Call.antt =====
-- A call of the next processor of a chain.
use cpp_essence.Prelude.{
  ℕ, ◌≤◌, ◌≡◌, refl, true, Bytes, length, if◌then◌else◌, arith, Bool-cases, inl, inr,
}
use cpp_essence.Memory.SwappingBuffer.{SwappingBuffer, swap, assign_out}
use cpp_essence.Crypto.Pipeline.{Processing}
use cpp_essence.Crypto.Spans.{Span, Heap, read, done, write, read-write}
use cpp_essence.Crypto.Chain.{helper_update}
use cpp_essence.Crypto.Chain.Buffers.{
  HasRoom, length-write, helper_update-done, Twins, Ready, swap-Ready,
}

-- Behind the last processor.
pub record After (left right : Span) (b : SwappingBuffer Span) (h h' : Heap) (last : Bytes)
    : Type 0 where
  pub swapped : b.swapped_out ≡ left
  pub unswapped : b.unswapped_out ≡ right
  pub content : read b.current_out h' ≡ last
  pub kept : (r : ℕ) → length (h' r) ≡ length (h r)

module _ {ℓ} {P : Type ℓ} (c : Processing P) where
  -- The output is one of the buffers, and lies in its region.
  pub Ready-output :
      (n : ℕ) (left right : Span) (b : SwappingBuffer Span) (h : Heap) (chunk : Bytes)
      → Twins n left right
      → Ready left right b h chunk
      → (b.current_out.size ≡ n) × HasRoom b.current_out h
  Ready-output n left right b h chunk twins ready = elim (Bool-cases b.swapping) [
    | inl f ↦ rw (ready.output, f, if◌then◌else◌) (twins.size_left, ready.room_left)
    | inr f ↦ rw (ready.output, f, if◌then◌else◌) (twins.size_right, ready.room_right)
  ]

  -- A call of the next processor, if what it makes fits and the call succeeds.
  pub record Called (left right : Span) (p : P) (b : SwappingBuffer Span) (h : Heap) (chunk : Bytes)
      : Type ℓ where
    pub out : Span
    pub heap : Heap
    pub call :
        helper_update c p b.current_in b.current_out h ≡ done ((c.update p chunk).0, out, heap)
    pub after : After left right (assign_out out b) h heap (c.update p chunk).1
    pub ready : Ready left right (swap (assign_out out b)) heap (c.update p chunk).1

  pub next-Called :
      (n : ℕ) (left right : Span) (p : P) (b : SwappingBuffer Span) (h : Heap) (chunk : Bytes)
      → Twins n left right
      → Ready left right b h chunk
      → length (c.update p chunk).1 ≤ n
      → c.accepts p chunk ≡ true
      → Called left right p b h chunk
  unfolding assign_out
  next-Called n left right p b h chunk twins ready small accepted = record {
    out = out;
    heap = heap;
    call =
        helper_update-done c p b.current_in b.current_out h chunk ready.free ready.content
          (omega (arith, small, whole.0)) accepted;
    after = record {
      swapped = ready.swapped;
      unswapped = ready.unswapped;
      content = content;
      kept = kept;
    };
    ready = swap-Ready n left right b h chunk made out twins ready small refl heap content kept;
  }
    where
      made : Bytes
      made = (c.update p chunk).1

      out : Span
      out = record b.current_out { size = length made }

      heap : Heap
      heap = write b.current_out made h

      whole : (b.current_out.size ≡ n) × HasRoom b.current_out h
      whole = Ready-output n left right b h chunk twins ready

      content : read out heap ≡ made
      content = read-write b.current_out made h (omega (arith, whole.1))

      kept : (r : ℕ) → length (heap r) ≡ length (h r)
      kept r = length-write b.current_out made h r whole.1 (omega (arith, small, whole.0))
