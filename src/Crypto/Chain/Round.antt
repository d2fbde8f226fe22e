-- ===== src/Crypto/Chain/Round.antt =====
-- A round of the finalization of a chain.
use cpp_essence.Prelude.{
  ℕ, ◌+◌, ◌-◌, ◌≤◌, ◌≡◌, refl, ap, ◌∙◌, true, ◌++◌, Bytes, length, arith, length-append,
}
use cpp_essence.Memory.SwappingBuffer.{SwappingBuffer, swap, assign_out, original_out}
use cpp_essence.Crypto.Pipeline.{Processing}
use cpp_essence.Crypto.Spans.{Span, Heap, read, done, write, ◌>>=◌, read-write_behind}
use cpp_essence.Crypto.Chain.{iterate}
use cpp_essence.Crypto.Chain.Buffers.{
  HasRoom, length-write, helper_update-done, helper_finalize-done, Twins, Ready, swap-Ready,
}
use cpp_essence.Crypto.Chain.Call.{After, Ready-output}

Ready-original :
    (left right : Span) (b : SwappingBuffer Span) (h : Heap) (chunk : Bytes)
    → Ready left right b h chunk
    → original_out b ≡ b.current_out
unfolding original_out
Ready-original left right b h chunk ready =
    ground (arith, ready.swapped, ready.unswapped, ready.output)

module _ {ℓ} {P : Type ℓ} (c : Processing P) where
  -- A round of the next processor, if what it makes fits and both calls succeed.
  pub record Iterated (left right : Span) (p : P) (b : SwappingBuffer Span) (h : Heap)
      (chunk : Bytes) : Type ℓ where
    pub out : Span
    pub heap : Heap
    pub call : iterate c p b h ≡ done ((c.finalize (c.update p chunk).0).0, assign_out out b, heap)
    pub after :
        After left right
          (assign_out out b)
          h
          heap
          ((c.update p chunk).1 ++ (c.finalize (c.update p chunk).0).1)
    pub ready :
        Ready left right
          (swap (assign_out out b))
          heap
          ((c.update p chunk).1 ++ (c.finalize (c.update p chunk).0).1)

  pub next-Iterated :
      (n : ℕ) (left right : Span) (p : P) (b : SwappingBuffer Span) (h : Heap) (chunk : Bytes)
      → Twins n left right
      → Ready left right b h chunk
      → length (c.update p chunk).1 + length (c.finalize (c.update p chunk).0).1 ≤ n
      → c.accepts p chunk ≡ true
      → c.accepts_end (c.update p chunk).0 ≡ true
      → Iterated left right p b h chunk
  unfolding assign_out iterate ◌>>=◌
  next-Iterated n left right p b h chunk twins ready small taken ended = record {
    out = out;
    heap = heap;
    call = call;
    after = record {
      swapped = ready.swapped;
      unswapped = ready.unswapped;
      content = content;
      kept = kept;
    };
    ready =
        swap-Ready n left right b h chunk (made ++ last) out twins ready
          (omega (arith, small, length-append made last))
          (ap (λ (k : ℕ). record whole { size = k }) size) heap content kept;
  }
    where
      made : Bytes
      made = (c.update p chunk).1

      p' : P
      p' = (c.update p chunk).0

      last : Bytes
      last = (c.finalize p').1

      whole : Span
      whole = b.current_out

      facts : (whole.size ≡ n) × HasRoom whole h
      facts = Ready-output c n left right b h chunk twins ready

      middle : Span
      middle = record {
        region = whole.region;
        start = whole.start + length made;
        size = whole.start + whole.size - (whole.start + length made);
      }

      heap' : Heap
      heap' = write whole made h

      heap : Heap
      heap = write middle last heap'

      out : Span
      out = record whole { size = whole.start + length made + length last - whole.start }

      size : whole.start + length made + length last - whole.start ≡ length (made ++ last)
      size = omega (arith, length-append made last)

      content : read out heap ≡ made ++ last
      content =
          read-write_behind whole made last h middle.size out.size (omega (arith, facts.1)) size

      kept' : (r : ℕ) → length (heap' r) ≡ length (h r)
      kept' r = length-write whole made h r facts.1 (omega (arith, small, facts.0))

      kept : (r : ℕ) → length (heap r) ≡ length (h r)
      kept r =
          length-write middle last heap' r (omega (arith, facts.0, facts.1, kept' whole.region))
            (omega (arith, facts.0, small))
          ∙ kept' r

      call : iterate c p b h ≡ done ((c.finalize p').0, assign_out out b, heap)
      call =
          rw
            (
              helper_update-done c p b.current_in whole h chunk ready.free ready.content
                  (omega (arith, small, facts.0)) taken,
              Ready-original left right b h chunk ready,
              helper_finalize-done c p' middle heap' (omega (arith, facts.0, small)) ended,
            )
            refl
