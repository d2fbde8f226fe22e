-- ===== src/Crypto/Chain/Buffers.antt =====
-- One call of a processor on the buffers of a chain, and the two buffers between which it goes.
use cpp_essence.Prelude.{
  splice, length-splice, ℕ, ◌+◌, ◌≤◌, ◌≡◌, refl, subst, true, false, Bytes, length, leb, ◌==◌,
  if◌then◌else◌, arith, le→leb, Bool-cases, inl, inr,
}
use cpp_essence.Memory.SwappingBuffer.{SwappingBuffer, swap, assign_out}
use cpp_essence.Crypto.Pipeline.{Processing}
use cpp_essence.Crypto.Spans.{Span, Heap, apart, read, put, done, overrun, write, ◌>>=◌}
use cpp_essence.Crypto.Chain.{helper_update, helper_finalize}

-- The span lies in its region.
abbrev pub HasRoom : Span → Heap → Type 0
HasRoom s h = s.start + s.size ≤ length (h s.region)

pub length-write :
    (s : Span) (bytes : Bytes) (h : Heap) (r : ℕ)
    → HasRoom s h
    → length bytes ≤ s.size
    → length (write s bytes h r) ≡ length (h r)
unfolding write
length-write s bytes h r room fits = elim (Bool-cases (r == s.region)) [
  | inl e ↦ rw e (
      subst (λ (q : ℕ). length (splice s.start bytes (h q)) ≡ length (h q)) (found e)
        (length-splice s.start bytes (h s.region) (omega (arith, room, fits))))
  | inr e ↦ rw e refl
]
  where
    found : (r == s.region) ≡ true → s.region ≡ r
    found e = ground (arith, e)

pub narrow-apart :
    (a b : Span) (k : ℕ) → k ≤ a.size → apart a b ≡ true → apart (record a { size = k }) b ≡ true
unfolding apart
narrow-apart a b k small h = ground arith

module _ {ℓ} {P : Type ℓ} (c : Processing P) where
  pub helper_update-done :
      (p : P) (input output : Span) (h : Heap) (chunk : Bytes)
      → apart input output ≡ true
      → read input h ≡ chunk
      → length (c.update p chunk).1 ≤ output.size
      → c.accepts p chunk ≡ true
      → helper_update c p input output h
        ≡ done (
          (c.update p chunk).0,
          record output { size = length (c.update p chunk).1 },
          write output (c.update p chunk).1 h,
        )
  unfolding helper_update put ◌>>=◌
  helper_update-done p input output h chunk free e fits accepted =
      rw (free, e, le→leb (length (c.update p chunk).1) output.size fits, accepted) refl

  pub helper_update-overrun :
      (p : P) (input output : Span) (h : Heap) (chunk : Bytes)
      → apart input output ≡ true
      → read input h ≡ chunk
      → leb (length (c.update p chunk).1) output.size ≡ false
      → helper_update c p input output h ≡ overrun
  unfolding helper_update put ◌>>=◌
  helper_update-overrun p input output h chunk free e large = rw (free, e, large) refl

  pub helper_finalize-done :
      (p : P) (output : Span) (h : Heap)
      → length (c.finalize p).1 ≤ output.size
      → c.accepts_end p ≡ true
      → helper_finalize c p output h
        ≡ done (
          (c.finalize p).0,
          record output { size = length (c.finalize p).1 },
          write output (c.finalize p).1 h,
        )
  unfolding helper_finalize put ◌>>=◌
  helper_finalize-done p output h fits accepted =
      rw (le→leb (length (c.finalize p).1) output.size fits, accepted) refl

-- Two buffers of one size beside one another.
pub record Twins (n : ℕ) (left right : Span) : Type 0 where
  pub size_left : left.size ≡ n
  pub size_right : right.size ≡ n
  pub left_right : apart left right ≡ true
  pub right_left : apart right left ≡ true

-- A chunk waits in a span beside the output, which is one of the two buffers.
pub record Ready (left right : Span) (b : SwappingBuffer Span) (h : Heap) (chunk : Bytes)
    : Type 0 where
  pub swapped : b.swapped_out ≡ left
  pub unswapped : b.unswapped_out ≡ right
  pub output : b.current_out ≡ (if b.swapping then left else right)
  pub free : apart b.current_in b.current_out ≡ true
  pub content : read b.current_in h ≡ chunk
  pub room_left : HasRoom left h
  pub room_right : HasRoom right h

-- Behind a swap the bytes that were written wait for the next processor.
pub swap-Ready :
    (n : ℕ) (left right : Span) (b : SwappingBuffer Span) (h : Heap) (chunk bytes : Bytes)
    (end : Span)
    → Twins n left right
    → Ready left right b h chunk
    → length bytes ≤ n
    → end ≡ record b.current_out { size = length bytes }
    → (h' : Heap) → read end h' ≡ bytes
    → ((r : ℕ) → length (h' r) ≡ length (h r))
    → Ready left right (swap (assign_out end b)) h' bytes
unfolding swap assign_out
swap-Ready n left right b h chunk bytes end twins ready fits e h' written kept = record {
  swapped = ready.swapped;
  unswapped = ready.unswapped;
  output = ground (arith, ready.swapped, ready.unswapped);
  free = elim (Bool-cases b.swapping) [
    | inl f ↦
        rw (e, ready.output, f, ready.unswapped, if◌then◌else◌)
          (narrow-apart left right (length bytes) (omega (arith, fits, twins.size_left))
            twins.left_right)
    | inr f ↦
        rw (e, ready.output, f, ready.swapped, if◌then◌else◌)
          (narrow-apart right left (length bytes) (omega (arith, fits, twins.size_right))
            twins.right_left)
  ];
  content = written;
  room_left = omega (arith, ready.room_left, kept left.region);
  room_right = omega (arith, ready.room_right, kept right.region);
}
