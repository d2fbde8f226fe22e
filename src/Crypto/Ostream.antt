-- ===== src/Crypto/Ostream.antt =====
-- `cipher_streambuf` of src/crypto/ostream.cpp over any chunk processor: what is written to it is kept
-- in a buffer, and goes through the processor to the output stream when the buffer is full, at a
-- flush and at the end. A call of the processor that fails leaves as an exception, behind which the
-- input stays pending. The buffer for the processor's output is taken to be large enough.
pub mod Calls
pub mod Invariant
pub mod Whole
use cpp_essence.Prelude.{
  ℕ, Bool, true, false, Option, none, some, List, [], ◌∷◌, ◌++◌, Bytes, length, ltb, if◌then◌else◌,
}
use cpp_essence.Crypto.Pipeline.{Processing}

-- The processor is there while the stream is open. The bytes between `pbase` and `pptr` are pending,
-- the capacity is that of the buffer set by `setp`, and the output stream has got what is written. Whether
-- the last call of the processor threw is raised.
pub record CipherStreambuf {ℓ} (P : Type ℓ) : Type ℓ where
  pub processor : Option P
  pub pending : Bytes
  pub capacity : ℕ
  pub written : Bytes
  pub raised : Bool

module _ {ℓ} {P : Type ℓ} (c : Processing P) where
  -- What `init` makes of the processor is a parameter.
  unfoldable pub init : (P → P) → ℕ → P → CipherStreambuf P → CipherStreambuf P
  init initialized buffer_size p b = record b {
    processor = some (initialized p);
    pending = [];
    capacity = buffer_size;
    raised = false;
  }

  unfoldable pub process_with : Option P → CipherStreambuf P → CipherStreambuf P
  process_with none b = b
  process_with (some p) b =
      let (p', output) = c.update p b.pending in
      if c.accepts p b.pending
      then record b {
        processor = some p';
        pending = [];
        written = b.written ++ output;
        raised = false;
      }
      else record b { processor = some p'; raised = true }

  unfoldable pub process_buffer : CipherStreambuf P → CipherStreambuf P
  unfolding process_with
  process_buffer b = process_with b.processor b

  unfoldable pub put_char : ℕ → CipherStreambuf P → CipherStreambuf P
  put_char ch b = record b { pending = b.pending ++ ch ∷ [] }

  -- Behind a call of the processor: the exception, or what follows.
  unfoldable pub unless_raised :
      (CipherStreambuf P → CipherStreambuf P) → CipherStreambuf P → Bool × CipherStreambuf P
  unless_raised next b = if b.raised then (false, b) else (true, next b)

  -- `overflow` for a character; the answer is false for the end of the file and for an exception.
  unfoldable pub overflow_with : Option P → ℕ → CipherStreambuf P → Bool × CipherStreambuf P
  unfolding process_buffer put_char unless_raised
  overflow_with none ch b = (false, b)
  overflow_with (some p) ch b =
      if ltb (length b.pending) b.capacity
      then (true, put_char ch b)
      else unless_raised (put_char ch) (process_buffer b)

  -- `sputc` of the standard library, which calls `overflow` if there is no room.
  unfoldable pub sputc : ℕ → CipherStreambuf P → Bool × CipherStreambuf P
  unfolding put_char overflow_with
  sputc ch b =
      if ltb (length b.pending) b.capacity
      then (true, put_char ch b)
      else overflow_with b.processor ch b

  -- The answer is true for zero, and false for an exception too. Flushing the output stream is not
  -- modelled.
  unfoldable pub sync_with : Option P → CipherStreambuf P → Bool × CipherStreambuf P
  unfolding process_buffer unless_raised
  sync_with none b = (false, b)
  sync_with (some p) b =
      if ltb 0 (length b.pending) then unless_raised (λ r. r) (process_buffer b) else (true, b)

  unfoldable pub sync : CipherStreambuf P → Bool × CipherStreambuf P
  unfolding sync_with
  sync b = sync_with b.processor b

  unfoldable pub finalize_with : Option P → CipherStreambuf P → CipherStreambuf P
  finalize_with none b = b
  finalize_with (some p) b =
      let (p', output) = c.finalize p in
      if c.accepts_end p
      then record b { processor = some p'; written = b.written ++ output; raised = false }
      else record b { processor = some p'; raised = true }

  unfoldable pub finalize_streambuf : CipherStreambuf P → CipherStreambuf P
  unfolding sync finalize_with
  finalize_streambuf b = let (ok, b') = sync b in if ok then finalize_with b'.processor b' else b'

  unfoldable pub close_with : Option P → CipherStreambuf P → CipherStreambuf P
  unfolding finalize_streambuf
  close_with none b = b
  close_with (some p) b =
      let r = finalize_streambuf b in
      if r.raised then r else record r { processor = none; pending = []; capacity = 0 }

  unfoldable pub close : CipherStreambuf P → CipherStreambuf P
  unfolding close_with
  close b = close_with b.processor b

-- What the user of the stream does to it.
pub data Operation : Type 0 where
  put : ℕ → Operation
  flush : Operation

module _ {ℓ} {P : Type ℓ} (c : Processing P) where
  unfoldable pub operate : Operation → CipherStreambuf P → Bool × CipherStreambuf P
  unfolding sputc sync
  operate (put ch) b = sputc c ch b
  operate flush b = sync c b

  -- Whether all of it was answered well, and what is left.
  unfoldable pub operate_all : List Operation → CipherStreambuf P → Bool × CipherStreambuf P
  unfolding operate
  operate_all [] b = (true, b)
  operate_all (o ∷ os) b =
      let (ok, b') = operate o b in if ok then operate_all os b' else (false, b')

-- The characters that are put.
abbrev pub characters : List Operation → Bytes
characters [] = []
characters (put ch ∷ os) = ch ∷ characters os
characters (flush ∷ os) = characters os
