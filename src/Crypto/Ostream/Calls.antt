-- ===== src/Crypto/Ostream/Calls.antt =====
-- What the calls of an open stream come to, where the processor succeeds.
use cpp_essence.Prelude.{
  ℕ, ◌<◌, ◌≡◌, refl, ap, ◌∙◌, true, false, Option, some, [], ◌∷◌, ◌++◌, Bytes, length, ltb, arith,
}
use cpp_essence.Crypto.Pipeline.{Processing}
use cpp_essence.Crypto.Ostream.{
  CipherStreambuf, process_with, process_buffer, unless_raised, put_char, overflow_with, sputc,
  sync_with, sync,
}

pub none_left : (xs : Bytes) → ltb 0 (length xs) ≡ false → xs ≡ []
none_left [] h = refl
none_left (x ∷ xs) h = ground (arith, h)

-- Every call with some input succeeds, and so does every finalization.
pub record Succeeds {ℓ} {P : Type ℓ} (c : Processing P) : Type ℓ where
  pub updates : (p : P) (x : ℕ) (xs : Bytes) → c.accepts p (x ∷ xs) ≡ true
  pub ends : (p : P) → c.accepts_end p ≡ true

module _ {ℓ} {P : Type ℓ} (c : Processing P) where
  pub accepted : Succeeds c → (p : P) (xs : Bytes) → 0 < length xs → c.accepts p xs ≡ true
  accepted ok p [] h = absurd (omega (arith, h))
  accepted ok p (x ∷ xs) h = ok.updates p x xs

  -- What the calls come to at an open stream.
  pub process_buffer-open :
      (b : CipherStreambuf P) (q : P)
      → b.processor ≡ some q
      → c.accepts q b.pending ≡ true
      → process_buffer c b ≡ record b {
        processor = some (c.update q b.pending).0;
        pending = [];
        written = b.written ++ (c.update q b.pending).1;
        raised = false;
      }
  unfolding process_buffer process_with
  process_buffer-open b q e ok = ap (λ (o : Option P). process_with c o b) e ∙ rw ok refl

  pub unless_raised-calm :
      (next : CipherStreambuf P → CipherStreambuf P) (b : CipherStreambuf P)
      → b.raised ≡ false
      → unless_raised c next b ≡ (true, next b)
  unfolding unless_raised
  unless_raised-calm next b h = rw h refl

  pub sputc-full :
      (ch : ℕ) (b : CipherStreambuf P) (q : P)
      → b.processor ≡ some q
      → ltb (length b.pending) b.capacity ≡ false
      → (process_buffer c b).raised ≡ false
      → sputc c ch b ≡ (true, put_char c ch (process_buffer c b))
  unfolding sputc overflow_with
  sputc-full ch b q e full calm = rw full (
      ap (λ (o : Option P). overflow_with c o ch b) e
      ∙ rw full (unless_raised-calm (put_char c ch) (process_buffer c b) calm))

  pub sync-pending :
      (b : CipherStreambuf P) (q : P)
      → b.processor ≡ some q
      → ltb 0 (length b.pending) ≡ true
      → (process_buffer c b).raised ≡ false
      → sync c b ≡ (true, process_buffer c b)
  unfolding sync sync_with
  sync-pending b q e some_pending calm =
      ap (λ (o : Option P). sync_with c o b) e
      ∙ rw some_pending (unless_raised-calm (λ r. r) (process_buffer c b) calm)

  pub sync-nothing :
      (b : CipherStreambuf P) (q : P)
      → b.processor ≡ some q
      → ltb 0 (length b.pending) ≡ false
      → sync c b ≡ (true, b)
  unfolding sync sync_with
  sync-nothing b q e nothing = ap (λ (o : Option P). sync_with c o b) e ∙ rw nothing refl
