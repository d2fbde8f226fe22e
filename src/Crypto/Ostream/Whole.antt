-- ===== src/Crypto/Ostream/Whole.antt =====
-- An output stream writes what the processor makes of all characters in one piece.
use cpp_essence.Prelude.{
  ℕ, ◌<◌, ◌≡◌, refl, sym, ap, ◌∙◌, true, none, some, List, [], ◌++◌, Bytes, arith, append-nil,
}
use cpp_essence.Crypto.Pipeline.{Processing}
use cpp_essence.Crypto.Pipeline.Streaming.{IsStreaming, whole}
use cpp_essence.Crypto.Ostream.{CipherStreambuf, init, close, Operation, operate_all, characters}
use cpp_essence.Crypto.Ostream.Calls.{Succeeds}
use cpp_essence.Crypto.Ostream.Invariant.{Holds, operate_all-Holds, close-Holds}

module _ {ℓ} {P : Type ℓ} (c : Processing P) where
  -- Over a processor whose calls succeed, those with an empty chunk apart, a stream that is opened
  -- accepts every character and flush, and behind its end its processor is gone and the output stream
  -- has got what the processor makes of all characters in one piece, whenever the stream is flushed and
  -- however many characters its buffer has room for, if it is one at least.
  pub ostream-whole :
      (initialized : P → P) (n : ℕ) (p : P) (b : CipherStreambuf P) (os : List Operation)
      → IsStreaming c
      → Succeeds c
      → 0 < n
      → let (ok, r) = operate_all c os (init c initialized n p b) in
        (ok ≡ true)
        × ((close c r).written ≡ b.written ++ whole c (initialized p) (characters os))
        × ((close c r).processor ≡ none)
  unfolding init
  ostream-whole initialized n p b os laws succeeds some_room =
      let q = initialized p in
      let start : Holds c laws succeeds q b.written n [] (init c initialized n p b) = record {
        passed = [];
        split = refl;
        state = ap some (ap (λ (r : P × Bytes). r.0) (sym (laws.update_nil q)));
        output =
            sym (append-nil b.written)
            ∙ ap (λ (r : P × Bytes). b.written ++ r.1) (sym (laws.update_nil q));
        room = omega arith;
        size = refl;
        calm = refl;
      } in
      let (ok, last) =
        operate_all-Holds c laws succeeds q b.written n [] os (init c initialized n p b) some_room
          start in
      let (written, closed) =
        close-Holds c laws succeeds q b.written n (characters os)
          (operate_all c os (init c initialized n p b)).1 last in
      (ok, written, closed)
