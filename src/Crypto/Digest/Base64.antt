-- ===== src/Crypto/Digest/Base64.antt =====
-- What base64_encode makes is decoded back.
use cpp_essence.Prelude.{
  ℕ, zero, suc, ◌+◌, ◌-◌, ◌*◌, ◌/◌, ◌%◌, ◌^◌, ◌<◌, ◌≡◌, refl, sym, ap, ◌∙◌, false, [], ◌∷◌, ◌++◌,
  Option, none, some, ltb, ◌==◌, length, take, Bytes, replicate, arith, length-append,
  length-replicate, take-append,
}
use cpp_essence.Crypto.Digest.{
  ok, then_do, trailing_paddings, padding_size, base64_encode, remove_paddings, base64_decode,
}

-- How many bytes the last group of three lacks.
abbrev pub missing : Bytes → ℕ
missing buffer = (length buffer + 2) / 3 * 3 - length buffer

-- The text of some bytes: its end, where every character that is missing is a `=`.
pub record Ending (text : Bytes) (n : ℕ) : Type 0 where
  pub front : Bytes
  pub last : ℕ
  pub splits : text ≡ front ++ (last ∷ replicate n b'=')
  pub other : (last == b'=') ≡ false

-- A buffer whose text has a size that an int32 holds.
abbrev pub IsSmall : Bytes → Type 0
IsSmall buffer = (length buffer + 2) / 3 * 4 < 2 ^ 31

-- What OpenSSL documents for EVP_EncodeBlock and EVP_DecodeBlock, which are handed the sizes of small
-- buffers and texts.
pub record IsBase64 (encode : ℕ → Bytes → Bytes) (decode : ℕ → Bytes → Option Bytes) : Type 0 where
  pub size :
      (buffer : Bytes)
      → IsSmall buffer
      → length (encode (length buffer) buffer) ≡ (length buffer + 2) / 3 * 4
  pub padded :
      (c : ℕ) (rest : Bytes)
      → IsSmall (c ∷ rest)
      → Ending (encode (length (c ∷ rest)) (c ∷ rest)) (missing (c ∷ rest))
  pub zeros :
      (buffer : Bytes)
      → IsSmall buffer
      → decode ((length buffer + 2) / 3 * 4) (encode (length buffer) buffer)
        ≡ some (buffer ++ replicate (missing buffer) 0)

-- The cast leaves the size of a small buffer and of its text.
small_size : (buffer : Bytes) → IsSmall buffer → length buffer % 2 ^ 32 ≡ length buffer
small_size buffer h = omega (arith, h)

small_text : (n : ℕ) → n < 2 ^ 31 → n % 2 ^ 32 ≡ n
small_text n h = omega (arith, h)

only_paddings : (n : ℕ) → trailing_paddings (replicate n b'=') ≡ none
unfolding trailing_paddings
only_paddings zero = refl
only_paddings (suc n) = rw (only_paddings n) refl

trailing_paddings-append :
    (front : Bytes) (last n : ℕ)
    → (last == b'=') ≡ false
    → trailing_paddings (front ++ (last ∷ replicate n b'=')) ≡ some n
unfolding trailing_paddings
trailing_paddings-append [] last n h =
    ground (arith, only_paddings n, h, length-replicate {A = ℕ} n b'=')
trailing_paddings-append (c ∷ front) last n h =
    ground (arith, trailing_paddings-append front last n h)

padding_size-Ending : (text : Bytes) (n : ℕ) → Ending text n → padding_size text ≡ n
unfolding padding_size
padding_size-Ending text n e =
    ap (λ (t : Bytes). padding_size t) e.splits
    ∙ ground (arith, trailing_paddings-append e.front e.last n e.other)

base64_decode-some :
    (decode : ℕ → Bytes → Option Bytes) (text result : Bytes)
    → 0 < length text
    → length text % 4 ≡ 0
    → decode (length text % 2 ^ 32) text ≡ some result
    → length result ≡ length text / 4 * 3
    → base64_decode decode text ≡ ok (remove_paddings (padding_size text) result)
unfolding base64_decode
base64_decode-some decode [] result h four d same = absurd (omega (arith, h))
base64_decode-some decode (c ∷ rest) result h four d same = ground (arith, four, d, same)

remove_paddings-append :
    (buffer tail : Bytes) → remove_paddings (length tail) (buffer ++ tail) ≡ buffer
unfolding remove_paddings
remove_paddings-append buffer tail =
    rw (enough) (ap (λ (n : ℕ). take n (buffer ++ tail)) size ∙ take-append buffer tail)
  where
    size : length (buffer ++ tail) - length tail ≡ length buffer
    size = omega (arith, length-append buffer tail)

    enough : ltb (length (buffer ++ tail)) (length tail) ≡ false
    enough = ground (arith, length-append buffer tail)

base64_decode-encoded :
    (encode : ℕ → Bytes → Bytes) (decode : ℕ → Bytes → Option Bytes)
    → IsBase64 encode decode
    → (c : ℕ) (rest : Bytes) → IsSmall (c ∷ rest)
    → base64_decode decode (encode (length (c ∷ rest)) (c ∷ rest)) ≡ ok (c ∷ rest)
base64_decode-encoded encode decode law c rest small =
    let buffer = c ∷ rest in
    let text : Bytes = encode (length buffer) buffer in
    let zeros : Bytes = replicate (missing buffer) 0 in
    base64_decode-some decode text (buffer ++ zeros) (omega (arith, law.size buffer small))
      (omega (arith, law.size buffer small))
      (ap (λ (n : ℕ). decode (n % 2 ^ 32) text) (law.size buffer small)
        ∙ ap (λ (n : ℕ). decode n text) (small_text ((length buffer + 2) / 3 * 4) small)
        ∙ law.zeros buffer small)
      (omega (
        arith,
        law.size buffer small,
        length-append buffer zeros,
        length-replicate {A = ℕ} (missing buffer) 0,
      ))
    ∙ ap ok (
        ap (λ (n : ℕ). remove_paddings n (buffer ++ zeros))
          (padding_size-Ending text (missing buffer) (law.padded c rest small)
            ∙ sym (length-replicate {A = ℕ} (missing buffer) 0))
        ∙ remove_paddings-append buffer zeros)

base64_encode-ok :
    (encode : ℕ → Bytes → Bytes) (decode : ℕ → Bytes → Option Bytes)
    → IsBase64 encode decode
    → (c : ℕ) (rest : Bytes) → IsSmall (c ∷ rest)
    → base64_encode encode (c ∷ rest) ≡ ok (encode (length (c ∷ rest)) (c ∷ rest))
unfolding base64_encode
base64_encode-ok encode decode law c rest small =
    rw (small_size (c ∷ rest) small) (ground (arith, law.size (c ∷ rest) small))

-- If OpenSSL encodes and decodes blocks as it documents, every buffer, empty or not, whose text has
-- fewer than 2 ^ 31 characters is encoded without an error, and decoding the text gives the buffer
-- back, without the zeros for its padding.
pub base64_decode-base64_encode :
    (encode : ℕ → Bytes → Bytes) (decode : ℕ → Bytes → Option Bytes)
    → IsBase64 encode decode
    → (buffer : Bytes) → (length buffer + 2) / 3 * 4 < 2 ^ 31
    → then_do (base64_encode encode buffer) (base64_decode decode) ≡ ok buffer
unfolding base64_encode base64_decode
base64_decode-base64_encode encode decode law [] small = refl
base64_decode-base64_encode encode decode law (c ∷ rest) small =
    ap (λ r. then_do r (base64_decode decode)) (base64_encode-ok encode decode law c rest small)
    ∙ base64_decode-encoded encode decode law c rest small
